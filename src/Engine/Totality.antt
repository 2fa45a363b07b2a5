-- ===== src/Engine/Totality.antt =====
-- On ASCII text an engine over sound registrations scrubs without a panic.
use in_visibool.Prelude.{
  ℕ, leb, Bool-cases, length, take, drop, All, All-get_elem?, Str, is_ascii, slice-ascii, ret, ◌+◌,
  ◌-◌, ◌≤◌, ◌≡◌, refl, ◌∙◌, inl, inr, true, Option, none, some, List, [], ◌∷◌, arith,
}
use in_visibool.Tokenizer.Alphabet.{base62, mac_tail_len, Floats}
use in_visibool.Tokenizer.Alphabet.Validate.{base62-IsAlphabet}
use in_visibool.Tokenizer.Crypto.{Crypto, HashLaws, Ff1Laws}
use in_visibool.Tokenizer.Fpe.{
  email, ipv4, phone, SessionFakeKind, card, pii, formatless, SessionRegistration, fake,
}
use in_visibool.Tokenizer.Fpe.Scrubbing.{scrub_total}
use in_visibool.Tokenizer.Fpe.Restoring.{IsRegistered}
use in_visibool.Tokenizer.Mac.Encoding.{IsTailLen}
use in_visibool.Tokenizer.Mac.Verifying.{make_macfake_lem, make_macfake-none}
use in_visibool.Tokenizer.Reserved.{fake_email, fake_ipv4, fake_phone}
use in_visibool.Tokenizer.Reserved.Cards.{fake_card_visa16_lem}
use in_visibool.Detection.{scan_exact, Match, Automata}
use in_visibool.Engine.{
  generate, scrub_impl, RegistrationRef, fpe_at, session_at, Engine, SessionStore,
  EngineScrubResult,
}
use in_visibool.Engine.Linked.{Denotes, IsLinked}
use in_visibool.Engine.Pieces.{fpe_piece, session_piece, ref_piece, Piece}
use in_visibool.Engine.ScrubSpec.{AreHits, joined, expected, counted, scrub_impl_lem, Scrubbed}

-- Every FF1 registration passed its check, and every session value fits what HKDF can expand.
pub record IsSound (f : Floats) (e : Engine) : Type 0 where
  pub key : length e.fpe_tokenizer.ff1_key ≡ 32
  pub fpes : All IsRegistered e.fpe_registered
  pub sessions :
      All
        (λ (r : SessionRegistration). length r.value ≤ mac_tail_len f base62 + 8160)
        e.session_registered
  pub tail : IsTailLen base62 (mac_tail_len f base62)

module _ (f : Floats) (c : Crypto) (hashes : HashLaws c) (laws : Ff1Laws c) (e : Engine)
    (sound : IsSound f e) where
  generate_total :
      (reg : SessionRegistration) (kind : SessionFakeKind)
      → length reg.value ≤ mac_tail_len f base62 + 8160
      → (t : Option Str) × (generate f c e reg kind ≡ ret t)
  unfolding generate
  generate_total reg (pii email) h = (some (fake_email c reg.value), refl)
  generate_total reg (pii ipv4) h = (some (fake_ipv4 c reg.value), refl)
  generate_total reg (pii phone) h = (some (fake_phone c reg.value), refl)
  generate_total reg card h = elim (fake_card_visa16_lem c hashes reg.value reg.value) [
    | inl (_, p) ↦ (none, p)
    | inr (out, _, p, _, _, _, _) ↦ (some out, p)
  ]
  generate_total reg formatless h =
      elim (Bool-cases (leb (length reg.value) (mac_tail_len f base62))) [
        | inl short ↦ (none, make_macfake-none f c e.session_mac_key reg.value base62 short)
        | inr long ↦
            let (s, p, _, _, _) =
              make_macfake_lem f c hashes e.session_mac_key base62 base62-IsAlphabet sound.tail
                reg.value (ground arith) h in
            (some s, p)
      ]

  ref_piece_total :
      (s : SessionStore) (ref : RegistrationRef) (v : Str)
      → Denotes e.fpe_registered e.session_registered ref v
      → (p : Piece) × (ref_piece f c e s ref ≡ ret p)
  ref_piece_total s (fpe_at idx) v (reg, at, _) =
      let w = All-get_elem? IsRegistered e.fpe_registered idx sound.fpes at in
      let (t, _, p, _, _) =
        scrub_total c laws e.fpe_tokenizer sound.key reg w.alphabet_ok w.checked in
      (fpe_piece s reg (fake t), rw (at, p) refl)
  ref_piece_total s (session_at idx) v (reg, at, _) =
      let short =
        All-get_elem? (λ (r : SessionRegistration). length r.value ≤ mac_tail_len f base62 + 8160)
          e.session_registered idx sound.sessions at in
      let (t, p) = generate_total reg reg.kind short in (session_piece s reg t, rw (at, p) refl)

  expected_total :
      (linked : IsLinked e) (input : Str)
      → is_ascii input ≡ true
      → (ms : List Match) (cursor : ℕ) (s : SessionStore) → AreHits e.values input cursor ms
      → (r : Scrubbed) × (expected f c e input cursor s ms ≡ ret r)
  expected_total linked input ascii [] cursor s h =
      let cut = slice-ascii input cursor (length input) ascii h (omega arith) in
      (
        record { text = take (length input - cursor) (drop cursor input); notes = []; left = s },
        rw cut refl,
      )
  expected_total linked input ascii (m ∷ ms) cursor s (id, v, k, at, _, before, inside, within, h) =
      let gap = slice-ascii input cursor m.start ascii before (omega arith) in
      let (ref, there, d) = linked id v at in
      let (p, q) = ref_piece_total s ref v d in
      let (later, l) = expected_total linked input ascii ms m.finish p.left h in
      (joined (take (m.start - cursor) (drop cursor input)) p later, rw (gap, k, there, q, l) refl)

  -- On ASCII input, where the matcher reports occurrences of registered values in order, the engine's
  -- table is linked, every FF1 registration passed its check and the session values fit HKDF,
  -- scrub returns without a panic, with or without a session store, and it counts every hit.
  pub scrub_impl_total :
      (ac : Automata) (input : Str) (s : SessionStore)
      → IsLinked e
      → is_ascii input ≡ true
      → AreHits e.values input 0 (scan_exact ac e.values input)
      → (r : EngineScrubResult × SessionStore) × (scrub_impl ac f c e input s ≡ ret r)
        × (r.0.scrubbed_count ≡ length (scan_exact ac e.values input))
  scrub_impl_total ac input s linked ascii hits =
      let ms = scan_exact ac e.values input in
      let (r, p) = expected_total linked input ascii ms 0 s hits in
      (counted (length ms) r, scrub_impl_lem f c e linked input ac s hits ∙ rw p refl, refl)
