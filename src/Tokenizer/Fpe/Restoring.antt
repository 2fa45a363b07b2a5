-- ===== src/Tokenizer/Fpe/Restoring.antt =====
-- What `FpeTokenizer::try_restore` answers: exactly the fakes of the registered values are undone.
use in_visibool.Prelude.{
  ◌==◌, ==_iff, Option-cases, some_inj, length, get_elem?, all, All, length-append, Str,
  strip_prefix, strip_prefix-append, strip_prefix-eq, Run-cases, ret, panic, ℕ, zero, suc, ◌+◌, ◌-◌,
  ◌≡◌, refl, sym, ap, ◌∙◌, subst, ◌≢◌, inl, inr, true, none, some, List, [], ◌∷◌, ◌++◌, arith,
}
use in_visibool.Tokenizer.Alphabet.{radix, contains}
use in_visibool.Tokenizer.Alphabet.Validate.{IsAlphabet}
use in_visibool.Tokenizer.Crypto.{Crypto, HashLaws, Ff1Laws}
use in_visibool.Tokenizer.Fpe.{
  eligible, check_eligibility, fake, encrypt_body, scrub, accept, decrypt_body, try_registration,
  try_restore, FpeRegistration, FpeTokenizer,
}
use in_visibool.Tokenizer.Fpe.Numerals.{body_to_numerals_lem, numerals_to_body_lem}
use in_visibool.Tokenizer.Fpe.Scrubbing.{
  encrypt_body_lem, scrub-encrypt_body, scrub-inv, HasProfile,
}
use in_visibool.Tokenizer.Fpe.Eligible.{check_eligibility_iff, IsEligible}

-- A registration as `register` stores it: a valid alphabet, and a value that passed the check.
pub record IsRegistered (reg : FpeRegistration) : Type 0 where
  pub alphabet_ok : IsAlphabet reg.alphabet.chars
  pub checked : check_eligibility reg.value reg.prefix reg.alphabet ≡ eligible

module _ (c : Crypto) (hashes : HashLaws c) (laws : Ff1Laws c) (t : FpeTokenizer)
    (key : length t.ff1_key ≡ 32) where
  accept_self : (reg : FpeRegistration) → accept c reg reg.value ≡ some reg.value
  unfolding accept
  accept_self reg = rw ((hashes.ct_eq_iff reg.value reg.value).1 refl)

  accept-inv :
      (reg : FpeRegistration) (s : Str) {v : Str}
      → accept c reg s ≡ some v
      → (v ≡ reg.value) × (s ≡ reg.value)
  unfolding accept
  accept-inv reg s h = (ground arith, (hashes.ct_eq_iff s reg.value).0 (ground arith))

  -- The body of an eligible value is what follows the prefix.
  body_of :
      (reg : FpeRegistration) (pt : Str)
      → IsRegistered reg
      → reg.value ≡ reg.prefix ++ pt
      → IsEligible reg.value reg.prefix reg.alphabet pt
  body_of reg pt w sp =
      let (body, e) = (check_eligibility_iff reg.value reg.prefix reg.alphabet).0 w.checked in
      let same : some body ≡ some pt =
        sym (strip_prefix-append reg.prefix body)
        ∙ ap (strip_prefix reg.prefix) (sym e.splits ∙ sp)
        ∙ strip_prefix-append reg.prefix pt in
      subst (IsEligible reg.value reg.prefix reg.alphabet) (some_inj same) e

  -- A text with the profile of the registration goes on to the decryption of its body.
  try_registration-decrypt_body :
      (reg : FpeRegistration) {s : Str} (body : Str)
      → HasProfile reg s body
      → try_registration c t s reg ≡ decrypt_body c t reg body
  unfolding try_registration
  try_registration-decrypt_body reg body p =
      let strip = strip_prefix-append reg.prefix body in
      let long : (length body == (length reg.value - length reg.prefix)) ≡ true =
        (==_iff _ _).1 p.long in
      rw (p.splits, strip, long, p.over_alphabet, try_registration)

  -- The fake of a registration is undone in the round of that registration.
  try_registration-scrub :
      (reg : FpeRegistration) {f : Str}
      → IsRegistered reg
      → scrub c t reg ≡ ret (fake f)
      → try_registration c t f reg ≡ ret (some reg.value)
  try_registration-scrub reg {f} w h =
      let (body, e, enc) = scrub-inv c laws t key reg h in
      let (cipher, enc', len, over, dec) = encrypt_body_lem c laws t key reg body w.alphabet_ok e in
      let total : length reg.value ≡ length reg.prefix + length body =
        ap length e.splits ∙ length-append reg.prefix body in
      let profile : HasProfile reg f cipher = record {
        splits = cc (enc, enc');
        long = omega arith;
        over_alphabet = over;
      } in
      let back : accept c reg (reg.prefix ++ body) ≡ some reg.value =
        ap (accept c reg) (sym e.splits) ∙ accept_self reg in
      try_registration-decrypt_body reg cipher profile ∙ dec ∙ ap ret back

  -- The last step of a round that accepts: the decrypted numerals spell the registered value.
  decrypt_body-inv :
      (reg : FpeRegistration) (body : Str) {v : Str}
      → IsAlphabet reg.alphabet.chars
      → all (contains reg.alphabet) body ≡ true
      → decrypt_body c t reg body ≡ ret (some v)
      → (v ≡ reg.value)
        × ((pt_body : Str) × (reg.value ≡ reg.prefix ++ pt_body)
            × (encrypt_body c t reg pt_body ≡ ret (fake (reg.prefix ++ body))))
  unfolding decrypt_body encrypt_body
  decrypt_body-inv reg body {v} w over h =
      let (ys, to_ys, below, len, from_ys) =
        body_to_numerals_lem reg.alphabet body w.at_most over in
      let new = laws.new_ok t.ff1_key (radix reg.alphabet) key w.at_least_two w.at_most in
      let h1 = rw (to_ys, new, decrypt_body) at h in
      elim (Option-cases (c.ff1_decrypt t.ff1_key (radix reg.alphabet) reg.tweak ys)) [
        | inl n ↦ ground arith
        | inr (xs, p) ↦
            let (below', len', enc) =
              laws.decrypts t.ff1_key (radix reg.alphabet) reg.tweak ys xs below p in
            let (pt_body, from_xs, over', len'', to_xs) =
              numerals_to_body_lem reg.alphabet xs w below' in
            let acc : accept c reg (reg.prefix ++ pt_body) ≡ some v = ground arith in
            let (ev, es) = accept-inv reg (reg.prefix ++ pt_body) acc in
            (ev, (pt_body, sym es, rw (to_xs, new, enc, from_ys) refl))
      ]

  decrypt_body-ne-panic :
      (reg : FpeRegistration) (body : Str)
      → IsAlphabet reg.alphabet.chars
      → all (contains reg.alphabet) body ≡ true
      → decrypt_body c t reg body ≢ panic
  unfolding decrypt_body
  decrypt_body-ne-panic reg body w over h =
      let (ys, to_ys, below, len, from_ys) =
        body_to_numerals_lem reg.alphabet body w.at_most over in
      let new = laws.new_ok t.ff1_key (radix reg.alphabet) key w.at_least_two w.at_most in
      let h1 = rw (to_ys, new, decrypt_body) at h in
      elim (Option-cases (c.ff1_decrypt t.ff1_key (radix reg.alphabet) reg.tweak ys)) [
        | inl n ↦ ground arith
        | inr (xs, p) ↦
            let (below', _, _) =
              laws.decrypts t.ff1_key (radix reg.alphabet) reg.tweak ys xs below p in
            let (pt_body, from_xs, _, _, _) = numerals_to_body_lem reg.alphabet xs w below' in
            ground arith
      ]

  -- A round that accepts a text answers the registered value, and the text is its fake.
  try_registration-inv :
      (reg : FpeRegistration) {s v : Str}
      → IsRegistered reg
      → try_registration c t s reg ≡ ret (some v)
      → (v ≡ reg.value) × (scrub c t reg ≡ ret (fake s))
  unfolding try_registration
  try_registration-inv reg {s} {v} w h = elim (Option-cases (strip_prefix reg.prefix s)) [
    | inl n ↦ ground arith
    | inr (body, p) ↦
        let over : all (contains reg.alphabet) body ≡ true = ground arith in
        let d : decrypt_body c t reg body ≡ ret (some v) = ground arith in
        let (ev, (pt, sp, enc)) = decrypt_body-inv reg body w.alphabet_ok over d in
        let e : IsEligible reg.value reg.prefix reg.alphabet pt = body_of reg pt w sp in
        (
          ev,
          scrub-encrypt_body c laws t key reg pt e
              ∙ enc
              ∙ ap (λ z. ret (fake z)) (sym (strip_prefix-eq reg.prefix s p)),
        )
  ]

  -- A round on a registered value does not panic.
  try_registration-ne-panic :
      (reg : FpeRegistration) (s : Str) → IsRegistered reg → try_registration c t s reg ≢ panic
  unfolding try_registration
  try_registration-ne-panic reg s w h = elim (Option-cases (strip_prefix reg.prefix s)) [
    | inl n ↦ ground arith
    | inr (body, p) ↦
        let over : all (contains reg.alphabet) body ≡ true = ground arith in
        let d : decrypt_body c t reg body ≡ panic = ground arith in
        decrypt_body-ne-panic reg body w.alphabet_ok over d
  ]

  -- Over registrations that passed their check, what trial restore returns is the registered value whose fake the
  -- text is: `v` stands in the set at some index `i`, and scrubbing that registration gives `s`.
  pub try_restore_sound :
      (set : List FpeRegistration) (s : Str) {v : Str}
      → All IsRegistered set
      → try_restore c t s set ≡ ret (some v)
      → (i : ℕ) × (reg : FpeRegistration) × (get_elem? set i ≡ some reg)
        × (v ≡ reg.value)
        × (scrub c t reg ≡ ret (fake s))
  unfolding try_restore
  try_restore_sound [] s w h = cc
  try_restore_sound (reg ∷ set) s {v} (w, ws) h = elim (Run-cases (try_registration c t s reg)) [
    | inl e ↦ absurd (try_registration-ne-panic reg s w e)
    | inr (none, e) ↦
        let (i, r, at, ev, sc) = try_restore_sound set s {v = v} ws (rw e at h) in
        (suc i, r, at, ev, sc)
    | inr (some u, e) ↦
        let uv : u ≡ v = ground arith in
        let (ev, sc) = try_registration-inv reg w e in (0, reg, refl, sym uv ∙ ev, sc)
  ]

  -- Over registrations that passed their check, the fake of any of them is restored to some value of the set, never passed over.
  pub try_restore_complete :
      (set : List FpeRegistration) (i : ℕ) {reg : FpeRegistration} {f : Str}
      → All IsRegistered set
      → get_elem? set i ≡ some reg
      → scrub c t reg ≡ ret (fake f)
      → (v : Str) × (try_restore c t f set ≡ ret (some v))
  unfolding try_restore
  try_restore_complete [] i w at h = cc
  try_restore_complete (r ∷ set) zero {reg} (w, ws) at h =
      let same : r ≡ reg = some_inj at in
      (reg.value, rw (same, try_registration-scrub reg (subst IsRegistered same w) h) refl)
  try_restore_complete (r ∷ set) (suc i) {f = f} (w, ws) at h =
      elim (Run-cases (try_registration c t f r)) [
        | inl e ↦ absurd (try_registration-ne-panic r f w e)
        | inr (none, e) ↦ let (v, p) = try_restore_complete set i ws at h in (v, rw e p)
        | inr (some u, e) ↦ (u, rw e refl)
      ]

  -- Round trip, over registrations that passed their check: if no other registered value has the same fake, the fake of a registered value is
  -- restored to that value.
  pub try_restore-scrub :
      (set : List FpeRegistration) (i : ℕ) {reg : FpeRegistration} {f : Str}
      → All IsRegistered set
      → get_elem? set i ≡ some reg
      → scrub c t reg ≡ ret (fake f)
      → ((j : ℕ) (other : FpeRegistration)
          → get_elem? set j ≡ some other
          → scrub c t other ≡ ret (fake f)
          → other.value ≡ reg.value)
      → try_restore c t f set ≡ ret (some reg.value)
  try_restore-scrub set i {reg} {f} w at h unique =
      let (v, p) = try_restore_complete set i w at h in
      let (j, other, at', ev, sc) = try_restore_sound set f w p in
      p ∙ ap (λ z. ret (some z)) (ev ∙ unique j other at' sc)

  -- Trial restore never panics on a set of registered values.
  pub try_restore-ne-panic :
      (set : List FpeRegistration) (s : Str) → All IsRegistered set → try_restore c t s set ≢ panic
  unfolding try_restore
  try_restore-ne-panic [] s w h = cc
  try_restore-ne-panic (reg ∷ set) s (w, ws) h = elim (Run-cases (try_registration c t s reg)) [
    | inl e ↦ try_registration-ne-panic reg s w e
    | inr (none, e) ↦ try_restore-ne-panic set s ws (rw e at h)
    | inr (some u, e) ↦ ground arith
  ]
