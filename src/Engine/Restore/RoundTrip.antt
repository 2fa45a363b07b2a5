-- ===== src/Engine/Restore/RoundTrip.antt =====
-- A text that is one fake goes back to its registered value.
use native.Mathlib.Nat.{pow-zero}
use in_visibool.Prelude.{
  ℕ, length, get_elem?, All, length-append, All-get_elem?, Str, is_ascii, ret_inj, ret, zero, suc,
  ◌+◌, ◌^◌, ◌≤◌, ◌<◌, ◌≡◌, sym, ap, ◌∙◌, subst, true, some, [], ◌∷◌, append-nil, arith,
}
use in_visibool.Tokenizer.Alphabet.{radix}
use in_visibool.Tokenizer.Crypto.{min_domain, Crypto, HashLaws, Ff1Laws}
use in_visibool.Tokenizer.Fpe.{scrub, try_restore, FpeRegistration, fake}
use in_visibool.Tokenizer.Fpe.Eligible.{check_eligibility_iff}
use in_visibool.Tokenizer.Fpe.Scrubbing.{scrub_total, HasProfile}
use in_visibool.Tokenizer.Fpe.Restoring.{try_restore-scrub, IsRegistered}
use in_visibool.Detection.{sort_by}
use in_visibool.Detection.Sorting.{All-sort_by}
use in_visibool.Engine.{Engine}
use in_visibool.Engine.Restore.{pair_before, restored_text, restore_loop, restore}
use in_visibool.Engine.Restore.Candidates.{all_candidates_lem}
use in_visibool.Engine.Restore.Profile.{
  whole_span, length-sort_by, dedup-repeats, slice_whole, slice_empty, all_candidates-profile,
}

-- The loop on the one span that is the whole text.
restore_loop-whole :
    (c : Crypto) (e : Engine) (s : Str) {v : Str}
    → is_ascii s ≡ true
    → try_restore c e.fpe_tokenizer s e.fpe_registered ≡ ret (some v)
    → restore_loop c e s 0 ((0, length s) ∷ []) ≡ ret (record { output = v; restored_count = 1 })
unfolding restore_loop restored_text
restore_loop-whole c e s {v} ascii h =
    let start = slice_empty s 0 ascii (omega arith) in
    let whole = slice_whole s ascii in
    let last = slice_empty s (length s) ascii (omega arith) in
    rw (start, whole, h, last)
      (ap (λ t. ret (record { output = t; restored_count = 1 })) (append-nil v))

nonempty : (r n : ℕ) → min_domain ≤ r ^ n → 0 < n
nonempty r zero h = omega (arith, pow-zero r)
nonempty r (suc n) h = omega arith

prefix_shorter : (r : FpeRegistration) → IsRegistered r → length r.prefix < length r.value
prefix_shorter r w =
    let (body, el) = (check_eligibility_iff r.value r.prefix r.alphabet).0 w.checked in
    let parts : length r.value ≡ length r.prefix + length body =
      ap length el.splits ∙ length-append r.prefix body in
    let some_body = nonempty (radix r.alphabet) (length body) el.large in omega arith

fake_inj : {x y : Str} → fake x ≡ fake y → x ≡ y
fake_inj h = cc

module _ (c : Crypto) (hashes : HashLaws c) (laws : Ff1Laws c) (e : Engine)
    (key : length e.fpe_tokenizer.ff1_key ≡ 32) (sound : All IsRegistered e.fpe_registered) where
  -- Round trip of the engine, over registrations that passed their check: a text that is the ASCII fake of a registered value is restored to that
  -- value, provided that no other value has the same fake and that no FF1 value is shorter than it,
  -- so that no shorter span takes the place of the fake.
  pub restore-scrub :
      (i : ℕ) {reg : FpeRegistration} {f : Str}
      → get_elem? e.fpe_registered i ≡ some reg
      → scrub c e.fpe_tokenizer reg ≡ ret (fake f)
      → is_ascii f ≡ true
      → ((j : ℕ) (other : FpeRegistration)
          → get_elem? e.fpe_registered j ≡ some other
          → scrub c e.fpe_tokenizer other ≡ ret (fake f)
          → other.value ≡ reg.value)
      → All (λ (r : FpeRegistration). length f ≤ length r.value) e.fpe_registered
      → restore c e f ≡ ret (record { output = reg.value; restored_count = 1 })
  unfolding restore
  restore-scrub i {reg} {f} at made ascii unique longest =
      let w = All-get_elem? IsRegistered e.fpe_registered i sound at in
      let (f', body, p, profile, size) =
        scrub_total c laws e.fpe_tokenizer key reg w.alphabet_ok w.checked in
      let same : f' ≡ f = fake_inj (ret_inj (sym p ∙ made)) in
      let profile_f : HasProfile reg f body = subst (λ s. HasProfile reg s body) same profile in
      let size_f : length f ≡ length reg.value = ap length (sym same) ∙ size in
      let (ps, q, spans) = all_candidates_lem (length f) f e.fpe_registered ascii longest in
      let found =
        all_candidates-profile f body e.fpe_registered i ascii at profile_f size_f
          (prefix_shorter reg w) q in
      let sorted =
        All-sort_by pair_before (λ (x : ℕ × ℕ). x ≡ (0, length f)) ps (whole_span f ps spans) in
      let one =
        dedup-repeats (0, length f) (sort_by pair_before ps) sorted (length-sort_by ps found) in
      let tried =
        try_restore-scrub c hashes laws e.fpe_tokenizer key e.fpe_registered i sound at made
          unique in
      rw (q, one) (restore_loop-whole c e f ascii tried)
