-- ===== src/Idempotence/Precedence.antt =====
-- When `classify` scrubs, and when it leaves a candidate alone.
use in_visibool.Prelude.{
  ℕ, Bool-cases, some_inj, length, get_elem?, All, All-tabulate, Str, str_eq, str_eq_iff, ret, zero,
  suc, ◌≡◌, sym, ap, ◌∙◌, ◌≢◌, ◌⊎◌, inl, inr, true, false, some, List, [], ◌∷◌, arith,
}
use in_visibool.Tokenizer.Alphabet.{Alphabet, Floats}
use in_visibool.Tokenizer.Crypto.{Crypto, HashLaws, Ff1Laws}
use in_visibool.Tokenizer.Fpe.{scrub, FpeRegistration, fake}
use in_visibool.Tokenizer.Fpe.Restoring.{try_restore_complete, IsRegistered}
use in_visibool.Tokenizer.Mac.{verify}
use in_visibool.Idempotence.{
  scrub_it, no_op, is_in_reserved_range, is_registered_value, classify_stateless, classify_retired,
  classify, ff1_decrypted_to_registered, IdempotenceContext,
}

is_registered_value-get_elem? :
    (s : Str) (rs : List FpeRegistration) (i : ℕ) {r : FpeRegistration}
    → get_elem? rs i ≡ some r
    → s ≡ r.value
    → is_registered_value s rs ≡ true
is_registered_value-get_elem? s [] i at e = cc
is_registered_value-get_elem? s (x ∷ rs) zero {r} at e =
    let same : x ≡ r = some_inj at in
    let hit : str_eq s x.value ≡ true =
      (str_eq_iff s x.value).1 (e ∙ ap (λ (z : FpeRegistration). z.value) (sym same)) in
    rw hit
is_registered_value-get_elem? s (x ∷ rs) (suc i) at e =
    ground (arith, is_registered_value-get_elem? s rs i at e)

module _ (f : Floats) (c : Crypto) (ctx : IdempotenceContext) where
  -- A candidate that equals a registered value is scrubbed, whatever the other checks say of it.
  pub classify_precedence :
      (candidate : Str) (a : Alphabet) (i : ℕ) {r : FpeRegistration}
      → get_elem? ctx.registered i ≡ some r
      → candidate ≡ r.value
      → classify f c ctx candidate a ≡ ret scrub_it
  unfolding classify
  classify_precedence candidate a i at e =
      rw (is_registered_value-get_elem? candidate ctx.registered i at e, classify)

  module _ (hashes : HashLaws c) (laws : Ff1Laws c) (key : length ctx.fpe_tokenizer.ff1_key ≡ 32)
      (sound : All IsRegistered ctx.registered) where
    -- Scrubbing twice, over registrations that passed their check: the FF1 fake of a registered value that equals no registered value is left
    -- alone, as a fake that decrypts to a registered value.
    classify-scrub :
        (a : Alphabet) (i : ℕ) {r : FpeRegistration} {s : Str}
        → get_elem? ctx.registered i ≡ some r
        → scrub c ctx.fpe_tokenizer r ≡ ret (fake s)
        → is_registered_value s ctx.registered ≡ false
        → classify f c ctx s a ≡ ret (no_op ff1_decrypted_to_registered)
    unfolding classify
    classify-scrub a i {s = s} at h new =
        let (v, p) =
          try_restore_complete c hashes laws ctx.fpe_tokenizer key ctx.registered i sound at h in
        rw (new, p, classify)

    -- Over registrations that passed their check, a candidate that is scrubbed is a registered value, or it passed every check: it is the fake
    -- of no registered and no retired value, lies in no reserved range and does not verify.
    pub classify-scrub_sound :
        (candidate : Str) (a : Alphabet)
        → All IsRegistered ctx.retired
        → classify f c ctx candidate a ≡ ret scrub_it
        → (is_registered_value candidate ctx.registered ≡ true)
          ⊎ (All
                (λ (r : FpeRegistration). scrub c ctx.fpe_tokenizer r ≢ ret (fake candidate))
                ctx.registered
              × All
                  (λ (r : FpeRegistration). scrub c ctx.fpe_tokenizer r ≢ ret (fake candidate))
                  ctx.retired
              × (is_in_reserved_range candidate ≡ false)
              × (verify f c ctx.session_mac_key candidate a ≡ ret false))
    unfolding classify classify_retired classify_stateless
    classify-scrub_sound candidate a retired_ok h =
        elim (Bool-cases (is_registered_value candidate ctx.registered)) [
          | inl e ↦ inl e
          | inr e ↦ inr (
            All-tabulate ctx.registered (λ i r at same.
                let (v, p) =
                  try_restore_complete c hashes laws ctx.fpe_tokenizer key ctx.registered i sound at
                    same in
                ground arith),
            All-tabulate ctx.retired (λ i r at same.
                let (v, p) =
                  try_restore_complete c hashes laws ctx.fpe_tokenizer key ctx.retired i retired_ok
                    at same in
                ground arith),
            ground arith,
            ground arith,
          )
        ]
