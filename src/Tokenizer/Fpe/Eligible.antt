-- ===== src/Tokenizer/Fpe/Eligible.antt =====
-- What `check_eligibility` accepts.
use in_visibool.Prelude.{
  Option-cases, length, all, any, Str, strip_prefix, is_ascii, is_whitespace, strip_prefix-append,
  strip_prefix-eq, ◌^◌, ◌≤◌, ◌<◌, ◌≡◌, refl, ◌↔◌, inl, inr, true, false, none, [], ◌∷◌, ◌++◌, arith,
}
use in_visibool.Tokenizer.Alphabet.{radix, contains, Alphabet}
use in_visibool.Tokenizer.Crypto.{min_domain}
use in_visibool.Tokenizer.Fpe.{first_outside, check_domain, check_body, check_eligibility, eligible}

-- `value` is `prefix` and a body that FF1 can permute.
pub record IsEligible (value prefix : Str) (a : Alphabet) (body : Str) : Type 0 where
  pub splits : value ≡ prefix ++ body
  pub ascii : is_ascii body ≡ true
  pub no_whitespace : any is_whitespace body ≡ false
  pub over_alphabet : all (contains a) body ≡ true
  pub fits : length body < 2 ^ 32
  pub large : min_domain ≤ radix a ^ length body

first_outside-none : (a : Alphabet) (s : Str) → first_outside a s ≡ none → all (contains a) s ≡ true
first_outside-none a [] h = refl
first_outside-none a (c ∷ s) h = ground (arith, first_outside-none a s)

none-first_outside : (a : Alphabet) (s : Str) → all (contains a) s ≡ true → first_outside a s ≡ none
none-first_outside a [] h = refl
none-first_outside a (c ∷ s) h = ground (arith, none-first_outside a s)

check_domain-eligible :
    (a : Alphabet) (body : Str)
    → check_domain a body ≡ eligible
    → (length body < 2 ^ 32) × (min_domain ≤ radix a ^ length body)
unfolding check_domain
check_domain-eligible a body h = ground arith

eligible-check_domain :
    (a : Alphabet) (body : Str)
    → length body < 2 ^ 32
    → min_domain ≤ radix a ^ length body
    → check_domain a body ≡ eligible
unfolding check_domain
eligible-check_domain a body h k = ground arith

check_body-eligible :
    (value prefix : Str) (a : Alphabet) (body : Str)
    → value ≡ prefix ++ body
    → check_body a body ≡ eligible
    → IsEligible value prefix a body
unfolding check_body
check_body-eligible value prefix a body s h =
    let o : first_outside a body ≡ none = ground arith in
    let d : check_domain a body ≡ eligible = ground arith in
    record {
      splits = s;
      ascii = ground arith;
      no_whitespace = ground arith;
      over_alphabet = first_outside-none a body o;
      fits = (check_domain-eligible a body d).0;
      large = (check_domain-eligible a body d).1;
    }

eligible-check_body :
    {value prefix : Str} {a : Alphabet} {body : Str}
    → IsEligible value prefix a body
    → check_body a body ≡ eligible
unfolding check_body
eligible-check_body {a} {body} e =
    rw (e.ascii, e.no_whitespace, none-first_outside a body e.over_alphabet)
      (eligible-check_domain a body e.fits e.large)

-- A value passes the check exactly when it is the prefix followed by an ASCII body without
-- whitespace, over the alphabet, of fewer than 2^32 characters, whose domain radix^length is at
-- least 10^6.
pub check_eligibility_iff :
    (value prefix : Str) (a : Alphabet)
    → (check_eligibility value prefix a ≡ eligible)
      ↔ ((body : Str) × IsEligible value prefix a body)
unfolding check_eligibility
check_eligibility_iff value prefix a = (to, λ (body, e). from body e)
  where
    to : check_eligibility value prefix a ≡ eligible → (body : Str) × IsEligible value prefix a body
    to h = elim (Option-cases (strip_prefix prefix value)) [
      | inl n ↦ ground arith
      | inr (body, p) ↦ (
        body,
        check_body-eligible value prefix a body (strip_prefix-eq prefix value p) (ground arith),
      )
    ]

    from :
        (body : Str) → IsEligible value prefix a body → check_eligibility value prefix a ≡ eligible
    from body e = rw (e.splits, strip_prefix-append, check_eligibility) (eligible-check_body e)
