-- ===== src/Tokenizer/Fpe/Scrubbing.antt =====
-- What `FpeTokenizer::scrub` returns for a registration.
use in_visibool.Prelude.{
  length, all, length-append, Str, strip_prefix, strip_prefix-append, ret, ◌+◌, ◌-◌, ◌^◌, ◌≤◌, ◌<◌,
  ◌≡◌, refl, sym, ap, ◌∙◌, true, some, ◌++◌, arith,
}
use in_visibool.Tokenizer.Alphabet.{radix, contains}
use in_visibool.Tokenizer.Alphabet.Validate.{IsAlphabet}
use in_visibool.Tokenizer.Crypto.{min_domain, Crypto, Ff1Laws}
use in_visibool.Tokenizer.Fpe.{
  eligible, ineligible, check_eligibility, fake, encrypt_body, scrub, accept, decrypt_body,
  FpeRegistration, Eligibility, FpeTokenizer,
}
use in_visibool.Tokenizer.Fpe.Numerals.{body_to_numerals_lem, numerals_to_body_lem}
use in_visibool.Tokenizer.Fpe.Eligible.{check_eligibility_iff, IsEligible}

-- A text with the profile of `reg`: its prefix, and a body over its alphabet of the length that the
-- registered value's body has.
pub record HasProfile (reg : FpeRegistration) (s body : Str) : Type 0 where
  pub splits : s ≡ reg.prefix ++ body
  pub long : length body ≡ length reg.value - length reg.prefix
  pub over_alphabet : all (contains reg.alphabet) body ≡ true

length-HasProfile :
    (reg : FpeRegistration) {s body : Str}
    → HasProfile reg s body
    → length reg.prefix ≤ length reg.value
    → length s ≡ length reg.value
length-HasProfile reg {body = body} p h =
    rw p.splits (omega (arith, length-append reg.prefix body, p.long))

module _ (c : Crypto) (laws : Ff1Laws c) (t : FpeTokenizer) (key : length t.ff1_key ≡ 32) where
  -- The encryption of a body in the domain, with the decryption that leads back.
  pub encrypt_body_lem :
      (reg : FpeRegistration) (body : Str)
      → IsAlphabet reg.alphabet.chars
      → IsEligible reg.value reg.prefix reg.alphabet body
      → (cipher : Str) × (encrypt_body c t reg body ≡ ret (fake (reg.prefix ++ cipher)))
        × (length cipher ≡ length body)
        × (all (contains reg.alphabet) cipher ≡ true)
        × (decrypt_body c t reg cipher ≡ ret (accept c reg (reg.prefix ++ body)))
  unfolding encrypt_body decrypt_body
  encrypt_body_lem reg body w e =
      let (ns, to_ns, below, len, from_ns) =
        body_to_numerals_lem reg.alphabet body w.at_most e.over_alphabet in
      let large : min_domain ≤ radix reg.alphabet ^ length ns = rw len e.large in
      let fits : length ns < 2 ^ 32 = rw len e.fits in
      let (ys, enc, below', len', dec) =
        laws.encrypts t.ff1_key (radix reg.alphabet) reg.tweak ns
          (record { below = below; large = large; short = fits }) in
      let (cipher, from_ys, over, len'', to_ys) = numerals_to_body_lem reg.alphabet ys w below' in
      let new = laws.new_ok t.ff1_key (radix reg.alphabet) key w.at_least_two w.at_most in
      (
        cipher,
        rw (to_ns, new, enc, from_ys) refl,
        len'' ∙ len' ∙ len,
        over,
        rw (to_ys, new, dec, from_ns) refl,
      )

  -- An eligible registration goes on to the encryption of its body.
  pub scrub-encrypt_body :
      (reg : FpeRegistration) (body : Str)
      → IsEligible reg.value reg.prefix reg.alphabet body
      → scrub c t reg ≡ encrypt_body c t reg body
  unfolding scrub
  scrub-encrypt_body reg body e =
      let checked = (check_eligibility_iff reg.value reg.prefix reg.alphabet).1 (body, e) in
      let strip : strip_prefix reg.prefix reg.value ≡ some body =
        rw e.splits (strip_prefix-append reg.prefix body) in
      rw (checked, strip, scrub)

  -- For an eligible registration over a valid alphabet, scrub neither panics nor fails: it returns a
  -- fake with the registered prefix, of the length of the value, whose body is over the alphabet.
  pub scrub_total :
      (reg : FpeRegistration)
      → IsAlphabet reg.alphabet.chars
      → check_eligibility reg.value reg.prefix reg.alphabet ≡ eligible
      → (f body : Str) × (scrub c t reg ≡ ret (fake f))
        × HasProfile reg f body
        × (length f ≡ length reg.value)
  scrub_total reg w h =
      let (body, e) = (check_eligibility_iff reg.value reg.prefix reg.alphabet).0 h in
      let (cipher, enc, len, over, _) = encrypt_body_lem reg body w e in
      let total : length reg.value ≡ length reg.prefix + length body =
        ap length e.splits ∙ length-append reg.prefix body in
      let profile : HasProfile reg (reg.prefix ++ cipher) cipher = record {
        splits = refl;
        long = omega arith;
        over_alphabet = over;
      } in
      (
        reg.prefix ++ cipher,
        cipher,
        scrub-encrypt_body reg body e ∙ enc,
        profile,
        length-HasProfile reg profile (omega arith),
      )

  -- The other way: what scrub returns is the encryption of the registered body.
  pub scrub-inv :
      (reg : FpeRegistration) {f : Str}
      → scrub c t reg ≡ ret (fake f)
      → (body : Str) × IsEligible reg.value reg.prefix reg.alphabet body
        × (encrypt_body c t reg body ≡ ret (fake f))
  unfolding scrub
  scrub-inv reg {f} h = go (check_eligibility reg.value reg.prefix reg.alphabet) refl
    where
      go :
          (r : Eligibility)
          → check_eligibility reg.value reg.prefix reg.alphabet ≡ r
          → (body : Str) × IsEligible reg.value reg.prefix reg.alphabet body
            × (encrypt_body c t reg body ≡ ret (fake f))
      go (ineligible x) e = ground arith
      go eligible e =
          let (body, el) = (check_eligibility_iff reg.value reg.prefix reg.alphabet).0 e in
          (body, el, sym (scrub-encrypt_body reg body el) ∙ h)
