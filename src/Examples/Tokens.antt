-- ===== src/Examples/Tokens.antt =====
-- The theorems on alphabets, fakes and the idempotence check, at concrete values.
use in_visibool.Prelude.{
  ℕ, length, get_elem?, all, All, Str, codes, is_ascii, ret, ◌≡◌, refl, ◌≢◌, ◌↔◌, ◌⊎◌, true, false,
  some, [], ◌∷◌, ◌++◌, arith,
}
use in_visibool.Tokenizer.Alphabet.{base62, digits, contains, mac_tail_len}
use in_visibool.Tokenizer.Alphabet.Validate.{base62-IsAlphabet}
use in_visibool.Tokenizer.Mac.{emit_symbols, encode_to_alphabet, mac_tail, verify, make_macfake}
use in_visibool.Tokenizer.Mac.Verifying.{verify-append, make_macfake_lem, verify_sound}
use in_visibool.Tokenizer.Fpe.{
  check_eligibility, scrub, try_restore, FpeRegistration, eligible, fake,
}
use in_visibool.Tokenizer.Fpe.Eligible.{check_eligibility_iff, IsEligible}
use in_visibool.Tokenizer.Fpe.Restoring.{try_restore_sound, try_restore-scrub}
use in_visibool.Idempotence.{
  is_in_reserved_range, is_registered_value, classify, scrub_it, IdempotenceContext,
}
use in_visibool.Idempotence.Precedence.{classify_precedence, classify-scrub_sound}
use in_visibool.Examples.{
  toy_crypto, toy_hashes, toy_ff1, toy_floats, toy_tail, toy_tokenizer, toy_reg, toy_fake,
  toy_scrub, toy-IsRegistered, toy_try_restore, toy_unique,
}

check_eligibility_iff_example :
    (check_eligibility (codes "k-0123456") (codes "k-") digits ≡ eligible)
    ↔ ((body : Str) × IsEligible (codes "k-0123456") (codes "k-") digits body)
check_eligibility_iff_example = check_eligibility_iff (codes "k-0123456") (codes "k-") digits

try_restore_sound_example :
    (i : ℕ) × (reg : FpeRegistration) × (get_elem? (toy_reg ∷ []) i ≡ some reg)
    × (toy_reg.value ≡ reg.value)
    × (scrub toy_crypto toy_tokenizer reg ≡ ret (fake toy_fake))
try_restore_sound_example =
    try_restore_sound toy_crypto toy_hashes toy_ff1 toy_tokenizer refl (toy_reg ∷ []) toy_fake
      (toy-IsRegistered, tt) toy_try_restore

try_restore-scrub_example :
    try_restore toy_crypto toy_tokenizer (codes "k-6543210") (toy_reg ∷ [])
    ≡ ret (some (codes "k-0123456"))
try_restore-scrub_example =
    try_restore-scrub toy_crypto toy_hashes toy_ff1 toy_tokenizer refl (toy_reg ∷ []) 0
      (toy-IsRegistered, tt) refl toy_scrub toy_unique

make_macfake_lem_example :
    (s : Str) × (make_macfake toy_floats toy_crypto (codes "key") (codes "open sesame") base62
      ≡ ret (some s))
    × (length s ≡ 11)
    × (all (contains base62) s ≡ true)
    × (verify toy_floats toy_crypto (codes "key") s base62 ≡ ret true)
unfolding mac_tail_len
make_macfake_lem_example =
    make_macfake_lem toy_floats toy_crypto toy_hashes (codes "key") base62 base62-IsAlphabet
      toy_tail (codes "open sesame") (omega arith) (omega arith)

abbrev toy_body_tail : Str
toy_body_tail = codes "LAU4eqF"

toy_mac_tail : mac_tail toy_floats toy_crypto (codes "key") (codes "abc") base62 ≡ ret toy_body_tail
unfolding mac_tail encode_to_alphabet emit_symbols mac_tail_len
toy_mac_tail = refl

verify_sound_example :
    (body tail : Str) × (codes "abc" ++ toy_body_tail ≡ body ++ tail)
    × (mac_tail toy_floats toy_crypto (codes "key") body base62 ≡ ret tail)
    × (is_ascii (codes "abc" ++ toy_body_tail) ≡ true)
verify_sound_example =
    verify_sound toy_floats toy_crypto toy_hashes (codes "key") base62 base62-IsAlphabet toy_tail
      (codes "abc" ++ toy_body_tail) toy_verify
  where
    toy_verify :
        verify toy_floats toy_crypto (codes "key") (codes "abc" ++ toy_body_tail) base62 ≡ ret true
    toy_verify =
        verify-append toy_floats toy_crypto toy_hashes (codes "key") base62 base62-IsAlphabet
          toy_tail (codes "abc") refl toy_mac_tail

abbrev toy_context : IdempotenceContext
toy_context = record {
  registered = toy_reg ∷ [];
  retired = toy_reg ∷ [];
  fpe_tokenizer = toy_tokenizer;
  session_mac_key = codes "key";
}

classify-scrub_sound_example :
    (is_registered_value (codes "k-0123456") toy_context.registered ≡ true)
    ⊎ (All
          (λ (r : FpeRegistration).
            scrub toy_crypto toy_tokenizer r ≢ ret (fake (codes "k-0123456")))
          toy_context.registered
        × All
            (λ (r : FpeRegistration).
              scrub toy_crypto toy_tokenizer r ≢ ret (fake (codes "k-0123456")))
            toy_context.retired
        × (is_in_reserved_range (codes "k-0123456") ≡ false)
        × (verify toy_floats toy_crypto (codes "key") (codes "k-0123456") digits ≡ ret false))
classify-scrub_sound_example =
    classify-scrub_sound toy_floats toy_crypto toy_context toy_hashes toy_ff1 refl
      (toy-IsRegistered, tt) (codes "k-0123456") digits (toy-IsRegistered, tt) toy_scrub_it
  where
    toy_scrub_it :
        classify toy_floats toy_crypto toy_context (codes "k-0123456") digits ≡ ret scrub_it
    toy_scrub_it =
        classify_precedence toy_floats toy_crypto toy_context (codes "k-0123456") digits 0 refl refl
