-- ===== src/Idempotence.antt =====
-- crates/invisibool-engine/src/idempotence.rs: is a candidate a real value or one of our fakes.
pub mod Precedence
pub mod Ranges
use in_visibool.Prelude.{
  ◌==◌, if◌then◌else◌, length, drop, all, any, Str, codes, str_eq, starts_with, ends_with,
  is_ascii_digit, ◌>>=◌, Run, ret, Bool, false, ◌&&◌, ◌||◌, none, some, List, [], ◌∷◌, ◌++◌,
}
use in_visibool.Tokenizer.Alphabet.{Alphabet, Floats}
use in_visibool.Tokenizer.Crypto.{Crypto}
use in_visibool.Tokenizer.Fpe.{try_restore, FpeRegistration, FpeTokenizer}
use in_visibool.Tokenizer.Mac.{verify}
use in_visibool.Tokenizer.Reserved.{filter_digits}

pub data NoOpReason : Type 0 where
  ff1_decrypted_to_registered ff1_decrypted_to_retired reserved_range mac_verified : NoOpReason

pub data IdempotenceDecision : Type 0 where
  scrub_it : IdempotenceDecision
  no_op : NoOpReason → IdempotenceDecision

pub record IdempotenceContext : Type 0 where
  pub registered : List FpeRegistration
  pub retired : List FpeRegistration
  pub fpe_tokenizer : FpeTokenizer
  pub session_mac_key : Str

pub is_email_example_domain : Str → Bool
is_email_example_domain candidate =
    any (λ tld. ends_with (codes "@example" ++ tld) candidate)
      (codes ".com" ∷ codes ".org" ∷ codes ".net" ∷ [])

pub is_ipv4_rfc5737 : Str → Bool
is_ipv4_rfc5737 candidate =
    any (λ p. starts_with p candidate)
      (codes "192.0.2." ∷ codes "198.51.100." ∷ codes "203.0.113." ∷ [])

pub is_phone_555_01 : Str → Bool
is_phone_555_01 candidate =
    length candidate == 8
    && starts_with (codes "555-01") candidate
    && all is_ascii_digit (drop 6 candidate)

pub is_card_test_bin_4242 : Str → Bool
is_card_test_bin_4242 candidate =
    length (filter_digits candidate) == 16 && starts_with (codes "4242") (filter_digits candidate)

pub is_in_reserved_range : Str → Bool
is_in_reserved_range candidate =
    is_email_example_domain candidate
    || is_ipv4_rfc5737 candidate
    || is_phone_555_01 candidate
    || is_card_test_bin_4242 candidate

-- The first loop of `classify`: does the candidate equal a registered value?
abbrev pub is_registered_value : Str → List FpeRegistration → Bool
is_registered_value candidate [] = false
is_registered_value candidate (r ∷ rs) =
    str_eq candidate r.value || is_registered_value candidate rs

module _ (f : Floats) (c : Crypto) where
  -- Checks (b) and (c).
  pub classify_stateless : IdempotenceContext → Str → Alphabet → Run IdempotenceDecision
  classify_stateless ctx candidate mac_alphabet =
      if is_in_reserved_range candidate then ret (no_op reserved_range) else do
        verified ← verify f c ctx.session_mac_key candidate mac_alphabet
        ret (if verified then no_op mac_verified else scrub_it)

  -- Check (a) on the retired set, then the others.
  pub classify_retired : IdempotenceContext → Str → Alphabet → Run IdempotenceDecision
  classify_retired ctx candidate mac_alphabet =
      try_restore c ctx.fpe_tokenizer candidate ctx.retired >>= elim [
        | some v ↦ ret (no_op ff1_decrypted_to_retired)
        | none ↦ classify_stateless ctx candidate mac_alphabet
      ]

  pub classify : IdempotenceContext → Str → Alphabet → Run IdempotenceDecision
  classify ctx candidate mac_alphabet =
      if is_registered_value candidate ctx.registered
      then ret scrub_it
      else try_restore c ctx.fpe_tokenizer candidate ctx.registered >>= elim [
        | some v ↦ ret (no_op ff1_decrypted_to_registered)
        | none ↦ classify_retired ctx candidate mac_alphabet
      ]
