-- ===== src/Tokenizer/Fpe.antt =====
-- crates/invisibool-engine/src/tokenizer/fpe.rs: registrations, FF1 eligibility, and the FF1
-- tokenizer's scrub and trial restore.
pub mod Numerals
pub mod Eligible
pub mod Scrubbing
pub mod Restoring
use in_visibool.Prelude.{
  ltb, ◌==◌, if◌then◌else◌, length, all, any, Str, codes, strip_prefix, is_ascii, is_whitespace,
  ◌>>=◌, expect, map_run, Run, ret, panic, ℕ, ◌-◌, ◌^◌, not, Option, none, some, List, [], ◌∷◌,
  ◌++◌,
}
use in_visibool.Tokenizer.Alphabet.{radix, contains, index_of, symbol_at, Alphabet}
use in_visibool.Tokenizer.Crypto.{min_domain, Crypto}

pub record FpeRegistration : Type 0 where
  pub label : Str
  pub value : Str
  pub tweak : Str
  pub alphabet : Alphabet
  pub prefix : Str

pub data PiiKind : Type 0 where
  email ipv4 phone : PiiKind

pub data SessionFakeKind : Type 0 where
  card : SessionFakeKind
  pii : PiiKind → SessionFakeKind
  formatless : SessionFakeKind

pub record SessionRegistration : Type 0 where
  pub label : Str
  pub value : Str
  pub kind : SessionFakeKind

pub data RegisteredValue : Type 0 where
  fpe : FpeRegistration → RegisteredValue
  session_mapped : SessionRegistration → RegisteredValue

pub data EligibilityError : Type 0 where
  prefix_missing value_not_ascii value_contains_whitespace body_too_long : EligibilityError
  char_not_in_alphabet : ℕ → EligibilityError
  domain_too_small : ℕ → ℕ → EligibilityError

pub data Eligibility : Type 0 where
  eligible : Eligibility
  ineligible : EligibilityError → Eligibility

-- The first byte of `body` outside the alphabet.
abbrev pub first_outside : Alphabet → Str → Option ℕ
first_outside a [] = none
first_outside a (c ∷ s) = if contains a c then first_outside a s else some c

-- `u64::checked_pow`
abbrev pub checked_pow : ℕ → ℕ → Option ℕ
checked_pow base exp = if ltb (base ^ exp) (2 ^ 64) then some (base ^ exp) else none

unfoldable pub check_domain : Alphabet → Str → Eligibility
check_domain a body =
    if not (ltb (length body) (2 ^ 32))
    then ineligible body_too_long
    else elim (checked_pow (radix a) (length body)) [
      | some domain ↦
          if ltb domain min_domain
          then ineligible (domain_too_small (radix a) (length body))
          else eligible
      | none ↦
          if ltb (2 ^ 64 - 1) min_domain
          then ineligible (domain_too_small (radix a) (length body))
          else eligible
    ]

unfoldable pub check_body : Alphabet → Str → Eligibility
check_body a body =
    if not (is_ascii body)
    then ineligible value_not_ascii
    else if any is_whitespace body
    then ineligible value_contains_whitespace
    else elim (first_outside a body) [
      | some ch ↦ ineligible (char_not_in_alphabet ch)
      | none ↦ check_domain a body
    ]

unfoldable pub check_eligibility : Str → Str → Alphabet → Eligibility
check_eligibility value prefix a = elim (strip_prefix prefix value) [
  | none ↦ ineligible prefix_missing
  | some body ↦ check_body a body
]

-- `u16::try_from(i).expect(…)`
abbrev pub to_u16 : ℕ → Run ℕ
to_u16 i = if ltb i (2 ^ 16) then ret i else panic

abbrev pub to_numeral : Alphabet → ℕ → Run ℕ
to_numeral a ch = do i ← expect (index_of a ch); to_u16 i

abbrev pub body_to_numerals : Str → Alphabet → Run (List ℕ)
body_to_numerals body a = map_run (to_numeral a) body

abbrev pub numerals_to_body : List ℕ → Alphabet → Run Str
numerals_to_body numerals a = map_run (symbol_at a) numerals

pub data FpeError : Type 0 where
  eligibility : EligibilityError → FpeError
  ff1 : FpeError

pub data FpeResult : Type 0 where
  fake : Str → FpeResult
  failed : FpeError → FpeResult

-- `FpeTokenizer`: the FF1 subkey.
pub record FpeTokenizer : Type 0 where
  pub ff1_key : Str

abbrev pub ff1_key_info : Str
ff1_key_info = codes "invisibool-ff1-key-v1"

module _ (c : Crypto) where
  -- `FpeTokenizer::new`, from the bytes of the vault key
  unfoldable pub new_tokenizer : Str → Run FpeTokenizer
  new_tokenizer vault_key = do
    key ← expect (c.hkdf vault_key ff1_key_info 32)
    ret (record { ff1_key = key })

  unfoldable pub encrypt_body : FpeTokenizer → FpeRegistration → Str → Run FpeResult
  encrypt_body t reg body = do
    numerals ← body_to_numerals body reg.alphabet
    if not (c.ff1_new t.ff1_key (radix reg.alphabet))
        then ret (failed ff1)
        else elim (c.ff1_encrypt t.ff1_key (radix reg.alphabet) reg.tweak numerals) [
          | none ↦ ret (failed ff1)
          | some ct ↦ (do
            cipher_body ← numerals_to_body ct reg.alphabet
            ret (fake (reg.prefix ++ cipher_body)))
        ]

  -- `FpeTokenizer::scrub`
  unfoldable pub scrub : FpeTokenizer → FpeRegistration → Run FpeResult
  scrub t reg = elim (check_eligibility reg.value reg.prefix reg.alphabet) [
    | ineligible e ↦ ret (failed (eligibility e))
    | eligible ↦ (do body ← expect (strip_prefix reg.prefix reg.value); encrypt_body t reg body)
  ]

  -- The comparison at the end of one round of `try_restore`.
  unfoldable pub accept : FpeRegistration → Str → Option Str
  accept reg pt_value = if c.ct_eq pt_value reg.value then some reg.value else none

  unfoldable pub decrypt_body : FpeTokenizer → FpeRegistration → Str → Run (Option Str)
  decrypt_body t reg body = do
    numerals ← body_to_numerals body reg.alphabet
    if not (c.ff1_new t.ff1_key (radix reg.alphabet))
        then ret none
        else elim (c.ff1_decrypt t.ff1_key (radix reg.alphabet) reg.tweak numerals) [
          | none ↦ ret none
          | some pt ↦ (do
            pt_body ← numerals_to_body pt reg.alphabet
            ret (accept reg (reg.prefix ++ pt_body)))
        ]

  -- One round of `try_restore`: `none` goes on with the next registration.
  unfoldable pub try_registration : FpeTokenizer → Str → FpeRegistration → Run (Option Str)
  try_registration t candidate reg = elim (strip_prefix reg.prefix candidate) [
    | none ↦ ret none
    | some body ↦
        if not (length body == (length reg.value - length reg.prefix))
        then ret none
        else if not (all (contains reg.alphabet) body)
        then ret none
        else decrypt_body t reg body
  ]

  -- `FpeTokenizer::try_restore`
  unfoldable pub try_restore : FpeTokenizer → Str → List FpeRegistration → Run (Option Str)
  try_restore t candidate [] = ret none
  try_restore t candidate (reg ∷ set) =
      let rest = try_restore t candidate set in
      try_registration t candidate reg >>= elim [ some v ↦ ret (some v) | none ↦ rest ]
