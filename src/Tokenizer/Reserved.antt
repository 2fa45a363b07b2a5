-- ===== src/Tokenizer/Reserved.antt =====
-- crates/invisibool-engine/src/tokenizer/reserved.rs: fakes in reserved ranges, and the Luhn check.
pub mod Luhn
pub mod Cards
use in_visibool.Prelude.{
  ltb, ◌==◌, if◌then◌else◌, length, take, Str, codes, is_ascii_digit, ◌>>=◌, expect, Run, ret,
  panic, ℕ, ◌+◌, ◌-◌, ◌*◌, ◌/◌, ◌%◌, Bool, false, not, Option, none, some, [], ◌∷◌, ◌++◌, map,
}
use in_visibool.Tokenizer.Crypto.{Crypto}

abbrev pub email_domain : Str
email_domain = codes "@example.com"

abbrev pub ipv4_rfc5737_prefix : Str
ipv4_rfc5737_prefix = codes "192.0.2."

abbrev pub phone_reserved_prefix : Str
phone_reserved_prefix = codes "555-01"

abbrev pub card_visa_test_bin : Str
card_visa_test_bin = codes "4242"

-- `hash[0]`: a digest has 32 bytes.
abbrev pub first_byte : Str → ℕ
first_byte [] = 0
first_byte (b ∷ s) = b

-- `b'a' + byte % 26` and `b'0' + byte % 10`
abbrev pub letter : ℕ → ℕ
letter byte = b'a' + byte % 26

abbrev pub digit : ℕ → ℕ
digit byte = b'0' + byte % 10

-- `{}` of a `u8`
abbrev pub show_u8 : ℕ → Str
show_u8 b =
    if ltb b 10
    then (b'0' + b) ∷ []
    else if ltb b 100
    then (b'0' + b / 10) ∷ (b'0' + b % 10) ∷ []
    else (b'0' + b / 100) ∷ (b'0' + b / 10 % 10) ∷ (b'0' + b % 10) ∷ []

-- `{:02}` of a number below 100
abbrev pub show_two : ℕ → Str
show_two n = (b'0' + n / 10) ∷ (b'0' + n % 10) ∷ []

abbrev pub filter_digits : Str → Str
filter_digits [] = []
filter_digits (b ∷ s) = let rest = filter_digits s in if is_ascii_digit b then b ∷ rest else rest

-- `char::to_digit(10)`
abbrev pub to_digit : ℕ → Option ℕ
to_digit b = if is_ascii_digit b then some (b - b'0') else none

-- `v - 9` of a doubled digit above 9, else the value
abbrev pub fold_nine : ℕ → ℕ
fold_nine v = if ltb 9 v then v - 9 else v

-- The weight of a digit at a position from the right.
abbrev pub weigh : ℕ → ℕ → ℕ
weigh position_from_right d = fold_nine (if position_from_right % 2 == 0 then d else d * 2)

-- The loop of `luhn_check_digit`, from index `i` of `n` digits. The sum stays below 9 n.
pub luhn_check_loop : ℕ → ℕ → ℕ → Str → Run ℕ
luhn_check_loop n i sum [] = ret sum
luhn_check_loop n i sum (b ∷ s) = do
  d ← expect (to_digit b)
  luhn_check_loop n (i + 1) (sum + weigh (n - i) d) s

pub luhn_check_digit : Str → Run ℕ
luhn_check_digit digits = do
  sum ← luhn_check_loop (length digits) 0 0 digits
  ret ((10 - sum % 10) % 10)

-- The loop of `luhn_valid`; `none` is the early `return false`.
pub luhn_valid_loop : ℕ → ℕ → ℕ → Str → Option ℕ
luhn_valid_loop n i sum [] = some sum
luhn_valid_loop n i sum (b ∷ s) = elim (to_digit b) [
  | none ↦ none
  | some d ↦ luhn_valid_loop n (i + 1) (sum + weigh (n - 1 - i) d) s
]

pub luhn_valid : Str → Bool
luhn_valid digits = elim (luhn_valid_loop (length digits) 0 0 digits) [
  | none ↦ false
  | some sum ↦ sum % 10 == 0
]

-- The separators of `original` around the digits of the fake; the iterator must not run out.
pub overlay : Str → Str → Run Str
overlay [] digits = ret []
overlay (ch ∷ s) [] = if is_ascii_digit ch then panic else (do out ← overlay s []; ret (ch ∷ out))
overlay (ch ∷ s) (d ∷ digits) =
    if is_ascii_digit ch
    then (do out ← overlay s digits; ret (d ∷ out))
    else (do out ← overlay s (d ∷ digits); ret (ch ∷ out))

module _ (c : Crypto) where
  unfoldable pub fake_email : Str → Str
  fake_email seed = map letter (take 10 (c.sha256 seed)) ++ email_domain

  unfoldable pub fake_ipv4 : Str → Str
  fake_ipv4 seed = ipv4_rfc5737_prefix ++ show_u8 (first_byte (c.sha256 seed))

  unfoldable pub fake_phone : Str → Str
  fake_phone seed = phone_reserved_prefix ++ show_two (first_byte (c.sha256 seed) % 100)

  -- The BIN and the 11 digits of the seed.
  abbrev pub card_head : Str → Str
  card_head seed = card_visa_test_bin ++ map digit (take 11 (c.sha256 seed))

  pub fake_card_visa16 : Str → Str → Run (Option Str)
  fake_card_visa16 seed original =
      if not (length (filter_digits original) == 16) then ret none else do
        check ← luhn_check_digit (card_head seed)
        out ← overlay original (card_head seed ++ ((b'0' + check) ∷ []))
        ret (some out)
