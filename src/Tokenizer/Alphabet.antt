-- ===== src/Tokenizer/Alphabet.antt =====
-- crates/invisibool-engine/src/tokenizer/alphabet.rs: the symbols of a fake, their validation, and
-- the two directions between a symbol and its index. A symbol is one ASCII byte.
pub mod Validate
pub mod Index
use in_visibool.Prelude.{
  ℕ, suc, ◌≡◌, refl, Bool, true, false, ◌&&◌, ◌||◌, not, Option, none, some, List, [], ◌∷◌, length,
  get_elem?, any, leb, ltb, ◌==◌, if◌then◌else◌, Str, codes, is_ascii, is_whitespace, find_byte,
  contains_byte, Run, expect, String,
}

pub record Alphabet : Type 0 where
  pub chars : Str

-- `Alphabet::unchecked`, for the named constants only.
abbrev pub unchecked : String → Alphabet
unchecked s = record { chars = codes s }

-- The named constants, each the `Alphabet::` constant of its name.
abbrev pub base62 : Alphabet
base62 = unchecked "0123456789ABCDEFGHIJKLMNOPQRSTUVWXYZabcdefghijklmnopqrstuvwxyz"

abbrev pub base32 : Alphabet
base32 = unchecked "ABCDEFGHIJKLMNOPQRSTUVWXYZ234567"

abbrev pub hex_lower : Alphabet
hex_lower = unchecked "0123456789abcdef"

abbrev pub hex_upper : Alphabet
hex_upper = unchecked "0123456789ABCDEF"

abbrev pub digits : Alphabet
digits = unchecked "0123456789"

abbrev pub alpha_lower : Alphabet
alpha_lower = unchecked "abcdefghijklmnopqrstuvwxyz"

abbrev pub alpha_upper : Alphabet
alpha_upper = unchecked "ABCDEFGHIJKLMNOPQRSTUVWXYZ"

abbrev pub base36_lower : Alphabet
base36_lower = unchecked "0123456789abcdefghijklmnopqrstuvwxyz"

pub data AlphabetError : Type 0 where
  non_ascii : AlphabetError
  contains_whitespace : AlphabetError
  radix_out_of_range : ℕ → AlphabetError
  duplicate_char : ℕ → AlphabetError

pub data Validation {ℓ} (A : Type ℓ) : Type ℓ where
  valid : A → Validation A
  invalid : AlphabetError → Validation A

-- The loop over `chars` with its table `seen`, a function from bytes to flags.
abbrev pub mark : (ℕ → Bool) → ℕ → ℕ → Bool
mark seen c b = b == c || seen b

pub find_duplicate : (ℕ → Bool) → Str → Validation (Unit {0})
find_duplicate seen [] = valid tt
find_duplicate seen (c ∷ s) =
    let rest = find_duplicate (mark seen c) s in if seen c then invalid (duplicate_char c) else rest

pub validate : Str → Validation (Unit {0})
validate chars =
    if not (is_ascii chars)
    then invalid non_ascii
    else if any is_whitespace chars
    then invalid contains_whitespace
    else if not (leb 2 (length chars) && leb (length chars) 65535)
    then invalid (radix_out_of_range (length chars))
    else find_duplicate (λ b. false) chars

pub try_custom : Str → Validation Alphabet
try_custom chars = elim (validate chars) [
  | valid _ ↦ valid (record { chars = chars })
  | invalid e ↦ invalid e
]

-- A `u32`: the length fits, since the symbols of an alphabet are distinct ASCII bytes.
abbrev pub radix : Alphabet → ℕ
radix a = length a.chars

abbrev pub contains : Alphabet → ℕ → Bool
contains a c = contains_byte c a.chars

abbrev pub index_of : Alphabet → ℕ → Option ℕ
index_of a c = find_byte c a.chars

-- Panics where `index >= radix`.
abbrev pub symbol_at : Alphabet → ℕ → Run ℕ
symbol_at a index = expect (get_elem? a.chars index)

-- The `f64` arithmetic of `mac_tail_len`, which is the platform's.
pub record Floats : Type 1 where
  pub F64 : Type 0
  pub from_u32 : ℕ → F64
  pub log2 : F64 → F64
  pub div : F64 → F64 → F64
  -- `x.ceil() as usize`
  pub ceil_usize : F64 → ℕ

-- `(32.0 / f64::from(radix).log2()).ceil() as usize`
unfoldable pub mac_tail_len : Floats → Alphabet → ℕ
mac_tail_len f a = f.ceil_usize (f.div (f.from_u32 32) (f.log2 (f.from_u32 (radix a))))
