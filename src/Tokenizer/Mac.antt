-- ===== src/Tokenizer/Mac.antt =====
-- crates/invisibool-engine/src/tokenizer/mac.rs: fakes whose last K symbols are a truncated HMAC of
-- the symbols before them.
pub mod Encoding
pub mod Verifying
use in_visibool.Prelude.{
  ltb, leb, if◌then◌else◌, length, take, drop, all, Str, is_ascii, ◌>>=◌, expect, map_run, Run, ret,
  panic, ℕ, zero, suc, ◌-◌, ◌*◌, ◌/◌, ◌%◌, ◌^◌, Bool, false, not, Option, none, some, [], ◌∷◌, ◌++◌,
  reverse,
}
use in_visibool.Tokenizer.Alphabet.{radix, contains, symbol_at, mac_tail_len, Alphabet, Floats}
use in_visibool.Tokenizer.Crypto.{Crypto}
use in_visibool.Tokenizer.Fpe.{checked_pow}
use mathlib.Core.List.{foldl}
use Prim.Native.Nat.{bit_or}

-- `value = (value << 8) | u64::from(b)`
abbrev pub push_byte : ℕ → ℕ → ℕ
push_byte value b = bit_or (value * 256 % 2 ^ 64) b

-- The big-endian `u64` of the first up to 8 bytes.
abbrev pub leading_u64 : Str → ℕ
leading_u64 mac_bytes = foldl push_byte 0 (take 8 mac_bytes)

-- The `k` rounds of the loop, least significant symbol first.
unfoldable pub emit_symbols : Alphabet → ℕ → ℕ → Run Str
emit_symbols a zero v = ret []
emit_symbols a (suc k) v = do
  symbol ← symbol_at a (v % radix a)
  symbols ← emit_symbols a k (v / radix a)
  ret (symbol ∷ symbols)

-- `u32::try_from(k).expect(…)`
abbrev pub to_u32 : ℕ → Run ℕ
to_u32 k = if ltb k (2 ^ 32) then ret k else panic

module _ (f : Floats) (c : Crypto) where
  unfoldable pub encode_to_alphabet : Str → Alphabet → Run Str
  encode_to_alphabet mac_bytes a = do
    k ← to_u32 (mac_tail_len f a)
    modulus ← expect (checked_pow (radix a) k)
    symbols ← emit_symbols a (mac_tail_len f a) (leading_u64 mac_bytes % modulus)
    ret (reverse symbols)

  unfoldable pub mac_tail : Str → Str → Alphabet → Run Str
  mac_tail key body a = encode_to_alphabet (c.hmac_sha256 key body) a

  unfoldable pub verify_split : Str → Str → Str → Alphabet → Run Bool
  verify_split key body claimed_tail a =
      if not (all (contains a) claimed_tail)
      then ret false
      else do expected_tail ← mac_tail key body a; ret (c.ct_eq expected_tail claimed_tail)

  unfoldable pub verify : Str → Str → Alphabet → Run Bool
  unfolding verify_split
  verify key candidate a =
      if not (is_ascii candidate)
      then ret false
      else if ltb (length candidate) (mac_tail_len f a)
      then ret false
      else (let split = length candidate - mac_tail_len f a in
          verify_split key (take split candidate) (drop split candidate) a)

  derive_body : Str → Str → ℕ → Alphabet → Run Str
  derive_body key real_value body_len a = do
    out ← expect (c.hkdf key real_value body_len)
    map_run (λ b. symbol_at a (b % radix a)) out

  pub make_macfake : Str → Str → Alphabet → Run (Option Str)
  make_macfake key real_value a =
      if leb (length real_value) (mac_tail_len f a) then ret none else do
        body ← derive_body key real_value (length real_value - mac_tail_len f a) a
        tail ← mac_tail key body a
        ret (some (body ++ tail))
