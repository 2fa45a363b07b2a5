-- ===== src/Tokenizer/Mac/Encoding.antt =====
-- The MAC tail: its length, its symbols, and the number that they spell.
use in_visibool.Tokenizer.Crypto.{Crypto}
use in_visibool.Prelude.{
  lt→ltb, length, all, length-reverse, all-reverse, Str, ret, ℕ, zero, suc, ◌+◌, ◌*◌, ◌/◌, ◌%◌, ◌^◌,
  ◌<◌, ◌≡◌, refl, ap, ◌∙◌, true, some, [], ◌∷◌, reverse, arith,
}
use in_visibool.Tokenizer.Alphabet.{radix, contains, index_of, mac_tail_len, Alphabet, Floats}
use in_visibool.Tokenizer.Alphabet.Validate.{IsAlphabet}
use in_visibool.Tokenizer.Alphabet.Index.{index_of-symbol_at, contains-symbol_at}
use in_visibool.Tokenizer.Mac.{leading_u64, emit_symbols, encode_to_alphabet}
use mathlib.Core.List.{reverse-reverse}
use native.Mathlib.Nat.{mod-lt, div-add-mod, pow-zero, pow-suc, div-lt_iff_lt-mul, mul_comm}

-- A tail length that the encoding can use: it fits a `u32`, and radix^K fits a `u64`.
pub record IsTailLen (a : Alphabet) (k : ℕ) : Type 0 where
  pub fits_u32 : k < 2 ^ 32
  pub fits_u64 : radix a ^ k < 2 ^ 64

-- The number that symbols spell, least significant first.
abbrev pub Spells : Alphabet → Str → ℕ → Type 0
Spells a [] n = n ≡ 0
Spells a (c ∷ s) n = (i m : ℕ) × (index_of a c ≡ some i) × (n ≡ m * radix a + i) × Spells a s m

emit_symbols_lem :
    (a : Alphabet) (k v : ℕ)
    → IsAlphabet a.chars
    → v < radix a ^ k
    → (s : Str) × (emit_symbols a k v ≡ ret s)
      × (length s ≡ k)
      × (all (contains a) s ≡ true)
      × Spells a s v
unfolding emit_symbols
emit_symbols_lem a zero v w h = ([], refl, refl, refl, omega (arith, pow-zero (radix a)))
emit_symbols_lem a (suc k) v w h =
    let small : v % radix a < radix a = mod-lt v (omega (arith, w.at_least_two)) in
    let (c, p, q) = index_of-symbol_at a (v % radix a) w.distinct small in
    let (s, ps, len, over, sp) =
      emit_symbols_lem a k (v / radix a) w
        ((div-lt_iff_lt-mul (omega (arith, w.at_least_two))).1 (rw (← pow-suc (radix a) k) h)) in
    (
      c ∷ s,
      rw (p, ps) refl,
      ap suc len,
      rw (contains-symbol_at a _ p, over) refl,
      (
        v % radix a,
        v / radix a,
        q,
        omega (arith, div-add-mod v (radix a), mul_comm (radix a) (v / radix a)),
        sp,
      ),
    )

pow_pos : (b k : ℕ) → 0 < b → 0 < b ^ k
pow_pos b zero h = omega (arith, pow-zero b)
pow_pos b (suc k) h = grind (arith, pow-suc b k, pow_pos b k h)

module _ (f : Floats) (c : Crypto) where
  -- For a valid alphabet whose tail length K fits the machine integers, the encoding never panics:
  -- it has K symbols of the alphabet, and read back most significant first they spell the leading
  -- eight bytes of the MAC modulo radix^K.
  pub encode_to_alphabet_lem :
      (mac_bytes : Str) (a : Alphabet)
      → IsAlphabet a.chars
      → IsTailLen a (mac_tail_len f a)
      → (tail : Str) × (encode_to_alphabet f c mac_bytes a ≡ ret tail)
        × (length tail ≡ mac_tail_len f a)
        × (all (contains a) tail ≡ true)
        × Spells a (reverse tail) (leading_u64 mac_bytes % radix a ^ mac_tail_len f a)
  unfolding encode_to_alphabet
  encode_to_alphabet_lem mac_bytes a w fits =
      let k = mac_tail_len f a in
      let positive : 0 < radix a ^ k = pow_pos (radix a) k (omega (arith, w.at_least_two)) in
      let (s, p, len, over, sp) =
        emit_symbols_lem a k (leading_u64 mac_bytes % radix a ^ k) w
          (mod-lt (leading_u64 mac_bytes) positive) in
      (
        reverse s,
        rw (lt→ltb k (2 ^ 32) fits.fits_u32, lt→ltb (radix a ^ k) (2 ^ 64) fits.fits_u64, p) refl,
        length-reverse s ∙ len,
        all-reverse (contains a) s ∙ over,
        rw reverse-reverse sp,
      )
