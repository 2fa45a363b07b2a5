-- ===== src/Tokenizer/Alphabet/Index.antt =====
-- The symbols of an alphabet and their indices.
use in_visibool.Prelude.{
  ℕ, zero, suc, ◌<◌, ◌≡◌, true, Option, none, some, [], ◌∷◌, length, inl, inr, get_elem?, ◌==◌,
  Bool-cases, Str, find_byte, contains_byte, arith, ret, expect, Option-cases, get_elem?-in_range,
}
use in_visibool.Tokenizer.Alphabet.{Alphabet, radix, contains, index_of, symbol_at}
use in_visibool.Tokenizer.Alphabet.Validate.{IsDistinct}

get_elem?-find :
    (c : ℕ) (s : Str) {i : ℕ} → find_byte c s ≡ some i → (get_elem? s i ≡ some c) × (i < length s)
get_elem?-find c [] h = ground arith
get_elem?-find c (d ∷ s) {i} h = elim (Bool-cases (d == c)) [
  | inl e ↦ let i0 : i ≡ 0 = ground arith in rw i0 (ground arith, omega arith)
  | inr e ↦ elim (Option-cases (find_byte c s)) [
    | inl n ↦ ground arith
    | inr (j, p) ↦
        let (q, r) = get_elem?-find c s p in
        let ij : i ≡ suc j = ground arith in rw ij (q, omega arith)
  ]
]

contains-get_elem? : (s : Str) (i : ℕ) {c : ℕ} → get_elem? s i ≡ some c → contains_byte c s ≡ true
contains-get_elem? [] i h = cc
contains-get_elem? (d ∷ s) zero h = ground arith
contains-get_elem? (d ∷ s) (suc i) h = ground (arith, contains-get_elem? s i h)

find-get_elem? :
    (s : Str) (i : ℕ) {c : ℕ} → IsDistinct s → get_elem? s i ≡ some c → find_byte c s ≡ some i
find-get_elem? [] i d h = cc
find-get_elem? (x ∷ s) zero d h = ground arith
find-get_elem? (x ∷ s) (suc i) {c} (hx, d) h =
    ground (arith, find-get_elem? s i d h, contains-get_elem? s i h)

-- The index of a symbol is below the radix, and leads back to the symbol.
pub symbol_at-index_of :
    (a : Alphabet) (c : ℕ) {i : ℕ} → index_of a c ≡ some i → (symbol_at a i ≡ ret c) × (i < radix a)
symbol_at-index_of a c h = let (p, q) = get_elem?-find c a.chars h in (rw p, q)

-- In an alphabet of distinct symbols every index below the radix has a symbol, whose index it is.
pub index_of-symbol_at :
    (a : Alphabet) (i : ℕ)
    → IsDistinct a.chars
    → i < radix a
    → (c : ℕ) × (symbol_at a i ≡ ret c) × (index_of a c ≡ some i)
index_of-symbol_at a i d h =
    let (c, p) = get_elem?-in_range a.chars i h in (c, rw p, find-get_elem? a.chars i d p)

pub contains-symbol_at :
    (a : Alphabet) (i : ℕ) {c : ℕ} → symbol_at a i ≡ ret c → contains a c ≡ true
contains-symbol_at a i {c} h = contains-get_elem? a.chars i (from (get_elem? a.chars i) h)
  where
    from : (o : Option ℕ) → expect o ≡ ret c → o ≡ some c
    from none e = cc
    from (some x) e = cc
