-- ===== src/Prelude/Bytes.antt =====
-- Rust's `str` and `[u8]` as lists of bytes, with the library calls that the program makes of them.
use Prim.Native.Nat.{ℕ, suc, ◌-◌}
use Prim.Native.Char.{code}
use Prim.Native.String.{String}
use mathlib.Core.Path.{◌≡◌, refl, sym}
use mathlib.Core.Logic.{◌↔◌, inl, inr}
use mathlib.Core.Bool.{Bool, true, false, ◌&&◌, ◌||◌}
use mathlib.Core.List.{List, [], ◌∷◌, ◌++◌}
use mathlib.Core.Option.{Option, none, some}
use native.Mathlib.Omega.{arith}
use in_visibool.Prelude.Tests.{ltb, leb, ◌==◌, if◌then◌else◌, Bool-cases}
use in_visibool.Prelude.Lists.{length, all, drop}

abbrev pub Str : Type 0
Str = List ℕ

-- The bytes of an ASCII literal.
abbrev pub codes : String → Str
codes String.[] = []
codes (String.◌∷◌ c s) = code c ∷ codes s

-- `a == b` on strings
abbrev pub str_eq : Str → Str → Bool
str_eq [] [] = true
str_eq [] (y ∷ ys) = false
str_eq (x ∷ xs) [] = false
str_eq (x ∷ xs) (y ∷ ys) = x == y && str_eq xs ys

-- `s.strip_prefix(p)`
abbrev pub strip_prefix : Str → Str → Option Str
strip_prefix [] s = some s
strip_prefix (c ∷ p) [] = none
strip_prefix (c ∷ p) (d ∷ s) = if c == d then strip_prefix p s else none

abbrev pub starts_with : Str → Str → Bool
starts_with [] s = true
starts_with (c ∷ p) [] = false
starts_with (c ∷ p) (d ∷ s) = c == d && starts_with p s

-- `s.ends_with(suffix)`
abbrev pub ends_with : Str → Str → Bool
ends_with suffix s =
    leb (length suffix) (length s) && str_eq (drop (length s - length suffix) s) suffix

-- `s.find(c)` and `s.contains(c)` for an ASCII character `c`
abbrev pub find_byte : ℕ → Str → Option ℕ
find_byte c [] = none
find_byte c (d ∷ s) =
    if d == c then some 0 else elim (find_byte c s) [ none ↦ none | some i ↦ some (suc i) ]

abbrev pub contains_byte : ℕ → Str → Bool
contains_byte c [] = false
contains_byte c (d ∷ s) = d == c || contains_byte c s

abbrev pub is_ascii : Str → Bool
is_ascii = all (λ b. ltb b 128)

-- `char::is_whitespace` on an ASCII character
abbrev pub is_whitespace : ℕ → Bool
is_whitespace b = (leb 9 b && leb b 13) || b == 32

abbrev pub is_ascii_digit : ℕ → Bool
is_ascii_digit b = leb b'0' b && leb b b'9'

pub str_eq_iff : (s t : Str) → (str_eq s t ≡ true) ↔ (s ≡ t)
str_eq_iff [] [] = ground arith
str_eq_iff [] (y ∷ ys) = ground arith
str_eq_iff (x ∷ xs) [] = ground arith
str_eq_iff (x ∷ xs) (y ∷ ys) = ground (arith, str_eq_iff xs ys)

pub str_eq_refl : (s : Str) → str_eq s s ≡ true
str_eq_refl s = (str_eq_iff s s).1 refl

pub strip_prefix-append : (p s : Str) → strip_prefix p (p ++ s) ≡ some s
strip_prefix-append [] s = refl
strip_prefix-append (c ∷ p) s = ground (arith, strip_prefix-append p s)

pub strip_prefix-eq : (p s : Str) {body : Str} → strip_prefix p s ≡ some body → s ≡ p ++ body
strip_prefix-eq [] s h = ground arith
strip_prefix-eq (c ∷ p) [] h = ground arith
strip_prefix-eq (c ∷ p) (d ∷ s) {body} h = ground (arith, strip_prefix-eq p s {body = body})

pub starts_with-append : (p s : Str) → starts_with p (p ++ s) ≡ true
starts_with-append [] s = refl
starts_with-append (c ∷ p) s = ground (arith, starts_with-append p s)

pub contains_byte-find :
    (c : ℕ) (s : Str) → contains_byte c s ≡ true → (i : ℕ) × (find_byte c s ≡ some i)
contains_byte-find c [] h = ground arith
contains_byte-find c (d ∷ s) h = elim (Bool-cases (d == c)) [
  | inl e ↦ (0, ground arith)
  | inr e ↦ let (i, p) = contains_byte-find c s (ground arith) in (suc i, ground arith)
]

pub str_eq-false_sym : (s t : Str) → str_eq s t ≡ false → str_eq t s ≡ false
str_eq-false_sym s t h = elim (Bool-cases (str_eq t s)) [
  | inl e ↦ let same : str_eq s t ≡ true = (str_eq_iff s t).1 (sym ((str_eq_iff t s).0 e)) in cc
  | inr e ↦ e
]
