-- ===== src/Prelude/Slices.antt =====
-- `&s[a..b]` on a `str`, which panics out of range and inside a character, and `s.find(p)`.
use Prim.Native.Nat.{ℕ, suc, ◌+◌, ◌-◌, ◌≤◌}
use mathlib.Core.Path.{◌≡◌, refl, ap, ◌∙◌}
use mathlib.Core.Logic.{inl, inr}
use mathlib.Core.Bool.{Bool, true, false, ◌&&◌, ◌||◌, not}
use mathlib.Core.Option.{Option, none, some}
use mathlib.Core.List.{[], ◌∷◌}
use native.Mathlib.Omega.{arith}
use in_visibool.Prelude.Tests.{leb, ltb, ◌==◌, if◌then◌else◌, &&_right, Bool-cases, Option-cases}
use in_visibool.Prelude.Lists.{length, take, drop, get_elem?}
use in_visibool.Prelude.Bytes.{Str, starts_with, is_ascii}
use in_visibool.Prelude.Panics.{Run, ret, panic}

-- A UTF-8 continuation byte.
abbrev pub is_continuation : ℕ → Bool
is_continuation b = leb 128 b && ltb b 192

-- `s.is_char_boundary(i)`
pub is_char_boundary : Str → ℕ → Bool
is_char_boundary s i =
    i == 0 || elim (get_elem? s i) [ none ↦ i == length s | some b ↦ not (is_continuation b) ]

unfoldable pub slice : Str → ℕ → ℕ → Run Str
unfolding is_char_boundary
slice s a b =
    if leb a b && is_char_boundary s a && is_char_boundary s b
    then ret (take (b - a) (drop a s))
    else panic

-- `s.find(p)` for a text `p`: the first position at which `s` goes on with `p`.
unfoldable pub find_str : Str → Str → Option ℕ
find_str p [] = if starts_with p [] then some 0 else none
find_str p (b ∷ s) =
    if starts_with p (b ∷ s)
    then some 0
    else elim (find_str p s) [ none ↦ none | some i ↦ some (suc i) ]

ascii_boundary : (s : Str) (i : ℕ) → is_ascii s ≡ true → i ≤ length s → is_char_boundary s i ≡ true
unfolding is_char_boundary
ascii_boundary s i h le = elim (Bool-cases (i == 0)) [
  | inl e ↦ rw e
  | inr e ↦ rw e (at_byte s i h le)
]
  where
    at_byte :
        (s : Str) (i : ℕ)
        → is_ascii s ≡ true
        → i ≤ length s
        → elim (get_elem? s i) [ none ↦ i == length s | some b ↦ not (is_continuation b) ] ≡ true
    at_byte [] i h le = ground arith
    at_byte (b ∷ s) ℕ.zero h le = ground arith
    at_byte (b ∷ s) (suc i) h le =
        ground (arith, at_byte s i (&&_right (ltb b 128) _ h) (omega arith))

-- In ASCII text every range in bounds can be cut out.
pub slice-ascii :
    (s : Str) (a b : ℕ)
    → is_ascii s ≡ true
    → a ≤ b
    → b ≤ length s
    → slice s a b ≡ ret (take (b - a) (drop a s))
unfolding slice
slice-ascii s a b h le le' =
    let ab : leb a b ≡ true = ground arith in
    rw (ab, ascii_boundary s a h (omega arith), ascii_boundary s b h le')

length-starts_with : (p s : Str) → starts_with p s ≡ true → length p ≤ length s
length-starts_with [] s h = omega arith
length-starts_with (c ∷ p) [] h = ground arith
length-starts_with (c ∷ p) (d ∷ s) h = omega (arith, length-starts_with p s (&&_right (c == d) _ h))

-- The position found, and the prefix there, fit in the text.
pub find_str-fits : (p s : Str) {i : ℕ} → find_str p s ≡ some i → i + length p ≤ length s
unfolding find_str
find_str-fits p [] {i} h = ground (arith, length-starts_with p [])
find_str-fits p (b ∷ s) {i} h = elim (Bool-cases (starts_with p (b ∷ s))) [
  | inl e ↦ ground (arith, length-starts_with p (b ∷ s))
  | inr e ↦ elim (Option-cases (find_str p s)) [
    | inl n ↦ ground arith
    | inr (j, q) ↦ ground (arith, find_str-fits p s q)
  ]
]

get_elem?-length : (s : Str) → get_elem? s (length s) ≡ none
get_elem?-length [] = refl
get_elem?-length (b ∷ s) = get_elem?-length s

take-length : (s : Str) → take (length s - 0) s ≡ s
take-length s = ap (λ n. take n s) (omega arith) ∙ whole s
  where
    whole : (s : Str) → take (length s) s ≡ s
    whole [] = refl
    whole (b ∷ s) = ap (λ t. b ∷ t) (whole s)

-- The slice from the start to the end is the text.
pub slice-whole : (s : Str) → slice s 0 (length s) ≡ ret s
unfolding slice is_char_boundary
slice-whole s =
    let ends : (length s == length s) ≡ true = ground arith in
    let bounds : leb 0 (length s) ≡ true = ground arith in
    rw (bounds, get_elem?-length s, ends, take-length s) (either (length s == 0))
  where
    either : (b : Bool) → (if b || true then ret s else panic) ≡ ret s
    either true = refl
    either false = refl
