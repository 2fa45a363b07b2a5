-- ===== src/Prelude/Texts.antt =====
-- Numbers in texts, and paths on Unix as their bytes.
use Prim.Native.Nat.{ℕ, zero, suc, ◌+◌, ◌%◌, ◌/◌}
use mathlib.Core.Path.{◌≡◌}
use mathlib.Core.Logic.{inl, inr}
use mathlib.Core.Bool.{Bool, true, ◌||◌}
use mathlib.Core.List.{[], ◌∷◌, ◌++◌}
use native.Mathlib.Omega.{arith}
use in_visibool.Prelude.Tests.{ltb, if◌then◌else◌, Bool-cases}
use in_visibool.Prelude.Bytes.{Str, codes, str_eq, starts_with, ends_with}

-- `{n}` in `format!` for a `usize`, which has at most 20 decimal digits
unfoldable pub decimal_loop : ℕ → ℕ → Str
decimal_loop zero n = []
decimal_loop (suc fuel) n =
    let rest = decimal_loop fuel (n / 10) in
    if ltb n 10 then (b'0' + n) ∷ [] else rest ++ ((b'0' + n % 10) ∷ [])

abbrev pub decimal : ℕ → Str
decimal = decimal_loop 20

-- `Path::join` on Unix
unfoldable pub join : Str → Str → Str
join base part =
    if starts_with (codes "/") part
    then part
    else if str_eq base [] || ends_with (codes "/") base
    then base ++ part
    else base ++ (codes "/" ++ part)

-- `Path::is_absolute`
abbrev pub is_absolute : Str → Bool
is_absolute = starts_with (codes "/")

append_absolute : (base part : Str) → is_absolute base ≡ true → is_absolute (base ++ part) ≡ true
append_absolute [] part h = cc
append_absolute (c ∷ base) part h = ground arith

-- A path joined to an absolute path is absolute.
pub join_absolute :
    (base part : Str) → is_absolute base ≡ true → is_absolute (join base part) ≡ true
unfolding join
join_absolute base part h = elim (Bool-cases (is_absolute part)) [
  | inl e ↦ rw (e, join) e
  | inr e ↦ elim (Bool-cases (str_eq base [] || ends_with (codes "/") base)) [
    | inl f ↦ rw (e, f, join) (append_absolute base part h)
    | inr f ↦ rw (e, f, join) (append_absolute base (codes "/" ++ part) h)
  ]
]
