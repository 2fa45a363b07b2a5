-- ===== src/Prelude/Replace.antt =====
-- `s.contains(p)`, `s.matches(p).count()` and `s.replace(p, q)` on `str`. Occurrences do not overlap, and
-- the empty text occurs at every boundary of a character.
use Prim.Native.Nat.{ℕ, zero, suc, ◌+◌}
use mathlib.Core.Path.{◌≡◌, refl, sym, ap, ◌∙◌}
use mathlib.Core.Logic.{inl, inr}
use mathlib.Core.Bool.{Bool, true, false}
use mathlib.Core.Option.{none, some}
use mathlib.Core.List.{[], ◌∷◌, ◌++◌}
use native.Mathlib.Omega.{arith}
use in_visibool.Prelude.Tests.{some_inj, if◌then◌else◌, Bool-cases, Option-cases}
use in_visibool.Prelude.Lists.{length}
use in_visibool.Prelude.Bytes.{Str, starts_with, starts_with-append}
use in_visibool.Prelude.Slices.{find_str, is_continuation}

unfoldable pub contains_str : Str → Str → Bool
contains_str p s = elim (find_str p s) [ none ↦ false | some i ↦ true ]

-- The scan for a text of `suc n` bytes; the first argument counts the bytes of an occurrence that are
-- still to be passed over.
unfoldable pub count_scan : ℕ → Str → ℕ → Str → ℕ
count_scan skip p n [] = 0
count_scan (suc skip) p n (b ∷ s) = count_scan skip p n s
count_scan zero p n (b ∷ s) = elim (starts_with p (b ∷ s)) [
  | true ↦ 1 + count_scan n p n s
  | false ↦ count_scan zero p n s
]

unfoldable pub replace_scan : ℕ → Str → Str → ℕ → Str → Str
replace_scan skip p q n [] = []
replace_scan (suc skip) p q n (b ∷ s) = replace_scan skip p q n s
replace_scan zero p q n (b ∷ s) = elim (starts_with p (b ∷ s)) [
  | true ↦ q ++ replace_scan n p q n s
  | false ↦ b ∷ replace_scan zero p q n s
]

-- The boundaries of characters, and a text put at each of them.
unfoldable pub count_boundaries : Str → ℕ
count_boundaries [] = 1
count_boundaries (b ∷ s) = if is_continuation b then count_boundaries s else 1 + count_boundaries s

unfoldable pub fill_boundaries : Str → Str → Str
fill_boundaries q [] = q
fill_boundaries q (b ∷ s) =
    let rest = fill_boundaries q s in if is_continuation b then b ∷ rest else q ++ (b ∷ rest)

unfoldable pub matches_count : Str → Str → ℕ
matches_count [] s = count_boundaries s
matches_count (c ∷ p) s = count_scan zero (c ∷ p) (length p) s

unfoldable pub replace : Str → Str → Str → Str
replace [] q s = fill_boundaries q s
replace (c ∷ p) q s = replace_scan zero (c ∷ p) q (length p) s

count_skip : (p t s : Str) (n : ℕ) → count_scan (length t) p n (t ++ s) ≡ count_scan zero p n s
unfolding count_scan
count_skip p [] s n = refl
count_skip p (b ∷ t) s n = count_skip p t s n

replace_skip :
    (p q t s : Str) (n : ℕ) → replace_scan (length t) p q n (t ++ s) ≡ replace_scan zero p q n s
unfolding replace_scan
replace_skip p q [] s n = refl
replace_skip p q (b ∷ t) s n = replace_skip p q t s n

suc_inj : {i j : ℕ} → some (suc i) ≡ some (suc j) → i ≡ j
suc_inj h = omega (arith, some_inj h)

-- The search goes on after a byte at which the text does not start.
find_on :
    (p s : Str) (b i : ℕ)
    → find_str p (b ∷ s) ≡ some (suc i)
    → (starts_with p (b ∷ s) ≡ false) × (find_str p s ≡ some i)
unfolding find_str
find_on p s b i h = elim (Bool-cases (starts_with p (b ∷ s))) [
  | inl e ↦
      let here : find_str p (b ∷ s) ≡ some 0 = rw (e, find_str) refl in
      absurd (zero-ne-suc i (some_inj (sym here ∙ h)))
  | inr e ↦ elim (Option-cases (find_str p s)) [
    | inl n ↦
        let nowhere : find_str p (b ∷ s) ≡ none = rw (e, n, find_str) refl in
        absurd (none-ne-some (sym nowhere ∙ h))
    | inr (k, f) ↦
        let later : find_str p (b ∷ s) ≡ some (suc k) = rw (e, f, find_str) refl in
        (e, f ∙ ap some (suc_inj (sym later ∙ h)))
  ]
]
  where
    zero-ne-suc : (i : ℕ) → 0 ≡ suc i → ⊥
    zero-ne-suc i h = omega arith

    none-ne-some : {i : ℕ} → none ≡ some i → ⊥
    none-ne-some h = cc

-- The first occurrence is replaced, and the search goes on after it.
pub replace-occurs :
    (c : ℕ) (p q a b : Str)
    → find_str (c ∷ p) (a ++ ((c ∷ p) ++ b)) ≡ some (length a)
    → replace (c ∷ p) q (a ++ ((c ∷ p) ++ b)) ≡ a ++ (q ++ replace (c ∷ p) q b)
unfolding replace replace_scan
replace-occurs c p q [] b h =
    rw (starts_with-append (c ∷ p) b, replace_scan)
      (ap (λ t. q ++ t) (replace_skip (c ∷ p) q p b (length p)))
replace-occurs c p q (x ∷ a) b h =
    let (e, f) = find_on (c ∷ p) (a ++ ((c ∷ p) ++ b)) x (length a) h in
    rw (e, replace_scan) (ap (λ t. x ∷ t) (replace-occurs c p q a b f))

pub count-occurs :
    (c : ℕ) (p a b : Str)
    → find_str (c ∷ p) (a ++ ((c ∷ p) ++ b)) ≡ some (length a)
    → matches_count (c ∷ p) (a ++ ((c ∷ p) ++ b)) ≡ 1 + matches_count (c ∷ p) b
unfolding matches_count count_scan
count-occurs c p [] b h =
    rw (starts_with-append (c ∷ p) b, count_scan)
      (ap (λ n. 1 + n) (count_skip (c ∷ p) p b (length p)))
count-occurs c p (x ∷ a) b h =
    let (e, f) = find_on (c ∷ p) (a ++ ((c ∷ p) ++ b)) x (length a) h in
    rw (e, count_scan) (count-occurs c p a b f)

find_none :
    (p s : Str) (b : ℕ)
    → find_str p (b ∷ s) ≡ none
    → (starts_with p (b ∷ s) ≡ false) × (find_str p s ≡ none)
unfolding find_str
find_none p s b h = elim (Bool-cases (starts_with p (b ∷ s))) [
  | inl e ↦
      let here : find_str p (b ∷ s) ≡ some 0 = rw (e, find_str) refl in
      absurd (none-ne-some (sym h ∙ here))
  | inr e ↦ elim (Option-cases (find_str p s)) [
    | inl n ↦ (e, n)
    | inr (k, f) ↦
        let later : find_str p (b ∷ s) ≡ some (suc k) = rw (e, f, find_str) refl in
        absurd (none-ne-some (sym h ∙ later))
  ]
]
  where
    none-ne-some : {i : ℕ} → none ≡ some i → ⊥
    none-ne-some h = cc

-- A text that does not occur is not replaced.
pub replace-absent : (c : ℕ) (p q s : Str) → find_str (c ∷ p) s ≡ none → replace (c ∷ p) q s ≡ s
unfolding replace replace_scan
replace-absent c p q [] h = refl
replace-absent c p q (b ∷ s) h =
    let (e, f) = find_none (c ∷ p) s b h in
    rw (e, replace_scan) (ap (λ t. b ∷ t) (replace-absent c p q s f))

pub count-absent : (c : ℕ) (p s : Str) → find_str (c ∷ p) s ≡ none → matches_count (c ∷ p) s ≡ 0
unfolding matches_count count_scan
count-absent c p [] h = refl
count-absent c p (b ∷ s) h =
    let (e, f) = find_none (c ∷ p) s b h in rw (e, count_scan) (count-absent c p s f)
