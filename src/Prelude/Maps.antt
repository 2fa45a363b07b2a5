-- ===== src/Prelude/Maps.antt =====
-- `HashMap<String, V>` as an association list; its order is one order of iteration. An insert keeps
-- the place of a key that is there, and a new key goes to the end.
use Prim.Native.Nat.{◌+◌, ◌≤◌, ◌<◌}
use mathlib.Core.Path.{◌≡◌, refl, ◌∙◌}
use mathlib.Core.Logic.{inl, inr}
use mathlib.Core.Bool.{Bool, false, ◌||◌}
use mathlib.Core.Option.{Option, none, some}
use mathlib.Core.List.{List, [], ◌∷◌}
use native.Mathlib.Omega.{arith}
use in_visibool.Prelude.Tests.{if◌then◌else◌, Bool-cases}
use in_visibool.Prelude.Lists.{length}
use in_visibool.Prelude.Bytes.{Str, str_eq, str_eq_iff, str_eq_refl}

abbrev pub HashMap {ℓ} : Type ℓ → Type ℓ
HashMap V = List (Str × V)

abbrev pub mem_key : Str → List Str → Bool
mem_key k [] = false
mem_key k (j ∷ js) = str_eq j k || mem_key k js

module _ {ℓ} {V : Type ℓ} where
  unfoldable pub lookup : Str → HashMap V → Option V
  lookup k [] = none
  lookup k ((j, v) ∷ m) = if str_eq j k then some v else lookup k m

  unfoldable pub insert : Str → V → HashMap V → HashMap V
  insert k v [] = (k, v) ∷ []
  insert k v ((j, w) ∷ m) = if str_eq j k then (k, v) ∷ m else (j, w) ∷ insert k v m

  unfoldable pub remove : Str → HashMap V → HashMap V
  remove k [] = []
  remove k ((j, w) ∷ m) = let rest = remove k m in if str_eq j k then rest else (j, w) ∷ rest

  -- What a `HashMap` guarantees: each key stands once.
  abbrev pub DistinctKeys : HashMap V → Type ℓ
  DistinctKeys [] = Unit {ℓ}
  DistinctKeys ((k, v) ∷ m) = (lookup k m ≡ none) × DistinctKeys m

  pub lookup-insert :
      (k j : Str) (v : V) (m : HashMap V)
      → lookup j (insert k v m) ≡ (if str_eq k j then some v else lookup j m)
  unfolding lookup insert
  lookup-insert k j v [] = refl
  lookup-insert k j v ((i, w) ∷ m) =
      ground (arith, str_eq_iff k j, str_eq_iff i k, str_eq_iff i j, lookup-insert k j v m)

  pub lookup-remove :
      (k j : Str) (m : HashMap V)
      → lookup j (remove k m) ≡ (if str_eq k j then none else lookup j m)
  unfolding lookup remove
  lookup-remove k j [] = ground arith
  lookup-remove k j ((i, w) ∷ m) =
      ground (arith, str_eq_iff k j, str_eq_iff i k, str_eq_iff i j, lookup-remove k j m)

  pub length-insert : (k : Str) (v : V) (m : HashMap V) → length (insert k v m) ≤ length m + 1
  unfolding insert
  length-insert k v [] = omega arith
  length-insert k v ((i, w) ∷ m) = ground (arith, length-insert k v m)

  -- Overwriting a key keeps the number of entries.
  pub length-insert_present :
      (k : Str) (v : V) (m : HashMap V) {u : V}
      → lookup k m ≡ some u
      → length (insert k v m) ≡ length m
  unfolding insert lookup
  length-insert_present k v [] {u} h = ground arith
  length-insert_present k v ((i, w) ∷ m) {u} h = ground (arith, length-insert_present k v m {u = u})

  pub length-remove_le : (k : Str) (m : HashMap V) → length (remove k m) ≤ length m
  unfolding remove
  length-remove_le k [] = omega arith
  length-remove_le k ((i, w) ∷ m) = ground (arith, length-remove_le k m)

  pub length-remove_lt :
      (k : Str) (m : HashMap V) {v : V} → lookup k m ≡ some v → length (remove k m) < length m
  unfolding remove lookup
  length-remove_lt k [] h = ground arith
  length-remove_lt k ((i, w) ∷ m) {v} h = elim (Bool-cases (str_eq i k)) [
    | inl e ↦ rw e (omega (arith, length-remove_le k m))
    | inr e ↦
        let rest : lookup k m ≡ some v = ground arith in
        rw e (omega (arith, length-remove_lt k m rest))
  ]

  pub DistinctKeys-insert :
      (k : Str) (v : V) (m : HashMap V) → DistinctKeys m → DistinctKeys (insert k v m)
  unfolding insert lookup
  DistinctKeys-insert k v [] d = (refl, tt)
  DistinctKeys-insert k v ((i, w) ∷ m) (h, d) = elim (Bool-cases (str_eq i k)) [
    | inl e ↦ let same : i ≡ k = (str_eq_iff i k).0 e in rw e (rw (← same) h, d)
    | inr e ↦
        let ne : str_eq k i ≡ false = ground (arith, str_eq_iff i k, str_eq_iff k i) in
        rw e (lookup-insert k i v m ∙ rw ne h, DistinctKeys-insert k v m d)
  ]

  pub DistinctKeys-remove : (k : Str) (m : HashMap V) → DistinctKeys m → DistinctKeys (remove k m)
  unfolding remove lookup
  DistinctKeys-remove k [] d = tt
  DistinctKeys-remove k ((i, w) ∷ m) (h, d) = elim (Bool-cases (str_eq i k)) [
    | inl e ↦ rw e (DistinctKeys-remove k m d)
    | inr e ↦
        let ne : str_eq k i ≡ false = ground (arith, str_eq_iff i k, str_eq_iff k i) in
        rw e (lookup-remove k i m ∙ rw ne h, DistinctKeys-remove k m d)
  ]

pub ruleset map_laws = (lookup-insert, lookup-remove, str_eq_refl)
