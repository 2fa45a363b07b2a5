-- ===== src/Detection/Sorting.antt =====
-- What sorting keeps.
use in_visibool.Prelude.{
  Bool-cases, any, All, All-map, ◌≡◌, refl, ap, ◌∙◌, subst, inl, inr, Bool, true, false, ◌||◌, List,
  [], ◌∷◌, arith,
}
use in_visibool.Detection.{insert_sorted, sort_by}

-- Sorting keeps what holds of every item.
module _ {ℓ κ} {A : Type ℓ} (before : A → A → Bool) (P : A → Type κ) where
  pub All-insert_sorted : (x : A) (xs : List A) → P x → All P xs → All P (insert_sorted before x xs)
  unfolding insert_sorted
  All-insert_sorted x [] hx h = (hx, tt)
  All-insert_sorted x (y ∷ ys) hx (hy, h) = elim (Bool-cases (before x y)) [
    | inl e ↦ rw e (hx, (hy, h))
    | inr e ↦ rw e (hy, All-insert_sorted x ys hx h)
  ]

  pub All-sort_by : (xs : List A) → All P xs → All P (sort_by before xs)
  unfolding sort_by
  All-sort_by [] h = tt
  All-sort_by (x ∷ xs) (hx, h) = All-insert_sorted x (sort_by before xs) hx (All-sort_by xs h)

module _ {ℓ} {A : Type ℓ} (before : A → A → Bool) where
  pub any-insert_sorted :
      (p : A → Bool) (x : A) (xs : List A) → any p (insert_sorted before x xs) ≡ (p x || any p xs)
  unfolding insert_sorted
  any-insert_sorted p x [] = refl
  any-insert_sorted p x (y ∷ ys) = elim (Bool-cases (before x y)) [
    | inl e ↦ rw e refl
    | inr e ↦ rw e (ground (arith, any-insert_sorted p x ys))
  ]

  pub any-sort_by : (p : A → Bool) (xs : List A) → any p (sort_by before xs) ≡ any p xs
  unfolding sort_by
  any-sort_by p [] = refl
  any-sort_by p (x ∷ xs) =
      any-insert_sorted p x (sort_by before xs) ∙ ap (λ b. p x || b) (any-sort_by p xs)

  -- What holds of every item after sorting held before it.
  All-of-insert_sorted :
      (P : A → Type 0) (x : A) (xs : List A) → All P (insert_sorted before x xs) → P x × All P xs
  unfolding insert_sorted
  All-of-insert_sorted P x [] (h, k) = (h, tt)
  All-of-insert_sorted P x (y ∷ ys) h = elim (Bool-cases (before x y)) [
    | inl e ↦
        let step : insert_sorted before x (y ∷ ys) ≡ x ∷ y ∷ ys = rw e refl in subst (All P) step h
    | inr e ↦
        let step : insert_sorted before x (y ∷ ys) ≡ y ∷ insert_sorted before x ys = rw e refl in
        let (hy, k) = subst (All P) step h in
        let (hx, hs) = All-of-insert_sorted P x ys k in (hx, (hy, hs))
  ]

  pub All-of-sort_by : (P : A → Type 0) (xs : List A) → All P (sort_by before xs) → All P xs
  unfolding sort_by
  All-of-sort_by P [] h = tt
  All-of-sort_by P (x ∷ xs) h =
      let (hx, hs) = All-of-insert_sorted P x (sort_by before xs) h in (hx, All-of-sort_by P xs hs)

-- In an order: each before every later one.
abbrev pub AreSorted {ℓ} : {A : Type ℓ} → (A → A → Bool) → List A → Type 0
AreSorted before [] = Unit {0}
AreSorted before (m ∷ ms) = All (λ k. before m k ≡ true) ms × AreSorted before ms

module _ {ℓ} {A : Type ℓ} (before : A → A → Bool)
    (other : (x y : A) → before x y ≡ false → before y x ≡ true)
    (trans : (x y z : A) → before x y ≡ true → before y z ≡ true → before x z ≡ true) where
  insert_sorted-AreSorted :
      (x : A) (xs : List A) → AreSorted before xs → AreSorted before (insert_sorted before x xs)
  unfolding insert_sorted
  insert_sorted-AreSorted x [] k = (tt, tt)
  insert_sorted-AreSorted x (y ∷ ys) (h, k) = elim (Bool-cases (before x y)) [
    | inl e ↦ rw e ((e, All-map (λ (z : A) l. trans x y z e l) ys h), (h, k))
    | inr e ↦ rw e (
      All-insert_sorted before (λ (z : A). before y z ≡ true) x ys (other x y e) h,
      insert_sorted-AreSorted x ys k,
    )
  ]

  pub sort_by-AreSorted : (xs : List A) → AreSorted before (sort_by before xs)
  unfolding sort_by
  sort_by-AreSorted [] = tt
  sort_by-AreSorted (x ∷ xs) = insert_sorted-AreSorted x (sort_by before xs) (sort_by-AreSorted xs)
