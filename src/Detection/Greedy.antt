-- ===== src/Detection/Greedy.antt =====
-- The greedy walk of crates/invisibool-engine/src/detection/mod.rs over candidates in their order.
use in_visibool.Prelude.{
  Bool-cases, any, All, All-append, ◌<◌, ◌≡◌, refl, sym, ◌∙◌, subst, inl, inr, Bool, true, false,
  ◌&&◌, ◌||◌, List, [], ◌∷◌, ◌++◌, arith,
}
use in_visibool.Detection.{
  insert_sorted, sort_by, by_start, more_desirable, overlaps, keep_greedy, Match,
}
use in_visibool.Detection.Sorting.{any-insert_sorted, any-sort_by, AreSorted}

-- No match overlaps a later one.
abbrev pub AreApart : List Match → Type 0
AreApart [] = Unit {0}
AreApart (m ∷ ms) = (any (overlaps m) ms ≡ false) × AreApart ms

overlaps_comm : (a b : Match) → overlaps a b ≡ overlaps b a
overlaps_comm a b = ground arith

module _ (before : Match → Match → Bool) where
  AreApart-insert_sorted :
      (x : Match) (xs : List Match)
      → any (overlaps x) xs ≡ false
      → AreApart xs
      → AreApart (insert_sorted before x xs)
  unfolding insert_sorted
  AreApart-insert_sorted x [] h k = (refl, tt)
  AreApart-insert_sorted x (y ∷ ys) h (hy, k) = elim (Bool-cases (before x y)) [
    | inl e ↦ rw e (h, (hy, k))
    | inr e ↦
        let other : overlaps y x ≡ false = overlaps_comm y x ∙ ground arith in
        rw e (
          any-insert_sorted before (overlaps y) x ys ∙ rw (other, hy) refl,
          AreApart-insert_sorted x ys (ground arith) k,
        )
  ]

  pub AreApart-sort_by : (xs : List Match) → AreApart xs → AreApart (sort_by before xs)
  unfolding sort_by
  AreApart-sort_by [] k = tt
  AreApart-sort_by (x ∷ xs) (h, k) =
      AreApart-insert_sorted x (sort_by before xs) (any-sort_by before (overlaps x) xs ∙ h)
        (AreApart-sort_by xs k)

pub desirable_other : (x y : Match) → more_desirable x y ≡ false → more_desirable y x ≡ true
desirable_other x y e = ground arith

pub desirable_trans :
    (x y z : Match)
    → more_desirable x y ≡ true
    → more_desirable y z ≡ true
    → more_desirable x z ≡ true
desirable_trans x y z e h = ground arith

pub start_other : (x y : Match) → by_start x y ≡ false → by_start y x ≡ true
start_other x y e = ground arith

pub start_trans : (x y z : Match) → by_start x y ≡ true → by_start y z ≡ true → by_start x z ≡ true
start_trans x y z e h = ground arith

any-append_one :
    (p : Match → Bool) (xs : List Match) (m : Match) → any p (xs ++ (m ∷ [])) ≡ (any p xs || p m)
any-append_one p [] m = ground arith
any-append_one p (x ∷ xs) m = ground (arith, any-append_one p xs m)

AreApart-append_one :
    (xs : List Match) (m : Match)
    → AreApart xs
    → any (overlaps m) xs ≡ false
    → AreApart (xs ++ (m ∷ []))
AreApart-append_one [] m k h = (refl, tt)
AreApart-append_one (x ∷ xs) m (hx, k) h =
    let other : overlaps x m ≡ false = overlaps_comm x m ∙ ground arith in
    (
      any-append_one (overlaps x) xs m ∙ rw (hx, other) refl,
      AreApart-append_one xs m k (ground arith),
    )

pub keep_greedy-AreApart : (kept ms : List Match) → AreApart kept → AreApart (keep_greedy kept ms)
unfolding keep_greedy
keep_greedy-AreApart kept [] k = k
keep_greedy-AreApart kept (m ∷ ms) k = elim (Bool-cases (any (overlaps m) kept)) [
  | inl e ↦ rw (e, keep_greedy) (keep_greedy-AreApart kept ms k)
  | inr e ↦
      rw (e, keep_greedy)
        (keep_greedy-AreApart (kept ++ (m ∷ [])) ms (AreApart-append_one kept m k e))
]

-- What is kept stays kept.
any-keep_greedy :
    (p : Match → Bool) (kept ms : List Match)
    → any p kept ≡ true
    → any p (keep_greedy kept ms) ≡ true
unfolding keep_greedy
any-keep_greedy p kept [] h = h
any-keep_greedy p kept (m ∷ ms) h = elim (Bool-cases (any (overlaps m) kept)) [
  | inl e ↦ rw (e, keep_greedy) (any-keep_greedy p kept ms h)
  | inr e ↦
      rw (e, keep_greedy)
        (any-keep_greedy p (kept ++ (m ∷ [])) ms (any-append_one p kept m ∙ rw h refl))
]

-- `k` is a reason not to keep `m`, or is `m`.
abbrev pub beats : Match → Match → Bool
beats m k = overlaps m k && more_desirable k m

any-beats :
    (m : Match) (kept : List Match)
    → All (λ (k : Match). more_desirable k m ≡ true) kept
    → any (overlaps m) kept ≡ true
    → any (beats m) kept ≡ true
any-beats m [] b h = h
any-beats m (k ∷ kept) (hk, b) h = elim (Bool-cases (overlaps m k)) [
  | inl e ↦ rw (e, hk) refl
  | inr e ↦ rw e (any-beats m kept b (ground arith))
]

-- Every candidate is beaten by something kept, where what was kept before beats in desirability what is
-- still to come.
pub keep_greedy_covers :
    (kept ms : List Match)
    → AreSorted more_desirable ms
    → All (λ (m : Match). All (λ (k : Match). more_desirable k m ≡ true) kept) ms
    → All (λ (m : Match). m.start < m.finish) ms
    → All (λ (m : Match). any (beats m) (keep_greedy kept ms) ≡ true) ms
unfolding keep_greedy
keep_greedy_covers kept [] o b h = tt
keep_greedy_covers kept (m ∷ ms) (om, o) (bm, b) (hm, h) =
    elim (Bool-cases (any (overlaps m) kept)) [
      | inl e ↦
          let step : keep_greedy kept (m ∷ ms) ≡ keep_greedy kept ms = rw (e, keep_greedy) refl in
          subst (λ (k : List Match). All (λ (z : Match). any (beats z) k ≡ true) (m ∷ ms))
            (sym step)
            (
              any-keep_greedy (beats m) kept ms (any-beats m kept bm e),
              keep_greedy_covers kept ms o b h,
            )
      | inr e ↦
          let self : beats m m ≡ true = ground arith in
          let more = kept ++ (m ∷ []) in
          let here : any (beats m) more ≡ true = any-append_one (beats m) kept m ∙ ground arith in
          let step : keep_greedy kept (m ∷ ms) ≡ keep_greedy more ms = rw (e, keep_greedy) refl in
          subst (λ (k : List Match). All (λ (z : Match). any (beats z) k ≡ true) (m ∷ ms))
            (sym step)
            (any-keep_greedy (beats m) more ms here, keep_greedy_covers more ms o (grown ms om b) h)
    ]
  where
    grown :
        (zs : List Match)
        → All (λ (z : Match). more_desirable m z ≡ true) zs
        → All (λ (z : Match). All (λ (k : Match). more_desirable k z ≡ true) kept) zs
        → All (λ (z : Match). All (λ (k : Match). more_desirable k z ≡ true) (kept ++ (m ∷ []))) zs
    grown [] p q = tt
    grown (z ∷ zs) (pz, p) (qz, q) = (
      All-append (λ (k : Match). more_desirable k z ≡ true) kept (m ∷ []) qz (pz, tt),
      grown zs p q,
    )

pub none_kept :
    (ms : List Match) → All (λ (m : Match). All (λ (k : Match). more_desirable k m ≡ true) []) ms
none_kept [] = tt
none_kept (m ∷ ms) = (tt, none_kept ms)

pub All-keep_greedy :
    (P : Match → Type 0) (kept ms : List Match)
    → All P kept
    → All P ms
    → All P (keep_greedy kept ms)
unfolding keep_greedy
All-keep_greedy P kept [] k h = k
All-keep_greedy P kept (m ∷ ms) k (hm, h) = elim (Bool-cases (any (overlaps m) kept)) [
  | inl e ↦ rw (e, keep_greedy) (All-keep_greedy P kept ms k h)
  | inr e ↦
      rw (e, keep_greedy)
        (All-keep_greedy P (kept ++ (m ∷ [])) ms (All-append P kept (m ∷ []) k (hm, tt)) h)
]
