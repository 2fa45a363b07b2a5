-- ===== src/Detection/Choice.antt =====
-- What the choice among overlapping candidates returns.
use in_visibool.Prelude.{
  ◌==◌, Bool-cases, any, All, All-map, ◌-◌, ◌≤◌, ◌<◌, ◌≡◌, ◌∙◌, ◌⊎◌, inl, inr, true, false, List,
  [], ◌∷◌, arith,
}
use in_visibool.Detection.{
  exact, pattern_rule, span, confidence, sort_by, by_start, more_desirable, overlaps, keep_greedy,
  resolve, MatchKind, Match,
}
use in_visibool.Detection.Sorting.{
  All-sort_by, any-sort_by, All-of-sort_by, AreSorted, sort_by-AreSorted,
}
use in_visibool.Detection.Greedy.{
  AreApart, AreApart-sort_by, desirable_other, desirable_trans, start_other, start_trans,
  keep_greedy-AreApart, beats, keep_greedy_covers, none_kept, All-keep_greedy,
}

-- Each match ends at the latest where every later one starts.
abbrev pub AreSeparate : List Match → Type 0
AreSeparate [] = Unit {0}
AreSeparate (m ∷ ms) = All (λ (k : Match). m.finish ≤ k.start) ms × AreSeparate ms

separate :
    (ms : List Match)
    → AreApart ms
    → AreSorted by_start ms
    → All (λ (m : Match). m.start < m.finish) ms
    → AreSeparate ms
separate [] a o h = tt
separate (m ∷ ms) (am, a) (om, o) (hm, h) = (from_first ms am om h, separate ms a o h)
  where
    from_first :
        (ks : List Match)
        → any (overlaps m) ks ≡ false
        → All (λ (k : Match). by_start m k ≡ true) ks
        → All (λ (k : Match). k.start < k.finish) ks
        → All (λ (k : Match). m.finish ≤ k.start) ks
    from_first [] p q r = tt
    from_first (k ∷ ks) p (qk, q) (rk, r) = (ground arith, from_first ks (ground arith) q r)

-- A registered value is certain, a rule is not.
abbrev pub MoreCertain : MatchKind → MatchKind → Type 0
MoreCertain (exact i) (pattern_rule r) = Unit
MoreCertain (exact i) (exact j) = ⊥
MoreCertain (pattern_rule r) k = ⊥

abbrev pub AsCertain : MatchKind → MatchKind → Type 0
AsCertain (exact i) (exact j) = Unit
AsCertain (pattern_rule r) (pattern_rule s) = Unit
AsCertain (exact i) (pattern_rule r) = ⊥
AsCertain (pattern_rule r) (exact i) = ⊥

-- `k` shares a position with `m` and goes before it: it is longer, or as long and more certain, or as
-- long and as certain and starts no later.
abbrev pub Displaces : Match → Match → Type 0
Displaces k m =
    (k.start < m.finish)
    × (m.start < k.finish)
    × ((m.finish - m.start < k.finish - k.start)
        ⊎ ((m.finish - m.start ≡ k.finish - k.start)
            × (MoreCertain k.kind m.kind ⊎ (AsCertain k.kind m.kind × (k.start ≤ m.start)))))

as_certain : (i j : MatchKind) → confidence i ≡ confidence j → AsCertain i j
as_certain (exact i) (exact j) e = tt
as_certain (exact i) (pattern_rule r) e = absurd (omega arith)
as_certain (pattern_rule r) (exact i) e = absurd (omega arith)
as_certain (pattern_rule r) (pattern_rule s) e = tt

more_certain : (i j : MatchKind) → confidence j < confidence i → MoreCertain i j
more_certain (exact i) (exact j) e = absurd (omega arith)
more_certain (exact i) (pattern_rule r) e = tt
more_certain (pattern_rule r) (exact i) e = absurd (omega arith)
more_certain (pattern_rule r) (pattern_rule s) e = absurd (omega arith)

beats-Displaces : (m k : Match) → beats m k ≡ true → Displaces k m
beats-Displaces m k h = (ground arith, ground arith, rank)
  where
    wins : more_desirable k m ≡ true
    wins = ground arith

    rank :
        (m.finish - m.start < k.finish - k.start)
        ⊎ ((m.finish - m.start ≡ k.finish - k.start)
            × (MoreCertain k.kind m.kind ⊎ (AsCertain k.kind m.kind × (k.start ≤ m.start))))
    rank = elim (Bool-cases (span k == span m)) [
      | inr e ↦ inl (ground arith)
      | inl e ↦ elim (Bool-cases (confidence k.kind == confidence m.kind)) [
        | inl g ↦ inr (ground arith, inr (as_certain k.kind m.kind (ground arith), ground arith))
        | inr g ↦ inr (ground arith, inl (more_certain k.kind m.kind (ground arith)))
      ]
    ]

-- One of a list displaces `m`.
abbrev pub IsDisplaced : List Match → Match → Type 0
IsDisplaced [] m = ⊥
IsDisplaced (k ∷ ks) m = Displaces k m ⊎ IsDisplaced ks m

any-IsDisplaced : (m : Match) (ks : List Match) → any (beats m) ks ≡ true → IsDisplaced ks m
any-IsDisplaced m [] h = absurd (cc)
any-IsDisplaced m (k ∷ ks) h = elim (Bool-cases (beats m k)) [
  | inl e ↦ inl (beats-Displaces m k e)
  | inr e ↦ inr (any-IsDisplaced m ks (ground arith))
]

-- Of candidates that are not empty, the detector returns matches in the order of their positions, each of
-- which ends at the latest where the next starts. Every candidate shares a position with a returned one
-- that is longer, or as long and more certain, or as long and as certain and starts no later, which may
-- be the candidate itself. What holds of every candidate holds of what is returned.
pub resolve_lem :
    (candidates : List Match) (P : Match → Type 0)
    → All (λ (m : Match). m.start < m.finish) candidates
    → All P candidates
    → AreSeparate (resolve candidates)
      × All (IsDisplaced (resolve candidates)) candidates
      × All P (resolve candidates)
unfolding resolve
resolve_lem candidates P spans h =
    let best = sort_by more_desirable candidates in
    let kept = keep_greedy [] best in
    let sorted = sort_by-AreSorted more_desirable desirable_other desirable_trans candidates in
    let covered =
      All-of-sort_by more_desirable (λ (m : Match). any (beats m) kept ≡ true) candidates
        (keep_greedy_covers [] best sorted (none_kept best)
          (All-sort_by more_desirable (λ (m : Match). m.start < m.finish) candidates spans)) in
    let returned : (Q : Match → Type 0) → All Q candidates → All Q (sort_by by_start kept) = λ Q q.
      All-sort_by by_start Q kept
        (All-keep_greedy Q [] best tt (All-sort_by more_desirable Q candidates q)) in
    (
      separate (sort_by by_start kept)
          (AreApart-sort_by by_start kept (keep_greedy-AreApart [] best tt))
          (sort_by-AreSorted by_start start_other start_trans kept)
          (returned (λ (m : Match). m.start < m.finish) spans),
      All-map
          (λ (m : Match) e.
            any-IsDisplaced m (sort_by by_start kept) (any-sort_by by_start (beats m) kept ∙ e))
          candidates covered,
      returned P h,
    )
