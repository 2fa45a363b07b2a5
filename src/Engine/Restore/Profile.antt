-- ===== src/Engine/Restore/Profile.antt =====
-- The candidate spans of a text that has the profile of a registration and nothing around it.
use in_visibool.Prelude.{
  ℕ, ltb, leb, ◌==◌, ==_iff, Bool-cases, some_inj, length, get_elem?, take, drop, All,
  length-append, drop-append, Str, starts_with, is_ascii, starts_with-append, slice, find_str,
  slice-ascii, Run-cases, ret_inj, panic-ne-ret, Run, ret, panic, zero, suc, ◌+◌, ◌-◌, ◌≤◌, ◌<◌,
  ◌≡◌, refl, sym, ap, ◌∙◌, subst, inl, inr, true, false, some, List, [], ◌∷◌, ◌++◌, arith,
}
use in_visibool.Tokenizer.Fpe.{FpeRegistration}
use in_visibool.Tokenizer.Fpe.Scrubbing.{HasProfile}
use in_visibool.Detection.{insert_sorted, sort_by}
use in_visibool.Engine.Restore.{
  candidate_at, search_on, find_candidates, registration_candidates, all_candidates, pair_before,
  dedup,
}
use in_visibool.Engine.Restore.Candidates.{IsSpan, find_candidates_lem}

find_str-start : (p s : Str) → starts_with p s ≡ true → find_str p s ≡ some 0
unfolding find_str
find_str-start p [] h = rw (h, find_str)
find_str-start p (b ∷ s) h = rw (h, find_str)

take_all : (s : Str) → take (length s) s ≡ s
take_all [] = refl
take_all (x ∷ s) = ap (λ t. x ∷ t) (take_all s)

-- The spans that lie in a text of the length that each of them has at least.
pub whole_span :
    (s : Str) (ps : List (ℕ × ℕ))
    → All (IsSpan (length s) s) ps
    → All (λ (p : ℕ × ℕ). p ≡ (0, length s)) ps
whole_span s [] h = tt
whole_span s ((a, b) ∷ ps) ((lt, wide, fits), h) =
    let left : a ≡ 0 = omega arith in
    let right : b ≡ length s = omega arith in (cc, whole_span s ps h)

-- Repeats of one pair, sorted and without repeats, are that pair.
length-insert_sorted : (x : ℕ × ℕ) (xs : List (ℕ × ℕ)) → 0 < length (insert_sorted pair_before x xs)
unfolding insert_sorted
length-insert_sorted x [] = omega arith
length-insert_sorted x (y ∷ ys) = elim (Bool-cases (pair_before x y)) [
  | inl e ↦ rw e (omega arith)
  | inr e ↦ rw e (omega arith)
]

pub length-sort_by : (xs : List (ℕ × ℕ)) → 0 < length xs → 0 < length (sort_by pair_before xs)
unfolding sort_by
length-sort_by [] h = absurd (omega arith)
length-sort_by (x ∷ xs) h = length-insert_sorted x (sort_by pair_before xs)

pub dedup-repeats :
    (q : ℕ × ℕ) (ps : List (ℕ × ℕ))
    → All (λ (p : ℕ × ℕ). p ≡ q) ps
    → 0 < length ps
    → dedup ps ≡ q ∷ []
unfolding dedup
dedup-repeats q [] h lt = absurd (omega arith)
dedup-repeats q (p ∷ []) (hp, h) lt = ap (λ x. x ∷ []) hp
dedup-repeats q (p ∷ p' ∷ ps) (hp, (hp', h)) lt =
    let same : p ≡ p' = hp ∙ sym hp' in
    let left : (p.0 == p'.0) ≡ true = (==_iff p.0 p'.0).1 (ap (λ (x : ℕ × ℕ). x.0) same) in
    let right : (p.1 == p'.1) ≡ true = (==_iff p.1 p'.1).1 (ap (λ (x : ℕ × ℕ). x.1) same) in
    rw (left, right) (dedup-repeats q (p' ∷ ps) (hp', h) (omega arith))

zero_add : (n : ℕ) → 0 + n ≡ n
zero_add n = omega arith

-- A text with the profile of a registration gives that registration a candidate.
candidate_at-profile :
    (reg : FpeRegistration) (s body : Str)
    → is_ascii s ≡ true
    → HasProfile reg s body
    → length s ≡ length reg.value
    → length reg.prefix < length reg.value
    → candidate_at reg s 0 ≡ ret ((0, 0 + length reg.value) ∷ [])
unfolding candidate_at
candidate_at-profile reg s body ascii p size long =
    let cut =
      slice-ascii s (length reg.prefix) (length reg.value) ascii (omega arith) (omega arith) in
    let rest : drop (length reg.prefix) s ≡ body =
      ap (drop (length reg.prefix)) p.splits ∙ drop-append reg.prefix body in
    let part : take (length reg.value - length reg.prefix) (drop (length reg.prefix) s) ≡ body =
      ap (take (length reg.value - length reg.prefix)) rest
      ∙ ap (λ n. take n body) (sym p.long)
      ∙ take_all body in
    let found : slice s (0 + length reg.prefix) (0 + length reg.value) ≡ ret body =
      ap (λ n. slice s n (0 + length reg.value)) (zero_add (length reg.prefix))
      ∙ ap (slice s (length reg.prefix)) (zero_add (length reg.value))
      ∙ cut
      ∙ ap ret part in
    let exact_length : (length body == (length reg.value - length reg.prefix)) ≡ true =
      (==_iff _ _).1 p.long in
    rw (found, exact_length, p.over_alphabet) refl

search_on-start :
    (reg : FpeRegistration) (s : Str) (going : ℕ → Run (List (ℕ × ℕ))) {here rest : List (ℕ × ℕ)}
    → length s ≡ length reg.value
    → candidate_at reg s 0 ≡ ret here
    → going 1 ≡ ret rest
    → search_on reg s 0 going (some 0) ≡ ret (here ++ rest)
unfolding search_on
search_on-start reg s going size p q =
    let fits : ltb (length s) (0 + length reg.value) ≡ false = ground arith in
    rw (fits, p, q, search_on) refl

pub slice_whole : (s : Str) → is_ascii s ≡ true → slice s 0 (length s) ≡ ret s
slice_whole s ascii =
    let all_of : length s - 0 ≡ length s = omega arith in
    slice-ascii s 0 (length s) ascii (omega arith) (omega arith)
    ∙ ap (λ n. ret (take n s)) all_of
    ∙ ap ret (take_all s)

pub slice_empty : (s : Str) (n : ℕ) → is_ascii s ≡ true → n ≤ length s → slice s n n ≡ ret []
slice_empty s n ascii le =
    let nothing : n - n ≡ 0 = omega arith in
    slice-ascii s n n ascii (omega arith) le ∙ ap (λ k. ret (take k (drop n s))) nothing

one_round :
    (reg : FpeRegistration) (s : Str) {ps : List (ℕ × ℕ)}
    → length reg.prefix < length reg.value
    → is_ascii s ≡ true
    → find_str reg.prefix s ≡ some 0
    → search_on reg s 0 (find_candidates reg s (length s)) (some 0) ≡ ret ps
    → registration_candidates s reg ≡ ret ps
unfolding registration_candidates find_candidates
one_round reg s {ps} long ascii found round =
    let longer : leb (length reg.value) (length reg.prefix) ≡ false = ground arith in
    let whole = slice_whole s ascii in
    let more : length s + 1 ≡ suc (length s) = omega arith in
    let first : find_candidates reg s (suc (length s)) 0 ≡ ret ps =
      rw (whole, found, find_candidates) round in
    rw longer (ap (λ n. find_candidates reg s n 0) more ∙ first)

left_long : (xs ys : List (ℕ × ℕ)) → 0 < length xs → 0 < length (xs ++ ys)
left_long xs ys h = let size = length-append xs ys in omega arith

right_long : (xs ys : List (ℕ × ℕ)) → 0 < length ys → 0 < length (xs ++ ys)
right_long xs ys h = let size = length-append xs ys in omega arith

-- So the search of that registration finds at least one.
registration_candidates-profile :
    (reg : FpeRegistration) (s body : Str)
    → is_ascii s ≡ true
    → HasProfile reg s body
    → length s ≡ length reg.value
    → length reg.prefix < length reg.value
    → (ps : List (ℕ × ℕ)) × (registration_candidates s reg ≡ ret ps) × (0 < length ps)
registration_candidates-profile reg s body ascii p size long =
    let starts : starts_with reg.prefix s ≡ true =
      ap (starts_with reg.prefix) p.splits ∙ starts_with-append reg.prefix body in
    let (rest, q, _) =
      find_candidates_lem 0 reg s ascii long (omega arith) (length s) 1 (omega arith)
        (omega arith) in
    let round =
      search_on-start reg s (find_candidates reg s (length s)) size
        (candidate_at-profile reg s body ascii p size long) q in
    (
      (0, 0 + length reg.value) ∷ rest,
      one_round reg s long ascii (find_str-start reg.prefix s starts) round,
      omega arith,
    )

pub all_candidates-profile :
    (s body : Str) (regs : List FpeRegistration) (i : ℕ) {reg : FpeRegistration}
    → is_ascii s ≡ true
    → get_elem? regs i ≡ some reg
    → HasProfile reg s body
    → length s ≡ length reg.value
    → length reg.prefix < length reg.value
    → {ps : List (ℕ × ℕ)} → all_candidates s regs ≡ ret ps
    → 0 < length ps
unfolding all_candidates
all_candidates-profile s body [] i ascii at p size long h = cc
all_candidates-profile s body (x ∷ regs) zero {reg} ascii at p size long {ps} h =
    let (here, q, some_here) = registration_candidates-profile reg s body ascii p size long in
    let q' : registration_candidates s x ≡ ret here =
      ap (registration_candidates s) (some_inj at) ∙ q in
    elim (Run-cases (all_candidates s regs)) [
      | inl stuck ↦
          let gone : all_candidates s (x ∷ regs) ≡ panic = rw (q', stuck) refl in
          absurd (panic-ne-ret (sym gone ∙ h))
      | inr (rest, r) ↦
          let made : all_candidates s (x ∷ regs) ≡ ret (here ++ rest) = rw (q', r) refl in
          subst (λ (l : List (ℕ × ℕ)). 0 < length l) (ret_inj (sym made ∙ h))
            (left_long here rest some_here)
    ]
all_candidates-profile s body (x ∷ regs) (suc i) {reg} ascii at p size long {ps} h =
    elim (Run-cases (registration_candidates s x)) [
      | inl stuck ↦
          let gone : all_candidates s (x ∷ regs) ≡ panic = rw stuck refl in
          absurd (panic-ne-ret (sym gone ∙ h))
      | inr (here, q) ↦ elim (Run-cases (all_candidates s regs)) [
        | inl stuck ↦
            let gone : all_candidates s (x ∷ regs) ≡ panic = rw (q, stuck) refl in
            absurd (panic-ne-ret (sym gone ∙ h))
        | inr (rest, r) ↦
            let made : all_candidates s (x ∷ regs) ≡ ret (here ++ rest) = rw (q, r) refl in
            let some_rest = all_candidates-profile s body regs i ascii at p size long r in
            subst (λ (l : List (ℕ × ℕ)). 0 < length l) (ret_inj (sym made ∙ h))
              (right_long here rest some_rest)
      ]
    ]
