-- ===== src/Engine/Restore/Candidates.antt =====
-- The candidate spans of `Engine::restore`.
use in_visibool.Prelude.{
  ℕ, ltb, leb, ◌==◌, Bool-cases, length, take, drop, all, All, All-append, Str, is_ascii, find_str,
  slice-ascii, Run-cases, Run, ret, zero, suc, ◌+◌, ◌-◌, ◌≤◌, ◌<◌, ◌≡◌, refl, inl, inr, true, ◌&&◌,
  Option, none, some, List, [], ◌∷◌, ◌++◌, arith,
}
use in_visibool.Tokenizer.Alphabet.{contains}
use in_visibool.Tokenizer.Crypto.{Crypto, HashLaws, Ff1Laws}
use in_visibool.Tokenizer.Fpe.{try_restore, FpeRegistration}
use in_visibool.Tokenizer.Fpe.Restoring.{try_restore-ne-panic, IsRegistered}
use in_visibool.Detection.Sorting.{All-sort_by}
use in_visibool.Detection.{sort_by}
use in_visibool.Engine.Restore.{
  candidate_at, search_on, find_candidates, registration_candidates, all_candidates, pair_before,
  dedup, restored_text, restore_loop, restore, EngineRestoreResult,
}
use in_visibool.Engine.{Engine}

-- A span of at least `n` bytes in the text, not empty.
abbrev pub IsSpan : ℕ → Str → ℕ × ℕ → Type 0
IsSpan n input (a, b) = (a < b) × (a + n ≤ b) × (b ≤ length input)

candidate_at_lem :
    (n : ℕ) (reg : FpeRegistration) (input : Str) (start : ℕ)
    → is_ascii input ≡ true
    → length reg.prefix < length reg.value
    → n ≤ length reg.value
    → start + length reg.value ≤ length input
    → (ps : List (ℕ × ℕ)) × (candidate_at reg input start ≡ ret ps) × All (IsSpan n input) ps
unfolding candidate_at
candidate_at_lem n reg input start ascii long big fits =
    let cut =
      slice-ascii input (start + length reg.prefix) (start + length reg.value) ascii (omega arith)
        fits in
    let body =
      take (start + length reg.value - (start + length reg.prefix))
        (drop (start + length reg.prefix) input) in
    elim (Bool-cases
      (length body == (length reg.value - length reg.prefix) && all (contains reg.alphabet) body)) [
        | inl e ↦ (
          (start, start + length reg.value) ∷ [],
          rw (cut, e) refl,
          ((omega arith, omega arith, fits), tt),
        )
        | inr e ↦ ([], rw (cut, e) refl, tt)
      ]

search_on_lem :
    (n : ℕ) (reg : FpeRegistration) (input : Str) (search_start : ℕ)
    (search : ℕ → Run (List (ℕ × ℕ)))
    → is_ascii input ≡ true
    → length reg.prefix < length reg.value
    → n ≤ length reg.value
    → (found : Option ℕ)
    → ((at : ℕ)
        → search_start < at
        → at ≤ length input
        → (ps : List (ℕ × ℕ)) × (search at ≡ ret ps) × All (IsSpan n input) ps)
    → (ps : List (ℕ × ℕ)) × (search_on reg input search_start search found ≡ ret ps)
      × All (IsSpan n input) ps
unfolding search_on
search_on_lem n reg input search_start search ascii long big none go = ([], refl, tt)
search_on_lem n reg input search_start search ascii long big (some pos) go =
    elim (Bool-cases (ltb (length input) (search_start + pos + length reg.value))) [
      | inl out ↦ ([], rw out refl, tt)
      | inr fits ↦
          let room : search_start + pos + length reg.value ≤ length input = ground arith in
          let (here, p, hs) =
            candidate_at_lem n reg input (search_start + pos) ascii long big room in
          let (rest, q, rs) = go (search_start + pos + 1) (omega arith) (omega arith) in
          (here ++ rest, rw (fits, p, q) refl, All-append (IsSpan n input) here rest hs rs)
    ]

pub find_candidates_lem :
    (n : ℕ) (reg : FpeRegistration) (input : Str)
    → is_ascii input ≡ true
    → length reg.prefix < length reg.value
    → n ≤ length reg.value
    → (fuel search_start : ℕ) → search_start ≤ length input
    → length input < fuel + search_start
    → (ps : List (ℕ × ℕ)) × (find_candidates reg input fuel search_start ≡ ret ps)
      × All (IsSpan n input) ps
unfolding find_candidates
find_candidates_lem n reg input ascii long big zero search_start le enough = absurd (omega arith)
find_candidates_lem n reg input ascii long big (suc fuel) search_start le enough =
    let cut = slice-ascii input search_start (length input) ascii le (omega arith) in
    let tail = take (length input - search_start) (drop search_start input) in
    let (ps, p, hs) =
      search_on_lem n reg input search_start (find_candidates reg input fuel) ascii long big
        (find_str reg.prefix tail)
        (λ at lt inside.
          find_candidates_lem n reg input ascii long big fuel at inside (omega arith)) in
    (ps, rw (cut, find_candidates) p, hs)

-- On ASCII text the search of one registration ends within its fuel and without a panic.
registration_candidates_lem :
    (n : ℕ) (input : Str) (reg : FpeRegistration)
    → is_ascii input ≡ true
    → n ≤ length reg.value
    → (ps : List (ℕ × ℕ)) × (registration_candidates input reg ≡ ret ps) × All (IsSpan n input) ps
unfolding registration_candidates
registration_candidates_lem n input reg ascii big =
    elim (Bool-cases (leb (length reg.value) (length reg.prefix))) [
      | inl e ↦ ([], rw e refl, tt)
      | inr e ↦
          let (ps, p, hs) =
            find_candidates_lem n reg input ascii (ground arith) big (length input + 1) 0
              (omega arith) (omega arith) in
          (ps, rw (e, p) refl, hs)
    ]

pub all_candidates_lem :
    (n : ℕ) (input : Str) (regs : List FpeRegistration)
    → is_ascii input ≡ true
    → All (λ (r : FpeRegistration). n ≤ length r.value) regs
    → (ps : List (ℕ × ℕ)) × (all_candidates input regs ≡ ret ps) × All (IsSpan n input) ps
unfolding all_candidates
all_candidates_lem n input [] ascii big = ([], refl, tt)
all_candidates_lem n input (reg ∷ regs) ascii (big, bigs) =
    let (here, p, hs) = registration_candidates_lem n input reg ascii big in
    let (rest, q, rs) = all_candidates_lem n input regs ascii bigs in
    (here ++ rest, rw (p, q) refl, All-append (IsSpan n input) here rest hs rs)

-- Removing repeats keeps what holds of every item.
All-dedup : (P : ℕ × ℕ → Type 0) (ps : List (ℕ × ℕ)) → All P ps → All P (dedup ps)
unfolding dedup
All-dedup P [] h = tt
All-dedup P (p ∷ []) h = h
All-dedup P (p ∷ q ∷ rest) (hp, h) = elim (Bool-cases (p.0 == q.0 && p.1 == q.1)) [
  | inl e ↦ rw e (All-dedup P (q ∷ rest) h)
  | inr e ↦ rw e (hp, All-dedup P (q ∷ rest) h)
]

module _ (c : Crypto) (hashes : HashLaws c) (laws : Ff1Laws c) (e : Engine)
    (key : length e.fpe_tokenizer.ff1_key ≡ 32) (sound : All IsRegistered e.fpe_registered) where
  restored_text_total : (candidate : Str) → (r : Str × ℕ) × (restored_text c e candidate ≡ ret r)
  unfolding restored_text
  restored_text_total candidate =
      elim (Run-cases (try_restore c e.fpe_tokenizer candidate e.fpe_registered)) [
        | inl p ↦ absurd (
            try_restore-ne-panic c hashes laws e.fpe_tokenizer key e.fpe_registered candidate sound
              p)
        | inr (none, p) ↦ ((candidate, 0), rw p refl)
        | inr (some v, p) ↦ ((v, 1), rw p refl)
      ]

  restore_loop_total :
      (input : Str)
      → is_ascii input ≡ true
      → (ps : List (ℕ × ℕ)) (cursor : ℕ) → cursor ≤ length input
      → All (IsSpan 0 input) ps
      → (r : EngineRestoreResult) × (restore_loop c e input cursor ps ≡ ret r)
  unfolding restore_loop
  restore_loop_total input ascii [] cursor le h =
      let cut = slice-ascii input cursor (length input) ascii le (omega arith) in
      (
        record { output = take (length input - cursor) (drop cursor input); restored_count = 0 },
        rw cut refl,
      )
  restore_loop_total input ascii ((a, b) ∷ ps) cursor le ((lt, _, fits), h) =
      elim (Bool-cases (ltb a cursor)) [
        | inl skip ↦
            let (r, p) = restore_loop_total input ascii ps cursor le h in (r, rw (skip, p) refl)
        | inr keep ↦
            let gap = slice-ascii input cursor a ascii (ground arith) (omega arith) in
            let cut = slice-ascii input a b ascii (omega arith) fits in
            let ((text, n), p) = restored_text_total (take (b - a) (drop a input)) in
            let (later, q) = restore_loop_total input ascii ps b fits h in
            (
              record {
                output = take (a - cursor) (drop cursor input) ++ (text ++ later.output);
                restored_count = n + later.restored_count;
              },
              rw (keep, gap, cut, p, q) refl,
            )
      ]

  All-nonneg :
      (regs : List FpeRegistration) → All (λ (r : FpeRegistration). 0 ≤ length r.value) regs
  All-nonneg [] = tt
  All-nonneg (r ∷ regs) = (omega arith, All-nonneg regs)

  -- On ASCII text, over registrations that passed their check, restore returns: the search of every registration ends, no slice panics, and every
  -- trial decryption comes back.
  pub restore_total :
      (input : Str)
      → is_ascii input ≡ true
      → (r : EngineRestoreResult) × (restore c e input ≡ ret r)
  unfolding restore
  restore_total input ascii =
      let (ps, p, spans) =
        all_candidates_lem 0 input e.fpe_registered ascii (All-nonneg e.fpe_registered) in
      let sorted = All-sort_by pair_before (IsSpan 0 input) ps spans in
      let (r, q) =
        restore_loop_total input ascii (dedup (sort_by pair_before ps)) 0 (omega arith)
          (All-dedup (IsSpan 0 input) (sort_by pair_before ps) sorted) in
      (r, rw (p, q) refl)
