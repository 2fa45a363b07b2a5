-- ===== src/Engine/Restore.antt =====
-- crates/invisibool-engine/src/engine.rs: `Engine::restore`.
pub mod Candidates
pub mod Profile
pub mod RoundTrip
pub mod Session
use in_visibool.Prelude.{
  ℕ, ltb, leb, ◌==◌, if◌then◌else◌, length, all, Str, slice, find_str, ◌>>=◌, Run, ret, panic, zero,
  suc, ◌+◌, ◌-◌, Bool, ◌&&◌, ◌||◌, Option, none, some, List, [], ◌∷◌, ◌++◌,
}
use in_visibool.Tokenizer.Alphabet.{contains}
use in_visibool.Tokenizer.Crypto.{Crypto}
use in_visibool.Tokenizer.Fpe.{try_restore, FpeRegistration}
use in_visibool.Detection.{sort_by}
use in_visibool.Engine.{Engine}

-- `Engine::restore`.
pub record EngineRestoreResult : Type 0 where
  pub output : Str
  pub restored_count : ℕ

-- The span that a registration can fill at `start`, if its body is over the alphabet.
pub candidate_at : FpeRegistration → Str → ℕ → Run (List (ℕ × ℕ))
candidate_at reg input start = do
  body ← slice input (start + length reg.prefix) (start + length reg.value)
  ret (
      if length body == (length reg.value - length reg.prefix) && all (contains reg.alphabet) body
      then (start, start + length reg.value) ∷ []
      else [])

-- What a round does with the place `find` gives: the span there, and the search after it.
pub search_on : FpeRegistration → Str → ℕ → (ℕ → Run (List (ℕ × ℕ))) → Option ℕ → Run (List (ℕ × ℕ))
search_on reg input search_start search none = ret []
search_on reg input search_start search (some pos) =
    let going : Run (List (ℕ × ℕ)) = (do
      here ← candidate_at reg input (search_start + pos)
      rest ← search (search_start + pos + 1)
      ret (here ++ rest)) in
    if ltb (length input) (search_start + pos + length reg.value) then ret [] else going

-- The `while let` loop of one registration. Each round moves `search_start` on, so `length input + 1`
-- rounds are enough; running out would be a panic.
pub find_candidates : FpeRegistration → Str → ℕ → ℕ → Run (List (ℕ × ℕ))
find_candidates reg input zero search_start = panic
find_candidates reg input (suc fuel) search_start = do
  tail ← slice input search_start (length input)
  search_on reg input search_start (find_candidates reg input fuel) (find_str reg.prefix tail)

pub registration_candidates : Str → FpeRegistration → Run (List (ℕ × ℕ))
registration_candidates input reg =
    if leb (length reg.value) (length reg.prefix)
    then ret []
    else find_candidates reg input (length input + 1) 0

pub all_candidates : Str → List FpeRegistration → Run (List (ℕ × ℕ))
all_candidates input [] = ret []
all_candidates input (reg ∷ regs) = do
  here ← registration_candidates input reg
  rest ← all_candidates input regs
  ret (here ++ rest)

-- The order of pairs, for `sort_unstable`.
abbrev pub pair_before : ℕ × ℕ → ℕ × ℕ → Bool
pair_before (a, b) (a', b') = ltb a a' || (a == a' && leb b b')

-- `dedup`: of equal neighbours the first stays.
pub dedup : List (ℕ × ℕ) → List (ℕ × ℕ)
dedup [] = []
dedup (p ∷ []) = p ∷ []
dedup (p ∷ q ∷ rest) =
    let others = dedup (q ∷ rest) in if p.0 == q.0 && p.1 == q.1 then others else p ∷ others

module _ (c : Crypto) where
  -- The text that stands for a candidate, and how many restores that is.
  pub restored_text : Engine → Str → Run (Str × ℕ)
  restored_text e candidate =
      try_restore c e.fpe_tokenizer candidate e.fpe_registered
      >>= elim [ some restored ↦ ret (restored, 1) | none ↦ ret (candidate, 0) ]

  pub restore_loop : Engine → Str → ℕ → List (ℕ × ℕ) → Run EngineRestoreResult
  restore_loop e input cursor [] = do
    rest ← slice input cursor (length input)
    ret (record { output = rest; restored_count = 0 })
  restore_loop e input cursor ((start, finish) ∷ candidates) =
      let skipped = restore_loop e input cursor candidates in
      let taken : Run EngineRestoreResult = (do
        gap ← slice input cursor start
        candidate ← slice input start finish
        (text, n) ← restored_text e candidate
        later ← restore_loop e input finish candidates
        ret (record {
          output = gap ++ (text ++ later.output);
          restored_count = n + later.restored_count;
        })) in
      if ltb start cursor then skipped else taken

  pub restore : Engine → Str → Run EngineRestoreResult
  restore e input = do
    candidates ← all_candidates input e.fpe_registered
    restore_loop e input 0 (dedup (sort_by pair_before candidates))
