-- ===== src/Engine/ScrubSpec.antt =====
-- `Engine::scrub` replaces every hit of the matcher by the piece of its registration, and copies the
-- rest.
use native.Mathlib.Nat.{add-zero}
use in_visibool.Prelude.{
  ℕ, length, get_elem?, Str, slice, ◌>>=◌, expect, Run, ret, panic, suc, ◌+◌, ◌≤◌, ◌≡◌, refl, sym,
  ◌∙◌, some, List, [], ◌∷◌, ◌++◌, append-nil, append_assoc, arith,
}
use in_visibool.Tokenizer.Alphabet.{Floats}
use in_visibool.Tokenizer.Crypto.{Crypto}
use in_visibool.Detection.{scan_exact, MatchKind, exact, pattern_rule, Match, Automata}
use in_visibool.Engine.{
  scrub_kind, scrub_match, scrub_loop, scrub_impl, Engine, SessionStore, ScrubNotice,
  EngineScrubResult, ScrubState,
}
use in_visibool.Engine.Linked.{IsLinked}
use in_visibool.Engine.Pieces.{add_piece, ref_piece, scrub_ref_lem, Piece}

-- The documented behaviour of `AhoCorasick::find_iter` over the values: the matches come from left
-- to right without overlap from `cursor` on, in range, and each cuts out the value of its pattern.
abbrev pub AreHits : List Str → Str → ℕ → List Match → Type 0
AreHits values input cursor [] = cursor ≤ length input
AreHits values input cursor (m ∷ ms) =
    (id : ℕ) × (v : Str) × (m.kind ≡ exact id)
    × (get_elem? values id ≡ some v)
    × (slice input m.start m.finish ≡ ret v)
    × (cursor ≤ m.start)
    × (m.start ≤ m.finish)
    × (m.finish ≤ length input)
    × AreHits values input m.finish ms

-- The text from `cursor` on, its notices, and the store in the end.
pub record Scrubbed : Type 0 where
  pub text : Str
  pub notes : List ScrubNotice
  pub left : SessionStore

abbrev pub kind_piece : Floats → Crypto → Engine → SessionStore → MatchKind → Run Piece
kind_piece f c e s (pattern_rule _) = panic
kind_piece f c e s (exact id) = do
  ref ← expect (get_elem? e.value_id_to_ref id)
  ref_piece f c e s ref

-- A gap, a piece and what follows.
abbrev pub joined : Str → Piece → Scrubbed → Scrubbed
joined gap p later = record {
  text = gap ++ (p.text ++ later.text);
  notes = p.notes ++ later.notes;
  left = later.left;
}

-- The specification: gap, piece, gap, piece, …, and the text after the last hit.
abbrev pub expected : Floats → Crypto → Engine → Str → ℕ → SessionStore → List Match → Run Scrubbed
expected f c e input cursor s [] = do
  rest ← slice input cursor (length input)
  ret (record { text = rest; notes = []; left = s })
expected f c e input cursor s (m ∷ ms) = do
  gap ← slice input cursor m.start
  p ← kind_piece f c e s m.kind
  later ← expected f c e input m.finish p.left ms
  ret (joined gap p later)

-- What the code has written after the state `st` and the text `r` that is expected from there on.
abbrev closed : ScrubState → ℕ → Scrubbed → EngineScrubResult × SessionStore
closed st hits r = (
  record {
    output = st.output ++ r.text;
    scrubbed_count = st.scrubbed_count + hits;
    notices = st.notices ++ r.notes;
  },
  r.left,
)

abbrev moved : ScrubState → Str → ℕ → ScrubState
moved st gap cursor = record st { output = st.output ++ gap; cursor = cursor }

-- The result with its count.
abbrev pub counted : ℕ → Scrubbed → EngineScrubResult × SessionStore
counted hits r = (record { output = r.text; scrubbed_count = hits; notices = r.notes }, r.left)

abbrev start_state : SessionStore → ScrubState
start_state s = record {
  output = [];
  notices = [];
  scrubbed_count = 0;
  cursor = 0;
  session_store = s;
}

from_zero :
    (s : SessionStore) (hits : ℕ) (r : Run Scrubbed)
    → (r >>= λ z. ret (closed (start_state s) hits z)) ≡ (r >>= λ z. ret (counted hits z))
from_zero s hits panic = refl
from_zero s hits (ret z) =
    let count : 0 + hits ≡ hits = omega arith in
    λ i. ret (record { output = z.text; scrubbed_count = count i; notices = z.notes }, z.left)

-- One piece more in the state is one piece less in what is expected.
close_step :
    (st : ScrubState) (gap : Str) (cursor : ℕ) (p : Piece) (hits : ℕ) (r : Run Scrubbed)
    → (r >>= λ later. ret (closed (add_piece (moved st gap cursor) p) hits later))
      ≡ ((r >>= λ later. ret (joined gap p later)) >>= λ z. ret (closed st (suc hits) z))
close_step st gap cursor p hits panic = refl
close_step st gap cursor p hits (ret later) =
    let text : ((st.output ++ gap) ++ p.text) ++ later.text
        ≡ st.output ++ (gap ++ (p.text ++ later.text)) =
      append_assoc (st.output ++ gap) p.text later.text
      ∙ append_assoc st.output gap (p.text ++ later.text) in
    let count : st.scrubbed_count + 1 + hits ≡ st.scrubbed_count + suc hits = omega arith in
    λ i. ret (
      record {
        output = text i;
        scrubbed_count = count i;
        notices = append_assoc st.notices p.notes later.notes i;
      },
      later.left,
    )

module _ (f : Floats) (c : Crypto) (e : Engine) (linked : IsLinked e) (input : Str) where
  -- The end of `scrub_impl`.
  abbrev finish_scrub : ScrubState → Run (EngineScrubResult × SessionStore)
  finish_scrub st = do
    rest ← slice input st.cursor (length input)
    ret (
      record {
        output = st.output ++ rest;
        scrubbed_count = st.scrubbed_count;
        notices = st.notices;
      },
      st.session_store,
    )

  kind_lem :
      (st : ScrubState) (id : ℕ) (v : Str)
      → get_elem? e.values id ≡ some v
      → scrub_kind f c e st v (exact id)
        ≡ (kind_piece f c e st.session_store (exact id) >>= λ p. ret (add_piece st p))
  unfolding scrub_kind
  kind_lem st id v at =
      let (ref, there, d) = linked id v at in rw there (scrub_ref_lem f c e st v ref d)

  match_lem :
      (st : ScrubState) (m : Match) (id : ℕ) (v : Str)
      → m.kind ≡ exact id
      → get_elem? e.values id ≡ some v
      → slice input m.start m.finish ≡ ret v
      → scrub_match f c e input st m ≡ (
          slice input st.cursor m.start >>= λ gap. kind_piece f c e st.session_store m.kind >>= λ p.
          ret (add_piece (moved st gap m.finish) p))
  unfolding scrub_match
  match_lem st m id v k at cut = rw (cut, k) (gap_case (slice input st.cursor m.start))
    where
      gap_case :
          (g : Run Str)
          → (g >>= λ gap. scrub_kind f c e (moved st gap m.finish) v (exact id)) ≡ (
              g >>= λ gap. kind_piece f c e st.session_store (exact id) >>= λ p.
              ret (add_piece (moved st gap m.finish) p))
      gap_case panic = refl
      gap_case (ret gap) = kind_lem (moved st gap m.finish) id v at

  loop_lem :
      (ms : List Match) (st : ScrubState)
      → AreHits e.values input st.cursor ms
      → (scrub_loop f c e input st ms >>= finish_scrub) ≡ (
          expected f c e input st.cursor st.session_store ms >>= λ r. ret (closed st (length ms) r))
  unfolding scrub_loop
  loop_lem [] st h = last (slice input st.cursor (length input))
    where
      last :
          (r : Run Str)
          → (r >>= λ rest. ret (
            record {
              output = st.output ++ rest;
              scrubbed_count = st.scrubbed_count;
              notices = st.notices;
            },
            st.session_store,
          ))
            ≡ ((r >>= λ rest. ret (record { text = rest; notes = []; left = st.session_store }))
                >>= λ r. ret (closed st 0 r))
      last panic = refl
      last (ret rest) = λ i. ret (
        record {
          output = st.output ++ rest;
          scrubbed_count = sym (add-zero st.scrubbed_count) i;
          notices = sym (append-nil st.notices) i;
        },
        st.session_store,
      )
  loop_lem (m ∷ ms) st (id, v, k, at, cut, _, _, _, h) =
      rw (match_lem st m id v k at cut)
        (after_gap (λ st' cur. loop_lem ms st' (rw cur h)) (slice input st.cursor m.start))
    where
      after_piece :
          ((st' : ScrubState)
            → st'.cursor ≡ m.finish
            → (scrub_loop f c e input st' ms >>= finish_scrub) ≡ (
                expected f c e input st'.cursor st'.session_store ms >>= λ r.
                ret (closed st' (length ms) r)))
          → (gap : Str) (r : Run Piece)
          → ((r >>= λ p. ret (add_piece (moved st gap m.finish) p))
              >>= (λ st'. scrub_loop f c e input st' ms)
              >>= finish_scrub)
            ≡ ((r >>= λ p.
                  expected f c e input m.finish p.left ms >>= λ later. ret (joined gap p later))
                >>= λ r. ret (closed st (suc (length ms)) r))
      after_piece ih gap panic = refl
      after_piece ih gap (ret p) =
          ih (add_piece (moved st gap m.finish) p) refl
          ∙ close_step st gap m.finish p (length ms) (expected f c e input m.finish p.left ms)

      after_gap :
          ((st' : ScrubState)
            → st'.cursor ≡ m.finish
            → (scrub_loop f c e input st' ms >>= finish_scrub) ≡ (
                expected f c e input st'.cursor st'.session_store ms >>= λ r.
                ret (closed st' (length ms) r)))
          → (g : Run Str)
          → ((g >>= λ gap. kind_piece f c e st.session_store m.kind >>= λ p.
                ret (add_piece (moved st gap m.finish) p))
              >>= (λ st'. scrub_loop f c e input st' ms)
              >>= finish_scrub)
            ≡ ((g >>= λ gap. kind_piece f c e st.session_store m.kind >>= λ p.
                  expected f c e input m.finish p.left ms >>= λ later. ret (joined gap p later))
                >>= λ r. ret (closed st (suc (length ms)) r))
      after_gap ih panic = refl
      after_gap ih (ret gap) = after_piece ih gap (kind_piece f c e st.session_store m.kind)

  -- For an engine whose table leads from each value to a registration of that value, and where the
  -- matcher reports occurrences of registered values in order, scrub panics or returns
  -- exactly when the specification does, with the specified text, notices and session store: each
  -- hit is replaced by the FF1 fake, the generated fake or the placeholder of its registration, all
  -- else is copied, and the count is the number of hits.
  pub scrub_impl_lem :
      (ac : Automata) (s : SessionStore)
      → AreHits e.values input 0 (scan_exact ac e.values input)
      → scrub_impl ac f c e input s ≡ (
          expected f c e input 0 s (scan_exact ac e.values input) >>= λ r.
          ret (counted (length (scan_exact ac e.values input)) r))
  unfolding scrub_impl
  scrub_impl_lem ac s h =
      loop_lem (scan_exact ac e.values input)
        (record { output = []; notices = []; scrubbed_count = 0; cursor = 0; session_store = s }) h
      ∙ from_zero s (length (scan_exact ac e.values input))
          (expected f c e input 0 s (scan_exact ac e.values input))
