-- ===== src/Detection.antt =====
-- crates/invisibool-engine/src/detection: the spans of a text that hold a registered value or fit a
-- rule, and the choice among spans that overlap. The automaton of `aho-corasick` and the engine of
-- `regex` are parameters.
pub mod Sorting
pub mod Greedy
pub mod Choice
use in_visibool.Prelude.{
  ℕ, ltb, leb, ◌==◌, if◌then◌else◌, get_elem?, any, Str, ◌-◌, Bool, true, ◌&&◌, Option, none, some,
  List, [], ◌∷◌, ◌++◌, map,
}

pub data MatchKind : Type 0 where
  exact : ℕ → MatchKind
  pattern_rule : ℕ → MatchKind

-- `finish` is the source's `end`.
pub record Match : Type 0 where
  pub start : ℕ
  pub finish : ℕ
  pub kind : MatchKind

abbrev pub span : Match → ℕ
span m = m.finish - m.start

-- `Confidence`, in its order: `High` below `Certain`.
abbrev pub confidence : MatchKind → ℕ
confidence (exact _) = 1
confidence (pattern_rule _) = 0

-- `AhoCorasick` over patterns, leftmost-longest: does it build, and `find_iter` as start, end and
-- pattern index.
pub record Automata : Type 0 where
  pub builds : List Str → Bool
  pub find_iter : List Str → Str → List (ℕ × ℕ × ℕ)

-- `RegexSet::matches` as rule indices, and `Regex::find_iter` of one rule.
pub record Regexes : Type 0 where
  pub set_matches : List Str → Str → List ℕ
  pub rule_find : Str → Str → List (ℕ × ℕ)

abbrev pub exact_match : ℕ × ℕ × ℕ → Match
exact_match (start, finish, value_id) = record {
  start = start;
  finish = finish;
  kind = exact value_id;
}

-- Whether `ExactMatcher::build` is `Ok`; no values need no automaton.
abbrev pub exact_builds : Automata → List Str → Bool
exact_builds ac [] = true
exact_builds ac (v ∷ values) = ac.builds (v ∷ values)

-- `ExactMatcher::scan` over the values that it was built from; none build no automaton.
unfoldable pub scan_exact : Automata → List Str → Str → List Match
scan_exact ac [] input = []
scan_exact ac (v ∷ values) input = map exact_match (ac.find_iter (v ∷ values) input)

-- `sort_by`, which is stable: `before x y` says that `x` must not come after `y`.
module _ {ℓ} {A : Type ℓ} (before : A → A → Bool) where
  unfoldable pub insert_sorted : A → List A → List A
  insert_sorted x [] = x ∷ []
  insert_sorted x (y ∷ ys) = if before x y then x ∷ y ∷ ys else y ∷ insert_sorted x ys

  unfoldable pub sort_by : List A → List A
  unfolding insert_sorted
  sort_by [] = []
  sort_by (x ∷ xs) = insert_sorted x (sort_by xs)

abbrev pub by_start : Match → Match → Bool
by_start a b = leb a.start b.start

abbrev pub rule_matches : Regexes → Str → ℕ → Option Str → List Match
rule_matches rx input rule_id none = []
rule_matches rx input rule_id (some rule) =
    map (λ (p : ℕ × ℕ). record { start = p.0; finish = p.1; kind = pattern_rule rule_id })
      (rx.rule_find rule input)

abbrev pub all_rule_matches : Regexes → List Str → Str → List ℕ → List Match
all_rule_matches rx rules input [] = []
all_rule_matches rx rules input (rule_id ∷ ids) =
    rule_matches rx input rule_id (get_elem? rules rule_id) ++ all_rule_matches rx rules input ids

-- `PatternMatcher::scan`
pub scan_patterns : Regexes → List Str → Str → List Match
scan_patterns rx [] input = []
scan_patterns rx (r ∷ rules) input =
    sort_by by_start (all_rule_matches rx (r ∷ rules) input (rx.set_matches (r ∷ rules) input))

-- The comparison of `Detector::scan`: longest span, then highest confidence, then leftmost.
abbrev pub more_desirable : Match → Match → Bool
more_desirable a b =
    if span a == span b
    then if confidence a.kind == confidence b.kind
      then leb a.start b.start
      else ltb (confidence b.kind) (confidence a.kind)
    else ltb (span b) (span a)

abbrev pub overlaps : Match → Match → Bool
overlaps a b = ltb a.start b.finish && ltb b.start a.finish

-- The greedy walk; `kept` grows at its end.
pub keep_greedy : List Match → List Match → List Match
keep_greedy kept [] = kept
keep_greedy kept (m ∷ ms) =
    keep_greedy (if any (overlaps m) kept then kept else kept ++ (m ∷ [])) ms

-- `Detector::scan`
pub resolve : List Match → List Match
resolve candidates = sort_by by_start (keep_greedy [] (sort_by more_desirable candidates))

pub scan : Automata → Regexes → List Str → List Str → Str → List Match
scan ac rx values rules input = resolve (scan_exact ac values input ++ scan_patterns rx rules input)
