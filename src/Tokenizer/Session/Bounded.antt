-- ===== src/Tokenizer/Session/Bounded.antt =====
-- The bound on the entries, and which entry makes room.
use in_visibool.Tokenizer.Session.Operations.{prune-IsSession, IsSession}
use in_visibool.Prelude.{
  ℕ, ltb, leb, Bool-cases, Option-cases, length, All, Str, str_eq_iff, str_eq_refl, ◌+◌, ◌≤◌, ◌<◌,
  max, ◌≡◌, refl, sym, ap, ◌∙◌, subst, inl, inr, none, some, List, [], ◌∷◌, arith,
}
use in_visibool.Prelude.Maps.{
  HashMap, lookup, DistinctKeys, length-insert, length-insert_present, length-remove_le,
  length-remove_lt,
}
use in_visibool.Tokenizer.Session.{
  drop_fake, expired_fakes, prune, min_touched, least_touched, evict_lru, touch, insert_pair,
  make_room, get_or_insert, Entry, SessionMap,
}
use mathlib.Core.List.{foldl}

length-drop_fake :
    (m : SessionMap) (fake : Str) → length (drop_fake m fake).by_fake ≤ length m.by_fake
unfolding drop_fake
length-drop_fake m fake = elim (Option-cases (lookup fake m.by_fake)) [
  | inl e ↦ rw (e, drop_fake) (omega arith)
  | inr (old, e) ↦ rw (e, drop_fake) (length-remove_le fake m.by_fake)
]

length-drop_fakes :
    (fakes : List Str) (m : SessionMap)
    → length (foldl drop_fake m fakes).by_fake ≤ length m.by_fake
length-drop_fakes [] m = omega arith
length-drop_fakes (fake ∷ fakes) m =
    omega (arith, length-drop_fakes fakes (drop_fake m fake), length-drop_fake m fake)

max-drop_fake : (m : SessionMap) (fake : Str) → (drop_fake m fake).max_entries ≡ m.max_entries
unfolding drop_fake
max-drop_fake m fake = ground arith

max-drop_fakes :
    (fakes : List Str) (m : SessionMap) → (foldl drop_fake m fakes).max_entries ≡ m.max_entries
max-drop_fakes [] m = refl
max-drop_fakes (fake ∷ fakes) m = max-drop_fakes fakes (drop_fake m fake) ∙ max-drop_fake m fake

length-prune : (m : SessionMap) (now : ℕ) → length (prune m now).by_fake ≤ length m.by_fake
unfolding prune
length-prune m now = length-drop_fakes (expired_fakes m.ttl now m.by_fake) m

max-prune : (m : SessionMap) (now : ℕ) → (prune m now).max_entries ≡ m.max_entries
unfolding prune
max-prune m now = max-drop_fakes (expired_fakes m.ttl now m.by_fake) m

length-evict_lru : (m : SessionMap) → length (evict_lru m).by_fake ≤ length m.by_fake
unfolding evict_lru
length-evict_lru m = elim (Option-cases (least_touched m.by_fake)) [
  | inl e ↦ rw (e, evict_lru) (omega arith)
  | inr (fake, e) ↦ rw (e, evict_lru) (length-drop_fake m fake)
]

-- `z` was touched no later than `x` and all of `rest`.
abbrev IsLeast : Str × Entry → Entry → HashMap Entry → Type 0
IsLeast z x rest =
    (z.1.last_touched ≤ x.last_touched)
    × All (λ (p : Str × Entry). z.1.last_touched ≤ p.1.last_touched) rest

min_touched_lem :
    (fake : Str) (x : Entry) (rest : HashMap Entry) → IsLeast (min_touched fake x rest) x rest
min_touched_lem fake x [] = (omega arith, tt)
min_touched_lem fake x ((fake', x') ∷ rest) =
    elim (Bool-cases (ltb x'.last_touched x.last_touched)) [
      | inl e ↦
          let (p, q) = min_touched_lem fake' x' rest in
          let same : min_touched fake x ((fake', x') ∷ rest) ≡ min_touched fake' x' rest = rw e in
          subst (λ (z : Str × Entry). IsLeast z x ((fake', x') ∷ rest)) (sym same)
            (ground (arith, p), (p, q))
      | inr e ↦
          let (p, q) = min_touched_lem fake x rest in
          let same : min_touched fake x ((fake', x') ∷ rest) ≡ min_touched fake x rest = rw e in
          subst (λ (z : Str × Entry). IsLeast z x ((fake', x') ∷ rest)) (sym same)
            (p, (ground (arith, p), q))
    ]

-- Each pair of `rest` is found in `b`.
abbrev AreFound : HashMap Entry → HashMap Entry → Type 0
AreFound b rest = All (λ (p : Str × Entry). lookup p.0 b ≡ some p.1) rest

min_touched-lookup :
    (b : HashMap Entry) (fake : Str) (x : Entry) (rest : HashMap Entry)
    → lookup fake b ≡ some x
    → AreFound b rest
    → lookup (min_touched fake x rest).0 b ≡ some (min_touched fake x rest).1
min_touched-lookup b fake x [] h hs = h
min_touched-lookup b fake x ((fake', x') ∷ rest) h (h', hs) =
    elim (Bool-cases (ltb x'.last_touched x.last_touched)) [
      | inl e ↦ rw e (min_touched-lookup b fake' x' rest h' hs)
      | inr e ↦ rw e (min_touched-lookup b fake x rest h hs)
    ]

AreFound-cons :
    (k : Str) (v : Entry) (b rest : HashMap Entry)
    → lookup k b ≡ none
    → AreFound b rest
    → AreFound ((k, v) ∷ b) rest
unfolding lookup
AreFound-cons k v b [] h f = tt
AreFound-cons k v b ((j, x) ∷ rest) h (e, f) =
    (ground (arith, str_eq_iff k j), AreFound-cons k v b rest h f)

AreFound-self : (b : HashMap Entry) → DistinctKeys b → AreFound b b
unfolding lookup
AreFound-self [] d = tt
AreFound-self ((k, v) ∷ b) (h, d) =
    (rw (str_eq_refl k), AreFound-cons k v b b h (AreFound-self b d))

evicts :
    (m : SessionMap) (fake : Str)
    → least_touched m.by_fake ≡ some fake
    → evict_lru m ≡ drop_fake m fake
unfolding evict_lru
evicts m fake e = rw (e, evict_lru)

-- On a map that is not empty, `evict_lru` drops one entry, and no entry was touched before it.
evict_lru_lem :
    (m : SessionMap)
    → DistinctKeys m.by_fake
    → 0 < length m.by_fake
    → (p : Str × Entry) × (lookup p.0 m.by_fake ≡ some p.1)
      × All (λ (q : Str × Entry). p.1.last_touched ≤ q.1.last_touched) m.by_fake
      × (evict_lru m ≡ drop_fake m p.0)
      × (length (evict_lru m).by_fake < length m.by_fake)
evict_lru_lem m d h = go m.by_fake refl
  where
    go :
        (b : HashMap Entry)
        → m.by_fake ≡ b
        → (p : Str × Entry) × (lookup p.0 m.by_fake ≡ some p.1)
          × All (λ (q : Str × Entry). p.1.last_touched ≤ q.1.last_touched) m.by_fake
          × (evict_lru m ≡ drop_fake m p.0)
          × (length (evict_lru m).by_fake < length m.by_fake)
    go [] e = absurd (omega (arith, ap length e))
    go ((fake, x) ∷ rest) e =
        let p = min_touched fake x rest in
        let found = AreFound-self ((fake, x) ∷ rest) (subst DistinctKeys e d) in
        let at : lookup p.0 m.by_fake ≡ some p.1 =
          rw e (min_touched-lookup ((fake, x) ∷ rest) fake x rest found.0 found.1) in
        let least = min_touched_lem fake x rest in
        let chosen : evict_lru m ≡ drop_fake m p.0 = evicts m p.0 (ap least_touched e) in
        let shorter : length (drop_fake m p.0).by_fake < length m.by_fake =
          unfold drop_fake in rw (at, drop_fake) (length-remove_lt p.0 m.by_fake at) in
        (p, at, rw e least, chosen, rw chosen shorter)

length-touch :
    (m : SessionMap) (fake : Str) (now : ℕ) → length (touch m fake now).by_fake ≡ length m.by_fake
unfolding touch
length-touch m fake now = elim (Option-cases (lookup fake m.by_fake)) [
  | inl e ↦ rw (e, touch)
  | inr (x, e) ↦ rw (e, touch) (length-insert_present fake _ m.by_fake e)
]

-- After `make_room` one more entry fits under the bound.
length-make_room :
    (m : SessionMap)
    → DistinctKeys m.by_fake
    → length m.by_fake ≤ max 1 m.max_entries
    → length (make_room m).by_fake + 1 ≤ max 1 m.max_entries
unfolding make_room
length-make_room m d h = elim (Bool-cases (leb m.max_entries (length m.by_fake))) [
  | inl e ↦ rw e (elim (Bool-cases (leb 1 (length m.by_fake))) [
    | inl some_left ↦
        let (_, _, _, _, shorter) = evict_lru_lem m d (ground arith) in omega (arith, shorter)
    | inr nothing ↦
        let empty : length m.by_fake ≡ 0 = ground arith in omega (arith, length-evict_lru m, empty)
  ])
  | inr e ↦ rw e (ground arith)
]

-- From a map within its bound that keeps the invariant of its operations, `get_or_insert` stays within
-- the bound. It is `max_entries`, or 1 where `max_entries` is 0.
pub get_or_insert_bounded :
    (m : SessionMap) (real : Str) (now : ℕ) (make_fake : Unit {0} → Str)
    → IsSession m
    → length m.by_fake ≤ max 1 m.max_entries
    → length (get_or_insert m real now make_fake).0.by_fake ≤ max 1 m.max_entries
unfolding get_or_insert insert_pair
get_or_insert_bounded m real now make_fake w h =
    let pruned : length (prune m now).by_fake ≤ max 1 (prune m now).max_entries =
      omega (arith, length-prune m now, max-prune m now) in
    elim (Option-cases (lookup real (prune m now).by_real)) [
      | inl e ↦
          rw (e, get_or_insert)
            (omega (
              arith,
              length-insert (make_fake tt) _ (make_room (prune m now)).by_fake,
              length-make_room (prune m now) (prune-IsSession m now w).distinct pruned,
              max-prune m now,
            ))
      | inr (fake, e) ↦
          rw (e, get_or_insert)
            (omega (arith, length-touch (prune m now) fake now, pruned, max-prune m now))
    ]
