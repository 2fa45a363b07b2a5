-- ===== src/Tokenizer/Session/Operations.antt =====
-- Every operation of the session map keeps the pairing of its two directions.
use mathlib.Core.List.{foldl}
use in_visibool.Prelude.{
  ℕ, leb, Bool-cases, Option-cases, length, Str, ◌≡◌, inl, inr, none, List, [], ◌∷◌, arith,
}
use in_visibool.Prelude.Maps.{
  lookup, DistinctKeys, lookup-remove, DistinctKeys-insert, DistinctKeys-remove,
}
use in_visibool.Tokenizer.Session.{
  new_session, drop_fake, expired_fakes, prune, least_touched, evict_lru, touch, insert_pair,
  make_room, get_or_insert, restore_real, clear, SessionMap,
}
use in_visibool.Tokenizer.Session.Consistent.{
  IsConsistent-new, drop_fake-IsConsistent, touch-IsConsistent, insert_pair-IsConsistent,
  IsConsistent,
}

-- The map's own guarantee, and the pairing of its two directions.
pub record IsSession (m : SessionMap) : Type 0 where
  pub distinct : DistinctKeys m.by_fake
  pub consistent : IsConsistent m

drop_fake-IsSession : (m : SessionMap) (fake : Str) → IsSession m → IsSession (drop_fake m fake)
drop_fake-IsSession m fake w = record {
  distinct = distinct_left;
  consistent = drop_fake-IsConsistent m w.consistent fake;
}
  where
    distinct_left : DistinctKeys (drop_fake m fake).by_fake
    distinct_left = elim (Option-cases (lookup fake m.by_fake)) [
      | inl e ↦ unfold drop_fake in rw (e, drop_fake) w.distinct
      | inr (old, e) ↦
          unfold drop_fake in rw (e, drop_fake) (DistinctKeys-remove fake m.by_fake w.distinct)
    ]

touch-IsSession :
    (m : SessionMap) (fake : Str) (now : ℕ) → IsSession m → IsSession (touch m fake now)
touch-IsSession m fake now w = record {
  distinct = distinct_left;
  consistent = touch-IsConsistent m w.consistent fake now;
}
  where
    distinct_left : DistinctKeys (touch m fake now).by_fake
    distinct_left = elim (Option-cases (lookup fake m.by_fake)) [
      | inl e ↦ unfold touch in rw (e, touch) w.distinct
      | inr (old, e) ↦
          unfold touch in rw (e, touch) (DistinctKeys-insert fake _ m.by_fake w.distinct)
    ]

insert_pair-IsSession :
    (m : SessionMap) (now : ℕ) (fake real : Str)
    → IsSession m
    → lookup real m.by_real ≡ none
    → IsSession (insert_pair now m (fake, real))
unfolding insert_pair
insert_pair-IsSession m now fake real w fresh = record {
  distinct = DistinctKeys-insert fake _ m.by_fake w.distinct;
  consistent = insert_pair-IsConsistent m w.consistent now fake real fresh;
}

drop_fakes-IsSession :
    (fakes : List Str) (m : SessionMap) → IsSession m → IsSession (foldl drop_fake m fakes)
drop_fakes-IsSession [] m w = w
drop_fakes-IsSession (fake ∷ fakes) m w =
    drop_fakes-IsSession fakes (drop_fake m fake) (drop_fake-IsSession m fake w)

pub prune-IsSession : (m : SessionMap) (now : ℕ) → IsSession m → IsSession (prune m now)
unfolding prune
prune-IsSession m now w = drop_fakes-IsSession (expired_fakes m.ttl now m.by_fake) m w

evict_lru-IsSession : (m : SessionMap) → IsSession m → IsSession (evict_lru m)
unfolding evict_lru
evict_lru-IsSession m w = elim (Option-cases (least_touched m.by_fake)) [
  | inl e ↦ rw (e, evict_lru) w
  | inr (fake, e) ↦ rw (e, evict_lru) (drop_fake-IsSession m fake w)
]

make_room-IsSession : (m : SessionMap) → IsSession m → IsSession (make_room m)
unfolding make_room
make_room-IsSession m w = elim (Bool-cases (leb m.max_entries (length m.by_fake))) [
  | inl e ↦ rw e (evict_lru-IsSession m w)
  | inr e ↦ rw e w
]

-- Dropping entries maps no further real value.
drop_fake_fresh :
    (m : SessionMap) (fake r : Str)
    → lookup r m.by_real ≡ none
    → lookup r (drop_fake m fake).by_real ≡ none
unfolding drop_fake
drop_fake_fresh m fake r h = elim (Option-cases (lookup fake m.by_fake)) [
  | inl e ↦ rw (e, drop_fake) h
  | inr (old, e) ↦ rw (e, drop_fake) (ground (arith, lookup-remove old.real r m.by_real))
]

make_room_fresh :
    (m : SessionMap) (r : Str) → lookup r m.by_real ≡ none → lookup r (make_room m).by_real ≡ none
unfolding make_room evict_lru
make_room_fresh m r h = elim (Bool-cases (leb m.max_entries (length m.by_fake))) [
  | inl e ↦ elim (Option-cases (least_touched m.by_fake)) [
    | inl o ↦ rw (e, o, evict_lru) h
    | inr (fake, o) ↦ rw (e, o, evict_lru) (drop_fake_fresh m fake r h)
  ]
  | inr e ↦ rw e h
]

pub get_or_insert-IsSession :
    (m : SessionMap) (real : Str) (now : ℕ) (make_fake : Unit {0} → Str)
    → IsSession m
    → IsSession (get_or_insert m real now make_fake).0
unfolding get_or_insert
get_or_insert-IsSession m real now make_fake w =
    let pruned = prune-IsSession m now w in
    elim (Option-cases (lookup real (prune m now).by_real)) [
      | inl e ↦
          rw (e, get_or_insert)
            (insert_pair-IsSession (make_room (prune m now)) now (make_fake tt) real
              (make_room-IsSession (prune m now) pruned) (make_room_fresh (prune m now) real e))
      | inr (fake, e) ↦ rw (e, get_or_insert) (touch-IsSession (prune m now) fake now pruned)
    ]

restore_real-IsSession :
    (m : SessionMap) (fake : Str) (now : ℕ) → IsSession m → IsSession (restore_real m fake now).0
unfolding restore_real
restore_real-IsSession m fake now w =
    let pruned = prune-IsSession m now w in
    elim (Option-cases (lookup fake (prune m now).by_fake)) [
      | inl e ↦ rw (e, restore_real) pruned
      | inr (x, e) ↦ rw (e, restore_real) (touch-IsSession (prune m now) fake now pruned)
    ]

-- A new map pairs its two directions: every fake's entry names a real value that maps back to the
-- fake, and the other way. From a map that does, `get_or_insert`, `restore` and `clear` lead to such a
-- map, whatever fake the factory makes.
pub operations-IsSession :
    (m : SessionMap) (max_entries ttl now : ℕ) (s : Str) (make_fake : Unit {0} → Str)
    → IsSession m
    → IsSession (new_session max_entries ttl)
      × IsSession (get_or_insert m s now make_fake).0
      × IsSession (restore_real m s now).0
      × IsSession (clear m)
unfolding clear lookup
operations-IsSession m max_entries ttl now s make_fake w = (
  record { distinct = tt; consistent = IsConsistent-new max_entries ttl },
  get_or_insert-IsSession m s now make_fake w,
  restore_real-IsSession m s now w,
  record {
    distinct = tt;
    consistent = record { forth = λ fake entry h. cc; back = λ real fake h. absurd (cc) };
  },
)
