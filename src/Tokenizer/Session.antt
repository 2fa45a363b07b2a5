-- ===== src/Tokenizer/Session.antt =====
-- crates/invisibool-engine/src/tokenizer/session.rs: the bounded map between real values and fakes.
-- An `Instant` is a number of nanoseconds, and `saturating_duration_since` is `-`, which stops at 0.
-- Wiping the bytes of what is dropped is not modelled.
pub mod Consistent
pub mod Operations
pub mod Live
pub mod Bounded
use in_visibool.Prelude.{
  ltb, leb, if◌then◌else◌, length, Str, ℕ, ◌-◌, Bool, Option, none, some, List, [], ◌∷◌,
}
use in_visibool.Prelude.Maps.{HashMap, lookup, insert, remove}
use mathlib.Core.List.{foldl}

pub record Entry : Type 0 where
  pub real : Str
  pub last_touched : ℕ

pub record SessionMap : Type 0 where
  pub max_entries : ℕ
  pub ttl : ℕ
  pub by_fake : HashMap Entry
  pub by_real : HashMap Str

-- `SessionMap::new`
abbrev pub new_session : ℕ → ℕ → SessionMap
new_session max_entries ttl = record {
  max_entries = max_entries;
  ttl = ttl;
  by_fake = [];
  by_real = [];
}

-- `if let Some(entry) = by_fake.remove(fake) { wipe_by_real_key(by_real, &entry.real) }`
pub drop_fake : SessionMap → Str → SessionMap
drop_fake m fake = elim (lookup fake m.by_fake) [
  | none ↦ m
  | some entry ↦ record m { by_fake = remove fake m.by_fake; by_real = remove entry.real m.by_real }
]

abbrev pub is_expired : ℕ → ℕ → Entry → Bool
is_expired ttl now entry = ltb ttl (now - entry.last_touched)

-- The fakes whose entries are expired.
abbrev pub expired_fakes : ℕ → ℕ → HashMap Entry → List Str
expired_fakes ttl now [] = []
expired_fakes ttl now ((fake, entry) ∷ rest) =
    let others = expired_fakes ttl now rest in
    if is_expired ttl now entry then fake ∷ others else others

unfoldable pub prune : SessionMap → ℕ → SessionMap
prune m now = foldl drop_fake m (expired_fakes m.ttl now m.by_fake)

-- `iter().min_by_key(…)`: the first of the least touched.
abbrev pub min_touched : Str → Entry → HashMap Entry → Str × Entry
min_touched fake entry [] = (fake, entry)
min_touched fake entry ((fake', entry') ∷ rest) =
    if ltb entry'.last_touched entry.last_touched
    then min_touched fake' entry' rest
    else min_touched fake entry rest

abbrev pub least_touched : HashMap Entry → Option Str
least_touched [] = none
least_touched ((fake, entry) ∷ rest) = some (min_touched fake entry rest).0

pub evict_lru : SessionMap → SessionMap
evict_lru m = elim (least_touched m.by_fake) [ none ↦ m | some fake ↦ drop_fake m fake ]

-- `if let Some(entry) = by_fake.get_mut(fake) { entry.last_touched = now; }`
unfoldable pub touch : SessionMap → Str → ℕ → SessionMap
touch m fake now = elim (lookup fake m.by_fake) [
  | none ↦ m
  | some entry ↦ record m { by_fake = insert fake (record entry { last_touched = now }) m.by_fake }
]

-- The key of `by_real` that an overwritten entry leaves behind.
abbrev pub wipe_displaced : Option Entry → HashMap Str → HashMap Str
wipe_displaced none by_real = by_real
wipe_displaced (some old) by_real = remove old.real by_real

-- `by_fake.insert` with the clean-up of what it displaces, then `by_real.insert`.
unfoldable pub insert_pair : ℕ → SessionMap → Str × Str → SessionMap
insert_pair now m (fake, real) = record m {
  by_fake = insert fake (record { real = real; last_touched = now }) m.by_fake;
  by_real = insert real fake (wipe_displaced (lookup fake m.by_fake) m.by_real);
}

unfoldable pub make_room : SessionMap → SessionMap
make_room m = if leb m.max_entries (length m.by_fake) then evict_lru m else m

-- `make_fake` is called once at most, and only for a value with no live fake.
unfoldable pub get_or_insert : SessionMap → Str → ℕ → (Unit {0} → Str) → SessionMap × Str
get_or_insert m real now make_fake = elim (lookup real (prune m now).by_real) [
  | some fake ↦ (touch (prune m now) fake now, fake)
  | none ↦ (insert_pair now (make_room (prune m now)) (make_fake tt, real), make_fake tt)
]

unfoldable pub restore_real : SessionMap → Str → ℕ → SessionMap × Option Str
restore_real m fake now = elim (lookup fake (prune m now).by_fake) [
  | none ↦ (prune m now, none)
  | some entry ↦ (touch (prune m now) fake now, some entry.real)
]

abbrev pub entries_of : HashMap Entry → List (Str × Str)
entries_of [] = []
entries_of ((fake, entry) ∷ rest) = (fake, entry.real) ∷ entries_of rest

unfoldable pub entries : SessionMap → List (Str × Str)
entries m = entries_of m.by_fake

-- `SessionMap::import`
unfoldable pub import_pairs : SessionMap → List (Str × Str) → ℕ → SessionMap
import_pairs m pairs now = foldl (insert_pair now) m pairs

pub clear : SessionMap → SessionMap
clear m = record m { by_fake = []; by_real = [] }
