-- ===== src/Tokenizer/Session/Live.antt =====
-- What a caller can see of the map: the entries that are not expired.
use in_visibool.Prelude.{
  ℕ, ◌+◌, ◌↔◌, if◌then◌else◌, Bool-cases, Option-cases, Str, str_eq, str_eq_iff, str_eq_refl, ◌-◌,
  ◌≤◌, ◌≡◌, refl, sym, ap, ◌∙◌, inl, inr, false, Option, none, some, List, [], ◌∷◌, arith,
}
use in_visibool.Prelude.Maps.{HashMap, mem_key, lookup, DistinctKeys, lookup-insert, lookup-remove}
use in_visibool.Tokenizer.Session.{
  drop_fake, is_expired, expired_fakes, prune, least_touched, evict_lru, touch, insert_pair,
  make_room, get_or_insert, restore_real, Entry, SessionMap,
}
use in_visibool.Tokenizer.Session.Operations.{prune-IsSession, get_or_insert-IsSession, IsSession}
use mathlib.Core.List.{foldl}

-- An entry counts until it has been untouched for longer than the TTL.
abbrev live : ℕ → ℕ → Option Entry → Option Entry
live ttl now none = none
live ttl now (some entry) = if is_expired ttl now entry then none else some entry

lookup-drop_fake :
    (m : SessionMap) (fake j : Str)
    → lookup j (drop_fake m fake).by_fake ≡ (if str_eq fake j then none else lookup j m.by_fake)
unfolding drop_fake
lookup-drop_fake m fake j = elim (Option-cases (lookup fake m.by_fake)) [
  | inl e ↦ rw (e, drop_fake) (ground (arith, e, str_eq_iff fake j))
  | inr (old, e) ↦ rw (e, drop_fake) (lookup-remove fake j m.by_fake)
]

lookup-drop_fakes :
    (fakes : List Str) (m : SessionMap) (j : Str)
    → lookup j (foldl drop_fake m fakes).by_fake
      ≡ (if mem_key j fakes then none else lookup j m.by_fake)
lookup-drop_fakes [] m j = refl
lookup-drop_fakes (fake ∷ fakes) m j =
    lookup-drop_fakes fakes (drop_fake m fake) j ∙ ground (arith, lookup-drop_fake m fake j)

absent_not_expired :
    (ttl now : ℕ) (b : HashMap Entry) (j : Str)
    → lookup j b ≡ none
    → mem_key j (expired_fakes ttl now b) ≡ false
unfolding lookup
absent_not_expired ttl now [] j h = refl
absent_not_expired ttl now ((k, x) ∷ b) j h = ground (arith, absent_not_expired ttl now b j)

live-mem_key :
    (ttl now : ℕ) (b : HashMap Entry) (j : Str)
    → DistinctKeys b
    → (if mem_key j (expired_fakes ttl now b) then none else lookup j b) ≡ live ttl now (lookup j b)
unfolding lookup
live-mem_key ttl now [] j d = refl
live-mem_key ttl now ((k, x) ∷ b) j (h, d) = elim (Bool-cases (str_eq k j)) [
  | inl e ↦
      let same : k ≡ j = (str_eq_iff k j).0 e in
      let gone = absent_not_expired ttl now b j (rw (← same) h) in ground (arith, gone)
  | inr e ↦ ground (arith, live-mem_key ttl now b j d)
]

lookup-prune :
    (m : SessionMap) (now : ℕ) (j : Str)
    → DistinctKeys m.by_fake
    → lookup j (prune m now).by_fake ≡ live m.ttl now (lookup j m.by_fake)
unfolding prune
lookup-prune m now j d =
    lookup-drop_fakes (expired_fakes m.ttl now m.by_fake) m j ∙ live-mem_key m.ttl now m.by_fake j d

abbrev real_of : Option Entry → Option Str
real_of none = none
real_of (some entry) = some entry.real

restore_live :
    (m : SessionMap) (fake : Str) (now : ℕ)
    → IsSession m
    → (restore_real m fake now).1 ≡ real_of (live m.ttl now (lookup fake m.by_fake))
unfolding restore_real
restore_live m fake now w = elim (Option-cases (lookup fake (prune m now).by_fake)) [
  | inl e ↦ rw (e, restore_real) (ap real_of (sym e ∙ lookup-prune m now fake w.distinct))
  | inr (x, e) ↦ rw (e, restore_real) (ap real_of (sym e ∙ lookup-prune m now fake w.distinct))
]

-- A value is what a live entry holds: the entry is there and was touched at most `ttl` ago.
abbrev pub HoldsFor : ℕ → ℕ → Option Entry → Str → Type 0
HoldsFor ttl now found real =
    (entry : Entry) × (found ≡ some entry) × (entry.real ≡ real) × (now ≤ entry.last_touched + ttl)

real_of-live :
    (ttl now : ℕ) (found : Option Entry) (real : Str)
    → (real_of (live ttl now found) ≡ some real) ↔ HoldsFor ttl now found real
real_of-live ttl now none real = (λ h. absurd (cc), λ (x, e, r, t). absurd (cc))
real_of-live ttl now (some entry) real = elim (Bool-cases (is_expired ttl now entry)) [
  | inl e ↦ (
    λ h. absurd (ground (arith)),
    λ (x, p, r, t).
        let same : entry ≡ x = cc in
        let fresh : now ≤ entry.last_touched + ttl = rw same t in absurd (ground arith),
  )
  | inr e ↦ (
    λ h. (entry, refl, ground arith, ground arith),
    λ (x, p, r, t).
        let same : entry ≡ x = cc in rw e (ap some (ap (λ (y : Entry). y.real) same ∙ r)),
  )
]

-- In a map that keeps the invariant of its operations, `restore` gives a value exactly where the fake has
-- an entry with this value that was touched at most the TTL ago, the last moment included.
pub restore_exact :
    (m : SessionMap) (fake : Str) (now : ℕ) (real : Str)
    → IsSession m
    → ((restore_real m fake now).1 ≡ some real) ↔ HoldsFor m.ttl now (lookup fake m.by_fake) real
restore_exact m fake now real w =
    let seen = restore_live m fake now w in
    let (to, from) = real_of-live m.ttl now (lookup fake m.by_fake) real in
    (λ h. to (sym seen ∙ h), λ h. seen ∙ from h)

ttl-drop_fake : (m : SessionMap) (fake : Str) → (drop_fake m fake).ttl ≡ m.ttl
unfolding drop_fake
ttl-drop_fake m fake = ground arith

ttl-drop_fakes : (fakes : List Str) (m : SessionMap) → (foldl drop_fake m fakes).ttl ≡ m.ttl
ttl-drop_fakes [] m = refl
ttl-drop_fakes (fake ∷ fakes) m = ttl-drop_fakes fakes (drop_fake m fake) ∙ ttl-drop_fake m fake

ttl-prune : (m : SessionMap) (now : ℕ) → (prune m now).ttl ≡ m.ttl
unfolding prune
ttl-prune m now = ttl-drop_fakes (expired_fakes m.ttl now m.by_fake) m

ttl-make_room : (m : SessionMap) → (make_room m).ttl ≡ m.ttl
unfolding make_room evict_lru
ttl-make_room m = elim (Option-cases (least_touched m.by_fake)) [
  | inl o ↦ rw (o, evict_lru) (ground arith)
  | inr (fake, o) ↦ rw (o, evict_lru) (ground (arith, ttl-drop_fake m fake))
]

ttl-touch : (m : SessionMap) (fake : Str) (now : ℕ) → (touch m fake now).ttl ≡ m.ttl
unfolding touch
ttl-touch m fake now = ground arith

touch_lem :
    (m : SessionMap) (fake real : Str) (now : ℕ) (x : Entry)
    → lookup fake m.by_fake ≡ some x
    → x.real ≡ real
    → lookup fake (touch m fake now).by_fake ≡ some (record { real = real; last_touched = now })
unfolding touch
touch_lem m fake real now x e r =
    rw (e, touch) (lookup-insert fake fake _ m.by_fake ∙ rw (str_eq_refl fake) (ground (arith, r)))

module _ (m : SessionMap) (w : IsSession m) (real : Str) (now : ℕ)
    (make_fake : Unit {0} → Str) where
  -- After `get_or_insert` the fake that it returned has an entry for the value, touched just now.
  get_or_insert_entry :
      lookup (get_or_insert m real now make_fake).1 (get_or_insert m real now make_fake).0.by_fake
      ≡ some (record { real = real; last_touched = now })
  unfolding get_or_insert
  get_or_insert_entry = elim (Option-cases (lookup real (prune m now).by_real)) [
    | inl e ↦
        rw (e, get_or_insert)
          (unfold insert_pair in
            lookup-insert (make_fake tt) (make_fake tt) _ _ ∙ rw (str_eq_refl (make_fake tt)))
    | inr (fake, e) ↦
        let (x, p, q) = (prune-IsSession m now w).consistent.back real fake e in
        rw (e, get_or_insert) (touch_lem (prune m now) fake real now x p q)
  ]

  ttl-get_or_insert : (get_or_insert m real now make_fake).0.ttl ≡ m.ttl
  unfolding get_or_insert
  ttl-get_or_insert = elim (Option-cases (lookup real (prune m now).by_real)) [
    | inl e ↦
        rw (e, get_or_insert) (unfold insert_pair in ttl-make_room (prune m now) ∙ ttl-prune m now)
    | inr (fake, e) ↦ rw (e, get_or_insert) (ttl-touch (prune m now) fake now ∙ ttl-prune m now)
  ]

  live_entry :
      (later : ℕ)
      → later - now ≤ m.ttl
      → live (get_or_insert m real now make_fake).0.ttl later (
          lookup
            (get_or_insert m real now make_fake).1
            (get_or_insert m real now make_fake).0.by_fake)
        ≡ some (record { real = real; last_touched = now })
  live_entry later h = rw (get_or_insert_entry, ttl-get_or_insert) (ground arith)

  -- Round trip: in a map that keeps the invariant of its operations, and within the TTL, `restore` of the
  -- fake that `get_or_insert` returned is the real value, whether the fake was new or already there.
  pub restore-get_or_insert :
      (later : ℕ)
      → later - now ≤ m.ttl
      → (restore_real
          (get_or_insert m real now make_fake).0
          (get_or_insert m real now make_fake).1
          later).1
        ≡ some real
  restore-get_or_insert later h =
      restore_live _ _ later (get_or_insert-IsSession m real now make_fake w)
      ∙ ap real_of (live_entry later h)

  -- Stability: within the TTL a repeat of the value gets the same fake, whatever the factory would
  -- make now.
  get_or_insert_stable :
      (later : ℕ) (other_fake : Unit {0} → Str)
      → later - now ≤ m.ttl
      → (get_or_insert (get_or_insert m real now make_fake).0 real later other_fake).1
        ≡ (get_or_insert m real now make_fake).1
  get_or_insert_stable later other_fake h =
      let m' = (get_or_insert m real now make_fake).0 in
      let w' = get_or_insert-IsSession m real now make_fake w in
      let found = lookup-prune m' later _ w'.distinct ∙ live_entry later h in
      let back = (prune-IsSession m' later w').consistent.forth _ _ found in
      hit m' later other_fake back
    where
      hit :
          (m' : SessionMap) (later : ℕ) (other_fake : Unit {0} → Str) {fake : Str}
          → lookup real (prune m' later).by_real ≡ some fake
          → (get_or_insert m' real later other_fake).1 ≡ fake
      hit m' later other_fake e = unfold get_or_insert in rw (e, get_or_insert)
