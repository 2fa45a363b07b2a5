-- ===== src/Tokenizer/Session/Consistent.antt =====
-- The two directions of the map point to one another after every operation.

use in_visibool.Prelude.{
  ℕ, Bool-cases, Option-cases, Str, str_eq, str_eq_iff, ◌≡◌, ◌∙◌, ◌↔◌, inl, inr, false, none, some,
  arith,
}
use in_visibool.Prelude.Maps.{lookup, insert, remove, lookup-insert, lookup-remove}
use in_visibool.Tokenizer.Session.{
  new_session, drop_fake, touch, wipe_displaced, insert_pair, Entry, SessionMap,
}

pub record IsConsistent (m : SessionMap) : Type 0 where
  pub forth :
      (fake : Str) (entry : Entry)
      → lookup fake m.by_fake ≡ some entry
      → lookup entry.real m.by_real ≡ some fake
  pub back :
      (real fake : Str)
      → lookup real m.by_real ≡ some fake
      → (entry : Entry) × (lookup fake m.by_fake ≡ some entry) × (entry.real ≡ real)

pub IsConsistent-new : (max_entries ttl : ℕ) → IsConsistent (new_session max_entries ttl)
unfolding lookup
IsConsistent-new n t = record { forth = λ fake entry h. cc; back = λ real fake h. absurd (cc) }

-- The pairing of two maps, as `IsConsistent` states it of the fields.
module _ (m : SessionMap) (w : IsConsistent m) where
  drop_forth :
      (fake : Str) (old : Entry)
      → lookup fake m.by_fake ≡ some old
      → (j : Str) (x : Entry) → lookup j (remove fake m.by_fake) ≡ some x
      → lookup x.real (remove old.real m.by_real) ≡ some j
  drop_forth fake old e j x h = ground (
    arith,
    lookup-remove fake j m.by_fake,
    lookup-remove old.real x.real m.by_real,
    w.forth j x,
    w.forth fake old e,
    str_eq_iff fake j,
    str_eq_iff old.real x.real,
  )

  drop_back :
      (fake : Str) (old : Entry)
      → lookup fake m.by_fake ≡ some old
      → (r j : Str) → lookup r (remove old.real m.by_real) ≡ some j
      → (x : Entry) × (lookup j (remove fake m.by_fake) ≡ some x) × (x.real ≡ r)
  drop_back fake old e r j h =
      let kept : lookup r m.by_real ≡ some j = ground (arith, lookup-remove old.real r m.by_real) in
      let (x, p, q) = w.back r j kept in
      let apart : str_eq fake j ≡ false =
        ground
          (arith, str_eq_iff fake j, str_eq_iff old.real r, lookup-remove old.real r m.by_real) in
      (x, lookup-remove fake j m.by_fake ∙ rw apart p, q)

  pub drop_fake-IsConsistent : (fake : Str) → IsConsistent (drop_fake m fake)
  unfolding drop_fake
  drop_fake-IsConsistent fake = elim (Option-cases (lookup fake m.by_fake)) [
    | inl e ↦ rw (e, drop_fake) w
    | inr (old, e) ↦
        rw (e, drop_fake) (record { forth = drop_forth fake old e; back = drop_back fake old e })
  ]

  touch_forth :
      (fake : Str) (old : Entry) (now : ℕ)
      → lookup fake m.by_fake ≡ some old
      → (j : Str) (x : Entry)
      → lookup j (insert fake (record old { last_touched = now }) m.by_fake) ≡ some x
      → lookup x.real m.by_real ≡ some j
  touch_forth fake old now e j x h =
      let new : Entry = record old { last_touched = now } in
      ground (
        arith,
        lookup-insert fake j new m.by_fake,
        w.forth j x,
        w.forth fake old e,
        str_eq_iff fake j,
      )

  touch_back :
      (fake : Str) (old : Entry) (now : ℕ)
      → lookup fake m.by_fake ≡ some old
      → (r j : Str) → lookup r m.by_real ≡ some j
      → (x : Entry) × (lookup j (insert fake (record old { last_touched = now }) m.by_fake)
          ≡ some x)
        × (x.real ≡ r)
  touch_back fake old now e r j h =
      let new : Entry = record old { last_touched = now } in
      let (x, p, q) = w.back r j h in
      elim (Bool-cases (str_eq fake j)) [
        | inl same ↦
            (new, lookup-insert fake j new m.by_fake ∙ rw same, ground (arith, str_eq_iff fake j))
        | inr apart ↦ (x, lookup-insert fake j new m.by_fake ∙ rw apart p, q)
      ]

  pub touch-IsConsistent : (fake : Str) (now : ℕ) → IsConsistent (touch m fake now)
  unfolding touch
  touch-IsConsistent fake now = elim (Option-cases (lookup fake m.by_fake)) [
    | inl e ↦ rw (e, touch) w
    | inr (old, e) ↦
        rw (e, touch)
          (record { forth = touch_forth fake old now e; back = touch_back fake old now e })
  ]

  -- What is left of `by_real` when the entry under `fake` is overwritten.
  wiped :
      (fake r j : Str)
      → (lookup r (wipe_displaced (lookup fake m.by_fake) m.by_real) ≡ some j)
        ↔ ((lookup r m.by_real ≡ some j) × (str_eq fake j ≡ false))
  wiped fake r j = elim (Option-cases (lookup fake m.by_fake)) [
    | inl e ↦ rw e (to_none e, λ h. h.0)
    | inr (old, e) ↦ rw e (to_some old e, from_some old e)
  ]
    where
      to_none :
          lookup fake m.by_fake ≡ none
          → lookup r m.by_real ≡ some j
          → (lookup r m.by_real ≡ some j) × (str_eq fake j ≡ false)
      to_none e h = (h, ground (arith, w.back r j h, str_eq_iff fake j))

      to_some :
          (old : Entry)
          → lookup fake m.by_fake ≡ some old
          → lookup r (remove old.real m.by_real) ≡ some j
          → (lookup r m.by_real ≡ some j) × (str_eq fake j ≡ false)
      to_some old e h =
          let kept : lookup r m.by_real ≡ some j =
            ground (arith, lookup-remove old.real r m.by_real) in
          (
            kept,
            ground (
              arith,
              w.back r j kept,
              str_eq_iff fake j,
              str_eq_iff old.real r,
              lookup-remove old.real r m.by_real,
            ),
          )

      from_some :
          (old : Entry)
          → lookup fake m.by_fake ≡ some old
          → (lookup r m.by_real ≡ some j) × (str_eq fake j ≡ false)
          → lookup r (remove old.real m.by_real) ≡ some j
      from_some old e h = ground (
        arith,
        lookup-remove old.real r m.by_real,
        w.forth fake old e,
        str_eq_iff old.real r,
        str_eq_iff fake j,
        h.0,
      )

  module _ (now : ℕ) (fake real : Str) (fresh : lookup real m.by_real ≡ none) where
    abbrev new_entry : Entry
    new_entry = record { real = real; last_touched = now }

    insert_forth :
        (j : Str) (x : Entry)
        → lookup j (insert_pair now m (fake, real)).by_fake ≡ some x
        → lookup x.real (insert_pair now m (fake, real)).by_real ≡ some j
    unfolding insert_pair
    insert_forth j x h = elim (Bool-cases (str_eq fake j)) [
      | inl same ↦ ground (
        arith,
        lookup-insert fake j new_entry m.by_fake,
        lookup-insert real x.real fake (wipe_displaced (lookup fake m.by_fake) m.by_real),
        str_eq_iff fake j,
        str_eq_iff real x.real,
      )
      | inr apart ↦
          let old : lookup j m.by_fake ≡ some x =
            ground (arith, lookup-insert fake j new_entry m.by_fake) in
          let kept = (wiped fake x.real j).1 (w.forth j x old, apart) in
          ground (
            arith,
            kept,
            w.forth j x old,
            lookup-insert real x.real fake (wipe_displaced (lookup fake m.by_fake) m.by_real),
            str_eq_iff real x.real,
          )
    ]

    insert_back :
        (r j : Str)
        → lookup r (insert_pair now m (fake, real)).by_real ≡ some j
        → (x : Entry) × (lookup j (insert_pair now m (fake, real)).by_fake ≡ some x) × (x.real ≡ r)
    unfolding insert_pair
    insert_back r j h =
        let at = lookup-insert real r fake (wipe_displaced (lookup fake m.by_fake) m.by_real) in
        elim (Bool-cases (str_eq real r)) [
          | inl same ↦
              let ej : fake ≡ j = ground (arith, at) in
              (
                new_entry,
                lookup-insert fake j new_entry m.by_fake ∙ rw ((str_eq_iff fake j).1 ej),
                (str_eq_iff real r).0 same,
              )
          | inr apart ↦
              let rest : lookup r (wipe_displaced (lookup fake m.by_fake) m.by_real) ≡ some j =
                ground (arith, at) in
              let (kept, ne) = (wiped fake r j).0 rest in
              let (x, p, q) = w.back r j kept in
              (x, lookup-insert fake j new_entry m.by_fake ∙ rw ne p, q)
        ]

    pub insert_pair-IsConsistent : IsConsistent (insert_pair now m (fake, real))
    insert_pair-IsConsistent = record { forth = insert_forth; back = insert_back }
