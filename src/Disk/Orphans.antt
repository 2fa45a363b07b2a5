-- ===== src/Disk/Orphans.antt =====
-- The temporary files of crates/invisibool-engine/src/vault/io.rs: a failed write leaves one, which is in
-- the way of the next write, until the scan for orphans at the opening of the vault removes it.
use in_visibool.Prelude.{
  ℕ, Bool-cases, Option-cases, take, Str, str_eq_refl, ◌≡◌, refl, sym, ◌∙◌, subst, ◌≢◌, ◌⊎◌, inl,
  inr, Bool, true, false, some, [],
}
use in_visibool.Prelude.Maps.{lookup, insert, remove, lookup-insert}
use in_visibool.Storage.{Result-cases, ok_inj, err_inj, err-ne-ok, ok, err, os_error}
use in_visibool.Disk.{
  at_tmp_create, eexist, tmp_path, Outcome, sync_parent, rename_tmp, fill_tmp, create_tmp,
  ensure_parent, write_atomic, AtomicWriteError, File, Directory, WriteAnswers,
}
use in_visibool.Disk.Atomic.{leaves_tmp}

-- The directory is there, and the temporary file in it.
abbrev HasTmp : Str → Directory → Type 0
HasTmp tmp dir = (dir.exists ≡ true) × ((f : File) × (lookup tmp dir.files ≡ some f))

abbrev Left : Str → Outcome → Type 0
Left tmp out = (leaves_tmp out.0 ≡ false) ⊎ HasTmp tmp out.1

module _ (answers : WriteAnswers) (tmp name : Str) where
  HasTmp-insert :
      (f : File) (dir : Directory)
      → dir.exists ≡ true
      → HasTmp tmp (record dir { files = insert tmp f dir.files })
  HasTmp-insert f dir e = (e, (f, lookup-insert tmp tmp f dir.files ∙ rw (str_eq_refl tmp) refl))

  sync_parent-Left : (dir : Directory) → leaves_tmp (sync_parent answers dir).0 ≡ false
  unfolding sync_parent
  sync_parent-Left dir = elim (Option-cases answers.parent_opened) [
    | inr (e, p) ↦ rw p refl
    | inl p ↦ elim (Option-cases answers.parent_synced) [
      | inr (e, q) ↦ rw (p, q) refl
      | inl q ↦ rw (p, q) refl
    ]
  ]

  rename_tmp-Left :
      (file : File) (dir : Directory)
      → HasTmp tmp dir
      → Left tmp (rename_tmp answers tmp name file dir)
  unfolding rename_tmp sync_parent
  rename_tmp-Left file dir h = elim (Option-cases answers.renamed) [
    | inr (e, p) ↦ rw p (inr h)
    | inl p ↦
        rw p
          (inl (sync_parent-Left (record dir { files = insert name file (remove tmp dir.files) })))
  ]

  fill_tmp-Left :
      (bytes : Str) (mode : ℕ) (dir : Directory)
      → dir.exists ≡ true
      → Left tmp (fill_tmp answers tmp name bytes mode dir)
  unfolding fill_tmp rename_tmp sync_parent
  fill_tmp-Left bytes mode dir there =
      let file : File = record { content = bytes; mode = mode } in
      elim (Option-cases answers.written) [
        | inr ((e, n), p) ↦
            rw p (inr (HasTmp-insert (record { content = take n bytes; mode = mode }) dir there))
        | inl p ↦ elim (Option-cases answers.synced) [
          | inr (e, q) ↦ rw (p, q) (inr (HasTmp-insert file dir there))
          | inl q ↦
              rw (p, q)
                (rename_tmp-Left file (record dir { files = insert tmp file dir.files })
                  (HasTmp-insert file dir there))
        ]
      ]

  create_tmp-Left :
      (bytes : Str) (mode : ℕ) (dir : Directory)
      → dir.exists ≡ true
      → Left tmp (create_tmp answers tmp name bytes mode dir)
  unfolding create_tmp fill_tmp rename_tmp sync_parent
  create_tmp-Left bytes mode dir there = elim (Option-cases (lookup tmp dir.files)) [
    | inr (old, p) ↦ rw (p, create_tmp) (inl refl)
    | inl p ↦ elim (Option-cases answers.opened) [
      | inr (e, q) ↦ rw (p, q, create_tmp) (inl refl)
      | inl q ↦
          rw (p, q, create_tmp)
            (fill_tmp-Left bytes mode
              (record dir { files = insert tmp (record { content = []; mode = mode }) dir.files })
              there)
    ]
  ]

ensure_parent-exists :
    (answers : WriteAnswers) (dir dir' : Directory)
    → ensure_parent answers dir ≡ ok dir'
    → dir'.exists ≡ true
unfolding ensure_parent
ensure_parent-exists answers dir dir' h = elim (Bool-cases dir.exists) [
  | inl e ↦
      let there : ensure_parent answers dir ≡ ok dir = rw (e, ensure_parent) refl in
      subst (λ (x : Directory). x.exists ≡ true) (ok_inj (sym there ∙ h)) e
  | inr e ↦ elim (Option-cases answers.made) [
    | inr (x, p) ↦
        let failed : ensure_parent answers dir ≡ err (at_tmp_create x) =
          rw (e, p, ensure_parent) refl in
        absurd (err-ne-ok (sym failed ∙ h))
    | inl p ↦
        let fresh : ensure_parent answers dir ≡ ok (record { exists = true; files = [] }) =
          rw (e, p, ensure_parent) refl in
        subst (λ (x : Directory). x.exists ≡ true) (ok_inj (sym fresh ∙ h)) refl
  ]
]

ensure_parent-no_tmp :
    (answers : WriteAnswers) (dir : Directory) (e : AtomicWriteError)
    → ensure_parent answers dir ≡ err e
    → leaves_tmp (err e) ≡ false
unfolding ensure_parent
ensure_parent-no_tmp answers dir e h = elim (Bool-cases dir.exists) [
  | inl t ↦
      let there : ensure_parent answers dir ≡ ok dir = rw (t, ensure_parent) refl in
      absurd (err-ne-ok (sym h ∙ there))
  | inr t ↦ elim (Option-cases answers.made) [
    | inr (x, p) ↦
        let failed : ensure_parent answers dir ≡ err (at_tmp_create x) =
          rw (t, p, ensure_parent) refl in
        subst (λ e. leaves_tmp (err e) ≡ false) (err_inj (sym failed ∙ h)) refl
    | inl p ↦
        let fresh : ensure_parent answers dir ≡ ok (record { exists = true; files = [] }) =
          rw (t, p, ensure_parent) refl in
        absurd (err-ne-ok (sym h ∙ fresh))
  ]
]

write_atomic-Left :
    (pid : ℕ) (answers : WriteAnswers) (name bytes : Str) (mode : ℕ) (dir : Directory)
    → Left (tmp_path pid name) (write_atomic pid answers name bytes mode dir)
unfolding write_atomic
write_atomic-Left pid answers name bytes mode dir =
    elim (Result-cases (ensure_parent answers dir)) [
      | inl (e, p) ↦ rw (p, write_atomic) (inl (ensure_parent-no_tmp answers dir e p))
      | inr (dir', p) ↦
          rw (p, write_atomic)
            (create_tmp-Left answers (tmp_path pid name) name bytes mode dir'
              (ensure_parent-exists answers dir dir' p))
    ]

write_over_tmp :
    (pid : ℕ) (answers : WriteAnswers) (name bytes : Str) (mode : ℕ) (dir : Directory)
    → HasTmp (tmp_path pid name) dir
    → write_atomic pid answers name bytes mode dir ≡ (err (at_tmp_create (os_error eexist)), dir)
unfolding write_atomic ensure_parent create_tmp
write_over_tmp pid answers name bytes mode dir (e, (f, h)) =
    let there : ensure_parent answers dir ≡ ok dir = rw (e, ensure_parent) refl in
    rw (there, h, create_tmp, write_atomic) refl

-- After a write that failed at the body, its `fsync` or the rename, every later write of the same
-- process fails at the creation of the temporary file, however well the system would answer, and changes
-- nothing.
pub write_atomic_blocked :
    (pid : ℕ) (answers later : WriteAnswers) (name bytes bytes' : Str) (mode mode' : ℕ)
    (dir : Directory)
    → leaves_tmp (write_atomic pid answers name bytes mode dir).0 ≡ true
    → write_atomic pid later name bytes' mode' (write_atomic pid answers name bytes mode dir).1
      ≡ (err (at_tmp_create (os_error eexist)), (write_atomic pid answers name bytes mode dir).1)
write_atomic_blocked pid answers later name bytes bytes' mode mode' dir h =
    elim (write_atomic-Left pid answers name bytes mode dir) [
      | inl gone ↦ absurd (true-ne-false (sym h ∙ gone))
      | inr has ↦
          write_over_tmp pid later name bytes' mode'
            (write_atomic pid answers name bytes mode dir).1 has
    ]
  where
    true-ne-false : ◌≢◌ {A = Bool} true false
    true-ne-false h = cc
