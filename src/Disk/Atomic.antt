-- ===== src/Disk/Atomic.antt =====
-- What `write_atomic` of crates/invisibool-engine/src/vault/io.rs leaves in the directory, on every branch.
use in_visibool.Prelude.{
  ℕ, if◌then◌else◌, Bool-cases, Option-cases, length, take, length-append, Str, codes, str_eq,
  str_eq_iff, decimal, suc, ◌+◌, ◌≡◌, refl, sym, ap, ◌∙◌, subst, ◌≢◌, ◌⊎◌, inl, inr, Bool, true,
  false, ◌&&◌, some, [], ◌++◌, arith,
}
use in_visibool.Prelude.Maps.{lookup, insert, remove, lookup-insert, lookup-remove}
use in_visibool.Storage.{Result-cases, ok_inj, err_inj, err-ne-ok, Result, ok, err, os_error}
use in_visibool.Disk.{
  at_tmp_create, at_body_write, at_body_fsync, at_rename, at_parent_fsync, Done, eexist, tmp_path,
  Outcome, sync_parent, rename_tmp, fill_tmp, create_tmp, ensure_parent, write_atomic,
  AtomicWriteError, File, Directory, WriteAnswers,
}

-- The new file is in its place: the rename is done.
abbrev pub is_replaced : Result AtomicWriteError Done → Bool
is_replaced (ok u) = true
is_replaced (err (at_parent_fsync e)) = true
is_replaced (err other) = false

-- The temporary file is left.
abbrev pub leaves_tmp : Result AtomicWriteError Done → Bool
leaves_tmp (err (at_body_write e)) = true
leaves_tmp (err (at_body_fsync e)) = true
leaves_tmp (err (at_rename e)) = true
leaves_tmp other = false

-- A directory that is not there has no files.
abbrev pub IsDirectory : Directory → Type 0
IsDirectory dir = (dir.exists ≡ true) ⊎ (dir.files ≡ [])

str_eq-length : (s t : Str) → length s ≢ length t → str_eq s t ≡ false
str_eq-length s t ne = elim (Bool-cases (str_eq s t)) [
  | inl e ↦ absurd (ne (ap length ((str_eq_iff s t).0 e)))
  | inr e ↦ e
]

pub tmp_path-other : (pid : ℕ) (name : Str) → str_eq (tmp_path pid name) name ≡ false
unfolding tmp_path
tmp_path-other pid name =
    let size = length-append name (codes ".tmp." ++ decimal pid) in
    str_eq-length (name ++ (codes ".tmp." ++ decimal pid)) name
      (λ h. absurd (longer (length name) (length (decimal pid)) (sym size ∙ h)))
  where
    longer : (n m : ℕ) → n + suc (suc (suc (suc (suc m)))) ≡ n → ⊥
    longer n m h = omega arith

-- What stands under a name other than the temporary file's: the new file under `name` if it is
-- replaced, and what was there otherwise.
abbrev Written : Str → Str → File → Directory → Outcome → Type 0
Written j name file dir out =
    lookup j out.1.files
    ≡ (if is_replaced out.0 && str_eq name j then some file else lookup j dir.files)

module _ (answers : WriteAnswers) (tmp name : Str) (j : Str) (other : str_eq tmp j ≡ false) where
  lookup-insert_tmp :
      (f : File) (dir : Directory) → lookup j (insert tmp f dir.files) ≡ lookup j dir.files
  lookup-insert_tmp f dir = lookup-insert tmp j f dir.files ∙ rw other refl

  sync_parent_lem :
      (dir : Directory)
      → (is_replaced (sync_parent answers dir).0 ≡ true) × ((sync_parent answers dir).1 ≡ dir)
  unfolding sync_parent
  sync_parent_lem dir = elim (Option-cases answers.parent_opened) [
    | inr (e, p) ↦ rw p (refl, refl)
    | inl p ↦ elim (Option-cases answers.parent_synced) [
      | inr (e, q) ↦ rw (p, q) (refl, refl)
      | inl q ↦ rw (p, q) (refl, refl)
    ]
  ]

  moved :
      (file : File) (dir : Directory) (out : Outcome)
      → is_replaced out.0 ≡ true
      → out.1 ≡ record dir { files = insert name file (remove tmp dir.files) }
      → Written j name file dir out
  moved file dir out r same =
      ap (λ (d : Directory). lookup j d.files) same
      ∙ lookup-insert name j file (remove tmp dir.files)
      ∙ ap (λ o. if str_eq name j then some file else o)
          (lookup-remove tmp j dir.files ∙ rw other refl)
      ∙ ap (λ b. if b && str_eq name j then some file else lookup j dir.files) (sym r)

  rename_tmp-Written :
      (file : File) (dir : Directory)
      → Written j name file dir (rename_tmp answers tmp name file dir)
  rename_tmp-Written file dir = elim (Option-cases answers.renamed) [
    | inr (e, p) ↦
        let step : rename_tmp answers tmp name file dir ≡ (err (at_rename e), dir) =
          unfold rename_tmp sync_parent in rw (p, rename_tmp) refl in
        subst (Written j name file dir) (sym step) refl
    | inl p ↦
        let after : Directory = record dir { files = insert name file (remove tmp dir.files) } in
        let step : rename_tmp answers tmp name file dir ≡ sync_parent answers after =
          unfold rename_tmp sync_parent in rw (p, rename_tmp) refl in
        let (r, same) = sync_parent_lem after in
        subst (Written j name file dir) (sym step)
          (moved file dir (sync_parent answers after) r same)
  ]

  fill_tmp-Written :
      (bytes : Str) (mode : ℕ) (dir : Directory)
      → Written j name
          (record { content = bytes; mode = mode })
          dir
          (fill_tmp answers tmp name bytes mode dir)
  fill_tmp-Written bytes mode dir =
      let file : File = record { content = bytes; mode = mode } in
      let full : Directory = record dir { files = insert tmp file dir.files } in
      elim (Option-cases answers.written) [
        | inr ((e, n), p) ↦
            let part : File = record { content = take n bytes; mode = mode } in
            let step : fill_tmp answers tmp name bytes mode dir
                ≡ (err (at_body_write e), record dir { files = insert tmp part dir.files }) =
              unfold fill_tmp rename_tmp sync_parent in rw (p, fill_tmp) refl in
            subst (Written j name file dir) (sym step) (lookup-insert_tmp part dir)
        | inl p ↦ elim (Option-cases answers.synced) [
          | inr (e, q) ↦
              let step : fill_tmp answers tmp name bytes mode dir ≡ (err (at_body_fsync e), full) =
                unfold fill_tmp rename_tmp sync_parent in rw (p, q, fill_tmp) refl in
              subst (Written j name file dir) (sym step) (lookup-insert_tmp file dir)
          | inl q ↦
              let step : fill_tmp answers tmp name bytes mode dir
                  ≡ rename_tmp answers tmp name file full =
                unfold fill_tmp rename_tmp sync_parent in rw (p, q, fill_tmp) refl in
              subst (Written j name file dir) (sym step) (
                rename_tmp-Written file full
                ∙ ap
                    (λ o.
                      if is_replaced (rename_tmp answers tmp name file full).0 && str_eq name j
                      then some file
                      else o)
                    (lookup-insert_tmp file dir))
        ]
      ]

  create_tmp-Written :
      (bytes : Str) (mode : ℕ) (dir : Directory)
      → Written j name
          (record { content = bytes; mode = mode })
          dir
          (create_tmp answers tmp name bytes mode dir)
  create_tmp-Written bytes mode dir =
      let file : File = record { content = bytes; mode = mode } in
      let empty : File = record { content = []; mode = mode } in
      let made : Directory = record dir { files = insert tmp empty dir.files } in
      elim (Option-cases (lookup tmp dir.files)) [
        | inr (old, p) ↦
            let step : create_tmp answers tmp name bytes mode dir
                ≡ (err (at_tmp_create (os_error eexist)), dir) =
              unfold create_tmp fill_tmp rename_tmp sync_parent in rw (p, create_tmp) refl in
            subst (Written j name file dir) (sym step) refl
        | inl p ↦ elim (Option-cases answers.opened) [
          | inr (e, q) ↦
              let step : create_tmp answers tmp name bytes mode dir ≡ (err (at_tmp_create e), dir) =
                unfold create_tmp fill_tmp rename_tmp sync_parent in rw (p, q, create_tmp) refl in
              subst (Written j name file dir) (sym step) refl
          | inl q ↦
              let step : create_tmp answers tmp name bytes mode dir
                  ≡ fill_tmp answers tmp name bytes mode made =
                unfold create_tmp fill_tmp rename_tmp sync_parent in rw (p, q, create_tmp) refl in
              subst (Written j name file dir) (sym step) (
                fill_tmp-Written bytes mode made
                ∙ ap
                    (λ o.
                      if is_replaced (fill_tmp answers tmp name bytes mode made).0 && str_eq name j
                      then some file
                      else o)
                    (lookup-insert_tmp empty dir))
        ]
      ]

ensure_parent-files :
    (answers : WriteAnswers) (dir dir' : Directory)
    → IsDirectory dir
    → ensure_parent answers dir ≡ ok dir'
    → dir'.files ≡ dir.files
ensure_parent-files answers dir dir' d h = elim (Bool-cases dir.exists) [
  | inl e ↦
      let there : ensure_parent answers dir ≡ ok dir =
        unfold ensure_parent in rw (e, ensure_parent) refl in
      ap (λ (x : Directory). x.files) (ok_inj (sym h ∙ there))
  | inr e ↦
      let nothing : dir.files ≡ [] = elim d [
        | inl t ↦ absurd (true-ne-false (sym t ∙ e))
        | inr n ↦ n
      ] in
      elim (Option-cases answers.made) [
        | inr (x, p) ↦
            let failed : ensure_parent answers dir ≡ err (at_tmp_create x) =
              unfold ensure_parent in rw (e, p, ensure_parent) refl in
            absurd (err-ne-ok (sym failed ∙ h))
        | inl p ↦
            let fresh : ensure_parent answers dir ≡ ok (record { exists = true; files = [] }) =
              unfold ensure_parent in rw (e, p, ensure_parent) refl in
            ap (λ (x : Directory). x.files) (ok_inj (sym h ∙ fresh)) ∙ sym nothing
      ]
]
  where
    true-ne-false : ◌≢◌ {A = Bool} true false
    true-ne-false h = cc

ensure_parent-err :
    (answers : WriteAnswers) (dir : Directory) (e : AtomicWriteError) (file : File) (name j : Str)
    → ensure_parent answers dir ≡ err e
    → Written j name file dir (err e, dir)
ensure_parent-err answers dir e file name j h = elim (Bool-cases dir.exists) [
  | inl t ↦
      let there : ensure_parent answers dir ≡ ok dir =
        unfold ensure_parent in rw (t, ensure_parent) refl in
      absurd (err-ne-ok (sym h ∙ there))
  | inr t ↦ elim (Option-cases answers.made) [
    | inr (x, p) ↦
        let failed : ensure_parent answers dir ≡ err (at_tmp_create x) =
          unfold ensure_parent in rw (t, p, ensure_parent) refl in
        subst (λ e. Written j name file dir (err e, dir)) (err_inj (sym failed ∙ h)) refl
    | inl p ↦
        let fresh : ensure_parent answers dir ≡ ok (record { exists = true; files = [] }) =
          unfold ensure_parent in rw (t, p, ensure_parent) refl in
        absurd (err-ne-ok (sym h ∙ fresh))
  ]
]

-- What a write leaves, whichever of its calls fails: under `name` stands the whole new file with its
-- mode if it succeeded or only the last step failed, the `fsync` of the directory, and what stood there
-- before otherwise. Every other name but the temporary file's keeps what it had.
pub write_atomic_lem :
    (pid : ℕ) (answers : WriteAnswers) (name j bytes : Str) (mode : ℕ) (dir : Directory)
    → IsDirectory dir
    → str_eq (tmp_path pid name) j ≡ false
    → lookup j (write_atomic pid answers name bytes mode dir).1.files ≡ (
        if is_replaced (write_atomic pid answers name bytes mode dir).0 && str_eq name j
        then some (record { content = bytes; mode = mode })
        else lookup j dir.files)
write_atomic_lem pid answers name j bytes mode dir d other =
    let file : File = record { content = bytes; mode = mode } in
    elim (Result-cases (ensure_parent answers dir)) [
      | inl (e, p) ↦
          let step : write_atomic pid answers name bytes mode dir ≡ (err e, dir) =
            unfold write_atomic in rw (p, write_atomic) refl in
          subst (Written j name file dir) (sym step) (ensure_parent-err answers dir e file name j p)
      | inr (dir', p) ↦
          let step : write_atomic pid answers name bytes mode dir
              ≡ create_tmp answers (tmp_path pid name) name bytes mode dir' =
            unfold write_atomic in rw (p, write_atomic) refl in
          let out = create_tmp answers (tmp_path pid name) name bytes mode dir' in
          subst (Written j name file dir) (sym step) (
            create_tmp-Written answers (tmp_path pid name) name j other bytes mode dir'
            ∙ ap (λ fs. if is_replaced out.0 && str_eq name j then some file else lookup j fs)
                (ensure_parent-files answers dir dir' d p))
    ]
