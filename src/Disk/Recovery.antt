-- ===== src/Disk/Recovery.antt =====
-- The scan for orphans of crates/invisibool-engine/src/vault/io.rs, after which the vault can be written
-- again.
use in_visibool.Prelude.{
  ℕ, if◌then◌else◌, Bool-cases, Str, codes, str_eq, starts_with, str_eq_iff, str_eq_refl,
  starts_with-append, decimal, ◌≡◌, refl, sym, ap, ◌∙◌, ◌⊎◌, inl, inr, Bool, true, false, Option,
  none, some, List, [], ◌∷◌, ◌++◌, append_assoc,
}
use in_visibool.Prelude.Maps.{
  HashMap, mem_key, lookup, insert, remove, lookup-insert, lookup-remove,
}
use in_visibool.Storage.{ok}
use in_visibool.Disk.{
  tmp_path, sync_parent, rename_tmp, fill_tmp, create_tmp, ensure_parent, write_atomic,
  read_if_exists, orphans_of, remove_all, File, Directory, WriteAnswers,
}

remove_all-none :
    (names : List Str) (k : Str) (dir : Directory)
    → lookup k dir.files ≡ none
    → lookup k (remove_all (λ _. false) names dir).files ≡ none
remove_all-none [] k dir h = h
remove_all-none (name ∷ names) k dir h =
    remove_all-none names k (record dir { files = remove name dir.files })
      (lookup-remove name k dir.files
        ∙ ap (λ o. if str_eq name k then none else o) h
        ∙ both (str_eq name k))
  where
    both : (b : Bool) → ◌≡◌ {A = Option File} (if b then none else none) none
    both true = refl
    both false = refl

remove_all_mem :
    (names : List Str) (k : Str) (dir : Directory)
    → mem_key k names ≡ true
    → lookup k (remove_all (λ _. false) names dir).files ≡ none
remove_all_mem [] k dir h = cc
remove_all_mem (name ∷ names) k dir h = elim (Bool-cases (str_eq name k)) [
  | inl e ↦
      remove_all-none names k (record dir { files = remove name dir.files })
        (lookup-remove name k dir.files ∙ rw e refl)
  | inr e ↦ remove_all_mem names k (record dir { files = remove name dir.files }) (rw e at h)
]

orphan_listed :
    (prefix k : Str) (files : HashMap File)
    → starts_with prefix k ≡ true
    → (lookup k files ≡ none) ⊎ (mem_key k (orphans_of prefix files) ≡ true)
unfolding lookup
orphan_listed prefix k [] s = inl refl
orphan_listed prefix k ((name, file) ∷ files) s = elim (Bool-cases (str_eq name k)) [
  | inl e ↦
      let same = (str_eq_iff name k).0 e in
      let here : starts_with prefix name ≡ true = ap (starts_with prefix) same ∙ s in
      inr (rw here (rw e refl))
  | inr e ↦ elim (orphan_listed prefix k files s) [
    | inl n ↦ inl (rw e n)
    | inr m ↦ elim (Bool-cases (starts_with prefix name)) [
      | inl t ↦ inr (rw t (rw e m))
      | inr t ↦ inr (rw t m)
    ]
  ]
]

-- The cleaning at the start of `Vault::open`, where the system lists and removes the files.
abbrev pub cleaned : Str → Directory → Directory
cleaned name dir = remove_all (λ _. false) (orphans_of (name ++ codes ".tmp.") dir.files) dir

cleaned-no_tmp :
    (pid : ℕ) (name : Str) (dir : Directory)
    → lookup (tmp_path pid name) (cleaned name dir).files ≡ none
unfolding tmp_path
cleaned-no_tmp pid name dir =
    let prefix = name ++ codes ".tmp." in
    let begins : starts_with prefix (name ++ (codes ".tmp." ++ decimal pid)) ≡ true =
      ap (starts_with prefix) (sym (append_assoc name (codes ".tmp.") (decimal pid)))
      ∙ starts_with-append prefix (decimal pid) in
    elim (orphan_listed prefix (name ++ (codes ".tmp." ++ decimal pid)) dir.files begins) [
      | inl n ↦
          remove_all-none (orphans_of prefix dir.files) (name ++ (codes ".tmp." ++ decimal pid)) dir
            n
      | inr m ↦
          remove_all_mem (orphans_of prefix dir.files) (name ++ (codes ".tmp." ++ decimal pid)) dir
            m
    ]

-- Every call succeeds.
abbrev pub all_well : WriteAnswers
all_well = record {
  made = none;
  opened = none;
  written = none;
  synced = none;
  renamed = none;
  parent_opened = none;
  parent_synced = none;
}

-- The directory after a write that goes well.
abbrev replaced_in : Str → Str → File → Directory → Directory
replaced_in tmp name file dir = record dir {
  files = insert name file (
      remove tmp
        (insert tmp file (insert tmp (record { content = []; mode = file.mode }) dir.files)));
}

create_tmp-ok :
    (tmp name bytes : Str) (mode : ℕ) (dir : Directory)
    → lookup tmp dir.files ≡ none
    → create_tmp all_well tmp name bytes mode dir
      ≡ (ok tt, replaced_in tmp name (record { content = bytes; mode = mode }) dir)
unfolding create_tmp fill_tmp rename_tmp sync_parent
create_tmp-ok tmp name bytes mode dir h = rw (h, create_tmp) refl

read_replaced :
    (tmp name : Str) (file : File) (dir : Directory)
    → read_if_exists none name (replaced_in tmp name file dir) ≡ ok (some file.content)
unfolding read_if_exists
read_replaced tmp name file dir =
    let there : lookup name (replaced_in tmp name file dir).files ≡ some file =
      lookup-insert name name file (
        remove tmp
          (insert tmp file (insert tmp (record { content = []; mode = file.mode }) dir.files)))
      ∙ ap
          (λ b.
            if b
            then some file
            else lookup name (
                remove tmp (
                  insert tmp file
                    (insert tmp (record { content = []; mode = file.mode }) dir.files))))
          (str_eq_refl name) in
    rw (there, read_if_exists) refl

-- Recovery: once the orphans are removed, a write whose calls succeed does succeed, whatever earlier
-- writes have left, and the file then reads back as the bytes written.
pub write_atomic_recovers :
    (pid : ℕ) (name bytes : Str) (mode : ℕ) (dir : Directory)
    → (dir' : Directory) × (write_atomic pid all_well name bytes mode (cleaned name dir)
        ≡ (ok tt, dir'))
      × (read_if_exists none name dir' ≡ ok (some bytes))
unfolding write_atomic ensure_parent lookup
write_atomic_recovers pid name bytes mode dir =
    let tmp = tmp_path pid name in
    let file : File = record { content = bytes; mode = mode } in
    let clean = cleaned name dir in
    elim (Bool-cases clean.exists) [
      | inl e ↦
          let there : ensure_parent all_well clean ≡ ok clean = rw (e, ensure_parent) refl in
          (
            replaced_in tmp name file clean,
            rw (there, write_atomic)
                (create_tmp-ok tmp name bytes mode clean (cleaned-no_tmp pid name dir)),
            read_replaced tmp name file clean,
          )
      | inr e ↦
          let fresh : Directory = record { exists = true; files = [] } in
          let made : ensure_parent all_well clean ≡ ok fresh = rw (e, ensure_parent) refl in
          (
            replaced_in tmp name file fresh,
            rw (made, write_atomic) (create_tmp-ok tmp name bytes mode fresh refl),
            read_replaced tmp name file fresh,
          )
    ]
