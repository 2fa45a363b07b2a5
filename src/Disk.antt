-- ===== src/Disk.antt =====
-- crates/invisibool-engine/src/vault/io.rs: the vault file and its temporary file, which stand in one
-- directory. A file is its bytes and its mode, the vault's path is the name of its file, and what else
-- the system can refuse is a record of answers.
pub mod Atomic
pub mod Orphans
pub mod Recovery
use in_visibool.Prelude.{
  ℕ, if◌then◌else◌, take, Str, codes, starts_with, decimal, Bool, true, Option, none, some, List,
  [], ◌∷◌, ◌++◌,
}
use in_visibool.Prelude.Maps.{HashMap, lookup, insert, remove}
use in_visibool.Storage.{Result, ok, err, IoError, os_error}

pub data AtomicWriteError : Type 0 where
  at_tmp_create : IoError → AtomicWriteError
  at_body_write : IoError → AtomicWriteError
  at_body_fsync : IoError → AtomicWriteError
  at_rename : IoError → AtomicWriteError
  at_parent_fsync : IoError → AtomicWriteError

pub record File : Type 0 where
  pub content : Str
  pub mode : ℕ

pub record Directory : Type 0 where
  pub exists : Bool
  pub files : HashMap File

abbrev pub Done : Type 0
Done = Unit

-- The answers to the calls of one `write_atomic`: no error where they succeed. A `write_all` that fails
-- has written a part of the bytes.
pub record WriteAnswers : Type 0 where
  pub made : Option IoError
  pub opened : Option IoError
  pub written : Option (IoError × ℕ)
  pub synced : Option IoError
  pub renamed : Option IoError
  pub parent_opened : Option IoError
  pub parent_synced : Option IoError

abbrev pub eexist : ℕ
eexist = 17

-- `StdVaultIo::tmp_path`
unfoldable pub tmp_path : ℕ → Str → Str
tmp_path pid file_name = file_name ++ (codes ".tmp." ++ decimal pid)

abbrev pub Outcome : Type 0
Outcome = Result AtomicWriteError Done × Directory

-- Step 5
unfoldable pub sync_parent : WriteAnswers → Directory → Outcome
sync_parent answers dir = elim answers.parent_opened [
  | some e ↦ (err (at_parent_fsync e), dir)
  | none ↦ elim answers.parent_synced [
    | some e ↦ (err (at_parent_fsync e), dir)
    | none ↦ (ok tt, dir)
  ]
]

-- Step 4, with the temporary file as it is
unfoldable pub rename_tmp : WriteAnswers → Str → Str → File → Directory → Outcome
rename_tmp answers tmp name file dir = elim answers.renamed [
  | some e ↦ (err (at_rename e), dir)
  | none ↦ sync_parent answers (record dir { files = insert name file (remove tmp dir.files) })
]

-- Steps 2 and 3
unfoldable pub fill_tmp : WriteAnswers → Str → Str → Str → ℕ → Directory → Outcome
fill_tmp answers tmp name bytes mode dir = elim answers.written [
  | some (e, n) ↦ (
    err (at_body_write e),
    record dir { files = insert tmp (record { content = take n bytes; mode = mode }) dir.files },
  )
  | none ↦
      let file : File = record { content = bytes; mode = mode } in
      let full : Directory = record dir { files = insert tmp file dir.files } in
      elim answers.synced [
        | some e ↦ (err (at_body_fsync e), full)
        | none ↦ rename_tmp answers tmp name file full
      ]
]

-- Step 1: `open_tmp` makes a new file, or fails.
unfoldable pub create_tmp : WriteAnswers → Str → Str → Str → ℕ → Directory → Outcome
create_tmp answers tmp name bytes mode dir = elim (lookup tmp dir.files) [
  | some old ↦ (err (at_tmp_create (os_error eexist)), dir)
  | none ↦ elim answers.opened [
    | some e ↦ (err (at_tmp_create e), dir)
    | none ↦
        fill_tmp answers tmp name bytes mode
          (record dir { files = insert tmp (record { content = []; mode = mode }) dir.files })
  ]
]

-- The directory before step 1.
unfoldable pub ensure_parent : WriteAnswers → Directory → Result AtomicWriteError Directory
ensure_parent answers dir = if dir.exists then ok dir else elim answers.made [
  | some e ↦ err (at_tmp_create e)
  | none ↦ ok (record { exists = true; files = [] })
]

-- `StdVaultIo::write_atomic` of a process
unfoldable pub write_atomic : ℕ → WriteAnswers → Str → Str → ℕ → Directory → Outcome
write_atomic pid answers name bytes mode dir = elim (ensure_parent answers dir) [
  | err e ↦ (err e, dir)
  | ok dir' ↦ create_tmp answers (tmp_path pid name) name bytes mode dir'
]

-- `read_if_exists`; `broken` is what opening or reading a file that is there may answer.
unfoldable pub read_if_exists : Option IoError → Str → Directory → Result IoError (Option Str)
read_if_exists broken name dir = elim (lookup name dir.files) [
  | none ↦ ok none
  | some file ↦ elim broken [ some e ↦ err e | none ↦ ok (some file.content) ]
]

-- `list_orphan_tmps`; `broken` is what reading the directory may answer.
abbrev pub orphans_of : Str → HashMap File → List Str
orphans_of prefix [] = []
orphans_of prefix ((name, file) ∷ files) =
    let others = orphans_of prefix files in
    if starts_with prefix name then name ∷ others else others

unfoldable pub list_orphan_tmps : Option IoError → Str → Directory → Result IoError (List Str)
list_orphan_tmps broken name dir =
    if dir.exists
    then elim broken [ some e ↦ err e | none ↦ ok (orphans_of (name ++ codes ".tmp.") dir.files) ]
    else ok []

-- `remove_quiet` of each; `kept` are the files that the system does not remove.
abbrev pub remove_quiet : (Str → Bool) → Str → Directory → Directory
remove_quiet kept name dir = if kept name then dir else record dir { files = remove name dir.files }

abbrev pub remove_all : (Str → Bool) → List Str → Directory → Directory
remove_all kept [] dir = dir
remove_all kept (name ∷ names) dir = remove_all kept names (remove_quiet kept name dir)
