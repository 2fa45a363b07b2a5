-- ===== src/SessionFile/Disk.antt =====
-- crates/invisibool-engine/src/session_file.rs: saving and wiping the file in its directory.
use in_visibool.Prelude.{ℕ, Str, ◌>>=◌, Run, ret, Option, none, some}
use in_visibool.Prelude.Maps.{lookup, remove}
use in_visibool.Tokenizer.Crypto.{Crypto}
use in_visibool.Storage.{Result, ok, err, IoError, Aead, Json}
use in_visibool.Disk.{Done, Outcome, write_atomic, Directory, WriteAnswers}
use in_visibool.SessionFile.{
  session_file_bytes, SessionContents, SessionFileError, io_failed, atomic_write_failed,
}

-- `0o600`
abbrev pub session_file_mode : ℕ
session_file_mode = 384

abbrev pub session_write : Outcome → Result SessionFileError Done × Directory
session_write (ok u, dir) = (ok u, dir)
session_write (err e, dir) = (err atomic_write_failed, dir)

-- `read_if_exists` with `?`
abbrev pub session_read : Result IoError (Option Str) → Result SessionFileError (Option Str)
session_read (ok file) = ok file
session_read (err e) = err io_failed

module _ (c : Crypto) (a : Aead) (j : Json SessionContents) where
  unfoldable pub written_session :
      ℕ
      → WriteAnswers
      → Str
      → Directory
      → Result SessionFileError Str
      → Result SessionFileError Done × Directory
  written_session pid answers name dir (err e) = (err e, dir)
  written_session pid answers name dir (ok file) =
      session_write (write_atomic pid answers name file session_file_mode dir)

  unfoldable pub save_session_file :
      ℕ
      → WriteAnswers
      → Str
      → Str
      → SessionContents
      → Str
      → Directory
      → Run (Result SessionFileError Done × Directory)
  save_session_file pid answers nonce vault_key contents name dir = do
    bytes ← session_file_bytes c a j nonce vault_key contents
    ret (written_session pid answers name dir bytes)

-- `refused` is what removing a file that is there may answer.
unfoldable pub wipe_session_file :
    Option IoError → Str → Directory → Result IoError Done × Directory
wipe_session_file refused name dir = elim (lookup name dir.files) [
  | none ↦ (ok tt, dir)
  | some file ↦ elim refused [
    | some e ↦ (err e, dir)
    | none ↦ (ok tt, record dir { files = remove name dir.files })
  ]
]
