-- ===== src/Cli.antt =====
-- crates/invisibool/src/cli/commands.rs: the commands on the vault. A command goes from a world to an
-- exit code and the next world: the directories of the vault and of the session file, the keychain and
-- the two streams. A line on a stream is its message and the arguments of it, not its text.
-- Cli.Entries has `register`, `forget` and `list`, Cli.Sessions `scrub` and `restore`.
pub mod Entries
pub mod Sessions
pub mod Registering
pub mod Restoring
pub mod Dispatch
pub mod Complaints
pub mod Ends
pub mod Exits
use in_visibool.Prelude.{ℕ, push, Str, Run, ret, panic, Bool, Option, List}
use in_visibool.Tokenizer.Crypto.{Crypto}
use in_visibool.Tokenizer.Fpe.{EligibilityError}
use in_visibool.Engine.{ScrubNotice}
use in_visibool.Storage.{Result, ok, err, IoError, Aead, Json}
use in_visibool.Keychain.{Backend}
use in_visibool.Disk.{Directory, WriteAnswers}
use in_visibool.Control.{ErrorKind, ControlError}
use in_visibool.SessionFile.{SessionFileError}
use in_visibool.Vault.{VaultContents, VaultError, Vault}
use in_visibool.Vault.Saved.{save, open_at}
use in_visibool.Vault.Listed.{EntryKindSummary}

pub data CommandError : Type 0 where
  vault_failed : VaultError → CommandError
  output_failed : IoError → CommandError
  session_failed : SessionFileError → CommandError

pub data Line : Type 0 where
  already_registered registered_line forgotten_line no_such_entry : Str → Line
  registered_formatless : Str → EligibilityError → Line
  no_entries_line : Line
  entry_line : Str → EntryKindSummary → Line
  text : Str → Line
  notice : ScrubNotice → Line
  scrubbed_line restored_line discarded_line : ℕ → Line
  not_removed : IoError → Line
  watch_running : ℕ → ℕ → Str → Line
  watch_not_running unexpected_shape needs_display not_implemented : Line
  daemon_error : ErrorKind → Str → Line
  control_failed : ControlError → Line
  on_wayland : Str → Line
  read_failed_line : IoError → Line
  no_vault_path : Line
  failed_line : CommandError → Line

pub record World (S : Type 0) : Type 0 where
  pub vault_dir : Directory
  pub session_dir : Directory
  pub keychain : S
  pub out : List Line
  pub errors : List Line

-- What the system answers to one command: about the directory and the file of the vault (`listing`,
-- `kept`, `broken` and `writes`, as in Vault.Saved), its random numbers, and the same for the session
-- file, its removal and the standard output.
pub record System : Type 0 where
  pub pid : ℕ
  pub vault_name : Str
  pub listing : Option IoError
  pub kept : Str → Bool
  pub broken : Option IoError
  pub writes : WriteAnswers
  pub new_key : Str
  pub nonce : Str
  pub tweak : Str
  pub session_name : Str
  pub session_broken : Option IoError
  pub session_writes : WriteAnswers
  pub session_nonce : Str
  pub wiped : Option IoError
  pub printed : Option IoError

abbrev pub Command : Type 0 → Type 0 → Type 0
Command S A = World S → Run (Result CommandError A × World S)

module _ {S : Type 0} where
  abbrev pub cmd_then :
      {A B : Type 0}
      → Run (Result CommandError A × World S)
      → (A → Command S B)
      → Run (Result CommandError B × World S)
  cmd_then panic f = panic
  cmd_then (ret (err e, w)) f = ret (err e, w)
  cmd_then (ret (ok a, w)) f = f a w

  infixl 5 ◌>>=◌
  abbrev pub ◌>>=◌ : {A B : Type 0} → Command S A → (A → Command S B) → Command S B
  m >>= f = λ w. cmd_then (m w) f

  infixl 5 ◌>>◌
  abbrev pub ◌>>◌ : {A B : Type 0} → Command S A → Command S B → Command S B
  m >> k = m >>= (λ _. k)

  abbrev pub exit : ℕ → Command S ℕ
  exit code w = ret (ok code, w)

  -- `writeln!(out, …).ok()` and `writeln!(err, …).ok()`
  abbrev pub say : Line → Command S (Unit {0})
  say line w = ret (ok tt, record w { out = push w.out line })

  abbrev pub complain : Line → Command S (Unit {0})
  complain line w = ret (ok tt, record w { errors = push w.errors line })

  -- A call that may panic and whose error ends the command.
  abbrev pub try_run : {A E : Type 0} → (E → CommandError) → Run (Result E A) → Command S A
  try_run wrap panic w = panic
  try_run wrap (ret (err e)) w = ret (err (wrap e), w)
  try_run wrap (ret (ok a)) w = ret (ok a, w)

module _ (c : Crypto) (a : Aead) (j : Json VaultContents) {S : Type 0} (b : Backend S)
    (sys : System) where
  -- `Vault::open(io, vault_path, keychain).map_err(CommandError::Vault)?`
  unfoldable pub open_vault_cmd : Command S Vault
  open_vault_cmd w =
      let (result, dir, keychain) =
        open_at c a j b sys.listing sys.kept sys.broken sys.new_key sys.vault_name w.vault_dir
          w.keychain in
      try_run vault_failed result (record w { vault_dir = dir; keychain = keychain })

  abbrev pub saved_cmd :
      World S
      → Run (Result VaultError (Unit {0}) × Directory)
      → Run (Result CommandError (Unit {0}) × World S)
  saved_cmd w panic = panic
  saved_cmd w (ret (err e, dir)) = ret (err (vault_failed e), record w { vault_dir = dir })
  saved_cmd w (ret (ok u, dir)) = ret (ok u, record w { vault_dir = dir })

  -- `v.save(io, vault_path).map_err(CommandError::Vault)?`
  unfoldable pub save_vault_cmd : Vault → Command S (Unit {0})
  save_vault_cmd v w =
      saved_cmd w (save c a j sys.pid sys.writes sys.nonce v sys.vault_name w.vault_dir)
