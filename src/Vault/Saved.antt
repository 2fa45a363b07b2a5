-- ===== src/Vault/Saved.antt =====
-- `Vault::open` and `Vault::save` of crates/invisibool-engine/src/vault/mod.rs, with the keychain and the
-- directory that they change.
use in_visibool.Prelude.{ℕ, Str, ◌>>=◌, Run, ret, Bool, Option}
use in_visibool.Tokenizer.Crypto.{Crypto}
use in_visibool.Storage.{Result, ok, err, IoError, Aead, Json}
use in_visibool.Keychain.{Done, fetch_or_create, vault_key_slot, KeychainError, Backend}
use in_visibool.Disk.{
  Outcome, write_atomic, read_if_exists, list_orphan_tmps, remove_all, Directory, WriteAnswers,
}
use in_visibool.Vault.{
  vault_write_failed, keychain_failed, vault_io_failed, vault_file_bytes, open_vault, VaultContents,
  VaultError, Vault,
}

-- `0o600`
abbrev pub vault_file_mode : ℕ
vault_file_mode = 384

-- `?` on the outcome of `write_atomic`
abbrev pub write_result : Outcome → Result VaultError Done × Directory
write_result (ok u, dir) = (ok u, dir)
write_result (err e, dir) = (err (vault_write_failed e), dir)

-- The cleaning at the start of `Vault::open`; `listing` is what reading the directory may answer, and
-- `kept` are the files that the system does not remove.
unfoldable pub clean_orphans : Option IoError → (Str → Bool) → Str → Directory → Directory
clean_orphans listing kept name dir = elim (list_orphan_tmps listing name dir) [
  | err e ↦ dir
  | ok orphans ↦ remove_all kept orphans dir
]

module _ (c : Crypto) (a : Aead) (j : Json VaultContents) where
  unfoldable pub save_bytes :
      ℕ
      → WriteAnswers
      → Str
      → Directory
      → Result VaultError Str
      → Result VaultError Done × Directory
  save_bytes pid answers name dir (err e) = (err e, dir)
  save_bytes pid answers name dir (ok file) =
      write_result (write_atomic pid answers name file vault_file_mode dir)

  -- `Vault::save`
  unfoldable pub save :
      ℕ → WriteAnswers → Str → Vault → Str → Directory → Run (Result VaultError Done × Directory)
  save pid answers nonce v name dir = do
    bytes ← vault_file_bytes c a j nonce v
    ret (save_bytes pid answers name dir bytes)

  unfoldable pub open_read :
      Result KeychainError Str → Result IoError (Option Str) → Run (Result VaultError Vault)
  open_read (err e) read = ret (err (keychain_failed e))
  open_read (ok key) (err e) = ret (err (vault_io_failed e))
  open_read (ok key) (ok file) = open_vault c a j key file

  -- `Vault::open`, with the directory and the keychain after it. `new_key` is what the operating system
  -- gives as a random key.
  unfoldable pub open_at :
      {S : Type 0}
      → Backend S
      → Option IoError
      → (Str → Bool)
      → Option IoError
      → Str
      → Str
      → Directory
      → S
      → Run (Result VaultError Vault) × Directory × S
  open_at b listing kept broken new_key name dir s =
      let dir' = clean_orphans listing kept name dir in
      let (key, s') = fetch_or_create b s vault_key_slot new_key in
      (open_read key (read_if_exists broken name dir'), dir', s')
