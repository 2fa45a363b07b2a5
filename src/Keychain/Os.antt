-- ===== src/Keychain/Os.antt =====
-- crates/invisibool-engine/src/keychain/os.rs: the backend on the `keyring` crate, which is a parameter.
use in_visibool.Prelude.{
  ℕ, ◌==◌, if◌then◌else◌, length, Str, codes, decimal, ◌≡◌, Option, none, some, ◌++◌,
}
use in_visibool.Storage.{Result, ok, err}
use in_visibool.Keychain.{
  key_len, vault_key_slot, backend_failed, malformed_key, Done, KeychainSlot, KeychainError,
  Backend,
}

-- `keyring::Error`; the inner errors are their texts, and `other_keyring` is a variant that the crate
-- may add.
pub data KeyringError : Type 0 where
  no_entry : KeyringError
  platform_failure no_storage_access bad_encoding other_keyring : Str → KeyringError
  too_long : Str → ℕ → KeyringError
  invalid : Str → Str → KeyringError
  ambiguous : ℕ → KeyringError

-- `keyring::Entry`: `new_entry` is `Entry::new`, which gives an error or an entry for the pair of
-- service and user.
pub record Keyring (S : Type 0) : Type 1 where
  pub Entry : Type 0
  pub new_entry : Str → Str → Result KeyringError Entry
  pub get_secret : S → Entry → Result KeyringError Str
  pub set_secret : S → Entry → Str → Result KeyringError Done × S
  pub delete_credential : S → Entry → Result KeyringError Done × S

-- What the crate documents: a secret that is set is read back, and after a deletion there is none.
pub record KeyringLaws {S : Type 0} (k : Keyring S) : Type 0 where
  pub get-set :
      (s : S) (entry : k.Entry) (secret : Str)
      → (k.set_secret s entry secret).0 ≡ ok tt
      → k.get_secret (k.set_secret s entry secret).1 entry ≡ ok secret
  pub get-delete :
      (s : S) (entry : k.Entry)
      → (k.delete_credential s entry).0 ≡ ok tt
      → k.get_secret (k.delete_credential s entry).1 entry ≡ err no_entry
  -- What there is not can be deleted only by `NoEntry`, which changes nothing.
  pub delete_nothing :
      (s : S) (entry : k.Entry)
      → (k.delete_credential s entry).0 ≡ err no_entry
      → k.get_secret (k.delete_credential s entry).1 entry ≡ err no_entry

abbrev pub service : Str
service = codes "invisibool"

abbrev pub slot_user : KeychainSlot → Str
slot_user vault_key_slot = codes "vault-key"

pub data Mapped : Type 0 where
  mapped_empty : Mapped
  mapped_backend : Str → Mapped

unfoldable pub map_keyring_error : KeyringError → Mapped
map_keyring_error no_entry = mapped_empty
map_keyring_error (platform_failure inner) =
    mapped_backend (codes "platform secure storage failure: " ++ inner)
map_keyring_error (no_storage_access inner) =
    mapped_backend
      (codes "secure storage unavailable (keychain locked or access denied): " ++ inner)
map_keyring_error (bad_encoding inner) = mapped_backend (
    codes "keychain entry had unexpected encoding (set_secret/get_secret were used; "
    ++ (codes "a non-binary entry was found in our slot, suggesting an unrelated tool "
        ++ codes "wrote to it)"))
map_keyring_error (too_long attr limit) = mapped_backend (
    codes "keychain attribute '"
    ++ (attr
        ++ (codes "' exceeded platform length limit of " ++ (decimal limit ++ codes " chars"))))
map_keyring_error (invalid attr reason) =
    mapped_backend (codes "invalid keychain attribute '" ++ (attr ++ (codes "': " ++ reason)))
map_keyring_error (ambiguous matches) = mapped_backend (
    codes "ambiguous keychain entry: "
    ++ (decimal matches
        ++ (codes " credentials match the (service, user) pair, " ++ codes "refusing to pick one")))
map_keyring_error (other_keyring text) = mapped_backend (
    codes "unrecognised keyring error variant (keyring crate likely upgraded; "
    ++ (codes "treating as backend failure to avoid silent NoEntry collapse): " ++ text))

-- A `keyring` error where `NoEntry` is a surprise with this text.
unfoldable pub surprised : Str → KeyringError → KeychainError
surprised text e = elim (map_keyring_error e) [
  | mapped_empty ↦ backend_failed text
  | mapped_backend msg ↦ backend_failed msg
]

abbrev pub entry_surprise : Str
entry_surprise =
    codes "keyring::Entry::new returned NoEntry (unexpected; entry construction "
    ++ codes "does not touch storage)"

abbrev pub store_surprise : Str
store_surprise =
    codes "keyring set_secret returned NoEntry (unexpected; the call creates "
    ++ codes "the entry if absent)"

module _ {S : Type 0} (k : Keyring S) where
  unfoldable pub entry_for : KeychainSlot → Result KeychainError k.Entry
  entry_for slot = elim (k.new_entry service (slot_user slot)) [
    | ok entry ↦ ok entry
    | err e ↦ err (surprised entry_surprise e)
  ]

  -- What `get_secret` gave, as `fetch` answers it.
  unfoldable pub fetched : Result KeyringError Str → Result KeychainError (Option Str)
  fetched (ok bytes) =
      if length bytes == key_len
      then ok (some bytes)
      else err (malformed_key key_len (length bytes))
  fetched (err e) = elim (map_keyring_error e) [
    | mapped_empty ↦ ok none
    | mapped_backend msg ↦ err (backend_failed msg)
  ]

  unfoldable pub os_fetch : S → KeychainSlot → Result KeychainError (Option Str)
  os_fetch s slot = elim (entry_for slot) [
    | err e ↦ err e
    | ok entry ↦ fetched (k.get_secret s entry)
  ]

  unfoldable pub set_result : Result KeyringError Done × S → Result KeychainError Done × S
  set_result (ok u, s) = (ok u, s)
  set_result (err e, s) = (err (surprised store_surprise e), s)

  unfoldable pub os_store : S → KeychainSlot → Str → Result KeychainError Done × S
  os_store s slot key = elim (entry_for slot) [
    | err e ↦ (err e, s)
    | ok entry ↦ set_result (k.set_secret s entry key)
  ]

  unfoldable pub delete_result : Result KeyringError Done × S → Result KeychainError Done × S
  delete_result (ok u, s) = (ok u, s)
  delete_result (err e, s) = elim (map_keyring_error e) [
    | mapped_empty ↦ (ok tt, s)
    | mapped_backend msg ↦ (err (backend_failed msg), s)
  ]

  unfoldable pub os_delete : S → KeychainSlot → Result KeychainError Done × S
  os_delete s slot = elim (entry_for slot) [
    | err e ↦ (err e, s)
    | ok entry ↦ delete_result (k.delete_credential s entry)
  ]

  -- `OsKeychain`
  abbrev pub os_keychain : Backend S
  os_keychain = record { fetch = os_fetch; store = os_store; delete = os_delete }
