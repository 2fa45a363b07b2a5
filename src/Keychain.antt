-- ===== src/Keychain.antt =====
-- crates/invisibool-engine/src/keychain: where the vault key lives. A backend is a state and the three
-- operations of the trait `KeychainBackend`; its clients use `fetch_or_create`. Keychain.Os is the
-- backend on the `keyring` crate.
pub mod Os
pub mod Created
use in_visibool.Prelude.{ℕ, length, Str, ◌≡◌, Option, none, some}
use in_visibool.Storage.{Result, ok, err}

abbrev pub key_len : ℕ
key_len = 32

pub data KeychainSlot : Type 0 where
  vault_key_slot : KeychainSlot

pub data KeychainError : Type 0 where
  backend_failed : Str → KeychainError
  malformed_key : ℕ → ℕ → KeychainError

abbrev pub Done : Type 0
Done = Unit

-- The trait `KeychainBackend`, with the state that `&self` hides.
pub record Backend (S : Type 0) : Type 0 where
  pub fetch : S → KeychainSlot → Result KeychainError (Option Str)
  pub store : S → KeychainSlot → Str → Result KeychainError Done × S
  pub delete : S → KeychainSlot → Result KeychainError Done × S

-- What a client relies on.
pub record BackendLaws {S : Type 0} (b : Backend S) : Type 0 where
  pub fetch-store :
      (s : S) (slot : KeychainSlot) (key : Str)
      → length key ≡ key_len
      → (b.store s slot key).0 ≡ ok tt
      → b.fetch (b.store s slot key).1 slot ≡ ok (some key)
  pub fetch-delete :
      (s : S) (slot : KeychainSlot)
      → (b.delete s slot).0 ≡ ok tt
      → b.fetch (b.delete s slot).1 slot ≡ ok none

module _ {S : Type 0} (b : Backend S) where
  unfoldable pub stored : Str → Result KeychainError Done × S → Result KeychainError Str × S
  stored new_key (err e, s) = (err e, s)
  stored new_key (ok u, s) = (ok new_key, s)

  -- `fetch_or_create`; `new_key` is what `generate` gives.
  unfoldable pub fetch_or_create : S → KeychainSlot → Str → Result KeychainError Str × S
  fetch_or_create s slot new_key = elim (b.fetch s slot) [
    | err e ↦ (err e, s)
    | ok (some existing) ↦ (ok existing, s)
    | ok none ↦ stored new_key (b.store s slot new_key)
  ]

-- `InMemoryKeychain`: the map has at most the one slot that there is.
pub record InMemoryKeychain : Type 0 where
  pub slots : Option Str

-- `InMemoryKeychain::new`
abbrev pub new_in_memory : InMemoryKeychain
new_in_memory = record { slots = none }

-- `InMemoryKeychain::preloaded`
abbrev pub preloaded : KeychainSlot → Str → InMemoryKeychain
preloaded slot key = record { slots = some key }

abbrev pub fetch_in_memory : InMemoryKeychain → KeychainSlot → Result KeychainError (Option Str)
fetch_in_memory k slot = ok k.slots

abbrev pub store_in_memory :
    InMemoryKeychain → KeychainSlot → Str → Result KeychainError Done × InMemoryKeychain
store_in_memory k slot key = (ok tt, record k { slots = some key })

abbrev pub delete_in_memory :
    InMemoryKeychain → KeychainSlot → Result KeychainError Done × InMemoryKeychain
delete_in_memory k slot = (ok tt, record k { slots = none })

abbrev pub in_memory : Backend InMemoryKeychain
in_memory = record { fetch = fetch_in_memory; store = store_in_memory; delete = delete_in_memory }
