-- ===== src/Examples/Disks.antt =====
-- The theorems on the disk, the keychain and the saved vault, at concrete values.
use in_visibool.Prelude.{
  if◌then◌else◌, replicate, Str, codes, str_eq, decimal_loop, ret, ◌≡◌, refl, ◌≢◌, inl, Bool, true,
  false, ◌&&◌, Option, none, some, [], ◌∷◌, ◌++◌, arith,
}
use in_visibool.Prelude.Maps.{lookup, insert, remove}
use in_visibool.Storage.{err-ne-ok, Result, ok, err, os_error}
use in_visibool.Keychain.{
  stored, fetch_or_create, new_in_memory, preloaded, in_memory, vault_key_slot, BackendLaws,
}
use in_visibool.Keychain.Os.{
  entry_for, os_keychain, KeyringError, no_entry, no_storage_access, Keyring, KeyringLaws,
}
use in_visibool.Keychain.Created.{
  fetch_or_create_stable, in_memory_laws, os_keychain_laws, os_key_kept,
}
use in_visibool.Disk.{
  eexist, tmp_path, sync_parent, rename_tmp, fill_tmp, create_tmp, ensure_parent, write_atomic,
  read_if_exists, at_tmp_create, File, Directory, WriteAnswers,
}
use in_visibool.Disk.Atomic.{is_replaced, leaves_tmp, write_atomic_lem}
use in_visibool.Disk.Orphans.{write_atomic_blocked}
use in_visibool.Disk.Recovery.{cleaned, all_well, write_atomic_recovers}
use in_visibool.Vault.{vault_aad, encrypt_vault, vault_file_bytes, derive_aead_key}
use in_visibool.Vault.Saved.{vault_file_mode, save_bytes, save, open_at}
use in_visibool.Vault.Kept.{open-save}
use in_visibool.Examples.{toy_crypto, toy_hashes}
use in_visibool.Examples.Files.{
  toy_aead, toy_aead_laws, toy_nonce, empty_vault, vault_json, vault_json_laws,
}

abbrev pub toy_file : File
toy_file = record { content = codes "old"; mode = 384 }

abbrev pub toy_dir : Directory
toy_dir = record { exists = true; files = (codes "v", toy_file) ∷ [] }

-- The rename fails.
abbrev no_rename : WriteAnswers
no_rename = record all_well { renamed = some (os_error 13) }

toy_other : str_eq (tmp_path 7 (codes "v")) (codes "v") ≡ false
unfolding tmp_path decimal_loop
toy_other = refl

write_atomic_lem_example :
    lookup (codes "v") (write_atomic 7 all_well (codes "v") (codes "new") 384 toy_dir).1.files ≡ (
      if is_replaced (write_atomic 7 all_well (codes "v") (codes "new") 384 toy_dir).0
        && str_eq (codes "v") (codes "v")
      then some (record { content = codes "new"; mode = 384 })
      else lookup (codes "v") toy_dir.files)
write_atomic_lem_example =
    write_atomic_lem 7 all_well (codes "v") (codes "v") (codes "new") 384 toy_dir (inl refl)
      toy_other

left_over : leaves_tmp (write_atomic 7 no_rename (codes "v") (codes "new") 384 toy_dir).0 ≡ true
unfolding write_atomic ensure_parent create_tmp fill_tmp rename_tmp tmp_path decimal_loop lookup
left_over = refl

write_atomic_blocked_example :
    write_atomic 7 all_well
      (codes "v")
      (codes "newer")
      384
      (write_atomic 7 no_rename (codes "v") (codes "new") 384 toy_dir).1
    ≡ (
      err (at_tmp_create (os_error eexist)),
      (write_atomic 7 no_rename (codes "v") (codes "new") 384 toy_dir).1,
    )
write_atomic_blocked_example =
    write_atomic_blocked 7 no_rename all_well (codes "v") (codes "new") (codes "newer") 384 384
      toy_dir left_over

write_atomic_recovers_example :
    (dir' : Directory) × (write_atomic 7 all_well
        (codes "v")
        (codes "new")
        384
        (cleaned (codes "v") toy_dir)
      ≡ (ok tt, dir'))
    × (read_if_exists none (codes "v") dir' ≡ ok (some (codes "new")))
write_atomic_recovers_example = write_atomic_recovers 7 (codes "v") (codes "new") 384 toy_dir

abbrev made_key : Str
made_key = replicate 32 5

first_key :
    fetch_or_create in_memory new_in_memory vault_key_slot made_key
    ≡ (ok made_key, preloaded vault_key_slot made_key)
unfolding fetch_or_create stored
first_key = refl

fetch_or_create_stable_example :
    (in_memory.fetch (preloaded vault_key_slot made_key) vault_key_slot ≡ ok (some made_key))
    × (fetch_or_create in_memory (preloaded vault_key_slot made_key) vault_key_slot (codes "other")
        ≡ (ok made_key, preloaded vault_key_slot made_key))
fetch_or_create_stable_example =
    fetch_or_create_stable in_memory in_memory_laws new_in_memory
      (preloaded vault_key_slot made_key) vault_key_slot made_key (codes "other") made_key refl
      first_key

-- A keyring with one entry, which can be locked.
abbrev secret_of : Option Str → Result KeyringError Str
secret_of none = err no_entry
secret_of (some s) = ok s

abbrev read_entry : Bool × Option Str → Result KeyringError Str
read_entry (true, s) = err (no_storage_access (codes "locked"))
read_entry (false, s) = secret_of s

abbrev set_entry : Bool × Option Str → Str → Result KeyringError (Unit {0}) × (Bool × Option Str)
set_entry (true, s) secret = (err (no_storage_access (codes "locked")), (true, s))
set_entry (false, s) secret = (ok tt, (false, some secret))

abbrev delete_entry : Bool × Option Str → Result KeyringError (Unit {0}) × (Bool × Option Str)
delete_entry (true, s) = (err (no_storage_access (codes "locked")), (true, s))
delete_entry (false, none) = (err no_entry, (false, none))
delete_entry (false, some s) = (ok tt, (false, none))

abbrev toy_keyring : Keyring (Bool × Option Str)
toy_keyring = record {
  Entry = Unit {0};
  new_entry = λ service user. ok tt;
  get_secret = λ s entry. read_entry s;
  set_secret = λ s entry secret. set_entry s secret;
  delete_credential = λ s entry. delete_entry s;
}

get_set :
    (s : Bool × Option Str) (secret : Str)
    → (set_entry s secret).0 ≡ ok tt
    → read_entry (set_entry s secret).1 ≡ ok secret
get_set (true, s) secret h = absurd (err-ne-ok h)
get_set (false, s) secret h = refl

get_delete :
    (s : Bool × Option Str)
    → (delete_entry s).0 ≡ ok tt
    → read_entry (delete_entry s).1 ≡ err no_entry
get_delete (true, s) h = absurd (err-ne-ok h)
get_delete (false, none) h = refl
get_delete (false, some s) h = refl

delete_none :
    (s : Bool × Option Str)
    → (delete_entry s).0 ≡ err no_entry
    → read_entry (delete_entry s).1 ≡ err no_entry
delete_none (true, s) h = cc
delete_none (false, none) h = refl
delete_none (false, some s) h = refl

toy_keyring_laws : KeyringLaws toy_keyring
toy_keyring_laws = record {
  get-set = λ s entry secret h. get_set s secret h;
  get-delete = λ s entry h. get_delete s h;
  delete_nothing = λ s entry h. delete_none s h;
}

os_keychain_laws_example : BackendLaws (os_keychain toy_keyring)
os_keychain_laws_example = os_keychain_laws toy_keyring toy_keyring_laws

toy_entry_for : entry_for toy_keyring vault_key_slot ≡ ok tt
unfolding entry_for
toy_entry_for = refl

os_key_kept_example :
    (fetch_or_create
      (os_keychain toy_keyring)
      (true, some made_key)
      vault_key_slot
      (codes "other")).1
    ≡ (true, some made_key)
os_key_kept_example =
    os_key_kept toy_keyring (true, some made_key) vault_key_slot (codes "other") {entry = tt}
      toy_entry_for locked_out
  where
    locked_out :
        ◌≢◌ {A = Result KeyringError Str} (err (no_storage_access (codes "locked"))) (err no_entry)
    locked_out h = cc

abbrev saved_bytes : Str
saved_bytes = vault_aad ++ (toy_nonce ++ ((1 ∷ []) ++ replicate 16 0))

abbrev saved_dir : Directory
saved_dir = (write_atomic 7 all_well (codes "v") saved_bytes vault_file_mode toy_dir).1

toy_saved :
    save toy_crypto toy_aead vault_json 7 all_well toy_nonce empty_vault (codes "v") toy_dir
    ≡ ret (ok tt, saved_dir)
unfolding save save_bytes vault_file_bytes encrypt_vault derive_aead_key write_atomic ensure_parent
    create_tmp fill_tmp rename_tmp sync_parent tmp_path decimal_loop lookup insert remove
toy_saved = refl

open-save_example :
    (open_at toy_crypto toy_aead vault_json in_memory none
      (λ _. false)
      none
      made_key
      (codes "v")
      saved_dir
      (preloaded vault_key_slot (codes "vault key"))).0
    ≡ ret (ok empty_vault)
open-save_example =
    open-save toy_crypto toy_aead vault_json toy_hashes toy_aead_laws vault_json_laws 7 all_well
      toy_nonce (codes "v") made_key empty_vault toy_dir saved_dir in_memory
      (preloaded vault_key_slot (codes "vault key")) none (λ _. false) refl refl (omega arith)
      (inl refl) toy_saved refl
