-- ===== src/Examples/Commands.antt =====
-- The theorems on the commands, and on restoring in a session, at concrete values.
use in_visibool.Prelude.{
  inl, ℕ, some_inj, length, take, drop, replicate, take-append, drop-append, Str, codes, find_str,
  decimal_loop, ret, ◌≡◌, refl, sym, ap, ◌∙◌, true, false, Option, none, some, List, [], ◌∷◌, ◌++◌,
  arith,
}
use in_visibool.Prelude.Maps.{HashMap, lookup, insert, remove}
use in_visibool.Tokenizer.Fpe.{
  pii, formatless, card, value_contains_whitespace, check_domain, check_body, check_eligibility,
}
use in_visibool.Tokenizer.Session.{get_or_insert, new_session}
use in_visibool.Engine.{Engine}
use in_visibool.Engine.Restore.Session.{restore_with_session, restore_with_session-get_or_insert}
use in_visibool.Storage.{ok, os_error, Json, JsonLaws}
use in_visibool.Keychain.{in_memory, preloaded, vault_key_slot, fetch_or_create, InMemoryKeychain}
use in_visibool.Disk.{
  tmp_path, sync_parent, rename_tmp, fill_tmp, create_tmp, ensure_parent, write_atomic,
  read_if_exists, list_orphan_tmps, File,
}
use in_visibool.Disk.Recovery.{all_well}
use in_visibool.Vault.{
  default_contents, retain_other, register, vault_aad, derive_aead_key, encrypt_vault, parse_vault,
  decrypt_vault, vault_file_bytes, open_vault, VaultEntryKind, fpe_entry, session_entry, VaultEntry,
  VaultContents, Vault,
}
use in_visibool.Vault.Saved.{vault_file_mode, clean_orphans, save_bytes, save, open_read, open_at}
use in_visibool.Cli.{
  open_vault_cmd, save_vault_cmd, registered_line, registered_formatless, World, System,
}
use in_visibool.Cli.Entries.{register_cmd, register_new}
use in_visibool.Cli.Registering.{register_cmd_kept, new_entry}
use in_visibool.Examples.{toy_crypto, toy_hashes, toy_tokenizer}
use in_visibool.Examples.Files.{toy_aead, toy_aead_laws, toy_nonce}

abbrev pub bare_engine : Engine
bare_engine = record {
  fpe_tokenizer = toy_tokenizer;
  fpe_registered = [];
  session_registered = [];
  retired = [];
  values = [];
  session_mac_key = replicate 32 0;
  value_id_to_ref = [];
}

once_in : find_str (codes "xyz") (codes "a xyz b") ≡ some (length (codes "a "))
unfolding find_str
once_in = refl

not_in : find_str (codes "xyz") (codes " b") ≡ none
unfolding find_str
not_in = refl

restore_with_session-get_or_insert_example :
    (restore_with_session toy_crypto bare_engine
      (codes "a xyz b")
      (get_or_insert (new_session 8 100) (codes "secret") 50 (λ _. codes "xyz")).0
      60).1
    ≡ ret (record { output = codes "a secret b"; restored_count = 1 })
restore_with_session-get_or_insert_example =
    restore_with_session-get_or_insert toy_crypto bare_engine 8 100 50 60 b'x' (codes "secret")
      (codes "yz") (codes "a ") (codes " b") refl (omega arith) (omega arith) once_in not_in

-- A format for contents with at most one entry, a formatless one.
abbrev pub entry_numbers : ℕ → Str → Str → VaultEntryKind → Option Str
entry_numbers version label value (session_entry formatless) =
    some (version ∷ length label ∷ (label ++ value))
entry_numbers version label value _ = none

abbrev pub entries_numbers : ℕ → List VaultEntry → Option Str
entries_numbers version [] = some (version ∷ [])
entries_numbers version (e ∷ []) = entry_numbers version e.label e.value e.entry_kind
entries_numbers version (e ∷ e' ∷ es) = none

abbrev pub numbers_entries : Str → Option VaultContents
numbers_entries (version ∷ []) = some (record { vault_schema = version; vault_entries = [] })
numbers_entries (version ∷ n ∷ rest) = some (record {
  vault_schema = version;
  vault_entries =
      record { label = take n rest; value = drop n rest; entry_kind = session_entry formatless }
      ∷ [];
})
numbers_entries _ = none

abbrev pub entry_json : Json VaultContents
entry_json = record {
  to_vec = λ x. entries_numbers x.vault_schema x.vault_entries;
  from_slice = numbers_entries;
}

entry_read :
    (version : ℕ) (label value : Str) (kind : VaultEntryKind) (s : Str)
    → entry_numbers version label value kind ≡ some s
    → numbers_entries s
      ≡ some (record {
        vault_schema = version;
        vault_entries = record { label = label; value = value; entry_kind = kind } ∷ [];
      })
entry_read version label value (session_entry formatless) s h =
    let same : version ∷ length label ∷ (label ++ value) ≡ s = some_inj h in
    ap numbers_entries (sym same)
    ∙ ap
        (λ (p : Str × Str). some (record {
          vault_schema = version;
          vault_entries =
              record { label = p.0; value = p.1; entry_kind = session_entry formatless } ∷ [];
        }))
        (λ i. (take-append label value i, drop-append label value i))
entry_read version label value (session_entry card) s h = cc
entry_read version label value (session_entry (pii k)) s h = cc
entry_read version label value (fpe_entry t p a) s h = cc

entries_read :
    (version : ℕ) (es : List VaultEntry) (s : Str)
    → entries_numbers version es ≡ some s
    → numbers_entries s ≡ some (record { vault_schema = version; vault_entries = es })
entries_read version [] s h = ap numbers_entries (sym (some_inj h))
entries_read version (e ∷ []) s h = entry_read version e.label e.value e.entry_kind s h
entries_read version (e ∷ e' ∷ es) s h = cc

entry_json_laws : JsonLaws entry_json
entry_json_laws = record {
  from_slice-to_vec = λ x s. entries_read x.vault_schema x.vault_entries s;
}

abbrev pub toy_system : System
toy_system = record {
  pid = 7;
  vault_name = codes "v";
  listing = none;
  kept = λ _. false;
  broken = none;
  writes = all_well;
  new_key = replicate 32 5;
  nonce = toy_nonce;
  tweak = replicate 16 0;
  session_name = codes "s";
  session_broken = none;
  session_writes = all_well;
  session_nonce = toy_nonce;
  wiped = none;
  printed = some (os_error 32);
}

abbrev pub toy_key : InMemoryKeychain
toy_key = preloaded vault_key_slot (codes "vault key")

-- The entry `pin`, in a file, and as the vault that this file holds.
abbrev pub pin_bytes : Str
pin_bytes = vault_aad ++ (toy_nonce ++ ((1 ∷ 3 ∷ codes "pin4 711") ++ replicate 16 0))

abbrev pin_vault : Vault
pin_vault = record {
  vault_key = codes "vault key";
  contents = record {
    vault_schema = 1;
    vault_entries =
        record { label = codes "pin"; value = codes "4 711"; entry_kind = session_entry formatless }
        ∷ [];
  };
}

abbrev pub world_with : HashMap File → World InMemoryKeychain
world_with files = record {
  vault_dir = record { exists = true; files = files };
  session_dir = record { exists = false; files = [] };
  keychain = toy_key;
  out = [];
  errors = [];
}

abbrev pin_world : World InMemoryKeychain
pin_world = world_with ((codes "v", record { content = pin_bytes; mode = 384 }) ∷ [])

pin_opened :
    open_vault_cmd toy_crypto toy_aead entry_json in_memory toy_system pin_world
    ≡ ret (ok pin_vault, pin_world)
unfolding open_vault_cmd open_at clean_orphans list_orphan_tmps fetch_or_create read_if_exists
    open_read lookup open_vault decrypt_vault parse_vault derive_aead_key
pin_opened = refl

abbrev pub no_vault : Vault
no_vault = record { vault_key = codes "vault key"; contents = default_contents }

empty_opened :
    open_vault_cmd toy_crypto toy_aead entry_json in_memory toy_system (world_with [])
    ≡ ret (ok no_vault, world_with [])
unfolding open_vault_cmd open_at clean_orphans list_orphan_tmps fetch_or_create read_if_exists
    open_read lookup open_vault
empty_opened = refl

abbrev pub registered_world : World InMemoryKeychain
registered_world = record (world_with []) {
  vault_dir =
      (write_atomic 7 all_well (codes "v") pin_bytes vault_file_mode (world_with []).vault_dir).1;
  out = registered_line (codes "pin") ∷ [];
  errors = registered_formatless (codes "pin") value_contains_whitespace ∷ [];
}

pub pin_registered :
    register_cmd toy_crypto toy_aead entry_json in_memory toy_system
      (codes "pin")
      (codes "4 711")
      (world_with [])
    ≡ ret (ok 0, registered_world)
unfolding register_cmd register_new open_vault_cmd open_at clean_orphans list_orphan_tmps
    fetch_or_create read_if_exists open_read lookup open_vault save_vault_cmd save save_bytes
    vault_file_bytes encrypt_vault derive_aead_key write_atomic ensure_parent create_tmp fill_tmp
    rename_tmp sync_parent tmp_path decimal_loop insert remove check_eligibility check_body
    check_domain register retain_other
pin_registered = refl

pin_written :
    entry_json.to_vec
      (register no_vault (
        new_entry toy_crypto toy_aead entry_json in_memory toy_system
          (codes "pin")
          (codes "4 711"))).contents
    ≡ some (1 ∷ 3 ∷ codes "pin4 711")
unfolding check_eligibility check_body check_domain register retain_other
pin_written = refl

key_there :
    in_memory.fetch toy_key vault_key_slot
    ≡ ok (
        some
          (register no_vault (
            new_entry toy_crypto toy_aead entry_json in_memory toy_system
              (codes "pin")
              (codes "4 711"))).vault_key)
unfolding register
key_there = refl

register_cmd_kept_example :
    (open_at toy_crypto toy_aead entry_json in_memory none
      (λ _. false)
      none
      (replicate 32 6)
      (codes "v")
      registered_world.vault_dir
      toy_key).0
    ≡ ret (
        ok (
          register no_vault (
            new_entry toy_crypto toy_aead entry_json in_memory toy_system
              (codes "pin")
              (codes "4 711"))))
register_cmd_kept_example =
    register_cmd_kept toy_crypto toy_aead entry_json in_memory toy_system toy_hashes toy_aead_laws
      entry_json_laws (codes "pin") (codes "4 711") (world_with []) (world_with []) registered_world
      toy_key none (λ _. false) (replicate 32 6) {v = no_vault}
      {plaintext = 1 ∷ 3 ∷ codes "pin4 711"} refl pin_written (omega arith) empty_opened (inl refl)
      pin_registered key_there
