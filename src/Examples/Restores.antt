-- ===== src/Examples/Restores.antt =====
-- The theorems on `restore --session` and on `run`, at concrete values.
use in_visibool.Prelude.{Str, codes, ret, ◌-◌, ◌≡◌, refl, true, none, some, [], ◌∷◌}
use in_visibool.Prelude.Maps.{HashMap, lookup}
use in_visibool.Tokenizer.Fpe.{new_tokenizer}
use in_visibool.Tokenizer.Session.{import_pairs, entries}
use in_visibool.Engine.{new_engine, register_all, register_one}
use in_visibool.Engine.Restore.{EngineRestoreResult}
use in_visibool.Engine.Restore.Session.{
  restore_with_session, restore-none, session_pass, candidate_fakes,
}
use in_visibool.Storage.{ok, err, os_error}
use in_visibool.Keychain.{in_memory, InMemoryKeychain}
use in_visibool.Disk.{read_if_exists, File}
use in_visibool.Control.{no_socket_path}
use in_visibool.Clipboard.{headless}
use in_visibool.SessionFile.{
  load_session_file, decrypt_session_bytes, derive_session_aead_key, parse_session, io_failed,
}
use in_visibool.Keychain.{fetch_or_create}
use in_visibool.Disk.{list_orphan_tmps}
use in_visibool.Vault.Saved.{open_at, clean_orphans, open_read}
use in_visibool.Vault.{
  open_vault, build_engine, registered_values, collect_registered, derive_mac_key,
}
use in_visibool.Cli.{open_vault_cmd, output_failed, session_failed, World}
use in_visibool.Cli.Sessions.{session_of, load_session_cmd, restore_cmd}
use in_visibool.Cli.Restoring.{restore_cmd_missing, restore_cmd_consumes}
use in_visibool.Cli.Dispatch.{Surroundings}
use in_visibool.Examples.{toy_crypto, toy_automata, toy_floats}
use in_visibool.Examples.Files.{toy_aead, toy_json, toy_file, toy_contents}
use in_visibool.Examples.Commands.{bare_engine, entry_json, toy_system, world_with, no_vault}

abbrev session_world : HashMap File → World InMemoryKeychain
session_world files = record (world_with []) {
  session_dir = record { exists = true; files = files };
}

abbrev full_world : World InMemoryKeychain
full_world = session_world ((codes "s", record { content = toy_file; mode = 384 }) ∷ [])

opened_in :
    (files : HashMap File)
    → open_vault_cmd toy_crypto toy_aead entry_json in_memory toy_system (session_world files)
      ≡ ret (ok no_vault, session_world files)
unfolding open_vault_cmd open_at clean_orphans list_orphan_tmps fetch_or_create read_if_exists
    open_read lookup open_vault
opened_in files = refl

bare_built : build_engine toy_automata toy_crypto no_vault ≡ ret (ok bare_engine)
unfolding build_engine registered_values collect_registered derive_mac_key new_engine register_all
    register_one new_tokenizer
bare_built = refl

session_loaded :
    load_session_cmd toy_automata toy_floats toy_crypto toy_aead entry_json toy_json in_memory
      toy_system no_vault 100 full_world
    ≡ ret (ok (some toy_contents), full_world)
unfolding load_session_cmd load_session_file read_if_exists lookup decrypt_session_bytes
    derive_session_aead_key parse_session
session_loaded = refl

abbrev same_text : EngineRestoreResult
same_text = record { output = codes "hi"; restored_count = 0 }

text_restored :
    (restore_with_session toy_crypto bare_engine
      (codes "hi")
      (session_of toy_contents (200 - 100) 5)
      5).1
    ≡ ret same_text
unfolding restore_with_session session_pass candidate_fakes session_of entries import_pairs
text_restored = rw (restore-none toy_crypto bare_engine (codes "hi") refl) refl

nothing_there : lookup (codes "s") (session_world []).session_dir.files ≡ none
unfolding lookup
nothing_there = refl

restore_cmd_missing_example :
    (restore_cmd toy_automata toy_floats toy_crypto toy_aead entry_json toy_json in_memory
        toy_system true
        (codes "hi")
        100
        5
        (session_world [])
      ≡ ret (err (session_failed io_failed), session_world []))
    × ((session_world []).out ≡ (session_world []).out)
    × ((session_world []).errors ≡ (session_world []).errors)
    × (lookup (codes "s") (session_world []).session_dir.files ≡ none)
restore_cmd_missing_example =
    restore_cmd_missing toy_automata toy_floats toy_crypto toy_aead entry_json toy_json in_memory
      toy_system (codes "hi") 100 5 (session_world []) (session_world []) {v = no_vault}
      {e = bare_engine} (opened_in []) bare_built nothing_there

restore_cmd_consumes_example :
    (w' : World InMemoryKeychain) × (restore_cmd toy_automata toy_floats toy_crypto toy_aead
        entry_json toy_json in_memory toy_system true
        (codes "hi")
        100
        5
        full_world
      ≡ ret (err (output_failed (os_error 32)), w'))
    × (lookup (codes "s") w'.session_dir.files ≡ none)
restore_cmd_consumes_example =
    restore_cmd_consumes toy_automata toy_floats toy_crypto toy_aead entry_json toy_json in_memory
      toy_system (codes "hi") 100 5 full_world full_world {v = no_vault} {e = bare_engine}
      {contents = toy_contents} {result = same_text}
      (opened_in ((codes "s", record { content = toy_file; mode = 384 }) ∷ [])) bare_built
      session_loaded text_restored refl

abbrev toy_around : Surroundings Str
toy_around = record {
  secret = ok (codes "4 711");
  input = ok (codes "hi");
  now_epoch = 100;
  now = 5;
  display = headless;
  wayland_display = [];
  socket = ok (codes "/ctl.sock");
  dialed = λ s. err no_socket_path;
  from_value = λ v. none;
}
