-- ===== src/Cli/Sessions.antt =====
-- crates/invisibool/src/cli/commands.rs: `scrub` and `restore`, without and with a session file.
use in_visibool.Cli.{
  ◌>>=◌, ◌>>◌, vault_failed, output_failed, session_failed, text, notice, not_removed, Command,
  exit, complain, try_run, open_vault_cmd, CommandError, Line, scrubbed_line, restored_line,
  discarded_line, World, System,
}
use in_visibool.Prelude.{
  ℕ, ltb, if◌then◌else◌, length, push, Str, Run, ret, panic, ◌+◌, ◌-◌, ◌*◌, ◌^◌, max, Bool, Option,
  none, some, List, [], ◌∷◌, ◌++◌,
}
use in_visibool.Prelude.Replace.{contains_str}
use in_visibool.Tokenizer.Crypto.{Crypto}
use in_visibool.Tokenizer.Alphabet.{Floats}
use in_visibool.Tokenizer.Session.{new_session, entries, import_pairs, SessionMap}
use in_visibool.Detection.{Automata}
use in_visibool.Engine.{
  scrub_impl, Engine, SessionStore, no_store, map_store, ScrubNotice, EngineScrubResult,
}
use in_visibool.Engine.Restore.{restore, EngineRestoreResult}
use in_visibool.Engine.Restore.Session.{restore_with_session}
use in_visibool.Storage.{Result, ok, err, IoError, Aead, Json}
use in_visibool.Keychain.{Backend}
use in_visibool.Disk.{read_if_exists, Directory}
use in_visibool.SessionFile.{
  session_ttl_secs, new_at, load_session_file, SessionPair, SessionContents, SessionFileError,
  io_failed,
}
use in_visibool.SessionFile.Disk.{session_read, save_session_file, wipe_session_file}
use in_visibool.Vault.{build_engine, VaultContents, Vault}

abbrev pub cli_session_map_capacity : ℕ
cli_session_map_capacity = 4096

-- Seconds in the nanoseconds of an `Instant`.
abbrev pub nanos : ℕ → ℕ
nanos secs = secs * 10 ^ 9

-- `contents.entries.iter().map(|p| (p.fake, p.real))`
abbrev pub imported : List SessionPair → List (Str × Str)
imported [] = []
imported (p ∷ ps) = (p.fake_text, p.real_text) ∷ imported ps

abbrev pub exported : List (Str × Str) → List SessionPair
exported [] = []
exported ((fake, real) ∷ ps) = record { fake_text = fake; real_text = real } ∷ exported ps

-- The map of one command: the pairs of the file, for the seconds that it has left.
unfoldable pub session_of : SessionContents → ℕ → ℕ → SessionMap
session_of contents ttl_secs now =
    import_pairs (new_session cli_session_map_capacity (nanos (max ttl_secs 1)))
      (imported contents.pairs) now

-- The contents, and the seconds that they have left.
abbrev pub loaded_or_new : ℕ → Option SessionContents → SessionContents × ℕ
loaded_or_new now_epoch none = (new_at now_epoch, session_ttl_secs)
loaded_or_new now_epoch (some contents) = (contents, contents.expires_at - now_epoch)

abbrev pub store_pairs : SessionStore → List SessionPair
store_pairs no_store = []
store_pairs (map_store session now) = exported (entries session)

abbrev pub present : Str → List SessionPair → ℕ
present input [] = 0
present input (p ∷ ps) = (if contains_str p.fake_text input then 1 else 0) + present input ps

abbrev pub notice_lines : List ScrubNotice → List Line
notice_lines [] = []
notice_lines (n ∷ ns) = notice n ∷ notice_lines ns

module _ {S : Type 0} where
  -- `out.write_all(…).map_err(CommandError::Io)?`
  abbrev pub print : Option IoError → Str → Command S (Unit {0})
  print none s w = ret (ok tt, record w { out = push w.out (text s) })
  print (some e) s w = ret (err (output_failed e), w)

  abbrev pub complain_all : List Line → Command S (Unit {0})
  complain_all lines w = ret (ok tt, record w { errors = w.errors ++ lines })

  abbrev pub in_session_dir :
      World S
      → Run (Result SessionFileError (Unit {0}) × Directory)
      → Run (Result CommandError (Unit {0}) × World S)
  in_session_dir w panic = panic
  in_session_dir w (ret (err e, dir)) = ret (err (session_failed e), record w { session_dir = dir })
  in_session_dir w (ret (ok u, dir)) = ret (ok u, record w { session_dir = dir })

  -- The removal of the session file, which only warns where it fails.
  abbrev pub wiped_in : World S → Result IoError (Unit {0}) × Directory → World S
  wiped_in w (ok u, dir) = record w { session_dir = dir }
  wiped_in w (err e, dir) = record w { session_dir = dir; errors = push w.errors (not_removed e) }

  -- A computation of the engine, which may panic.
  abbrev pub engine_run : {A : Type 0} → Run A → Command S A
  engine_run panic w = panic
  engine_run (ret a) w = ret (ok a, w)

module _ (ac : Automata) (f : Floats) (c : Crypto) (a : Aead) (jv : Json VaultContents)
    (js : Json SessionContents) {S : Type 0} (b : Backend S) (sys : System) where
  -- `v.load_session_file(io, path, now_epoch).map_err(CommandError::Session)?`
  unfoldable pub load_session_cmd : Vault → ℕ → Command S (Option SessionContents)
  load_session_cmd v now_epoch w =
      try_run session_failed
        (load_session_file c a js
          (session_read (read_if_exists sys.session_broken sys.session_name w.session_dir))
          v.vault_key now_epoch)
        w

  unfoldable pub save_session_cmd : Vault → SessionContents → Command S (Unit {0})
  save_session_cmd v contents w = in_session_dir w (
      save_session_file c a js sys.pid sys.session_writes sys.session_nonce v.vault_key contents
        sys.session_name w.session_dir)

  unfoldable pub scrub_in_session : Vault → Engine → Str → ℕ → ℕ → Command S EngineScrubResult
  scrub_in_session v e input now_epoch now = do
    existing ← load_session_cmd v now_epoch
    let opened = loaded_or_new now_epoch existing
    result ←
        engine_run (scrub_impl ac f c e input (map_store (session_of opened.0 opened.1 now) now))
    save_session_cmd v (record opened.0 { pairs = store_pairs result.1 })
    λ w. ret (ok result.0, w)

  unfoldable pub scrub_stateless : Engine → Str → Command S EngineScrubResult
  scrub_stateless e input = do
    result ← engine_run (scrub_impl ac f c e input no_store)
    λ w. ret (ok result.0, w)

  -- `scrub`; `session` says whether there is a `session_path`, `now_epoch` counts seconds, and `now` is
  -- `Instant::now()`.
  unfoldable pub scrub_cmd : Bool → Str → ℕ → ℕ → Command S ℕ
  scrub_cmd session input now_epoch now = do
    v ← open_vault_cmd c a jv b sys
    e ← try_run vault_failed (build_engine ac c v)
    result ← if session then scrub_in_session v e input now_epoch now else scrub_stateless e input
    print sys.printed result.output
    complain_all (notice_lines result.notices)
    complain (scrubbed_line result.scrubbed_count)
    exit 0

  abbrev pub found_session : Option SessionContents → Command S SessionContents
  found_session none w = ret (err (session_failed io_failed), w)
  found_session (some contents) w = ret (ok contents, w)

  abbrev pub wipe_cmd : Command S (Unit {0})
  wipe_cmd w = ret (ok tt, wiped_in w (wipe_session_file sys.wiped sys.session_name w.session_dir))

  -- The result, and the number of entries that the text does not contain.
  unfoldable pub restore_in_session :
      Vault → Engine → Str → ℕ → ℕ → Command S (EngineRestoreResult × ℕ)
  restore_in_session v e input now_epoch now = do
    loaded ← load_session_cmd v now_epoch
    contents ← found_session loaded
    result ←
        engine_run
          (restore_with_session c e input
            (session_of contents (contents.expires_at - now_epoch) now) now).1
    wipe_cmd
    λ w. ret (ok (result, length contents.pairs - present input contents.pairs), w)

  unfoldable pub restore_stateless : Engine → Str → Command S (EngineRestoreResult × ℕ)
  restore_stateless e input = do
    result ← engine_run (restore c e input)
    λ w. ret (ok (result, 0), w)

  abbrev pub discard_lines : ℕ → List Line
  discard_lines unused = if ltb 0 unused then discarded_line unused ∷ [] else []

  unfoldable pub print_restored : EngineRestoreResult × ℕ → Command S ℕ
  print_restored (result, unused) = do
    print sys.printed result.output
    complain (restored_line result.restored_count)
    complain_all (discard_lines unused)
    exit 0

  -- `restore`
  unfoldable pub restore_cmd : Bool → Str → ℕ → ℕ → Command S ℕ
  restore_cmd session input now_epoch now = do
    v ← open_vault_cmd c a jv b sys
    e ← try_run vault_failed (build_engine ac c v)
    result ←
        if session then restore_in_session v e input now_epoch now else restore_stateless e input
    print_restored result
