-- ===== src/Cli/Restoring.antt =====
-- What `restore --session` of crates/invisibool/src/cli/commands.rs does with the session file.
use in_visibool.Engine.Restore.Session.{restore_with_session}
use in_visibool.Cli.{
  output_failed, session_failed, text, open_vault_cmd, CommandError, restored_line, World, System,
}
use in_visibool.Prelude.{
  ℕ, if◌then◌else◌, Option-cases, length, push, Str, str_eq_refl, ret, ◌-◌, ◌≡◌, refl, ap, ◌∙◌, inl,
  inr, true, Option, none, some, ◌++◌,
}
use in_visibool.Prelude.Maps.{lookup, remove, lookup-remove}
use in_visibool.Tokenizer.Crypto.{Crypto}
use in_visibool.Tokenizer.Alphabet.{Floats}
use in_visibool.Detection.{Automata}
use in_visibool.Engine.{Engine}
use in_visibool.Engine.Restore.{EngineRestoreResult}
use in_visibool.Storage.{Result, ok, err, IoError, Aead, Json}
use in_visibool.Keychain.{Backend}
use in_visibool.Disk.{Directory}
use in_visibool.SessionFile.{SessionContents, io_failed}
use in_visibool.SessionFile.Disk.{wipe_session_file}
use in_visibool.Vault.{build_engine, VaultContents, Vault}
use in_visibool.Cli.Registering.{opened_aside}
use in_visibool.Disk.{read_if_exists}
use in_visibool.SessionFile.{load_session_file}
use in_visibool.Cli.Sessions.{
  session_of, present, load_session_cmd, restore_in_session, discard_lines, print_restored,
  restore_cmd,
}

-- A session file that can be removed is not there afterwards.
wipe_session_file_gone :
    (name : Str) (dir : Directory)
    → ((wipe_session_file none name dir).0 ≡ ok tt)
      × (lookup name (wipe_session_file none name dir).1.files ≡ none)
unfolding wipe_session_file
wipe_session_file_gone name dir = elim (Option-cases (lookup name dir.files)) [
  | inl e ↦ rw (e, wipe_session_file) (refl, e)
  | inr (file, e) ↦
      let step : wipe_session_file none name dir
          ≡ (ok tt, record dir { files = remove name dir.files }) =
        rw (e, wipe_session_file) refl in
      rw step (
        refl,
        lookup-remove name name dir.files
            ∙ ap (λ b. if b then none else lookup name dir.files) (str_eq_refl name),
      )
]

module _ (ac : Automata) (f : Floats) (c : Crypto) (a : Aead) (jv : Json VaultContents)
    (js : Json SessionContents) {S : Type 0} (b : Backend S) (sys : System) where
  -- Where the directory has no session file, there is nothing to load.
  nothing_loaded :
      (v : Vault) (now_epoch : ℕ) (w : World S)
      → lookup sys.session_name w.session_dir.files ≡ none
      → load_session_cmd ac f c a jv js b sys v now_epoch w ≡ ret (ok none, w)
  unfolding load_session_cmd load_session_file read_if_exists
  nothing_loaded v now_epoch w h = rw (h, load_session_cmd, read_if_exists) refl

  -- Where the directory has no session file and the vault opens and builds an engine, `restore --session`
  -- ends with an error about the session, in the world that opening left: nothing is restored from the
  -- registrations alone, both outputs are as before, and no session file has been made.
  pub restore_cmd_missing :
      (input : Str) (now_epoch now : ℕ) (w w1 : World S) {v : Vault} {e : Engine}
      → open_vault_cmd c a jv b sys w ≡ ret (ok v, w1)
      → build_engine ac c v ≡ ret (ok e)
      → lookup sys.session_name w.session_dir.files ≡ none
      → (restore_cmd ac f c a jv js b sys true input now_epoch now w
          ≡ ret (err (session_failed io_failed), w1))
        × (w1.out ≡ w.out)
        × (w1.errors ≡ w.errors)
        × (lookup sys.session_name w1.session_dir.files ≡ none)
  unfolding restore_cmd restore_in_session
  restore_cmd_missing input now_epoch now w w1 {v} {e} opened built missing =
      let (dir, out, errors) = opened_aside c a jv b sys w w1 {v = v} opened in
      let gone = ap (λ (d : Directory). lookup sys.session_name d.files) dir ∙ missing in
      let loaded = nothing_loaded v now_epoch w1 gone in
      (rw (opened, built, loaded, restore_cmd, restore_in_session) refl, out, errors, gone)

  -- The exit of a restore, from what printing answers.
  abbrev pub restore_exit : Option IoError → Result CommandError ℕ
  restore_exit none = ok 0
  restore_exit (some x) = err (output_failed x)

  printed_exit :
      (r : EngineRestoreResult × ℕ) (printed : Option IoError) (w : World S)
      → sys.printed ≡ printed
      → (w' : World S) × (print_restored ac f c a jv js b sys r w ≡ ret (restore_exit printed, w'))
        × (w'.session_dir ≡ w.session_dir)
  unfolding print_restored
  printed_exit (result, unused) none w p = (
    record w {
      out = push w.out (text result.output);
      errors =
          push w.errors (restored_line result.restored_count)
          ++ discard_lines ac f c a jv js b sys unused;
    },
    rw (p, print_restored) refl,
    refl,
  )
  printed_exit (result, unused) (some x) w p = (w, rw (p, print_restored) refl, refl)

  -- `restore --session` consumes the file before it prints: where the engine gives a result and the file
  -- can be removed, the file is gone in the end, also if the result could not be printed and the command
  -- ends in an error.
  pub restore_cmd_consumes :
      (input : Str) (now_epoch now : ℕ) (w w1 : World S) {v : Vault} {e : Engine}
      {contents : SessionContents} {result : EngineRestoreResult}
      → open_vault_cmd c a jv b sys w ≡ ret (ok v, w1)
      → build_engine ac c v ≡ ret (ok e)
      → load_session_cmd ac f c a jv js b sys v now_epoch w1 ≡ ret (ok (some contents), w1)
      → (restore_with_session c e input
          (session_of contents (contents.expires_at - now_epoch) now)
          now).1
        ≡ ret result
      → sys.wiped ≡ none
      → (w' : World S) × (restore_cmd ac f c a jv js b sys true input now_epoch now w
          ≡ ret (restore_exit sys.printed, w'))
        × (lookup sys.session_name w'.session_dir.files ≡ none)
  unfolding restore_cmd restore_in_session
  restore_cmd_consumes input now_epoch now w w1 {v} {e} {contents} {result} opened built loaded
        restored removable =
      let (okay, gone) = wipe_session_file_gone sys.session_name w1.session_dir in
      let dir = (wipe_session_file none sys.session_name w1.session_dir).1 in
      let unused = length contents.pairs - present input contents.pairs in
      let (w', exits, same) =
        printed_exit (result, unused) sys.printed (record w1 { session_dir = dir }) refl in
      let wiped : wipe_session_file sys.wiped sys.session_name w1.session_dir ≡ (ok tt, dir) =
        ap (λ x. wipe_session_file x sys.session_name w1.session_dir) removable
        ∙ ap (λ r. (r, dir)) okay in
      (
        w',
        rw (opened, built, loaded, restored, wiped, restore_cmd, restore_in_session) exits,
        ap (λ (d : Directory). lookup sys.session_name d.files) same ∙ gone,
      )
