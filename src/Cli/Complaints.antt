-- ===== src/Cli/Complaints.antt =====
-- What the commands of crates/invisibool/src/cli/commands.rs say on the standard error, in the words of
-- its table of exit codes.
use in_visibool.Engine.Restore.{EngineRestoreResult, restore}
use in_visibool.Cli.{
  vault_failed, session_failed, registered_formatless, notice, not_removed, Command, cmd_then,
  try_run, open_vault_cmd, saved_cmd, save_vault_cmd, CommandError, Line, scrubbed_line,
  restored_line, discarded_line, World, System,
}
use in_visibool.Prelude.{
  ◌-◌, ◌-◌, ℕ, if◌then◌else◌, All, All-append, Str, Run, ret, panic, ◌≡◌, sym, ap, ◌∙◌, ◌⊎◌, Bool,
  true, false, Option, none, some, List, [], ◌∷◌, ◌++◌, append-nil, append_assoc,
}
use in_visibool.Tokenizer.Crypto.{Crypto}
use in_visibool.Tokenizer.Alphabet.{Floats}
use in_visibool.Detection.{Automata}
use in_visibool.Storage.{Result, ok, err, IoError, Aead, Json}
use in_visibool.Keychain.{Backend}
use in_visibool.Disk.{Directory}
use in_visibool.Engine.{SessionStore, map_store, no_store, EngineScrubResult, scrub_impl, Engine}
use in_visibool.Engine.Restore.{EngineRestoreResult, restore}
use in_visibool.Engine.Restore.Session.{restore_with_session}
use in_visibool.SessionFile.{SessionContents, SessionFileError}
use in_visibool.Vault.{VaultEntry, VaultContents, VaultError, Vault}
use in_visibool.Vault.Saved.{open_at}
use in_visibool.Cli.Sessions.{
  store_pairs, loaded_or_new, session_of, session_of, loaded_or_new, print, in_session_dir,
  wiped_in, engine_run, load_session_cmd, save_session_cmd, scrub_in_session, scrub_stateless,
  found_session, restore_in_session, restore_stateless,
}

-- A notice, a warning or a summary, which is no error.
abbrev pub IsNote : Line → Type 0
IsNote (registered_formatless label reason) = Unit
IsNote (notice n) = Unit
IsNote (scrubbed_line n) = Unit
IsNote (restored_line n) = Unit
IsNote (discarded_line n) = Unit
IsNote (not_removed e) = Unit
IsNote _ = ⊥

-- Only notes were added.
abbrev pub Noted : List Line → List Line → Type 0
Noted before after = (notes : List Line) × All IsNote notes × (after ≡ before ++ notes)

pub noted_none : (es : List Line) → Noted es es
noted_none es = ([], tt, sym (append-nil es))

pub noted_more :
    (before : List Line) {after : List Line} (more : List Line)
    → Noted before after
    → All IsNote more
    → Noted before (after ++ more)
noted_more before more (notes, h, e) k = (
  notes ++ more,
  All-append IsNote notes more h k,
  ap (λ es. es ++ more) e ∙ append_assoc before notes more,
)

abbrev pub Registered : Str → List VaultEntry → Type 0
Registered label [] = ⊥
Registered label (e ∷ es) = (e.label ≡ label) ⊎ Registered label es

-- A command that was not ended by a panic has only added notes.
abbrev pub Keeps : {S A : Type 0} → List Line → Run (Result CommandError A × World S) → Type 0
Keeps before panic = Unit
Keeps before (ret (r, w)) = Noted before w.errors

module _ {S : Type 0} (before : List Line) where
  pub Keeps-then :
      {A B : Type 0} (m : Run (Result CommandError A × World S)) (k : A → Command S B)
      → Keeps before m
      → ((x : A) (w : World S) → Noted before w.errors → Keeps before (k x w))
      → Keeps before (cmd_then m k)
  Keeps-then panic k h g = tt
  Keeps-then (ret (err e, w)) k h g = h
  Keeps-then (ret (ok x, w)) k h g = g x w h

  pub try_run-Keeps :
      {A E : Type 0} (wrap : E → CommandError) (r : Run (Result E A)) (w : World S)
      → Noted before w.errors
      → Keeps before (try_run wrap r w)
  try_run-Keeps wrap panic w h = tt
  try_run-Keeps wrap (ret (err e)) w h = h
  try_run-Keeps wrap (ret (ok x)) w h = h

  engine_run-Keeps :
      {A : Type 0} (r : Run A) (w : World S) → Noted before w.errors → Keeps before (engine_run r w)
  engine_run-Keeps panic w h = tt
  engine_run-Keeps (ret x) w h = h

  pub print-Keeps :
      (printed : Option IoError) (s : Str) (w : World S)
      → Noted before w.errors
      → Keeps before (print printed s w)
  print-Keeps none s w h = h
  print-Keeps (some e) s w h = h

  in_session_dir-Keeps :
      (w : World S) (r : Run (Result SessionFileError (Unit {0}) × Directory))
      → Noted before w.errors
      → Keeps before (in_session_dir w r)
  in_session_dir-Keeps w panic h = tt
  in_session_dir-Keeps w (ret (err e, dir)) h = h
  in_session_dir-Keeps w (ret (ok u, dir)) h = h

  wiped_in-Noted :
      (w : World S) (r : Result IoError (Unit {0}) × Directory)
      → Noted before w.errors
      → Noted before (wiped_in w r).errors
  wiped_in-Noted w (ok u, dir) h = h
  wiped_in-Noted w (err e, dir) h = noted_more before (not_removed e ∷ []) h (tt, tt)

module _ (c : Crypto) (a : Aead) (j : Json VaultContents) {S : Type 0} (b : Backend S)
    (sys : System) (before : List Line) where
  pub open_vault_cmd-Keeps :
      (w : World S) → Noted before w.errors → Keeps before (open_vault_cmd c a j b sys w)
  unfolding open_vault_cmd
  open_vault_cmd-Keeps w h =
      let out =
        open_at c a j b sys.listing sys.kept sys.broken sys.new_key sys.vault_name w.vault_dir
          w.keychain in
      try_run-Keeps before vault_failed out.0 (record w { vault_dir = out.1; keychain = out.2 }) h

  saved_cmd-Keeps :
      (w : World S) (r : Run (Result VaultError (Unit {0}) × Directory))
      → Noted before w.errors
      → Keeps before (saved_cmd c a j b sys w r)
  saved_cmd-Keeps w panic h = tt
  saved_cmd-Keeps w (ret (err e, dir)) h = h
  saved_cmd-Keeps w (ret (ok u, dir)) h = h

  pub save_vault_cmd-Keeps :
      (v : Vault) (w : World S)
      → Noted before w.errors
      → Keeps before (save_vault_cmd c a j b sys v w)
  unfolding save_vault_cmd
  save_vault_cmd-Keeps v w h = saved_cmd-Keeps w _ h

module _ (ac : Automata) (f : Floats) (c : Crypto) (a : Aead) (jv : Json VaultContents)
    (js : Json SessionContents) {S : Type 0} (b : Backend S) (sys : System)
    (before : List Line) where
  load_session_cmd-Keeps :
      (v : Vault) (now_epoch : ℕ) (w : World S)
      → Noted before w.errors
      → Keeps before (load_session_cmd ac f c a jv js b sys v now_epoch w)
  unfolding load_session_cmd
  load_session_cmd-Keeps v now_epoch w h = try_run-Keeps before session_failed _ w h

  found_session-Keeps :
      (found : Option SessionContents) (w : World S)
      → Noted before w.errors
      → Keeps before (found_session ac f c a jv js b sys found w)
  found_session-Keeps none w h = h
  found_session-Keeps (some contents) w h = h

  save_session_cmd-Keeps :
      (v : Vault) (contents : SessionContents) (w : World S)
      → Noted before w.errors
      → Keeps before (save_session_cmd ac f c a jv js b sys v contents w)
  unfolding save_session_cmd
  save_session_cmd-Keeps v contents w h = in_session_dir-Keeps before w _ h

  scrub_stateless-Keeps :
      (e : Engine) (input : Str) (w : World S)
      → Noted before w.errors
      → Keeps before (scrub_stateless ac f c a jv js b sys e input w)
  unfolding scrub_stateless
  scrub_stateless-Keeps e input w h =
      let result = scrub_impl ac f c e input no_store in
      Keeps-then before {A = EngineScrubResult × SessionStore} {B = EngineScrubResult}
        (engine_run result w) _ (engine_run-Keeps before result w h) (λ x w1 h1. h1)

  scrub_in_session-Keeps :
      (v : Vault) (e : Engine) (input : Str) (now_epoch now : ℕ) (w : World S)
      → Noted before w.errors
      → Keeps before (scrub_in_session ac f c a jv js b sys v e input now_epoch now w)
  unfolding scrub_in_session
  scrub_in_session-Keeps v e input now_epoch now w h =
      Keeps-then before {A = Option SessionContents} {B = EngineScrubResult}
        (load_session_cmd ac f c a jv js b sys v now_epoch w) _
        (load_session_cmd-Keeps v now_epoch w h)
        (λ found w1 h1.
          let opened = loaded_or_new now_epoch found in
          let result =
            scrub_impl ac f c e input (map_store (session_of opened.0 opened.1 now) now) in
          Keeps-then before {A = EngineScrubResult × SessionStore} {B = EngineScrubResult}
            (engine_run result w1) _ (engine_run-Keeps before result w1 h1)
            (λ y w2 h2.
              let contents = record opened.0 { pairs = store_pairs y.1 } in
              Keeps-then before {A = Unit} {B = EngineScrubResult}
                (save_session_cmd ac f c a jv js b sys v contents w2) _
                (save_session_cmd-Keeps v contents w2 h2) (λ z w3 h3. h3)))

  pub scrubbed-Keeps :
      (session : Bool) (v : Vault) (e : Engine) (input : Str) (now_epoch now : ℕ) (w : World S)
      → Noted before w.errors
      → Keeps before (
          (if session
              then scrub_in_session ac f c a jv js b sys v e input now_epoch now
              else scrub_stateless ac f c a jv js b sys e input)
            w)
  scrubbed-Keeps false v e input now_epoch now w h = scrub_stateless-Keeps e input w h
  scrubbed-Keeps true v e input now_epoch now w h =
      scrub_in_session-Keeps v e input now_epoch now w h

  restore_stateless-Keeps :
      (e : Engine) (input : Str) (w : World S)
      → Noted before w.errors
      → Keeps before (restore_stateless ac f c a jv js b sys e input w)
  unfolding restore_stateless
  restore_stateless-Keeps e input w h =
      let result = restore c e input in
      Keeps-then before {A = EngineRestoreResult} {B = EngineRestoreResult × ℕ}
        (engine_run result w) _ (engine_run-Keeps before result w h) (λ x w1 h1. h1)

  restore_in_session-Keeps :
      (v : Vault) (e : Engine) (input : Str) (now_epoch now : ℕ) (w : World S)
      → Noted before w.errors
      → Keeps before (restore_in_session ac f c a jv js b sys v e input now_epoch now w)
  unfolding restore_in_session
  restore_in_session-Keeps v e input now_epoch now w h =
      Keeps-then before {A = Option SessionContents} {B = EngineRestoreResult × ℕ}
        (load_session_cmd ac f c a jv js b sys v now_epoch w) _
        (load_session_cmd-Keeps v now_epoch w h)
        (λ found w1 h1.
          Keeps-then before {A = SessionContents} {B = EngineRestoreResult × ℕ}
            (found_session ac f c a jv js b sys found w1) _ (found_session-Keeps found w1 h1)
            (λ contents w2 h2.
              let session = session_of contents (contents.expires_at - now_epoch) now in
              let result = (restore_with_session c e input session now).1 in
              Keeps-then before {A = EngineRestoreResult} {B = EngineRestoreResult × ℕ}
                (engine_run result w2) _ (engine_run-Keeps before result w2 h2)
                (λ z w3 h3. wiped_in-Noted before w3 _ h3)))

  pub restored-Keeps :
      (session : Bool) (v : Vault) (e : Engine) (input : Str) (now_epoch now : ℕ) (w : World S)
      → Noted before w.errors
      → Keeps before (
          (if session
              then restore_in_session ac f c a jv js b sys v e input now_epoch now
              else restore_stateless ac f c a jv js b sys e input)
            w)
  restored-Keeps false v e input now_epoch now w h = restore_stateless-Keeps e input w h
  restored-Keeps true v e input now_epoch now w h =
      restore_in_session-Keeps v e input now_epoch now w h
