-- ===== src/Cli/Exits.antt =====
-- The exit codes of crates/invisibool/src/cli/commands.rs, against the table at its top.
pub mod Whole
use in_visibool.Cli.{
  ◌>>=◌, ◌>>◌, vault_failed, registered_formatless, text, daemon_error, control_failed, on_wayland,
  read_failed_line, no_vault_path, failed_line, Command, cmd_then, try_run, open_vault_cmd,
  save_vault_cmd, CommandError, Line, already_registered, no_such_entry, scrubbed_line,
  restored_line, unexpected_shape, needs_display, not_implemented, World, System,
}
use in_visibool.Prelude.{
  ℕ, ltb, if◌then◌else◌, Bool-cases, All, push, Str, ret_inj, Run, ret, ◌≡◌, refl, sym, ap, ◌⊎◌,
  inl, inr, Bool, true, false, Option, none, some, List, [], ◌∷◌, ◌++◌,
}
use in_visibool.Tokenizer.Alphabet.{Floats, base62}
use in_visibool.Tokenizer.Crypto.{Crypto}
use in_visibool.Tokenizer.Fpe.{check_eligibility, Eligibility, eligible, ineligible}
use in_visibool.Detection.{Automata}
use in_visibool.Storage.{err-ne-ok, Result, ok, err, IoError, os_error, Aead, Json}
use in_visibool.Keychain.{Backend}
use in_visibool.Clipboard.{x11, wayland, headless, native_desktop}
use in_visibool.Control.{io_failed, ok_response}
use in_visibool.Control.Transport.{enoent, econnrefused}
use in_visibool.Engine.{Engine, ScrubNotice, EngineScrubResult}
use in_visibool.Engine.Restore.{EngineRestoreResult}
use in_visibool.SessionFile.{SessionContents}
use in_visibool.Vault.{forget, build_engine, VaultEntry, VaultContents, Vault}
use in_visibool.Vault.Entries.{has_label, forget-has_label}
use in_visibool.Cli.Ends.{Ends, Exits, Registered-has_label, not-Registered, Exits-then, Exits-if}
use in_visibool.Cli.Complaints.{
  IsNote, Noted, noted_none, noted_more, Registered, Keeps, try_run-Keeps, print-Keeps,
  open_vault_cmd-Keeps, save_vault_cmd-Keeps, scrubbed-Keeps, restored-Keeps,
}
use in_visibool.Cli.Entries.{
  disclose, register_new, register_cmd, forget_result, forget_cmd, list_cmd,
}
use in_visibool.Cli.Sessions.{
  notice_lines, print, scrub_in_session, scrub_stateless, scrub_cmd, restore_in_session,
  restore_stateless, discard_lines, print_restored, restore_cmd,
}
use in_visibool.Cli.Dispatch.{
  StatusData, Subcommand, register_sub, forget_sub, list_sub, watch_sub, status_sub, scrub_sub,
  restore_sub, Surroundings,
}

module _ (ac : Automata) (f : Floats) (c : Crypto) (a : Aead) (jv : Json VaultContents)
    (js : Json SessionContents) {S : Type 0} (b : Backend S) (sys : System) where
  -- The vault opens from this world, and its entries have a property.
  abbrev pub Opens : World S → (List VaultEntry → Type 0) → Type 0
  Opens w P =
      (v : Vault) × (w1 : World S) × (open_vault_cmd c a jv b sys w ≡ ret (ok v, w1))
      × P v.contents.vault_entries

  module _ {V : Type 0} (around : Surroundings V) (w0 : World S) where
    -- The daemon answers with its status, or nothing listens at the socket: ENOENT or ECONNREFUSED.
    abbrev pub Answers : Str → Type 0
    Answers path =
        ((v : V) × (d : StatusData) × (around.dialed path ≡ ok (ok_response v))
          × (around.from_value v ≡ some d))
        ⊎ ((n : ℕ) × (around.dialed path ≡ err (io_failed (os_error n))) × ((n ≡ 2) ⊎ (n ≡ 111)))

    -- What must be the case where a command exits with 0.
    abbrev pub Succeeds : Subcommand → Type 0
    Succeeds (register_sub label) = Opens w0 (λ es. ¬ Registered label es)
    Succeeds (forget_sub label) = Opens w0 (Registered label)
    Succeeds list_sub = Opens w0 (λ es. Unit)
    Succeeds (scrub_sub session) = Opens w0 (λ es. Unit) × (sys.printed ≡ none)
    Succeeds (restore_sub session) = Opens w0 (λ es. Unit) × (sys.printed ≡ none)
    Succeeds status_sub = (path : Str) × (around.socket ≡ ok path) × Answers path
    Succeeds watch_sub = ⊥

    -- The code that goes with a complaint, and what must be the case for it.
    abbrev pub Explains : Subcommand → Line → ℕ → Type 0
    Explains sub (no_such_entry label) code =
        (code ≡ 4) × (sub ≡ forget_sub label) × Opens w0 (λ es. ¬ Registered label es)
    Explains sub (already_registered label) code =
        (code ≡ 5) × (sub ≡ register_sub label) × Opens w0 (Registered label)
    Explains sub (on_wayland name) code =
        (code ≡ 6)
        × (sub ≡ watch_sub)
        × (around.display ≡ wayland)
        × (name ≡ around.wayland_display)
    Explains sub needs_display code = (code ≡ 6) × (sub ≡ watch_sub) × (around.display ≡ headless)
    Explains sub not_implemented code =
        (code ≡ 7)
        × (sub ≡ watch_sub)
        × ((around.display ≡ x11) ⊎ (around.display ≡ native_desktop))
    Explains sub (control_failed e) code = (code ≡ 3) × (sub ≡ status_sub)
    Explains sub (daemon_error kind message) code = (code ≡ 3) × (sub ≡ status_sub)
    Explains sub unexpected_shape code = (code ≡ 3) × (sub ≡ status_sub)
    Explains sub (read_failed_line e) code = code ≡ 3
    Explains sub no_vault_path code = code ≡ 3
    Explains sub (failed_line e) code = code ≡ 3
    Explains sub _ code = ⊥

    -- The end of a run.
    abbrev pub EndsAs : Subcommand → ℕ → World S → Type 0
    EndsAs sub code w = Ends (Succeeds sub) (Explains sub) w0.errors code w.errors

    -- The command `sub` is run.
    abbrev pub ExitsAs : Subcommand → Run (Result CommandError ℕ × World S) → Type 0
    ExitsAs sub = Exits (Succeeds sub) (Explains sub) w0.errors

    then_as :
        {A : Type 0} (sub : Subcommand) (m : Run (Result CommandError A × World S))
        (k : A → Command S ℕ)
        → Keeps w0.errors m
        → ((x : A) (w : World S)
            → m ≡ ret (ok x, w)
            → Noted w0.errors w.errors
            → ExitsAs sub (k x w))
        → ExitsAs sub (cmd_then m k)
    then_as sub m k h g = Exits-then (Succeeds sub) (Explains sub) w0.errors m k h g

    pub start : Noted w0.errors w0.errors
    start = noted_none w0.errors

    pub register_cmd-Exits :
        (label value : Str)
        → ExitsAs (register_sub label) (register_cmd c a jv b sys label value w0)
    unfolding register_cmd register_new
    register_cmd-Exits label value =
        then_as (register_sub label) (open_vault_cmd c a jv b sys w0) _
          (open_vault_cmd-Keeps c a jv b sys w0.errors w0 start)
          (λ v w1 e n.
            Exits-if (Succeeds (register_sub label)) (Explains (register_sub label)) w0.errors
              (has_label label v.contents.vault_entries) _ _ w1
              (λ there. inr (
                w1.errors,
                already_registered label,
                n,
                refl,
                (refl, refl, (v, w1, e, Registered-has_label label v.contents.vault_entries there)),
              ))
              (λ free. new v w1 n (v, w1, e, not-Registered label v.contents.vault_entries free)))
      where
        disclosed :
            (w : World S) (found : Eligibility)
            → Noted w0.errors w.errors
            → Keeps w0.errors (disclose c a jv b sys label found w)
        disclosed w eligible n = n
        disclosed w (ineligible reason) n =
            noted_more w0.errors (registered_formatless label reason ∷ []) n (tt, tt)

        new :
            (v : Vault) (w : World S)
            → Noted w0.errors w.errors
            → Succeeds (register_sub label)
            → ExitsAs (register_sub label) (register_new c a jv b sys label value v w)
        new v w n good =
            let found = check_eligibility value [] base62 in
            then_as (register_sub label) (disclose c a jv b sys label found w) _
              (disclosed w found n)
              (λ _ w1 _ n1.
                then_as (register_sub label) (save_vault_cmd c a jv b sys _ w1) _
                  (save_vault_cmd-Keeps c a jv b sys w0.errors _ w1 n1)
                  (λ _ w2 _ n2. inl (refl, good, n2)))

    pub forget_cmd-Exits :
        (label : Str) → ExitsAs (forget_sub label) (forget_cmd c a jv b sys label w0)
    unfolding forget_cmd forget_result
    forget_cmd-Exits label =
        then_as (forget_sub label) (open_vault_cmd c a jv b sys w0) _
          (open_vault_cmd-Keeps c a jv b sys w0.errors w0 start)
          (λ v w1 e n. ended v w1 e n (forget v label) (forget-has_label v label))
      where
        ended :
            (v : Vault) (w1 : World S)
            → open_vault_cmd c a jv b sys w0 ≡ ret (ok v, w1)
            → Noted w0.errors w1.errors
            → (r : Vault × Bool) → r.1 ≡ has_label label v.contents.vault_entries
            → ExitsAs (forget_sub label) (forget_result c a jv b sys label r w1)
        ended v w1 e n (v', true) same =
            then_as (forget_sub label) (save_vault_cmd c a jv b sys v' w1) _
              (save_vault_cmd-Keeps c a jv b sys w0.errors v' w1 n)
              (λ _ w2 _ n2. inl (
                refl,
                (v, w1, e, Registered-has_label label v.contents.vault_entries (sym same)),
                n2,
              ))
        ended v w1 e n (v', false) same = inr (
          w1.errors,
          no_such_entry label,
          n,
          refl,
          (refl, refl, (v, w1, e, not-Registered label v.contents.vault_entries (sym same))),
        )

    pub list_cmd-Exits : ExitsAs list_sub (list_cmd c a jv b sys w0)
    unfolding list_cmd
    list_cmd-Exits =
        then_as list_sub (open_vault_cmd c a jv b sys w0) _
          (open_vault_cmd-Keeps c a jv b sys w0.errors w0 start)
          (λ v w1 e n. inl (refl, (v, w1, e, tt), n))

    print_succeeds :
        (printed : Option IoError) (s : Str) (w w' : World S) {u : Unit {0}}
        → print printed s w ≡ ret (ok u, w')
        → printed ≡ none
    print_succeeds none s w w' e = refl
    print_succeeds (some x) s w w' e = absurd (err-ne-ok (ap (λ y. y.0) (ret_inj e)))

    pub scrub_cmd-Exits :
        (session : Bool) (input : Str) (now_epoch now : ℕ)
        → ExitsAs
            (scrub_sub session)
            (scrub_cmd ac f c a jv js b sys session input now_epoch now w0)
    unfolding scrub_cmd
    scrub_cmd-Exits session input now_epoch now =
        then_as (scrub_sub session) (open_vault_cmd c a jv b sys w0) _
          (open_vault_cmd-Keeps c a jv b sys w0.errors w0 start)
          (λ v w1 o n.
            then_as (scrub_sub session) (try_run vault_failed (build_engine ac c v) w1) _
              (try_run-Keeps w0.errors vault_failed (build_engine ac c v) w1 n)
              (λ e w2 _ n2.
                then_as (scrub_sub session)
                  ((if session
                      then scrub_in_session ac f c a jv js b sys v e input now_epoch now
                      else scrub_stateless ac f c a jv js b sys e input)
                    w2)
                  _
                  (scrubbed-Keeps ac f c a jv js b sys w0.errors session v e input now_epoch now w2
                    n2)
                  (λ r w3 _ n3.
                    then_as (scrub_sub session) (print sys.printed r.output w3) _
                      (print-Keeps w0.errors sys.printed r.output w3 n3)
                      (λ u w4 p n4. inl (
                        refl,
                        ((v, w1, o, tt), print_succeeds sys.printed _ w3 w4 p),
                        summed r w4 n4,
                      )))))
      where
        all_notes : (ns : List ScrubNotice) → All IsNote (notice_lines ns)
        all_notes [] = tt
        all_notes (n ∷ ns) = (tt, all_notes ns)

        summed :
            (r : EngineScrubResult) (w : World S)
            → Noted w0.errors w.errors
            → Noted w0.errors
                (push (w.errors ++ notice_lines r.notices) (scrubbed_line r.scrubbed_count))
        summed r w n =
            noted_more w0.errors (scrubbed_line r.scrubbed_count ∷ [])
              (noted_more w0.errors (notice_lines r.notices) n (all_notes r.notices)) (tt, tt)

    pub restore_cmd-Exits :
        (session : Bool) (input : Str) (now_epoch now : ℕ)
        → ExitsAs
            (restore_sub session)
            (restore_cmd ac f c a jv js b sys session input now_epoch now w0)
    unfolding restore_cmd print_restored
    restore_cmd-Exits session input now_epoch now =
        then_as (restore_sub session) (open_vault_cmd c a jv b sys w0) _
          (open_vault_cmd-Keeps c a jv b sys w0.errors w0 start)
          (λ v w1 o n.
            then_as (restore_sub session) (try_run vault_failed (build_engine ac c v) w1) _
              (try_run-Keeps w0.errors vault_failed (build_engine ac c v) w1 n)
              (λ e w2 _ n2.
                then_as (restore_sub session)
                  ((if session
                      then restore_in_session ac f c a jv js b sys v e input now_epoch now
                      else restore_stateless ac f c a jv js b sys e input)
                    w2)
                  _
                  (restored-Keeps ac f c a jv js b sys w0.errors session v e input now_epoch now w2
                    n2)
                  (λ r w3 _ n3.
                    then_as (restore_sub session) (print sys.printed r.0.output w3) _
                      (print-Keeps w0.errors sys.printed r.0.output w3 n3)
                      (λ u w4 p n4. inl (
                        refl,
                        ((v, w1, o, tt), print_succeeds sys.printed _ w3 w4 p),
                        summed r w4 n4,
                      )))))
      where
        discarded : (unused : ℕ) → All IsNote (discard_lines ac f c a jv js b sys unused)
        discarded unused = elim (Bool-cases (ltb 0 unused)) [
          | inl e ↦ rw e (tt, tt)
          | inr e ↦ rw e tt
        ]

        summed :
            (r : EngineRestoreResult × ℕ) (w : World S)
            → Noted w0.errors w.errors
            → Noted w0.errors (
                push w.errors (restored_line r.0.restored_count)
                ++ discard_lines ac f c a jv js b sys r.1)
        summed r w n =
            noted_more w0.errors (discard_lines ac f c a jv js b sys r.1)
              (noted_more w0.errors (restored_line r.0.restored_count ∷ []) n (tt, tt))
              (discarded r.1)
