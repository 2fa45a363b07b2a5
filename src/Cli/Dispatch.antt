-- ===== src/Cli/Dispatch.antt =====
-- crates/invisibool/src/cli/commands.rs: `status`, `watch`, and `run`, which dispatches a command line.
use in_visibool.Cli.{
  ◌>>◌, watch_running, daemon_error, control_failed, on_wayland, read_failed_line, no_vault_path,
  failed_line, Command, exit, say, complain, CommandError, watch_not_running, unexpected_shape,
  needs_display, not_implemented, World, System,
}
use in_visibool.Prelude.{
  ℕ, ◌==◌, if◌then◌else◌, push, Str, Run, ret, panic, Bool, false, ◌||◌, Option, none, some,
}
use in_visibool.Tokenizer.Alphabet.{Floats}
use in_visibool.Tokenizer.Crypto.{Crypto}
use in_visibool.Detection.{Automata}
use in_visibool.Storage.{Result, ok, err, IoError, os_error, Aead, Json}
use in_visibool.Keychain.{Backend}
use in_visibool.Control.{ControlError, io_failed, Response, ok_response, err_response}
use in_visibool.Control.Transport.{enoent, econnrefused}
use in_visibool.Clipboard.{DisplayServer, x11, wayland, headless, native_desktop}
use in_visibool.SessionFile.{SessionContents}
use in_visibool.Vault.{VaultContents}
use in_visibool.Cli.Entries.{register_cmd, forget_cmd, list_cmd}
use in_visibool.Cli.Sessions.{scrub_cmd, restore_cmd}

pub record StatusData : Type 0 where
  pub running : Bool
  pub pid : ℕ
  pub uptime_secs : ℕ
  pub version : Str

-- `resolve_vault_path`, from what `default_vault_path` gives
abbrev pub resolve_vault_path : Option Str → Option Str → Option Str
resolve_vault_path (some p) default_path = some p
resolve_vault_path none default_path = default_path

-- No daemon: `io::ErrorKind::NotFound` and `ConnectionRefused`, as the errnos of Linux.
abbrev pub is_absent : IoError → Bool
is_absent (os_error n) = n == enoent || n == econnrefused
is_absent _ = false

module _ {S : Type 0} {V : Type 0} (from_value : V → Option StatusData) where
  abbrev pub show_status : Option StatusData → Command S ℕ
  show_status (some d) = say (watch_running d.pid d.uptime_secs d.version) >> exit 0
  show_status none = complain unexpected_shape >> exit 3

  -- `status`: `paths` is the socket, `dialed` what `dial_once` gives.
  unfoldable pub status_cmd :
      Result ControlError Str → (Str → Result ControlError (Response V)) → Command S ℕ
  status_cmd (err e) dialed = complain (control_failed e) >> exit 3
  status_cmd (ok socket) dialed = elim (dialed socket) [
    | ok (ok_response v) ↦ show_status (from_value v)
    | ok (err_response payload) ↦ complain (daemon_error payload.kind payload.message) >> exit 3
    | err (io_failed e) ↦
        if is_absent e
        then say watch_not_running >> exit 0
        else complain (control_failed (io_failed e)) >> exit 3
    | err other ↦ complain (control_failed other) >> exit 3
  ]

module _ {S : Type 0} where
  -- `watch`: `wayland_display` is the variable of this name, empty where it is not set.
  unfoldable pub watch_cmd : DisplayServer → Str → Command S ℕ
  watch_cmd wayland wayland_display = complain (on_wayland wayland_display) >> exit 6
  watch_cmd headless wayland_display = complain needs_display >> exit 6
  watch_cmd x11 wayland_display = complain not_implemented >> exit 7
  watch_cmd native_desktop wayland_display = complain not_implemented >> exit 7

-- `args::Command`; a file or a session path is what the command line gives.
pub data Subcommand : Type 0 where
  register_sub forget_sub : Str → Subcommand
  list_sub watch_sub status_sub : Subcommand
  scrub_sub restore_sub : Bool → Subcommand

-- What `run` reads from outside: the secret, the input, the clocks, the display and the daemon.
pub record Surroundings (V : Type 0) : Type 0 where
  pub secret : Result IoError Str
  pub input : Result IoError Str
  pub now_epoch : ℕ
  pub now : ℕ
  pub display : DisplayServer
  pub wayland_display : Str
  pub socket : Result ControlError Str
  pub dialed : Str → Result ControlError (Response V)
  pub from_value : V → Option StatusData

module _ (ac : Automata) (f : Floats) (c : Crypto) (a : Aead) (jv : Json VaultContents)
    (js : Json SessionContents) {S : Type 0} (b : Backend S) (sys : System) {V : Type 0}
    (around : Surroundings V) where
  -- A command on what was read; where reading failed, exit code 3.
  abbrev pub on_input : Result IoError Str → (Str → Command S ℕ) → Command S ℕ
  on_input (err e) k = complain (read_failed_line e) >> exit 3
  on_input (ok input) k = k input

  unfoldable pub dispatch : Subcommand → Command S ℕ
  dispatch (register_sub label) = on_input around.secret (register_cmd c a jv b sys label)
  dispatch list_sub = list_cmd c a jv b sys
  dispatch (forget_sub label) = forget_cmd c a jv b sys label
  dispatch (scrub_sub session) =
      on_input around.input
        (λ input. scrub_cmd ac f c a jv js b sys session input around.now_epoch around.now)
  dispatch (restore_sub session) =
      on_input around.input
        (λ input. restore_cmd ac f c a jv js b sys session input around.now_epoch around.now)
  dispatch status_sub = status_cmd around.from_value around.socket around.dialed
  dispatch watch_sub = watch_cmd around.display around.wayland_display

  -- An error becomes a complaint and exit code 3.
  abbrev pub exit_code : Run (Result CommandError ℕ × World S) → Run (ℕ × World S)
  exit_code panic = panic
  exit_code (ret (ok code, w)) = ret (code, w)
  exit_code (ret (err e, w)) = ret (3, record w { errors = push w.errors (failed_line e) })

  -- `run`, with the path of the vault that `resolve_vault_path` gives; the file of this path is the one
  -- of `sys`.
  unfoldable pub run : Option Str → Subcommand → World S → Run (ℕ × World S)
  run none sub w = ret (3, record w { errors = push w.errors no_vault_path })
  run (some path) sub w = exit_code (dispatch sub w)
