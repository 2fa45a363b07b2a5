-- ===== src/Control.antt =====
-- crates/invisibool-control: what the command line and the daemon say to each other over a socket.
-- This file has the messages of wire.rs and error.rs, and `serde_json::Value` as a parameter.
-- Control.Framing has the frames and the server's exchange, Control.Codec and Control.Exchange their
-- proofs, Control.Paths path.rs and Control.Startup lifecycle.rs.
pub mod Framing
pub mod Codec
pub mod Exchange
pub mod Paths
pub mod Transport
pub mod Startup
use in_visibool.Prelude.{
  ℕ, if◌then◌else◌, All, Str, codes, str_eq, expect, Run, ◌+◌, ◌≡◌, Bool, true, false, not, Option,
  none, some, List, [], ◌∷◌,
}
use in_visibool.Prelude.Maps.{HashMap, lookup}
use in_visibool.Storage.{Result, ok, err, IoError}

-- A `serde_json::Error` is its text.
pub data ControlError : Type 0 where
  io_failed : IoError → ControlError
  frame_too_large : ℕ → ℕ → ControlError
  bad_json : Str → ControlError
  bad_json_response : Str → ControlError
  unknown_cmd : Str → ControlError
  peer_uid_mismatch : ℕ → ℕ → ControlError
  peer_rejected_for_test : ControlError
  single_instance_lock_held : Str → ControlError
  stale_socket_cleanup_refused : Str → IoError → ControlError
  socket_dir_wrong_mode : Str → ℕ → ℕ → ControlError
  socket_file_wrong_mode : Str → ℕ → ℕ → ControlError
  no_socket_path : ControlError

-- `serde_json::Value`, its accessors, what `json!` and `to_value` build, and the two functions between
-- values and bytes. `raw_cmd` is `from_slice` at the type of a request, a struct with the field `cmd`.
pub record JsonValues : Type 1 where
  pub Value : Type 0
  pub null : Value
  pub bool : Bool → Value
  pub number : ℕ → Value
  pub string : Str → Value
  pub array : List Value → Value
  pub object : HashMap Value → Value
  pub get : Value → Str → Option Value
  pub as_bool : Value → Option Bool
  pub as_str : Value → Option Str
  pub to_vec : Value → Option Str
  pub from_slice : Str → Result Str Value
  pub raw_cmd : Str → Result Str Str

-- `IsExact n v`: `v` is nested at most `n` deep and has no fractions, so that it is read back as it was
-- written. The parser refuses more than 127 levels.
pub record JsonValuesLaws (j : JsonValues) : Type 1 where
  pub IsExact : ℕ → j.Value → Type 0
  pub bool-IsExact : (n : ℕ) (b : Bool) → IsExact n (j.bool b)
  pub string-IsExact : (n : ℕ) (s : Str) → IsExact n (j.string s)
  pub object-IsExact :
      (n : ℕ) (fields : HashMap j.Value)
      → All (λ f. IsExact n f.1) fields
      → IsExact (n + 1) (j.object fields)
  pub get-object :
      (fields : HashMap j.Value) (k : Str) → j.get (j.object fields) k ≡ lookup k fields
  pub as_bool-bool : (b : Bool) → j.as_bool (j.bool b) ≡ some b
  pub as_str-string : (s : Str) → j.as_str (j.string s) ≡ some s
  pub to_vec_total : (v : j.Value) → (s : Str) × (j.to_vec v ≡ some s)
  pub from_slice-to_vec :
      (v : j.Value) (s : Str) → IsExact 127 v → j.to_vec v ≡ some s → j.from_slice s ≡ ok v
  pub raw_cmd-to_vec :
      (cmd s : Str)
      → j.to_vec (j.object ((codes "cmd", j.string cmd) ∷ [])) ≡ some s
      → j.raw_cmd s ≡ ok cmd

pub data Request : Type 0 where
  status : Request
  pause : Request
  resume : Request
  restore_clipboard : Request
  session_ls : Request
  session_clear : Request

unfoldable pub wire_verb : Request → Str
wire_verb status = codes "status"
wire_verb pause = codes "pause"
wire_verb resume = codes "resume"
wire_verb restore_clipboard = codes "restore-clipboard"
wire_verb session_ls = codes "session-ls"
wire_verb session_clear = codes "session-clear"

-- A `match` on string literals, arm by arm.
abbrev pub match_str {ℓ} : {A : Type ℓ} → HashMap A → Str → Option A
match_str [] s = none
match_str ((literal, a) ∷ arms) s = if str_eq s literal then some a else match_str arms s

unfoldable pub from_wire_verb : Str → Option Request
from_wire_verb cmd =
    match_str
      ((codes "status", status)
        ∷ (codes "pause", pause)
        ∷ (codes "resume", resume)
        ∷ (codes "restore-clipboard", restore_clipboard)
        ∷ (codes "session-ls", session_ls)
        ∷ (codes "session-clear", session_clear)
        ∷ [])
      cmd

pub data ErrorKind : Type 0 where
  not_implemented_kind : ErrorKind
  frame_too_large_kind : ErrorKind
  bad_json_kind : ErrorKind
  unknown_cmd_kind : ErrorKind
  bad_args_kind : ErrorKind
  internal_kind : ErrorKind

-- `ErrorKind::as_str`
unfoldable pub kind_str : ErrorKind → Str
kind_str not_implemented_kind = codes "not-implemented"
kind_str frame_too_large_kind = codes "frame-too-large"
kind_str bad_json_kind = codes "bad-json"
kind_str unknown_cmd_kind = codes "unknown-cmd"
kind_str bad_args_kind = codes "bad-args"
kind_str internal_kind = codes "internal"

unfoldable pub from_wire_str : Str → Option ErrorKind
from_wire_str s =
    match_str
      ((codes "not-implemented", not_implemented_kind)
        ∷ (codes "frame-too-large", frame_too_large_kind)
        ∷ (codes "bad-json", bad_json_kind)
        ∷ (codes "unknown-cmd", unknown_cmd_kind)
        ∷ (codes "bad-args", bad_args_kind)
        ∷ (codes "internal", internal_kind)
        ∷ [])
      s

pub record ErrorPayload : Type 0 where
  pub kind : ErrorKind
  pub message : Str

pub data Response (V : Type 0) : Type 0 where
  ok_response : V → Response V
  err_response : ErrorPayload → Response V

-- `Response::err`
abbrev pub response_err : {V : Type 0} → ErrorKind → Str → Response V
response_err kind message = err_response (record { kind = kind; message = message })

abbrev pub into_ok : {V : Type 0} → Response V → Result ErrorPayload V
into_ok (ok_response v) = ok v
into_ok (err_response e) = err e

module _ (j : JsonValues) where
  -- `Request::to_bytes`
  unfoldable pub request_to_bytes : Request → Run Str
  request_to_bytes r = expect (j.to_vec (j.object ((codes "cmd", j.string (wire_verb r)) ∷ [])))

  request_of : Result Str Str → Result ControlError Request
  request_of (err e) = err (bad_json e)
  request_of (ok cmd) = elim (from_wire_verb cmd) [ some r ↦ ok r | none ↦ err (unknown_cmd cmd) ]

  -- `Request::from_bytes`
  unfoldable pub request_from_bytes : Str → Result ControlError Request
  unfolding request_of
  request_from_bytes bytes = request_of (j.raw_cmd bytes)

  -- The value that `Response::to_bytes` writes.
  unfoldable pub envelope : Response j.Value → j.Value
  envelope (ok_response body) = j.object ((codes "ok", j.bool true) ∷ (codes "data", body) ∷ [])
  envelope (err_response payload) = j.object (
      (codes "ok", j.bool false)
      ∷ (
        codes "error",
        j.object (
            (codes "kind", j.string (kind_str payload.kind))
            ∷ (codes "message", j.string payload.message)
            ∷ []),
      )
      ∷ [])

  -- `Response::to_bytes`
  unfoldable pub response_to_bytes : Response j.Value → Run Str
  response_to_bytes r = expect (j.to_vec (envelope r))

  -- `value.get(k).and_then(|v| v.as_str())`
  unfoldable pub str_field : j.Value → Str → Option Str
  str_field v k = elim (j.get v k) [ none ↦ none | some x ↦ j.as_str x ]

  -- `value.get(k).and_then(|v| v.as_bool())`
  unfoldable pub bool_field : j.Value → Str → Option Bool
  bool_field v k = elim (j.get v k) [ none ↦ none | some x ↦ j.as_bool x ]

  unfoldable pub error_of : j.Value → Result ControlError (Response j.Value)
  error_of error = elim (str_field error (codes "kind")) [
    | none ↦ err (bad_json_response (codes "error.kind missing or not a string"))
    | some kind ↦ ok (
        err_response (record {
          kind = elim (from_wire_str kind) [ none ↦ internal_kind | some k ↦ k ];
          message = elim (str_field error (codes "message")) [ none ↦ [] | some m ↦ m ];
        }))
  ]

  unfoldable pub response_of : j.Value → Result ControlError (Response j.Value)
  response_of value = elim (bool_field value (codes "ok")) [
    | some true ↦
        ok (ok_response (elim (j.get value (codes "data")) [ none ↦ j.null | some body ↦ body ]))
    | some false ↦ elim (j.get value (codes "error")) [
      | none ↦ err (bad_json_response (codes "ok=false but no error object"))
      | some error ↦ error_of error
    ]
    | none ↦ err (bad_json_response (codes "response missing ok field"))
  ]

  -- `Response::from_bytes`
  unfoldable pub response_from_bytes : Str → Result ControlError (Response j.Value)
  response_from_bytes bytes = elim (j.from_slice bytes) [
    | err e ↦ err (bad_json_response e)
    | ok value ↦ response_of value
  ]
