-- ===== src/Control/Framing.antt =====
-- crates/invisibool-control/src/wire.rs: frames of four bytes of length and a body, and the exchange of
-- one request for one response. A connection is what the peer has sent until its end, and the number
-- of bytes that the peer still takes.
use in_visibool.Prelude.{
  ℕ, ltb, leb, if◌then◌else◌, length, take, drop, Str, codes, decimal, Run, ret, panic, ◌+◌, ◌-◌,
  ◌*◌, ◌/◌, ◌%◌, max, [], ◌∷◌, ◌++◌,
}
use in_visibool.Storage.{Result, ok, err, IoError}
use in_visibool.Control.{
  io_failed, frame_too_large, bad_json, unknown_cmd, frame_too_large_kind, bad_json_kind,
  unknown_cmd_kind, response_err, request_to_bytes, request_from_bytes, response_to_bytes,
  response_from_bytes, ControlError, JsonValues, Request, Response,
}

-- `()`
abbrev pub Done : Type 0
Done = Unit

-- `ends` is what a read gives after the last byte of `incoming`, `breaks` what a write gives when there
-- is no more room, and `flushes` what `flush` gives.
pub record Conn : Type 0 where
  pub incoming : Str
  pub ends : IoError
  pub outgoing : Str
  pub room : ℕ
  pub breaks : IoError
  pub flushes : Result IoError Done

abbrev pub Action : Type 0 → Type 0
Action A = Conn → Result ControlError A × Conn

abbrev pub and_then :
    {A B : Type 0} → Result ControlError A × Conn → (A → Action B) → Result ControlError B × Conn
and_then (err e, conn) f = (err e, conn)
and_then (ok a, conn) f = f a conn

infixl 5 ◌>>=◌
abbrev pub ◌>>=◌ : {A B : Type 0} → Action A → (A → Action B) → Action B
m >>= f = λ conn. and_then (m conn) f

infixl 5 ◌>>◌
abbrev pub ◌>>◌ : {A B : Type 0} → Action A → Action B → Action B
m >> k = m >>= (λ _. k)

abbrev pub fail : {A : Type 0} → ControlError → Action A
fail e conn = (err e, conn)

abbrev pub done : {A : Type 0} → A → Action A
done a conn = (ok a, conn)

-- `read_exact` with `?`
unfoldable pub read_exact : ℕ → Action Str
read_exact n conn =
    if leb n (length conn.incoming)
    then (ok (take n conn.incoming), record conn { incoming = drop n conn.incoming })
    else (err (io_failed conn.ends), record conn { incoming = [] })

-- `write_all` with `?`
unfoldable pub write_all : Str → Action Done
write_all bytes conn =
    if leb (length bytes) conn.room
    then (ok tt, record conn { outgoing = conn.outgoing ++ bytes; room = conn.room - length bytes })
    else (
      err (io_failed conn.breaks),
      record conn { outgoing = conn.outgoing ++ take conn.room bytes; room = 0 },
    )

-- `flush` with `?`
unfoldable pub flush : Action Done
flush conn = elim conn.flushes [ err e ↦ (err (io_failed e), conn) | ok u ↦ (ok u, conn) ]

abbrev pub max_frame_bytes : ℕ
max_frame_bytes = 64 * 1024

-- `u32::to_be_bytes` of `n as u32`
unfoldable pub to_be_bytes : ℕ → Str
to_be_bytes n = (n / 16777216) % 256 ∷ (n / 65536) % 256 ∷ (n / 256) % 256 ∷ n % 256 ∷ []

-- `u32::from_be_bytes`, on four bytes
unfoldable pub from_be_bytes : Str → ℕ
from_be_bytes (a ∷ b ∷ c ∷ d ∷ []) = a * 16777216 + b * 65536 + c * 256 + d
from_be_bytes _ = 0

unfoldable pub read_frame : Action Str
read_frame = do
  lenbuf ← read_exact 4
  let len = from_be_bytes lenbuf
  if ltb max_frame_bytes len then fail (frame_too_large len max_frame_bytes) else read_exact len

unfoldable pub write_frame : Str → Action Done
write_frame body =
    if ltb max_frame_bytes (length body)
    then fail (frame_too_large (length body) max_frame_bytes)
    else do write_all (to_be_bytes (length body)); write_all body; flush

abbrev pub map_ret {ℓ κ} : {A : Type ℓ} {B : Type κ} → (A → B) → Run A → Run B
map_ret f panic = panic
map_ret f (ret a) = ret (f a)

module _ (j : JsonValues) where
  -- What is answered to a body, or the error that ends the exchange.
  unfoldable pub answer :
      (Request → Response j.Value)
      → Result ControlError Str
      → Result ControlError (Response j.Value)
  answer handler (ok body) = elim (request_from_bytes j body) [
    | ok req ↦ ok (handler req)
    | err (bad_json e) ↦ ok (
        response_err bad_json_kind
          (codes "request body was not valid JSON matching the cmd schema"))
    | err (unknown_cmd cmd) ↦
        ok (response_err unknown_cmd_kind (codes "no handler for cmd `" ++ (cmd ++ codes "`")))
    | err other ↦ err other
  ]
  answer handler (err (frame_too_large actual max)) = ok (
      response_err frame_too_large_kind (
        codes "frame size "
        ++ (decimal actual ++ (codes " exceeds max frame size " ++ decimal max))))
  answer handler (err other) = err other

  -- The reply to what `read_frame` gave.
  unfoldable pub respond :
      (Request → Response j.Value)
      → Result ControlError Str × Conn
      → Run (Result ControlError Done × Conn)
  respond handler (read, conn) = elim (answer handler read) [
    | err e ↦ ret (err e, conn)
    | ok response ↦ map_ret (λ bytes. write_frame bytes conn) (response_to_bytes j response)
  ]

  unfoldable pub serve_one :
      (Request → Response j.Value) → Conn → Run (Result ControlError Done × Conn)
  serve_one handler conn = respond handler (read_frame conn)

  -- `dial_once` of transport.rs on the connected stream
  unfoldable pub dial_once : Request → Conn → Run (Result ControlError (Response j.Value) × Conn)
  dial_once request conn =
      map_ret
        (λ bytes.
          (write_frame bytes >> (read_frame >>= (λ body c. (response_from_bytes j body, c)))) conn)
        (request_to_bytes j request)
