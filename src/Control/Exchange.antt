-- ===== src/Control/Exchange.antt =====
-- What the frames of crates/invisibool-control/src/wire.rs carry, and what one exchange over a
-- connection gives both sides.
use in_visibool.Control.Codec.{request_round_trip, Carries, response_round_trip}
use in_visibool.Prelude.{
  ℕ, ltb, leb, length, length-append, take-append, drop-append, Str, codes, decimal_loop, decimal,
  ret_inj, ret, ◌+◌, ◌-◌, ◌^◌, ◌≤◌, ◌<◌, ◌≡◌, refl, sym, ap, ◌∙◌, subst, true, false, [], ◌++◌,
  append-nil, append_assoc, arith,
}
use in_visibool.Storage.{Result, ok, err, IoError}
use in_visibool.Control.{
  io_failed, frame_too_large, frame_too_large_kind, response_err, request_to_bytes,
  request_from_bytes, response_to_bytes, response_from_bytes, ControlError, JsonValues,
  JsonValuesLaws, Request, Response,
}
use in_visibool.Control.Framing.{
  Done, read_exact, write_all, flush, max_frame_bytes, to_be_bytes, from_be_bytes, read_frame,
  write_frame, answer, respond, serve_one, dial_once, Conn,
}

-- A frame: four bytes of length, and the body.
abbrev pub frame : Str → Str
frame body = to_be_bytes (length body) ++ body

from_be_bytes-to_be_bytes : (n : ℕ) → n < 2 ^ 32 → from_be_bytes (to_be_bytes n) ≡ n
unfolding from_be_bytes to_be_bytes
from_be_bytes-to_be_bytes n small = omega arith

length-to_be_bytes : (n : ℕ) → length (to_be_bytes n) ≡ 4
unfolding to_be_bytes
length-to_be_bytes n = refl

read_exact_lem :
    (bytes rest : Str) (conn : Conn)
    → conn.incoming ≡ bytes ++ rest
    → read_exact (length bytes) conn ≡ (ok bytes, record conn { incoming = rest })
unfolding read_exact
read_exact_lem bytes rest conn e =
    let there : leb (length bytes) (length (bytes ++ rest)) ≡ true =
      ground (arith, length-append bytes rest) in
    rw (e, there, take-append bytes rest, drop-append bytes rest, read_exact) refl

read_length :
    (n : ℕ) (rest : Str) (conn : Conn)
    → conn.incoming ≡ to_be_bytes n ++ rest
    → read_exact 4 conn ≡ (ok (to_be_bytes n), record conn { incoming = rest })
read_length n rest conn e =
    ap (λ k. read_exact k conn) (sym (length-to_be_bytes n))
    ∙ read_exact_lem (to_be_bytes n) rest conn e

read_frame_whole :
    (body rest : Str) (conn : Conn)
    → length body ≤ max_frame_bytes
    → conn.incoming ≡ frame body ++ rest
    → read_frame conn ≡ (ok body, record conn { incoming = rest })
unfolding read_frame
read_frame_whole body rest conn small e =
    let head =
      read_length (length body) (body ++ rest) conn
        (e ∙ append_assoc (to_be_bytes (length body)) body rest) in
    let len = from_be_bytes-to_be_bytes (length body) (omega arith) in
    let fits : ltb max_frame_bytes (length body) ≡ false = ground arith in
    rw (head, len, fits, read_frame)
      (read_exact_lem body rest (record conn { incoming = body ++ rest }) refl)

-- A frame that declares more than 64 KiB is refused after its four bytes of length: nothing of its body
-- is read, and nothing is sent.
read_frame_refuses :
    (n : ℕ) (rest : Str) (conn : Conn)
    → max_frame_bytes < n
    → n < 2 ^ 32
    → conn.incoming ≡ to_be_bytes n ++ rest
    → read_frame conn ≡ (err (frame_too_large n max_frame_bytes), record conn { incoming = rest })
unfolding read_frame
read_frame_refuses n rest conn large small e =
    let len = from_be_bytes-to_be_bytes n small in
    let over : ltb max_frame_bytes n ≡ true = ground arith in
    rw (read_length n rest conn e, len, over, read_frame) refl

write_all_lem :
    (bytes : Str) (conn : Conn)
    → length bytes ≤ conn.room
    → write_all bytes conn
      ≡ (ok tt, record conn { outgoing = conn.outgoing ++ bytes; room = conn.room - length bytes })
unfolding write_all
write_all_lem bytes conn le =
    let fits : leb (length bytes) conn.room ≡ true = ground arith in rw (fits, write_all) refl

-- A connection that takes a frame: it has room for the frame, and the flush succeeds.
pub record Takes (conn : Conn) (body : Str) : Type 0 where
  pub small : length body ≤ max_frame_bytes
  pub roomy : 4 + length body ≤ conn.room
  pub flushed : conn.flushes ≡ ok tt

-- The connection after the frame.
abbrev pub framed : Conn → Str → Conn
framed conn body = record conn {
  outgoing = conn.outgoing ++ frame body;
  room = conn.room - 4 - length body;
}

flush_lem : (conn : Conn) → conn.flushes ≡ ok tt → flush conn ≡ (ok tt, conn)
unfolding flush
flush_lem conn h =
    ap
      (λ (f : Result IoError Done). elim f [
        | err e ↦ (err (io_failed e), conn)
        | ok u ↦ (ok u, conn)
      ])
      h

write_frame_whole :
    (body : Str) (conn : Conn) → Takes conn body → write_frame body conn ≡ (ok tt, framed conn body)
unfolding write_frame
write_frame_whole body conn takes =
    let fits : ltb max_frame_bytes (length body) ≡ false = ground arith in
    let len = length-to_be_bytes (length body) in
    let first = write_all_lem (to_be_bytes (length body)) conn (omega arith) in
    let mid : Conn = record conn {
      outgoing = conn.outgoing ++ to_be_bytes (length body);
      room = conn.room - 4;
    } in
    let second = write_all_lem body mid (omega arith) in
    let joined = append_assoc conn.outgoing (to_be_bytes (length body)) body in
    rw (fits, first, len, second, joined, write_frame) (flush_lem (framed conn body) takes.flushed)

-- A body of more than 64 KiB is refused whole: nothing of it is sent.
write_frame_refuses :
    (body : Str) (conn : Conn)
    → max_frame_bytes < length body
    → write_frame body conn ≡ (err (frame_too_large (length body) max_frame_bytes), conn)
unfolding write_frame
write_frame_refuses body conn large =
    let over : ltb max_frame_bytes (length body) ≡ true = ground arith in
    rw (over, write_frame) refl

cap_text : decimal max_frame_bytes ≡ codes "65536"
unfolding decimal_loop
cap_text = refl

module _ (j : JsonValues) where
  -- `serve_one`, once the reply is known.
  serve_one_replies :
      (handler : Request → Response j.Value) (conn after : Conn) (r : Result ControlError Str)
      (response : Response j.Value) (reply : Str)
      → read_frame conn ≡ (r, after)
      → answer j handler r ≡ ok response
      → response_to_bytes j response ≡ ret reply
      → serve_one j handler conn ≡ ret (write_frame reply after)
  unfolding serve_one respond
  serve_one_replies handler conn after r response reply read answered written =
      ap (respond j handler) read ∙ rw (answered, written, respond) refl

  -- A frame that declares more than 64 KiB: the handler is not asked, the rest of the input is left, and
  -- the reply is one frame with the error `frame-too-large` and both numbers in its text.
  pub serve_one-frame_too_large :
      (handler : Request → Response j.Value) (conn : Conn) (n : ℕ) (rest : Str) {reply : Str}
      → max_frame_bytes < n
      → n < 2 ^ 32
      → conn.incoming ≡ to_be_bytes n ++ rest
      → response_to_bytes j (
          response_err frame_too_large_kind
            (codes "frame size " ++ (decimal n ++ codes " exceeds max frame size 65536")))
        ≡ ret reply
      → Takes conn reply
      → serve_one j handler conn ≡ ret (ok tt, framed (record conn { incoming = rest }) reply)
  unfolding answer
  serve_one-frame_too_large handler conn n rest {reply} large small e written takes =
      serve_one_replies handler conn (record conn { incoming = rest })
        (err (frame_too_large n max_frame_bytes))
        (response_err frame_too_large_kind
          (codes "frame size " ++ (decimal n ++ codes " exceeds max frame size 65536")))
        reply (read_frame_refuses n rest conn large small e)
        (ap
          (λ d. ok (
            response_err frame_too_large_kind
              (codes "frame size " ++ (decimal n ++ (codes " exceeds max frame size " ++ d)))))
          cap_text)
        written
      ∙ ap ret (
          write_frame_whole reply (record conn { incoming = rest })
            (record { small = takes.small; roomy = takes.roomy; flushed = takes.flushed }))

  -- A reply of more than 64 KiB is not sent: the exchange ends in an error, and the peer gets no byte.
  serve_one_oversized_reply :
      (handler : Request → Response j.Value) (conn : Conn) (body rest reply : Str)
      {response : Response j.Value}
      → length body ≤ max_frame_bytes
      → conn.incoming ≡ frame body ++ rest
      → answer j handler (ok body) ≡ ok response
      → response_to_bytes j response ≡ ret reply
      → max_frame_bytes < length reply
      → serve_one j handler conn
        ≡ ret
            (err (frame_too_large (length reply) max_frame_bytes), record conn { incoming = rest })
  serve_one_oversized_reply handler conn body rest reply {response} small e answered written large =
      serve_one_replies handler conn (record conn { incoming = rest }) (ok body) response reply
        (read_frame_whole body rest conn small e) answered written
      ∙ ap ret (write_frame_refuses reply (record conn { incoming = rest }) large)

  -- One exchange of a client and a server, each reading what the other writes: where the frames of the
  -- request and of the reply have at most 64 KiB, both sides take them, and the response reads back as
  -- it was written, the server ends without error after one reply, and `dial_once` returns the response
  -- that the handler gave to the client's request.
  pub dial_once-serve_one :
      (laws : JsonValuesLaws j) (handler : Request → Response j.Value) (r : Request)
      (client server : Conn) {request reply : Str}
      → Carries j laws (handler r)
      → request_to_bytes j r ≡ ret request
      → response_to_bytes j (handler r) ≡ ret reply
      → Takes client request
      → Takes server reply
      → server.incoming ≡ (framed client request).outgoing
      → client.outgoing ≡ []
      → client.incoming ≡ (framed server reply).outgoing
      → server.outgoing ≡ []
      → (serve_one j handler server ≡ ret (ok tt, framed (record server { incoming = [] }) reply))
        × (dial_once j r client
            ≡ ret (ok (handler r), record (framed client request) { incoming = [] }))
  unfolding dial_once answer
  dial_once-serve_one laws handler r client server {request} {reply} carried asked written takes
        takes' to_server from_client to_client from_server =
      let (bytes, p, q) = request_round_trip j laws r in
      let (bytes', p', q') = response_round_trip j laws (handler r) carried in
      let asks : bytes ≡ request = ret_inj (sym p ∙ asked) in
      let replies : bytes' ≡ reply = ret_inj (sym p' ∙ written) in
      let understood = subst (λ b. request_from_bytes j b ≡ ok r) asks q in
      let parsed = subst (λ b. response_from_bytes j b ≡ ok (handler r)) replies q' in
      let arrived : server.incoming ≡ frame request ++ [] =
        to_server ∙ ap (λ o. o ++ frame request) from_client ∙ sym (append-nil (frame request)) in
      let returned : client.incoming ≡ frame reply ++ [] =
        to_client ∙ ap (λ o. o ++ frame reply) from_server ∙ sym (append-nil (frame reply)) in
      (
        serve_one_replies handler server (record server { incoming = [] }) (ok request) (handler r)
              reply (read_frame_whole request [] server takes.small arrived)
              (rw (understood, answer) refl) written
            ∙ ap ret (
                write_frame_whole reply (record server { incoming = [] })
                  (record {
                    small = takes'.small;
                    roomy = takes'.roomy;
                    flushed = takes'.flushed;
                  })),
        rw
            (
              asked,
              write_frame_whole request client takes,
              read_frame_whole reply [] (framed client request) takes'.small returned,
              parsed,
              dial_once,
            )
            refl,
      )
