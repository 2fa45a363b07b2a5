-- ===== src/Examples/Daemons.antt =====
-- The theorems on the control channel, the startup and the clipboard, at concrete values.
use in_visibool.Prelude.{
  ℕ, length, Str, codes, decimal_loop, decimal, join, ret, ◌≤◌, ◌<◌, ◌≡◌, refl, ◌↔◌, ◌⊎◌, true,
  Option, none, some, List, [], ◌∷◌, ◌++◌, arith,
}
use in_visibool.Storage.{IoError, Result, ok, unexpected_eof, os_error}
use in_visibool.Control.{
  wire_verb, from_wire_verb, kind_str, response_err, request_to_bytes, envelope, response_to_bytes,
  Request, status, pause, frame_too_large_kind, Response, ok_response,
}
use in_visibool.Control.Framing.{Done, to_be_bytes, serve_one, dial_once, Conn}
use in_visibool.Control.Codec.{from_wire_verb_iff}
use in_visibool.Control.Exchange.{
  frame, framed, serve_one-frame_too_large, dial_once-serve_one, Takes,
}
use in_visibool.Control.Paths.{ControlPaths, usable, pick_base_dir, resolve_from}
use in_visibool.Control.Transport.{
  ProbeAnswers, cleanup_stale_socket, accept, unlink_socket, econnrefused, enoent,
}
use in_visibool.Control.Transport.Careful.{cleanup_stale_socket_iff, accept_iff}
use in_visibool.Control.Startup.{
  open_lock, lock_file, release, remove_lock, advance, Any, Kernel, Daemon, starting, opened,
  running, unlocked, stopped, World, advances, launches, Reachable, at_boot, next_step,
}
use in_visibool.Control.Startup.Exclusive.{running_daemons}
use in_visibool.Control.Startup.Single.{single_instance}
use in_visibool.Clipboard.{conceal_all, default_state}
use in_visibool.Clipboard.Consistent.{
  perform_all, perform_all-IsClipboard, Operation, external, reading, writing, clearing,
  subscribing, IsClipboard,
}
use in_visibool.Examples.Values.{toy_values, toy_values_laws, fields_bytes, flag}

abbrev toy_handler : Request → Response Str
toy_handler r = ok_response (codes "up")

abbrev toy_request : Str
toy_request = fields_bytes ((codes "cmd", codes "status") ∷ [])

abbrev toy_reply : Str
toy_reply = fields_bytes ((codes "ok", flag true) ∷ (codes "data", codes "up") ∷ [])

abbrev toy_conn : Str → Conn
toy_conn incoming = record {
  incoming = incoming;
  ends = unexpected_eof;
  outgoing = [];
  room = 1000;
  breaks = os_error 32;
  flushes = ok tt;
}

abbrev toy_client : Conn
toy_client = toy_conn (frame toy_reply)

abbrev toy_server : Conn
toy_server = toy_conn (frame toy_request)

client-Takes : Takes toy_client toy_request
client-Takes = record { small = omega arith; roomy = omega arith; flushed = refl }

server-Takes : Takes toy_server toy_reply
server-Takes = record { small = omega arith; roomy = omega arith; flushed = refl }

asked : request_to_bytes toy_values status ≡ ret toy_request
unfolding request_to_bytes wire_verb
asked = refl

replied : response_to_bytes toy_values (toy_handler status) ≡ ret toy_reply
unfolding response_to_bytes envelope
replied = refl

dial_once-serve_one_example :
    (serve_one toy_values toy_handler toy_server
      ≡ ret (ok tt, framed (record toy_server { incoming = [] }) toy_reply))
    × (dial_once toy_values status toy_client
        ≡ ret (ok (toy_handler status), record (framed toy_client toy_request) { incoming = [] }))
dial_once-serve_one_example =
    dial_once-serve_one toy_values toy_values_laws toy_handler status toy_client toy_server tt asked
      replied client-Takes server-Takes refl refl refl refl

abbrev large_refusal : Response Str
large_refusal =
    response_err frame_too_large_kind
      (codes "frame size " ++ (decimal 70000 ++ codes " exceeds max frame size 65536"))

abbrev large_conn : Conn
large_conn = toy_conn (to_be_bytes 70000 ++ [])

large-Takes : Takes large_conn (envelope toy_values large_refusal)
unfolding envelope decimal_loop kind_str
large-Takes = record { small = omega arith; roomy = omega arith; flushed = refl }

refused : response_to_bytes toy_values large_refusal ≡ ret (envelope toy_values large_refusal)
unfolding response_to_bytes
refused = refl

serve_one-frame_too_large_example :
    serve_one toy_values toy_handler large_conn
    ≡ ret (ok tt, framed (record large_conn { incoming = [] }) (envelope toy_values large_refusal))
serve_one-frame_too_large_example =
    serve_one-frame_too_large toy_values toy_handler large_conn 70000 [] (omega arith) (omega arith)
      refl refused large-Takes

from_wire_verb_iff_example :
    (from_wire_verb (codes "pause") ≡ some pause) ↔ (codes "pause" ≡ wire_verb pause)
from_wire_verb_iff_example = from_wire_verb_iff (codes "pause") pause

abbrev toy_paths : ControlPaths
toy_paths = record {
  socket = codes "/run/user/7/invisibool/ctl.sock";
  lock = codes "/run/user/7/invisibool/ctl.lock";
}

toy_resolved : resolve_from (some (codes "/run/user/7")) none none ≡ ok toy_paths
unfolding resolve_from pick_base_dir usable join
toy_resolved = refl

abbrev stale_socket : ProbeAnswers
stale_socket = record { exists = true; opened = none; connected = some 111; removed = ok tt }

cleanup_stale_socket_iff_example :
    ((cleanup_stale_socket (codes "/run/ctl.sock") stale_socket).1 ≡ unlink_socket ∷ []) ↔ (
      (stale_socket.exists ≡ true)
      × (stale_socket.opened ≡ none)
      × (length (codes "/run/ctl.sock") < 108)
      × ((stale_socket.connected ≡ some econnrefused) ⊎ (stale_socket.connected ≡ some enoent)))
cleanup_stale_socket_iff_example = cleanup_stale_socket_iff (codes "/run/ctl.sock") stale_socket

accept_iff_example : ((accept {S = ℕ} 1000 (ok 5) (ok tt) (ok 1000)).0 ≡ ok 5) ↔ (
    (◌≡◌ {A = Result IoError ℕ} (ok 5) (ok 5))
    × (◌≡◌ {A = Result IoError Done} (ok tt) (ok tt))
    × (◌≡◌ {A = Result IoError ℕ} (ok 1000) (ok 1000)))
accept_iff_example = accept_iff {S = ℕ} 1000 (ok 5) (ok tt) (ok 1000) 5

-- One daemon of two runs, and the other finds the lock held.
abbrev boot : Kernel
boot = record { at_path = none; next_file = 1; locked = [] }

abbrev one_runs : World
one_runs = record {
  kernel = record { at_path = some 1; next_file = 2; locked = 1 ∷ [] };
  daemons = running 1 ∷ [];
}

booted : {Goes : Daemon → Type 0} → Goes starting → Goes (opened 1) → Reachable Goes one_runs
unfolding advance open_lock lock_file
booted g g' =
    next_step _ _
      (next_step _ _ (next_step _ _ (at_boot boot refl) (launches boot []))
        (advances boot [] [] starting g))
      (advances _ [] [] (opened 1) g')

single_instance_example : running_daemons one_runs.daemons ≤ 1
single_instance_example = single_instance one_runs (booted tt tt)

-- The first daemon has unlocked its file and not yet removed it, the second locks this file, the first
-- removes it, and the third makes and locks a new one: two daemons run.
abbrev two_run : World
two_run = record {
  kernel = record { at_path = some 2; next_file = 3; locked = 2 ∷ 1 ∷ [] };
  daemons = running 2 ∷ running 1 ∷ stopped ∷ [];
}

abbrev kernel_at : Option ℕ → ℕ → List ℕ → Kernel
kernel_at path next held = record { at_path = path; next_file = next; locked = held }

two_run-Reachable : Reachable Any two_run
unfolding advance open_lock lock_file release remove_lock
two_run-Reachable =
    next_step _ _
      (next_step _ _
        (next_step _ _
          (next_step _ _
            (next_step _ _
              (next_step _ _
                (next_step _ _ (next_step _ _ (booted tt tt) (advances _ [] [] (running 1) tt))
                  (launches _ _))
                (advances _ [] (unlocked ∷ []) starting tt))
              (advances _ [] (unlocked ∷ []) (opened 1) tt))
            (advances _ (running 1 ∷ []) [] unlocked tt))
          (launches _ _))
        (advances _ [] (running 1 ∷ stopped ∷ []) starting tt))
      (advances _ [] (running 1 ∷ stopped ∷ []) (opened 2) tt)

abbrev toy_operations : List Operation
toy_operations =
    subscribing 4 ∷ writing (codes "a") conceal_all ∷ external (codes "b") ∷ clearing ∷ reading ∷ []

perform_all-IsClipboard_example : IsClipboard (perform_all toy_operations default_state)
perform_all-IsClipboard_example = perform_all-IsClipboard toy_operations
