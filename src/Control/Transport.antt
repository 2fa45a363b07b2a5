-- ===== src/Control/Transport.antt =====
-- crates/invisibool-control/src/transport.rs, peer.rs and the directory and the stale socket of
-- lifecycle.rs. What the system answers is a record of results, one for each call, and a `Sys` gives,
-- beside its result, the calls that it made, in their order.
pub mod Careful
use in_visibool.Prelude.{
  ℕ, leb, ◌==◌, if◌then◌else◌, length, Str, codes, ◌%◌, Bool, false, ◌||◌, Option, none, some, List,
  [], ◌∷◌, ◌++◌,
}
use in_visibool.Storage.{Result, ok, err, IoError, os_error, other_error}
use in_visibool.Control.{
  io_failed, peer_uid_mismatch, single_instance_lock_held, stale_socket_cleanup_refused,
  socket_dir_wrong_mode, socket_file_wrong_mode, ControlError,
}

-- The calls that change the file system or the process's sockets.
pub data Call : Type 0 where
  create_dir_all : Call
  chmod_dir : ℕ → Call
  bind_socket : Call
  chmod_socket : ℕ → Call
  listen : ℕ → Call
  unlink_socket : Call
  set_timeouts : Call

abbrev pub Sys : Type 0 → Type 0
Sys A = Result ControlError A × List Call

abbrev pub followed : {A : Type 0} → List Call → Sys A → Sys A
followed calls (r, more) = (r, calls ++ more)

infixl 5 ◌>>=◌
abbrev pub ◌>>=◌ : {A B : Type 0} → Sys A → (A → Sys B) → Sys B
(err e, calls) >>= f = (err e, calls)
(ok a, calls) >>= f = followed calls (f a)

infixl 5 ◌>>◌
abbrev pub ◌>>◌ : {A B : Type 0} → Sys A → Sys B → Sys B
m >> k = m >>= (λ _. k)

abbrev pub done : {A : Type 0} → A → Sys A
done a = (ok a, [])

abbrev pub fail : {A : Type 0} → ControlError → Sys A
fail e = (err e, [])

-- A call of the system, with `?` on its result.
abbrev pub asking : {A : Type 0} → Result IoError A → Sys A
asking (ok a) = (ok a, [])
asking (err e) = (err (io_failed e), [])

abbrev pub calling : {A : Type 0} → Call → Result IoError A → Sys A
calling call (ok a) = (ok a, call ∷ [])
calling call (err e) = (err (io_failed e), call ∷ [])

abbrev pub Done : Type 0
Done = Unit

-- `mode & 0o777`
abbrev pub permissions : ℕ → ℕ
permissions mode = mode % 512

-- `0o700` and `0o600`
abbrev pub required_parent_mode : ℕ
required_parent_mode = 448

abbrev pub required_socket_mode : ℕ
required_socket_mode = 384

abbrev pub listen_backlog : ℕ
listen_backlog = 16

abbrev pub enoent : ℕ
enoent = 2

-- What the system answers about the parent directory. `metadata` is the mode, where it succeeds, and
-- `io::ErrorKind::NotFound` is the errno ENOENT.
pub record ParentAnswers : Type 0 where
  pub parent : Option Str
  pub metadata : Result IoError ℕ
  pub made : Result IoError Done
  pub changed : Result IoError Done

abbrev pub is_not_found : IoError → Bool
is_not_found (os_error n) = n == enoent
is_not_found _ = false

unfoldable pub check_parent : Str → ParentAnswers → Result IoError ℕ → Sys Done
check_parent dir answers (ok mode) =
    if permissions mode == required_parent_mode
    then done tt
    else fail (socket_dir_wrong_mode dir (permissions mode) required_parent_mode)
check_parent dir answers (err e) =
    if is_not_found e
    then calling create_dir_all answers.made
      >> calling (chmod_dir required_parent_mode) answers.changed
    else fail (io_failed e)

unfoldable pub prepare_parent : Str → ParentAnswers → Sys Done
prepare_parent message answers = elim answers.parent [
  | none ↦ fail (io_failed (other_error message))
  | some dir ↦ check_parent dir answers answers.metadata
]

-- lifecycle.rs
unfoldable pub prepare_parent_dir_0700 : ParentAnswers → Sys Done
prepare_parent_dir_0700 = prepare_parent (codes "path has no parent")

-- transport.rs
unfoldable pub prepare_parent_dir : ParentAnswers → Sys Done
prepare_parent_dir = prepare_parent (codes "socket path has no parent")

pub record BindAnswers : Type 0 where
  pub parent_answers : ParentAnswers
  pub bound : Result IoError Done
  pub socket_changed : Result IoError Done
  pub socket_mode : Result IoError ℕ
  pub listened : Result IoError Done

unfoldable pub set_socket_mode : Str → BindAnswers → Sys Done
set_socket_mode path answers = do
  calling (chmod_socket required_socket_mode) answers.socket_changed
  mode ← asking answers.socket_mode
  if permissions mode == required_socket_mode
      then done tt
      else fail (socket_file_wrong_mode path (permissions mode) required_socket_mode)

-- `UnixServer::bind`; the server it returns is its path.
unfoldable pub bind : Str → BindAnswers → Sys Str
bind socket_path answers = do
  prepare_parent_dir answers.parent_answers
  calling bind_socket answers.bound
  set_socket_mode socket_path answers
  calling (listen listen_backlog) answers.listened
  done socket_path

-- `UnixPeerVerifier::verify`, on what SO_PEERCRED gives
unfoldable pub verify : ℕ → Result IoError ℕ → Sys Done
verify daemon_uid peer = do
  peer_uid ← asking peer
  if peer_uid == daemon_uid then done tt else fail (peer_uid_mismatch peer_uid daemon_uid)

-- `UnixServer::accept` with this verifier; a stream is what `accept` of the listener gives.
unfoldable pub accept :
    {S : Type 0} → ℕ → Result IoError S → Result IoError Done → Result IoError ℕ → Sys S
accept daemon_uid accepted timeouts peer = do
  stream ← asking accepted
  calling set_timeouts timeouts
  verify daemon_uid peer
  done stream

pub data ProbeResult : Type 0 where
  live : ProbeResult
  stale : ProbeResult

-- The errnos of Linux.
abbrev pub eagain : ℕ
eagain = 11

abbrev pub econnrefused : ℕ
econnrefused = 111

abbrev pub einprogress : ℕ
einprogress = 115

-- `exists` is `Path::exists`, `opened` the errno of `socket`, `connected` that of `connect`.
pub record ProbeAnswers : Type 0 where
  pub exists : Bool
  pub opened : Option ℕ
  pub connected : Option ℕ
  pub removed : Result IoError Done

-- What `connect` answers: no errno where it is accepted.
unfoldable pub classify_connect : Option ℕ → Result IoError ProbeResult
classify_connect none = ok live
classify_connect (some errno) =
    if errno == econnrefused || errno == enoent
    then ok stale
    else if errno == eagain || errno == einprogress
    then ok live
    else err (os_error errno)

-- `sun_path` has 108 bytes.
unfoldable pub probe_connect_nonblocking : Str → ProbeAnswers → Result IoError ProbeResult
probe_connect_nonblocking socket_path answers = elim answers.opened [
  | some errno ↦ err (os_error errno)
  | none ↦
      if leb 108 (length socket_path)
      then err (other_error (codes "socket path too long for sockaddr_un"))
      else classify_connect answers.connected
]

unfoldable pub act_on_probe : Str → ProbeAnswers → Result IoError ProbeResult → Sys Done
act_on_probe socket_path answers (ok live) = fail (single_instance_lock_held socket_path)
act_on_probe socket_path answers (ok stale) = calling unlink_socket answers.removed
act_on_probe socket_path answers (err e) = fail (stale_socket_cleanup_refused socket_path e)

unfoldable pub cleanup_stale_socket : Str → ProbeAnswers → Sys Done
cleanup_stale_socket socket_path answers =
    if answers.exists
    then act_on_probe socket_path answers (probe_connect_nonblocking socket_path answers)
    else done tt
