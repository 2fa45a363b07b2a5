-- ===== src/Control/Transport/Careful.antt =====
-- What the server of crates/invisibool-control/src/transport.rs has checked when it goes on, and when
-- the startup of lifecycle.rs unlinks a socket.
use in_visibool.Control.Transport.{
  ◌>>=◌, ◌>>◌, create_dir_all, chmod_dir, bind_socket, chmod_socket, unlink_socket, Sys, asking,
  calling, Done, permissions, required_parent_mode, required_socket_mode, enoent, is_not_found,
  check_parent, prepare_parent, prepare_parent_dir, set_socket_mode, bind, verify, accept, live,
  stale, econnrefused, classify_connect, probe_connect_nonblocking, act_on_probe,
  cleanup_stale_socket, Call, ParentAnswers, BindAnswers, ProbeResult, ProbeAnswers,
}
use in_visibool.Prelude.{
  ℕ, leb, ◌==◌, ==_iff, Bool-cases, Option-cases, length, Str, codes, ◌<◌, ◌≡◌, refl, sym, ap, ◌∙◌,
  ◌↔◌, ◌⊎◌, inl, inr, true, false, Option, none, some, [], ◌∷◌, arith,
}
use in_visibool.Storage.{
  ok_inj, err-ne-ok, Result, ok, err, IoError, unexpected_eof, os_error, other_error,
}

classify_stale :
    (connected : Option ℕ)
    → classify_connect connected ≡ ok stale
    → (connected ≡ some econnrefused) ⊎ (connected ≡ some enoent)
unfolding classify_connect
classify_stale none h = cc
classify_stale (some errno) h = elim (Bool-cases (errno == econnrefused)) [
  | inl e ↦ inl (ap some ((==_iff errno econnrefused).0 e))
  | inr e ↦ elim (Bool-cases (errno == enoent)) [
    | inl f ↦ inr (ap some ((==_iff errno enoent).0 f))
    | inr f ↦ ground arith
  ]
]

probe_stale :
    (socket_path : Str) (answers : ProbeAnswers)
    → probe_connect_nonblocking socket_path answers ≡ ok stale
    → (answers.opened ≡ none)
      × (length socket_path < 108)
      × ((answers.connected ≡ some econnrefused) ⊎ (answers.connected ≡ some enoent))
unfolding probe_connect_nonblocking
probe_stale socket_path answers h = elim (Option-cases answers.opened) [
  | inr (errno, e) ↦
      let failed : probe_connect_nonblocking socket_path answers ≡ err (os_error errno) =
        rw (e, probe_connect_nonblocking) refl in
      absurd (err-ne-ok (sym failed ∙ h))
  | inl e ↦ elim (Bool-cases (leb 108 (length socket_path))) [
    | inl f ↦
        let failed : probe_connect_nonblocking socket_path answers
            ≡ err (other_error (codes "socket path too long for sockaddr_un")) =
          rw (e, f, probe_connect_nonblocking) refl in
        absurd (err-ne-ok (sym failed ∙ h))
    | inr f ↦
        let asked : probe_connect_nonblocking socket_path answers
            ≡ classify_connect answers.connected =
          rw (e, f, probe_connect_nonblocking) refl in
        (e, ground arith, classify_stale answers.connected (sym asked ∙ h))
  ]
]

act_unlinks :
    (socket_path : Str) (answers : ProbeAnswers) (r : Result IoError ProbeResult)
    → (act_on_probe socket_path answers r).1 ≡ unlink_socket ∷ []
    → r ≡ ok stale
unfolding act_on_probe
act_unlinks socket_path answers (ok live) h = cc
act_unlinks socket_path answers (ok stale) h = refl
act_unlinks socket_path answers (err e) h = cc

calls_of_calling :
    {A : Type 0} (call : Call) (r : Result IoError A) → (calling call r).1 ≡ call ∷ []
calls_of_calling call (ok a) = refl
calls_of_calling call (err e) = refl

stale_unlinks :
    (socket_path : Str) (answers : ProbeAnswers)
    → answers.exists ≡ true
    → answers.opened ≡ none
    → length socket_path < 108
    → classify_connect answers.connected ≡ ok stale
    → (cleanup_stale_socket socket_path answers).1 ≡ unlink_socket ∷ []
unfolding cleanup_stale_socket probe_connect_nonblocking act_on_probe
stale_unlinks socket_path answers there opened short c =
    let fits : leb 108 (length socket_path) ≡ false = ground arith in
    rw (there, opened, fits, c, cleanup_stale_socket, probe_connect_nonblocking, act_on_probe)
      (calls_of_calling unlink_socket answers.removed)

-- The file of the socket is unlinked exactly if there is one, a socket could be opened, the path fits,
-- and `connect` answers ECONNREFUSED or ENOENT: never one that accepts, is busy, or cannot be asked.
pub cleanup_stale_socket_iff :
    (socket_path : Str) (answers : ProbeAnswers)
    → ((cleanup_stale_socket socket_path answers).1 ≡ unlink_socket ∷ []) ↔ (
        (answers.exists ≡ true)
        × (answers.opened ≡ none)
        × (length socket_path < 108)
        × ((answers.connected ≡ some econnrefused) ⊎ (answers.connected ≡ some enoent)))
unfolding cleanup_stale_socket classify_connect
cleanup_stale_socket_iff socket_path answers = (
  λ h. elim (Bool-cases answers.exists) [
    | inl e ↦
        let asked : cleanup_stale_socket socket_path answers
            ≡ act_on_probe socket_path answers (probe_connect_nonblocking socket_path answers) =
          rw (e, cleanup_stale_socket) refl in
        let (o, l, c) = probe_stale socket_path answers (
          act_unlinks socket_path answers (probe_connect_nonblocking socket_path answers)
            (sym (ap (λ x. x.1) asked) ∙ h)) in
        (e, o, l, c)
    | inr e ↦
        let nothing : (cleanup_stale_socket socket_path answers).1 ≡ [] =
          rw (e, cleanup_stale_socket) refl in
        let both : [] ≡ unlink_socket ∷ [] = sym nothing ∙ h in cc
  ],
  λ (there, opened, short, c).
      stale_unlinks socket_path answers there opened short
        (elim c [ inl e ↦ ap classify_connect e | inr e ↦ ap classify_connect e ]),
)

-- `accept` returns a connection exactly if the listener gave it, its timeouts could be set, and
-- SO_PEERCRED gives the daemon's own user for its peer.
pub accept_iff :
    {S : Type 0} (daemon_uid : ℕ) (accepted : Result IoError S) (timeouts : Result IoError Done)
    (peer : Result IoError ℕ) (stream : S)
    → ((accept daemon_uid accepted timeouts peer).0 ≡ ok stream)
      ↔ ((accepted ≡ ok stream) × (timeouts ≡ ok tt) × (peer ≡ ok daemon_uid))
unfolding accept verify
accept_iff daemon_uid (err e) timeouts peer stream = (λ h. cc, λ (h, h', h''). cc)
accept_iff daemon_uid (ok s) (err e) peer stream = (λ h. cc, λ (h, h', h''). cc)
accept_iff daemon_uid (ok s) (ok u) (err e) stream = (λ h. cc, λ (h, h', h''). cc)
accept_iff daemon_uid (ok s) (ok u) (ok uid) stream = elim (Bool-cases (uid == daemon_uid)) [
  | inl e ↦
      let same = (==_iff uid daemon_uid).0 e in
      rw e (λ h. (ap ok (ok_inj h), refl, ap ok same), λ (h, h', h''). ap ok (ok_inj h))
  | inr e ↦ rw e (
    λ h. absurd (err-ne-ok h),
    λ (h, h', h'').
        let same : (uid == daemon_uid) ≡ true = (==_iff uid daemon_uid).1 (ok_inj h'') in cc,
  )
]

>>=-ok :
    {A B : Type 0} (m : Sys A) (f : A → Sys B) {b : B}
    → (m >>= f).0 ≡ ok b
    → (a : A) × (m.0 ≡ ok a) × ((f a).0 ≡ ok b)
>>=-ok (err e, calls) f h = cc
>>=-ok (ok a, calls) f h = (a, refl, h)

calling-ok :
    {A : Type 0} (call : Call) (r : Result IoError A) {a : A} → (calling call r).0 ≡ ok a → r ≡ ok a
calling-ok call (ok a) h = ground arith
calling-ok call (err e) h = cc

asking-ok : {A : Type 0} (r : Result IoError A) {a : A} → (asking r).0 ≡ ok a → r ≡ ok a
asking-ok (ok a) h = ground arith
asking-ok (err e) h = cc

-- A directory that only its user can enter: it was there with mode 0700, or it has been made and given
-- this mode.
abbrev pub IsPrivate : ParentAnswers → Type 0
IsPrivate answers =
    ((mode : ℕ) × (answers.metadata ≡ ok mode) × (permissions mode ≡ required_parent_mode))
    ⊎ ((answers.metadata ≡ err (os_error enoent))
        × (answers.made ≡ ok tt)
        × (answers.changed ≡ ok tt))

not_found : (e : IoError) → is_not_found e ≡ true → e ≡ os_error enoent
not_found unexpected_eof h = cc
not_found (os_error n) h = ap os_error ((==_iff n enoent).0 h)
not_found (other_error s) h = cc

check_parent-IsPrivate :
    (dir : Str) (answers : ParentAnswers) (r : Result IoError ℕ)
    → answers.metadata ≡ r
    → (check_parent dir answers r).0 ≡ ok tt
    → IsPrivate answers
unfolding check_parent
check_parent-IsPrivate dir answers (ok mode) m h =
    elim (Bool-cases (permissions mode == required_parent_mode)) [
      | inl e ↦ inl (mode, m, (==_iff (permissions mode) required_parent_mode).0 e)
      | inr e ↦ absurd (err-ne-ok (rw e at h))
    ]
check_parent-IsPrivate dir answers (err x) m h = elim (Bool-cases (is_not_found x)) [
  | inl e ↦
      let made : (calling create_dir_all answers.made
            >> calling (chmod_dir required_parent_mode) answers.changed).0
          ≡ ok tt =
        rw e at h in
      let (u, p, q) =
        >>=-ok (calling create_dir_all answers.made)
          (λ _. calling (chmod_dir required_parent_mode) answers.changed) {b = tt} made in
      inr (
        m ∙ ap err (not_found x e),
        calling-ok create_dir_all answers.made {a = u} p,
        calling-ok (chmod_dir required_parent_mode) answers.changed {a = tt} q,
      )
  | inr e ↦ absurd (err-ne-ok (rw e at h))
]

prepare_parent_dir-IsPrivate :
    (answers : ParentAnswers) → (prepare_parent_dir answers).0 ≡ ok tt → IsPrivate answers
unfolding prepare_parent_dir prepare_parent check_parent
prepare_parent_dir-IsPrivate answers h = elim (Option-cases answers.parent) [
  | inl e ↦ absurd (err-ne-ok (rw e at h))
  | inr (dir, e) ↦ check_parent-IsPrivate dir answers answers.metadata refl (rw e at h)
]

mode_checked :
    (socket_path : Str) (answers : BindAnswers)
    → (set_socket_mode socket_path answers).0 ≡ ok tt
    → (mode : ℕ) × (answers.socket_mode ≡ ok mode) × (permissions mode ≡ required_socket_mode)
unfolding set_socket_mode
mode_checked socket_path answers h =
    let (u, p, rest) =
      >>=-ok (calling (chmod_socket required_socket_mode) answers.socket_changed) _ {b = tt} h in
    let (mode, q, rest') = >>=-ok (asking answers.socket_mode) _ {b = tt} rest in
    elim (Bool-cases (permissions mode == required_socket_mode)) [
      | inl e ↦ (
        mode,
        asking-ok answers.socket_mode q,
        (==_iff (permissions mode) required_socket_mode).0 e,
      )
      | inr e ↦ absurd (err-ne-ok (rw e at rest'))
    ]

-- `UnixServer::bind` returns a server only if the directory of the socket is private, the socket could
-- be bound and its mode has been read back as 0600.
bind_sound :
    (socket_path : Str) (answers : BindAnswers) {server : Str}
    → (bind socket_path answers).0 ≡ ok server
    → IsPrivate answers.parent_answers
      × (answers.bound ≡ ok tt)
      × ((mode : ℕ) × (answers.socket_mode ≡ ok mode) × (permissions mode ≡ required_socket_mode))
unfolding bind
bind_sound socket_path answers {server} h =
    let (u, p, rest) = >>=-ok (prepare_parent_dir answers.parent_answers) _ {b = server} h in
    let (v, q, rest') = >>=-ok (calling bind_socket answers.bound) _ {b = server} rest in
    let (w, r, rest'') = >>=-ok (set_socket_mode socket_path answers) _ {b = server} rest' in
    (
      prepare_parent_dir-IsPrivate answers.parent_answers p,
      calling-ok bind_socket answers.bound {a = v} q,
      mode_checked socket_path answers r,
    )
