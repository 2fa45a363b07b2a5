-- ===== src/Control/Paths.antt =====
-- crates/invisibool-control/src/path.rs: where the socket and its lock are. A path is its bytes.
use in_visibool.Prelude.{
  if◌then◌else◌, Option-cases, Str, codes, str_eq, starts_with, join, is_absolute, join_absolute,
  ◌≡◌, sym, ap, ◌∙◌, subst, inl, inr, true, Option, none, some, [], ◌∷◌, arith,
}
use in_visibool.Storage.{Result-cases, ok_inj, err-ne-ok, Result, ok, err}
use in_visibool.Control.{no_socket_path, ControlError}

pub record ControlPaths : Type 0 where
  pub socket : Str
  pub lock : Str

-- The closure `usable`: set, not empty, absolute.
unfoldable pub usable : Option Str → Option Str
usable none = none
usable (some v) = if str_eq v [] then none else if starts_with (codes "/") v then some v else none

unfoldable pub pick_base_dir : Option Str → Option Str → Option Str → Result ControlError Str
pick_base_dir xdg_runtime_dir xdg_state_home home = elim (usable xdg_runtime_dir) [
  | some runtime ↦ ok runtime
  | none ↦ elim (usable xdg_state_home) [
    | some state ↦ ok state
    | none ↦ elim (usable home) [
      | some home ↦ ok (join (join home (codes ".local")) (codes "state"))
      | none ↦ err no_socket_path
    ]
  ]
]

paths_in : Result ControlError Str → Result ControlError ControlPaths
paths_in (err e) = err e
paths_in (ok base) =
    let app_dir = join base (codes "invisibool") in
    ok (record { socket = join app_dir (codes "ctl.sock"); lock = join app_dir (codes "ctl.lock") })

unfoldable pub resolve_from :
    Option Str → Option Str → Option Str → Result ControlError ControlPaths
unfolding paths_in
resolve_from xdg_runtime_dir xdg_state_home home =
    paths_in (pick_base_dir xdg_runtime_dir xdg_state_home home)

-- `var_os` is `std::env::var_os`.
unfoldable pub default_control_paths : (Str → Option Str) → Result ControlError ControlPaths
default_control_paths var_os =
    resolve_from (var_os (codes "XDG_RUNTIME_DIR")) (var_os (codes "XDG_STATE_HOME"))
      (var_os (codes "HOME"))

usable_absolute : (v : Option Str) {p : Str} → usable v ≡ some p → is_absolute p ≡ true
unfolding usable
usable_absolute none h = cc
usable_absolute (some []) h = cc
usable_absolute (some (c ∷ v)) {p} h = ground (arith)

pick_base_dir_absolute :
    (xdg_runtime_dir xdg_state_home home : Option Str) {base : Str}
    → pick_base_dir xdg_runtime_dir xdg_state_home home ≡ ok base
    → is_absolute base ≡ true
unfolding pick_base_dir
pick_base_dir_absolute xdg_runtime_dir xdg_state_home home {base} h =
    elim (Option-cases (usable xdg_runtime_dir)) [
      | inr (p, e) ↦
          let same : p ≡ base = ground arith in
          subst (λ x. is_absolute x ≡ true) same (usable_absolute xdg_runtime_dir e)
      | inl e ↦ elim (Option-cases (usable xdg_state_home)) [
        | inr (p, f) ↦
            let same : p ≡ base = ground arith in
            subst (λ x. is_absolute x ≡ true) same (usable_absolute xdg_state_home f)
        | inl f ↦ elim (Option-cases (usable home)) [
          | inr (p, g) ↦
              let same : join (join p (codes ".local")) (codes "state") ≡ base = ground arith in
              subst (λ x. is_absolute x ≡ true) same
                (join_absolute (join p (codes ".local")) (codes "state")
                  (join_absolute p (codes ".local") (usable_absolute home g)))
          | inl g ↦ ground arith
        ]
      ]
    ]

-- The paths that are resolved are absolute, whatever the three variables hold.
resolve_from_absolute :
    (xdg_runtime_dir xdg_state_home home : Option Str) {paths : ControlPaths}
    → resolve_from xdg_runtime_dir xdg_state_home home ≡ ok paths
    → (is_absolute paths.socket ≡ true) × (is_absolute paths.lock ≡ true)
unfolding resolve_from paths_in
resolve_from_absolute xdg_runtime_dir xdg_state_home home {paths} h =
    elim (Result-cases (pick_base_dir xdg_runtime_dir xdg_state_home home)) [
      | inl (e, p) ↦ absurd (err-ne-ok (sym (ap paths_in p) ∙ h))
      | inr (base, p) ↦
          let app =
            join_absolute base (codes "invisibool")
              (pick_base_dir_absolute xdg_runtime_dir xdg_state_home home p) in
          let app_dir = join base (codes "invisibool") in
          subst (λ (x : ControlPaths). (is_absolute x.socket ≡ true) × (is_absolute x.lock ≡ true))
            (ok_inj (sym (ap paths_in p) ∙ h))
            (
              join_absolute app_dir (codes "ctl.sock") app,
              join_absolute app_dir (codes "ctl.lock") app,
            )
    ]
