-- ===== src/Control/Startup/Exclusive.antt =====
-- How many daemons of crates/invisibool-control/src/lifecycle.rs run at a time.
use in_visibool.Prelude.{
  ℕ, ◌==◌, if◌then◌else◌, Bool-cases, Option-cases, ◌+◌, ◌≤◌, ◌≡◌, refl, inl, inr, false, List, [],
  ◌∷◌, ◌++◌, arith,
}
use in_visibool.Control.Startup.{
  starting, opened, running, unlocked, stopped, lock_held, is_locked, unlock, open_lock, lock_file,
  release, remove_lock, advance, crash, advances, crashes, launches, at_boot, next_step, Kernel,
  Daemon, World, Step, Reachable,
}

-- The daemons that run with a lock on this file.
abbrev pub runs_on : ℕ → Daemon → ℕ
runs_on file (running f) = if f == file then 1 else 0
runs_on file d = 0

abbrev pub running_on : ℕ → List Daemon → ℕ
running_on file [] = 0
running_on file (d ∷ ds) = runs_on file d + running_on file ds

abbrev runs : Daemon → ℕ
runs (running f) = 1
runs d = 0

-- The daemons that run.
abbrev pub running_daemons : List Daemon → ℕ
running_daemons [] = 0
running_daemons (d ∷ ds) = runs d + running_daemons ds

abbrev count : ℕ → List ℕ → ℕ
count file [] = 0
count file (f ∷ fs) = (if f == file then 1 else 0) + count file fs

running_on-append :
    (file : ℕ) (xs ys : List Daemon)
    → running_on file (xs ++ ys) ≡ running_on file xs + running_on file ys
running_on-append file [] ys = omega arith
running_on-append file (d ∷ xs) ys = omega (arith, running_on-append file xs ys)

count-is_locked : (file : ℕ) (fs : List ℕ) → is_locked file fs ≡ false → count file fs ≡ 0
count-is_locked file [] h = refl
count-is_locked file (f ∷ fs) h = ground (arith, count-is_locked file fs)

count-unlock :
    (g file : ℕ) (fs : List ℕ) → count file (unlock g fs) ≡ (if g == file then 0 else count file fs)
count-unlock g file [] = ground arith
count-unlock g file (f ∷ fs) = ground (arith, count-unlock g file fs)

-- The locks of a file are the daemons that run on it, and there is at most one.
abbrev Counted : World → Type 0
Counted w =
    (file : ℕ)
    → (running_on file w.daemons ≡ count file w.kernel.locked) × (count file w.kernel.locked ≤ 1)

-- What a call changes in both counts.
abbrev Balanced : ℕ → Daemon → Kernel → Daemon × Kernel → Type 0
Balanced file d k (d', k') =
    (runs_on file d' + count file k.locked ≡ runs_on file d + count file k'.locked)
    × (count file k'.locked ≤ 1)

unlock_balanced :
    (file g : ℕ) (fs : List ℕ)
    → runs_on file (running g) ≤ count file fs
    → count file fs ≤ 1
    → (0 + count file fs ≡ runs_on file (running g) + count file (unlock g fs))
      × (count file (unlock g fs) ≤ 1)
unlock_balanced file g fs h le =
    (ground (arith, count-unlock g file fs), ground (arith, count-unlock g file fs))

advance-Balanced :
    (file : ℕ) (d : Daemon) (k : Kernel)
    → runs_on file d ≤ count file k.locked
    → count file k.locked ≤ 1
    → Balanced file d k (advance d k)
unfolding advance open_lock lock_file release remove_lock
advance-Balanced file starting k h le = elim (Option-cases k.at_path) [
  | inl e ↦ rw e (omega arith, le)
  | inr (f, e) ↦ rw e (omega arith, le)
]
advance-Balanced file (opened g) k h le = elim (Bool-cases (is_locked g k.locked)) [
  | inl e ↦ rw e (omega arith, le)
  | inr e ↦ rw e (omega arith, ground (arith, count-is_locked g k.locked e))
]
advance-Balanced file (running g) k h le = unlock_balanced file g k.locked h le
advance-Balanced file unlocked k h le = (omega arith, le)
advance-Balanced file stopped k h le = (omega arith, le)
advance-Balanced file lock_held k h le = (omega arith, le)

crash-Balanced :
    (file : ℕ) (d : Daemon) (k : Kernel)
    → runs_on file d ≤ count file k.locked
    → count file k.locked ≤ 1
    → Balanced file d k (crash d k)
unfolding crash
crash-Balanced file (running g) k h le = unlock_balanced file g k.locked h le
crash-Balanced file starting k h le = (omega arith, le)
crash-Balanced file (opened g) k h le = (omega arith, le)
crash-Balanced file unlocked k h le = (omega arith, le)
crash-Balanced file stopped k h le = (omega arith, le)
crash-Balanced file lock_held k h le = (omega arith, le)

Balanced-keeps :
    (k : Kernel) (before after : List Daemon) (d : Daemon) (out : Daemon × Kernel)
    → Counted (record { kernel = k; daemons = before ++ (d ∷ after) })
    → ((file : ℕ)
        → runs_on file d ≤ count file k.locked
        → count file k.locked ≤ 1
        → Balanced file d k out)
    → Counted (record { kernel = out.1; daemons = before ++ (out.0 ∷ after) })
Balanced-keeps k before after d out inv balanced file =
    let (same, le) = inv file in
    let old = running_on-append file before (d ∷ after) in
    let new = running_on-append file before (out.0 ∷ after) in
    let (eq, le') = balanced file (omega arith) le in (omega arith, le')

Counted-Step : {Goes : Daemon → Type 0} (w v : World) → Counted w → Step Goes w v → Counted v
Counted-Step _ _ inv (advances k before after d goes) =
    Balanced-keeps k before after d (advance d k) inv (λ file. advance-Balanced file d k)
Counted-Step _ _ inv (crashes k before after d) =
    Balanced-keeps k before after d (crash d k) inv (λ file. crash-Balanced file d k)
Counted-Step _ _ inv (launches k ds) = λ file. (omega (arith, (inv file).0), (inv file).1)

Reachable-Counted : {Goes : Daemon → Type 0} (w : World) → Reachable Goes w → Counted w
Reachable-Counted _ (at_boot k e) = λ file. rw e (refl, omega arith)
Reachable-Counted _ (next_step w v r s) = Counted-Step w v (Reachable-Counted w r) s

-- Whatever the order of the calls, of starts, shutdowns and crashes, at most one daemon runs on each
-- file of the lock.
pub one_daemon_per_file :
    {Goes : Daemon → Type 0} (w : World) (file : ℕ)
    → Reachable Goes w
    → running_on file w.daemons ≤ 1
one_daemon_per_file w file r = omega (arith, Reachable-Counted w r file)
