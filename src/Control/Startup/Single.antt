-- ===== src/Control/Startup/Single.antt =====
-- One daemon runs at a time, as long as no daemon of crates/invisibool-control/src/lifecycle.rs has
-- unlinked the lock by its `drop`.
use in_visibool.Prelude.{
  ℕ, ==_iff, Bool-cases, Option-cases, some_inj, All, All-append, All-map, ◌+◌, ◌≤◌, ◌≡◌, refl, sym,
  ap, subst, ◌⊎◌, inl, inr, Option, none, some, List, [], ◌∷◌, ◌++◌, arith,
}
use in_visibool.Control.Startup.{
  starting, opened, running, unlocked, stopped, lock_held, is_locked, open_lock, lock_file, advance,
  crash, advances, crashes, launches, at_boot, next_step, Lasting, Kernel, Daemon, World, Step,
  Reachable,
}
use in_visibool.Control.Startup.Exclusive.{running_on, running_daemons, one_daemon_per_file}

-- The file that a daemon has opened is the one at the path.
abbrev AtPath : Option ℕ → Daemon → Type 0
AtPath path (opened f) = path ≡ some f
AtPath path (running f) = path ≡ some f
AtPath path unlocked = ⊥
AtPath path d = Unit

abbrev Placed : World → Type 0
Placed w = All (AtPath w.kernel.at_path) w.daemons

All-split {ℓ κ} :
    {A : Type ℓ} (P : A → Type κ) (xs : List A) (x : A) (ys : List A)
    → All P (xs ++ (x ∷ ys))
    → All P xs × P x × All P ys
All-split P [] x ys (p, h) = (tt, p, h)
All-split P (y ∷ xs) x ys (p, h) = let (a, b, c) = All-split P xs x ys h in ((p, a), b, c)

-- What a call does to the path: nothing, or it makes the file there.
abbrev Grows : Option ℕ → Option ℕ → Type 0
Grows path path' = (path ≡ path') ⊎ (path ≡ none)

AtPath-Grows :
    (path path' : Option ℕ) (d : Daemon) → Grows path path' → AtPath path d → AtPath path' d
AtPath-Grows path path' d (inl e) h = subst (λ p. AtPath p d) e h
AtPath-Grows path path' starting (inr e) h = tt
AtPath-Grows path path' (opened f) (inr e) h = cc
AtPath-Grows path path' (running f) (inr e) h = cc
AtPath-Grows path path' unlocked (inr e) h = h
AtPath-Grows path path' stopped (inr e) h = tt
AtPath-Grows path path' lock_held (inr e) h = tt

abbrev Settles : Kernel → Daemon × Kernel → Type 0
Settles k (d', k') = Grows k.at_path k'.at_path × AtPath k'.at_path d'

advance-Settles :
    (d : Daemon) (k : Kernel) → Lasting d → AtPath k.at_path d → Settles k (advance d k)
unfolding advance open_lock lock_file
advance-Settles starting k lasts h = elim (Option-cases k.at_path) [
  | inl e ↦ rw e (inr refl, refl)
  | inr (f, e) ↦ rw e (inl refl, refl)
]
advance-Settles (opened g) k lasts h = elim (Bool-cases (is_locked g k.locked)) [
  | inl e ↦ rw e (inl refl, tt)
  | inr e ↦ rw e (inl refl, h)
]
advance-Settles (running g) k lasts h = absurd lasts
advance-Settles unlocked k lasts h = absurd h
advance-Settles stopped k lasts h = (inl refl, tt)
advance-Settles lock_held k lasts h = (inl refl, tt)

crash-Settles : (d : Daemon) (k : Kernel) → AtPath k.at_path d → Settles k (crash d k)
unfolding crash
crash-Settles starting k h = (inl refl, tt)
crash-Settles (opened g) k h = (inl refl, tt)
crash-Settles (running g) k h = (inl refl, tt)
crash-Settles unlocked k h = absurd h
crash-Settles stopped k h = (inl refl, tt)
crash-Settles lock_held k h = (inl refl, tt)

settled_keeps :
    (k : Kernel) (before after : List Daemon) (d : Daemon) (out : Daemon × Kernel)
    → Placed (record { kernel = k; daemons = before ++ (d ∷ after) })
    → (AtPath k.at_path d → Settles k out)
    → Placed (record { kernel = out.1; daemons = before ++ (out.0 ∷ after) })
settled_keeps k before after d out inv settles =
    let (p, h, q) = All-split (AtPath k.at_path) before d after inv in
    let (grows, at) = settles h in
    let keep : (d' : Daemon) → AtPath k.at_path d' → AtPath out.1.at_path d' =
      λ d'. AtPath-Grows k.at_path out.1.at_path d' grows in
    All-append (AtPath out.1.at_path) before (out.0 ∷ after) (All-map keep before p)
      (at, All-map keep after q)

Placed-Step : (w v : World) → Placed w → Step Lasting w v → Placed v
Placed-Step _ _ inv (advances k before after d goes) =
    settled_keeps k before after d (advance d k) inv (advance-Settles d k goes)
Placed-Step _ _ inv (crashes k before after d) =
    settled_keeps k before after d (crash d k) inv (crash-Settles d k)
Placed-Step _ _ inv (launches k ds) = (tt, inv)

Reachable-Placed : (w : World) → Reachable Lasting w → Placed w
Reachable-Placed _ (at_boot k e) = tt
Reachable-Placed _ (next_step w v r s) = Placed-Step w v (Reachable-Placed w r) s

none_run :
    (path : Option ℕ) (ds : List Daemon)
    → path ≡ none
    → All (AtPath path) ds
    → running_daemons ds ≡ 0
none_run path [] e h = refl
none_run path (starting ∷ ds) e (h, hs) = omega (arith, none_run path ds e hs)
none_run path (opened f ∷ ds) e (h, hs) = cc
none_run path (running f ∷ ds) e (h, hs) = cc
none_run path (unlocked ∷ ds) e (h, hs) = absurd h
none_run path (stopped ∷ ds) e (h, hs) = omega (arith, none_run path ds e hs)
none_run path (lock_held ∷ ds) e (h, hs) = omega (arith, none_run path ds e hs)

All-on :
    (file : ℕ) (ds : List Daemon)
    → All (AtPath (some file)) ds
    → running_daemons ds ≡ running_on file ds
All-on file [] h = refl
All-on file (starting ∷ ds) (h, hs) = omega (arith, All-on file ds hs)
All-on file (opened f ∷ ds) (h, hs) = omega (arith, All-on file ds hs)
All-on file (running f ∷ ds) (h, hs) =
    let here : f ≡ file = sym (some_inj h) in
    rw ((==_iff f file).1 here) (ap (λ n. 1 + n) (All-on file ds hs))
All-on file (unlocked ∷ ds) (h, hs) = absurd h
All-on file (stopped ∷ ds) (h, hs) = omega (arith, All-on file ds hs)
All-on file (lock_held ∷ ds) (h, hs) = omega (arith, All-on file ds hs)

-- Where the daemons that run end by being killed and not by their `drop`, at most one daemon runs,
-- whatever the order of the calls, of starts and crashes.
pub single_instance : (w : World) → Reachable Lasting w → running_daemons w.daemons ≤ 1
single_instance w r =
    let placed = Reachable-Placed w r in
    elim (Option-cases w.kernel.at_path) [
      | inl e ↦ omega (arith, none_run w.kernel.at_path w.daemons e placed)
      | inr (file, e) ↦
          let same = All-on file w.daemons (subst (λ p. All (AtPath p) w.daemons) e placed) in
          omega (arith, same, one_daemon_per_file w file r)
    ]
