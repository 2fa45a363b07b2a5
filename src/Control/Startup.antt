-- ===== src/Control/Startup.antt =====
-- crates/invisibool-control/src/lifecycle.rs: the lock that lets one daemon run. The kernel has a file
-- at the path of the lock, or none, numbers the files that it makes, and knows which files are locked.
-- A daemon goes through `SingleInstanceLock::acquire` and the `drop` one system call at a time, so that
-- the daemons of a list interleave in every order. `open`, `flock` and `remove_file` themselves do not
-- fail.
pub mod Exclusive
pub mod Single
use in_visibool.Prelude.{
  ℕ, ◌==◌, if◌then◌else◌, any, ◌+◌, ◌≡◌, Bool, Option, none, some, List, [], ◌∷◌, ◌++◌,
}

pub record Kernel : Type 0 where
  pub at_path : Option ℕ
  pub next_file : ℕ
  pub locked : List ℕ

pub data Daemon : Type 0 where
  starting : Daemon
  opened : ℕ → Daemon
  running : ℕ → Daemon
  unlocked : Daemon
  stopped : Daemon
  lock_held : Daemon

abbrev pub is_locked : ℕ → List ℕ → Bool
is_locked file locked = any (λ f. f == file) locked

abbrev pub unlock : ℕ → List ℕ → List ℕ
unlock file [] = []
unlock file (f ∷ fs) = let rest = unlock file fs in if f == file then rest else f ∷ rest

-- `OpenOptions::new().create(true).truncate(false).write(true).open(&lock_path)`
unfoldable pub open_lock : Kernel → Daemon × Kernel
open_lock k = elim k.at_path [
  | some file ↦ (opened file, k)
  | none ↦
      (opened k.next_file, record k { at_path = some k.next_file; next_file = k.next_file + 1 })
]

-- `flock(fd, LOCK_EX | LOCK_NB)` and the branches on its result
unfoldable pub lock_file : ℕ → Kernel → Daemon × Kernel
lock_file file k =
    if is_locked file k.locked
    then (lock_held, k)
    else (running file, record k { locked = file ∷ k.locked })

-- `flock(fd, LOCK_UN)`, the first half of the `drop`
unfoldable pub release : ℕ → Kernel → Daemon × Kernel
release file k = (unlocked, record k { locked = unlock file k.locked })

-- `fs::remove_file(&self.path)`, the second half
unfoldable pub remove_lock : Kernel → Daemon × Kernel
remove_lock k = (stopped, record k { at_path = none })

-- The next call of a daemon.
unfoldable pub advance : Daemon → Kernel → Daemon × Kernel
advance starting k = open_lock k
advance (opened file) k = lock_file file k
advance (running file) k = release file k
advance unlocked k = remove_lock k
advance stopped k = (stopped, k)
advance lock_held k = (lock_held, k)

-- The kernel releases the locks of a process that dies.
unfoldable pub crash : Daemon → Kernel → Daemon × Kernel
crash (running file) k = (stopped, record k { locked = unlock file k.locked })
crash d k = (stopped, k)

pub record World : Type 0 where
  pub kernel : Kernel
  pub daemons : List Daemon

-- A step of one daemon, which stands between others. `Goes d` is asked of a daemon that makes its next
-- call.
pub data Step (Goes : Daemon → Type 0) : World → World → Type 0 where
  advances :
      (k : Kernel) (before after : List Daemon) (d : Daemon)
      → Goes d
      → Step Goes
          (record { kernel = k; daemons = before ++ (d ∷ after) })
          (record { kernel = (advance d k).1; daemons = before ++ ((advance d k).0 ∷ after) })
  crashes :
      (k : Kernel) (before after : List Daemon) (d : Daemon)
      → Step Goes
          (record { kernel = k; daemons = before ++ (d ∷ after) })
          (record { kernel = (crash d k).1; daemons = before ++ ((crash d k).0 ∷ after) })
  -- A user starts one more.
  launches :
      (k : Kernel) (ds : List Daemon)
      → Step Goes
          (record { kernel = k; daemons = ds })
          (record { kernel = k; daemons = starting ∷ ds })

pub data Reachable (Goes : Daemon → Type 0) : World → Type 0 where
  at_boot : (k : Kernel) → k.locked ≡ [] → Reachable Goes (record { kernel = k; daemons = [] })
  next_step : (w v : World) → Reachable Goes w → Step Goes w v → Reachable Goes v

-- Every daemon makes its next call.
abbrev pub Any : Daemon → Type 0
Any d = Unit

-- A daemon that runs does not shut down: it goes on until it is killed.
abbrev pub Lasting : Daemon → Type 0
Lasting (running file) = ⊥
Lasting d = Unit
