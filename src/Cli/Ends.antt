-- ===== src/Cli/Ends.antt =====
-- How a command of crates/invisibool/src/cli/commands.rs ends: its exit code and its last complaint.
use in_visibool.Cli.{Command, cmd_then, CommandError, Line, World}
use in_visibool.Prelude.{
  ℕ, if◌then◌else◌, Bool-cases, push, Str, str_eq, str_eq_iff, Run, ret, panic, ◌≡◌, refl, ◌⊎◌, inl,
  inr, Bool, true, false, List, [], ◌∷◌, arith,
}
use in_visibool.Storage.{Result, ok, err}
use in_visibool.Vault.{VaultEntry}
use in_visibool.Vault.Entries.{has_label}
use in_visibool.Cli.Complaints.{Noted, Registered, Keeps}

-- An end with code 0 and notes only, where `good` holds, or with one complaint after them, of which
-- `bad` says what its code must be.
abbrev pub Ends : Type 0 → (Line → ℕ → Type 0) → List Line → ℕ → List Line → Type 0
Ends good bad before code after =
    ((code ≡ 0) × good × Noted before after)
    ⊎ ((said : List Line) × (line : Line) × Noted before said
        × (after ≡ push said line)
        × bad line code)

abbrev pub Exits :
    {S : Type 0}
    → Type 0
    → (Line → ℕ → Type 0)
    → List Line
    → Run (Result CommandError ℕ × World S)
    → Type 0
Exits good bad before panic = Unit
Exits good bad before (ret (err e, w)) = Noted before w.errors
Exits good bad before (ret (ok n, w)) = Ends good bad before n w.errors

pub Registered-has_label :
    (label : Str) (es : List VaultEntry) → has_label label es ≡ true → Registered label es
Registered-has_label label [] h = absurd (cc)
Registered-has_label label (e ∷ es) h = elim (Bool-cases (str_eq e.label label)) [
  | inl same ↦ inl ((str_eq_iff e.label label).0 same)
  | inr other ↦ inr (Registered-has_label label es (ground arith))
]

has_label-Registered :
    (label : Str) (es : List VaultEntry) → Registered label es → has_label label es ≡ true
has_label-Registered label [] h = absurd h
has_label-Registered label (e ∷ es) (inl same) = rw ((str_eq_iff e.label label).1 same) refl
has_label-Registered label (e ∷ es) (inr h) = ground (arith, has_label-Registered label es h)

pub not-Registered :
    (label : Str) (es : List VaultEntry) → has_label label es ≡ false → ¬ Registered label es
not-Registered label es h r = absurd (let there = has_label-Registered label es r in cc)

module _ {S : Type 0} (good : Type 0) (bad : Line → ℕ → Type 0) (before : List Line) where
  pub Exits-then :
      {A : Type 0} (m : Run (Result CommandError A × World S)) (k : A → Command S ℕ)
      → Keeps before m
      → ((x : A) (w : World S)
          → m ≡ ret (ok x, w)
          → Noted before w.errors
          → Exits good bad before (k x w))
      → Exits good bad before (cmd_then m k)
  Exits-then panic k h g = tt
  Exits-then (ret (err e, w)) k h g = h
  Exits-then (ret (ok x, w)) k h g = g x w refl h

  pub Exits-if :
      (t : Bool) (m k : Command S ℕ) (w : World S)
      → (t ≡ true → Exits good bad before (m w))
      → (t ≡ false → Exits good bad before (k w))
      → Exits good bad before ((if t then m else k) w)
  Exits-if true m k w h h' = h refl
  Exits-if false m k w h h' = h' refl
