-- ===== src/Vault/Entries.antt =====
-- What `register` and `forget` do to the entries.
use in_visibool.Prelude.{
  ◌==◌, if◌then◌else◌, Bool-cases, length, push, Str, str_eq, str_eq_iff, str_eq_refl,
  str_eq-false_sym, ◌≤◌, ◌≡◌, refl, sym, ap, ◌∙◌, subst, inl, inr, Bool, false, not, ◌||◌, Option,
  none, some, List, [], ◌∷◌, arith,
}
use in_visibool.Vault.{retain_other, register, forget, VaultEntry, Vault}

-- Is the label registered, and with which entry?
abbrev pub has_label : Str → List VaultEntry → Bool
has_label label [] = false
has_label label (e ∷ es) = str_eq e.label label || has_label label es

abbrev pub entry_named : Str → List VaultEntry → Option VaultEntry
entry_named label [] = none
entry_named label (e ∷ es) = if str_eq e.label label then some e else entry_named label es

-- No two entries have the same label.
abbrev pub DistinctLabels : List VaultEntry → Type 0
DistinctLabels [] = Unit {0}
DistinctLabels (e ∷ es) = (has_label e.label es ≡ false) × DistinctLabels es

retain_other-has_label :
    (label : Str) (es : List VaultEntry) → has_label label (retain_other label es) ≡ false
unfolding retain_other
retain_other-has_label label [] = refl
retain_other-has_label label (e ∷ es) = elim (Bool-cases (str_eq e.label label)) [
  | inl same ↦ rw same (retain_other-has_label label es)
  | inr other ↦ rw (other, other) (retain_other-has_label label es)
]

-- Removing entries registers no label.
retain_other_fresh :
    (label other : Str) (es : List VaultEntry)
    → has_label other es ≡ false
    → has_label other (retain_other label es) ≡ false
unfolding retain_other
retain_other_fresh label other [] h = refl
retain_other_fresh label other (e ∷ es) h = elim (Bool-cases (str_eq e.label label)) [
  | inl same ↦ rw same (retain_other_fresh label other es (ground arith))
  | inr differs ↦ rw differs (ground (arith, retain_other_fresh label other es))
]

DistinctLabels-retain_other :
    (label : Str) (es : List VaultEntry)
    → DistinctLabels es
    → DistinctLabels (retain_other label es)
unfolding retain_other
DistinctLabels-retain_other label [] h = tt
DistinctLabels-retain_other label (e ∷ es) (new, h) = elim (Bool-cases (str_eq e.label label)) [
  | inl same ↦ rw same (DistinctLabels-retain_other label es h)
  | inr differs ↦
      rw differs (retain_other_fresh label e.label es new, DistinctLabels-retain_other label es h)
]

has_label-push :
    (other : Str) (es : List VaultEntry) (entry : VaultEntry)
    → has_label other (push es entry) ≡ (has_label other es || str_eq entry.label other)
has_label-push other [] entry = ground arith
has_label-push other (e ∷ es) entry = ground (arith, has_label-push other es entry)

DistinctLabels-push :
    (es : List VaultEntry) (entry : VaultEntry)
    → DistinctLabels es
    → has_label entry.label es ≡ false
    → DistinctLabels (push es entry)
DistinctLabels-push [] entry h new = (refl, tt)
DistinctLabels-push (e ∷ es) entry (he, h) new =
    let differs = str_eq-false_sym e.label entry.label (ground arith) in
    (
      rw (has_label-push e.label es entry, he, differs) refl,
      DistinctLabels-push es entry h (ground arith),
    )

length-retain_other :
    (label : Str) (es : List VaultEntry)
    → (length (retain_other label es) ≤ length es)
      × ((length es == length (retain_other label es)) ≡ not (has_label label es))
unfolding retain_other
length-retain_other label [] = (omega arith, refl)
length-retain_other label (e ∷ es) = elim (Bool-cases (str_eq e.label label)) [
  | inl same ↦ let (le, eq) = length-retain_other label es in rw same (omega arith, ground arith)
  | inr differs ↦
      let (le, eq) = length-retain_other label es in rw differs (omega arith, ground arith)
]

entry_named-retain_other :
    (label other : Str) (es : List VaultEntry)
    → str_eq label other ≡ false
    → entry_named other (retain_other label es) ≡ entry_named other es
unfolding retain_other
entry_named-retain_other label other [] h = refl
entry_named-retain_other label other (e ∷ es) h = elim (Bool-cases (str_eq e.label label)) [
  | inl same ↦
      let unnamed : str_eq e.label other ≡ false =
        subst (λ l. str_eq l other ≡ false) (sym ((str_eq_iff e.label label).0 same)) h in
      rw (same, unnamed) (entry_named-retain_other label other es h)
  | inr differs ↦ rw differs (
      ap (λ o. if str_eq e.label other then some e else o)
        (entry_named-retain_other label other es h))
]

entry_named-push_other :
    (other : Str) (es : List VaultEntry) (entry : VaultEntry)
    → str_eq entry.label other ≡ false
    → entry_named other (push es entry) ≡ entry_named other es
entry_named-push_other other [] entry h = rw h refl
entry_named-push_other other (e ∷ es) entry h =
    ground (arith, entry_named-push_other other es entry)

entry_named-push :
    (es : List VaultEntry) (entry : VaultEntry)
    → has_label entry.label es ≡ false
    → entry_named entry.label (push es entry) ≡ some entry
entry_named-push [] entry h = rw (str_eq_refl entry.label) refl
entry_named-push (e ∷ es) entry h = ground (arith, entry_named-push es entry)

-- `register` keeps the labels distinct, replaces what its label had, and leaves every other label's
-- entry as it was.
pub register_lem :
    (v : Vault) (entry : VaultEntry) (other : Str)
    → DistinctLabels v.contents.vault_entries
    → str_eq entry.label other ≡ false
    → DistinctLabels (register v entry).contents.vault_entries
      × (entry_named entry.label (register v entry).contents.vault_entries ≡ some entry)
      × (entry_named other (register v entry).contents.vault_entries
          ≡ entry_named other v.contents.vault_entries)
unfolding register
register_lem v entry other d h =
    let kept = retain_other entry.label v.contents.vault_entries in
    let gone = retain_other-has_label entry.label v.contents.vault_entries in
    (
      DistinctLabels-push kept entry
          (DistinctLabels-retain_other entry.label v.contents.vault_entries d) gone,
      entry_named-push kept entry gone,
      entry_named-push_other other kept entry h
          ∙ entry_named-retain_other entry.label other v.contents.vault_entries h,
    )

pub forget-has_label :
    (v : Vault) (label : Str) → (forget v label).1 ≡ has_label label v.contents.vault_entries
unfolding forget
forget-has_label v label =
    let (le, eq) = length-retain_other label v.contents.vault_entries in ground arith

-- `forget` says whether the label was registered, removes it, keeps the labels distinct, and leaves
-- every other label's entry as it was.
pub forget_lem :
    (v : Vault) (label other : Str)
    → DistinctLabels v.contents.vault_entries
    → str_eq label other ≡ false
    → ((forget v label).1 ≡ has_label label v.contents.vault_entries)
      × (has_label label (forget v label).0.contents.vault_entries ≡ false)
      × DistinctLabels (forget v label).0.contents.vault_entries
      × (entry_named other (forget v label).0.contents.vault_entries
          ≡ entry_named other v.contents.vault_entries)
unfolding forget
forget_lem v label other d h =
    let es = v.contents.vault_entries in
    (
      forget-has_label v label,
      retain_other-has_label label es,
      DistinctLabels-retain_other label es d,
      entry_named-retain_other label other es h,
    )
