-- ===== src/Vault/Listed.antt =====
-- The parts of crates/invisibool-engine/src/vault/mod.rs that `list` shows, and vault/path.rs.
use in_visibool.Prelude.{
  if◌then◌else◌, Str, codes, join, is_absolute, Bool, true, false, Option, none, some, List, [],
  ◌∷◌, map,
}
use in_visibool.Tokenizer.Fpe.{SessionFakeKind}
use in_visibool.Vault.{fpe_entry, session_entry, VaultEntryKind, VaultEntry, Vault}

pub data EntryKindSummary : Type 0 where
  fpe_summary : Str → Str → EntryKindSummary
  session_summary : SessionFakeKind → EntryKindSummary

pub record EntryMetadata : Type 0 where
  pub label : Str
  pub kind : EntryKindSummary

unfoldable pub from_entry_kind : VaultEntryKind → EntryKindSummary
from_entry_kind (fpe_entry tweak prefix alphabet) = fpe_summary alphabet prefix
from_entry_kind (session_entry kind) = session_summary kind

abbrev pub metadata_of : VaultEntry → EntryMetadata
metadata_of e = record { label = e.label; kind = from_entry_kind e.entry_kind }

unfoldable pub list_metadata : Vault → List EntryMetadata
list_metadata v = map metadata_of v.contents.vault_entries

-- `Vault::is_empty`
abbrev pub no_entries : List VaultEntry → Bool
no_entries [] = true
no_entries (e ∷ es) = false

unfoldable pub vault_is_empty : Vault → Bool
vault_is_empty v = no_entries v.contents.vault_entries

-- path.rs; `PathBuf::join` with the separator of Unix
unfoldable pub home_vault_dir : Option Str → Option Str
home_vault_dir none = none
home_vault_dir (some h) =
    some (join (join (join h (codes ".local")) (codes "share")) (codes "invisibool"))

unfoldable pub linux_vault_dir : Option Str → Option Str → Option Str
linux_vault_dir none home = home_vault_dir home
linux_vault_dir (some xdg) home =
    if is_absolute xdg then some (join xdg (codes "invisibool")) else home_vault_dir home

unfoldable pub macos_vault_dir : Option Str → Option Str
macos_vault_dir home = elim home [
  | none ↦ none
  | some h ↦
      some
        (join (join (join h (codes "Library")) (codes "Application Support")) (codes "invisibool"))
]

-- `default_vault_path` on Linux; `var_os` is `std::env::var_os`.
unfoldable pub default_vault_path : (Str → Option Str) → Option Str
default_vault_path var_os =
    elim (linux_vault_dir (var_os (codes "XDG_DATA_HOME")) (var_os (codes "HOME"))) [
      | none ↦ none
      | some dir ↦ some (join dir (codes "vault.bin"))
    ]
