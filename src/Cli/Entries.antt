-- ===== src/Cli/Entries.antt =====
-- crates/invisibool/src/cli/commands.rs: `register`, `forget` and `list`.
use in_visibool.Cli.{
  ◌>>=◌, ◌>>◌, registered_formatless, no_entries_line, entry_line, Command, exit, say, complain,
  open_vault_cmd, save_vault_cmd, Line, already_registered, registered_line, forgotten_line,
  no_such_entry, System,
}
use in_visibool.Prelude.{
  ℕ, ltb, ◌==◌, if◌then◌else◌, Str, codes, ret, Bool, true, false, ◌&&◌, ◌||◌, List, [], ◌∷◌, ◌++◌,
}
use in_visibool.Tokenizer.Alphabet.{base62}
use in_visibool.Tokenizer.Crypto.{Crypto}
use in_visibool.Tokenizer.Fpe.{check_eligibility, formatless, Eligibility, eligible, ineligible}
use in_visibool.Detection.{sort_by}
use in_visibool.Storage.{ok, Aead, Json}
use in_visibool.Keychain.{Backend}
use in_visibool.Vault.{
  register, forget, VaultEntryKind, fpe_entry, session_entry, VaultContents, Vault,
}
use in_visibool.Vault.Entries.{has_label}
use in_visibool.Vault.Listed.{list_metadata, EntryMetadata}

-- The order of `str`: bytes in their order, a prefix first.
abbrev pub str_leb : Str → Str → Bool
str_leb [] t = true
str_leb (x ∷ s) [] = false
str_leb (x ∷ s) (y ∷ t) = ltb x y || (x == y && str_leb s t)

abbrev pub label_before : EntryMetadata → EntryMetadata → Bool
label_before m n = str_leb m.label n.label

module _ (c : Crypto) (a : Aead) (j : Json VaultContents) {S : Type 0} (b : Backend S)
    (sys : System) where
  abbrev pub kind_of_entry : Eligibility → VaultEntryKind
  kind_of_entry eligible = fpe_entry sys.tweak [] (codes "BASE62")
  kind_of_entry (ineligible reason) = session_entry formatless

  abbrev pub disclose : Str → Eligibility → Command S (Unit {0})
  disclose label eligible w = ret (ok tt, w)
  disclose label (ineligible reason) w = complain (registered_formatless label reason) w

  unfoldable pub register_new : Str → Str → Vault → Command S ℕ
  register_new label value v = do
    let found = check_eligibility value [] base62
    disclose label found
    save_vault_cmd c a j b sys
        (register v (record { label = label; value = value; entry_kind = kind_of_entry found }))
    say (registered_line label)
    exit 0

  -- `register`
  unfoldable pub register_cmd : Str → Str → Command S ℕ
  register_cmd label value = do
    v ← open_vault_cmd c a j b sys
    if has_label label v.contents.vault_entries
        then complain (already_registered label) >> exit 5
        else register_new label value v

  unfoldable pub forget_result : Str → Vault × Bool → Command S ℕ
  forget_result label (v, true) = do
    save_vault_cmd c a j b sys v
    say (forgotten_line label)
    exit 0
  forget_result label (v, false) = do complain (no_such_entry label); exit 4

  -- `forget`
  unfoldable pub forget_cmd : Str → Command S ℕ
  forget_cmd label = do v ← open_vault_cmd c a j b sys; forget_result label (forget v label)

  abbrev pub entry_lines : List EntryMetadata → List Line
  entry_lines [] = []
  entry_lines (m ∷ ms) = entry_line m.label m.kind ∷ entry_lines ms

  abbrev pub say_all : List Line → Command S (Unit {0})
  say_all lines w = ret (ok tt, record w { out = w.out ++ lines })

  abbrev pub listing_of : List EntryMetadata → List Line
  listing_of [] = no_entries_line ∷ []
  listing_of (m ∷ ms) = entry_lines (m ∷ ms)

  -- `list`
  unfoldable pub list_cmd : Command S ℕ
  list_cmd = do
    v ← open_vault_cmd c a j b sys
    say_all (listing_of (sort_by label_before (list_metadata v)))
    exit 0
