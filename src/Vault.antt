-- ===== src/Vault.antt =====
-- crates/invisibool-engine/src/vault/mod.rs and crates/invisibool-engine/src/vault/format.rs: the
-- registered entries, the encrypted file, and the engine that is built from them.
pub mod Entries
pub mod Opened
pub mod Built
pub mod Saved
pub mod Kept
pub mod Listed
use in_visibool.Prelude.{
  ℕ, ltb, ◌==◌, if◌then◌else◌, length, get_elem?, take, push, Str, codes, str_eq, ◌>>=◌, expect,
  Run, ret, ◌+◌, Bool, not, Option, none, some, List, [], ◌∷◌, ◌++◌, map,
}
use in_visibool.Tokenizer.Alphabet.{
  base62, base32, hex_lower, hex_upper, digits, alpha_lower, alpha_upper, base36_lower, Alphabet,
  valid,
}
use in_visibool.Tokenizer.Crypto.{Crypto}
use in_visibool.Tokenizer.Fpe.{SessionFakeKind, RegisteredValue, fpe, session_mapped, failed}
use in_visibool.Detection.{Automata}
use in_visibool.Engine.{new_engine, Engine, built, exact_matcher_failed}
use in_visibool.Keychain.{KeychainError}
use in_visibool.Disk.{AtomicWriteError}
use in_visibool.Storage.{
  aad_len, nonce_len, tag_len, aad_of, nonce_of, ciphertext_of, Result, ok, err, IoError,
  other_error, Aead, Json,
}

pub data VaultEntryKind : Type 0 where
  fpe_entry : Str → Str → Str → VaultEntryKind
  session_entry : SessionFakeKind → VaultEntryKind

pub record VaultEntry : Type 0 where
  pub label : Str
  pub value : Str
  pub entry_kind : VaultEntryKind

pub record VaultContents : Type 0 where
  pub vault_schema : ℕ
  pub vault_entries : List VaultEntry

-- `VaultContents::default`
abbrev pub default_contents : VaultContents
default_contents = record { vault_schema = 1; vault_entries = [] }

pub data VaultError : Type 0 where
  bad_magic truncated_vault vault_aead_failed vault_serde_failed : VaultError
  vault_write_failed : AtomicWriteError → VaultError
  keychain_failed : KeychainError → VaultError
  vault_io_failed : IoError → VaultError
  unsupported_vault : ℕ → VaultError
  unknown_alphabet : Str → VaultError

pub record Vault : Type 0 where
  pub vault_key : Str
  pub contents : VaultContents

-- The alphabets by their names.
abbrev pub named_alphabets : List (Str × Alphabet)
named_alphabets =
    (codes "BASE62", base62)
    ∷ (codes "BASE32", base32)
    ∷ (codes "HEX_LOWER", hex_lower)
    ∷ (codes "HEX_UPPER", hex_upper)
    ∷ (codes "DIGITS", digits)
    ∷ (codes "ALPHA_LOWER", alpha_lower)
    ∷ (codes "ALPHA_UPPER", alpha_upper)
    ∷ (codes "BASE36_LOWER", base36_lower)
    ∷ []

abbrev pub resolve_in : Str → List (Str × Alphabet) → Option Alphabet
resolve_in name [] = none
resolve_in name ((known, a) ∷ rest) = if str_eq name known then some a else resolve_in name rest

unfoldable pub resolve_alphabet : Str → Option Alphabet
resolve_alphabet name = resolve_in name named_alphabets

-- `retain(|e| e.label != label)`
unfoldable pub retain_other : Str → List VaultEntry → List VaultEntry
retain_other label [] = []
retain_other label (e ∷ es) =
    let rest = retain_other label es in if str_eq e.label label then rest else e ∷ rest

abbrev pub with_entries : Vault → List VaultEntry → Vault
with_entries v es = record v { contents = record v.contents { vault_entries = es } }

unfoldable pub register : Vault → VaultEntry → Vault
register v entry = with_entries v (push (retain_other entry.label v.contents.vault_entries) entry)

unfoldable pub forget : Vault → Str → Vault × Bool
forget v label =
    let kept = retain_other label v.contents.vault_entries in
    (with_entries v kept, not (length v.contents.vault_entries == length kept))

pub labels : Vault → List Str
labels v = map (λ (e : VaultEntry). e.label) v.contents.vault_entries

-- The arms of `match &entry.entry_kind`.
unfoldable pub registered_kind : VaultEntry → VaultEntryKind → Result VaultError RegisteredValue
registered_kind entry (fpe_entry tweak prefix alphabet) = elim (resolve_alphabet alphabet) [
  | none ↦ err (unknown_alphabet alphabet)
  | some a ↦ ok (
      fpe (record {
        label = entry.label;
        value = entry.value;
        tweak = tweak;
        alphabet = a;
        prefix = prefix;
      }))
]
registered_kind entry (session_entry kind) =
    ok (session_mapped (record { label = entry.label; value = entry.value; kind = kind }))

unfoldable pub entry_to_registered : VaultEntry → Result VaultError RegisteredValue
entry_to_registered entry = registered_kind entry entry.entry_kind

-- `collect` stops at the first error.
unfoldable pub collect_registered : List VaultEntry → Result VaultError (List RegisteredValue)
collect_registered [] = ok []
collect_registered (e ∷ es) =
    let rest = collect_registered es in
    elim (entry_to_registered e) [
      | err problem ↦ err problem
      | ok r ↦ elim rest [ err problem ↦ err problem | ok rs ↦ ok (r ∷ rs) ]
    ]

unfoldable pub registered_values : Vault → Result VaultError (List RegisteredValue)
registered_values v = collect_registered v.contents.vault_entries

abbrev pub vault_magic : Str
vault_magic = codes "INVISIBOOL_VAULT"

-- Magic, version 1 and the reserved bytes.
abbrev pub vault_aad : Str
vault_aad = vault_magic ++ (1 ∷ 0 ∷ 0 ∷ 0 ∷ [])

module _ (c : Crypto) where
  unfoldable pub derive_aead_key : Str → Run Str
  derive_aead_key vault_key = expect (c.hkdf vault_key (codes "invisibool-vault-aead-v1") 32)

  unfoldable pub derive_mac_key : Str → Run Str
  derive_mac_key vault_key = expect (c.hkdf vault_key (codes "invisibool-mac-key-v1") 32)

module _ (c : Crypto) (a : Aead) where
  -- With the nonce that the operating system gives.
  unfoldable pub encrypt_vault : Str → Str → Str → Run (Result VaultError Str)
  encrypt_vault nonce vault_key plaintext = do
    key ← derive_aead_key c vault_key
    ret (elim (a.encrypt key nonce vault_aad plaintext) [
      | none ↦ err (
          vault_io_failed
            (other_error (codes "AEAD encrypt failed (should not happen for valid inputs)")))
      | some ct ↦ ok (vault_aad ++ (nonce ++ ct))
    ])

module _ (c : Crypto) (a : Aead) (j : Json VaultContents) where
  unfoldable pub parse_vault : Option Str → Result VaultError VaultContents
  parse_vault none = err vault_aead_failed
  parse_vault (some plaintext) = elim (j.from_slice plaintext) [
    | none ↦ err vault_serde_failed
    | some found ↦ ok found
  ]

  unfoldable pub decrypt_vault : Str → Str → Run (Result VaultError VaultContents)
  decrypt_vault vault_key file =
      if ltb (length file) (aad_len + nonce_len + tag_len)
      then ret (err truncated_vault)
      else if not (str_eq (take 16 file) vault_magic)
      then ret (err bad_magic)
      else (do
        version ← expect (get_elem? file 16)
        if not (version == 1) then ret (err (unsupported_vault version)) else do
          key ← derive_aead_key c vault_key
          ret (parse_vault (a.decrypt key (nonce_of file) (aad_of file) (ciphertext_of file))))

  -- The bytes that `Vault::save` hands to `write_atomic`.
  unfoldable pub vault_file_bytes : Str → Vault → Run (Result VaultError Str)
  vault_file_bytes nonce v = elim (j.to_vec v.contents) [
    | none ↦ ret (err vault_serde_failed)
    | some plaintext ↦ encrypt_vault c a nonce v.vault_key plaintext
  ]

  -- `Vault::open`, from the fetched key and from what `read_if_exists` gives.
  unfoldable pub open_vault : Str → Option Str → Run (Result VaultError Vault)
  open_vault key none = ret (ok (record { vault_key = key; contents = default_contents }))
  open_vault key (some file) = do
    result ← decrypt_vault key file
    ret (elim result [
      | err e ↦ err e
      | ok found ↦ ok (record { vault_key = key; contents = found })
    ])

module _ (ac : Automata) (c : Crypto) where
  unfoldable pub build_engine : Vault → Run (Result VaultError Engine)
  build_engine v = elim (registered_values v) [
    | err e ↦ ret (err e)
    | ok registered ↦ (do
      mac_key ← derive_mac_key c v.vault_key
      result ← new_engine ac c v.vault_key registered [] mac_key
      ret (elim result [
        | built e ↦ ok e
        | exact_matcher_failed ↦ err (vault_io_failed (other_error (codes "engine build failed")))
      ]))
  ]
