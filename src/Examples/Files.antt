-- ===== src/Examples/Files.antt =====
-- The theorems on the session file and the vault, at concrete contents.
use in_visibool.Prelude.{
  ℕ, some_inj, length, take, replicate, length-append, take-append, Str, codes, ret, ◌+◌, ◌-◌, ◌<◌,
  ◌≡◌, refl, sym, ap, ◌∙◌, subst, true, false, Option, none, some, List, [], ◌∷◌, ◌++◌, arith,
}
use in_visibool.Tokenizer.Fpe.{new_tokenizer}
use in_visibool.Engine.{register_one, register_all, new_engine, fpe_at, Engine}
use in_visibool.Engine.Linked.{IsLinked}
use in_visibool.Storage.{ok, err, Aead, AeadLaws, Json, JsonLaws}
use in_visibool.SessionFile.{
  build_session_aad, derive_session_aead_key, parse_session, decrypt_session_bytes,
  session_file_bytes, SessionPair, SessionContents, not_a_session_file,
}
use in_visibool.SessionFile.Sealed.{session_file_round_trip, decrypt_session_bytes_sound, IsSealed}
use in_visibool.Vault.{
  default_contents, resolve_alphabet, register, forget, registered_kind, entry_to_registered,
  collect_registered, registered_values, vault_aad, derive_aead_key, derive_mac_key, encrypt_vault,
  build_engine, fpe_entry, VaultEntry, VaultContents, Vault,
}
use in_visibool.Vault.Entries.{has_label, entry_named, DistinctLabels, register_lem, forget_lem}
use in_visibool.Vault.Opened.{vault_file_is_no_session_file}
use in_visibool.Vault.Built.{build_engine-IsLinked}
use in_visibool.Examples.{toy_crypto, toy_hashes, toy_tokenizer, toy_reg, toy_automata}

-- A cipher that only adds a tag.
abbrev pub toy_aead : Aead
toy_aead = record {
  encrypt = λ key nonce aad msg. some (msg ++ replicate 16 0);
  decrypt = λ key nonce aad ct. some (take (length ct - 16) ct);
}

untag : (msg : Str) → take (length (msg ++ replicate 16 0) - 16) (msg ++ replicate 16 0) ≡ msg
untag msg =
    let size = length-append msg (replicate 16 0) in
    let same : length (msg ++ replicate 16 0) - 16 ≡ length msg = omega arith in
    ap (λ n. take n (msg ++ replicate 16 0)) same ∙ take-append msg (replicate 16 0)

pub toy_aead_laws : AeadLaws toy_aead
toy_aead_laws = record {
  encrypts = λ key nonce aad msg h h' h''. (msg ++ replicate 16 0, refl);
  decrypt-encrypt = λ key nonce aad msg ct h.
      subst (λ s. some (take (length s - 16) s) ≡ some msg) (some_inj h) (ap some (untag msg));
  length-encrypt = λ key nonce aad msg ct h.
      subst (λ s. length s ≡ length msg + 16) (some_inj h) (length-append msg (replicate 16 0));
}

-- A format that can write contents without entries only.
abbrev to_numbers : ℕ → ℕ → ℕ → List SessionPair → Option Str
to_numbers version created expires [] = some (version ∷ created ∷ expires ∷ [])
to_numbers version created expires (p ∷ ps) = none

abbrev from_numbers : Str → Option SessionContents
from_numbers (version ∷ created ∷ expires ∷ []) =
    some
      (record { schema_version = version; created_at = created; expires_at = expires; pairs = [] })
from_numbers _ = none

abbrev pub toy_json : Json SessionContents
toy_json = record {
  to_vec = λ x. to_numbers x.schema_version x.created_at x.expires_at x.pairs;
  from_slice = from_numbers;
}

from_numbers-to_numbers :
    (version created expires : ℕ) (ps : List SessionPair) (s : Str)
    → to_numbers version created expires ps ≡ some s
    → from_numbers s
      ≡ some (record {
        schema_version = version;
        created_at = created;
        expires_at = expires;
        pairs = ps;
      })
from_numbers-to_numbers version created expires [] s h = ap from_numbers (sym (some_inj h))
from_numbers-to_numbers version created expires (p ∷ ps) s h = cc

toy_json_laws : JsonLaws toy_json
toy_json_laws = record {
  from_slice-to_vec =
      λ x s. from_numbers-to_numbers x.schema_version x.created_at x.expires_at x.pairs s;
}

abbrev pub toy_contents : SessionContents
toy_contents = record { schema_version = 1; created_at = 50; expires_at = 200; pairs = [] }

abbrev pub toy_nonce : Str
toy_nonce = replicate 24 9

session_file_round_trip_example :
    (file : Str) × (session_file_bytes toy_crypto toy_aead toy_json toy_nonce
        (codes "vault key")
        toy_contents
      ≡ ret (ok file))
    × (decrypt_session_bytes toy_crypto toy_aead toy_json (codes "vault key") file 100
        ≡ ret (ok toy_contents))
session_file_round_trip_example =
    session_file_round_trip toy_crypto toy_hashes toy_aead toy_json toy_aead_laws toy_json_laws
      toy_nonce (codes "vault key") toy_contents 100 refl refl (omega arith) (omega arith)

abbrev pub toy_file : Str
toy_file = build_session_aad ++ (toy_nonce ++ ((1 ∷ 50 ∷ 200 ∷ []) ++ replicate 16 0))

toy_read :
    decrypt_session_bytes toy_crypto toy_aead toy_json (codes "vault key") toy_file 100
    ≡ ret (ok toy_contents)
unfolding decrypt_session_bytes derive_session_aead_key parse_session
toy_read = refl

decrypt_session_bytes_sound_example :
    IsSealed toy_crypto toy_aead toy_json (codes "vault key") toy_file toy_contents
    × (100 < toy_contents.expires_at)
decrypt_session_bytes_sound_example =
    decrypt_session_bytes_sound toy_crypto toy_hashes toy_aead toy_json (codes "vault key") toy_file
      100 toy_read

abbrev toy_entry : VaultEntry
toy_entry = record {
  label = codes "key";
  value = codes "k-0123456";
  entry_kind = fpe_entry (replicate 16 0) (codes "k-") (codes "DIGITS");
}

abbrev pub toy_vault : Vault
toy_vault = record {
  vault_key = codes "vault key";
  contents = record { vault_schema = 1; vault_entries = toy_entry ∷ [] };
}

abbrev pub empty_vault : Vault
empty_vault = record { vault_key = codes "vault key"; contents = default_contents }

register_lem_example :
    DistinctLabels (register toy_vault toy_entry).contents.vault_entries
    × (entry_named (codes "key") (register toy_vault toy_entry).contents.vault_entries
        ≡ some toy_entry)
    × (entry_named (codes "pin") (register toy_vault toy_entry).contents.vault_entries ≡ none)
register_lem_example = register_lem toy_vault toy_entry (codes "pin") (refl, tt) refl

forget_lem_example :
    ((forget toy_vault (codes "key")).1 ≡ true)
    × (has_label (codes "key") (forget toy_vault (codes "key")).0.contents.vault_entries ≡ false)
    × DistinctLabels (forget toy_vault (codes "key")).0.contents.vault_entries
    × (entry_named (codes "pin") (forget toy_vault (codes "key")).0.contents.vault_entries ≡ none)
forget_lem_example = forget_lem toy_vault (codes "key") (codes "pin") (refl, tt) refl

abbrev vault_to_numbers : ℕ → List VaultEntry → Option Str
vault_to_numbers version [] = some (version ∷ [])
vault_to_numbers version (e ∷ es) = none

abbrev vault_from_numbers : Str → Option VaultContents
vault_from_numbers (version ∷ []) = some (record { vault_schema = version; vault_entries = [] })
vault_from_numbers _ = none

abbrev pub vault_json : Json VaultContents
vault_json = record {
  to_vec = λ x. vault_to_numbers x.vault_schema x.vault_entries;
  from_slice = vault_from_numbers;
}

vault_from_numbers-vault_to_numbers :
    (version : ℕ) (es : List VaultEntry) (s : Str)
    → vault_to_numbers version es ≡ some s
    → vault_from_numbers s ≡ some (record { vault_schema = version; vault_entries = es })
vault_from_numbers-vault_to_numbers version [] s h = ap vault_from_numbers (sym (some_inj h))
vault_from_numbers-vault_to_numbers version (e ∷ es) s h = cc

pub vault_json_laws : JsonLaws vault_json
vault_json_laws = record {
  from_slice-to_vec = λ x s. vault_from_numbers-vault_to_numbers x.vault_schema x.vault_entries s;
}

toy_encrypted :
    encrypt_vault toy_crypto toy_aead toy_nonce (codes "vault key") (1 ∷ [])
    ≡ ret (ok (vault_aad ++ (toy_nonce ++ ((1 ∷ []) ++ replicate 16 0))))
unfolding encrypt_vault derive_aead_key
toy_encrypted = refl

vault_file_is_no_session_file_example :
    decrypt_session_bytes toy_crypto toy_aead toy_json
      (codes "other")
      (vault_aad ++ (toy_nonce ++ ((1 ∷ []) ++ replicate 16 0)))
      100
    ≡ ret (err not_a_session_file)
vault_file_is_no_session_file_example =
    vault_file_is_no_session_file toy_crypto toy_hashes toy_aead toy_aead_laws toy_json toy_nonce
      (codes "vault key") (codes "other") (1 ∷ []) 100 refl toy_encrypted

abbrev built_engine : Engine
built_engine = record {
  fpe_tokenizer = toy_tokenizer;
  fpe_registered = toy_reg ∷ [];
  session_registered = [];
  retired = [];
  values = codes "k-0123456" ∷ [];
  session_mac_key = replicate 32 0;
  value_id_to_ref = fpe_at 0 ∷ [];
}

toy_build : build_engine toy_automata toy_crypto toy_vault ≡ ret (ok built_engine)
unfolding build_engine registered_values collect_registered entry_to_registered registered_kind
    resolve_alphabet derive_mac_key new_engine register_all register_one new_tokenizer
toy_build = refl

build_engine-IsLinked_example :
    (built_engine.values ≡ codes "k-0123456" ∷ []) × IsLinked built_engine
build_engine-IsLinked_example = build_engine-IsLinked toy_automata toy_crypto toy_vault toy_build
