-- ===== src/SessionFile.antt =====
-- crates/invisibool-engine/src/session_file.rs: the encrypted session file, its layout and its guards.
pub mod Sealed
pub mod Disk
use in_visibool.Prelude.{
  ℕ, ltb, leb, ◌==◌, if◌then◌else◌, length, get_elem?, take, Str, codes, str_eq, ◌>>=◌, expect, Run,
  ret, ◌+◌, ◌-◌, ◌^◌, min, not, Option, none, some, List, [], ◌∷◌, ◌++◌,
}
use in_visibool.Tokenizer.Crypto.{Crypto}
use in_visibool.Storage.{
  aad_len, nonce_len, tag_len, aad_of, nonce_of, ciphertext_of, Result, ok, err, Aead, Json,
}

pub record SessionPair : Type 0 where
  pub fake_text : Str
  pub real_text : Str

pub record SessionContents : Type 0 where
  pub schema_version : ℕ
  pub created_at : ℕ
  pub expires_at : ℕ
  pub pairs : List SessionPair

-- `SessionContents::new_at`, in 64 bits.
abbrev pub session_ttl_secs : ℕ
session_ttl_secs = 1800

pub new_at : ℕ → SessionContents
new_at now_epoch = record {
  schema_version = 1;
  created_at = now_epoch;
  expires_at = min (now_epoch + session_ttl_secs) (2 ^ 64 - 1);
  pairs = [];
}

pub data SessionFileError : Type 0 where
  io_failed atomic_write_failed not_a_session_file truncated_session aead_failed serde_failed :
      SessionFileError
  unsupported_session expired_at : ℕ → SessionFileError

abbrev pub session_magic : Str
session_magic = codes "INVISIBOOL_SESSN"

abbrev pub session_info : Str
session_info = codes "invisibool-session-aead-v1"

-- Magic, version 1 and the reserved bytes.
abbrev pub build_session_aad : Str
build_session_aad = session_magic ++ (1 ∷ 0 ∷ 0 ∷ 0 ∷ [])

module _ (c : Crypto) (a : Aead) where
  unfoldable pub derive_session_aead_key : Str → Run Str
  derive_session_aead_key vault_key = expect (c.hkdf vault_key session_info 32)

  -- With the nonce that the operating system gives.
  pub encrypt_session_bytes : Str → Str → Str → Run (Result SessionFileError Str)
  encrypt_session_bytes nonce vault_key plaintext = do
    key ← derive_session_aead_key vault_key
    ret (elim (a.encrypt key nonce build_session_aad plaintext) [
      | none ↦ err aead_failed
      | some ct ↦ ok (build_session_aad ++ (nonce ++ ct))
    ])

module _ (c : Crypto) (a : Aead) (j : Json SessionContents) where
  -- The plaintext, parsed, and the check of its expiry.
  unfoldable pub parse_session : ℕ → Option Str → Result SessionFileError SessionContents
  parse_session now_epoch none = err aead_failed
  parse_session now_epoch (some plaintext) = elim (j.from_slice plaintext) [
    | none ↦ err serde_failed
    | some contents ↦
        if leb contents.expires_at now_epoch
        then err (expired_at contents.expires_at)
        else ok contents
  ]

  unfoldable pub decrypt_session_bytes :
      Str → Str → ℕ → Run (Result SessionFileError SessionContents)
  decrypt_session_bytes vault_key file now_epoch =
      if ltb (length file) (aad_len + nonce_len + tag_len)
      then ret (err truncated_session)
      else if not (str_eq (take 16 file) session_magic)
      then ret (err not_a_session_file)
      else (do
        version ← expect (get_elem? file 16)
        if not (version == 1) then ret (err (unsupported_session version)) else do
          key ← derive_session_aead_key c a vault_key
          ret (
              parse_session now_epoch
                (a.decrypt key (nonce_of file) (aad_of file) (ciphertext_of file))))

  -- `load_session_file`, from what `read_if_exists` gives.
  unfoldable pub load_session_file :
      Result SessionFileError (Option Str)
      → Str
      → ℕ
      → Run (Result SessionFileError (Option SessionContents))
  load_session_file (err e) vault_key now_epoch = ret (err e)
  load_session_file (ok none) vault_key now_epoch = ret (ok none)
  load_session_file (ok (some file)) vault_key now_epoch = do
    result ← decrypt_session_bytes vault_key file now_epoch
    ret (elim result [ err e ↦ err e | ok contents ↦ ok (some contents) ])

  -- The bytes that `save_session_file` hands to `write_atomic`.
  pub session_file_bytes : Str → Str → SessionContents → Run (Result SessionFileError Str)
  session_file_bytes nonce vault_key contents = elim (j.to_vec contents) [
    | none ↦ ret (err serde_failed)
    | some plaintext ↦ encrypt_session_bytes c a nonce vault_key plaintext
  ]
