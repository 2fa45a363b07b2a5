-- ===== src/Vault/Opened.antt =====
-- What a vault file gives back, and that the two kinds of file are told apart.
use in_visibool.Prelude.{
  ℕ, ltb, Option-cases, length, get_elem?, take, length-append, Str, codes, str_eq, str_eq_iff,
  ret_inj, ret, ◌^◌, ◌≤◌, ◌<◌, ◌≡◌, refl, sym, ap, ◌∙◌, subst, inl, inr, true, false, some, ◌++◌,
  arith,
}
use in_visibool.Tokenizer.Crypto.{Crypto, HashLaws}
use in_visibool.Storage.{
  ok_inj, err-ne-ok, aad_of, nonce_of, ciphertext_of, parts_lem, ok, err, other_error, Aead,
  AeadLaws, Json, JsonLaws,
}
use in_visibool.SessionFile.{decrypt_session_bytes, SessionContents, not_a_session_file}
use in_visibool.SessionFile.Sealed.{refused_magic}
use in_visibool.Vault.{
  vault_io_failed, vault_magic, vault_aad, derive_aead_key, encrypt_vault, parse_vault,
  decrypt_vault, vault_file_bytes, open_vault, VaultContents, Vault,
}

module _ (c : Crypto) (a : Aead) (j : Json VaultContents) where
  -- The reader on a file that passes its guards.
  decrypt_vault-long :
      (vault_key file key : Str)
      → c.hkdf vault_key (codes "invisibool-vault-aead-v1") 32 ≡ some key
      → 60 ≤ length file
      → take 16 file ≡ vault_magic
      → get_elem? file 16 ≡ some 1
      → decrypt_vault c a j vault_key file
        ≡ ret (parse_vault c a j (a.decrypt key (nonce_of file) (aad_of file) (ciphertext_of file)))
  unfolding decrypt_vault derive_aead_key
  decrypt_vault-long vault_key file key k long magic version =
      let short : ltb (length file) 60 ≡ false = ground arith in
      let same : str_eq (take 16 file) vault_magic ≡ true =
        (str_eq_iff (take 16 file) vault_magic).1 magic in
      rw (short, same, version, k, decrypt_vault) refl

  parse_vault-found :
      (plaintext : Str) (found : VaultContents)
      → j.from_slice plaintext ≡ some found
      → parse_vault c a j (some plaintext) ≡ ok found
  unfolding parse_vault
  parse_vault-found plaintext found e = rw (e, parse_vault) refl

  read_back :
      (vault_key key nonce ct plaintext : Str) (found : VaultContents)
      → c.hkdf vault_key (codes "invisibool-vault-aead-v1") 32 ≡ some key
      → length nonce ≡ 24
      → 16 ≤ length ct
      → a.decrypt key nonce vault_aad ct ≡ some plaintext
      → j.from_slice plaintext ≡ some found
      → open_vault c a j vault_key (some (vault_aad ++ (nonce ++ ct)))
        ≡ ret (ok (record { vault_key = vault_key; contents = found }))
  unfolding open_vault
  read_back vault_key key nonce ct plaintext found k n tag opens parsed =
      let (p, q, r) = parts_lem vault_aad nonce ct refl n in
      let size = length-append nonce ct in
      let read =
        decrypt_vault-long vault_key (vault_aad ++ (nonce ++ ct)) key k (omega arith) refl refl
        ∙ ap (λ o. ret (parse_vault c a j o)) (rw (p, q, r) opens)
        ∙ ap ret (parse_vault-found plaintext found parsed) in
      rw (read, open_vault) refl

  saved :
      (v : Vault) (key nonce ct plaintext : Str)
      → c.hkdf v.vault_key (codes "invisibool-vault-aead-v1") 32 ≡ some key
      → j.to_vec v.contents ≡ some plaintext
      → a.encrypt key nonce vault_aad plaintext ≡ some ct
      → vault_file_bytes c a j nonce v ≡ ret (ok (vault_aad ++ (nonce ++ ct)))
  unfolding vault_file_bytes encrypt_vault derive_aead_key
  saved v key nonce ct plaintext k w e =
      rw (w, vault_file_bytes) (rw (k, encrypt_vault) (rw e refl))

  -- Round trip: with a nonce of 24 bytes and contents of less than 2^32 bytes as JSON, saving gives
  -- file bytes, and opening them with the same key gives the vault that was saved.
  pub vault_file_round_trip :
      (hashes : HashLaws c) (laws : AeadLaws a) (formats : JsonLaws j) (nonce : Str) (v : Vault)
      {plaintext : Str}
      → length nonce ≡ 24
      → j.to_vec v.contents ≡ some plaintext
      → length plaintext < 2 ^ 32
      → (file : Str) × (vault_file_bytes c a j nonce v ≡ ret (ok file))
        × (open_vault c a j v.vault_key (some file) ≡ ret (ok v))
  vault_file_round_trip hashes laws formats nonce v {plaintext} n w small =
      let (key, k) =
        hashes.hkdf_expands v.vault_key (codes "invisibool-vault-aead-v1") 32 (omega arith) in
      let filled = hashes.hkdf_fills v.vault_key (codes "invisibool-vault-aead-v1") 32 key k in
      let (ct, e) = laws.encrypts key nonce vault_aad plaintext filled n small in
      let tag = laws.length-encrypt key nonce vault_aad plaintext ct e in
      (
        vault_aad ++ (nonce ++ ct),
        saved v key nonce ct plaintext k w e,
        read_back v.vault_key key nonce ct plaintext v.contents k n (omega arith)
            (laws.decrypt-encrypt key nonce vault_aad plaintext ct e)
            (formats.from_slice-to_vec v.contents plaintext w),
      )

-- The session reader takes no vault file: whatever the keys and the time, it answers that the file is
-- no session file.
pub vault_file_is_no_session_file :
    (c : Crypto) (hashes : HashLaws c) (a : Aead) (laws : AeadLaws a) (j : Json SessionContents)
    (nonce vault_key other_key plaintext : Str) (now : ℕ) {file : Str}
    → length nonce ≡ 24
    → encrypt_vault c a nonce vault_key plaintext ≡ ret (ok file)
    → decrypt_session_bytes c a j other_key file now ≡ ret (err not_a_session_file)
vault_file_is_no_session_file c hashes a laws j nonce vault_key other_key plaintext now {file} n h =
    let (key, k) =
      hashes.hkdf_expands vault_key (codes "invisibool-vault-aead-v1") 32 (omega arith) in
    elim (Option-cases (a.encrypt key nonce vault_aad plaintext)) [
      | inl e ↦
          let failed_too : encrypt_vault c a nonce vault_key plaintext
              ≡ ret (
                  err (
                    vault_io_failed (
                      other_error
                        (codes "AEAD encrypt failed (should not happen for valid inputs)")))) =
            unfold encrypt_vault derive_aead_key in rw (k, encrypt_vault) (rw e refl) in
          absurd (err-ne-ok (ret_inj (sym failed_too ∙ h)))
      | inr (ct, e) ↦
          let made : encrypt_vault c a nonce vault_key plaintext
              ≡ ret (ok (vault_aad ++ (nonce ++ ct))) =
            unfold encrypt_vault derive_aead_key in rw (k, encrypt_vault) (rw e refl) in
          let tag = laws.length-encrypt key nonce vault_aad plaintext ct e in
          let size = length-append nonce ct in
          let long : ltb (length (vault_aad ++ (nonce ++ ct))) 60 ≡ false =
            lt_false (length (vault_aad ++ (nonce ++ ct))) 60 (omega arith) in
          subst (λ s. decrypt_session_bytes c a j other_key s now ≡ ret (err not_a_session_file))
            (ok_inj (ret_inj (sym made ∙ h)))
            (refused_magic c hashes a j other_key (vault_aad ++ (nonce ++ ct)) now long refl)
    ]
  where
    lt_false : (x y : ℕ) → y ≤ x → ltb x y ≡ false
    lt_false x y le = ground arith
