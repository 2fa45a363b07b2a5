-- ===== src/Vault/Kept.antt =====
-- A vault that `Vault::save` of crates/invisibool-engine/src/vault/mod.rs has written is opened again.
use in_visibool.Prelude.{
  ℕ, if◌then◌else◌, Bool-cases, Option-cases, length, length-append, Str, codes, str_eq,
  starts_with, str_eq_iff, str_eq_refl, ret_inj, ret, ◌^◌, ◌<◌, ◌≡◌, refl, sym, ap, ◌∙◌, inl, inr,
  Bool, true, false, ◌&&◌, Option, none, some, List, [], ◌∷◌, ◌++◌, arith,
}
use in_visibool.Prelude.Maps.{HashMap, lookup, lookup-remove, mem_key}
use in_visibool.Tokenizer.Crypto.{Crypto, HashLaws}
use in_visibool.Storage.{err-ne-ok, ok, err, IoError, Aead, AeadLaws, Json, JsonLaws}
use in_visibool.Keychain.{Backend, fetch_or_create, vault_key_slot}
use in_visibool.Disk.{
  Outcome, write_atomic, read_if_exists, orphans_of, list_orphan_tmps, remove_quiet, remove_all,
  File, Directory, WriteAnswers,
}
use in_visibool.Disk.Atomic.{is_replaced, IsDirectory, tmp_path-other, write_atomic_lem}
use in_visibool.Vault.{vault_file_bytes, open_vault, VaultContents, Vault}
use in_visibool.Vault.Opened.{vault_file_round_trip}
use in_visibool.Vault.Saved.{
  vault_file_mode, write_result, clean_orphans, save_bytes, save, open_read, open_at,
}

shorter_no_prefix : (p s : Str) → length s < length p → starts_with p s ≡ false
shorter_no_prefix [] s h = absurd (elim h [ ])
shorter_no_prefix (x ∷ p) [] h = refl
shorter_no_prefix (x ∷ p) (y ∷ s) h = ground (arith, shorter_no_prefix p s)

name_no_orphan : (name : Str) → starts_with (name ++ codes ".tmp.") name ≡ false
name_no_orphan name =
    shorter_no_prefix (name ++ codes ".tmp.") name
      (omega (arith, length-append name (codes ".tmp.")))

orphans_without :
    (prefix k : Str) (files : HashMap File)
    → starts_with prefix k ≡ false
    → mem_key k (orphans_of prefix files) ≡ false
orphans_without prefix k [] h = refl
orphans_without prefix k ((name, file) ∷ files) h = elim (Bool-cases (starts_with prefix name)) [
  | inl t ↦
      let other : str_eq name k ≡ false = elim (Bool-cases (str_eq name k)) [
        | inl e ↦ let same = ap (starts_with prefix) ((str_eq_iff name k).0 e) in cc
        | inr e ↦ e
      ] in
      rw t (rw other (orphans_without prefix k files h))
  | inr t ↦ rw t (orphans_without prefix k files h)
]

remove_all_others :
    (kept : Str → Bool) (names : List Str) (k : Str) (dir : Directory)
    → mem_key k names ≡ false
    → lookup k (remove_all kept names dir).files ≡ lookup k dir.files
remove_all_others kept [] k dir h = refl
remove_all_others kept (name ∷ names) k dir h =
    remove_all_others kept names k (remove_quiet kept name dir) (ground arith) ∙ kept_one
  where
    kept_one : lookup k (remove_quiet kept name dir).files ≡ lookup k dir.files
    kept_one = elim (Bool-cases (kept name)) [
      | inl e ↦ rw e refl
      | inr e ↦
          let other : str_eq name k ≡ false = ground arith in
          rw e (
            lookup-remove name k dir.files ∙ ap (λ b. if b then none else lookup k dir.files) other)
    ]

-- The cleaning keeps the vault file, whatever the system answers.
pub clean_orphans_keeps :
    (listing : Option IoError) (kept : Str → Bool) (name : Str) (dir : Directory)
    → lookup name (clean_orphans listing kept name dir).files ≡ lookup name dir.files
unfolding clean_orphans list_orphan_tmps
clean_orphans_keeps listing kept name dir = elim (Bool-cases dir.exists) [
  | inr e ↦
      let nothing : list_orphan_tmps listing name dir ≡ ok [] = rw (e, list_orphan_tmps) refl in
      rw (nothing, clean_orphans) refl
  | inl e ↦ elim (Option-cases listing) [
    | inr (x, p) ↦
        let failed : list_orphan_tmps listing name dir ≡ err x = rw (e, p, list_orphan_tmps) refl in
        rw (failed, clean_orphans) refl
    | inl p ↦
        let names = orphans_of (name ++ codes ".tmp.") dir.files in
        let listed : list_orphan_tmps listing name dir ≡ ok names =
          rw (e, p, list_orphan_tmps) refl in
        rw (listed, clean_orphans)
          (remove_all_others kept names name dir
            (orphans_without (name ++ codes ".tmp.") name dir.files (name_no_orphan name)))
  ]
]

write_result-ok :
    (out : Outcome) (dir : Directory) → write_result out ≡ (ok tt, dir) → out ≡ (ok tt, dir)
write_result-ok (ok u, d) dir h = ap (λ x. (ok tt, x.1)) h
write_result-ok (err e, d) dir h = absurd (err-ne-ok (ap (λ x. x.0) h))

module _ (c : Crypto) (a : Aead) (j : Json VaultContents) where
  saved_file :
      (pid : ℕ) (answers : WriteAnswers) (nonce : Str) (v : Vault) (name file : Str)
      (dir dir' : Directory)
      → vault_file_bytes c a j nonce v ≡ ret (ok file)
      → IsDirectory dir
      → save c a j pid answers nonce v name dir ≡ ret (ok tt, dir')
      → lookup name dir'.files ≡ some (record { content = file; mode = vault_file_mode })
  unfolding save save_bytes
  saved_file pid answers nonce v name file dir dir' bytes d h =
      let step : save c a j pid answers nonce v name dir
          ≡ ret (write_result (write_atomic pid answers name file vault_file_mode dir)) =
        rw (bytes, save) refl in
      let out =
        write_result-ok (write_atomic pid answers name file vault_file_mode dir) dir'
          (ret_inj (sym step ∙ h)) in
      let found =
        write_atomic_lem pid answers name name file vault_file_mode dir d
          (tmp_path-other pid name) in
      let done : (is_replaced (write_atomic pid answers name file vault_file_mode dir).0
            && str_eq name name)
          ≡ true =
        ap (λ x. is_replaced x.0 && str_eq name name) out ∙ str_eq_refl name in
      ap (λ x. lookup name x.1.files) (sym out)
      ∙ found
      ∙ ap
          (λ b.
            if b
            then some (record { content = file; mode = vault_file_mode })
            else lookup name dir.files)
          done

  opens :
      {S : Type 0} (b : Backend S) (listing : Option IoError) (kept : Str → Bool)
      (new_key name file : Str) (v : Vault) (dir : Directory) (s : S) {mode : ℕ}
      → lookup name dir.files ≡ some (record { content = file; mode = mode })
      → b.fetch s vault_key_slot ≡ ok (some v.vault_key)
      → open_vault c a j v.vault_key (some file) ≡ ret (ok v)
      → (open_at c a j b listing kept none new_key name dir s).0 ≡ ret (ok v)
  unfolding open_at open_read fetch_or_create read_if_exists
  opens b listing kept new_key name file v dir s {mode} there key back =
      let kept_file = clean_orphans_keeps listing kept name dir ∙ there in
      let fetched : fetch_or_create b s vault_key_slot new_key ≡ (ok v.vault_key, s) =
        rw (key, fetch_or_create) refl in
      let read : read_if_exists none name (clean_orphans listing kept name dir) ≡ ok (some file) =
        rw (kept_file, read_if_exists) refl in
      rw (fetched, read, open_at) back

  -- A saved vault is opened again: where `save` succeeds, whatever was in the directory, and the
  -- keychain has the vault's key, `open` gives the vault that was saved, whether or
  -- not the orphans can be listed and removed. It needs a nonce of 24 bytes, contents of less than 2^32
  -- bytes as JSON, and that the file can be read.
  pub open-save :
      (hashes : HashLaws c) (laws : AeadLaws a) (formats : JsonLaws j) (pid : ℕ)
      (answers : WriteAnswers) (nonce name new_key : Str) (v : Vault) (dir dir' : Directory)
      {S : Type 0} (b : Backend S) (s : S) (listing : Option IoError) (kept : Str → Bool)
      {plaintext : Str}
      → length nonce ≡ 24
      → j.to_vec v.contents ≡ some plaintext
      → length plaintext < 2 ^ 32
      → IsDirectory dir
      → save c a j pid answers nonce v name dir ≡ ret (ok tt, dir')
      → b.fetch s vault_key_slot ≡ ok (some v.vault_key)
      → (open_at c a j b listing kept none new_key name dir' s).0 ≡ ret (ok v)
  open-save hashes laws formats pid answers nonce name new_key v dir dir' b s listing kept
        {plaintext} n w small d h key =
      let (file, bytes, back) =
        vault_file_round_trip c a j hashes laws formats nonce v {plaintext = plaintext} n w small in
      opens b listing kept new_key name file v dir' s {mode = vault_file_mode}
        (saved_file pid answers nonce v name file dir dir' bytes d h) key back
