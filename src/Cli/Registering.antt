-- ===== src/Cli/Registering.antt =====
-- What `register` of crates/invisibool/src/cli/commands.rs keeps and what it stores.
use in_visibool.Disk.Atomic.{IsDirectory}
use in_visibool.Tokenizer.Alphabet.{base62}
use in_visibool.Tokenizer.Fpe.{check_eligibility, Eligibility, eligible, ineligible}
use in_visibool.Cli.{
  ◌>>◌, vault_failed, registered_formatless, cmd_then, exit, say, try_run, open_vault_cmd,
  saved_cmd, save_vault_cmd, CommandError, Line, already_registered, registered_line, World, System,
}
use in_visibool.Prelude.{
  ℕ, Bool-cases, length, push, Str, ret_inj, panic-ne-ret, Run, ret, panic, ◌^◌, ◌<◌, ◌≡◌, refl,
  sym, ap, ◌∙◌, ◌≢◌, inl, inr, Bool, true, Option, none, some, [], arith,
}
use in_visibool.Prelude.Maps.{lookup}
use in_visibool.Tokenizer.Crypto.{Crypto, HashLaws}
use in_visibool.Storage.{
  ok_inj, err-ne-ok, Result, ok, err, IoError, Aead, AeadLaws, Json, JsonLaws,
}
use in_visibool.Keychain.{vault_key_slot, Backend}
use in_visibool.Disk.{Directory}
use in_visibool.Vault.{register, VaultEntry, VaultContents, VaultError, Vault}
use in_visibool.Vault.Entries.{has_label}
use in_visibool.Vault.Saved.{save, open_at}
use in_visibool.Vault.Kept.{clean_orphans_keeps, open-save}
use in_visibool.Cli.Entries.{kind_of_entry, disclose, register_new, register_cmd}

module _ (c : Crypto) (a : Aead) (j : Json VaultContents) {S : Type 0} (b : Backend S)
    (sys : System) where
  try_run-ok :
      {A E : Type 0} (wrap : E → CommandError) (r : Run (Result E A)) (w w' : World S) {x : A}
      → try_run wrap r w ≡ ret (ok x, w')
      → (r ≡ ret (ok x)) × (w ≡ w')
  try_run-ok wrap panic w w' h = absurd (panic-ne-ret h)
  try_run-ok wrap (ret (err e)) w w' h = absurd (err-ne-ok (ap (λ y. y.0) (ret_inj h)))
  try_run-ok wrap (ret (ok y)) w w' h =
      (ap (λ z. ret (ok z)) (ok_inj (ap (λ y. y.0) (ret_inj h))), ap (λ y. y.1) (ret_inj h))

  -- Opening leaves the directory of the session file and both outputs alone.
  pub opened_aside :
      (w w' : World S) {v : Vault}
      → open_vault_cmd c a j b sys w ≡ ret (ok v, w')
      → (w'.session_dir ≡ w.session_dir) × (w'.out ≡ w.out) × (w'.errors ≡ w.errors)
  unfolding open_vault_cmd
  opened_aside w w' {v} h =
      let out =
        open_at c a j b sys.listing sys.kept sys.broken sys.new_key sys.vault_name w.vault_dir
          w.keychain in
      let (r, same) =
        try_run-ok vault_failed out.0 (record w { vault_dir = out.1; keychain = out.2 }) w' {x = v}
          h in
      (
        ap (λ (x : World S). x.session_dir) (sym same),
        ap (λ (x : World S). x.out) (sym same),
        ap (λ (x : World S). x.errors) (sym same),
      )

  -- Opening keeps the vault file.
  opened_keeps :
      (w w' : World S) {v : Vault}
      → open_vault_cmd c a j b sys w ≡ ret (ok v, w')
      → lookup sys.vault_name w'.vault_dir.files ≡ lookup sys.vault_name w.vault_dir.files
  unfolding open_vault_cmd open_at
  opened_keeps w w' {v} h =
      let out =
        open_at c a j b sys.listing sys.kept sys.broken sys.new_key sys.vault_name w.vault_dir
          w.keychain in
      let (r, same) =
        try_run-ok vault_failed out.0 (record w { vault_dir = out.1; keychain = out.2 }) w' {x = v}
          h in
      ap (λ (x : World S). lookup sys.vault_name x.vault_dir.files) (sym same)
      ∙ clean_orphans_keeps sys.listing sys.kept sys.vault_name w.vault_dir

  -- A label that is taken: exit code 5 and one complaint. The vault file stays as it is, and nothing is
  -- printed.
  register_cmd_taken :
      (label value : Str) (w w' : World S) {v : Vault}
      → open_vault_cmd c a j b sys w ≡ ret (ok v, w')
      → has_label label v.contents.vault_entries ≡ true
      → (register_cmd c a j b sys label value w
          ≡ ret (ok 5, record w' { errors = push w'.errors (already_registered label) }))
        × (lookup sys.vault_name w'.vault_dir.files ≡ lookup sys.vault_name w.vault_dir.files)
  unfolding register_cmd
  register_cmd_taken label value w w' {v} h taken =
      (rw (h, taken, register_cmd) refl, opened_keeps w w' {v = v} h)

  after_save :
      (r : Run (Result VaultError (Unit {0}) × Directory)) (w w' : World S) (line : Line)
      → cmd_then (saved_cmd c a j b sys w r) (λ _. say line >> exit 0) ≡ ret (ok 0, w')
      → r ≡ ret (ok tt, w'.vault_dir)
  after_save panic w w' line h = absurd (panic-ne-ret h)
  after_save (ret (err e, dir)) w w' line h = absurd (err-ne-ok (ap (λ y. y.0) (ret_inj h)))
  after_save (ret (ok u, dir)) w w' line h = ap (λ y. ret (ok tt, y.1.vault_dir)) (ret_inj h)

  saved_after :
      (found : Eligibility) (v : Vault) (label : Str) (line : Line) (w w' : World S)
      → (disclose c a j b sys label found >> (save_vault_cmd c a j b sys v >> (say line >> exit 0)))
          w
        ≡ ret (ok 0, w')
      → save c a j sys.pid sys.writes sys.nonce v sys.vault_name w.vault_dir
        ≡ ret (ok tt, w'.vault_dir)
  unfolding save_vault_cmd
  saved_after eligible v label line w w' h =
      after_save (save c a j sys.pid sys.writes sys.nonce v sys.vault_name w.vault_dir) w w' line h
  saved_after (ineligible reason) v label line w w' h =
      after_save (save c a j sys.pid sys.writes sys.nonce v sys.vault_name w.vault_dir)
        (record w { errors = push w.errors (registered_formatless label reason) }) w' line h

  -- The entry that `register` makes.
  abbrev pub new_entry : Str → Str → VaultEntry
  new_entry label value = record {
    label = label;
    value = value;
    entry_kind = kind_of_entry c a j b sys (check_eligibility value [] base62);
  }

  register_cmd_saved :
      (label value : Str) (w w1 w' : World S) {v : Vault}
      → open_vault_cmd c a j b sys w ≡ ret (ok v, w1)
      → register_cmd c a j b sys label value w ≡ ret (ok 0, w')
      → save c a j sys.pid sys.writes sys.nonce
          (register v (new_entry label value))
          sys.vault_name
          w1.vault_dir
        ≡ ret (ok tt, w'.vault_dir)
  unfolding register_cmd register_new
  register_cmd_saved label value w w1 w' {v} opened h =
      elim (Bool-cases (has_label label v.contents.vault_entries)) [
        | inl taken ↦
            let five : register_cmd c a j b sys label value w
                ≡ ret (ok 5, record w1 { errors = push w1.errors (already_registered label) }) =
              rw (opened, taken, register_cmd) refl in
            absurd (five-ne-zero (ok_inj (ap (λ y. y.0) (ret_inj (sym five ∙ h)))))
        | inr free ↦
            let step : register_cmd c a j b sys label value w
                ≡ register_new c a j b sys label value v w1 =
              rw (opened, free, register_cmd) refl in
            saved_after (check_eligibility value [] base62) (register v (new_entry label value))
              label (registered_line label) w1 w' (sym step ∙ h)
      ]
    where
      five-ne-zero : ◌≢◌ {A = ℕ} 5 0
      five-ne-zero h = omega arith

  -- A registration with exit code 0 is kept: a later `Vault::open` of the directory that it leaves, on a
  -- keychain with the vault's key, gives the vault that was opened before, with the new entry. It needs
  -- a nonce of 24 bytes, contents of less than 2^32 bytes as JSON, and that the file can be read.
  pub register_cmd_kept :
      (hashes : HashLaws c) (laws : AeadLaws a) (formats : JsonLaws j) (label value : Str)
      (w w1 w' : World S) (s : S) (listing : Option IoError) (kept : Str → Bool) (new_key : Str)
      {v : Vault} {plaintext : Str}
      → length sys.nonce ≡ 24
      → j.to_vec (register v (new_entry label value)).contents ≡ some plaintext
      → length plaintext < 2 ^ 32
      → open_vault_cmd c a j b sys w ≡ ret (ok v, w1)
      → IsDirectory w1.vault_dir
      → register_cmd c a j b sys label value w ≡ ret (ok 0, w')
      → b.fetch s vault_key_slot ≡ ok (some (register v (new_entry label value)).vault_key)
      → (open_at c a j b listing kept none new_key sys.vault_name w'.vault_dir s).0
        ≡ ret (ok (register v (new_entry label value)))
  register_cmd_kept hashes laws formats label value w w1 w' s listing kept new_key {v} {plaintext} n
        written small opened there h key =
      open-save c a j hashes laws formats sys.pid sys.writes sys.nonce sys.vault_name new_key
        (register v (new_entry label value)) w1.vault_dir w'.vault_dir b s listing kept
        {plaintext = plaintext} n written small there
        (register_cmd_saved label value w w1 w' {v = v} opened h) key
