-- ===== src/SessionFile/Sealed.antt =====
-- What a session file gives back, and what it takes to be read at all.
use in_visibool.Prelude.{
  ℕ, ltb, leb, ◌==◌, ==_iff, Bool-cases, Option-cases, length, get_elem?, take, length-append, Str,
  str_eq, str_eq_iff, ret_inj, panic-ne-ret, ret, panic, ◌^◌, ◌≤◌, ◌<◌, ◌≡◌, refl, sym, ap, ◌∙◌,
  subst, inl, inr, true, false, Option, none, some, ◌++◌, arith,
}
use in_visibool.Tokenizer.Crypto.{Crypto, HashLaws}
use in_visibool.Storage.{
  err-ne-ok, aad_of, nonce_of, ciphertext_of, parts_lem, ok, err, Aead, AeadLaws, Json, JsonLaws,
}
use in_visibool.SessionFile.{
  session_magic, session_info, build_session_aad, derive_session_aead_key, encrypt_session_bytes,
  parse_session, decrypt_session_bytes, session_file_bytes, SessionContents, not_a_session_file,
  truncated_session, unsupported_session,
}

-- A file that the reader can open: its parts, and the plaintext they authenticate.
pub record IsSealed (c : Crypto) (a : Aead) (j : Json SessionContents) (vault_key file : Str)
    (contents : SessionContents) : Type 0 where
  pub long : 60 ≤ length file
  pub magic : take 16 file ≡ session_magic
  pub version : get_elem? file 16 ≡ some 1
  pub key : Str
  pub derived : c.hkdf vault_key session_info 32 ≡ some key
  pub plaintext : Str
  pub authentic : a.decrypt key (nonce_of file) (aad_of file) (ciphertext_of file) ≡ some plaintext
  pub parsed : j.from_slice plaintext ≡ some contents

module _ (c : Crypto) (hashes : HashLaws c) (a : Aead) (j : Json SessionContents) where
  parse_session-ok :
      (now : ℕ) (o : Option Str) {contents : SessionContents}
      → parse_session c a j now o ≡ ok contents
      → (plaintext : Str) × (o ≡ some plaintext)
        × (j.from_slice plaintext ≡ some contents)
        × (now < contents.expires_at)
  unfolding parse_session
  parse_session-ok now none h = ground arith
  parse_session-ok now (some plaintext) {contents} h =
      elim (Option-cases (j.from_slice plaintext)) [
        | inl e ↦ ground arith
        | inr (found, e) ↦ elim (Bool-cases (leb found.expires_at now)) [
          | inl old ↦ ground arith
          | inr live ↦
              let same : found ≡ contents = ground arith in
              (
                plaintext,
                refl,
                e ∙ ap some same,
                subst (λ (x : SessionContents). now < x.expires_at) same (ground arith),
              )
        ]
      ]

  -- The reader on a file that passes its guards.
  decrypt_session_bytes-long :
      (vault_key file key : Str) (now : ℕ)
      → c.hkdf vault_key session_info 32 ≡ some key
      → 60 ≤ length file
      → take 16 file ≡ session_magic
      → get_elem? file 16 ≡ some 1
      → decrypt_session_bytes c a j vault_key file now
        ≡ ret (
            parse_session c a j now
              (a.decrypt key (nonce_of file) (aad_of file) (ciphertext_of file)))
  unfolding decrypt_session_bytes derive_session_aead_key
  decrypt_session_bytes-long vault_key file key now k long magic version =
      let short : ltb (length file) 60 ≡ false = ground arith in
      let same : str_eq (take 16 file) session_magic ≡ true =
        (str_eq_iff (take 16 file) session_magic).1 magic in
      rw (short, same, version, k, decrypt_session_bytes) refl

  parse_session-fresh :
      (now : ℕ) (plaintext : Str) (contents : SessionContents)
      → j.from_slice plaintext ≡ some contents
      → now < contents.expires_at
      → parse_session c a j now (some plaintext) ≡ ok contents
  unfolding parse_session
  parse_session-fresh now plaintext contents e live =
      let fresh : leb contents.expires_at now ≡ false = ground arith in
      rw (e, fresh, parse_session) refl

  read_back :
      (vault_key key nonce ct plaintext : Str) (contents : SessionContents) (now : ℕ)
      → c.hkdf vault_key session_info 32 ≡ some key
      → length nonce ≡ 24
      → 16 ≤ length ct
      → a.decrypt key nonce build_session_aad ct ≡ some plaintext
      → j.from_slice plaintext ≡ some contents
      → now < contents.expires_at
      → decrypt_session_bytes c a j vault_key (build_session_aad ++ (nonce ++ ct)) now
        ≡ ret (ok contents)
  read_back vault_key key nonce ct plaintext contents now k n tag opens parsed live =
      let (p, q, r) = parts_lem build_session_aad nonce ct refl n in
      let size = length-append nonce ct in
      decrypt_session_bytes-long vault_key (build_session_aad ++ (nonce ++ ct)) key now k
        (omega arith) refl refl
      ∙ ap (λ o. ret (parse_session c a j now o)) (rw (p, q, r) opens)
      ∙ ap ret (parse_session-fresh now plaintext contents parsed live)

  saved :
      (vault_key key nonce ct plaintext : Str) (contents : SessionContents)
      → c.hkdf vault_key session_info 32 ≡ some key
      → j.to_vec contents ≡ some plaintext
      → a.encrypt key nonce build_session_aad plaintext ≡ some ct
      → session_file_bytes c a j nonce vault_key contents
        ≡ ret (ok (build_session_aad ++ (nonce ++ ct)))
  unfolding session_file_bytes encrypt_session_bytes derive_session_aead_key
  saved vault_key key nonce ct plaintext contents k v e =
      rw (v, session_file_bytes) (rw (k, encrypt_session_bytes) (rw e refl))

  -- Round trip: with a nonce of 24 bytes and contents of less than 2^32 bytes as JSON, saving gives
  -- file bytes, and until the contents expire these bytes decrypt under the same vault key to the
  -- contents.
  pub session_file_round_trip :
      (laws : AeadLaws a) (formats : JsonLaws j) (nonce vault_key : Str)
      (contents : SessionContents) (now : ℕ) {plaintext : Str}
      → length nonce ≡ 24
      → j.to_vec contents ≡ some plaintext
      → length plaintext < 2 ^ 32
      → now < contents.expires_at
      → (file : Str) × (session_file_bytes c a j nonce vault_key contents ≡ ret (ok file))
        × (decrypt_session_bytes c a j vault_key file now ≡ ret (ok contents))
  session_file_round_trip laws formats nonce vault_key contents now {plaintext} n v small live =
      let (key, k) = hashes.hkdf_expands vault_key session_info 32 (omega arith) in
      let (ct, e) =
        laws.encrypts key nonce build_session_aad plaintext
          (hashes.hkdf_fills vault_key session_info 32 key k) n small in
      let tag = laws.length-encrypt key nonce build_session_aad plaintext ct e in
      (
        build_session_aad ++ (nonce ++ ct),
        saved vault_key key nonce ct plaintext contents k v e,
        read_back vault_key key nonce ct plaintext contents now k n (omega arith)
            (laws.decrypt-encrypt key nonce build_session_aad plaintext ct e)
            (formats.from_slice-to_vec contents plaintext v) live,
      )

  refused_short :
      (vault_key file : Str) (now : ℕ)
      → ltb (length file) 60 ≡ true
      → decrypt_session_bytes c a j vault_key file now ≡ ret (err truncated_session)
  unfolding decrypt_session_bytes
  refused_short vault_key file now e = rw (e, decrypt_session_bytes) refl

  -- A file of at least 60 bytes that begins with other bytes than the magic is no session file.
  pub refused_magic :
      (vault_key file : Str) (now : ℕ)
      → ltb (length file) 60 ≡ false
      → str_eq (take 16 file) session_magic ≡ false
      → decrypt_session_bytes c a j vault_key file now ≡ ret (err not_a_session_file)
  unfolding decrypt_session_bytes
  refused_magic vault_key file now e f = rw (e, f, decrypt_session_bytes) refl

  refused_version :
      (vault_key file : Str) (now v : ℕ)
      → ltb (length file) 60 ≡ false
      → str_eq (take 16 file) session_magic ≡ true
      → get_elem? file 16 ≡ some v
      → (v == 1) ≡ false
      → decrypt_session_bytes c a j vault_key file now ≡ ret (err (unsupported_session v))
  unfolding decrypt_session_bytes
  refused_version vault_key file now v e f g other = rw (e, f, g, other, decrypt_session_bytes) refl

  no_version :
      (vault_key file : Str) (now : ℕ)
      → ltb (length file) 60 ≡ false
      → str_eq (take 16 file) session_magic ≡ true
      → get_elem? file 16 ≡ none
      → decrypt_session_bytes c a j vault_key file now ≡ panic
  unfolding decrypt_session_bytes
  no_version vault_key file now e f g = rw (e, f, g, decrypt_session_bytes) refl

  version_one :
      (vault_key file : Str) (now : ℕ) {contents : SessionContents}
      → decrypt_session_bytes c a j vault_key file now ≡ ret (ok contents)
      → ltb (length file) 60 ≡ false
      → str_eq (take 16 file) session_magic ≡ true
      → get_elem? file 16 ≡ some 1
  version_one vault_key file now h e f = elim (Option-cases (get_elem? file 16)) [
    | inl g ↦ absurd (panic-ne-ret (sym (no_version vault_key file now e f g) ∙ h))
    | inr (v, g) ↦ elim (Bool-cases (v == 1)) [
      | inl one ↦ g ∙ ap some ((==_iff v 1).0 one)
      | inr other ↦
          absurd (err-ne-ok (ret_inj (sym (refused_version vault_key file now v e f g other) ∙ h)))
    ]
  ]

  guards :
      (vault_key file : Str) (now : ℕ) {contents : SessionContents}
      → decrypt_session_bytes c a j vault_key file now ≡ ret (ok contents)
      → (60 ≤ length file) × (take 16 file ≡ session_magic) × (get_elem? file 16 ≡ some 1)
  guards vault_key file now {contents} h = elim (Bool-cases (ltb (length file) 60)) [
    | inl e ↦ absurd (err-ne-ok (ret_inj (sym (refused_short vault_key file now e) ∙ h)))
    | inr e ↦ elim (Bool-cases (str_eq (take 16 file) session_magic)) [
      | inl f ↦ (
        ground arith,
        (str_eq_iff (take 16 file) session_magic).0 f,
        version_one vault_key file now {contents = contents} h e f,
      )
      | inr f ↦ absurd (err-ne-ok (ret_inj (sym (refused_magic vault_key file now e f) ∙ h)))
    ]
  ]

  -- A file is read only if it is at least 60 bytes long, has the magic and version 1, its parts
  -- authenticate under the key derived from the vault key, their plaintext parses to the contents
  -- that are returned, and these have not expired.
  pub decrypt_session_bytes_sound :
      (vault_key file : Str) (now : ℕ) {contents : SessionContents}
      → decrypt_session_bytes c a j vault_key file now ≡ ret (ok contents)
      → IsSealed c a j vault_key file contents × (now < contents.expires_at)
  decrypt_session_bytes_sound vault_key file now {contents} h =
      let (long, magic, version) = guards vault_key file now {contents = contents} h in
      let (key, k) = hashes.hkdf_expands vault_key session_info 32 (omega arith) in
      let read = decrypt_session_bytes-long vault_key file key now k long magic version in
      let (plaintext, o, parsed, live) =
        parse_session-ok now (a.decrypt key (nonce_of file) (aad_of file) (ciphertext_of file))
          {contents = contents} (ret_inj (sym read ∙ h)) in
      (
        record {
          long = long;
          magic = magic;
          version = version;
          key = key;
          derived = k;
          plaintext = plaintext;
          authentic = o;
          parsed = parsed;
        },
        live,
      )
