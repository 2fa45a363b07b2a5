-- ===== src/Storage.antt =====
-- The crates that crates/invisibool-engine/src/session_file.rs and crates/invisibool-engine/src/vault
-- call: `chacha20poly1305` and `serde_json`, with what the code relies on of them.
use in_visibool.Prelude.{
  ℕ, length, take, drop, length-append, take-append, drop-append, Str, ◌+◌, ◌^◌, ◌<◌, ◌≡◌, refl,
  sym, ap, ◌∙◌, ◌≢◌, ◌⊎◌, inl, inr, Option, some, ◌++◌, append_assoc, arith,
}

pub data Result {ℓ κ} (E : Type ℓ) (A : Type κ) : Type (ℓ ⊔ κ) where
  ok : A → Result E A
  err : E → Result E A

pub Result-cases {ℓ κ} :
    {E : Type ℓ} {A : Type κ} (r : Result E A) → ((e : E) × (r ≡ err e)) ⊎ ((x : A) × (r ≡ ok x))
Result-cases (ok x) = inr (x, refl)
Result-cases (err e) = inl (e, refl)

pub ok_inj {ℓ κ} : {E : Type ℓ} {A : Type κ} {x y : A} → ◌≡◌ {A = Result E A} (ok x) (ok y) → x ≡ y
ok_inj h = cc

pub err_inj {ℓ κ} :
    {E : Type ℓ} {A : Type κ} {e e' : E} → ◌≡◌ {A = Result E A} (err e) (err e') → e ≡ e'
err_inj h = cc

pub err-ne-ok {ℓ κ} :
    {E : Type ℓ} {A : Type κ} {e : E} {x : A} → ◌≢◌ {A = Result E A} (err e) (ok x)
err-ne-ok h = cc

-- `std::io::Error`: what `read_exact` answers at the end of the input, an errno of the system, or
-- `io::Error::other`.
pub data IoError : Type 0 where
  unexpected_eof : IoError
  os_error : ℕ → IoError
  other_error : Str → IoError

-- `XChaCha20Poly1305::new(key).encrypt(nonce, Payload { msg, aad })`, and `decrypt`.
pub record Aead : Type 0 where
  pub encrypt : Str → Str → Str → Str → Option Str
  pub decrypt : Str → Str → Str → Str → Option Str

pub record AeadLaws (a : Aead) : Type 0 where
  pub encrypts :
      (key nonce aad msg : Str)
      → length key ≡ 32
      → length nonce ≡ 24
      → length msg < 2 ^ 32
      → (ct : Str) × (a.encrypt key nonce aad msg ≡ some ct)
  pub decrypt-encrypt :
      (key nonce aad msg ct : Str)
      → a.encrypt key nonce aad msg ≡ some ct
      → a.decrypt key nonce aad ct ≡ some msg
  -- the tag
  pub length-encrypt :
      (key nonce aad msg ct : Str)
      → a.encrypt key nonce aad msg ≡ some ct
      → length ct ≡ length msg + 16

-- `serde_json::to_vec` and `from_slice`.
pub record Json (A : Type 0) : Type 0 where
  pub to_vec : A → Option Str
  pub from_slice : Str → Option A

pub record JsonLaws {A : Type 0} (j : Json A) : Type 0 where
  pub from_slice-to_vec : (x : A) (s : Str) → j.to_vec x ≡ some s → j.from_slice s ≡ some x

abbrev pub aad_len : ℕ
aad_len = 20

abbrev pub nonce_len : ℕ
nonce_len = 24

abbrev pub tag_len : ℕ
tag_len = 16

-- The parts of a file: associated data, nonce, ciphertext.
abbrev pub aad_of : Str → Str
aad_of file = take aad_len file

abbrev pub nonce_of : Str → Str
nonce_of file = take nonce_len (drop aad_len file)

abbrev pub ciphertext_of : Str → Str
ciphertext_of file = drop (aad_len + nonce_len) file

-- The parts of `aad ++ nonce ++ ciphertext`, where they have their lengths.
pub parts_lem :
    (aad nonce ct : Str)
    → length aad ≡ 20
    → length nonce ≡ 24
    → (aad_of (aad ++ (nonce ++ ct)) ≡ aad)
      × (nonce_of (aad ++ (nonce ++ ct)) ≡ nonce)
      × (ciphertext_of (aad ++ (nonce ++ ct)) ≡ ct)
parts_lem aad nonce ct la ln =
    let rest : drop 20 (aad ++ (nonce ++ ct)) ≡ nonce ++ ct =
      ap (λ n. drop n (aad ++ (nonce ++ ct))) (sym la) ∙ drop-append aad (nonce ++ ct) in
    let both : length (aad ++ nonce) ≡ 44 = length-append aad nonce ∙ omega arith in
    (
      ap (λ n. take n (aad ++ (nonce ++ ct))) (sym la) ∙ take-append aad (nonce ++ ct),
      ap (take 24) rest ∙ ap (λ n. take n (nonce ++ ct)) (sym ln) ∙ take-append nonce ct,
      ap (drop 44) (sym (append_assoc aad nonce ct))
          ∙ ap (λ n. drop n ((aad ++ nonce) ++ ct)) (sym both)
          ∙ drop-append (aad ++ nonce) ct,
    )
