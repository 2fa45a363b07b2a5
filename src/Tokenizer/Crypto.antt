-- ===== src/Tokenizer/Crypto.antt =====
-- The cryptographic crates that crates/invisibool-engine/src/tokenizer calls (`hkdf`, `hmac`, `sha2`,
-- `subtle`, and `fpe` over `aes`) as parameters, with what the code relies on of each.
use in_visibool.Prelude.{
  length, All, Str, ℕ, ◌^◌, ◌≤◌, ◌<◌, ◌≡◌, ◌↔◌, Bool, true, Option, some, List,
}

pub record Crypto : Type 0 where
  -- `Hkdf::<Sha256>::new(None, ikm).expand(info, &mut [0; n])`
  pub hkdf : Str → Str → ℕ → Option Str
  -- `Hmac<Sha256>` of a key and a message
  pub hmac_sha256 : Str → Str → Str
  -- `Sha256::digest`
  pub sha256 : Str → Str
  -- `a.ct_eq(b).into()`
  pub ct_eq : Str → Str → Bool
  -- whether `FF1::<Aes256>::new(key, radix)` is `Ok`
  pub ff1_new : Str → ℕ → Bool
  -- `encrypt` and `decrypt` of key, radix, tweak and numerals; `none` is `Err`
  pub ff1_encrypt : Str → ℕ → Str → List ℕ → Option (List ℕ)
  pub ff1_decrypt : Str → ℕ → Str → List ℕ → Option (List ℕ)

abbrev pub AreBytes : Str → Type 0
AreBytes = All (λ b. b < 256)

-- Numerals of a radix.
abbrev pub AreBelow : ℕ → List ℕ → Type 0
AreBelow r = All (λ n. n < r)

pub record HashLaws (c : Crypto) : Type 0 where
  pub hkdf_fills :
      (ikm info : Str) (n : ℕ) (out : Str) → c.hkdf ikm info n ≡ some out → length out ≡ n
  -- up to 255 blocks of 32 bytes
  pub hkdf_expands :
      (ikm info : Str) (n : ℕ) → n ≤ 8160 → (out : Str) × (c.hkdf ikm info n ≡ some out)
  pub length_hmac : (key message : Str) → length (c.hmac_sha256 key message) ≡ 32
  pub hmac_bytes : (key message : Str) → AreBytes (c.hmac_sha256 key message)
  pub length_sha256 : (s : Str) → length (c.sha256 s) ≡ 32
  pub sha256_bytes : (s : Str) → AreBytes (c.sha256 s)
  pub ct_eq_iff : (s t : Str) → (c.ct_eq s t ≡ true) ↔ (s ≡ t)

-- The smallest domain that `fpe` takes, and the longest numeral string.
abbrev pub min_domain : ℕ
min_domain = 1_000_000

pub record InDomain (radix : ℕ) (numerals : List ℕ) : Type 0 where
  pub below : AreBelow radix numerals
  pub large : min_domain ≤ radix ^ length numerals
  pub short : length numerals < 2 ^ 32

-- FF1 is a keyed permutation of the numeral strings of each length.
pub record Ff1Laws (c : Crypto) : Type 0 where
  pub new_ok :
      (key : Str) (radix : ℕ)
      → length key ≡ 32
      → 2 ≤ radix
      → radix ≤ 65535
      → c.ff1_new key radix ≡ true
  pub encrypts :
      (key : Str) (radix : ℕ) (tweak : Str) (xs : List ℕ)
      → InDomain radix xs
      → (ys : List ℕ) × (c.ff1_encrypt key radix tweak xs ≡ some ys)
        × AreBelow radix ys
        × (length ys ≡ length xs)
        × (c.ff1_decrypt key radix tweak ys ≡ some xs)
  pub decrypts :
      (key : Str) (radix : ℕ) (tweak : Str) (ys xs : List ℕ)
      → AreBelow radix ys
      → c.ff1_decrypt key radix tweak ys ≡ some xs
      → AreBelow radix xs × (length xs ≡ length ys) × (c.ff1_encrypt key radix tweak xs ≡ some ys)
