-- ===== src/Examples.antt =====
-- Stand-ins for the cryptographic crates, the floating point and the matcher that the code calls, and
-- registrations to run it on. They show that what is assumed of that code can hold.
use in_visibool.Tokenizer.Alphabet.Validate.{digits-IsAlphabet}
use in_visibool.Tokenizer.Fpe.Restoring.{IsRegistered}
pub mod Tokens
pub mod Sessions
pub mod Engines
pub mod Files
pub mod Values
pub mod Daemons
pub mod Disks
pub mod Commands
pub mod Restores
use in_visibool.Detection.{Automata}
use in_visibool.Prelude.{
  ℕ, leb, if◌then◌else◌, Bool-cases, some_inj, length, get_elem?, replicate, All-append,
  length-reverse, Str, codes, str_eq, str_eq_iff, find_str, ret, zero, suc, ◌+◌, ◌-◌, ◌/◌, ◌≤◌, ◌<◌,
  ◌≡◌, refl, sym, ap, ◌∙◌, subst, inl, inr, true, Option, none, some, List, [], ◌∷◌, reverse, arith,
}
use mathlib.Core.List.{reverse-append}
use in_visibool.Tokenizer.Alphabet.{base62, digits, radix, mac_tail_len, Floats}
use in_visibool.Tokenizer.Crypto.{AreBytes, AreBelow, Crypto, HashLaws, Ff1Laws}
use in_visibool.Tokenizer.Mac.Encoding.{IsTailLen}
use in_visibool.Tokenizer.Fpe.{
  check_domain, check_body, check_eligibility, encrypt_body, scrub, accept, decrypt_body,
  try_registration, try_restore, FpeRegistration, eligible, fake, FpeTokenizer,
}

abbrev pub toy_hkdf : ℕ → Option Str
toy_hkdf n = if leb n 8160 then some (replicate n 0) else none

-- FF1 reverses the numerals, and every hash is the same.
abbrev pub toy_crypto : Crypto
toy_crypto = record {
  hkdf = λ ikm info n. toy_hkdf n;
  hmac_sha256 = λ key message. replicate 32 7;
  sha256 = λ s. replicate 32 7;
  ct_eq = str_eq;
  ff1_new = λ key radix. true;
  ff1_encrypt = λ key radix tweak xs. some (reverse xs);
  ff1_decrypt = λ key radix tweak xs. some (reverse xs);
}

All-replicate : (n b : ℕ) → b < 256 → AreBytes (replicate n b)
All-replicate zero b h = tt
All-replicate (suc n) b h = (h, All-replicate n b h)

length-replicate : (n b : ℕ) → length (replicate n b) ≡ n
length-replicate zero b = refl
length-replicate (suc n) b = omega (arith, length-replicate n b)

toy_hkdf_fills : (n : ℕ) (out : Str) → toy_hkdf n ≡ some out → length out ≡ n
toy_hkdf_fills n out h = elim (Bool-cases (leb n 8160)) [
  | inl e ↦
      subst (λ s. length s ≡ n) (some_inj (sym (rw (e, toy_hkdf) refl) ∙ h)) (length-replicate n 0)
  | inr e ↦ ground arith
]

toy_hkdf_expands : (n : ℕ) → n ≤ 8160 → (out : Str) × (toy_hkdf n ≡ some out)
toy_hkdf_expands n h = (replicate n 0, ground arith)

hash_bytes : AreBytes (replicate 32 7)
hash_bytes = All-replicate 32 7 (omega arith)

pub toy_hashes : HashLaws toy_crypto
toy_hashes = record {
  hkdf_fills = λ ikm info n. toy_hkdf_fills n;
  hkdf_expands = λ ikm info n. toy_hkdf_expands n;
  length_hmac = λ key message. refl;
  hmac_bytes = λ key message. hash_bytes;
  length_sha256 = λ s. refl;
  sha256_bytes = λ s. hash_bytes;
  ct_eq_iff = str_eq_iff;
}

AreBelow-reverse : (r : ℕ) (xs : List ℕ) → AreBelow r xs → AreBelow r (reverse xs)
AreBelow-reverse r [] h = tt
AreBelow-reverse r (x ∷ xs) (hx, h) =
    subst (AreBelow r) (sym (reverse-append (x ∷ []) xs))
      (All-append (λ n. n < r) (reverse xs) (x ∷ []) (AreBelow-reverse r xs h) (hx, tt))

reverse-reverse : (xs : List ℕ) → reverse (reverse xs) ≡ xs
reverse-reverse [] = refl
reverse-reverse (x ∷ xs) =
    ap reverse (reverse-append (x ∷ []) xs)
    ∙ reverse-append (reverse xs) (x ∷ [])
    ∙ ap (λ ys. x ∷ ys) (reverse-reverse xs)

toy_decrypts :
    (radix : ℕ) (ys xs : List ℕ)
    → AreBelow radix ys
    → some (reverse ys) ≡ some xs
    → AreBelow radix xs × (length xs ≡ length ys) × (some (reverse xs) ≡ some ys)
toy_decrypts radix ys xs h e =
    subst
      (λ (zs : List ℕ). AreBelow radix zs × (length zs ≡ length ys) × (some (reverse zs) ≡ some ys))
      (some_inj e) (AreBelow-reverse radix ys h, length-reverse ys, ap some (reverse-reverse ys))

pub toy_ff1 : Ff1Laws toy_crypto
toy_ff1 = record {
  new_ok = λ key radix h h' h''. refl;
  encrypts = λ key radix tweak xs h. (
    reverse xs,
    refl,
    AreBelow-reverse radix xs h.below,
    length-reverse xs,
    ap some (reverse-reverse xs),
  );
  decrypts = λ key radix tweak ys xs h e. toy_decrypts radix ys xs h e;
}

-- `f64` as whole numbers, with the logarithm rounded down.
abbrev pub toy_floats : Floats
toy_floats = record {
  F64 = ℕ;
  from_u32 = λ n. n;
  log2 = λ n. if leb 32 n then 5 else 3;
  div = λ x y. (x + y - 1) / y;
  ceil_usize = λ x. x;
}

pub toy_tail : IsTailLen base62 (mac_tail_len toy_floats base62)
unfolding mac_tail_len
toy_tail = record { fits_u32 = omega arith; fits_u64 = omega arith }

abbrev pub toy_tokenizer : FpeTokenizer
toy_tokenizer = record { ff1_key = replicate 32 0 }

abbrev pub toy_reg : FpeRegistration
toy_reg = record {
  label = codes "key";
  value = codes "k-0123456";
  tweak = replicate 16 0;
  alphabet = digits;
  prefix = codes "k-";
}

abbrev pub toy_fake : Str
toy_fake = codes "k-6543210"

pub toy_checked : check_eligibility toy_reg.value toy_reg.prefix toy_reg.alphabet ≡ eligible
unfolding check_eligibility check_body check_domain
toy_checked = refl

pub toy_scrub : scrub toy_crypto toy_tokenizer toy_reg ≡ ret (fake toy_fake)
unfolding scrub check_eligibility check_body check_domain encrypt_body
toy_scrub = refl

pub toy-IsRegistered : IsRegistered toy_reg
toy-IsRegistered = record { alphabet_ok = digits-IsAlphabet; checked = toy_checked }

pub toy_try_restore :
    try_restore toy_crypto toy_tokenizer toy_fake (toy_reg ∷ []) ≡ ret (some toy_reg.value)
unfolding try_restore try_registration decrypt_body accept
toy_try_restore = refl

-- A key whose fake nothing else has: the only registration is `toy_reg`.
pub toy_unique :
    (j : ℕ) (other : FpeRegistration)
    → get_elem? (toy_reg ∷ []) j ≡ some other
    → scrub toy_crypto toy_tokenizer other ≡ ret (fake toy_fake)
    → other.value ≡ toy_reg.value
toy_unique zero other at h = ap (λ (r : FpeRegistration). r.value) (sym (some_inj at))
toy_unique (suc j) other at h = cc

-- A matcher that finds the first place of the first pattern.
abbrev pub toy_find : List Str → Str → List (ℕ × ℕ × ℕ)
toy_find [] input = []
toy_find (v ∷ vs) input = elim (find_str v input) [
  | none ↦ []
  | some at ↦ (at, at + length v, 0) ∷ []
]

abbrev pub toy_automata : Automata
toy_automata = record { builds = λ values. true; find_iter = toy_find }
