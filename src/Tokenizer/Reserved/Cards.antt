-- ===== src/Tokenizer/Reserved/Cards.antt =====
-- The fake card: its digits, its check digit and its layout.
use in_visibool.Prelude.{
  ℕ, ◌==◌, if◌then◌else◌, ==_iff, &&_left, &&_right, Bool-cases, length, take, all, length-append,
  length-map, length-take, all-append, Str, starts_with, is_ascii_digit, ret, ◌+◌, ◌≡◌, refl, sym,
  ◌∙◌, ◌≢◌, ◌⊎◌, inl, inr, true, false, none, some, [], ◌∷◌, ◌++◌, map, arith,
}
use in_visibool.Tokenizer.Crypto.{Crypto, HashLaws}
use in_visibool.Tokenizer.Reserved.{
  card_visa_test_bin, digit, filter_digits, luhn_valid, overlay, card_head, fake_card_visa16,
}
use in_visibool.Tokenizer.Reserved.Luhn.{luhn_valid-check_digit}

-- The layout of a text: its length, and every byte that is no digit, where it stands.
abbrev pub layout : Str → Str
layout [] = []
layout (b ∷ s) = (if is_ascii_digit b then b'0' else b) ∷ layout s

filter_digits-all : (s : Str) → all is_ascii_digit s ≡ true → filter_digits s ≡ s
filter_digits-all [] h = refl
filter_digits-all (b ∷ s) h = ground (arith, filter_digits-all s)

cons_digit :
    (b d : ℕ) (out s digits : Str)
    → is_ascii_digit b ≡ true
    → is_ascii_digit d ≡ true
    → filter_digits out ≡ digits
    → layout out ≡ layout s
    → (filter_digits (d ∷ out) ≡ d ∷ digits) × (layout (d ∷ out) ≡ layout (b ∷ s))
cons_digit b d out s digits hb hd e l = (rw (hd, e), rw (hb, hd, l))

cons_other :
    (b : ℕ) (out s digits : Str)
    → is_ascii_digit b ≡ false
    → filter_digits out ≡ digits
    → layout out ≡ layout s
    → (filter_digits (b ∷ out) ≡ digits) × (layout (b ∷ out) ≡ layout (b ∷ s))
cons_other b out s digits hb e l = (rw (hb, e), rw (hb, l))

-- With one digit for each digit of the original, the iterator is used up and nothing else changes.
overlay_lem :
    (s digits : Str)
    → length (filter_digits s) ≡ length digits
    → all is_ascii_digit digits ≡ true
    → (out : Str) × (overlay s digits ≡ ret out)
      × (filter_digits out ≡ digits)
      × (layout out ≡ layout s)
unfolding overlay
overlay_lem [] [] e h = ([], refl, refl, refl)
overlay_lem [] (d ∷ digits) e h = absurd (omega arith)
overlay_lem (b ∷ s) [] e h = elim (Bool-cases (is_ascii_digit b)) [
  | inl hb ↦ absurd (ground arith)
  | inr hb ↦
      let (out, p, q, l) = overlay_lem s [] (ground arith) h in
      let (q', l') = cons_other b out s [] hb q l in (b ∷ out, rw (hb, p) refl, q', l')
]
overlay_lem (b ∷ s) (d ∷ digits) e h = elim (Bool-cases (is_ascii_digit b)) [
  | inl hb ↦
      let hd : is_ascii_digit d ≡ true = &&_left _ (all is_ascii_digit digits) h in
      let (out, p, q, l) = overlay_lem s digits (ground arith) (&&_right (is_ascii_digit d) _ h) in
      let (q', l') = cons_digit b d out s digits hb hd q l in (d ∷ out, rw (hb, p) refl, q', l')
  | inr hb ↦
      let (out, p, q, l) = overlay_lem s (d ∷ digits) (ground arith) h in
      let (q', l') = cons_other b out s (d ∷ digits) hb q l in (b ∷ out, rw (hb, p) refl, q', l')
]

digit_bytes : (s : Str) → all is_ascii_digit (map digit s) ≡ true
digit_bytes [] = refl
digit_bytes (b ∷ s) = ground (arith, digit_bytes s)

module _ (c : Crypto) (hashes : HashLaws c) where
  length-card_head : (seed : Str) → length (card_head c seed) ≡ 15
  length-card_head seed = omega (
    arith,
    length-map (take 11 (c.sha256 seed)) digit,
    length-take 11 (c.sha256 seed),
    hashes.length_sha256 seed,
  )

  card_made :
      (seed original : Str)
      → length (filter_digits original) ≡ 16
      → (out : Str) × (fake_card_visa16 c seed original ≡ ret (some out))
        × (layout out ≡ layout original)
        × (length (filter_digits out) ≡ 16)
        × (starts_with card_visa_test_bin (filter_digits out) ≡ true)
        × (luhn_valid (filter_digits out) ≡ true)
  unfolding fake_card_visa16
  card_made seed original h =
      let head = card_head c seed in
      let (check, p, small, ok) =
        luhn_valid-check_digit head (digit_bytes (take 11 (c.sha256 seed))) in
      let last : is_ascii_digit (b'0' + check) ≡ true = ground arith in
      let all_digits : all is_ascii_digit (head ++ ((b'0' + check) ∷ [])) ≡ true =
        all-append is_ascii_digit head _ ∙ rw (digit_bytes (take 11 (c.sha256 seed)), last) refl in
      let len : length (head ++ ((b'0' + check) ∷ [])) ≡ 16 =
        length-append head _ ∙ omega (arith, length-card_head seed) in
      let (out, q, digits, l) =
        overlay_lem original (head ++ ((b'0' + check) ∷ [])) (h ∙ sym len) all_digits in
      let test : (length (filter_digits original) == 16) ≡ true = (==_iff _ 16).1 h in
      (out, rw (test, p, q) refl, l, rw digits len, rw digits refl, rw digits ok)

  -- An original without exactly 16 digits gets no fake. Any other gets one, without panic: its
  -- layout is the original's, and its digits are 16, begin with the test BIN 4242 and are
  -- Luhn-valid.
  pub fake_card_visa16_lem :
      (seed original : Str)
      → ((length (filter_digits original) ≢ 16) × (fake_card_visa16 c seed original ≡ ret none))
        ⊎ ((out : Str) × (length (filter_digits original) ≡ 16)
            × (fake_card_visa16 c seed original ≡ ret (some out))
            × (layout out ≡ layout original)
            × (length (filter_digits out) ≡ 16)
            × (starts_with card_visa_test_bin (filter_digits out) ≡ true)
            × (luhn_valid (filter_digits out) ≡ true))
  unfolding fake_card_visa16
  fake_card_visa16_lem seed original = elim (Bool-cases (length (filter_digits original) == 16)) [
    | inl e ↦
        let sixteen = (==_iff (length (filter_digits original)) 16).0 e in
        let (out, p, l, len, bin, ok) = card_made seed original sixteen in
        inr (out, sixteen, p, l, len, bin, ok)
    | inr e ↦ inl (ground arith, rw e refl)
  ]
