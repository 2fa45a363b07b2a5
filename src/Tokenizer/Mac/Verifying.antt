-- ===== src/Tokenizer/Mac/Verifying.antt =====
-- `verify` recognises what `make_macfake` produces, and nothing without the right tail.
use in_visibool.Prelude.{
  none, ltb, leb, length, take, drop, all, length-append, take-append-drop, take-append,
  drop-append, all-append, Str, contains_byte, is_ascii, map_run, ret, ℕ, suc, ◌+◌, ◌-◌, ◌%◌, ◌≤◌,
  ◌<◌, ◌≡◌, refl, sym, ap, ◌∙◌, true, false, some, [], ◌∷◌, ◌++◌, arith,
}
use in_visibool.Tokenizer.Alphabet.{radix, contains, symbol_at, mac_tail_len, Alphabet, Floats}
use in_visibool.Tokenizer.Alphabet.Validate.{IsAlphabet}
use in_visibool.Tokenizer.Alphabet.Index.{index_of-symbol_at, contains-symbol_at}
use in_visibool.Tokenizer.Crypto.{Crypto, HashLaws}
use in_visibool.Tokenizer.Mac.{mac_tail, verify, derive_body, make_macfake}
use in_visibool.Tokenizer.Mac.Encoding.{encode_to_alphabet_lem, IsTailLen}
use native.Mathlib.Nat.{mod-lt}

-- The symbols of an ASCII alphabet are ASCII.
contains-is_ascii :
    (chars : Str) (b : ℕ) → is_ascii chars ≡ true → contains_byte b chars ≡ true → ltb b 128 ≡ true
contains-is_ascii [] b h k = ground arith
contains-is_ascii (d ∷ s) b h k = ground (arith, contains-is_ascii s b)

over-is_ascii :
    (a : Alphabet) (s : Str)
    → is_ascii a.chars ≡ true
    → all (contains a) s ≡ true
    → is_ascii s ≡ true
over-is_ascii a [] h k = refl
over-is_ascii a (b ∷ s) h k = ground (arith, contains-is_ascii a.chars b h, over-is_ascii a s h)

-- Every byte modulo the radix has a symbol.
symbols_of_bytes :
    (a : Alphabet) (out : Str)
    → IsAlphabet a.chars
    → (body : Str) × (map_run (λ b. symbol_at a (b % radix a)) out ≡ ret body)
      × (length body ≡ length out)
      × (all (contains a) body ≡ true)
symbols_of_bytes a [] w = ([], refl, refl, refl)
symbols_of_bytes a (b ∷ out) w =
    let (ch, p, _) =
      index_of-symbol_at a (b % radix a) w.distinct (mod-lt b (omega (arith, w.at_least_two))) in
    let (body, ps, len, over) = symbols_of_bytes a out w in
    (ch ∷ body, rw (p, ps) refl, ap suc len, rw (contains-symbol_at a _ p, over) refl)

module _ (f : Floats) (c : Crypto) (hashes : HashLaws c) (key : Str) (a : Alphabet)
    (w : IsAlphabet a.chars) (fits : IsTailLen a (mac_tail_len f a)) where
  derive_body_lem :
      (real_value : Str) (n : ℕ)
      → n ≤ 8160
      → (body : Str) × (derive_body f c key real_value n a ≡ ret body)
        × (length body ≡ n)
        × (all (contains a) body ≡ true)
  unfolding derive_body
  derive_body_lem real_value n h =
      let (out, p) = hashes.hkdf_expands key real_value n h in
      let (body, q, len, over) = symbols_of_bytes a out w in
      (body, rw (p, q) refl, len ∙ hashes.hkdf_fills key real_value n out p, over)

  mac_tail_lem :
      (body : Str)
      → (tail : Str) × (mac_tail f c key body a ≡ ret tail)
        × (length tail ≡ mac_tail_len f a)
        × (all (contains a) tail ≡ true)
  unfolding mac_tail
  mac_tail_lem body =
      let (tail, p, len, over, _) = encode_to_alphabet_lem f c (c.hmac_sha256 key body) a w fits in
      (tail, p, len, over)

  -- For a valid alphabet, a body over the alphabet followed by its own tail verifies.
  pub verify-append :
      (body : Str) {tail : Str}
      → all (contains a) body ≡ true
      → mac_tail f c key body a ≡ ret tail
      → verify f c key (body ++ tail) a ≡ ret true
  unfolding verify
  verify-append body {tail} over h =
      let (tail', h', len', over') = mac_tail_lem body in
      let same : tail' ≡ tail = cc (h, h') in
      let len : length tail ≡ mac_tail_len f a = rw (← same) len' in
      let over_tail : all (contains a) tail ≡ true = rw (← same) over' in
      let total : length (body ++ tail) ≡ length body + mac_tail_len f a =
        length-append body tail ∙ ap (λ n. length body + n) len in
      let ascii : is_ascii (body ++ tail) ≡ true =
        over-is_ascii a (body ++ tail) w.ascii
          (all-append (contains a) body tail ∙ rw (over, over_tail) refl) in
      let long : ltb (length (body ++ tail)) (mac_tail_len f a) ≡ false = ground (arith, total) in
      let split : length (body ++ tail) - mac_tail_len f a ≡ length body = omega (arith, total) in
      let equal = (hashes.ct_eq_iff tail tail).1 refl in
      rw
        (
          ascii,
          long,
          split,
          take-append body tail,
          drop-append body tail,
          over_tail,
          h,
          equal,
          verify,
        )
        refl

  -- For a valid alphabet whose tail length K fits the machine integers, a value of more than K bytes
  -- (up to what HKDF can expand) gets a fake of its own length over the alphabet, which verifies
  -- under the same key.
  pub make_macfake_lem :
      (real_value : Str)
      → mac_tail_len f a < length real_value
      → length real_value ≤ mac_tail_len f a + 8160
      → (s : Str) × (make_macfake f c key real_value a ≡ ret (some s))
        × (length s ≡ length real_value)
        × (all (contains a) s ≡ true)
        × (verify f c key s a ≡ ret true)
  unfolding make_macfake
  make_macfake_lem real_value long short =
      let (body, p, len, over) =
        derive_body_lem real_value (length real_value - mac_tail_len f a) (omega arith) in
      let (tail, q, len', over') = mac_tail_lem body in
      let test : leb (length real_value) (mac_tail_len f a) ≡ false = ground arith in
      (
        body ++ tail,
        rw (test, p, q) refl,
        length-append body tail ∙ omega arith,
        all-append (contains a) body tail ∙ rw (over, over') refl,
        verify-append body over q,
      )

  -- For a valid alphabet, what verifies is ASCII and ends with the tail of what precedes it.
  pub verify_sound :
      (candidate : Str)
      → verify f c key candidate a ≡ ret true
      → (body tail : Str) × (candidate ≡ body ++ tail)
        × (mac_tail f c key body a ≡ ret tail)
        × (is_ascii candidate ≡ true)
  unfolding verify
  verify_sound candidate h =
      let split = length candidate - mac_tail_len f a in
      let body = take split candidate in
      let claimed = drop split candidate in
      let (tail, p, _, _) = mac_tail_lem body in
      let ascii : is_ascii candidate ≡ true = ground arith in
      let long : ltb (length candidate) (mac_tail_len f a) ≡ false = ground arith in
      let over : all (contains a) claimed ≡ true = ground arith in
      let equal : c.ct_eq tail claimed ≡ true = ground arith in
      let same : tail ≡ claimed = (hashes.ct_eq_iff tail claimed).0 equal in
      (body, claimed, sym (take-append-drop split candidate), p ∙ ap ret same, ascii)

-- A value of at most K bytes gets no fake.
pub make_macfake-none :
    (f : Floats) (c : Crypto) (key real_value : Str) (a : Alphabet)
    → leb (length real_value) (mac_tail_len f a) ≡ true
    → make_macfake f c key real_value a ≡ ret none
unfolding make_macfake
make_macfake-none f c key real_value a h = rw (h, make_macfake)
