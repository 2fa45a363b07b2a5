-- ===== src/Tokenizer/Fpe/Numerals.antt =====
-- The conversions between the body of a value and its numerals.
use in_visibool.Prelude.{
  &&_left, &&_right, length, all, Str, contains_byte-find, ret, ℕ, suc, ◌≤◌, ◌<◌, ◌≡◌, refl, ap,
  true, List, [], ◌∷◌, arith,
}
use in_visibool.Tokenizer.Alphabet.{radix, contains, symbol_at, Alphabet}
use in_visibool.Tokenizer.Alphabet.Validate.{IsAlphabet}
use in_visibool.Tokenizer.Alphabet.Index.{
  symbol_at-index_of, index_of-symbol_at, contains-symbol_at,
}
use in_visibool.Tokenizer.Crypto.{AreBelow}
use in_visibool.Tokenizer.Fpe.{to_numeral, body_to_numerals, numerals_to_body}

to_numeral_lem :
    (a : Alphabet) (c : ℕ)
    → radix a ≤ 65535
    → contains a c ≡ true
    → (i : ℕ) × (to_numeral a c ≡ ret i) × (i < radix a) × (symbol_at a i ≡ ret c)
to_numeral_lem a c r h =
    let (i, p) = contains_byte-find c a.chars h in
    let (q, l) = symbol_at-index_of a c p in (i, rw p (ground arith), l, q)

-- Every body over the alphabet has numerals below the radix, and they lead back to it.
pub body_to_numerals_lem :
    (a : Alphabet) (body : Str)
    → radix a ≤ 65535
    → all (contains a) body ≡ true
    → (ns : List ℕ) × (body_to_numerals body a ≡ ret ns)
      × AreBelow (radix a) ns
      × (length ns ≡ length body)
      × (numerals_to_body ns a ≡ ret body)
body_to_numerals_lem a [] r h = ([], refl, tt, refl, refl)
body_to_numerals_lem a (c ∷ body) r h =
    let (i, p, l, q) = to_numeral_lem a c r (&&_left _ _ h) in
    let (ns, ps, ls, len, qs) = body_to_numerals_lem a body r (&&_right (contains a c) _ h) in
    (i ∷ ns, rw (p, ps) refl, (l, ls), ap suc len, rw (q, qs) refl)

symbol_at_lem :
    (a : Alphabet) (i : ℕ)
    → IsAlphabet a.chars
    → i < radix a
    → (c : ℕ) × (symbol_at a i ≡ ret c) × (to_numeral a c ≡ ret i) × (contains a c ≡ true)
symbol_at_lem a i w h =
    let (c, p, q) = index_of-symbol_at a i w.distinct h in
    (c, p, rw q (ground (arith, w.at_most)), contains-symbol_at a i p)

-- All numerals below the radix spell a body over the alphabet, with those numerals.
pub numerals_to_body_lem :
    (a : Alphabet) (ns : List ℕ)
    → IsAlphabet a.chars
    → AreBelow (radix a) ns
    → (body : Str) × (numerals_to_body ns a ≡ ret body)
      × (all (contains a) body ≡ true)
      × (length body ≡ length ns)
      × (body_to_numerals body a ≡ ret ns)
numerals_to_body_lem a [] w h = ([], refl, refl, refl, refl)
numerals_to_body_lem a (i ∷ ns) w (l, ls) =
    let (c, p, q, m) = symbol_at_lem a i w l in
    let (body, ps, ms, len, qs) = numerals_to_body_lem a ns w ls in
    (c ∷ body, rw (p, ps) refl, rw (m, ms) refl, ap suc len, rw (q, qs) refl)
