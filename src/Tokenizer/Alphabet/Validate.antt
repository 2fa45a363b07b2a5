-- ===== src/Tokenizer/Alphabet/Validate.antt =====
-- What `Alphabet::try_custom` accepts, and which error it gives for what it refuses.
use in_visibool.Prelude.{
  ℕ, Bool-cases, length, any, All, Str, contains_byte, is_ascii, is_whitespace, ◌≤◌, ◌≡◌, refl, ◌↔◌,
  inl, inr, Bool, true, false, [], ◌∷◌, arith,
}
use in_visibool.Tokenizer.Alphabet.{
  base62, digits, valid, mark, find_duplicate, validate, try_custom,
}

-- No byte occurs twice.
abbrev pub IsDistinct : Str → Type 0
IsDistinct [] = Unit {0}
IsDistinct (c ∷ s) = (contains_byte c s ≡ false) × IsDistinct s

-- The four rules of the module's documentation.
pub record IsAlphabet (chars : Str) : Type 0 where
  pub ascii : is_ascii chars ≡ true
  pub no_whitespace : any is_whitespace chars ≡ false
  pub at_least_two : 2 ≤ length chars
  pub at_most : length chars ≤ 65535
  pub distinct : IsDistinct chars

-- `s` has no byte marked in `seen`.
abbrev Unseen : (ℕ → Bool) → Str → Type 0
Unseen seen s = All (λ c. seen c ≡ false) s

Unseen-mark :
    (seen : ℕ → Bool) (c : ℕ) (s : Str)
    → Unseen seen s
    → contains_byte c s ≡ false
    → Unseen (mark seen c) s
Unseen-mark seen c [] u h = tt
Unseen-mark seen c (d ∷ s) (hd, u) h = (ground arith, Unseen-mark seen c s u (ground arith))

mark-Unseen :
    (seen : ℕ → Bool) (c : ℕ) (s : Str)
    → Unseen (mark seen c) s
    → Unseen seen s × (contains_byte c s ≡ false)
mark-Unseen seen c [] u = (tt, refl)
mark-Unseen seen c (d ∷ s) (hd, u) =
    let (us, hs) = mark-Unseen seen c s u in ((ground arith, us), ground arith)

find_duplicate-valid :
    (seen : ℕ → Bool) (s : Str) → Unseen seen s → IsDistinct s → find_duplicate seen s ≡ valid tt
unfolding find_duplicate
find_duplicate-valid seen [] u d = refl
find_duplicate-valid seen (c ∷ s) (hc, u) (hd, d) =
    rw hc (find_duplicate-valid (mark seen c) s (Unseen-mark seen c s u hd) d)

find_duplicate-inv :
    (seen : ℕ → Bool) (s : Str) → find_duplicate seen s ≡ valid tt → Unseen seen s × IsDistinct s
unfolding find_duplicate
find_duplicate-inv seen [] h = (tt, tt)
find_duplicate-inv seen (c ∷ s) h = elim (Bool-cases (seen c)) [
  | inl e ↦ ground arith
  | inr e ↦
      let (u, d) = find_duplicate-inv (mark seen c) s (ground arith) in
      let (u', hc) = mark-Unseen seen c s u in ((e, u'), (hc, d))
]

Unseen-none : (s : Str) → Unseen (λ b. false) s
Unseen-none [] = tt
Unseen-none (c ∷ s) = (refl, Unseen-none s)

validate-valid : (chars : Str) → IsAlphabet chars → validate chars ≡ valid tt
unfolding validate
validate-valid chars a =
    rw (a.ascii, a.no_whitespace)
      (ground (
        arith,
        a.at_least_two,
        a.at_most,
        find_duplicate-valid (λ b. false) chars (Unseen-none chars) a.distinct,
      ))

validate-inv : (chars : Str) → validate chars ≡ valid tt → IsAlphabet chars
unfolding validate
validate-inv chars h = record {
  ascii = ground arith;
  no_whitespace = ground arith;
  at_least_two = ground arith;
  at_most = ground arith;
  distinct = (find_duplicate-inv (λ b. false) chars (ground arith)).1;
}

-- `try_custom` succeeds exactly on the character sets that meet the four documented rules (ASCII,
-- no whitespace, 2 to 65535 symbols, all distinct), and the alphabet has those characters in order.
try_custom_iff :
    (chars : Str) → (try_custom chars ≡ valid (record { chars = chars })) ↔ IsAlphabet chars
unfolding try_custom validate find_duplicate
try_custom_iff chars =
    (λ h. validate-inv chars (from h), λ a. rw (validate-valid chars a, try_custom))
  where
    from : try_custom chars ≡ valid (record { chars = chars }) → validate chars ≡ valid tt
    from h = ground arith

base62_accepted : try_custom base62.chars ≡ valid base62
unfolding try_custom validate find_duplicate
base62_accepted = refl

pub base62-IsAlphabet : IsAlphabet base62.chars
base62-IsAlphabet = (try_custom_iff base62.chars).0 base62_accepted

digits_accepted : try_custom digits.chars ≡ valid digits
unfolding try_custom validate find_duplicate
digits_accepted = refl

pub digits-IsAlphabet : IsAlphabet digits.chars
digits-IsAlphabet = (try_custom_iff digits.chars).0 digits_accepted
