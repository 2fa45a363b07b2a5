-- ===== src/Tokenizer/Reserved/Luhn.antt =====
-- The check digit makes a number Luhn-valid.
use in_visibool.Prelude.{
  ==_iff, &&_left, &&_right, length, all, length-append, Str, is_ascii_digit, ret, ℕ, ◌+◌, ◌-◌, ◌%◌,
  ◌<◌, ◌≡◌, refl, ap, ◌∙◌, true, some, [], ◌∷◌, ◌++◌, arith,
}
use in_visibool.Tokenizer.Reserved.{
  to_digit, weigh, luhn_check_loop, luhn_check_digit, luhn_valid_loop, luhn_valid,
}

check_step :
    (n i sum b d : ℕ) (s : Str)
    → to_digit b ≡ some d
    → luhn_check_loop n i sum (b ∷ s) ≡ luhn_check_loop n (i + 1) (sum + weigh (n - i) d) s
unfolding luhn_check_loop
check_step n i sum b d s e = rw (e, luhn_check_loop)

valid_step :
    (n i sum b d : ℕ) (s : Str)
    → to_digit b ≡ some d
    → luhn_valid_loop n i sum (b ∷ s) ≡ luhn_valid_loop n (i + 1) (sum + weigh (n - 1 - i) d) s
unfolding luhn_valid_loop
valid_step n i sum b d s e = rw (e, luhn_valid_loop)

to_digit-some : (b : ℕ) → is_ascii_digit b ≡ true → to_digit b ≡ some (b - b'0')
to_digit-some b h = rw h

to_digit_of : (d : ℕ) → d < 10 → to_digit (b'0' + d) ≡ some d
to_digit_of d h = ground arith

-- The last digit, at position 0 from the right, counts as it is.
weigh_last : (m i d : ℕ) → m - 1 - i ≡ 0 → d < 10 → weigh (m - 1 - i) d ≡ d
weigh_last m i d e h = ground arith

-- The loop without the check digit, and the loop with it, which counts one position more.
loops_agree :
    (n m i sum : ℕ) (s : Str) (check : ℕ)
    → all is_ascii_digit s ≡ true
    → i + length s ≡ n
    → m ≡ n + 1
    → check < 10
    → (total : ℕ) × (luhn_check_loop n i sum s ≡ ret total)
      × (luhn_valid_loop m i sum (s ++ ((b'0' + check) ∷ [])) ≡ some (total + check))
loops_agree n m i sum [] check h e em k = (
  sum,
  unfold luhn_check_loop in refl,
  valid_step m i sum _ check [] (to_digit_of check k)
      ∙ unfold luhn_valid_loop in ap (λ w. some (sum + w)) (weigh_last m i check (omega arith) k),
)
loops_agree n m i sum (b ∷ s) check h e em k =
    let d = to_digit-some b (&&_left _ (all is_ascii_digit s) h) in
    let sum' = sum + weigh (n - i) (b - b'0') in
    let (total, p, q) =
      loops_agree n m (i + 1) sum' s check (&&_right (is_ascii_digit b) _ h) (omega arith) em k in
    let same : m - 1 - i ≡ n - i = omega arith in
    (
      total,
      check_step n i sum b _ s d ∙ p,
      valid_step m i sum b _ _ d
          ∙ ap
              (λ w.
                luhn_valid_loop m (i + 1) (sum + weigh w (b - b'0')) (s ++ ((b'0' + check) ∷ [])))
              same
          ∙ q,
    )

luhn_valid_of :
    (s : Str) (total : ℕ)
    → luhn_valid_loop (length s) 0 0 s ≡ some total
    → total % 10 ≡ 0
    → luhn_valid s ≡ true
unfolding luhn_valid
luhn_valid_of s total e h = rw (e, luhn_valid) ((==_iff _ 0).1 h)

-- For ASCII digits, the check digit is computed without panic, is below 10, and appended to them
-- it makes a number that `luhn_valid` accepts.
pub luhn_valid-check_digit :
    (digits : Str)
    → all is_ascii_digit digits ≡ true
    → (check : ℕ) × (luhn_check_digit digits ≡ ret check)
      × (check < 10)
      × (luhn_valid (digits ++ ((b'0' + check) ∷ [])) ≡ true)
unfolding luhn_check_digit
luhn_valid-check_digit digits h =
    let n = length digits in
    let (total, p, _) = loops_agree n (n + 1) 0 0 digits 0 h (omega arith) refl (omega arith) in
    let check = (10 - total % 10) % 10 in
    let small : check < 10 = omega arith in
    let len : length (digits ++ ((b'0' + check) ∷ [])) ≡ n + 1 =
      length-append digits _ ∙ omega arith in
    let (total', p', q) = loops_agree n _ 0 0 digits check h (omega arith) len small in
    let same : total' ≡ total = cc (p, p') in
    (check, rw p refl, small, luhn_valid_of _ _ q (omega arith))
