-- ===== src/Idempotence/Ranges.antt =====
-- The fakes of reserved.rs lie in the ranges that the idempotence layer recognises.
use in_visibool.Prelude.{
  ℕ, leb, ==_iff, length, length-append, drop-append, Str, starts_with, ends_with, is_ascii_digit,
  str_eq_refl, ret, ◌+◌, ◌-◌, ◌/◌, ◌%◌, ◌<◌, ◌≡◌, refl, ◌⊎◌, inl, inr, true, none, some, ◌++◌,
  arith,
}
use in_visibool.Tokenizer.Crypto.{Crypto, HashLaws}
use in_visibool.Tokenizer.Reserved.{
  email_domain, ipv4_rfc5737_prefix, phone_reserved_prefix, card_visa_test_bin, show_two,
  filter_digits, fake_email, fake_ipv4, fake_phone, fake_card_visa16,
}
use in_visibool.Tokenizer.Reserved.Cards.{fake_card_visa16_lem}
use in_visibool.Idempotence.{
  is_email_example_domain, is_ipv4_rfc5737, is_phone_555_01, is_card_test_bin_4242,
  is_in_reserved_range,
}

ends_with-append : (s suffix : Str) → ends_with suffix (s ++ suffix) ≡ true
ends_with-append s suffix =
    let len = length-append s suffix in
    let long : leb (length suffix) (length (s ++ suffix)) ≡ true = ground (arith, len) in
    let cut : length (s ++ suffix) - length suffix ≡ length s = omega (arith, len) in
    rw (long, cut, drop-append s suffix) (str_eq_refl suffix)

any_range :
    (s : Str)
    → (is_email_example_domain s ≡ true)
      ⊎ (is_ipv4_rfc5737 s ≡ true)
      ⊎ (is_phone_555_01 s ≡ true)
      ⊎ (is_card_test_bin_4242 s ≡ true)
    → is_in_reserved_range s ≡ true
unfolding is_in_reserved_range
any_range s h = ground arith

email_recognised : (s : Str) → is_email_example_domain (s ++ email_domain) ≡ true
unfolding is_email_example_domain
email_recognised s = rw (ends_with-append s email_domain)

phone_recognised : (n : ℕ) → n < 100 → is_phone_555_01 (phone_reserved_prefix ++ show_two n) ≡ true
unfolding is_phone_555_01
phone_recognised n h =
    let tens : is_ascii_digit (b'0' + n / 10) ≡ true = ground arith in
    let ones : is_ascii_digit (b'0' + n % 10) ≡ true = ground arith in rw (tens, ones)

ipv4_recognised : (s : Str) → is_ipv4_rfc5737 (ipv4_rfc5737_prefix ++ s) ≡ true
unfolding is_ipv4_rfc5737
ipv4_recognised s = refl

card_recognised :
    (out : Str)
    → length (filter_digits out) ≡ 16
    → starts_with card_visa_test_bin (filter_digits out) ≡ true
    → is_card_test_bin_4242 out ≡ true
unfolding is_card_test_bin_4242
card_recognised out len bin = rw (bin, (==_iff _ 16).1 len)

module _ (c : Crypto) (hashes : HashLaws c) where
  -- Every email, IPv4 and phone fake is in a reserved range, and so is the card fake of an original
  -- that gets one.
  reserved_fakes_recognised :
      (seed original : Str)
      → (is_in_reserved_range (fake_email c seed) ≡ true)
        × (is_in_reserved_range (fake_ipv4 c seed) ≡ true)
        × (is_in_reserved_range (fake_phone c seed) ≡ true)
        × ((fake_card_visa16 c seed original ≡ ret none)
            ⊎ ((out : Str) × (fake_card_visa16 c seed original ≡ ret (some out))
                × (is_in_reserved_range out ≡ true)))
  unfolding fake_email fake_ipv4 fake_phone
  reserved_fakes_recognised seed original = (
    any_range _ (inl (email_recognised _)),
    any_range _ (inr (inl (ipv4_recognised _))),
    any_range _ (inr (inr (inl (phone_recognised _ (omega arith))))),
    elim (fake_card_visa16_lem c hashes seed original) [
      | inl (_, p) ↦ inl p
      | inr (out, _, p, _, len, bin, _) ↦
          inr (out, p, any_range out (inr (inr (inr (card_recognised out len bin)))))
    ],
  )
