-- ===== src/Parse/Number.antt =====
-- The numbers that mp4tag_process_tag of mp4tagparse.c prints, read back as mp4tag_build_append of
-- mp4tagwrite.c reads them.
use libmp4tag.CString.{Bytes, is_space, is_digit, digits_value, atoi, atoll, clamp_64, c_string}
use libmp4tag.Parse.Print.{decimal, show_u64, show_signed}
use libmp4tag.Prelude.{
  ℕ, zero, suc, ◌+◌, ◌-◌, ◌*◌, ◌/◌, ◌%◌, ◌^◌, ◌<◌, ◌≤◌, ◌≡◌, refl, ap, ◌∙◌, true, false, Bool-cases,
  inl, inr, All, [], ◌∷◌, ◌++◌, ltb, ltb→lt, ◌==◌, if_ind, arith,
}
use libmp4tag.Write.Item.{to_u64}
use libmp4tag.Prelude.Int.{pos, neg}

abbrev AllDigits : Bytes → Type 0
AllDigits xs = All (λ c. is_digit c ≡ true) xs

AllDigits-append : (xs ys : Bytes) → AllDigits xs → AllDigits ys → AllDigits (xs ++ ys)
AllDigits-append [] ys h k = k
AllDigits-append (x ∷ xs) ys h k = (h.0, AllDigits-append xs ys h.1 k)

last_digit : (n : ℕ) → is_digit (b'0' + n % 10) ≡ true
last_digit n = ground arith

decimal-AllDigits : (fuel n : ℕ) → AllDigits (decimal fuel n)
unfolding decimal
decimal-AllDigits zero n = tt
decimal-AllDigits (suc fuel) n =
    if_ind AllDigits (ltb n 10) (λ e. (last_digit n, tt))
      (λ e.
        AllDigits-append (decimal fuel (n / 10)) _ (decimal-AllDigits fuel (n / 10))
          (last_digit n, tt))

digits_value-append :
    (acc : ℕ) (xs : Bytes) (d : ℕ)
    → AllDigits xs
    → is_digit d ≡ true
    → digits_value acc (xs ++ (d ∷ [])) ≡ digits_value acc xs * 10 + (d - b'0')
unfolding digits_value
digits_value-append acc [] d h k = rw k refl
digits_value-append acc (x ∷ xs) d h k =
    rw h.0 (digits_value-append (acc * 10 + (x - b'0')) xs d h.1 k)

digits_value-decimal : (fuel n : ℕ) → n < 10 ^ fuel → digits_value 0 (decimal fuel n) ≡ n
unfolding decimal digits_value
digits_value-decimal zero n h = omega arith
digits_value-decimal (suc fuel) n h = elim (Bool-cases (ltb n 10)) [
  | inl e ↦
      rw (decimal, e)
        (digits_value-append 0 [] (b'0' + n % 10) tt (last_digit n)
          ∙ (let small : n < 10 = ltb→lt n 10 e in omega arith))
  | inr e ↦
      let rest = digits_value-decimal fuel (n / 10) (omega arith) in
      rw (decimal, e)
        (digits_value-append 0 (decimal fuel (n / 10)) (b'0' + n % 10)
            (decimal-AllDigits fuel (n / 10)) (last_digit n)
          ∙ rw rest (omega arith))
]

atoi-digits : (xs : Bytes) → AllDigits xs → atoi xs ≡ pos (digits_value 0 xs)
unfolding atoi digits_value
atoi-digits [] h = refl
atoi-digits (c ∷ cs) h =
    let no_space : is_space c ≡ false = ground (arith, h.0) in
    let no_minus : (c == b'-') ≡ false = ground (arith, h.0) in
    let no_plus : (c == b'+') ≡ false = ground (arith, h.0) in rw (no_space, no_minus, no_plus) refl

atoi-minus : (xs : Bytes) → atoi (b'-' ∷ xs) ≡ neg (pos (digits_value 0 xs))
unfolding atoi
atoi-minus xs = refl

digits_value-show_u64 : (n : ℕ) → n < 2 ^ 64 → digits_value 0 (show_u64 n) ≡ n
digits_value-show_u64 n h = digits_value-decimal 20 n (omega arith)

atoi-show_u64 : (n : ℕ) → n < 2 ^ 64 → atoi (show_u64 n) ≡ pos n
atoi-show_u64 n h =
    atoi-digits (show_u64 n) (decimal-AllDigits 20 n) ∙ ap pos (digits_value-show_u64 n h)

clamp_64-pos : (n : ℕ) → n < 2 ^ 63 → clamp_64 (pos n) ≡ pos n
clamp_64-pos n h = ground arith

to_u64-clamp_64-neg : (m : ℕ) → 0 < m → m ≤ 2 ^ 63 → to_u64 (clamp_64 (neg (pos m))) ≡ 2 ^ 64 - m
to_u64-clamp_64-neg m h le = ground arith

pub to_u64-atoll-show_u64 : (n : ℕ) → n < 2 ^ 63 → to_u64 (atoll (show_u64 n)) ≡ n
to_u64-atoll-show_u64 n h =
    rw (atoi-show_u64 n (omega (arith, h)), clamp_64-pos n h) (omega (arith, h))

to_u64-atoll_minus : (m : ℕ) → 0 < m → m ≤ 2 ^ 63 → to_u64 (atoll (b'-' ∷ show_u64 m)) ≡ 2 ^ 64 - m
to_u64-atoll_minus m h le =
    ap (λ k. to_u64 (clamp_64 k))
      (atoi-minus (show_u64 m) ∙ ap (λ k. neg (pos k)) (digits_value-show_u64 m (omega arith)))
    ∙ to_u64-clamp_64-neg m h le

-- For a 32-bit number, the text that the parser prints for it as a signed number is read back by the
-- writer, with atoll and the conversion to uint64_t, as a number with the same 32 bits.
pub to_u64-show_signed_32 :
    (n : ℕ) → n < 2 ^ 32 → (k : ℕ) × (to_u64 (atoll (show_signed 32 n)) ≡ n + k * 2 ^ 32)
to_u64-show_signed_32 n h = elim (Bool-cases (ltb n (2 ^ 31))) [
  | inl e ↦ (0, rw e (to_u64-atoll-show_u64 n (omega arith) ∙ omega arith))
  | inr e ↦ (
    2 ^ 32 - 1,
    rw e (to_u64-atoll_minus (2 ^ 32 - n) (omega arith) (omega arith) ∙ omega (arith, h)),
  )
]

-- For a 64-bit number, the text that the parser prints for it as a signed number is read back by the
-- writer, with atoll and the conversion to uint64_t, as that number.
pub to_u64-show_signed_64 : (n : ℕ) → n < 2 ^ 64 → to_u64 (atoll (show_signed 64 n)) ≡ n
to_u64-show_signed_64 n h = elim (Bool-cases (ltb n (2 ^ 63))) [
  | inl e ↦ rw e (to_u64-atoll-show_u64 n (ltb→lt n (2 ^ 63) e))
  | inr e ↦
      let high : 2 ^ 63 ≤ n = ground arith in
      rw e (to_u64-atoll_minus (2 ^ 64 - n) (omega arith) (omega arith) ∙ omega (arith, h))
]

-- The text has no terminator in it.
c_string-digits : (xs : Bytes) → AllDigits xs → c_string xs ≡ xs
unfolding c_string
c_string-digits [] h = refl
c_string-digits (x ∷ xs) h =
    let not_zero : (x == 0) ≡ false = ground (arith, h.0) in
    rw not_zero (ap (◌∷◌ x) (c_string-digits xs h.1))

pub c_string-show_u64 : (n : ℕ) → c_string (show_u64 n) ≡ show_u64 n
c_string-show_u64 n = c_string-digits (show_u64 n) (decimal-AllDigits 20 n)

pub c_string-show_signed : (w n : ℕ) → c_string (show_signed w n) ≡ show_signed w n
unfolding c_string
c_string-show_signed w n =
    if_ind (λ (text : Bytes). c_string text ≡ text) (ltb n (2 ^ (w - 1))) (λ e. c_string-show_u64 n)
      (λ e. ap (◌∷◌ b'-') (c_string-show_u64 (2 ^ w - n)))
