-- ===== src/HttpServer/Receive/Number.antt =====
-- The length of a body, written with std::to_string and read with std::from_chars.
use xyco.Common.{
  ℕ, zero, suc, ◌+◌, ◌-◌, ◌*◌, ◌/◌, ◌%◌, ◌^◌, ◌≡◌, ◌<◌, refl, ap, ◌∙◌, true, false, List, [], ◌∷◌,
  ◌++◌, length, ltb, ◌==◌, if◌then◌else◌, codes, is_digit, arith, length-append, Bool-cases, inl,
  inr, ℤ, pos,
}
use xyco.HttpServer.{digits, decimal}
use xyco.HttpServer.Receive.{leading_digits, number, from_chars}

abbrev AreDigits : List ℕ → Type 0
AreDigits [] = Unit
AreDigits (c ∷ cs) = (is_digit c ≡ true) × AreDigits cs

AreDigits-append : (xs ys : List ℕ) → AreDigits xs → AreDigits ys → AreDigits (xs ++ ys)
AreDigits-append [] ys h k = k
AreDigits-append (x ∷ xs) ys h k = (h.0, AreDigits-append xs ys h.1 k)

digits-AreDigits : (fuel n : ℕ) → AreDigits (digits fuel n)
unfolding digits
digits-AreDigits zero n = tt
digits-AreDigits (suc fuel) n = elim (Bool-cases (ltb n 10)) [
  | inl h ↦ rw (h, digits) (ground (arith, h), tt)
  | inr h ↦
      rw (h, digits)
        (AreDigits-append (digits fuel (n / 10)) _ (digits-AreDigits fuel (n / 10))
          (ground arith, tt))
]

leading_digits-append :
    (xs rest : List ℕ) (c : ℕ)
    → AreDigits xs
    → is_digit c ≡ false
    → leading_digits (xs ++ (c ∷ rest)) ≡ xs
leading_digits-append [] rest c h e = rw e refl
leading_digits-append (x ∷ xs) rest c h e =
    rw h.0 (ap (◌∷◌ x) (leading_digits-append xs rest c h.1 e))

number-append : (n c : ℕ) (xs : List ℕ) → number n (xs ++ (c ∷ [])) ≡ 10 * number n xs + (c - b'0')
number-append n c [] = refl
number-append n c (x ∷ xs) = number-append (10 * n + (x - b'0')) c xs

number-digits : (fuel n : ℕ) → n < fuel → number 0 (digits fuel n) ≡ n
unfolding digits
number-digits zero n h = absurd (omega arith)
number-digits (suc fuel) n h = elim (Bool-cases (ltb n 10)) [
  | inl z ↦ rw (z, digits) (omega arith)
  | inr z ↦
      rw (z, digits)
        (number-append 0 (b'0' + n % 10) (digits fuel (n / 10))
          ∙ omega (arith, number-digits fuel (n / 10) (ground (arith, z, h))))
]

length-digits : (fuel n : ℕ) → n < fuel → 0 < length (digits fuel n)
unfolding digits
length-digits zero n h = absurd (omega arith)
length-digits (suc fuel) n h = elim (Bool-cases (ltb n 10)) [
  | inl z ↦ rw (z, digits) (omega arith)
  | inr z ↦
      rw (z, digits) (omega (arith, length-append (digits fuel (n / 10)) ((b'0' + n % 10) ∷ [])))
]

from_chars-digits :
    (xs rest : List ℕ) (c : ℕ) (old : ℤ)
    → 0 < length xs
    → AreDigits xs
    → is_digit c ≡ false
    → from_chars (xs ++ (c ∷ rest)) old
      ≡ (if ltb (number 0 xs) (2 ^ 31) then pos (number 0 xs) else old)
unfolding from_chars
from_chars-digits [] rest c old l h e = absurd (omega arith)
from_chars-digits (x ∷ xs) rest c old l h e =
    let not_minus : (x == b'-') ≡ false = ground (arith, h.0) in
    rw (not_minus, from_chars) (rw (leading_digits-append (x ∷ xs) rest c h e) refl)

-- A length that std::to_string wrote, in front of the end of a line, is read as that length where it fits
-- into an int, and changes nothing otherwise.
pub from_chars-decimal :
    (n : ℕ) (old : ℤ)
    → from_chars (decimal n ++ codes "\r\n") old ≡ (if ltb n (2 ^ 31) then pos n else old)
unfolding decimal
from_chars-decimal n old =
    from_chars-digits (digits (suc n) n) (codes "\n") b'\r' old
      (length-digits (suc n) n (omega arith)) (digits-AreDigits (suc n) n) (ground arith)
    ∙ ap (λ k. if ltb k (2 ^ 31) then pos k else old) (number-digits (suc n) n (omega arith))
