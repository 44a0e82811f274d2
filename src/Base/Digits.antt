-- ===== src/Base/Digits.antt =====
-- Decimal text of a natural number, as `strconv` and `big.Int` print and read it.
use native.Mathlib.Nat.{pow-zero, pow-suc, mul-le-mul_right}
use native.Mathlib.Numerals.{add-one}
use cyoda_go_spi.Base.{
  ℕ, zero, suc, ◌+◌, ◌-◌, ◌*◌, ◌/◌, ◌%◌, ◌^◌, ◌≤◌, ◌<◌, ◌≡◌, refl, subst, Bool, true, false, ◌&&◌,
  [], ◌∷◌, ◌++◌, arith, Bytes, ltb, leb, length, length-append, Bool-cases, inl, inr, All,
  All-append,
}

abbrev pub is_digit : ℕ → Bool
is_digit c = leb b'0' c && leb c b'9'

abbrev pub AllDigits : Bytes → Type 0
AllDigits = All (λ c. is_digit c ≡ true)

-- The number that digits spell behind `n`.
abbrev pub value_from : ℕ → Bytes → ℕ
value_from n [] = n
value_from n (c ∷ s) = value_from (n * 10 + (c - b'0')) s

abbrev pub value : Bytes → ℕ
value = value_from 0

-- The fuel is the number itself, which falls tenfold in each round.
unfoldable pub print_from : ℕ → ℕ → Bytes
print_from zero n = []
print_from (suc f) n = elim (ltb n 10) [
  | true ↦ (b'0' + n) ∷ []
  | false ↦ print_from f (n / 10) ++ (b'0' + n % 10) ∷ []
]

unfoldable pub print : ℕ → Bytes
unfolding print_from
print n = print_from (suc n) n

pub value_from-append :
    (n : ℕ) (s t : Bytes) → value_from n (s ++ t) ≡ value_from (value_from n s) t
value_from-append n [] t = refl
value_from-append n (c ∷ s) t = value_from-append (n * 10 + (c - b'0')) s t

print_from-value : (f n : ℕ) → n < f → value (print_from f n) ≡ n
unfolding print_from
print_from-value zero n h = absurd (omega arith)
print_from-value (suc f) n h = elim (Bool-cases (ltb n 10)) [
  | inl e ↦ rw (e, print_from) (omega arith)
  | inr e ↦
      rw
        (
          e,
          print_from,
          value_from-append 0 (print_from f (n / 10)) ((b'0' + n % 10) ∷ []),
          print_from-value f (n / 10) (smaller f n h e),
        )
        (omega arith)
]
  where
    smaller : (f n : ℕ) → n < suc f → ltb n 10 ≡ false → n / 10 < f
    smaller f n h e = ground arith

-- What is printed is read back.
pub value-print : (n : ℕ) → value (print n) ≡ n
unfolding print
value-print n = print_from-value (suc n) n (omega arith)

print_from-digits : (f n : ℕ) → n < f → AllDigits (print_from f n)
unfolding print_from
print_from-digits zero n h = absurd (omega arith)
print_from-digits (suc f) n h = elim (Bool-cases (ltb n 10)) [
  | inl e ↦ rw (e, print_from) (small n e, tt)
  | inr e ↦
      rw (e, print_from)
        (All-append (λ c. is_digit c ≡ true) (print_from f (n / 10)) ((b'0' + n % 10) ∷ [])
          (print_from-digits f (n / 10) (smaller f n h e)) (last n, tt))
]
  where
    smaller : (f n : ℕ) → n < suc f → ltb n 10 ≡ false → n / 10 < f
    smaller f n h e = ground arith

    small : (n : ℕ) → ltb n 10 ≡ true → is_digit (b'0' + n) ≡ true
    small n e = ground arith

    last : (n : ℕ) → is_digit (b'0' + n % 10) ≡ true
    last n = ground arith

pub print-digits : (n : ℕ) → AllDigits (print n)
unfolding print
print-digits n = print_from-digits (suc n) n (omega arith)

print_from-pos : (f n : ℕ) → n < f → 0 < length (print_from f n)
unfolding print_from
print_from-pos zero n h = absurd (omega arith)
print_from-pos (suc f) n h = elim (Bool-cases (ltb n 10)) [
  | inl e ↦ rw (e, print_from) (omega arith)
  | inr e ↦
      rw (e, print_from, length-append (print_from f (n / 10)) ((b'0' + n % 10) ∷ [])) (omega arith)
]

pub print-pos : (n : ℕ) → 0 < length (print n)
unfolding print
print-pos n = print_from-pos (suc n) n (omega arith)

-- The number of digits places a number between two powers of ten.
value_from-lt : (n : ℕ) (s : Bytes) → AllDigits s → value_from n s < (n + 1) * 10 ^ length s
value_from-lt n [] h = rw pow-zero (omega arith)
value_from-lt n (c ∷ s) h = rw pow-suc (
    carry n (c - b'0') (10 ^ length s) (value_from (n * 10 + (c - b'0')) s) (digit_le c h.0)
      (value_from-lt (n * 10 + (c - b'0')) s h.1))
  where
    digit_le : (c : ℕ) → is_digit c ≡ true → c - b'0' ≤ 9
    digit_le c h = ground arith

    carry : (n d p v : ℕ) → d ≤ 9 → v < (n * 10 + d + 1) * p → v < (n + 1) * (p * 10)
    carry n d p v h k = omega (arith, mul-le-mul_right p (bound n d h))
      where
        bound : (n d : ℕ) → d ≤ 9 → n * 10 + d + 1 ≤ (n + 1) * 10
        bound n d h = omega arith

pub value-lt : (s : Bytes) → AllDigits s → value s < 10 ^ length s
value-lt s h = omega (arith, value_from-lt 0 s h)

-- No zero leads: a positive number has as many digits as its size asks for.
print_from-le : (f n : ℕ) → n < f → 0 < n → 10 ^ length (print_from f n) ≤ 10 * n
unfolding print_from
print_from-le zero n h p = absurd (omega arith)
print_from-le (suc f) n h p = elim (Bool-cases (ltb n 10)) [
  | inl e ↦ rw (e, print_from) (omega arith)
  | inr e ↦
      rw
        (
          e,
          print_from,
          length-append (print_from f (n / 10)) ((b'0' + n % 10) ∷ []),
          add-one,
          pow-suc,
        )
        (tens n (10 ^ length (print_from f (n / 10)))
          (print_from-le f (n / 10) (smaller f n h e) (positive n e)))
]
  where
    smaller : (f n : ℕ) → n < suc f → ltb n 10 ≡ false → n / 10 < f
    smaller f n h e = ground arith

    positive : (n : ℕ) → ltb n 10 ≡ false → 0 < n / 10
    positive n e = ground arith

    tens : (n q : ℕ) → q ≤ 10 * (n / 10) → q * 10 ≤ 10 * n
    tens n q h = omega arith

pub print-le : (n : ℕ) → 0 < n → 10 ^ length (print n) ≤ 10 * n
unfolding print
print-le n p = print_from-le (suc n) n (omega arith) p

pub lt-print : (n : ℕ) → n < 10 ^ length (print n)
lt-print n =
    subst (λ m. m < 10 ^ length (print n)) (value-print n) (value-lt (print n) (print-digits n))
