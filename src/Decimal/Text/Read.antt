-- ===== src/Decimal/Text/Read.antt =====
-- What `ParseDecimal` reads from digits with at most one point.
use cyoda_go_spi.Base.{
  ℕ, ◌^◌, ◌<◌, ◌≡◌, refl, arith, ◌==◌, Bool, true, false, not, ◌&&◌, ◌||◌, [], ◌∷◌, ◌++◌, Option,
  none, some, Bytes, codes, length, all_of, All, All-append,
}
use cyoda_go_spi.Base.Int.{pos, ◌-ℤ◌, ltb_ℤ, eq_of_parts}
use cyoda_go_spi.Base.Digits.{is_digit, AllDigits, value}
use cyoda_go_spi.Operators.{same_bytes}
use cyoda_go_spi.Decimal.{Decimal, min_int32, max_int32}
use cyoda_go_spi.Decimal.Text.{
  to_lower, one_of, non_numeric, contains_byte, cut_at, is_exponent, sign_of, is_empty, signed,
  read_exponent, build, with_exponent, read_parts, split_point, read_mantissa, split_exponent,
  parse_decimal, wrap_int64,
}

cut_at-none : (p : ℕ → Bool) (s : Bytes) → All (λ c. p c ≡ false) s → cut_at p s ≡ none
unfolding cut_at
cut_at-none p [] h = refl
cut_at-none p (c ∷ s) (h, hs) = rw (h, cut_at-none p s hs) refl

cut_at-some :
    (p : ℕ → Bool) (a b : Bytes) (c : ℕ)
    → All (λ c. p c ≡ false) a
    → p c ≡ true
    → cut_at p (a ++ c ∷ b) ≡ some (a, b)
unfolding cut_at
cut_at-some p [] b c h k = rw k refl
cut_at-some p (x ∷ a) b c (h, hs) k = rw (h, cut_at-some p a b c hs k) refl

digits_avoid :
    (p : ℕ → Bool)
    → ((c : ℕ) → is_digit c ≡ true → p c ≡ false)
    → (s : Bytes) → AllDigits s
    → All (λ c. p c ≡ false) s
digits_avoid p h [] d = tt
digits_avoid p h (c ∷ s) (d, ds) = (h c d, digits_avoid p h s ds)

all_digits : (s : Bytes) → AllDigits s → all_of is_digit s ≡ true
all_digits [] h = refl
all_digits (c ∷ s) (h, hs) = rw (h, all_digits s hs) refl

-- The digits of a whole part that is not empty, and a fraction that is not empty where there is a point.
abbrev pub with_point : Bytes → Bytes → Bytes
with_point ip [] = ip
with_point ip (f ∷ fp) = ip ++ b'.' ∷ f ∷ fp

abbrev pub text_of : ℕ → Bytes → Bytes → Bytes
text_of c ip fp = c ∷ with_point ip fp

no_exponent : (c : ℕ) → is_digit c ≡ true → is_exponent c ≡ false
no_exponent c h = ground (arith, h)

no_point : (c : ℕ) → is_digit c ≡ true → (c == b'.') ≡ false
no_point c h = ground (arith, h)

text-no_exponent :
    (c : ℕ) (ip fp : Bytes)
    → is_digit c ≡ true
    → AllDigits ip
    → AllDigits fp
    → All (λ c. is_exponent c ≡ false) (text_of c ip fp)
text-no_exponent c ip [] h hi hf = (no_exponent c h, digits_avoid is_exponent no_exponent ip hi)
text-no_exponent c ip (f ∷ fp) h hi hf = (
  no_exponent c h,
  All-append _ ip _ (digits_avoid is_exponent no_exponent ip hi)
      (refl, digits_avoid is_exponent no_exponent (f ∷ fp) hf),
)

not_a_word : (c : ℕ) (s : Bytes) → is_digit c ≡ true → one_of (to_lower (c ∷ s)) non_numeric ≡ false
unfolding to_lower one_of
not_a_word c s h = ground (arith, h)

not_a_word_signed :
    (c : ℕ) (s : Bytes) → is_digit c ≡ true → one_of (to_lower (b'-' ∷ c ∷ s)) non_numeric ≡ false
unfolding to_lower one_of
not_a_word_signed c s h = ground (arith, h)

wrap-small : (n : ℕ) → n < 2 ^ 31 → wrap_int64 (pos n -ℤ pos 0) ≡ pos n
unfolding wrap_int64 ◌-ℤ◌
wrap-small n h = eq_of_parts _ _ (ground arith)

no_plus : (c : ℕ) → is_digit c ≡ true → (c == b'+') ≡ false
no_plus c h = ground (arith, h)

no_minus : (c : ℕ) → is_digit c ≡ true → (c == b'-') ≡ false
no_minus c h = ground (arith, h)

-- What the parts spell.
abbrev pub Spells : Bool → Bytes → Bytes → Option Decimal → Type 0
Spells minus ip fp r =
    r ≡ some (record { unscaled = signed minus (value (ip ++ fp)); scale = pos (length fp) })

build-Spells :
    (minus : Bool) (ip fp : Bytes)
    → length fp < 2 ^ 31
    → Spells minus ip fp (build minus ip fp (pos 0))
unfolding build
build-Spells minus ip fp h = rw (wrap-small (length fp) h, in_range) refl
  where
    in_range : (ltb_ℤ max_int32 (pos (length fp)) || ltb_ℤ (pos (length fp)) min_int32) ≡ false
    in_range = ground arith

point_free : (s : Bytes) → AllDigits s → contains_byte b'.' s ≡ false
point_free [] h = refl
point_free (c ∷ s) (h, hs) = rw (no_point c h, point_free s hs) refl

read_parts-Spells :
    (minus : Bool) (c : ℕ) (ip fp : Bytes)
    → is_digit c ≡ true
    → AllDigits ip
    → AllDigits fp
    → length fp < 2 ^ 31
    → Spells minus (c ∷ ip) fp (read_parts minus (not (is_empty fp)) (c ∷ ip) fp none)
unfolding read_parts with_exponent read_exponent
read_parts-Spells minus c ip fp h hi hf l =
    rw (point_free fp hf, no_bare_point, all_digits ip hi, all_digits fp hf, h)
      (build-Spells minus (c ∷ ip) fp l)
  where
    no_bare_point : (same_bytes (c ∷ ip) (codes "0") && is_empty fp && not (is_empty fp)) ≡ false
    no_bare_point = ground arith

split_point-Spells :
    (minus : Bool) (c : ℕ) (ip fp : Bytes)
    → is_digit c ≡ true
    → AllDigits ip
    → AllDigits fp
    → length fp < 2 ^ 31
    → Spells minus
        (c ∷ ip)
        fp
        (split_point minus (text_of c ip fp) (cut_at (λ c. c == b'.') (text_of c ip fp)) none)
unfolding split_point
split_point-Spells minus c ip [] h hi hf l =
    rw (cut_at-none (λ c. c == b'.') (c ∷ ip) (no_point c h, digits_avoid _ no_point ip hi))
      (read_parts-Spells minus c ip [] h hi hf l)
split_point-Spells minus c ip (f ∷ fp) h hi hf l =
    rw
      (cut_at-some (λ c. c == b'.') (c ∷ ip) (f ∷ fp) b'.'
        (no_point c h, digits_avoid _ no_point ip hi) refl)
      (read_parts-Spells minus c ip (f ∷ fp) h hi hf l)

abbrev pub signed_text : Bool → Bytes → Bytes
signed_text true s = b'-' ∷ s
signed_text false s = s

-- A text of digits with at most one point, behind a minus or not, is read as what it spells.
pub parse_decimal-Spells :
    (minus : Bool) (c : ℕ) (ip fp : Bytes)
    → is_digit c ≡ true
    → AllDigits ip
    → AllDigits fp
    → length fp < 2 ^ 31
    → Spells minus (c ∷ ip) fp (parse_decimal (signed_text minus (text_of c ip fp)))
unfolding parse_decimal split_exponent read_mantissa sign_of
parse_decimal-Spells true c ip fp h hi hf l =
    rw
      (
        cut_at-none is_exponent (b'-' ∷ text_of c ip fp) (refl, text-no_exponent c ip fp h hi hf),
        not_a_word_signed c (with_point ip fp) h,
      )
      (split_point-Spells true c ip fp h hi hf l)
parse_decimal-Spells false c ip fp h hi hf l =
    rw
      (
        cut_at-none is_exponent (text_of c ip fp) (text-no_exponent c ip fp h hi hf),
        not_a_word c (with_point ip fp) h,
        no_plus c h,
        no_minus c h,
      )
      (split_point-Spells false c ip fp h hi hf l)
