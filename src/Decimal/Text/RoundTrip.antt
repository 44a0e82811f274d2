-- ===== src/Decimal/Text/RoundTrip.antt =====
-- `ParseDecimal` reads what `Canonical` writes, with zeros and negative scales at scale 0.
use native.Mathlib.Nat.{pow-zero, pow-suc}
use mathlib.Core.List.{append-nil}
use cyoda_go_spi.Base.Utf8.{take-drop, length-take}
use cyoda_go_spi.Base.{
  ℕ, zero, suc, ◌+◌, ◌-◌, ◌*◌, ◌^◌, ◌≤◌, ◌<◌, ◌≡◌, refl, sym, ap, ◌∙◌, subst, arith, inl, inr, leb,
  Bool, true, false, Bool-cases, [], ◌∷◌, ◌++◌, Option, some, Bytes, codes, if◌then◌else◌, length,
  length-append, All_split, take, drop, All-append,
}
use cyoda_go_spi.Base.Int.{
  ℤ, pos, negsuc, pos_part, neg_part, magnitude, ◌*ℕ◌, ◌-ℤ◌, ◌<ℤ◌, ◌≤ℤ◌, ltb_ℤ, leb_ℤ,
}
use cyoda_go_spi.Base.Digits.{
  print, AllDigits, value, value_from, value_from-append, value-print, print-digits, print-pos,
}
use cyoda_go_spi.Decimal.{Decimal, above, is_zero, min_int32, max_int32}
use cyoda_go_spi.Decimal.Aligned.{at, *ℕ_one}
use cyoda_go_spi.Decimal.Exact.{wrap-IsInt32}
use cyoda_go_spi.Decimal.Text.{
  signed, parse_decimal, zeros, repeat_zeros, append_zeros, insert_point, plain_digits, with_sign,
  canonical,
}
use cyoda_go_spi.Decimal.Text.Read.{with_point, Spells, signed_text, parse_decimal-Spells}

value-zeros : (n k : ℕ) → value_from n (zeros k) ≡ n * 10 ^ k
unfolding zeros
value-zeros n zero = rw (pow-zero 10) (omega arith)
value-zeros n (suc k) = value-zeros (n * 10 + (b'0' - b'0')) k ∙ rw (pow-suc 10 k) (omega arith)

value_from-zeros : (k : ℕ) (s : Bytes) → value_from 0 (zeros k ++ s) ≡ value_from 0 s
value_from-zeros k s =
    value_from-append 0 (zeros k) s ∙ ap (λ n. value_from n s) (value-zeros 0 k ∙ omega arith)

zeros-digits : (k : ℕ) → AllDigits (zeros k)
unfolding zeros
zeros-digits zero = tt
zeros-digits (suc k) = (refl, zeros-digits k)

length-zeros : (k : ℕ) → length (zeros k) ≡ k
unfolding zeros
length-zeros zero = refl
length-zeros (suc k) = ap suc (length-zeros k)

with_point-cons : (c : ℕ) (ip fp : Bytes) → with_point (c ∷ ip) fp ≡ c ∷ with_point ip fp
with_point-cons c ip [] = refl
with_point-cons c ip (f ∷ fp) = refl

with_point-append : (ip fp : Bytes) → 0 < length fp → with_point ip fp ≡ ip ++ b'.' ∷ fp
with_point-append ip [] h = absurd (omega (arith, h))
with_point-append ip (f ∷ fp) h = refl

read_point :
    (minus : Bool) (ip fp : Bytes)
    → AllDigits ip
    → 0 < length ip
    → AllDigits fp
    → length fp < 2 ^ 31
    → Spells minus ip fp (parse_decimal (signed_text minus (with_point ip fp)))
read_point minus [] fp h p hf l = absurd (omega (arith, p))
read_point minus (c ∷ ip) fp (h, hi) p hf l =
    rw (with_point-cons c ip fp) (parse_decimal-Spells minus c ip fp h hi hf l)

-- What a text of the value `v` with `n` digits behind the point is read as.
abbrev read_as : Bool → ℕ → ℕ → Option Decimal
read_as minus v n = some (record { unscaled = signed minus v; scale = pos n })

read_digits :
    (minus : Bool) (s : Bytes)
    → AllDigits s
    → 0 < length s
    → parse_decimal (signed_text minus s)
      ≡ some (record { unscaled = signed minus (value s); scale = pos 0 })
read_digits minus s h p =
    read_point minus s [] h p tt (omega arith)
    ∙ ap (λ t. some (record { unscaled = signed minus (value t); scale = pos 0 })) (append-nil s)

-- A number with a point that is written so is read so.
read_insert_point :
    (minus : Bool) (s : Bytes) (k : ℕ)
    → AllDigits s
    → suc k < 2 ^ 31
    → parse_decimal (signed_text minus (insert_point s (suc k)))
      ≡ some (record { unscaled = signed minus (value s); scale = pos (suc k) })
unfolding insert_point
read_insert_point minus s k h l = elim (Bool-cases (leb (length s) (suc k))) [
  | inl e ↦ rw e (padded (ground arith))
  | inr e ↦ rw e (split (ground arith))
]
  where
    padding : Bytes
    padding = zeros (suc k - length s) ++ s

    padding_length : length s ≤ suc k → length padding ≡ suc k
    padding_length i =
        rw (length-append (zeros (suc k - length s)) s, length-zeros (suc k - length s))
          (omega (arith, i))

    padded :
        length s ≤ suc k
        → parse_decimal (signed_text minus (b'0' ∷ b'.' ∷ padding))
          ≡ some (record { unscaled = signed minus (value s); scale = pos (suc k) })
    padded i = rw (sym (with_point-append (b'0' ∷ []) padding (omega (arith, padding_length i)))) (
        read_point minus (b'0' ∷ []) padding (refl, tt) (omega arith)
          (All-append _ (zeros (suc k - length s)) s (zeros-digits _) h)
          (omega (arith, padding_length i, l))
        ∙ ap (λ v. read_as minus v (length padding)) (value_from-zeros (suc k - length s) s)
        ∙ ap (λ n. read_as minus (value s) n) (padding_length i))

    front : Bytes
    front = take (length s - suc k) s

    back : Bytes
    back = drop (length s - suc k) s

    whole_text : front ++ back ≡ s
    whole_text = take-drop (length s - suc k) s

    all_split : AllDigits front × AllDigits back
    all_split = All_split _ front back (subst AllDigits (sym whole_text) h)

    front_length : suc k < length s → length front ≡ length s - suc k
    front_length i = length-take (length s - suc k) s (omega arith)

    back_length : suc k < length s → length back ≡ suc k
    back_length i = omega (arith, i, front_length i, length-append front back, ap length whole_text)

    split :
        suc k < length s
        → parse_decimal
            (signed_text minus (take (length s - suc k) s ++ b'.' ∷ drop (length s - suc k) s))
          ≡ some (record { unscaled = signed minus (value s); scale = pos (suc k) })
    split i = rw (sym (with_point-append front back (omega (arith, back_length i)))) (
        read_point minus front back (all_split.0) (omega (arith, i, front_length i)) (all_split.1)
          (omega (arith, back_length i, l))
        ∙ ap (λ t. read_as minus (value t) (length back)) whole_text
        ∙ ap (λ n. read_as minus (value s) n) (back_length i))

-- A number with zeros behind it.
read_append_zeros :
    (minus : Bool) (s : Bytes) (k : ℕ)
    → AllDigits s
    → 0 < length s
    → parse_decimal (signed_text minus (s ++ zeros k)) ≡ read_as minus (value s * 10 ^ k) 0
read_append_zeros minus s k h p =
    read_digits minus (s ++ zeros k) (All-append _ s (zeros k) h (zeros-digits k))
      (omega (arith, p, length-append s (zeros k)))
    ∙ ap (λ v. read_as minus v 0) (value_from-append 0 s (zeros k) ∙ value-zeros (value s) k)

-- What is read back: zero at scale 0 for every zero; else the decimal itself, or, for a scale below
-- 0, the integer of the same value, at scale 0.
abbrev pub reread : Decimal → Decimal
reread d =
    if is_zero d
    then record { unscaled = pos 0; scale = pos 0 }
    else if leb_ℤ (pos 0) d.scale
    then d
    else record { unscaled = at (pos 0) d; scale = pos 0 }

-- The digits of a coefficient that is not zero.
plain_digits-read :
    (minus : Bool) (n : ℕ) (k : ℤ)
    → min_int32 <ℤ k
    → k ≤ℤ max_int32
    → (s : Bytes) × (plain_digits (print n) k ≡ some s)
      × (parse_decimal (signed_text minus s) ≡ read_as minus (n * 10 ^ neg_part k) (pos_part k))
unfolding plain_digits repeat_zeros append_zeros
plain_digits-read minus n (pos zero) l m = (
  print n,
  refl,
  read_digits minus (print n) (print-digits n) (print-pos n)
      ∙ ap (λ v. read_as minus v 0) (value-print n ∙ omega arith),
)
plain_digits-read minus n (pos (suc k)) l m = (
  insert_point (print n) (suc k),
  refl,
  read_insert_point minus (print n) k (print-digits n) (omega (arith, m))
      ∙ ap (λ v. read_as minus v (suc k)) (value-print n ∙ omega arith),
)
plain_digits-read minus n (negsuc k) l m = (
  print n ++ zeros (suc k),
  wrapped,
  read_append_zeros minus (print n) (suc k) (print-digits n) (print-pos n)
      ∙ ap (λ v. read_as minus (v * 10 ^ suc k) 0) (value-print n),
)
  where
    wrapped : plain_digits (print n) (negsuc k) ≡ some (print n ++ zeros (suc k))
    wrapped = rw (wrap-IsInt32 (pos (suc k)) (omega arith, omega (arith, l))) refl

signed-magnitude : (u : ℤ) (p : ℕ) → signed (ltb_ℤ u (pos 0)) (magnitude u * p) ≡ u *ℕ p
unfolding ◌*ℕ◌
signed-magnitude u p = ground arith

places_below : (j : ℕ) → above (pos 0) (negsuc j) ≡ suc j
unfolding ◌-ℤ◌
places_below j = ground arith

read_as-reread :
    (u k : ℤ)
    → is_zero (record { unscaled = u; scale = k }) ≡ false
    → read_as (ltb_ℤ u (pos 0)) (magnitude u * 10 ^ neg_part k) (pos_part k)
      ≡ some (reread (record { unscaled = u; scale = k }))
unfolding at
read_as-reread u (pos j) z = rw (z, signed-magnitude u 1, not_below, *ℕ_one u) refl
  where
    not_below : leb_ℤ (pos 0) (pos j) ≡ true
    not_below = ground arith
read_as-reread u (negsuc j) z =
    rw (z, signed-magnitude u (10 ^ suc j), below)
      (ap (λ k. some (record { unscaled = u *ℕ 10 ^ k; scale = pos 0 })) (sym (places_below j)))
  where
    below : leb_ℤ (pos 0) (negsuc j) ≡ false
    below = ground arith

-- Every decimal whose scale is an int32 but the least one is written as a text. If the decimal is
-- zero, at whatever scale, that text is read as zero at scale 0; any other decimal is read as itself
-- if its scale is not below 0, and else as the integer of the same value, at scale 0.
pub canonical-parse_decimal :
    (d : Decimal)
    → min_int32 <ℤ d.scale
    → d.scale ≤ℤ max_int32
    → (s : Bytes) × (canonical d ≡ some s) × (parse_decimal s ≡ some (reread d))
unfolding canonical with_sign
canonical-parse_decimal d l m = elim (Bool-cases (is_zero d)) [
  | inl z ↦ (codes "0", rw z refl, rw z (read_digits false (codes "0") (refl, tt) (omega arith)))
  | inr z ↦
      let (s, e, r) =
        plain_digits-read (ltb_ℤ d.unscaled (pos 0)) (magnitude d.unscaled) d.scale l m in
      (
        signed_text (ltb_ℤ d.unscaled (pos 0)) s,
        rw (z, e) (sign_first (ltb_ℤ d.unscaled (pos 0)) s),
        r ∙ read_as-reread d.unscaled d.scale z,
      )
]
  where
    sign_first : (minus : Bool) (s : Bytes) → with_sign minus (some s) ≡ some (signed_text minus s)
    sign_first true s = refl
    sign_first false s = refl
