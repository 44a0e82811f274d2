-- ===== src/Decimal/Rounding.antt =====
-- `roundToScale`: the neighbour at the new scale, below or above.
use native.Mathlib.Nat.{pow-zero, pow-le-pow_right, div-add-mod', mod-lt, zero-div}
use cyoda_go_spi.Base.{
  ℕ, suc, ◌+◌, ◌*◌, ◌/◌, ◌%◌, ◌^◌, ◌≤◌, ◌<◌, ◌≡◌, refl, sym, ap, ◌∙◌, arith, inl, inr, true, false,
  ltb, ltb→lt, leb→le, ◌==◌, ==_iff, Bool-cases,
}
use cyoda_go_spi.Base.Int.{
  *ℕ_pos_part, *ℕ_neg_part, ℤ, pos, negsuc, pos_part, neg_part, magnitude, quo_ℕ, ◌*ℕ◌, ◌+ℤ◌, ◌-ℤ◌,
  +ℤ_parts, -ℤ_parts, ◌≤ℤ◌, ◌<ℤ◌, ltb_ℤ, leb_ℤ, eq_of_parts,
}
use cyoda_go_spi.Decimal.{
  Decimal, above, digits, precision, is_zero, RoundingMode, ceiling, floor, adjust, round_quotient,
  round_to_scale, must,
}
use cyoda_go_spi.Decimal.Digits.{lt-digits}
use cyoda_go_spi.Decimal.Aligned.{at, at-scale, above_self, *ℕ_one, pow10_pos}
use cyoda_go_spi.Decimal.Rescale.{set_scale-up, is_zero-eq, is_zero-ne}
use cyoda_go_spi.Decimal.Order.{precision-digits}

-- `r` units of size `m` are the whole number of units next to `u`, in the direction of the mode.
abbrev pub Rounds : RoundingMode → ℤ → ℤ → ℕ → Type 0
Rounds floor u r m = (r *ℕ m ≤ℤ u) × (u <ℤ (r +ℤ pos 1) *ℕ m)
Rounds ceiling u r m = ((r -ℤ pos 1) *ℕ m <ℤ u) × (u ≤ℤ r *ℕ m)

-- One unit more, and one less.
next_unit :
    (q : ℤ) (m : ℕ)
    → pos_part ((q +ℤ pos 1) *ℕ m) + neg_part (q *ℕ m)
      ≡ pos_part (q *ℕ m) + neg_part ((q +ℤ pos 1) *ℕ m) + m
next_unit q m = omega (
  arith,
  *ℕ_pos_part q m,
  *ℕ_neg_part q m,
  *ℕ_pos_part (q +ℤ pos 1) m,
  *ℕ_neg_part (q +ℤ pos 1) m,
  ap (λ (t : ℕ). t * m) (+ℤ_parts q (pos 1)),
)

last_unit :
    (q : ℤ) (m : ℕ)
    → pos_part ((q -ℤ pos 1) *ℕ m) + neg_part (q *ℕ m) + m
      ≡ pos_part (q *ℕ m) + neg_part ((q -ℤ pos 1) *ℕ m)
last_unit q m = omega (
  arith,
  *ℕ_pos_part q m,
  *ℕ_neg_part q m,
  *ℕ_pos_part (q -ℤ pos 1) m,
  *ℕ_neg_part (q -ℤ pos 1) m,
  ap (λ (t : ℕ). t * m) (-ℤ_parts q (pos 1)),
)

Rounds-exact : (mode : RoundingMode) (u q : ℤ) (m : ℕ) → 0 < m → u ≡ q *ℕ m → Rounds mode u q m
Rounds-exact floor u q m p e = rw e (omega arith, omega (arith, next_unit q m, p))
Rounds-exact ceiling u q m p e = rw e (omega (arith, last_unit q m, p), omega arith)

-- `u` lies within a unit above `q` units, or within a unit below.
Rounds-above :
    (mode : RoundingMode) (u q : ℤ) (m : ℕ)
    → q *ℕ m <ℤ u
    → pos_part u + neg_part (q *ℕ m) < pos_part (q *ℕ m) + neg_part u + m
    → Rounds mode u (adjust mode q true) m
unfolding adjust
Rounds-above floor u q m l h = (omega (arith, l), omega (arith, h, next_unit q m))
Rounds-above ceiling u q m l h =
    (omega (arith, l, h, next_unit q m, last_unit (q +ℤ pos 1) m), omega (arith, h, next_unit q m))

Rounds-below :
    (mode : RoundingMode) (u q : ℤ) (m : ℕ)
    → u <ℤ q *ℕ m
    → pos_part (q *ℕ m) + neg_part u < pos_part u + neg_part (q *ℕ m) + m
    → Rounds mode u (adjust mode q false) m
unfolding adjust
Rounds-below floor u q m l h = (
  omega (arith, l, h, last_unit q m),
  omega (arith, l, h, last_unit q m, next_unit (q -ℤ pos 1) m),
)
Rounds-below ceiling u q m l h = (omega (arith, h, last_unit q m), omega (arith, l))

not_zero : (n : ℕ) → (n == 0) ≡ false → 0 < n
not_zero n e = ground arith

mod-le : (n m : ℕ) → n % m ≤ n
mod-le n m = omega (arith, div-add-mod' n m)

quo_pos : (n m : ℕ) → quo_ℕ (pos n) m ≡ pos (n / m)
quo_pos n m = ground (arith, zero-div m)

quo_negsuc_parts :
    (n m : ℕ) → (pos_part (quo_ℕ (negsuc n) m) ≡ 0) × (neg_part (quo_ℕ (negsuc n) m) ≡ suc n / m)
quo_negsuc_parts n m = (ground (arith, zero-div m), ground (arith, zero-div m))

-- The quotient of a positive and of a negative coefficient, and what it drops.
quo-pos :
    (n m : ℕ)
    → 0 < m
    → (pos_part (quo_ℕ (pos n) m *ℕ m) + n % m ≡ n)
      × (neg_part (quo_ℕ (pos n) m *ℕ m) ≡ 0)
      × (n % m < m)
quo-pos n m p = rw (quo_pos n m) (
  omega (arith, *ℕ_pos_part (pos (n / m)) m, div-add-mod' n m),
  omega (arith, *ℕ_neg_part (pos (n / m)) m),
  mod-lt n p,
)

quo-negsuc :
    (n m : ℕ)
    → 0 < m
    → (neg_part (quo_ℕ (negsuc n) m *ℕ m) + suc n % m ≡ suc n)
      × (pos_part (quo_ℕ (negsuc n) m *ℕ m) ≡ 0)
      × (suc n % m < m)
quo-negsuc n m p =
    let (e, f) = quo_negsuc_parts n m in
    (
      omega (
        arith,
        *ℕ_neg_part (quo_ℕ (negsuc n) m) m,
        div-add-mod' (suc n) m,
        ap (λ (t : ℕ). t * m) f,
      ),
      omega (arith, *ℕ_pos_part (quo_ℕ (negsuc n) m) m, ap (λ (t : ℕ). t * m) e),
      mod-lt (suc n) p,
    )

-- A quotient that drops nothing.
pub quo-exact : (u : ℤ) (m : ℕ) → 0 < m → magnitude u % m ≡ 0 → quo_ℕ u m *ℕ m ≡ u
quo-exact (pos n) m p h =
    let (a, b, c) = quo-pos n m p in
    eq_of_parts _ _ (omega (arith, a, b, sym (ap (λ (t : ℕ). t % m) (magnitude_pos n)) ∙ h))
  where
    magnitude_pos : (n : ℕ) → magnitude (pos n) ≡ n
    magnitude_pos n = omega arith
quo-exact (negsuc n) m p h =
    let (a, b, c) = quo-negsuc n m p in
    eq_of_parts _ _ (omega (arith, a, b, sym (ap (λ (t : ℕ). t % m) (magnitude_negsuc n)) ∙ h))
  where
    magnitude_negsuc : (n : ℕ) → magnitude (negsuc n) ≡ suc n
    magnitude_negsuc n = omega arith

round_quotient-Rounds :
    (mode : RoundingMode) (u : ℤ) (m : ℕ) → 0 < m → Rounds mode u (round_quotient mode u m) m
unfolding round_quotient
round_quotient-Rounds mode (pos n) m p =
    let (a, b, c) = quo-pos n m p in
    elim (Bool-cases (magnitude (pos n) % m == 0)) [
      | inl e ↦ rw e (
          Rounds-exact mode (pos n) (quo_ℕ (pos n) m) m p
            (eq_of_parts (pos n) (quo_ℕ (pos n) m *ℕ m) (omega (arith, a, b, none_left e))))
      | inr e ↦
          rw (e, positive e)
            (Rounds-above mode (pos n) (quo_ℕ (pos n) m) m (omega (arith, a, b, some_left e))
              (omega (arith, a, b, c)))
    ]
  where
    same : magnitude (pos n) % m ≡ n % m
    same = ap (λ (t : ℕ). t % m) (magnitude_pos n)
      where
        magnitude_pos : (n : ℕ) → magnitude (pos n) ≡ n
        magnitude_pos n = omega arith

    none_left : (magnitude (pos n) % m == 0) ≡ true → n % m ≡ 0
    none_left e = omega (arith, same, (==_iff (magnitude (pos n) % m) 0).0 e)

    some_left : (magnitude (pos n) % m == 0) ≡ false → 0 < n % m
    some_left e = omega (arith, same, not_zero (magnitude (pos n) % m) e)

    positive : (magnitude (pos n) % m == 0) ≡ false → ltb_ℤ (pos 0) (pos n) ≡ true
    positive e = ground (arith, some_left e, mod-le n m)
round_quotient-Rounds mode (negsuc n) m p =
    let (a, b, c) = quo-negsuc n m p in
    elim (Bool-cases (magnitude (negsuc n) % m == 0)) [
      | inl e ↦ rw e (
          Rounds-exact mode (negsuc n) (quo_ℕ (negsuc n) m) m p
            (eq_of_parts (negsuc n) (quo_ℕ (negsuc n) m *ℕ m) (omega (arith, a, b, none_left e))))
      | inr e ↦
          rw (e, negative)
            (Rounds-below mode (negsuc n) (quo_ℕ (negsuc n) m) m (omega (arith, a, b, some_left e))
              (omega (arith, a, b, c)))
    ]
  where
    same : magnitude (negsuc n) % m ≡ suc n % m
    same = ap (λ (t : ℕ). t % m) (magnitude_negsuc n)
      where
        magnitude_negsuc : (n : ℕ) → magnitude (negsuc n) ≡ suc n
        magnitude_negsuc n = omega arith

    none_left : (magnitude (negsuc n) % m == 0) ≡ true → suc n % m ≡ 0
    none_left e = omega (arith, same, (==_iff (magnitude (negsuc n) % m) 0).0 e)

    some_left : (magnitude (negsuc n) % m == 0) ≡ false → 0 < suc n % m
    some_left e = omega (arith, same, not_zero (magnitude (negsuc n) % m) e)

    negative : ltb_ℤ (pos 0) (negsuc n) ≡ false
    negative = ground arith

same_scale : (d : Decimal) (t : ℤ) → d.scale ≡ t → at t d *ℕ 10 ^ above d.scale t ≡ d.unscaled
same_scale d t e =
    ap (λ z. at t d *ℕ 10 ^ above z t) e
    ∙ ap (λ k. at t d *ℕ 10 ^ k) (above_self t)
    ∙ ap (λ m. at t d *ℕ m) (pow-zero 10)
    ∙ *ℕ_one (at t d)
    ∙ at-scale t d e

zero_parts : (m : ℕ) → (pos_part (pos 0 *ℕ m) ≡ 0) × (neg_part (pos 0 *ℕ m) ≡ 0)
zero_parts m = (omega (arith, *ℕ_pos_part (pos 0) m), omega (arith, *ℕ_neg_part (pos 0) m))

nothing : (d : Decimal) (t : ℤ) → is_zero d ≡ true → d.unscaled ≡ pos 0 *ℕ 10 ^ above d.scale t
nothing d t z = eq_of_parts _ _ (omega (arith, is_zero-eq d z, zero_parts (10 ^ above d.scale t)))

-- Fewer digits than the places that are dropped.
tiny :
    (d : Decimal) (t : ℤ)
    → is_zero d ≡ false
    → precision d < above d.scale t
    → magnitude d.unscaled < 10 ^ above d.scale t
tiny d t z l = omega (
  arith,
  lt-digits (magnitude d.unscaled),
  pow-le-pow_right {n = 10} (omega arith) (fewer (precision-digits d z)),
)
  where
    fewer :
        precision d ≡ digits (magnitude d.unscaled)
        → digits (magnitude d.unscaled) ≤ above d.scale t
    fewer e = omega (arith, l)

tiny-Rounds :
    (mode : RoundingMode) (u : ℤ) (m : ℕ)
    → 0 < magnitude u
    → magnitude u < m
    → Rounds mode u (adjust mode (pos 0) (ltb_ℤ (pos 0) u)) m
tiny-Rounds mode (pos n) m p h = rw (positive n p) (
    Rounds-above mode (pos n) (pos 0) m (omega (arith, zero_parts m, p))
      (omega (arith, zero_parts m, h)))
  where
    positive : (n : ℕ) → 0 < magnitude (pos n) → ltb_ℤ (pos 0) (pos n) ≡ true
    positive n p = ground arith
tiny-Rounds mode (negsuc n) m p h = rw (negative n) (
    Rounds-below mode (negsuc n) (pos 0) m (omega (arith, zero_parts m))
      (omega (arith, zero_parts m, h)))
  where
    negative : (n : ℕ) → ltb_ℤ (pos 0) (negsuc n) ≡ false
    negative n = ground arith

-- Rounded to a scale that is not larger than its own, a decimal has that scale, and its coefficient
-- is the largest that is not above the value there (floor), or the smallest that is not below it
-- (ceiling).
pub round_to_scale-Rounds :
    (d : Decimal) (t : ℤ) (mode : RoundingMode)
    → t ≤ℤ d.scale
    → ((round_to_scale d t mode).scale ≡ t)
      × Rounds mode d.unscaled (round_to_scale d t mode).unscaled (10 ^ above d.scale t)
unfolding round_to_scale must
round_to_scale-Rounds d t mode h = elim (Bool-cases (leb_ℤ d.scale t)) [
  | inl e ↦
      rw (e, set_scale-up d t (leb→le _ _ e))
        (
          refl,
          Rounds-exact mode d.unscaled (at t d) (10 ^ above d.scale t) (pow10_pos (above d.scale t))
              (sym (same_scale d t (eq_of_parts d.scale t (omega (arith, h, leb→le _ _ e))))),
        )
  | inr e ↦ elim (Bool-cases (is_zero d)) [
    | inl z ↦
        rw (e, z)
          (
            refl,
            Rounds-exact mode d.unscaled (pos 0) (10 ^ above d.scale t)
                (pow10_pos (above d.scale t)) (nothing d t z),
          )
    | inr z ↦ elim (Bool-cases (ltb (precision d) (above d.scale t))) [
      | inl l ↦
          rw (e, z, l)
            (
              refl,
              tiny-Rounds mode d.unscaled (10 ^ above d.scale t) (is_zero-ne d z)
                  (tiny d t z (ltb→lt _ _ l)),
            )
      | inr l ↦
          rw (e, z, l)
            (
              refl,
              round_quotient-Rounds mode d.unscaled (10 ^ above d.scale t)
                  (pow10_pos (above d.scale t)),
            )
    ]
  ]
]
