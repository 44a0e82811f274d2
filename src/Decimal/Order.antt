-- ===== src/Decimal/Order.antt =====
-- `Cmp` is the order of the values: the comparison at any scale that both reach without loss.
use native.Mathlib.Nat.{pow-le-pow_right, mul-le-mul_right}
use cyoda_go_spi.Base.{
  ℕ, zero, suc, ◌+◌, ◌-◌, ◌*◌, ◌^◌, ◌≤◌, ◌<◌, ◌≡◌, sym, ap, ap₂, ◌∙◌, arith, inl, inr, true, false,
  Bool-cases, false≢true, ltb→lt, ◌==◌, ==_iff, if◌then◌else◌,
}
use cyoda_go_spi.Base.Int.{
  *ℕ_pos_part, *ℕ_neg_part, ℤ, pos, negsuc, pos_part, neg_part, magnitude, sign, cmp_ℤ, ◌*ℕ◌, ◌≤ℤ◌,
  ◌<ℤ◌, int_laws, ltb_ℤ, eqb_ℤ,
}
use cyoda_go_spi.Base.Pow.{pow-add}
use cyoda_go_spi.Decimal.{
  Decimal, above, negate, digits, precision, is_zero, adjusted, cmp, cmp_magnitude, cmp_exact,
  cmp_aligned, digits_lo, digits_hi, bits_of, must, set_scale,
}
use cyoda_go_spi.Decimal.Digits.{
  lt-digits, digits_pos, digits-le, digits_lo-le, digits-le-digits_hi,
}
use cyoda_go_spi.Decimal.Aligned.{
  at-zero, magnitude-zero, at, above_exact, cmp-at, pow10_pos, cmp_ℤ-*ℕ,
}
use cyoda_go_spi.Decimal.Rescale.{set_scale-up, is_zero-eq, is_zero-ne, eqb_ℤ-eq}

-- What the digits say: with the higher leading digit goes the larger magnitude.
larger :
    (s : ℤ) (d o : Decimal) (count_d count_o : ℕ)
    → d.scale ≤ℤ s
    → o.scale ≤ℤ s
    → 0 < magnitude d.unscaled
    → count_d ≤ digits (magnitude d.unscaled)
    → digits (magnitude o.unscaled) ≤ count_o
    → adjusted count_o o <ℤ adjusted count_d d
    → magnitude o.unscaled * 10 ^ above s o.scale < magnitude d.unscaled * 10 ^ above s d.scale
larger s d o count_d count_o hd ho p ld lo h =
    larger_numbers (magnitude d.unscaled) (magnitude o.unscaled) (above s d.scale) (above s o.scale)
      p
      (omega (
        int_laws,
        ld,
        lo,
        h,
        digits_pos (magnitude d.unscaled),
        above_exact s d.scale hd,
        above_exact s o.scale ho,
      ))
  where
    larger_numbers :
        (D O k k' : ℕ) → 0 < D → digits O + k' ≤ digits D - 1 + k → O * 10 ^ k' < D * 10 ^ k
    larger_numbers D O k k' p h = omega (
      arith,
      mul-le-mul_right (10 ^ k) (digits-le D p),
      mul-le-mul_right (10 ^ k') (lt-digits O),
      pow10_pos k',
      pow-le-pow_right {n = 10} (omega arith) h,
      pow-add 10 (digits O) k',
      pow-add 10 (digits D - 1) k,
    )

sign_pos : (n : ℕ) → sign (pos (suc n)) ≡ pos 1
sign_pos n = ground arith

sign_negsuc : (n : ℕ) → sign (negsuc n) ≡ negsuc 0
sign_negsuc n = ground arith

cmp_ℤ_flip : (a b : ℤ) → cmp_ℤ a b ≡ negate (cmp_ℤ b a)
cmp_ℤ_flip a b = ground arith

-- Comparison of two integers of one sign by their magnitudes.
cmp_by_magnitude :
    (a b : ℤ) (m n : ℕ)
    → sign a ≡ sign b
    → magnitude b * n < magnitude a * m
    → cmp_ℤ (a *ℕ m) (b *ℕ n) ≡ sign a
cmp_by_magnitude (pos zero) b m n e h = absurd (omega (arith, h))
cmp_by_magnitude (pos (suc x)) (pos zero) m n e h = cc (sym (sign_pos x) ∙ e)
cmp_by_magnitude (pos (suc x)) (pos (suc y)) m n e h = ground (
  arith,
  *ℕ_pos_part (pos (suc x)) m,
  *ℕ_neg_part (pos (suc x)) m,
  *ℕ_pos_part (pos (suc y)) n,
  *ℕ_neg_part (pos (suc y)) n,
)
cmp_by_magnitude (pos (suc x)) (negsuc y) m n e h = cc (sym (sign_pos x) ∙ e ∙ sign_negsuc y)
cmp_by_magnitude (negsuc x) (pos zero) m n e h = cc (sym (sign_negsuc x) ∙ e)
cmp_by_magnitude (negsuc x) (pos (suc y)) m n e h = cc (sym (sign_negsuc x) ∙ e ∙ sign_pos y)
cmp_by_magnitude (negsuc x) (negsuc y) m n e h = ground (
  arith,
  *ℕ_pos_part (negsuc x) m,
  *ℕ_neg_part (negsuc x) m,
  *ℕ_pos_part (negsuc y) n,
  *ℕ_neg_part (negsuc y) n,
)

cmp_by_magnitude_flipped :
    (a b : ℤ) (m n : ℕ)
    → sign a ≡ sign b
    → magnitude a * m < magnitude b * n
    → cmp_ℤ (a *ℕ m) (b *ℕ n) ≡ negate (sign a)
cmp_by_magnitude_flipped a b m n e h =
    cmp_ℤ_flip (a *ℕ m) (b *ℕ n) ∙ ap negate (cmp_by_magnitude b a n m (sym e) h ∙ sym e)

grows : (x m : ℕ) → m ≤ suc x * m
grows x m = omega (arith, mul-le-mul_right m (one_le x))
  where
    one_le : (x : ℕ) → 1 ≤ suc x
    one_le x = omega arith

-- Comparison of two integers of different signs.
cmp_by_sign :
    (a b : ℤ) (m n : ℕ)
    → 0 < m
    → 0 < n
    → eqb_ℤ (sign a) (sign b) ≡ false
    → (if ltb_ℤ (sign a) (sign b) then negsuc 0 else pos 1) ≡ cmp_ℤ (a *ℕ m) (b *ℕ n)
cmp_by_sign a b m n p q h =
    signs a b h (*ℕ_pos_part a m) (*ℕ_neg_part a m) (*ℕ_pos_part b n) (*ℕ_neg_part b n)
  where
    signs :
        (a b : ℤ)
        → eqb_ℤ (sign a) (sign b) ≡ false
        → pos_part (a *ℕ m) ≡ pos_part a * m
        → neg_part (a *ℕ m) ≡ neg_part a * m
        → pos_part (b *ℕ n) ≡ pos_part b * n
        → neg_part (b *ℕ n) ≡ neg_part b * n
        → (if ltb_ℤ (sign a) (sign b) then negsuc 0 else pos 1) ≡ cmp_ℤ (a *ℕ m) (b *ℕ n)
    signs (pos zero) (pos zero) h e f e' f' = cc h
    signs (pos zero) (pos (suc y)) h e f e' f' = rw (sign_pos y) (ground (arith, grows y n))
    signs (pos zero) (negsuc y) h e f e' f' = rw (sign_negsuc y) (ground (arith, grows y n))
    signs (pos (suc x)) (pos zero) h e f e' f' = rw (sign_pos x) (ground (arith, grows x m))
    signs (pos (suc x)) (pos (suc y)) h e f e' f' =
        absurd (false≢true (sym h ∙ ap₂ eqb_ℤ (sign_pos x) (sign_pos y)))
    signs (pos (suc x)) (negsuc y) h e f e' f' =
        rw (sign_pos x, sign_negsuc y) (ground (arith, grows x m, grows y n))
    signs (negsuc x) (pos zero) h e f e' f' = rw (sign_negsuc x) (ground (arith, grows x m))
    signs (negsuc x) (pos (suc y)) h e f e' f' =
        rw (sign_negsuc x, sign_pos y) (ground (arith, grows x m, grows y n))
    signs (negsuc x) (negsuc y) h e f e' f' =
        absurd (false≢true (sym h ∙ ap₂ eqb_ℤ (sign_negsuc x) (sign_negsuc y)))

-- Two decimals of one sign, not zero, and of scales that reach `s`.
module _ (s : ℤ) (d o : Decimal) (hd : d.scale ≤ℤ s) (ho : o.scale ≤ℤ s)
    (e : sign d.unscaled ≡ sign o.unscaled) (pd : 0 < magnitude d.unscaled)
    (po : 0 < magnitude o.unscaled) where
  leads :
      (count_d count_o : ℕ)
      → count_d ≤ digits (magnitude d.unscaled)
      → digits (magnitude o.unscaled) ≤ count_o
      → ltb_ℤ (adjusted count_o o) (adjusted count_d d) ≡ true
      → sign d.unscaled ≡ cmp_ℤ (at s d) (at s o)
  unfolding at
  leads count_d count_o l r h = sym (
      cmp_by_magnitude d.unscaled o.unscaled (10 ^ above s d.scale) (10 ^ above s o.scale) e
        (larger s d o count_d count_o hd ho pd l r (ltb→lt _ _ h)))

  trails :
      (count_d count_o : ℕ)
      → digits (magnitude d.unscaled) ≤ count_d
      → count_o ≤ digits (magnitude o.unscaled)
      → ltb_ℤ (adjusted count_d d) (adjusted count_o o) ≡ true
      → negate (sign d.unscaled) ≡ cmp_ℤ (at s d) (at s o)
  unfolding at
  trails count_d count_o l r h = sym (
      cmp_by_magnitude_flipped d.unscaled o.unscaled (10 ^ above s d.scale) (10 ^ above s o.scale) e
        (larger s o d count_o count_d ho hd po r l (ltb→lt _ _ h)))

pub must_up : (d : Decimal) (t : ℤ) → d.scale ≤ℤ t → (must d (set_scale d t)).unscaled ≡ at t d
unfolding must
must_up d t h = rw (set_scale-up d t h)

cmp_aligned-cmp_ℤ :
    (s : ℤ) (d o : Decimal)
    → d.scale ≤ℤ s
    → o.scale ≤ℤ s
    → cmp_aligned d o ≡ cmp_ℤ (at s d) (at s o)
unfolding cmp_aligned
cmp_aligned-cmp_ℤ s d o hd ho = elim (Bool-cases (ltb_ℤ d.scale o.scale)) [
  | inl e ↦
      rw (e, must_up d o.scale (below e), must_up o o.scale (self o.scale))
        (sym (cmp-at s o.scale d o (below e) (self o.scale) ho))
  | inr e ↦
      rw (e, must_up d d.scale (self d.scale), must_up o d.scale (beyond e))
        (sym (cmp-at s d.scale d o (self d.scale) (beyond e) hd))
]
  where
    self : (z : ℤ) → z ≤ℤ z
    self z = omega arith

    below : ltb_ℤ d.scale o.scale ≡ true → d.scale ≤ℤ o.scale
    below e = ground arith

    beyond : ltb_ℤ d.scale o.scale ≡ false → o.scale ≤ℤ d.scale
    beyond e = ground arith

pub precision-digits :
    (d : Decimal) → is_zero d ≡ false → precision d ≡ digits (magnitude d.unscaled)
unfolding precision
precision-digits d h = rw h

cmp_differ :
    (s : ℤ) (d o : Decimal)
    → eqb_ℤ (sign d.unscaled) (sign o.unscaled) ≡ false
    → cmp d o ≡ cmp_ℤ (at s d) (at s o)
unfolding cmp at
cmp_differ s d o e = rw e (
    cmp_by_sign d.unscaled o.unscaled (10 ^ above s d.scale) (10 ^ above s o.scale)
      (pow10_pos (above s d.scale)) (pow10_pos (above s o.scale)) e)

zero_alike : (a b : ℤ) → sign a ≡ sign b → magnitude a ≡ 0 → magnitude b ≡ 0
zero_alike a (pos zero) e h = omega arith
zero_alike a (pos (suc n)) e h = cc (sym (ap sign (magnitude-zero a h)) ∙ e ∙ sign_pos n)
zero_alike a (negsuc n) e h = cc (sym (ap sign (magnitude-zero a h)) ∙ e ∙ sign_negsuc n)

cmp_zero :
    (s : ℤ) (d o : Decimal)
    → eqb_ℤ (sign d.unscaled) (sign o.unscaled) ≡ true
    → is_zero d ≡ true
    → cmp d o ≡ cmp_ℤ (at s d) (at s o)
unfolding cmp
cmp_zero s d o e z = rw (
  e,
  z,
  at-zero s d (is_zero-eq d z),
  at-zero s o (zero_alike d.unscaled o.unscaled (eqb_ℤ-eq _ _ e) (is_zero-eq d z)),
)

nonzero_alike : (a b : ℤ) → sign a ≡ sign b → 0 < magnitude a → 0 < magnitude b
nonzero_alike a b e h = elim (Bool-cases (magnitude b == 0)) [
  | inl z ↦ absurd (omega (arith, h, zero_alike b a (sym e) ((==_iff _ _).0 z)))
  | inr z ↦ above_zero b z
]
  where
    above_zero : (b : ℤ) → (magnitude b == 0) ≡ false → 0 < magnitude b
    above_zero b z = ground arith

cmp_same_scale :
    (s : ℤ) (d o : Decimal)
    → d.scale ≡ o.scale
    → cmp_ℤ d.unscaled o.unscaled ≡ cmp_ℤ (at s d) (at s o)
unfolding at
cmp_same_scale s d o e =
    rw e (sym (cmp_ℤ-*ℕ d.unscaled o.unscaled (10 ^ above s o.scale) (pow10_pos (above s o.scale))))

cmp_magnitude-cmp_ℤ :
    (s : ℤ) (d o : Decimal)
    → d.scale ≤ℤ s
    → o.scale ≤ℤ s
    → sign d.unscaled ≡ sign o.unscaled
    → is_zero d ≡ false
    → is_zero o ≡ false
    → cmp_magnitude d o ≡ cmp_ℤ (at s d) (at s o)
unfolding cmp_magnitude cmp_exact
cmp_magnitude-cmp_ℤ s d o hd ho e zd zo =
    elim (Bool-cases
      (ltb_ℤ (adjusted (digits_hi (bits_of o)) o) (adjusted (digits_lo (bits_of d)) d))) [
        | inl a ↦
            rw a (leads s d o hd ho e pd po _ _ (digits_lo-le _ pd) (digits-le-digits_hi _ po) a)
        | inr a ↦
            elim (Bool-cases
              (ltb_ℤ (adjusted (digits_hi (bits_of d)) d) (adjusted (digits_lo (bits_of o)) o))) [
                | inl b ↦
                    rw (a, b)
                      (trails s d o hd ho e pd po _ _ (digits-le-digits_hi _ pd) (digits_lo-le _ po)
                        b)
                | inr b ↦
                    elim (Bool-cases
                      (ltb_ℤ (adjusted (precision o) o) (adjusted (precision d) d))) [
                        | inl c ↦
                            rw (a, b, c)
                              (leads s d o hd ho e pd po (precision d) (precision o)
                                (omega (arith, precision-digits d zd))
                                (omega (arith, precision-digits o zo)) c)
                        | inr c ↦
                            elim (Bool-cases
                              (ltb_ℤ (adjusted (precision d) d) (adjusted (precision o) o))) [
                                | inl f ↦
                                    rw (a, b, c, f)
                                      (trails s d o hd ho e pd po (precision d) (precision o)
                                        (omega (arith, precision-digits d zd))
                                        (omega (arith, precision-digits o zo)) f)
                                | inr f ↦ rw (a, b, c, f) (cmp_aligned-cmp_ℤ s d o hd ho)
                              ]
                      ]
              ]
      ]
  where
    pd : 0 < magnitude d.unscaled
    pd = is_zero-ne d zd

    po : 0 < magnitude o.unscaled
    po = is_zero-ne o zo

not_zero : (o : Decimal) → 0 < magnitude o.unscaled → is_zero o ≡ false
not_zero o h = ground arith

-- The comparison of two decimals is that of their coefficients at any scale that reaches both.
pub cmp-cmp_ℤ :
    (s : ℤ) (d o : Decimal) → d.scale ≤ℤ s → o.scale ≤ℤ s → cmp d o ≡ cmp_ℤ (at s d) (at s o)
unfolding cmp
cmp-cmp_ℤ s d o hd ho = elim (Bool-cases (eqb_ℤ (sign d.unscaled) (sign o.unscaled))) [
  | inr e ↦ cmp_differ s d o e
  | inl e ↦ elim (Bool-cases (is_zero d)) [
    | inl z ↦ cmp_zero s d o e z
    | inr z ↦ elim (Bool-cases (eqb_ℤ d.scale o.scale)) [
      | inl k ↦ rw (e, z, k) (cmp_same_scale s d o (eqb_ℤ-eq _ _ k))
      | inr k ↦
          rw (e, z, k)
            (cmp_magnitude-cmp_ℤ s d o hd ho (eqb_ℤ-eq _ _ e) z
              (not_zero o (nonzero_alike d.unscaled o.unscaled (eqb_ℤ-eq _ _ e) (is_zero-ne d z))))
    ]
  ]
]
