-- ===== src/Decimal/Rescale.antt =====
-- `SetScale`: upward it is exact.
use cyoda_go_spi.Base.{◌<◌, ◌≡◌, sym, ap, arith, inl, inr, true, false, ==_iff, Bool-cases, some}
use cyoda_go_spi.Base.Int.{ℤ, magnitude, ◌≤ℤ◌, ltb_ℤ, eqb_ℤ, eq_of_parts}
use cyoda_go_spi.Decimal.{Decimal, set_scale, is_zero}
use cyoda_go_spi.Decimal.Aligned.{at, at-scale, at-zero}

pub eqb_ℤ-eq : (a b : ℤ) → eqb_ℤ a b ≡ true → a ≡ b
eqb_ℤ-eq a b h = eq_of_parts a b ((==_iff _ _).0 h)

pub is_zero-eq : (d : Decimal) → is_zero d ≡ true → magnitude d.unscaled ≡ 0
is_zero-eq d h = (==_iff _ _).0 h

pub is_zero-ne : (d : Decimal) → is_zero d ≡ false → 0 < magnitude d.unscaled
is_zero-ne d h = ground arith

pub set_scale-up :
    (d : Decimal) (t : ℤ)
    → d.scale ≤ℤ t
    → set_scale d t ≡ some (record { unscaled = at t d; scale = t })
unfolding set_scale at
set_scale-up d t h = elim (Bool-cases (eqb_ℤ d.scale t)) [
  | inl e ↦ rw (e) (
      ap (λ u. some (record { unscaled = u; scale = t }))
        (sym (at-scale t d (eqb_ℤ-eq d.scale t e))))
  | inr e ↦ elim (Bool-cases (is_zero d)) [
    | inl z ↦
        rw (e, z)
          (ap (λ u. some (record { unscaled = u; scale = t })) (sym (at-zero t d (is_zero-eq d z))))
    | inr z ↦ rw (e, z, less e)
  ]
]
  where
    less : eqb_ℤ d.scale t ≡ false → ltb_ℤ d.scale t ≡ true
    less e = ground arith
