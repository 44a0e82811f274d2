-- ===== src/Types/Lattice.antt =====
-- Widening is a partial order, and `CollapseNumeric` computes least upper bounds in it.
use cyoda_go_spi.Base.{
  ◌≡◌, refl, ◌⊎◌, inl, inr, Bool, true, false, List, [], ◌∷◌, Option, none, some, arith, All,
  Bool-cases, ℕ, subst, if◌then◌else◌, not, ◌&&◌,
}
use cyoda_go_spi.Base.Int.{ltb_ℤ}
use cyoda_go_spi.Types.{
  DataType, null, unbound_decimal, is_numeric, numeric_family, is_assignable_to, collapse_numeric,
  Widest, widen_by, widest_of, wider, numeric_rank, all_fit, choose, same,
}

-- `a` widens to `b`.
abbrev pub Widens : DataType → DataType → Type 0
Widens a b = is_assignable_to a b ≡ true

pub Widens-refl : (a : DataType) → Widens a a
unfolding is_assignable_to
Widens-refl a = ground arith

-- Assignability is transitive, except through the null type, whose only source is itself.
pub Widens-trans : (a b c : DataType) → Widens a b → Widens b c → Widens a c
unfolding is_assignable_to
Widens-trans null b c h k = ground arith
Widens-trans a null c h k = ground arith
Widens-trans a b c h k = ground arith

-- Among numeric types, two that widen to each other are one.
pub Widens-antisymm : (a b : DataType) → Widens a b → Widens b a → a ≡ b
unfolding is_assignable_to
Widens-antisymm null b h k = ground arith
Widens-antisymm a b h k = ground arith

-- Every type of the list widens to `u`.
abbrev pub Upper : DataType → List DataType → Type 0
Upper u = All (λ t. Widens t u)

abbrev pub AllNumeric : List DataType → Type 0
AllNumeric = All (λ t. is_numeric t ≡ true)

pub record IsLub (r : DataType) (ts : List DataType) : Type 0 where
  pub numeric : is_numeric r ≡ true
  pub upper : Upper r ts
  pub least : (u : DataType) → Upper u ts → Widens r u

-- What the first loop has found on one line: a type of that line, above what it has seen of it.
abbrev Above : Option DataType → DataType → Type 0
Above none t = ⊥
Above (some w) t = Widens t w

abbrev Found : Option DataType → Type 0
Found none = ⊥
Found (some w) = Unit

abbrev OnLine : ℕ → Option DataType → Type 0
OnLine k none = Unit
OnLine k (some w) = (numeric_family w ≡ k) × (is_numeric w ≡ true)

abbrev Under : DataType → Option DataType → Type 0
Under u none = Unit
Under u (some w) = Widens w u

rank_below :
    (w t : DataType)
    → numeric_family w ≡ 1
    → numeric_family t ≡ 1
    → ltb_ℤ (numeric_rank w) (numeric_rank t) ≡ true
    → Widens w t
unfolding is_assignable_to
rank_below w t m n h = ground arith

-- The integer line is a chain; the decimal line is not, `double` being apart from `big_decimal`.
rank_above :
    (w t : DataType)
    → numeric_family w ≡ 1
    → numeric_family t ≡ 1
    → ltb_ℤ (numeric_rank w) (numeric_rank t) ≡ false
    → Widens t w
unfolding is_assignable_to
rank_above w t m n h = ground arith

module _ (k : ℕ) (t : DataType) (numeric : is_numeric t ≡ true) (line : numeric_family t ≡ k) where
  wider-OnLine : (o : Option DataType) → OnLine k o → OnLine k (wider o t)
  wider-OnLine none h = (line, numeric)
  wider-OnLine (some w) h = elim (Bool-cases (ltb_ℤ (numeric_rank w) (numeric_rank t))) [
    | inl e ↦ rw e (line, numeric)
    | inr e ↦ rw e h
  ]

  wider-Found : (o : Option DataType) → Found (wider o t)
  wider-Found none = tt
  wider-Found (some w) = elim (Bool-cases (ltb_ℤ (numeric_rank w) (numeric_rank t))) [
    | inl e ↦ rw e tt
    | inr e ↦ rw e tt
  ]

  wider-Under : (o : Option DataType) (u : DataType) → Under u o → Widens t u → Under u (wider o t)
  wider-Under none u h a = a
  wider-Under (some w) u h a = elim (Bool-cases (ltb_ℤ (numeric_rank w) (numeric_rank t))) [
    | inl e ↦ rw e a
    | inr e ↦ rw e h
  ]

module _ (t : DataType) (line : numeric_family t ≡ 1) where
  wider-Above : (o : Option DataType) → OnLine 1 o → Above (wider o t) t
  wider-Above none h = Widens-refl t
  wider-Above (some w) h = elim (Bool-cases (ltb_ℤ (numeric_rank w) (numeric_rank t))) [
    | inl e ↦ rw e (Widens-refl t)
    | inr e ↦ rw e (rank_above w t h.0 line e)
  ]

  wider-keeps : (o : Option DataType) (s : DataType) → OnLine 1 o → Above o s → Above (wider o t) s
  wider-keeps none s h a = absurd a
  wider-keeps (some w) s h a = elim (Bool-cases (ltb_ℤ (numeric_rank w) (numeric_rank t))) [
    | inl e ↦ rw e (Widens-trans s w t a (rank_below w t h.0 line e))
    | inr e ↦ rw e a
  ]

family-cases :
    (t : DataType) → is_numeric t ≡ true → (numeric_family t ≡ 1) ⊎ (numeric_family t ≡ 2)
family-cases t n = ground arith

record IsFound (w : Widest) : Type 0 where
  ints : OnLine 1 w.widest_int
  decs : OnLine 2 w.widest_dec

-- A turn of the loop at a numeric type.
record Advanced (w w' : Widest) (t : DataType) : Type 0 where
  found : IsFound w'
  covered :
      (numeric_family t ≡ 1 → Above w'.widest_int t) × (numeric_family t ≡ 2 → Found w'.widest_dec)
  kept_int : (s : DataType) → Above w.widest_int s → Above w'.widest_int s
  kept_dec : Found w.widest_dec → Found w'.widest_dec
  bounded :
      (u : DataType)
      → Under u w.widest_int × Under u w.widest_dec
      → Widens t u
      → Under u w'.widest_int × Under u w'.widest_dec

advance :
    (w : Widest) (t : DataType)
    → is_numeric t ≡ true
    → IsFound w
    → (w' : Widest) × (widen_by w t ≡ some w') × Advanced w w' t
unfolding widen_by
advance w t n f = elim (family-cases t n) [
  | inl line ↦ (
    record w { widest_int = wider w.widest_int t },
    rw line,
    record {
      found = record { ints = wider-OnLine 1 t n line w.widest_int f.ints; decs = f.decs };
      covered = (λ _. wider-Above t line w.widest_int f.ints, λ e. absurd (omega arith));
      kept_int = λ s a. wider-keeps t line w.widest_int s f.ints a;
      kept_dec = λ a. a;
      bounded = λ u h a. (wider-Under 1 t n line w.widest_int u h.0 a, h.1);
    },
  )
  | inr line ↦ (
    record w { widest_dec = wider w.widest_dec t },
    rw line,
    record {
      found = record { ints = f.ints; decs = wider-OnLine 2 t n line w.widest_dec f.decs };
      covered = (λ e. absurd (omega arith), λ _. wider-Found 2 t n line w.widest_dec);
      kept_int = λ s a. a;
      kept_dec = λ a. wider-Found 2 t n line w.widest_dec;
      bounded = λ u h a. (h.0, wider-Under 2 t n line w.widest_dec u h.1 a);
    },
  )
]

-- The whole loop over numeric types.
record Summed (w w' : Widest) (ts : List DataType) : Type 0 where
  found : IsFound w'
  covered_int : All (λ t. numeric_family t ≡ 1 → Above w'.widest_int t) ts
  covered_dec : All (λ t. numeric_family t ≡ 2 → Found w'.widest_dec) ts
  kept_int : (s : DataType) → Above w.widest_int s → Above w'.widest_int s
  kept_dec : Found w.widest_dec → Found w'.widest_dec
  bounded :
      (u : DataType)
      → Under u w.widest_int × Under u w.widest_dec
      → Upper u ts
      → Under u w'.widest_int × Under u w'.widest_dec

widest_of-Summed :
    (w : Widest) (ts : List DataType)
    → AllNumeric ts
    → IsFound w
    → (w' : Widest) × (widest_of w ts ≡ some w') × Summed w w' ts
unfolding widest_of
widest_of-Summed w [] n f = (
  w,
  refl,
  record {
    found = f;
    covered_int = tt;
    covered_dec = tt;
    kept_int = λ s a. a;
    kept_dec = λ a. a;
    bounded = λ u h _. h;
  },
)
widest_of-Summed w (t ∷ ts) (n, ns) f =
    let (w₁, e₁, a) = advance w t n f in
    let (w₂, e₂, b) = widest_of-Summed w₁ ts ns a.found in
    (
      w₂,
      rw (e₁, widest_of) e₂,
      record {
        found = b.found;
        covered_int = (λ l. b.kept_int t (a.covered.0 l), b.covered_int);
        covered_dec = (λ l. b.kept_dec (a.covered.1 l), b.covered_dec);
        kept_int = λ s h. b.kept_int s (a.kept_int s h);
        kept_dec = λ h. b.kept_dec (a.kept_dec h);
        bounded = λ u h k. b.bounded u (a.bounded u h k.0) k.1;
      },
    )

all_fit→Upper : (c : DataType) (ts : List DataType) → all_fit c ts ≡ true → Upper c ts
unfolding all_fit
all_fit→Upper c [] h = tt
all_fit→Upper c (t ∷ ts) h = elim (Bool-cases (is_assignable_to t c)) [
  | inl e ↦ (e, all_fit→Upper c ts (unfold is_assignable_to in ground arith))
  | inr e ↦ unfold is_assignable_to in ground arith
]

passes : (a b : Bool) → b ≡ true → (not a && not b) ≡ false
passes a b h = ground arith

Upper→all_fit : (c : DataType) (ts : List DataType) → Upper c ts → all_fit c ts ≡ true
unfolding all_fit
Upper→all_fit c [] h = refl
Upper→all_fit c (t ∷ ts) h =
    rw (passes (same t c) (is_assignable_to t c) h.0) (Upper→all_fit c ts h.1)

above_decimal :
    (c u : DataType) → numeric_family c ≡ 2 → Widens c u → (u ≡ c) ⊎ (u ≡ unbound_decimal)
unfolding is_assignable_to
above_decimal c u f h = ground arith

Widens-unbound_decimal : (t : DataType) → is_numeric t ≡ true → Widens t unbound_decimal
unfolding is_assignable_to
Widens-unbound_decimal t n = ground arith

Upper-unbound_decimal : (ts : List DataType) → AllNumeric ts → Upper unbound_decimal ts
Upper-unbound_decimal [] h = tt
Upper-unbound_decimal (t ∷ ts) h = (Widens-unbound_decimal t h.0, Upper-unbound_decimal ts h.1)

-- A candidate that some type does not widen to: only the unbounded decimal is above them all.
choose_decimal :
    (c : DataType) (ts : List DataType)
    → AllNumeric ts
    → (numeric_family c ≡ 2) × (is_numeric c ≡ true)
    → ((u : DataType) → Upper u ts → Widens c u)
    → (r : DataType) × ((if all_fit c ts then some c else some unbound_decimal) ≡ some r)
      × IsLub r ts
choose_decimal c ts ns line below = elim (Bool-cases (all_fit c ts)) [
  | inl e ↦ (c, rw e, record { numeric = line.1; upper = all_fit→Upper c ts e; least = below })
  | inr e ↦ (
    unbound_decimal,
    rw e,
    record {
      numeric = refl;
      upper = Upper-unbound_decimal ts ns;
      least = λ u h. elim (above_decimal c u line.0 (below u h)) [
        | inl same_type ↦ cc (Upper→all_fit c ts (subst (λ x. Upper x ts) same_type h))
        | inr top ↦ rw top (Widens-refl unbound_decimal)
      ];
    },
  )
]

no_decimals :
    (i : DataType) (ts : List DataType)
    → AllNumeric ts
    → All (λ t. numeric_family t ≡ 1 → Widens t i) ts
    → All (λ t. numeric_family t ≡ 2 → ⊥) ts
    → Upper i ts
no_decimals i [] n c d = tt
no_decimals i (t ∷ ts) n c d = (
  elim (family-cases t n.0) [ inl line ↦ c.0 line | inr line ↦ absurd (d.0 line) ],
  no_decimals i ts n.1 c.1 d.1,
)

none_found :
    {P : Type 0} (t : DataType)
    → is_numeric t ≡ true
    → (numeric_family t ≡ 1 → ⊥)
    → (numeric_family t ≡ 2 → ⊥)
    → P
none_found t n a b = elim (family-cases t n) [ inl e ↦ absurd (a e) | inr e ↦ absurd (b e) ]

choose-IsLub :
    (t : DataType) (ts : List DataType) (i d : Option DataType)
    → AllNumeric (t ∷ ts)
    → Summed
        (record { widest_int = none; widest_dec = none })
        (record { widest_int = i; widest_dec = d })
        (t ∷ ts)
    → (r : DataType) × (choose (record { widest_int = i; widest_dec = d }) (t ∷ ts) ≡ some r)
      × IsLub r (t ∷ ts)
unfolding choose
choose-IsLub t ts i (some c) ns s =
    choose_decimal c (t ∷ ts) ns s.found.decs (λ u h. (s.bounded u (tt, tt) h).1)
choose-IsLub t ts (some i) none ns s = (
  i,
  refl,
  record {
    numeric = s.found.ints.1;
    upper = no_decimals i (t ∷ ts) ns s.covered_int s.covered_dec;
    least = λ u h. (s.bounded u (tt, tt) h).0;
  },
)
choose-IsLub t ts none none ns s = none_found t ns.0 s.covered_int.0 s.covered_dec.0

-- On one or more numeric types `CollapseNumeric` does not panic, and its result is the least type
-- that every one of them widens to.
pub collapse_numeric-IsLub :
    (t : DataType) (ts : List DataType)
    → AllNumeric (t ∷ ts)
    → (r : DataType) × (collapse_numeric (t ∷ ts) ≡ some r) × IsLub r (t ∷ ts)
unfolding collapse_numeric
collapse_numeric-IsLub t ts ns =
    let (w, e, s) =
      widest_of-Summed (record { widest_int = none; widest_dec = none }) (t ∷ ts) ns
        (record { ints = tt; decs = tt }) in
    let (r, e', lub) = choose-IsLub t ts w.widest_int w.widest_dec ns s in
    (r, rw (e, collapse_numeric) e', lub)

pub IsLub-unique : (a b : DataType) (ts : List DataType) → IsLub a ts → IsLub b ts → a ≡ b
IsLub-unique a b ts x y = Widens-antisymm a b (x.least b y.upper) (y.least a x.upper)
