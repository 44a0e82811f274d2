-- ===== src/Types/TypeSet/Order.antt =====
-- What a `TypeSet` holds after any number of calls of `Add`, and that their order does not matter.
use cyoda_go_spi.Base.{
  ◌≡◌, refl, sym, subst, ◌∙◌, inl, inr, Bool, true, false, ◌||◌, List, [], ◌∷◌, ◌++◌, arith, any_of,
  Bool-cases, append_assoc, append-nil,
}
use cyoda_go_spi.Types.{DataType, null, same, same_iff, is_numeric}
use cyoda_go_spi.Types.Lattice.{Widens-antisymm, collapse_numeric-IsLub}
use cyoda_go_spi.Types.TypeSet.{TypeSet, contains, not_null, add, add_all, union}
use cyoda_go_spi.Types.TypeSet.Members.{contains-append, Sorted-ext}
use cyoda_go_spi.Types.TypeSet.Invariant.{
  LubOf, Nums, no_nums, one_num, Sums, nothing_left, any_of-contains,
}
use cyoda_go_spi.Types.TypeSet.Step.{
  Sums-null_kept, Sums-dup, Sums-null_dup, Sums-first_null, add_null_fresh,
}
use cyoda_go_spi.Types.TypeSet.Summary.{
  add_held, add_null_kept, Sums-other, Sums-first_numeric, Sums-second_numeric,
}

module _ (seen : List DataType) (ts : TypeSet) (s : Sums seen ts) where
  add_null : Sums (seen ++ null ∷ []) (add ts null)
  add_null = elim (Bool-cases (any_of not_null ts)) [
    | inl e ↦ rw (add_null_kept ts e) (Sums-null_kept seen ts s e)
    | inr e ↦ elim (Bool-cases (contains null ts)) [
      | inl h ↦ rw (add_held ts null h) (Sums-null_dup seen ts s e h)
      | inr h ↦
          let empty = nothing_left ts e h in
          subst (λ x. Sums (seen ++ null ∷ []) (add x null)) (sym empty)
            (rw add_null_fresh (Sums-first_null seen (subst (Sums seen) empty s)))
    ]
  ]

  add_concrete :
      (d : DataType)
      → not_null d ≡ true
      → contains d ts ≡ false
      → Nums seen ts
      → Sums (seen ++ d ∷ []) (add ts d)
  add_concrete d c h n = elim (Bool-cases (is_numeric d)) [
    | inl e ↦ numeric_case e n
    | inr e ↦ Sums-other seen ts s d c e h
  ]
    where
      numeric_case : is_numeric d ≡ true → Nums seen ts → Sums (seen ++ d ∷ []) (add ts d)
      numeric_case e (no_nums a b) = Sums-first_numeric seen ts s d c e h a b
      numeric_case e (one_num r a l) =
          let (j, ej, join) = collapse_numeric-IsLub r (d ∷ []) (l.numeric, (e, tt)) in
          Sums-second_numeric seen ts s d r j l join c e h a ej

  -- One call of `Add` takes a summary of the types seen to a summary of one more.
  pub add-Sums : (d : DataType) → Sums (seen ++ d ∷ []) (add ts d)
  add-Sums d = elim (Bool-cases (not_null d)) [
    | inl c ↦ elim (Bool-cases (contains d ts)) [
      | inl h ↦ rw (add_held ts d h) (Sums-dup seen ts s d c h)
      | inr h ↦ add_concrete d c h s.nums
    ]
    | inr c ↦ subst (λ x. Sums (seen ++ x ∷ []) (add ts x)) (sym (is_null d c)) add_null
  ]
    where
      is_null : (d : DataType) → not_null d ≡ false → d ≡ null
      is_null d c = ground arith

Sums-empty : Sums [] []
Sums-empty = record {
  sorted = tt;
  others = λ t n c. refl;
  nums = no_nums (λ t n. refl) (λ t n. refl);
  nulls = refl;
  concrete = refl;
}

add_all_after :
    (seen : List DataType) (ts : TypeSet) (ds : List DataType)
    → Sums seen ts
    → Sums (seen ++ ds) (add_all ts ds)
unfolding add_all
add_all_after seen ts [] s = rw append-nil s
add_all_after seen ts (d ∷ ds) s =
    subst (λ x. Sums x (add_all (add ts d) ds)) (append_assoc seen (d ∷ []) ds)
      (add_all_after (seen ++ d ∷ []) (add ts d) ds (add-Sums seen ts s d))

-- Adding any types to an empty set leaves it sorted without repetition. It then holds exactly: each
-- type added that is neither numeric nor null; where numeric types were added, one numeric type, the
-- least that they all widen to; and null if it was added and nothing else was.
pub add_all-Sums : (ds : List DataType) → Sums ds (add_all [] ds)
add_all-Sums ds = add_all_after [] [] ds Sums-empty

-- Two lists of the same types, in any order and number.
abbrev pub SameTypes : List DataType → List DataType → Type 0
SameTypes xs ys = (t : DataType) → contains t xs ≡ contains t ys

LubOf-unique :
    (xs ys : List DataType) (a b : DataType) → SameTypes xs ys → LubOf a xs → LubOf b ys → a ≡ b
LubOf-unique xs ys a b h x y =
    Widens-antisymm a b (x.least b λ t n c. y.upper t n (sym (h t) ∙ c))
      (y.least a λ t n c. x.upper t n (h t ∙ c))

same_nums :
    (xs ys : List DataType) (ts ts' : TypeSet)
    → SameTypes xs ys
    → Nums xs ts
    → Nums ys ts'
    → (t : DataType) → is_numeric t ≡ true
    → contains t ts ≡ contains t ts'
same_nums xs ys ts ts' h (no_nums a b) (no_nums a' b') t n = a t n ∙ sym (a' t n)
same_nums xs ys ts ts' h (no_nums a b) (one_num r a' l) t n =
    let (w, wn, wc) = l.witness in cc (b w wn, h w, wc)
same_nums xs ys ts ts' h (one_num r a l) (no_nums a' b') t n =
    let (w, wn, wc) = l.witness in cc (b' w wn, h w, wc)
same_nums xs ys ts ts' h (one_num r a l) (one_num r' a' l') t n =
    a t n ∙ rw (LubOf-unique xs ys r r' h l l') (sym (a' t n))

any_from :
    (xs ys : List DataType)
    → SameTypes xs ys
    → any_of not_null xs ≡ true
    → any_of not_null ys ≡ true
any_from xs ys h e = let (t, c, m) = find xs e in any_of-contains not_null t ys c (sym (h t) ∙ m)
  where
    find :
        (zs : List DataType)
        → any_of not_null zs ≡ true
        → (t : DataType) × (not_null t ≡ true) × (contains t zs ≡ true)
    find [] e = cc
    find (z ∷ zs) e = elim (Bool-cases (not_null z)) [
      | inl c ↦ (z, c, rw ((same_iff z z).1 refl))
      | inr c ↦
          let (t, c', m) = find zs (skip (not_null z) (any_of not_null zs) c e) in
          (t, c', later (same z t) (contains t zs) m)
    ]
      where
        skip : (a b : Bool) → a ≡ false → (a || b) ≡ true → b ≡ true
        skip a b c e = ground arith

        later : (a b : Bool) → b ≡ true → (a || b) ≡ true
        later a b h = ground arith

any_same : (xs ys : List DataType) → SameTypes xs ys → any_of not_null xs ≡ any_of not_null ys
any_same xs ys h =
    both (any_of not_null xs) (any_of not_null ys) (any_from xs ys h)
      (any_from ys xs (λ t. sym (h t)))
  where
    both : (a b : Bool) → (a ≡ true → b ≡ true) → (b ≡ true → a ≡ true) → a ≡ b
    both true b f g = sym (f refl)
    both false true f g = g refl
    both false false f g = refl

Sums-unique :
    (xs ys : List DataType) (ts ts' : TypeSet)
    → SameTypes xs ys
    → Sums xs ts
    → Sums ys ts'
    → ts ≡ ts'
Sums-unique xs ys ts ts' h x y = Sorted-ext ts ts' x.sorted y.sorted λ t.
    elim (Bool-cases (is_numeric t)) [
      | inl n ↦ same_nums xs ys ts ts' h x.nums y.nums t n
      | inr n ↦ elim (Bool-cases (not_null t)) [
        | inl c ↦ x.others t n c ∙ h t ∙ sym (y.others t n c)
        | inr c ↦
            subst (λ z. contains z ts ≡ contains z ts') (sym (is_null t c))
              (x.nulls ∙ rw (h null, any_same xs ys h) (sym y.nulls))
      ]
    ]
  where
    is_null : (d : DataType) → not_null d ≡ false → d ≡ null
    is_null d c = ground arith

-- Two lists that hold the same types, in whatever order and however often, build the same set.
pub add_all_order : (xs ys : List DataType) → SameTypes xs ys → add_all [] xs ≡ add_all [] ys
add_all_order xs ys h =
    Sums-unique xs ys (add_all [] xs) (add_all [] ys) h (add_all-Sums xs) (add_all-Sums ys)

add_all-append :
    (ts : TypeSet) (xs ys : List DataType) → add_all ts (xs ++ ys) ≡ add_all (add_all ts xs) ys
unfolding add_all
add_all-append ts [] ys = refl
add_all-append ts (x ∷ xs) ys = add_all-append (add ts x) xs ys

-- `Union` does not depend on which set comes first.
pub union_comm : (a b : TypeSet) → union a b ≡ union b a
unfolding union
union_comm a b =
    sym (add_all-append [] a b)
    ∙ add_all_order (a ++ b) (b ++ a) (λ t.
      contains-append t a b ∙ swap (contains t a) (contains t b) ∙ sym (contains-append t b a))
    ∙ add_all-append [] b a
  where
    swap : (a b : Bool) → (a || b) ≡ (b || a)
    swap a b = ground arith
