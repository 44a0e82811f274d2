-- ===== src/Types/TypeSet/Summary.antt =====
-- What a `TypeSet` holds after any number of calls of `Add`, and that their order does not matter.
use cyoda_go_spi.Base.{
  ◌≡◌, refl, sym, subst, ◌∙◌, ◌⊎◌, inl, inr, Bool, true, false, not, ◌&&◌, ◌||◌, List, [], ◌∷◌,
  ◌++◌, some, arith, keep, any_of, Bool-cases,
}
use cyoda_go_spi.Types.{DataType, null, same, same_iff, is_numeric, collapse_numeric}
use cyoda_go_spi.Types.Lattice.{Widens, Widens-refl, Widens-trans, IsLub}
use cyoda_go_spi.Types.TypeSet.{TypeSet, contains, not_null, sort_types, add}
use cyoda_go_spi.Types.TypeSet.Members.{
  contains-append, contains-keep, contains-sort_types, Distinct, sort_types-Sorted, keep-Distinct,
  append-Distinct,
}
use cyoda_go_spi.Types.TypeSet.Invariant.{
  LubOf, Nums, no_nums, one_num, Sums, numeric-not_null, appended, contains-appended,
  appended-Distinct, same_numeric, or_false,
}
use cyoda_go_spi.Types.TypeSet.Step.{
  seen_ne, seen_old, seen_new, seen_or, Sums-new, add_other, add_first_numeric, add_second_numeric,
  LubOf-cong,
}

pub add_held : (ts : TypeSet) (d : DataType) → contains d ts ≡ true → add ts d ≡ ts
unfolding add
add_held ts d h = elim (Bool-cases (same d null && any_of not_null ts)) [
  | inl e ↦ rw (e, add)
  | inr e ↦ rw (e, h, add)
]

pub add_null_kept : (ts : TypeSet) → any_of not_null ts ≡ true → add ts null ≡ ts
unfolding add
add_null_kept ts h = rw h

differs : (d t : DataType) → is_numeric d ≡ false → is_numeric t ≡ true → same d t ≡ false
differs d t n tn = elim (Bool-cases (same d t)) [
  | inl f ↦ cc (subst (λ x. is_numeric x ≡ false) ((same_iff d t).0 f) n)
  | inr f ↦ f
]

module _ (seen : List DataType) (ts : TypeSet) (s : Sums seen ts) (d : DataType) where
  -- The set sorted as it stands: what it contains.
  appended-holds :
      (t : DataType)
      → not_null t ≡ true
      → contains t (sort_types (appended ts d)) ≡ (contains t ts || (same d t || false))
  appended-holds t c = contains-sort_types t (appended ts d) ∙ contains-appended ts d t ∙ rw c

  appended-null : contains null (sort_types (appended ts d)) ≡ false
  appended-null = contains-sort_types null (appended ts d) ∙ contains-appended ts d null

  appended_self : not_null d ≡ true → contains d (sort_types (appended ts d)) ≡ true
  appended_self c = appended-holds d c ∙ rw ((same_iff d d).1 refl) (last (contains d ts))
    where
      last : (a : Bool) → (a || (true || false)) ≡ true
      last a = ground arith

  held_or_not :
      Nums seen ts
      → ((t : DataType) → is_numeric t ≡ true → contains t ts ≡ false)
        ⊎ ((r : DataType) × (is_numeric r ≡ true)
            × ((t : DataType) → is_numeric t ≡ true → contains t ts ≡ same r t))
  held_or_not (no_nums a b) = inl a
  held_or_not (one_num r a l) = inr (r, l.numeric, a)

  other_holds :
      is_numeric d ≡ false
      → (t : DataType) → is_numeric t ≡ true
      → contains t (sort_types (appended ts d)) ≡ contains t ts
  other_holds n t tn =
      appended-holds t (numeric-not_null t tn)
      ∙ rw (differs d t n tn) (sym (or_false (contains t ts)))

  Nums-other :
      is_numeric d ≡ false → Nums seen ts → Nums (seen ++ d ∷ []) (sort_types (appended ts d))
  Nums-other n (no_nums a b) =
      no_nums (λ t tn. other_holds n t tn ∙ a t tn)
        (λ t tn. seen_ne seen d t (differs d t n tn) ∙ b t tn)
  Nums-other n (one_num r a l) =
      one_num r (λ t tn. other_holds n t tn ∙ a t tn)
        (LubOf-cong r seen (seen ++ d ∷ []) (λ t tn. sym (seen_ne seen d t (differs d t n tn))) l)

  pub Sums-other :
      not_null d ≡ true
      → is_numeric d ≡ false
      → contains d ts ≡ false
      → Sums (seen ++ d ∷ []) (add ts d)
  Sums-other c n h = rw (add_other ts d (held_or_not s.nums) s.sorted c n h) (
      Sums-new seen ts s d d (sort_types (appended ts d)) c
        (sort_types-Sorted (appended ts d) (appended-Distinct ts d s.sorted h))
        (λ t _ k. appended-holds t k) (Nums-other n s.nums) appended-null c (appended_self c))

  first_numeric :
      is_numeric d ≡ true
      → ((t : DataType) → is_numeric t ≡ true → contains t ts ≡ false)
      → ((t : DataType) → is_numeric t ≡ true → contains t seen ≡ false)
      → Nums (seen ++ d ∷ []) (sort_types (appended ts d))
  first_numeric n a b =
      one_num d
        (λ t tn. appended-holds t (numeric-not_null t tn) ∙ rw (a t tn) (sym (or_false (same d t))))
        (record {
          numeric = n;
          witness = (d, n, seen_new seen d d ((same_iff d d).1 refl));
          upper = λ t tn c. elim (seen_or seen d t c) [
            | inl e ↦ subst (λ x. Widens x d) ((same_iff d t).0 e) (Widens-refl d)
            | inr e ↦ cc (b t tn)
          ];
          least = λ u k. k d n (seen_new seen d d ((same_iff d d).1 refl));
        })

  pub Sums-first_numeric :
      not_null d ≡ true
      → is_numeric d ≡ true
      → contains d ts ≡ false
      → ((t : DataType) → is_numeric t ≡ true → contains t ts ≡ false)
      → ((t : DataType) → is_numeric t ≡ true → contains t seen ≡ false)
      → Sums (seen ++ d ∷ []) (add ts d)
  Sums-first_numeric c n h a b = rw (add_first_numeric ts d a s.sorted c n h) (
      Sums-new seen ts s d d (sort_types (appended ts d)) c
        (sort_types-Sorted (appended ts d) (appended-Distinct ts d s.sorted h))
        (λ t _ k. appended-holds t k) (first_numeric n a b) appended-null c (appended_self c))

  -- A second numeric type: the two are replaced by their least upper bound.
  module _ (r c : DataType) (l : LubOf r seen) (join : IsLub c (r ∷ d ∷ [])) where
    joined : List DataType
    joined = keep (λ t. not (is_numeric t)) (appended ts d) ++ c ∷ []

    joined-holds :
        (t : DataType)
        → contains t (sort_types joined) ≡ (
            (not (is_numeric t) && (not_null t && (contains t ts || (same d t || false))))
            || (same c t || false))
    unfolding joined
    joined-holds t =
        contains-sort_types t joined
        ∙ contains-append t (keep (λ t. not (is_numeric t)) (appended ts d)) (c ∷ [])
        ∙ rw (contains-keep (λ t. not (is_numeric t)) t (appended ts d), contains-appended ts d t)

    joined-Distinct : contains d ts ≡ false → Distinct joined
    unfolding joined
    joined-Distinct h =
        append-Distinct (keep (λ t. not (is_numeric t)) (appended ts d)) c
          (keep-Distinct (λ t. not (is_numeric t)) (appended ts d)
            (appended-Distinct ts d s.sorted h))
          (contains-keep (λ t. not (is_numeric t)) c (appended ts d) ∙ rw join.numeric)

    joined-numeric :
        (t : DataType) → is_numeric t ≡ true → contains t (sort_types joined) ≡ same c t
    joined-numeric t n = joined-holds t ∙ rw n (sym (or_false (same c t)))

    joined-other :
        (t : DataType)
        → is_numeric t ≡ false
        → not_null t ≡ true
        → contains t (sort_types joined) ≡ (contains t ts || (same d t || false))
    joined-other t n k =
        joined-holds t
        ∙ rw (n, k, same_numeric c t join.numeric n)
            (sym (or_false (contains t ts || (same d t || false))))

    joined-LubOf : is_numeric d ≡ true → LubOf c (seen ++ d ∷ [])
    joined-LubOf n = record {
      numeric = join.numeric;
      witness = (d, n, seen_new seen d d ((same_iff d d).1 refl));
      upper = λ t tn k. elim (seen_or seen d t k) [
        | inl e ↦ subst (λ x. Widens x c) ((same_iff d t).0 e) join.upper.1.0
        | inr e ↦ Widens-trans t r c (l.upper t tn e) join.upper.0
      ];
      least = λ u k. join.least u (
        l.least u (λ t tn e. k t tn (seen_old seen d t e)),
        (k d n (seen_new seen d d ((same_iff d d).1 refl)), tt),
      );
    }

    pub Sums-second_numeric :
        not_null d ≡ true
        → is_numeric d ≡ true
        → contains d ts ≡ false
        → ((t : DataType) → is_numeric t ≡ true → contains t ts ≡ same r t)
        → collapse_numeric (r ∷ d ∷ []) ≡ some c
        → Sums (seen ++ d ∷ []) (add ts d)
    unfolding joined
    Sums-second_numeric k n h held e =
        rw (add_second_numeric ts d r c l.numeric held e s.sorted k n h) (
          Sums-new seen ts s d c (sort_types joined) k
            (sort_types-Sorted joined (joined-Distinct h)) joined-other
            (one_num c joined-numeric (joined-LubOf n)) (joined-other')
            (numeric-not_null c join.numeric)
            (joined-numeric c join.numeric ∙ (same_iff c c).1 refl))
      where
        joined-other' : contains null (sort_types joined) ≡ false
        joined-other' = joined-holds null ∙ rw (same_numeric c null join.numeric refl)
