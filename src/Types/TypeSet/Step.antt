-- ===== src/Types/TypeSet/Step.antt =====
-- One call of `TypeSet.Add`, case by case.
use cyoda_go_spi.Base.{
  ◌≡◌, refl, sym, ap, subst, ◌∙◌, ◌⊎◌, inl, inr, Bool, true, false, not, ◌&&◌, ◌||◌, List, [], ◌∷◌,
  ◌++◌, some, arith, keep, any_of, Bool-cases,
}
use cyoda_go_spi.Types.{DataType, null, same, same_iff, is_numeric, collapse_numeric}
use cyoda_go_spi.Types.Lattice.{Widens, Widens-refl}
use cyoda_go_spi.Types.TypeSet.{TypeSet, contains, not_null, insert_type, sort_types, collapse, add}
use cyoda_go_spi.Types.TypeSet.Members.{contains-append, Sorted}
use cyoda_go_spi.Types.TypeSet.Invariant.{
  LubOf, Nums, no_nums, one_num, Sums, numeric-not_null, any_of-append, any_of-contains, appended,
  add_new, numerics-appended, numerics_none, numerics_one, or_false,
}

collapse_none : (cs : List DataType) → keep is_numeric cs ≡ [] → collapse cs ≡ cs
unfolding collapse
collapse_none cs e = rw e

collapse_single :
    (cs : List DataType) (r : DataType) → keep is_numeric cs ≡ r ∷ [] → collapse cs ≡ cs
unfolding collapse
collapse_single cs r e = rw e

collapse_two :
    (cs : List DataType) (r d c : DataType)
    → keep is_numeric cs ≡ r ∷ d ∷ []
    → collapse_numeric (r ∷ d ∷ []) ≡ some c
    → collapse cs ≡ keep (λ t. not (is_numeric t)) cs ++ c ∷ []
unfolding collapse
collapse_two cs r d c e f = rw (e, f)

pub LubOf-cong :
    (r : DataType) (seen seen' : List DataType)
    → ((t : DataType) → is_numeric t ≡ true → contains t seen ≡ contains t seen')
    → LubOf r seen
    → LubOf r seen'
LubOf-cong r seen seen' h l =
    let (t, n, c) = l.witness in
    record {
      numeric = l.numeric;
      witness = (t, n, sym (h t n) ∙ c);
      upper = λ t n c. l.upper t n (h t n ∙ c);
      least = λ u k. l.least u λ t n c. k t n (sym (h t n) ∙ c);
    }

-- What was seen before `d` and with it.
module _ (seen : List DataType) (d t : DataType) where
  pub seen_ne : same d t ≡ false → contains t (seen ++ d ∷ []) ≡ contains t seen
  seen_ne h = contains-append t seen (d ∷ []) ∙ rw h (sym (or_false (contains t seen)))

  pub seen_old : contains t seen ≡ true → contains t (seen ++ d ∷ []) ≡ true
  seen_old h = contains-append t seen (d ∷ []) ∙ rw h

  pub seen_new : same d t ≡ true → contains t (seen ++ d ∷ []) ≡ true
  seen_new h = contains-append t seen (d ∷ []) ∙ rw h (last (contains t seen))
    where
      last : (a : Bool) → (a || (true || false)) ≡ true
      last a = ground arith

  pub seen_or : contains t (seen ++ d ∷ []) ≡ true → (same d t ≡ true) ⊎ (contains t seen ≡ true)
  seen_or h = elim (Bool-cases (same d t)) [ inl e ↦ inl e | inr e ↦ inr (sym (seen_ne e) ∙ h) ]

-- A type that the set holds already, or null where something concrete is held.
module _ (seen : List DataType) (ts : TypeSet) (s : Sums seen ts) where
  pub Nums-same :
      (d : DataType)
      → ((t : DataType) → is_numeric t ≡ true → same d t ≡ false)
      → Nums seen ts
      → Nums (seen ++ d ∷ []) ts
  Nums-same d h (no_nums a b) = no_nums a λ t n. seen_ne seen d t (h t n) ∙ b t n
  Nums-same d h (one_num r a l) =
      one_num r a (LubOf-cong r seen (seen ++ d ∷ []) (λ t n. sym (seen_ne seen d t (h t n))) l)

  -- A numeric type that is held is the least upper bound itself.
  Nums-held :
      (d : DataType)
      → is_numeric d ≡ true
      → contains d ts ≡ true
      → Nums seen ts
      → Nums (seen ++ d ∷ []) ts
  Nums-held d n h (no_nums a b) = cc (a d n)
  Nums-held d n h (one_num r a l) =
      let (w, wn, wc) = l.witness in
      let r_is_d = (same_iff r d).0 (sym (a d n) ∙ h) in
      one_num r a (record {
        numeric = l.numeric;
        witness = (w, wn, seen_old seen d w wc);
        upper = λ t tn c. elim (seen_or seen d t c) [
          | inl e ↦ subst (λ x. Widens x r) (r_is_d ∙ (same_iff d t).0 e) (Widens-refl r)
          | inr e ↦ l.upper t tn e
        ];
        least = λ u k. l.least u λ t tn c. k t tn (seen_old seen d t c);
      })

  pub same_null : (d t : DataType) → not_null d ≡ false → not_null t ≡ true → same d t ≡ false
  same_null d t h k = elim (Bool-cases (same d t)) [
    | inl e ↦ cc (subst (λ x. not_null x ≡ false) ((same_iff d t).0 e) h)
    | inr e ↦ e
  ]

  -- Null, where something concrete is held.
  pub Sums-null_kept : any_of not_null ts ≡ true → Sums (seen ++ null ∷ []) ts
  Sums-null_kept h = record {
    sorted = s.sorted;
    others = λ t n c. s.others t n c ∙ sym (seen_ne seen null t (same_null null t refl c));
    nums = Nums-same null (λ t n. same_null null t refl (numeric-not_null t n)) s.nums;
    nulls =
        s.nulls
        ∙ rw (any_of-append not_null seen (null ∷ []), ← s.concrete, h)
            (and_false' (contains null seen) (contains null (seen ++ null ∷ [])));
    concrete =
        s.concrete ∙ rw (any_of-append not_null seen (null ∷ [])) (or_false (any_of not_null seen));
  }
    where
      and_false' : (a b : Bool) → (a && false) ≡ (b && not (true || (false || false)))
      and_false' a b = ground arith

  any_with : (d : DataType) → not_null d ≡ true → any_of not_null (seen ++ d ∷ []) ≡ true
  any_with d h = any_of-append not_null seen (d ∷ []) ∙ rw h (last (any_of not_null seen))
    where
      last : (a : Bool) → (a || (true || false)) ≡ true
      last a = ground arith

  -- Something concrete was seen, so null is not held.
  no_null : any_of not_null seen ≡ true → contains null ts ≡ false
  no_null h = s.nulls ∙ rw h (drop_all (contains null seen))
    where
      drop_all : (a : Bool) → (a && false) ≡ false
      drop_all a = ground arith

  -- A concrete type that is held.
  pub Sums-dup :
      (d : DataType) → not_null d ≡ true → contains d ts ≡ true → Sums (seen ++ d ∷ []) ts
  Sums-dup d c h =
      let any_seen = sym s.concrete ∙ any_of-contains not_null d ts c h in
      record {
        sorted = s.sorted;
        others = λ t n k. elim (Bool-cases (same d t)) [
          | inl e ↦
              subst (λ x. contains x ts ≡ true) ((same_iff d t).0 e) h ∙ sym (seen_new seen d t e)
          | inr e ↦ s.others t n k ∙ sym (seen_ne seen d t e)
        ];
        nums = elim (Bool-cases (is_numeric d)) [
          | inl e ↦ Nums-held d e h s.nums
          | inr e ↦ Nums-same d (λ t n. differs d t n e) s.nums
        ];
        nulls = no_null any_seen ∙ rw (any_with d c) (all_false (contains null (seen ++ d ∷ [])));
        concrete = s.concrete ∙ any_seen ∙ sym (any_with d c);
      }
    where
      all_false : (a : Bool) → false ≡ (a && false)
      all_false a = ground arith

      differs : (d t : DataType) → is_numeric t ≡ true → is_numeric d ≡ false → same d t ≡ false
      differs d t n e = elim (Bool-cases (same d t)) [
        | inl f ↦ cc (subst (λ x. is_numeric x ≡ false) ((same_iff d t).0 f) e)
        | inr f ↦ f
      ]

  -- Null, where null alone is held.
  pub Sums-null_dup :
      any_of not_null ts ≡ false → contains null ts ≡ true → Sums (seen ++ null ∷ []) ts
  Sums-null_dup a h = record {
    sorted = s.sorted;
    others = λ t n c. s.others t n c ∙ sym (seen_ne seen null t (same_null null t refl c));
    nums = Nums-same null (λ t n. same_null null t refl (numeric-not_null t n)) s.nums;
    nulls =
        h
        ∙ sym (
            rw (
              seen_new seen null null refl,
              any_of-append not_null seen (null ∷ []),
              ← s.concrete,
              a,
            ));
    concrete =
        s.concrete ∙ rw (any_of-append not_null seen (null ∷ [])) (or_false (any_of not_null seen));
  }

  -- The set after a new concrete type was sorted in, given what it contains.
  pub Sums-new :
      (d e : DataType) (ts' : TypeSet)
      → not_null d ≡ true
      → Sorted ts'
      → ((t : DataType)
          → is_numeric t ≡ false
          → not_null t ≡ true
          → contains t ts' ≡ (contains t ts || (same d t || false)))
      → Nums (seen ++ d ∷ []) ts'
      → contains null ts' ≡ false
      → not_null e ≡ true
      → contains e ts' ≡ true
      → Sums (seen ++ d ∷ []) ts'
  Sums-new d e ts' c sorted others nums null_gone ce he = record {
    sorted = sorted;
    others = λ t n k. others t n k ∙ rw (s.others t n k) (sym (contains-append t seen (d ∷ [])));
    nums = nums;
    nulls = null_gone ∙ rw (any_with d c) (all_false (contains null (seen ++ d ∷ [])));
    concrete = any_of-contains not_null e ts' ce he ∙ sym (any_with d c);
  }
    where
      all_false : (a : Bool) → false ≡ (a && false)
      all_false a = ground arith

pub Sums-first_null : (seen : List DataType) → Sums seen [] → Sums (seen ++ null ∷ []) (null ∷ [])
Sums-first_null seen s = record {
  sorted = (tt, tt);
  others = λ t n c. rw (not_this t c) (s.others t n c ∙ sym (seen_ne seen null t (not_this t c)));
  nums =
      no_nums (λ t n. rw (not_this t (numeric-not_null t n)))
        (λ t n. seen_ne seen null t (not_this t (numeric-not_null t n)) ∙ none_seen s.nums t n);
  nulls =
      sym
        (rw (seen_new seen null null refl, any_of-append not_null seen (null ∷ []), ← s.concrete));
  concrete = sym (rw (any_of-append not_null seen (null ∷ []), ← s.concrete));
}
  where
    not_this : (t : DataType) → not_null t ≡ true → same null t ≡ false
    not_this t c = same_null seen [] s null t refl c

    none_seen : Nums seen [] → (t : DataType) → is_numeric t ≡ true → contains t seen ≡ false
    none_seen (no_nums a b) = b
    none_seen (one_num r a l) = λ t n. cc (a r l.numeric, (same_iff r r).1 refl)

pub add_null_fresh : add [] null ≡ null ∷ []
unfolding add collapse sort_types insert_type
add_null_fresh = refl

-- A new concrete type that is not numeric.
pub add_other :
    (ts : TypeSet) (d : DataType)
    → ((t : DataType) → is_numeric t ≡ true → contains t ts ≡ false)
      ⊎ ((r : DataType) × (is_numeric r ≡ true)
          × ((t : DataType) → is_numeric t ≡ true → contains t ts ≡ same r t))
    → Sorted ts
    → not_null d ≡ true
    → is_numeric d ≡ false
    → contains d ts ≡ false
    → add ts d ≡ sort_types (appended ts d)
add_other ts d (inl none_held) s c n h =
    add_new ts d c h
    ∙ ap sort_types (
        collapse_none (appended ts d)
          (numerics-appended ts d ∙ rw (numerics_none ts s none_held) (rw (n, keep))))
add_other ts d (inr (r, rn, held)) s c n h =
    add_new ts d c h
    ∙ ap sort_types (
        collapse_single (appended ts d) r
          (numerics-appended ts d ∙ rw (numerics_one ts r s rn held) (rw (n, keep))))

-- The first numeric type.
pub add_first_numeric :
    (ts : TypeSet) (d : DataType)
    → ((t : DataType) → is_numeric t ≡ true → contains t ts ≡ false)
    → Sorted ts
    → not_null d ≡ true
    → is_numeric d ≡ true
    → contains d ts ≡ false
    → add ts d ≡ sort_types (appended ts d)
add_first_numeric ts d none_held s c n h =
    add_new ts d c h
    ∙ ap sort_types (
        collapse_single (appended ts d) d
          (numerics-appended ts d ∙ rw (numerics_none ts s none_held) (rw (n, keep))))

pub add_second_numeric :
    (ts : TypeSet) (d r c : DataType)
    → is_numeric r ≡ true
    → ((t : DataType) → is_numeric t ≡ true → contains t ts ≡ same r t)
    → collapse_numeric (r ∷ d ∷ []) ≡ some c
    → Sorted ts
    → not_null d ≡ true
    → is_numeric d ≡ true
    → contains d ts ≡ false
    → add ts d ≡ sort_types (keep (λ t. not (is_numeric t)) (appended ts d) ++ c ∷ [])
add_second_numeric ts d r c rn held e s nn n h =
    add_new ts d nn h
    ∙ ap sort_types (
        collapse_two (appended ts d) r d c
          (numerics-appended ts d ∙ rw (numerics_one ts r s rn held) (rw (n, keep))) e)
