-- ===== src/OrderClass/Classes.antt =====
-- When the declared types of a field agree on one class.
use mathlib.Core.Option.{some-injective}
use cyoda_go_spi.Base.{
  Result-cases, ok-injective, false≢true, ◌≡◌, ◌↔◌, ◌⊎◌, refl, sym, ap, ◌∙◌, subst, inl, inr, true,
  false, not, ◌==◌, ==_iff, List, [], ◌∷◌, Option, none, some, Result, ok, err, Bool-cases, All,
  any_of,
}
use cyoda_go_spi.Types.{DataType, same, null}
use cyoda_go_spi.OrderClass.{
  OrderKind, kind_index, order_text, order_numeric, order_bool, order_temporal, ClassError,
  scalar_class, apply_fold, merge_class, class_loop, classify_types_fold, no_scalar_type,
}

kind_index_injective : (a b : OrderKind) → (kind_index a == kind_index b) ≡ true → a ≡ b
unfolding kind_index
kind_index_injective order_text order_text h = refl
kind_index_injective order_numeric order_numeric h = refl
kind_index_injective order_bool order_bool h = refl
kind_index_injective order_temporal order_temporal h = refl
kind_index_injective _ _ h = cc h

module _ (fold : Option (OrderKind → OrderKind)) (k : OrderKind) where
  -- A type with class `k` after the fold, or the null type, which has none.
  abbrev pub InClass : DataType → Type 0
  InClass t =
      (same t null ≡ true) ⊎ ((c : OrderKind) × (scalar_class t ≡ ok c) × (apply_fold fold c ≡ k))

  -- What the loop has seen fits the answer `k`, given what is left.
  Leads : Option OrderKind → List DataType → Type 0
  Leads none types = any_of (λ t. not (same t null)) types ≡ true
  Leads (some kind) types = kind ≡ k

  Leads-skip :
      (seen : Option OrderKind) (t : DataType) (types : List DataType)
      → same t null ≡ true
      → Leads seen (t ∷ types) ↔ Leads seen types
  unfolding Leads
  Leads-skip none t types e = (λ h. rw e at h, λ h. rw e h)
  Leads-skip (some kind) t types e = (λ h. h, λ h. h)

  -- The class of one more type leaves what has been seen at that class.
  merge_class-ok :
      (seen seen' : Option OrderKind) (c : OrderKind)
      → merge_class seen c ≡ ok seen'
      → (seen' ≡ some c) × ((seen ≡ none) ⊎ (seen ≡ some c))
  unfolding merge_class
  merge_class-ok none seen' c h = (sym (ok-injective (some c) seen' h), inl refl)
  merge_class-ok (some kind) seen' c h = elim (Bool-cases (kind_index c == kind_index kind)) [
    | inl e ↦
        let same_kind = kind_index_injective c kind e in
        (
          sym (ok-injective (some kind) seen' (rw e at h)) ∙ ap some (sym same_kind),
          inr (ap some (sym same_kind)),
        )
    | inr e ↦ cc (rw e at h)
  ]

  some_or_none : (c : OrderKind) → (some c ≡ none) → ⊥
  some_or_none c h = cc h

  Leads-start :
      (seen : Option OrderKind) (c : OrderKind) (t : DataType) (types : List DataType)
      → same t null ≡ false
      → c ≡ k
      → (seen ≡ none) ⊎ (seen ≡ some c)
      → Leads seen (t ∷ types)
  unfolding Leads
  Leads-start none c t types e q o = rw e refl
  Leads-start (some kind) c t types e q (inl h) = absurd (some_or_none kind h)
  Leads-start (some kind) c t types e q (inr h) = some-injective kind c h ∙ q

  class_loop_sound :
      (types : List DataType) (seen : Option OrderKind)
      → class_loop types fold seen ≡ ok (some k)
      → All InClass types × Leads seen types
  unfolding class_loop Leads
  class_loop_sound [] none h = absurd (some_or_none k (sym (ok-injective none (some k) h)))
  class_loop_sound [] (some kind) h =
      (tt, some-injective kind k (ok-injective (some kind) (some k) h))
  class_loop_sound (t ∷ types) seen h = elim (Bool-cases (same t null)) [
    | inl e ↦
        let (v, l) = class_loop_sound types seen (rw (e, class_loop) at h) in
        ((inl e, v), (Leads-skip seen t types e).1 l)
    | inr e ↦ elim (Result-cases (scalar_class t)) [
      | inl (w, q) ↦ cc (rw (e, q, class_loop) at h)
      | inr (c, q) ↦ elim (Result-cases (merge_class seen (apply_fold fold c))) [
        | inl (w, m) ↦ cc (rw (e, q, m, class_loop) at h)
        | inr (seen', m) ↦
            let (v, l) = class_loop_sound types seen' (rw (e, q, m, class_loop) at h) in
            let (new, old) = merge_class-ok seen seen' (apply_fold fold c) m in
            let agrees : apply_fold fold c ≡ k = subst (λ s. Leads s types) new l in
            ((inr (c, q, agrees), v), Leads-start seen (apply_fold fold c) t types e agrees old)
      ]
    ]
  ]

  merge_class-k :
      (seen : Option OrderKind) (t : DataType) (types : List DataType)
      → Leads seen (t ∷ types)
      → merge_class seen k ≡ ok (some k)
  unfolding merge_class Leads
  merge_class-k none t types l = refl
  merge_class-k (some kind) t types l = rw (l, (==_iff (kind_index k) (kind_index k)).1 refl)

  class_loop_complete :
      (types : List DataType) (seen : Option OrderKind)
      → All InClass types
      → Leads seen types
      → class_loop types fold seen ≡ ok (some k)
  unfolding class_loop
  class_loop_complete [] none v l = unfold Leads in absurd (false≢true l)
  class_loop_complete [] (some kind) v l = unfold Leads in rw l
  class_loop_complete (t ∷ types) seen (inl e, v) l =
      rw (e, class_loop) (class_loop_complete types seen v ((Leads-skip seen t types e).0 l))
  class_loop_complete (t ∷ types) seen (inr (c, q, agrees), v) l = elim (Bool-cases (same t null)) [
    | inl e ↦
        rw (e, class_loop) (class_loop_complete types seen v ((Leads-skip seen t types e).0 l))
    | inr e ↦
        rw (e, q, agrees, merge_class-k seen t types l, class_loop)
          (class_loop_complete types (some k) v (unfold Leads in refl))
  ]

  -- A fold maps the classes of the types, nil being no fold. The types of a field are classified as
  -- `k` exactly if one of them is not null and each that is not null has the class `k` after the
  -- fold.
  pub classify_types_fold-InClass :
      (types : List DataType)
      → (classify_types_fold types fold ≡ ok k)
        ↔ (All InClass types × (any_of (λ t. not (same t null)) types ≡ true))
  unfolding classify_types_fold Leads
  classify_types_fold-InClass types = (
    λ h. class_loop_sound types none (seen_of (class_loop types fold none) h),
    λ (v, l). rw (class_loop_complete types none v l, classify_types_fold),
  )
    where
      seen_of :
          (r : Result ClassError (Option OrderKind))
          → elim r as (λ _. Result ClassError OrderKind) [
            | err e ↦ err e
            | ok none ↦ err no_scalar_type
            | ok (some kind) ↦ ok kind
          ]
            ≡ ok k
          → r ≡ ok (some k)
      seen_of (err e) h = cc h
      seen_of (ok none) h = cc h
      seen_of (ok (some kind)) h = ap (λ c. ok (some c)) (ok-injective kind k h)
