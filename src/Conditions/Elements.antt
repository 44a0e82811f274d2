-- ===== src/Conditions/Elements.antt =====
-- The path of an array clause's element is the container's, with the index at its end.
use cyoda_go_spi.Base.{
  ◌≡◌, ◌≢◌, ◌⊎◌, refl, ap, ◌∙◌, subst, inl, inr, ℕ, ◌<◌, ◌^◌, Bool, true, false, List, [], ◌∷◌,
  ◌++◌, Bytes, All, ok,
}
use cyoda_go_spi.Path.{PathSub, wildcard, index, PathHop, parse_filter_path, render_path_hops}
use cyoda_go_spi.Path.Valid.{IsSub, IsHop}
use cyoda_go_spi.Path.RoundTrip.{parse-render}
use cyoda_go_spi.Path.Accepts.{Ends, AreHops, parse_filter_path-Ends}
use cyoda_go_spi.Conditions.{
  json_path_leader, cut_leader, set_last_sub, set_last, parsed_element_path,
  desugar_array_element_path,
}

abbrev pub ends_wild : List PathSub → Bool
ends_wild [] = false
ends_wild (wildcard ∷ []) = true
ends_wild (index _ ∷ []) = false
ends_wild (s ∷ t ∷ subs) = ends_wild (t ∷ subs)

set_last_sub-wild :
    (subs : List PathSub) (i : ℕ) → set_last_sub (subs ++ wildcard ∷ []) i ≡ subs ++ index i ∷ []
unfolding set_last_sub
set_last_sub-wild [] i = refl
set_last_sub-wild (s ∷ []) i = refl
set_last_sub-wild (s ∷ t ∷ subs) i = ap (λ l. s ∷ l) (set_last_sub-wild (t ∷ subs) i)

set_last_sub-more :
    (subs : List PathSub) (i : ℕ)
    → ends_wild subs ≡ false
    → set_last_sub subs i ≡ subs ++ index i ∷ []
unfolding set_last_sub
set_last_sub-more [] i h = refl
set_last_sub-more (wildcard ∷ []) i h = cc h
set_last_sub-more (index j ∷ []) i h = refl
set_last_sub-more (s ∷ t ∷ subs) i h = ap (λ l. s ∷ l) (set_last_sub-more (t ∷ subs) i h)

set_last-append :
    (hops : List PathHop) (h : PathHop) (i : ℕ)
    → set_last (hops ++ h ∷ []) i
      ≡ hops ++ record { name = h.name; subs = set_last_sub h.subs i } ∷ []
unfolding set_last
set_last-append [] h i = refl
set_last-append (g ∷ []) h i = refl
set_last-append (g ∷ f ∷ hops) h i = ap (λ l. g ∷ l) (set_last-append (f ∷ hops) h i)

set_last_sub-IsSub :
    (subs : List PathSub) (i : ℕ) → i < 2 ^ 31 → All IsSub subs → All IsSub (set_last_sub subs i)
unfolding set_last_sub
set_last_sub-IsSub [] i l v = (l, tt)
set_last_sub-IsSub (wildcard ∷ []) i l v = (l, tt)
set_last_sub-IsSub (index j ∷ []) i l v = (v.0, (l, tt))
set_last_sub-IsSub (s ∷ t ∷ subs) i l v = (v.0, set_last_sub-IsSub (t ∷ subs) i l v.1)

set_last-All :
    (hops : List PathHop) (i : ℕ) → i < 2 ^ 31 → All IsHop hops → All IsHop (set_last hops i)
unfolding set_last
set_last-All [] i l v = tt
set_last-All (h ∷ []) i l (v, _) =
    (record { named = v.named; plain = v.plain; subs = set_last_sub-IsSub h.subs i l v.subs }, tt)
set_last-All (h ∷ g ∷ hops) i l (v, vs) = (v, set_last-All (g ∷ hops) i l vs)

reread :
    (hops : List PathHop) (i : ℕ)
    → i < 2 ^ 31
    → AreHops hops
    → parse_filter_path (render_path_hops (set_last hops i) false) ≡ ok (set_last hops i)
reread [] i l v = elim v [ ]
reread (h ∷ hops) i l v =
    go (set_last (h ∷ hops) i) (set_last-All (h ∷ hops) i l v) (set_last-nonempty h hops)
  where
    go :
        (gs : List PathHop)
        → All IsHop gs
        → (gs ≡ [] → ⊥)
        → parse_filter_path (render_path_hops gs false) ≡ ok gs
    go [] v ne = absurd (ne refl)
    go (g ∷ gs) v ne = parse-render g gs v.0 v.1

    set_last-nonempty : (h : PathHop) (hops : List PathHop) → set_last (h ∷ hops) i ≡ [] → ⊥
    set_last-nonempty h [] e = unfold set_last in cc e
    set_last-nonempty h (g ∷ hops) e = unfold set_last in cc e

-- The hops of a path that is not empty are well formed.
parsed-AreHops :
    (p : Bytes) (hops : List PathHop) → hops ≢ [] → parse_filter_path p ≡ ok hops → AreHops hops
parsed-AreHops p hops ne e =
    valid
      (subst (Ends (λ hops. (p ≡ []) × (hops ≡ []) ⊎ AreHops hops)) e (parse_filter_path-Ends p))
  where
    valid : (p ≡ []) × (hops ≡ []) ⊎ AreHops hops → AreHops hops
    valid (inl (_, none_left)) = absurd (ne none_left)
    valid (inr v) = v

element_path_of :
    (rest : Bytes) (hops : List PathHop) (i : ℕ)
    → hops ≢ []
    → parse_filter_path rest ≡ ok hops
    → desugar_array_element_path (json_path_leader ++ rest) i
      ≡ json_path_leader ++ render_path_hops (set_last hops i) false
unfolding desugar_array_element_path cut_leader
element_path_of rest [] i ne e = absurd (ne refl)
element_path_of rest (h ∷ hops) i ne e = rw (e, parsed_element_path)

snoc-ne-nil : (hops : List PathHop) (h : PathHop) → hops ++ h ∷ [] ≢ []
snoc-ne-nil [] h = λ e. cc e
snoc-ne-nil (g ∷ hops) h = λ e. cc e

-- The container's path is `$.` and a text that parses, its last hop with the subscripts `given`:
-- `subs` and a wildcard, or `subs` with no wildcard at the end. The index fits an int32. Then the
-- element's path is `$.` and a text that parses to the same hops, the last with `subs` and the index.
pub parse-desugar_array_element_path :
    (rest : Bytes) (hops : List PathHop) (name : Bytes) (given subs : List PathSub) (i : ℕ)
    → parse_filter_path rest ≡ ok (hops ++ record { name = name; subs = given } ∷ [])
    → (given ≡ subs ++ wildcard ∷ []) ⊎ ((given ≡ subs) × (ends_wild subs ≡ false))
    → i < 2 ^ 31
    → (body : Bytes) × (desugar_array_element_path (json_path_leader ++ rest) i
        ≡ json_path_leader ++ body)
      × (parse_filter_path body
          ≡ ok (hops ++ record { name = name; subs = subs ++ index i ∷ [] } ∷ []))
parse-desugar_array_element_path rest hops name given subs i e o l =
    let last : PathHop = record { name = name; subs = given } in
    let ne = snoc-ne-nil hops last in
    let v = parsed-AreHops rest (hops ++ last ∷ []) ne e in
    (
      render_path_hops (set_last (hops ++ last ∷ []) i) false,
      element_path_of rest (hops ++ last ∷ []) i ne e,
      reread (hops ++ last ∷ []) i l v
          ∙ ap ok (set_last-append hops last i)
          ∙ ap (λ ss. ok (hops ++ record { name = name; subs = ss } ∷ [])) (at_end o),
    )
  where
    at_end :
        (given ≡ subs ++ wildcard ∷ []) ⊎ ((given ≡ subs) × (ends_wild subs ≡ false))
        → set_last_sub given i ≡ subs ++ index i ∷ []
    at_end (inl w) = ap (λ s. set_last_sub s i) w ∙ set_last_sub-wild subs i
    at_end (inr (w, n)) = ap (λ s. set_last_sub s i) w ∙ set_last_sub-more subs i n
