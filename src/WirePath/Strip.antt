-- ===== src/WirePath/Strip.antt =====
-- `stripDollarDot` accepts exactly the leader and a path of the grammar.
use cyoda_go_spi.Base.{
  ◌≡◌, ◌↔◌, ◌⊎◌, refl, sym, ap, ap₂, ◌∙◌, subst, inl, inr, suc, Bool, true, false, ◌&&◌, List, [],
  ◌∷◌, ◌++◌, some, Bytes, All, length, ◌==◌, ==_iff, arith, ok, Result-cases, Option-cases,
  ok-injective, Bool-cases,
}
use mathlib.Core.Option.{some-injective}
use cyoda_go_spi.Like.{has_prefix}
use cyoda_go_spi.Path.{PathHop, scan_path_hops, parse_filter_path}
use cyoda_go_spi.Path.Plain.{Plain, parse_empty, parse_scan, parsed-Plain}
use cyoda_go_spi.Path.Accepts.{Ends, AreHops, parse_filter_path-Ends}
use cyoda_go_spi.Conditions.{json_path_leader, cut_leader}
use cyoda_go_spi.WirePath.{
  contains_text, quote, contains_bracket_quote, scan_wire_path_body, strip_body, strip_dollar_dot,
}

leader_of : (p s : Bytes) → cut_leader p ≡ some s → p ≡ json_path_leader ++ s
unfolding cut_leader
leader_of [] s h = cc h
leader_of (a ∷ []) s h = elim (Bool-cases (b'$' == a)) [
  | inl e ↦ cc (rw e at h)
  | inr e ↦ cc (rw e at h)
]
leader_of (a ∷ b ∷ p) s h = elim (Bool-cases (b'$' == a)) [
  | inr e ↦ cc (rw e at h)
  | inl e ↦ elim (Bool-cases (b'.' == b)) [
    | inr f ↦ cc (rw (e, f) at h)
    | inl f ↦
        ap₂ (λ x y. x ∷ y) (sym ((==_iff b'$' a).0 e))
          (ap₂ (λ x y. x ∷ y) (sym ((==_iff b'.' b).0 f)) (some-injective p s (rw (e, f) at h)))
  ]
]

-- The body passes the scan.
body_parses :
    (t s : Bytes)
    → strip_body t ≡ ok s
    → (t ≡ s) × ((h : PathHop) × (hops : List PathHop) × (parse_filter_path s ≡ ok (h ∷ hops)))
unfolding strip_body scan_wire_path_body
body_parses [] s h = cc h
body_parses (c ∷ t) s h = elim (Bool-cases (contains_bracket_quote (c ∷ t))) [
  | inl e ↦ cc (rw (e, strip_body) at h)
  | inr e ↦ elim (Result-cases (scan_path_hops (suc (suc (length t))) (c ∷ t) [])) [
    | inl (w, q) ↦ cc (rw (e, q, strip_body, scan_wire_path_body) at h)
    | inr (hops, q) ↦
        let same_text = ok-injective (c ∷ t) s (rw (e, q, strip_body, scan_wire_path_body) at h) in
        let parsed : parse_filter_path (c ∷ t) ≡ ok hops = parse_scan c t ∙ q in
        (
          same_text,
          subst (λ s. (h : PathHop) × (hops : List PathHop) × (parse_filter_path s ≡ ok (h ∷ hops)))
              same_text
              (named hops parsed (
                subst (Ends (λ hops. ((c ∷ t) ≡ []) × (hops ≡ []) ⊎ AreHops hops)) parsed
                  (parse_filter_path-Ends (c ∷ t)))),
        )
  ]
]
  where
    named :
        (hops : List PathHop)
        → parse_filter_path (c ∷ t) ≡ ok hops
        → ((c ∷ t) ≡ []) × (hops ≡ []) ⊎ AreHops hops
        → (h : PathHop) × (hops : List PathHop) × (parse_filter_path (c ∷ t) ≡ ok (h ∷ hops))
    named hops p (inl (e, _)) = cc e
    named [] p (inr v) = elim v [ ]
    named (h ∷ hops) p (inr v) = (h, hops, p)

and_parts : (a b : Bool) → (a && b) ≡ true → (a ≡ true) × (b ≡ true)
and_parts a b h = ground (arith, h)

-- The empty text has no hop.
empty_hops : {h : PathHop} {hops : List PathHop} → parse_filter_path [] ≡ ok (h ∷ hops) → ⊥
empty_hops {h} {hops} e = cc (sym parse_empty ∙ e)

-- A text without quotes contains none with one.
prefix-Plain : (sub s : Bytes) → has_prefix sub s ≡ true → All Plain s → All Plain sub
prefix-Plain [] s h v = tt
prefix-Plain (a ∷ sub) [] h v = cc h
prefix-Plain (a ∷ sub) (b ∷ s) h v =
    let (e, k) = and_parts (a == b) (has_prefix sub s) h in
    (subst Plain (sym ((==_iff a b).0 e)) v.0, prefix-Plain sub s k v.1)

lacks : (s sub : Bytes) → (All Plain sub → ⊥) → All Plain s → contains_text s sub ≡ false
unfolding contains_text
lacks [] sub n v = elim (Bool-cases (has_prefix sub [])) [
  | inl e ↦ absurd (n (prefix-Plain sub [] e v))
  | inr e ↦ e
]
lacks (c ∷ s) sub n v = elim (Bool-cases (has_prefix sub (c ∷ s))) [
  | inl e ↦ absurd (n (prefix-Plain sub (c ∷ s) e v))
  | inr e ↦ rw (e, contains_text) (lacks s sub n v.1)
]

lacks_quotes : (s : Bytes) → All Plain s → contains_bracket_quote s ≡ false
unfolding contains_bracket_quote
lacks_quotes s v =
    rw
      (
        lacks s (b'[' ∷ quote ∷ []) (λ q. cc q.1.0.0) v,
        lacks s (quote ∷ b']' ∷ []) (λ q. cc q.0.0) v,
        lacks s (b'[' ∷ b'"' ∷ []) (λ q. cc q.1.0.1) v,
        lacks s (b'"' ∷ b']' ∷ []) (λ q. cc q.0.1) v,
        contains_bracket_quote,
      )
      refl

scanned_body :
    (s : Bytes) (h : PathHop) (hops : List PathHop)
    → parse_filter_path s ≡ ok (h ∷ hops)
    → strip_body s ≡ ok s
unfolding strip_body scan_wire_path_body
scanned_body [] h hops e = absurd (empty_hops e)
scanned_body (c ∷ t) h hops e =
    rw
      (
        lacks_quotes (c ∷ t) (parsed-Plain (c ∷ t) (h ∷ hops) e),
        sym (parse_scan c t) ∙ e,
        strip_body,
        scan_wire_path_body,
      )
      refl

-- A path of a request is accepted exactly if it is `$.` and a text that parses to hops, one at
-- least; that text is the path of the filter.
pub strip_dollar_dot-Grammar :
    (p s : Bytes)
    → (strip_dollar_dot p ≡ ok s) ↔ (
        (p ≡ json_path_leader ++ s)
        × ((h : PathHop) × (hops : List PathHop) × (parse_filter_path s ≡ ok (h ∷ hops))))
unfolding strip_dollar_dot cut_leader
strip_dollar_dot-Grammar p s = (
  stripped,
  λ (e, (h, hops, k)). subst (λ q. strip_dollar_dot q ≡ ok s) (sym e) (scanned_body s h hops k),
)
  where
    stripped :
        strip_dollar_dot p ≡ ok s
        → (p ≡ json_path_leader ++ s)
          × ((h : PathHop) × (hops : List PathHop) × (parse_filter_path s ≡ ok (h ∷ hops)))
    stripped k = elim (Option-cases (cut_leader p)) [
      | inl n ↦ cc (rw (n, strip_dollar_dot) at k)
      | inr (t, q) ↦
          let (e, parsed) = body_parses t s (rw (q, strip_dollar_dot) at k) in
          (leader_of p t q ∙ ap (λ r. json_path_leader ++ r) e, parsed)
    ]
