-- ===== src/Path/Accepts.antt =====
-- Every path is accepted with well-formed hops or refused for a stated reason.
use cyoda_go_spi.Base.{
  ◌⊎◌, ℕ, zero, suc, ◌+◌, ◌^◌, ◌≤◌, ◌<◌, ◌≡◌, refl, subst, Bool, true, false, not, List, [], ◌∷◌,
  ◌++◌, none, some, Bytes, ◌==◌, if◌then◌else◌, leb, All, All-append, arith, length, Result, ok,
  err, Bool-cases, inl, inr, Option-cases,
}
use cyoda_go_spi.Base.Digits.{value}
use cyoda_go_spi.Path.{
  PathSub, wildcard, index, PathHop, PathError, trailing_dot, out_of_fuel, span_name,
  is_path_name_byte, cut_bracket, is_array_index, parse_index, parse_path_sub, scan_subs, no_name,
  after_hop, hop_turn, scan_path_hops, parse_filter_path, render_path_hops,
}
use cyoda_go_spi.Path.Valid.{IsSub, IsHop}
use cyoda_go_spi.Path.RoundTrip.{parse-render}

-- A value of which `P` holds, or one of the refusals that the source words.
abbrev pub Ends {ℓ} : {A : Type ℓ} → (A → Type 0) → Result PathError A → Type 0
Ends P (ok a) = P a
Ends P (err out_of_fuel) = ⊥
Ends P (err trailing_dot) = Unit
Ends P (err _) = Unit

Ends-map {ℓ} :
    {A : Type ℓ} (P Q : A → Type 0) (r : Result PathError A)
    → ((a : A) → P a → Q a)
    → Ends P r
    → Ends Q r
Ends-map P Q (ok a) f h = f a h
Ends-map P Q (err out_of_fuel) f h = h
Ends-map P Q (err trailing_dot) f h = tt
Ends-map P Q (err _) f h = tt

span-names : (s : Bytes) → All (λ b. is_path_name_byte b ≡ true) (span_name s).0
unfolding span_name
span-names [] = tt
span-names (b ∷ s) = elim (Bool-cases (is_path_name_byte b)) [
  | inl e ↦ rw (e, span_name) (e, span-names s)
  | inr e ↦ rw (e, span_name) tt
]

span-length : (s : Bytes) → length (span_name s).0 + length (span_name s).1 ≡ length s
unfolding span_name
span-length [] = omega arith
span-length (b ∷ s) = elim (Bool-cases (is_path_name_byte b)) [
  | inl e ↦ rw (e, span_name) (omega (arith, span-length s))
  | inr e ↦ rw (e, span_name) (omega arith)
]

cut-length : (s inner rest : Bytes) → cut_bracket s ≡ some (inner, rest) → length rest < length s
unfolding cut_bracket
cut-length [] inner rest h = cc
cut-length (b ∷ s) inner rest h = ground (arith, cut-length s (tail_of inner) rest)
  where
    tail_of : Bytes → Bytes
    tail_of [] = []
    tail_of (c ∷ t) = t

parse_index-IsSub : (s : Bytes) (sub : PathSub) → parse_index s ≡ some sub → IsSub sub
unfolding parse_index
parse_index-IsSub s wildcard h = tt
parse_index-IsSub s (index i) h = checked (is_array_index s) (value s) i h
  where
    checked :
        (a : Bool) (v i : ℕ)
        → (if not a then none else if leb (2 ^ 31) v then none else some (index v)) ≡ some (index i)
        → i < 2 ^ 31
    checked a v i h = ground arith

parse_path_sub-IsSub : (s : Bytes) (sub : PathSub) → parse_path_sub s ≡ some sub → IsSub sub
unfolding parse_path_sub
parse_path_sub-IsSub s wildcard h = tt
parse_path_sub-IsSub [] (index i) h = parse_index-IsSub [] (index i) h
parse_path_sub-IsSub (c ∷ d ∷ s) (index i) h = parse_index-IsSub (c ∷ d ∷ s) (index i) h
parse_path_sub-IsSub (c ∷ []) (index i) h = elim (Bool-cases (c == b'*')) [
  | inl e ↦ cc (rw e at h)
  | inr e ↦ parse_index-IsSub (c ∷ []) (index i) (rw e at h)
]

scan_subs-Ends :
    (f : ℕ) (s : Bytes) (acc : List PathSub)
    → length s ≤ f
    → All IsSub acc
    → Ends
        (λ (t : List PathSub × Bytes). All IsSub t.0 × (length t.1 ≤ length s))
        (scan_subs f s acc)
unfolding scan_subs
scan_subs-Ends f [] acc l v = (v, omega arith)
scan_subs-Ends zero (c ∷ s) acc l v = absurd (omega arith)
scan_subs-Ends (suc f) (c ∷ s) acc l v = elim (Bool-cases (c == b'[')) [
  | inr e ↦ rw (e, scan_subs) (v, omega arith)
  | inl e ↦
      rw (e, scan_subs)
        (elim (Option-cases (cut_bracket s)) [
          | inl n ↦ rw n tt
          | inr ((inner, rest), q) ↦ rw q (elim (Option-cases (parse_path_sub inner)) [
            | inl n ↦ rw n tt
            | inr (sub, p) ↦ rw p (
                Ends-map (λ (t : List PathSub × Bytes). All IsSub t.0 × (length t.1 ≤ length rest))
                  (λ (t : List PathSub × Bytes). All IsSub t.0 × (length t.1 ≤ suc (length s)))
                  (scan_subs f rest (acc ++ sub ∷ []))
                  (λ t h. (h.0, omega (arith, h.1, cut-length s inner rest q)))
                  (scan_subs-Ends f rest (acc ++ sub ∷ [])
                    (omega (arith, cut-length s inner rest q))
                    (All-append IsSub acc (sub ∷ []) v (parse_path_sub-IsSub inner sub p, tt))))
          ])
        ])
]

Ends-no_name : (P : List PathHop → Type 0) (s : Bytes) → Ends P (err (no_name s))
unfolding no_name
Ends-no_name P [] = tt
Ends-no_name P (c ∷ s) = elim (Bool-cases (c == b'.')) [
  | inl e ↦ rw (e, no_name) tt
  | inr e ↦ elim (Bool-cases (c == b'[')) [
    | inl f ↦ rw (e, f, no_name) tt
    | inr f ↦ elim (Bool-cases (c == b']')) [
      | inl g ↦ rw (e, f, g, no_name) tt
      | inr g ↦ rw (e, f, g, no_name) tt
    ]
  ]
]

-- Hops as the parser returns them: one at least, and all well formed.
abbrev pub AreHops : List PathHop → Type 0
AreHops [] = ⊥
AreHops (h ∷ hops) = IsHop h × All IsHop hops

AreHops-snoc :
    (hops : List PathHop) (h : PathHop) → All IsHop hops → IsHop h → AreHops (hops ++ h ∷ [])
AreHops-snoc [] h v w = (w, tt)
AreHops-snoc (g ∷ hops) h v w = (v.0, All-append IsHop hops (h ∷ []) v.1 (w, tt))

after_hop-Ends :
    (s : Bytes) (hops : List PathHop) (next : Bytes → Result PathError (List PathHop))
    → AreHops hops
    → ((s' : Bytes) → length s' < length s → Ends AreHops (next s'))
    → Ends AreHops (after_hop s hops next)
unfolding after_hop
after_hop-Ends [] hops next v h = v
after_hop-Ends (c ∷ s) hops next v h = elim (Bool-cases (c == b'.')) [
  | inl e ↦ rw (e, after_hop) (dotted s λ s' l. h s' l)
  | inr e ↦ elim (Bool-cases (c == b']')) [
    | inl f ↦ rw (e, f, after_hop) tt
    | inr f ↦ rw (e, f, after_hop) tt
  ]
]
  where
    dotted :
        (s : Bytes)
        → ((s' : Bytes) → length s' < suc (length s) → Ends AreHops (next s'))
        → Ends AreHops (elim s [ [] ↦ err trailing_dot | d ∷ r ↦ next (d ∷ r) ])
    dotted [] h = tt
    dotted (d ∷ r) h = h (d ∷ r) (omega arith)

hop_turn-Ends :
    (name rest : Bytes) (hops : List PathHop)
    (next : Bytes → List PathHop → Result PathError (List PathHop))
    → All (λ b. is_path_name_byte b ≡ true) name
    → All IsHop hops
    → ((s : Bytes) (hops' : List PathHop)
        → length s < length name + length rest
        → All IsHop hops'
        → Ends AreHops (next s hops'))
    → Ends AreHops (hop_turn name rest hops next)
unfolding hop_turn
hop_turn-Ends [] rest hops next n v h = Ends-no_name AreHops rest
hop_turn-Ends (b ∷ bs) rest hops next n v h =
    behind (scan_subs (length rest) rest []) (scan_subs-Ends (length rest) rest [] (omega arith) tt)
  where
    behind :
        (r : Result PathError (List PathSub × Bytes))
        → Ends (λ (t : List PathSub × Bytes). All IsSub t.0 × (length t.1 ≤ length rest)) r
        → Ends AreHops (elim r [
          | err e ↦ err e
          | ok (subs, left) ↦
              let hops' = hops ++ record { name = b ∷ bs; subs = subs } ∷ [] in
              after_hop left hops' (λ body. next body hops')
        ])
    behind (err out_of_fuel) e = e
    behind (err trailing_dot) e = tt
    behind (err _) e = tt
    behind (ok (subs, left)) (vs, l) =
        let hop : PathHop = record { name = b ∷ bs; subs = subs } in
        let good : IsHop hop = record { named = λ e. cc e; plain = n; subs = vs } in
        after_hop-Ends left (hops ++ hop ∷ []) (λ body. next body (hops ++ hop ∷ []))
          (AreHops-snoc hops hop v good)
          λ s' k.
            h s' (hops ++ hop ∷ []) (omega arith) (All-append IsHop hops (hop ∷ []) v (good, tt))

scan_path_hops-Ends :
    (f : ℕ) (s : Bytes) (hops : List PathHop)
    → length s < f
    → All IsHop hops
    → Ends AreHops (scan_path_hops f s hops)
unfolding scan_path_hops
scan_path_hops-Ends zero s hops l v = absurd (omega arith)
scan_path_hops-Ends (suc f) s hops l v =
    hop_turn-Ends (span_name s).0 (span_name s).1 hops (scan_path_hops f) (span-names s) v
      λ s' hops' k w. scan_path_hops-Ends f s' hops' (omega (arith, span-length s)) w

-- Every path is accepted, with no hops if it is empty and else with one hop or more, all well
-- formed, or refused for one of the source's reasons: the scan's fuel suffices.
pub parse_filter_path-Ends :
    (p : Bytes) → Ends (λ hops. (p ≡ []) × (hops ≡ []) ⊎ AreHops hops) (parse_filter_path p)
unfolding parse_filter_path
parse_filter_path-Ends [] = inl (refl, refl)
parse_filter_path-Ends (c ∷ p) =
    Ends-map AreHops (λ hops. ((c ∷ p) ≡ []) × (hops ≡ []) ⊎ AreHops hops)
      (scan_path_hops (suc (suc (length p))) (c ∷ p) []) (λ hops h. inr h)
      (scan_path_hops-Ends (suc (suc (length p))) (c ∷ p) [] (omega arith) tt)

-- Rendering what a path was parsed to and parsing that gives the same hops.
pub parse-render-parse :
    (p : Bytes) (h : PathHop) (hops : List PathHop)
    → parse_filter_path p ≡ ok (h ∷ hops)
    → parse_filter_path (render_path_hops (h ∷ hops) false) ≡ ok (h ∷ hops)
parse-render-parse p h hops e =
    valid
      (subst (Ends (λ hops. (p ≡ []) × (hops ≡ []) ⊎ AreHops hops)) e (parse_filter_path-Ends p))
  where
    valid :
        (p ≡ []) × ((h ∷ hops) ≡ []) ⊎ (IsHop h × All IsHop hops)
        → parse_filter_path (render_path_hops (h ∷ hops) false) ≡ ok (h ∷ hops)
    valid (inl (_, none_left)) = cc none_left
    valid (inr (v, vs)) = parse-render h hops v vs
