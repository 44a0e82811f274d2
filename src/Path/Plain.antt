-- ===== src/Path/Plain.antt =====
-- The bytes of a path that parses: no quote is among them.
use cyoda_go_spi.Base.{
  ◌≡◌, refl, sym, ap, subst, inl, inr, ℕ, zero, suc, Bool, true, false, ◌&&◌, List, [], ◌∷◌, ◌++◌,
  some, Bytes, All, All-append, all_of, length, ◌==◌, arith, Result, ok, Result-cases, Option-cases,
  ok-injective, Bool-cases,
}
use mathlib.Core.Option.{some-injective}
use cyoda_go_spi.Base.Digits.{is_digit}
use cyoda_go_spi.Path.{
  PathSub, PathHop, PathError, span_name, is_path_name_byte, cut_bracket, is_array_index,
  parse_index, parse_path_sub, scan_subs, after_hop, hop_turn, scan_path_hops, parse_filter_path,
}

-- A text that is not empty parses as the scan runs.
pub parse_scan :
    (c : ℕ) (t : Bytes)
    → parse_filter_path (c ∷ t) ≡ scan_path_hops (suc (suc (length t))) (c ∷ t) []
unfolding parse_filter_path
parse_scan c t = refl

-- No quote.
abbrev pub Plain : ℕ → Type 0
Plain c = ((c == 39) ≡ false) × ((c == b'"') ≡ false)

name-Plain : (s : Bytes) → All Plain (span_name s).0
unfolding span_name
name-Plain [] = tt
name-Plain (b ∷ s) = elim (Bool-cases (is_path_name_byte b)) [
  | inl e ↦ rw (e, span_name) (plain b e, name-Plain s)
  | inr e ↦ rw (e, span_name) tt
]
  where
    plain : (b : ℕ) → is_path_name_byte b ≡ true → Plain b
    plain b e = ground arith

span-append : (s : Bytes) → (span_name s).0 ++ (span_name s).1 ≡ s
unfolding span_name
span-append [] = refl
span-append (b ∷ s) = elim (Bool-cases (is_path_name_byte b)) [
  | inl e ↦ rw (e, span_name) (ap (λ t. b ∷ t) (span-append s))
  | inr e ↦ rw (e, span_name) refl
]

cut-Plain :
    (s inner rest : Bytes)
    → cut_bracket s ≡ some (inner, rest)
    → All Plain inner
    → All Plain rest
    → All Plain s
unfolding cut_bracket
cut-Plain [] inner rest h vi vr = tt
cut-Plain (b ∷ s) inner rest h vi vr = elim (Bool-cases (b == b']')) [
  | inl e ↦
      let pair = some-injective ([], s) (inner, rest) (rw (e, cut_bracket) at h) in
      (bracket b e, subst (All Plain) (sym (ap (λ p. p.1) pair)) vr)
  | inr e ↦ elim (Option-cases (cut_bracket s)) [
    | inl n ↦ cc (rw (e, n, cut_bracket) at h)
    | inr ((i, r), q) ↦
        let pair = some-injective (b ∷ i, r) (inner, rest) (rw (e, q, cut_bracket) at h) in
        let v = subst (All Plain) (sym (ap (λ p. p.0) pair)) vi in
        (v.0, cut-Plain s i r q v.1 (subst (All Plain) (sym (ap (λ p. p.1) pair)) vr))
  ]
]
  where
    bracket : (b : ℕ) → (b == b']') ≡ true → Plain b
    bracket b e = ground arith

digits-Plain : (s : Bytes) → all_of is_digit s ≡ true → All Plain s
digits-Plain [] h = tt
digits-Plain (c ∷ s) h =
    (digit c (all_of is_digit s) h, digits-Plain s (left c (all_of is_digit s) h))
  where
    digit : (c : ℕ) (b : Bool) → (is_digit c && b) ≡ true → Plain c
    digit c b h = ground arith

    left : (c : ℕ) (b : Bool) → (is_digit c && b) ≡ true → b ≡ true
    left c b h = ground arith

index-Plain : (s : Bytes) (sub : PathSub) → parse_index s ≡ some sub → All Plain s
unfolding parse_index is_array_index
index-Plain [] sub h = tt
index-Plain (c ∷ s) sub h = elim (Bool-cases (all_of is_digit (c ∷ s))) [
  | inl e ↦ digits-Plain (c ∷ s) e
  | inr e ↦ cc (rw (e, parse_index, is_array_index) at h)
]

sub-Plain : (s : Bytes) (sub : PathSub) → parse_path_sub s ≡ some sub → All Plain s
unfolding parse_path_sub
sub-Plain [] sub h = tt
sub-Plain (c ∷ d ∷ s) sub h = index-Plain (c ∷ d ∷ s) sub h
sub-Plain (c ∷ []) sub h = elim (Bool-cases (c == b'*')) [
  | inl e ↦ (star c e, tt)
  | inr e ↦ index-Plain (c ∷ []) sub (rw e at h)
]
  where
    star : (b : ℕ) → (b == b'*') ≡ true → Plain b
    star b e = ground arith

scan_subs-Plain :
    (f : ℕ) (s : Bytes) (acc subs : List PathSub) (rest : Bytes)
    → scan_subs f s acc ≡ ok (subs, rest)
    → All Plain rest
    → All Plain s
unfolding scan_subs
scan_subs-Plain f [] acc subs rest h v = tt
scan_subs-Plain zero (c ∷ s) acc subs rest h v = cc h
scan_subs-Plain (suc f) (c ∷ s) acc subs rest h v = elim (Bool-cases (c == b'[')) [
  | inr e ↦
      subst (All Plain)
        (sym (ap (λ p. p.1) (ok-injective (acc, c ∷ s) (subs, rest) (rw (e, scan_subs) at h)))) v
  | inl e ↦ elim (Option-cases (cut_bracket s)) [
    | inl n ↦ cc (rw (e, n, scan_subs) at h)
    | inr ((inner, r), q) ↦ elim (Option-cases (parse_path_sub inner)) [
      | inl n ↦ cc (rw (e, q, n, scan_subs) at h)
      | inr (sub, p) ↦ (
        open_bracket c e,
        cut-Plain s inner r q (sub-Plain inner sub p)
            (scan_subs-Plain f r (acc ++ sub ∷ []) subs rest (rw (e, q, p, scan_subs) at h) v),
      )
    ]
  ]
]
  where
    open_bracket : (b : ℕ) → (b == b'[') ≡ true → Plain b
    open_bracket b e = ground arith

after_hop-Plain :
    (s : Bytes) (hops : List PathHop) (next : Bytes → Result PathError (List PathHop))
    (r : List PathHop)
    → after_hop s hops next ≡ ok r
    → ((t : Bytes) → next t ≡ ok r → All Plain t)
    → All Plain s
unfolding after_hop
after_hop-Plain [] hops next r h k = tt
after_hop-Plain (c ∷ []) hops next r h k = elim (Bool-cases (c == b'.')) [
  | inl e ↦ cc (rw e at h)
  | inr e ↦ elim (Bool-cases (c == b']')) [
    | inl g ↦ cc (rw (e, g) at h)
    | inr g ↦ cc (rw (e, g) at h)
  ]
]
after_hop-Plain (c ∷ d ∷ s) hops next r h k = elim (Bool-cases (c == b'.')) [
  | inl e ↦ (dot c e, k (d ∷ s) (rw e at h))
  | inr e ↦ elim (Bool-cases (c == b']')) [
    | inl g ↦ cc (rw (e, g) at h)
    | inr g ↦ cc (rw (e, g) at h)
  ]
]
  where
    dot : (b : ℕ) → (b == b'.') ≡ true → Plain b
    dot b e = ground arith

hop_turn-Plain :
    (name rest : Bytes) (hops : List PathHop)
    (next : Bytes → List PathHop → Result PathError (List PathHop)) (r : List PathHop)
    → hop_turn name rest hops next ≡ ok r
    → ((t : Bytes) (hops' : List PathHop) → next t hops' ≡ ok r → All Plain t)
    → All Plain rest
unfolding hop_turn
hop_turn-Plain [] rest hops next r h k = cc h
hop_turn-Plain (b ∷ bs) rest hops next r h k =
    elim (Result-cases (scan_subs (length rest) rest [])) [
      | inl (w, q) ↦ cc (rw (q, hop_turn) at h)
      | inr ((subs, behind), q) ↦
          let hops' = hops ++ record { name = b ∷ bs; subs = subs } ∷ [] in
          scan_subs-Plain (length rest) rest [] subs behind q (
            after_hop-Plain behind hops' (λ body. next body hops') r (rw (q, hop_turn) at h)
              (λ t e. k t hops' e))
    ]

scan-Plain :
    (f : ℕ) (s : Bytes) (hops r : List PathHop) → scan_path_hops f s hops ≡ ok r → All Plain s
unfolding scan_path_hops
scan-Plain zero s hops r h = cc h
scan-Plain (suc f) s hops r h = subst (All Plain) (span-append s) (
    All-append Plain (span_name s).0 (span_name s).1 (name-Plain s) (
      hop_turn-Plain (span_name s).0 (span_name s).1 hops (scan_path_hops f) r h
        (λ t hops' e. scan-Plain f t hops' r e)))

pub parsed-Plain : (s : Bytes) (r : List PathHop) → parse_filter_path s ≡ ok r → All Plain s
unfolding parse_filter_path
parsed-Plain [] r h = tt
parsed-Plain (c ∷ s) r h = scan-Plain (suc (suc (length s))) (c ∷ s) [] r h

pub parse_empty : parse_filter_path [] ≡ ok []
unfolding parse_filter_path
parse_empty = refl
