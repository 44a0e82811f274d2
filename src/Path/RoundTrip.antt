-- ===== src/Path/RoundTrip.antt =====
-- A rendered path is read back as the hops that it was rendered from.
use cyoda_go_spi.Base.{
  ℕ, zero, suc, ◌≤◌, ◌<◌, ◌≡◌, ◌≢◌, refl, ap, ◌∙◌, true, false, List, [], ◌∷◌, ◌++◌, some, Bytes,
  ◌==◌, All, arith, length, Result, ok, append_assoc, append-nil, length-append,
}
use cyoda_go_spi.Base.Digits.{print}
use cyoda_go_spi.Path.{
  PathSub, wildcard, index, PathHop, PathError, is_path_name_byte, parse_path_sub, scan_subs,
  after_hop, hop_turn, scan_path_hops, parse_filter_path, render_subs, render_more,
  render_path_hops,
}
use cyoda_go_spi.Path.Valid.{
  IsSub, IsHop, EndsName, EndsSubs, span_name_lem, cut_bracket_lem, parse-print,
  print_lacks_bracket, render_subs-EndsName,
}

-- One subscript in front of the rest.
scan_one :
    (f : ℕ) (inner rest : Bytes) (sub : PathSub) (acc : List PathSub)
    → All (λ c. (c == b']') ≡ false) inner
    → parse_path_sub inner ≡ some sub
    → scan_subs (suc f) (b'[' ∷ inner ++ b']' ∷ rest) acc ≡ scan_subs f rest (acc ++ sub ∷ [])
unfolding scan_subs
scan_one f inner rest sub acc h e = rw (cut_bracket_lem inner rest h, e)

scan_subs_end :
    (f : ℕ) (rest : Bytes) (acc : List PathSub)
    → length rest ≤ f
    → EndsSubs rest
    → scan_subs f rest acc ≡ ok (acc, rest)
unfolding scan_subs
scan_subs_end f [] acc l h = refl
scan_subs_end zero (c ∷ s) acc l h = absurd (omega arith)
scan_subs_end (suc f) (c ∷ s) acc l h = rw h

scan_subs-render :
    (f : ℕ) (subs acc : List PathSub) (rest : Bytes)
    → All IsSub subs
    → EndsSubs rest
    → length (render_subs false subs ++ rest) ≤ f
    → scan_subs f (render_subs false subs ++ rest) acc ≡ ok (acc ++ subs, rest)
unfolding render_subs
scan_subs-render f [] acc rest v e l = rw append-nil (scan_subs_end f rest acc l e)
scan_subs-render zero (wildcard ∷ subs) acc rest v e l = absurd (omega arith)
scan_subs-render (suc f) (wildcard ∷ subs) acc rest v e l =
    scan_one f (b'*' ∷ []) (render_subs false subs ++ rest) wildcard acc (refl, tt)
      (unfold parse_path_sub in refl)
    ∙ scan_subs-render f subs (acc ++ wildcard ∷ []) rest v.1 e (omega arith)
    ∙ ap (λ l. ok (l, rest)) (append_assoc acc (wildcard ∷ []) subs)
scan_subs-render zero (index i ∷ subs) acc rest v e l = absurd (omega arith)
scan_subs-render (suc f) (index i ∷ subs) acc rest v e l =
    ap (λ s. scan_subs (suc f) (b'[' ∷ s) acc) (regroup (print i) (render_subs false subs) rest)
    ∙ scan_one f (print i) (render_subs false subs ++ rest) (index i) acc (print_lacks_bracket i)
        (parse-print i v.0)
    ∙ scan_subs-render f subs (acc ++ index i ∷ []) rest v.1 e
        (shorter (print i) (render_subs false subs) rest f l)
    ∙ ap (λ l. ok (l, rest)) (append_assoc acc (index i ∷ []) subs)
  where
    regroup : (p s r : Bytes) → ((p ++ b']' ∷ []) ++ s) ++ r ≡ p ++ b']' ∷ (s ++ r)
    regroup p s r = simp append_assoc

    shorter :
        (p s r : Bytes) (f : ℕ)
        → suc (length (((p ++ b']' ∷ []) ++ s) ++ r)) ≤ suc f
        → length (s ++ r) ≤ f
    shorter p s r f l = omega (arith, ap length (regroup p s r), length-append p (b']' ∷ (s ++ r)))

-- One hop in front of the rest.
scan_named :
    (f b : ℕ) (bs : Bytes) (subs : List PathSub) (more : Bytes) (acc : List PathHop)
    → All (λ b. is_path_name_byte b ≡ true) (b ∷ bs)
    → All IsSub subs
    → EndsName more
    → EndsSubs more
    → scan_path_hops (suc f) ((b ∷ bs) ++ (render_subs false subs ++ more)) acc
      ≡ after_hop more
          (acc ++ record { name = b ∷ bs; subs = subs } ∷ [])
          (λ body. scan_path_hops f body (acc ++ record { name = b ∷ bs; subs = subs } ∷ []))
unfolding scan_path_hops hop_turn
scan_named f b bs subs more acc v vs en es =
    ap (λ (t : Bytes × Bytes). hop_turn t.0 t.1 acc (scan_path_hops f))
      (span_name_lem (b ∷ bs) (render_subs false subs ++ more) v
        (render_subs-EndsName subs more en))
    ∙ rw (
      hop_turn,
      scan_subs-render (length (render_subs false subs ++ more)) subs [] more vs es (omega arith),
    )

scan_hop :
    (f : ℕ) (h : PathHop) (more : Bytes) (acc : List PathHop)
    → IsHop h
    → EndsName more
    → EndsSubs more
    → scan_path_hops (suc f) (h.name ++ (render_subs false h.subs ++ more)) acc
      ≡ after_hop more (acc ++ h ∷ []) (λ body. scan_path_hops f body (acc ++ h ∷ []))
scan_hop f h more acc v en es = go h.name h.subs v.named v.plain v.subs
  where
    go :
        (n : Bytes) (ss : List PathSub)
        → n ≢ []
        → All (λ b. is_path_name_byte b ≡ true) n
        → All IsSub ss
        → scan_path_hops (suc f) (n ++ (render_subs false ss ++ more)) acc
          ≡ after_hop more
              (acc ++ record { name = n; subs = ss } ∷ [])
              (λ body. scan_path_hops f body (acc ++ record { name = n; subs = ss } ∷ []))
    go [] ss ne v vs = absurd (ne refl)
    go (b ∷ bs) ss ne v vs = scan_named f b bs ss more acc v vs en es

-- Behind the dot stands the next hop, which is not empty.
after_dot :
    (name : Bytes) (rest : Bytes) (hops : List PathHop)
    (next : Bytes → Result PathError (List PathHop))
    → name ≢ []
    → after_hop (b'.' ∷ (name ++ rest)) hops next ≡ next (name ++ rest)
unfolding after_hop
after_dot [] rest hops next n = absurd (n refl)
after_dot (c ∷ name) rest hops next n = refl

scan-render :
    (f : ℕ) (h : PathHop) (hops acc : List PathHop)
    → IsHop h
    → All IsHop hops
    → length hops < f
    → scan_path_hops f (h.name ++ (render_subs false h.subs ++ render_more false hops)) acc
      ≡ ok (acc ++ h ∷ hops)
unfolding render_more
scan-render zero h hops acc v vs l = absurd (omega arith)
scan-render (suc f) h [] acc v vs l = scan_hop f h [] acc v tt tt ∙ unfold after_hop in refl
scan-render (suc f) h (h' ∷ hops) acc v vs l =
    scan_hop f h (render_more false (h' ∷ hops)) acc v refl refl
    ∙ after_dot h'.name (render_subs false h'.subs ++ render_more false hops) (acc ++ h ∷ [])
        (λ body. scan_path_hops f body (acc ++ h ∷ [])) vs.0.named
    ∙ scan-render f h' hops (acc ++ h ∷ []) vs.0 vs.1 (omega arith)
    ∙ ap ok (append_assoc acc (h ∷ []) (h' ∷ hops))

-- A hop is at least a byte.
length-render :
    (hops : List PathHop) → All IsHop hops → length hops ≤ length (render_more false hops)
unfolding render_more
length-render [] v = omega arith
length-render (h ∷ hops) v = omega (
  arith,
  length-append h.name (render_subs false h.subs ++ render_more false hops),
  length-append (render_subs false h.subs) (render_more false hops),
  length-render hops v.1,
)

parse_nonempty : (s : Bytes) → s ≢ [] → parse_filter_path s ≡ scan_path_hops (suc (length s)) s []
unfolding parse_filter_path
parse_nonempty [] h = absurd (h refl)
parse_nonempty (c ∷ s) h = refl

append-ne-nil : (s t : Bytes) → s ≢ [] → s ++ t ≢ []
append-ne-nil [] t h = absurd (h refl)
append-ne-nil (c ∷ s) t h = λ e. cc e

name_length : (s : Bytes) → s ≢ [] → 0 < length s
name_length [] h = absurd (h refl)
name_length (c ∷ s) h = omega arith

-- Hops with names of the allowed bytes and indices that fit an int32, one hop at least, are read
-- back from their text, hop for hop.
pub parse-render :
    (h : PathHop) (hops : List PathHop)
    → IsHop h
    → All IsHop hops
    → parse_filter_path (render_path_hops (h ∷ hops) false) ≡ ok (h ∷ hops)
unfolding render_path_hops
parse-render h hops v vs =
    parse_nonempty (h.name ++ (render_subs false h.subs ++ render_more false hops))
      (append-ne-nil h.name (render_subs false h.subs ++ render_more false hops) v.named)
    ∙ scan-render (suc (length (h.name ++ (render_subs false h.subs ++ render_more false hops)))) h
        hops [] v vs
        (omega (
          arith,
          length-append h.name (render_subs false h.subs ++ render_more false hops),
          length-append (render_subs false h.subs) (render_more false hops),
          length-render hops vs,
          name_length h.name v.named,
        ))
