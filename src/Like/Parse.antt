-- ===== src/Like/Parse.antt =====
-- The tokens that `parseLikePattern` returns mean what the operand says.
use cyoda_go_spi.Base.{
  ℕ, zero, suc, ◌+◌, ◌≤◌, ◌≡◌, ◌≢◌, ◌↔◌, refl, sym, ap, subst, ◌∙◌, Bool, true, false, List, [],
  ◌∷◌, ◌++◌, Option, none, some, arith, Bytes, ◌==◌, length, drop, ltb, Bool-cases, inl, inr,
  ==_iff, Result, ok, err, append_assoc,
}
use cyoda_go_spi.Base.Utf8.{
  rune_size, Utf8, rune, begins_rune, first_rune, rest_rune, skip, rune_size-ascii,
  length-rest_rune, Utf8-append, first_rune-Utf8,
}
use cyoda_go_spi.Like.{
  LikeTok, lit, one, any, LikeError, unpaired_escape, out_of_fuel, backslash, flush, ends_in_any,
  push_any, parse_loop, parse_like_pattern, matches,
}
use cyoda_go_spi.Like.Meaning.{Takes, IsEnd, Matches, Like, percent, underscore, escaped, plain}
use cyoda_go_spi.Like.Match.{AllWhole, Decides, matches-Decides}

-- Two predicates on texts that agree.
abbrev Same : (Bytes → Type 0) → (Bytes → Type 0) → Type 0
Same P Q = (s : Bytes) → P s ↔ Q s

Same-trans : (P Q R : Bytes → Type 0) → Same P Q → Same Q R → Same P R
Same-trans P Q R f g s = (λ p. (g s).0 ((f s).0 p), λ r. (f s).1 ((g s).1 r))

Same-sym : (P Q : Bytes → Type 0) → Same P Q → Same Q P
Same-sym P Q f s = ((f s).1, (f s).0)

Takes-map : (p : List LikeTok) (Q R : Bytes → Type 0) → Same Q R → Same (Takes p Q) (Takes p R)
Takes-map [] Q R h s = h s
Takes-map (lit l ∷ p) Q R h s =
    (λ (r, e, d). (r, e, (Takes-map p Q R h r).0 d), λ (r, e, d). (r, e, (Takes-map p Q R h r).1 d))
Takes-map (one ∷ p) Q R h s = (
  λ (n, d). (n, (Takes-map p Q R h (rest_rune s)).0 d),
  λ (n, d). (n, (Takes-map p Q R h (rest_rune s)).1 d),
)
Takes-map (any ∷ p) Q R h s = (
  λ (n, d). (n, (Takes-map p Q R h (skip n s)).0 d),
  λ (n, d). (n, (Takes-map p Q R h (skip n s)).1 d),
)

Takes-append :
    (p q : List LikeTok) (Q : Bytes → Type 0) → Same (Takes (p ++ q) Q) (Takes p (Takes q Q))
Takes-append [] q Q s = (λ d. d, λ d. d)
Takes-append (lit l ∷ p) q Q s = (
  λ (r, e, d). (r, e, (Takes-append p q Q r).0 d),
  λ (r, e, d). (r, e, (Takes-append p q Q r).1 d),
)
Takes-append (one ∷ p) q Q s = (
  λ (n, d). (n, (Takes-append p q Q (rest_rune s)).0 d),
  λ (n, d). (n, (Takes-append p q Q (rest_rune s)).1 d),
)
Takes-append (any ∷ p) q Q s = (
  λ (n, d). (n, (Takes-append p q Q (skip n s)).0 d),
  λ (n, d). (n, (Takes-append p q Q (skip n s)).1 d),
)

-- A text in front, and the rest of the text.
abbrev After : Bytes → (Bytes → Type 0) → Bytes → Type 0
After l Q s = (r : Bytes) × (s ≡ l ++ r) × Q r

Takes-flush :
    (p : List LikeTok) (l : Bytes) (Q : Bytes → Type 0)
    → Same (Takes (flush p l) Q) (Takes p (After l Q))
unfolding flush
Takes-flush p [] Q =
    Takes-map p Q (After [] Q) λ s. (λ q. (s, refl, q), λ (r, e, q). subst Q (sym e) q)
Takes-flush p (c ∷ l) Q = Takes-append p (lit (c ∷ l) ∷ []) Q

-- Any number of runes, and the rest.
abbrev Somewhere : (Bytes → Type 0) → Bytes → Type 0
Somewhere Q s = (n : ℕ) × Q (skip n s)

Somewhere-twice : (Q : Bytes → Type 0) → Same (Somewhere Q) (Somewhere (Somewhere Q))
Somewhere-twice Q s = (λ h. (0, h), λ (m, h). merge m s h)
  where
    merge : (m : ℕ) (s : Bytes) → Somewhere Q (skip m s) → Somewhere Q s
    merge zero s h = h
    merge (suc m) s h = let (n, q) = merge m (rest_rune s) h in (suc n, q)

-- After tokens that end in `%` another `%` adds nothing.
Takes-ends :
    (p : List LikeTok) (Q : Bytes → Type 0)
    → ends_in_any p ≡ true
    → Same (Takes p Q) (Takes p (Somewhere Q))
Takes-ends [] Q h s = cc
Takes-ends (any ∷ []) Q h s = Somewhere-twice Q s
Takes-ends (one ∷ []) Q h s = cc
Takes-ends (lit l ∷ []) Q h s = cc
Takes-ends (lit l ∷ u ∷ p) Q h s = (
  λ (r, e, d). (r, e, (Takes-ends (u ∷ p) Q h r).0 d),
  λ (r, e, d). (r, e, (Takes-ends (u ∷ p) Q h r).1 d),
)
Takes-ends (one ∷ u ∷ p) Q h s = (
  λ (n, d). (n, (Takes-ends (u ∷ p) Q h (rest_rune s)).0 d),
  λ (n, d). (n, (Takes-ends (u ∷ p) Q h (rest_rune s)).1 d),
)
Takes-ends (any ∷ u ∷ p) Q h s = (
  λ (n, d). (n, (Takes-ends (u ∷ p) Q h (skip n s)).0 d),
  λ (n, d). (n, (Takes-ends (u ∷ p) Q h (skip n s)).1 d),
)

Takes-push_any :
    (p : List LikeTok) (Q : Bytes → Type 0) → Same (Takes (push_any p) Q) (Takes p (Somewhere Q))
unfolding push_any
Takes-push_any p Q = elim (Bool-cases (ends_in_any p)) [
  | inl e ↦ rw (e, push_any) (Takes-ends p Q e)
  | inr e ↦ rw (e, push_any) (Takes-append p (any ∷ []) Q)
]

AllWhole-append : (p q : List LikeTok) → AllWhole p → AllWhole q → AllWhole (p ++ q)
AllWhole-append [] q w v = v
AllWhole-append (t ∷ p) q w v = (w.0, AllWhole-append p q w.1 v)

flush-AllWhole : (p : List LikeTok) (l : Bytes) → AllWhole p → Utf8 l → AllWhole (flush p l)
unfolding flush
flush-AllWhole p [] w u = w
flush-AllWhole p (c ∷ l) w u = AllWhole-append p (lit (c ∷ l) ∷ []) w ((λ e. cc e, u), tt)

push_any-AllWhole : (p : List LikeTok) → AllWhole p → AllWhole (push_any p)
unfolding push_any
push_any-AllWhole p w = elim (Bool-cases (ends_in_any p)) [
  | inl e ↦ rw (e, push_any) w
  | inr e ↦ rw (e, push_any) (AllWhole-append p (any ∷ []) w (tt, tt))
]

-- Inversion of the operand's meaning, by its first byte.
percent_inv : {c : ℕ} {op s : Bytes} → c ≡ b'%' → Like (c ∷ op) s → Somewhere (Like op) s
percent_inv h (percent e n d) = (n, d)
percent_inv h (underscore e n d) = absurd (omega arith)
percent_inv h (escaped e r q d) = absurd (omega arith)
percent_inv h (plain e f g r q d) = absurd (e h)

underscore_inv :
    {c : ℕ} {op s : Bytes} → c ≡ b'_' → Like (c ∷ op) s → (s ≢ []) × Like op (rest_rune s)
underscore_inv h (percent e n d) = absurd (omega arith)
underscore_inv h (underscore e n d) = (n, d)
underscore_inv h (escaped e r q d) = absurd (omega arith)
underscore_inv h (plain e f g r q d) = absurd (f h)

plain_inv :
    {c : ℕ} {op s : Bytes}
    → c ≢ b'%'
    → c ≢ b'_'
    → c ≢ backslash
    → Like (c ∷ op) s
    → After (first_rune (c ∷ op)) (Like (rest_rune (c ∷ op))) s
plain_inv h₁ h₂ h₃ (percent e n d) = absurd (h₁ e)
plain_inv h₁ h₂ h₃ (underscore e n d) = absurd (h₂ e)
plain_inv h₁ h₂ h₃ (escaped e r q d) = absurd (h₃ e)
plain_inv h₁ h₂ h₃ (plain e f g r q d) = (r, q, d)

escaped_inv :
    {b c : ℕ} {op s : Bytes}
    → b ≡ backslash
    → Like (b ∷ c ∷ op) s
    → After (first_rune (c ∷ op)) (Like (rest_rune (c ∷ op))) s
escaped_inv h (percent e n d) = absurd (omega arith)
escaped_inv h (underscore e n d) = absurd (omega arith)
escaped_inv h (escaped e r q d) = (r, q, d)
escaped_inv h (plain e f g r q d) = absurd (g h)

unpaired_inv : {b : ℕ} {s : Bytes} → b ≡ backslash → ¬ Like (b ∷ []) s
unpaired_inv h (percent e n d) = omega arith
unpaired_inv h (underscore e n d) = omega arith
unpaired_inv h (plain e f g r q d) = g h

-- What the parser returns, against what is left of the operand and the tokens made so far.
abbrev Means : List LikeTok → Bytes → Bytes → Result LikeError (List LikeTok) → Type 0
Means toks l op (ok out) = AllWhole out × Same (Matches out) (Takes (flush toks l) (Like op))
Means toks l op (err (unpaired_escape j)) = (s : Bytes) → ¬ Like op s
Means toks l op (err out_of_fuel) = ⊥

-- A step of the parser that reads the operand `op` as `op'` behind other tokens.
Means-step :
    (toks toks' : List LikeTok) (l l' op op' : Bytes) (r : Result LikeError (List LikeTok))
    → Means toks' l' op' r
    → Same (Takes (flush toks' l') (Like op')) (Takes (flush toks l) (Like op))
    → ((s : Bytes) → Like op s → (s' : Bytes) × Like op' s')
    → Means toks l op r
Means-step toks toks' l l' op op' (ok out) m h back = (
  m.0,
  Same-trans (Matches out) (Takes (flush toks' l') (Like op')) (Takes (flush toks l) (Like op)) m.1
      h,
)
Means-step toks toks' l l' op op' (err (unpaired_escape j)) m h back =
    λ s d. let (s', d') = back s d in m s' d'
Means-step toks toks' l l' op op' (err out_of_fuel) m h back = m

Like-nil : Same IsEnd (Like [])
Like-nil s = (λ e. subst (Like []) (sym e) Like.end, nil_inv)
  where
    nil_inv : {s : Bytes} → Like [] s → s ≡ []
    nil_inv Like.end = refl

-- A rune that joins the literal.
After-After : (l r : Bytes) (Q : Bytes → Type 0) → Same (After (l ++ r) Q) (After l (After r Q))
After-After l r Q s = (
  λ (t, e, q). (r ++ t, e ∙ append_assoc l r t, (t, refl, q)),
  λ (u, e, (t, f, q)). (t, e ∙ ap (λ x. l ++ x) f ∙ sym (append_assoc l r t), q),
)

literal_step :
    (toks : List LikeTok) (l r : Bytes) (P Q : Bytes → Type 0)
    → Same (After r P) Q
    → Same (Takes (flush toks (l ++ r)) P) (Takes (flush toks l) Q)
literal_step toks l r P Q h =
    Same-trans (Takes (flush toks (l ++ r)) P) (Takes toks (After (l ++ r) P))
      (Takes (flush toks l) Q) (Takes-flush toks (l ++ r) P)
      (Same-trans (Takes toks (After (l ++ r) P)) (Takes toks (After l Q)) (Takes (flush toks l) Q)
        (Takes-map toks (After (l ++ r) P) (After l Q) (
          Same-trans (After (l ++ r) P) (After l (After r P)) (After l Q) (After-After l r P)
            (inside l)))
        (Same-sym (Takes (flush toks l) Q) (Takes toks (After l Q)) (Takes-flush toks l Q)))
  where
    inside : (l : Bytes) → Same (After l (After r P)) (After l Q)
    inside l s = (λ (t, e, d). (t, e, (h t).0 d), λ (t, e, d). (t, e, (h t).1 d))

Utf8-tail : (c : ℕ) (op : Bytes) → ltb c 0x80 ≡ true → Utf8 (c ∷ op) → Utf8 op
Utf8-tail c op h u = subst (λ n. Utf8 (drop n (c ∷ op))) (rune_size-ascii c op h) (behind u)
  where
    behind : {c : ℕ} {op : Bytes} → Utf8 (c ∷ op) → Utf8 (rest_rune (c ∷ op))
    behind (rune h u) = u

begins : {c : ℕ} {op : Bytes} → Utf8 (c ∷ op) → begins_rune c op ≡ true
begins (rune h u) = h

behind : {c : ℕ} {op : Bytes} → Utf8 (c ∷ op) → Utf8 (rest_rune (c ∷ op))
behind (rune h u) = u

-- The loop on what is left of the operand, with the tokens and the literal made so far.
abbrev Sound : ℕ → Type 0
Sound f =
    (i : ℕ) (op : Bytes) (toks : List LikeTok) (l : Bytes)
    → length op ≤ f
    → Utf8 op
    → AllWhole toks
    → Utf8 l
    → Means toks l op (parse_loop f i op toks l)

-- A rune of the operand, plain or escaped, joins the literal.
literal_rune :
    (f i : ℕ) (c : ℕ) (op whole : Bytes) (toks : List LikeTok) (l : Bytes)
    → Sound f
    → length op ≤ f
    → Utf8 (c ∷ op)
    → AllWhole toks
    → Utf8 l
    → Same (After (first_rune (c ∷ op)) (Like (rest_rune (c ∷ op)))) (Like whole)
    → Means toks l whole (parse_loop f i (rest_rune (c ∷ op)) toks (l ++ first_rune (c ∷ op)))
literal_rune f i c op whole toks l ih fuel u w v h =
    Means-step toks toks l (l ++ first_rune (c ∷ op)) whole (rest_rune (c ∷ op))
      (parse_loop f i (rest_rune (c ∷ op)) toks (l ++ first_rune (c ∷ op)))
      (ih i (rest_rune (c ∷ op)) toks (l ++ first_rune (c ∷ op))
        (omega (arith, length-rest_rune c op)) (behind u) w
        (Utf8-append l (first_rune (c ∷ op)) v (first_rune-Utf8 c op (begins u))))
      (literal_step toks l (first_rune (c ∷ op)) (Like (rest_rune (c ∷ op))) (Like whole) h)
      (λ s d. let (r, e, d') = (h s).1 d in (r, d'))

percent_step :
    (f i : ℕ) (c : ℕ) (op : Bytes) (toks : List LikeTok) (l : Bytes)
    → Sound f
    → length op ≤ f
    → Utf8 (c ∷ op)
    → AllWhole toks
    → Utf8 l
    → c ≡ b'%'
    → Means toks l (c ∷ op) (parse_loop f i op (push_any (flush toks l)) [])
unfolding flush
percent_step f i c op toks l ih fuel u w v e =
    Means-step toks (push_any (flush toks l)) l [] (c ∷ op) op
      (parse_loop f i op (push_any (flush toks l)) [])
      (ih i op (push_any (flush toks l)) [] fuel (Utf8-tail c op (rw e) u)
        (push_any-AllWhole (flush toks l) (flush-AllWhole toks l w v)) Utf8.end)
      (Same-trans (Takes (push_any (flush toks l)) (Like op))
        (Takes (flush toks l) (Somewhere (Like op))) (Takes (flush toks l) (Like (c ∷ op)))
        (Takes-push_any (flush toks l) (Like op))
        (Takes-map (flush toks l) (Somewhere (Like op)) (Like (c ∷ op))
          λ s. (λ (n, d). percent e n d, percent_inv e)))
      (λ s d. let (n, d') = percent_inv e d in (skip n s, d'))

underscore_step :
    (f i : ℕ) (c : ℕ) (op : Bytes) (toks : List LikeTok) (l : Bytes)
    → Sound f
    → length op ≤ f
    → Utf8 (c ∷ op)
    → AllWhole toks
    → Utf8 l
    → c ≡ b'_'
    → Means toks l (c ∷ op) (parse_loop f i op (flush toks l ++ one ∷ []) [])
unfolding flush
underscore_step f i c op toks l ih fuel u w v e =
    Means-step toks (flush toks l ++ one ∷ []) l [] (c ∷ op) op
      (parse_loop f i op (flush toks l ++ one ∷ []) [])
      (ih i op (flush toks l ++ one ∷ []) [] fuel (Utf8-tail c op (rw e) u)
        (AllWhole-append (flush toks l) (one ∷ []) (flush-AllWhole toks l w v) (tt, tt)) Utf8.end)
      (Same-trans (Takes (flush toks l ++ one ∷ []) (Like op))
        (Takes (flush toks l) (Takes (one ∷ []) (Like op))) (Takes (flush toks l) (Like (c ∷ op)))
        (Takes-append (flush toks l) (one ∷ []) (Like op))
        (Takes-map (flush toks l) (Takes (one ∷ []) (Like op)) (Like (c ∷ op))
          λ s. (λ (n, d). underscore e n d, underscore_inv e)))
      (λ s d. (rest_rune s, (underscore_inv e d).1))

escape_step :
    (f i : ℕ) (c : ℕ) (op : Bytes) (toks : List LikeTok) (l : Bytes)
    → Sound f
    → length op ≤ f
    → Utf8 (c ∷ op)
    → AllWhole toks
    → Utf8 l
    → c ≡ backslash
    → Means toks l (c ∷ op) (elim op [
      | [] ↦ err (unpaired_escape i)
      | d ∷ op' ↦
          parse_loop f
            (i + (1 + rune_size (d ∷ op')))
            (rest_rune (d ∷ op'))
            toks
            (l ++ first_rune (d ∷ op'))
    ])
escape_step f i c [] toks l ih fuel u w v e = λ s. unpaired_inv e
escape_step f i c (d ∷ op) toks l ih fuel u w v e =
    literal_rune f (i + (1 + rune_size (d ∷ op))) d op (c ∷ d ∷ op) toks l ih (omega arith)
      (Utf8-tail c (d ∷ op) (rw e) u) w v (λ s. (λ (r, q, h). escaped e r q h, escaped_inv e))

parse_loop-Sound : (f : ℕ) → Sound f
unfolding parse_loop
parse_loop-Sound f i [] toks l fuel u w v =
    (flush-AllWhole toks l w v, Takes-map (flush toks l) IsEnd (Like []) Like-nil)
parse_loop-Sound zero i (c ∷ op) toks l fuel u w v = absurd (omega arith)
parse_loop-Sound (suc f) i (c ∷ op) toks l fuel u w v = elim (Bool-cases (c == backslash)) [
  | inl e ↦
      rw (e, parse_loop)
        (escape_step f i c op toks l (parse_loop-Sound f) (omega arith) u w v
          ((==_iff c backslash).0 e))
  | inr not_escape ↦ elim (Bool-cases (c == b'%')) [
    | inl e ↦
        rw (not_escape, e, parse_loop)
          (percent_step f (i + 1) c op toks l (parse_loop-Sound f) (omega arith) u w v
            ((==_iff c b'%').0 e))
    | inr not_percent ↦ elim (Bool-cases (c == b'_')) [
      | inl e ↦
          rw (not_escape, not_percent, e, parse_loop)
            (underscore_step f (i + 1) c op toks l (parse_loop-Sound f) (omega arith) u w v
              ((==_iff c b'_').0 e))
      | inr not_one ↦
          rw (not_escape, not_percent, not_one, parse_loop)
            (literal_rune f (i + rune_size (c ∷ op)) c op (c ∷ op) toks l (parse_loop-Sound f)
              (omega arith) u w v
              (λ s. (
                λ (r, q, h).
                    plain (differs c b'%' not_percent) (differs c b'_' not_one)
                      (differs c backslash not_escape) r q h,
                plain_inv (differs c b'%' not_percent) (differs c b'_' not_one)
                    (differs c backslash not_escape),
              )))
    ]
  ]
]
  where
    differs : (a b : ℕ) → (a == b) ≡ false → a ≢ b
    differs a b h = ground arith

-- What `LIKE` promises of an operand: accepted, the matcher stops and answers true exactly on the
-- texts that the operand describes; refused, the operand describes no text.
abbrev pub Correct : Bytes → Result LikeError (List LikeTok) → Type 0
Correct op (ok toks) = (s : Bytes) → Decides (Like op s) (matches toks s)
Correct op (err (unpaired_escape i)) = (s : Bytes) → ¬ Like op s
Correct op (err out_of_fuel) = ⊥

Decides-map : (G H : Type 0) (o : Option Bool) → G ↔ H → Decides G o → Decides H o
Decides-map G H none e d = d
Decides-map G H (some true) e d = e.0 d
Decides-map G H (some false) e d = λ h. d (e.1 h)

Means→Correct : (op : Bytes) (r : Result LikeError (List LikeTok)) → Means [] [] op r → Correct op r
unfolding flush
Means→Correct op (ok toks) (w, h) =
    λ s. Decides-map (Matches toks s) (Like op s) (matches toks s) (h s) (matches-Decides toks s w)
Means→Correct op (err (unpaired_escape i)) m = m
Means→Correct op (err out_of_fuel) m = m

-- For every operand that is valid UTF-8 the parser ends within its fuel. If it accepts, the matcher
-- ends within its fuel on every text, and answers true exactly on the texts that the operand
-- describes. If it refuses, the operand describes no text.
pub parse_like_pattern-Correct : (op : Bytes) → Utf8 op → Correct op (parse_like_pattern op)
unfolding parse_like_pattern
parse_like_pattern-Correct op u =
    Means→Correct op (parse_loop (length op) 0 op [] [])
      (parse_loop-Sound (length op) 0 op [] [] (omega arith) u tt Utf8.end)
