-- ===== src/Like/Match.antt =====
-- `matches` decides `Matches`: what a later `%` takes is never held back by an earlier one.
use cyoda_go_spi.Base.{
  ℕ, zero, suc, ◌+◌, ◌*◌, ◌≤◌, ◌<◌, ◌≡◌, ◌≢◌, ◌↔◌, refl, sym, ap, subst, ◌∙◌, Bool, true, false,
  ◌&&◌, List, [], ◌∷◌, ◌++◌, Option, none, some, arith, Bytes, ◌==◌, length, drop, Bool-cases, inl,
  inr, false≢true, ==_iff, ap₂,
}
use cyoda_go_spi.Base.Utf8.{
  rune_size, Utf8, Utf8-skip, rest_rune, skip, skip_rest, skip_comm, length-rest_rune, length-drop,
}
use cyoda_go_spi.Like.{
  LikeTok, lit, one, any, has_prefix, Star, retry, only_any, match_loop, matches,
}
use cyoda_go_spi.Like.Meaning.{Matches}

-- A literal that the parser makes: not empty, and whole runes.
abbrev pub IsWhole : LikeTok → Type 0
IsWhole (lit l) = (l ≢ []) × Utf8 l
IsWhole one = Unit
IsWhole any = Unit

abbrev pub AllWhole : List LikeTok → Type 0
AllWhole [] = Unit
AllWhole (t ∷ p) = IsWhole t × AllWhole p

prefix_split : (l s : Bytes) → has_prefix l s ≡ true → s ≡ l ++ drop (length l) s
prefix_split [] s h = refl
prefix_split (a ∷ l) [] h = cc
prefix_split (a ∷ l) (b ∷ s) h =
    ap₂ ◌∷◌ (sym ((==_iff a b).0 (left (a == b) (has_prefix l s) h)))
      (prefix_split l s (right (a == b) (has_prefix l s) h))
  where
    left : (x y : Bool) → (x && y) ≡ true → x ≡ true
    left x y h = ground arith

    right : (x y : Bool) → (x && y) ≡ true → y ≡ true
    right x y h = ground arith

prefix_of_append : (l r : Bytes) → (has_prefix l (l ++ r) ≡ true) × (drop (length l) (l ++ r) ≡ r)
prefix_of_append [] r = (refl, refl)
prefix_of_append (a ∷ l) r = rw ((==_iff a a).1 refl) (prefix_of_append l r)

skip-nil : (n : ℕ) → skip n [] ≡ []
unfolding rune_size
skip-nil zero = refl
skip-nil (suc n) = skip-nil n

module _ (p : List LikeTok) where
  lit_inv :
      (l s : Bytes)
      → Matches (lit l ∷ p) s
      → (has_prefix l s ≡ true) × Matches p (drop (length l) s)
  lit_inv l s (r, e, d) = (
    subst (λ x. has_prefix l x ≡ true) (sym e) (prefix_of_append l r).0,
    subst (λ x. Matches p (drop (length l) x)) (sym e)
        (subst (Matches p) (sym (prefix_of_append l r).1) d),
  )

  lit_intro :
      (l s : Bytes) → has_prefix l s ≡ true → Matches p (drop (length l) s) → Matches (lit l ∷ p) s
  lit_intro l s h d = (drop (length l) s, prefix_split l s h, d)

  -- Behind one rune the same token matches from wherever it did.
  drop_one : (s : Bytes) → Matches (any ∷ one ∷ p) s → Matches (any ∷ p) (rest_rune s)
  drop_one s (n, (ne, d)) = (n, subst (Matches p) (sym (skip_rest n s)) d)

  -- So too behind a literal, because it is a fixed number of runes.
  drop_lit :
      (l s : Bytes)
      → Utf8 l
      → has_prefix l s ≡ true
      → Matches (any ∷ lit l ∷ p) s
      → Matches (any ∷ p) (drop (length l) s)
  drop_lit l s u h (n, (r, e, d)) =
      let (k, back) = Utf8-skip l u in
      let t = drop (length l) s in
      let same_rest : skip n t ≡ r =
        ap (skip n) (sym (back t) ∙ ap (skip k) (sym (prefix_split l s h)))
        ∙ sym (skip_comm k n s)
        ∙ ap (skip k) e
        ∙ back r in
      (n, subst (Matches p) (sym same_rest) d)

  two_any : (s : Bytes) → Matches (any ∷ any ∷ p) s → Matches (any ∷ p) s
  two_any s (zero, (m, d)) = (m, d)
  two_any s (suc n, (m, d)) = let (m', d') = two_any (rest_rune s) (n, (m, d)) in (suc m', d')

  any_at_end : Matches (any ∷ p) [] → Matches p []
  any_at_end (n, d) = subst (Matches p) (skip-nil n) d

  must_take : (s : Bytes) → Matches (any ∷ p) s → ¬ Matches p s → Matches (any ∷ p) (rest_rune s)
  must_take s (zero, d) h = absurd (h d)
  must_take s (suc n, d) h = (n, d)

only_any→Matches : (p : List LikeTok) → only_any p ≡ true → Matches p []
unfolding only_any
only_any→Matches [] h = refl
only_any→Matches (any ∷ p) h = (0, only_any→Matches p h)
only_any→Matches (one ∷ p) h = cc
only_any→Matches (lit l ∷ p) h = cc

Matches→only_any : (p : List LikeTok) → AllWhole p → Matches p [] → only_any p ≡ true
unfolding only_any
Matches→only_any [] w h = refl
Matches→only_any (any ∷ p) w h = Matches→only_any p w.1 (any_at_end p h)
Matches→only_any (one ∷ p) w h = absurd (h.0 refl)
Matches→only_any (lit [] ∷ p) w h = absurd (w.0.0 refl)
Matches→only_any (lit (c ∷ l) ∷ p) w (r, e, d) = cc

-- The answer is there, and it is right about `G`.
abbrev pub Decides : Type 0 → Option Bool → Type 0
Decides G (some true) = G
Decides G (some false) = ¬ G
Decides G none = ⊥

Decides-some : {G : Type 0} (b : Bool) → (b ≡ true → G) → (G → b ≡ true) → Decides G (some b)
Decides-some true f g = f refl
Decides-some false f g = λ x. false≢true (g x)

-- `G` is the question that the loop was started with, and every pattern in play is shorter than `k`.
module _ (G : Type 0) (k : ℕ) where
  abbrev Saved : ℕ → List LikeTok → Bytes → Star → Type 0
  Saved m p s none = G → Matches p s
  Saved m p s (some (q, t)) =
      (G ↔ Matches (any ∷ q) t)
      × (Matches q t → Matches p s)
      × (length s ≤ length t)
      × (length t ≤ m)
      × (length q < k)
      × AllWhole q

  -- `m` bounds the text that the last `%` may still take.
  record Inv (f m : ℕ) (p : List LikeTok) (s : Bytes) (star : Star) : Type 0 where
    whole : AllWhole p
    sound : Matches p s → G
    later : G → Matches (any ∷ p) s
    saved : Saved m p s star
    text : length s ≤ m
    pattern_length : length p < k
    fuel : m * k + length p < f

  Inv-star :
      {f m : ℕ} {p : List LikeTok} {s : Bytes}
      → AllWhole p
      → G ↔ Matches (any ∷ p) s
      → length s ≤ m
      → length p < k
      → m * k + length p < f
      → Inv f m p s (some (p, s))
  Inv-star w e hs hp hf = record {
    whole = w;
    sound = λ d. e.1 (0, d);
    later = e.0;
    saved = (e, λ d. d, omega arith, hs, hp, w);
    text = hs;
    pattern_length = hp;
    fuel = hf;
  }

  -- A token took its part of the text: where the whole pattern matched `s`, the rest matches `s'`.
  Saved-advance :
      (m : ℕ) (p p' : List LikeTok) (s s' : Bytes) (star : Star)
      → (Matches p s → Matches p' s')
      → length s' ≤ length s
      → Saved m p s star
      → Saved m p' s' star
  Saved-advance m p p' s s' none step le h = λ g. step (h g)
  Saved-advance m p p' s s' (some (q, t)) step le (e, down, shorter, bound, small, w) =
      (e, λ d. step (down d), omega arith, bound, small, w)

  Inv-advance :
      {f m : ℕ} (t : LikeTok) (p : List LikeTok) (s s' : Bytes) (star : Star)
      → Inv (suc f) m (t ∷ p) s star
      → (Matches (t ∷ p) s → Matches p s')
      → (Matches p s' → Matches (t ∷ p) s)
      → (Matches (any ∷ t ∷ p) s → Matches (any ∷ p) s')
      → length s' ≤ length s
      → Inv f m p s' star
  Inv-advance {m} t p s s' star i down up later le = record {
    whole = i.whole.1;
    sound = λ d. i.sound (up d);
    later = λ g. later (i.later g);
    saved = Saved-advance m (t ∷ p) p s s' star down le i.saved;
    text = omega (arith, i.text);
    pattern_length = omega (arith, i.pattern_length);
    fuel = omega (arith, i.fuel);
  }

  abbrev Answers : ℕ → Type 0
  Answers f =
      (m : ℕ) (p : List LikeTok) (s : Bytes) (star : Star)
      → Inv f m p s star
      → Decides G (match_loop f p s star)

  retry-Decides :
      {f : ℕ} (c : ℕ) (p : List LikeTok) (s : Bytes) (m : ℕ) (star : Star)
      → Answers f
      → Inv (suc f) m p (c ∷ s) star
      → ¬ Matches p (c ∷ s)
      → Decides G (retry star (match_loop f))
  unfolding retry
  retry-Decides c p s m none ih i no_match = λ g. no_match (i.saved g)
  retry-Decides c p s m (some (q, [])) ih i no_match = absurd (omega (arith, i.saved.2))
  retry-Decides c p s zero (some (q, x ∷ t)) ih i no_match = absurd (omega (arith, i.saved.3))
  retry-Decides c p s (suc m) (some (q, x ∷ t)) ih i no_match =
      let (e, down, shorter, bound, small, w) = i.saved in
      ih m q (rest_rune (x ∷ t)) (some (q, rest_rune (x ∷ t))) (
        Inv-star w
          (λ g. must_take q (x ∷ t) (e.0 g) (λ d. no_match (down d)), λ (n, d). e.1 (suc n, d))
          (omega (arith, length-rest_rune x t, bound)) small
          (omega (arith, i.fuel, i.pattern_length, small)))

  match_loop-Decides : (f : ℕ) → Answers f
  unfolding match_loop
  match_loop-Decides zero m p s star i = omega (arith, i.fuel)
  match_loop-Decides (suc f) m p [] star i =
      Decides-some (only_any p) (λ h. i.sound (only_any→Matches p h))
        (λ g. Matches→only_any p i.whole (any_at_end p (i.later g)))
  match_loop-Decides (suc f) m [] (c ∷ s) star i =
      retry-Decides c [] s m star (match_loop-Decides f) i (λ d. cc d)
  match_loop-Decides (suc f) m (lit l ∷ p) (c ∷ s) star i =
      elim (Bool-cases (has_prefix l (c ∷ s))) [
        | inl h ↦
            rw (h, match_loop)
              (match_loop-Decides f m p (drop (length l) (c ∷ s)) star (
                Inv-advance (lit l) p (c ∷ s) (drop (length l) (c ∷ s)) star i
                  (λ d. (lit_inv p l (c ∷ s) d).1) (lit_intro p l (c ∷ s) h)
                  (drop_lit p l (c ∷ s) i.whole.0.1 h)
                  (omega (arith, length-drop (length l) (c ∷ s)))))
        | inr h ↦
            rw (h, match_loop)
              (retry-Decides c (lit l ∷ p) s m star (match_loop-Decides f) i
                (λ d. cc ((lit_inv p l (c ∷ s) d).0)))
      ]
  match_loop-Decides (suc f) m (one ∷ p) (c ∷ s) star i =
      match_loop-Decides f m p (rest_rune (c ∷ s)) star (
        Inv-advance one p (c ∷ s) (rest_rune (c ∷ s)) star i (λ d. d.1) (λ d. (λ e. cc e, d))
          (drop_one p (c ∷ s)) (omega (arith, length-rest_rune c s)))
  match_loop-Decides (suc f) m (any ∷ p) (c ∷ s) star i =
      match_loop-Decides f m p (c ∷ s) (some (p, c ∷ s)) (
        Inv-star i.whole.1 (λ g. two_any p (c ∷ s) (i.later g), i.sound) i.text
          (omega (arith, i.pattern_length)) (omega (arith, i.fuel)))

-- On tokens whose literals are not empty and valid UTF-8, the matcher ends within its fuel and
-- answers true exactly on the texts, valid UTF-8 or not, that the tokens match.
pub matches-Decides :
    (toks : List LikeTok) (s : Bytes) → AllWhole toks → Decides (Matches toks s) (matches toks s)
unfolding matches
matches-Decides toks s w =
    match_loop-Decides (Matches toks s) (length toks + 1) ((length s + 1) * (length toks + 1) + 1)
      (length s) toks s none
      (record {
        whole = w;
        sound = λ d. d;
        later = λ d. (0, d);
        saved = λ d. d;
        text = omega arith;
        pattern_length = omega arith;
        fuel = omega arith;
      })
