-- ===== src/Path/Valid.antt =====
-- Well-formed hops, and the lexical facts about names and subscripts.
use cyoda_go_spi.Base.{
  ℕ, ◌^◌, ◌<◌, ◌≡◌, ◌≢◌, refl, ap, ◌∙◌, true, false, List, [], ◌∷◌, ◌++◌, some, Bytes, ◌==◌, leb,
  all_of, All, arith, length,
}
use cyoda_go_spi.Base.Digits.{
  value, print, is_digit, AllDigits, value-print, print-digits, print-pos,
}
use cyoda_go_spi.Path.{
  PathSub, wildcard, index, PathHop, is_path_name_byte, span_name, cut_bracket, is_array_index,
  parse_index, parse_path_sub, render_subs, render_more,
}

-- A subscript that the parser can make: the wildcard, or an index that fits an int32.
abbrev pub IsSub : PathSub → Type 0
IsSub wildcard = Unit
IsSub (index i) = i < 2 ^ 31

pub record IsHop (h : PathHop) : Type 0 where
  pub named : h.name ≢ []
  pub plain : All (λ b. is_path_name_byte b ≡ true) h.name
  pub subs : All IsSub h.subs

-- What cannot lengthen a name, and what cannot begin a subscript.
abbrev pub EndsName : Bytes → Type 0
EndsName [] = Unit
EndsName (c ∷ s) = is_path_name_byte c ≡ false

abbrev pub EndsSubs : Bytes → Type 0
EndsSubs [] = Unit
EndsSubs (c ∷ s) = (c == b'[') ≡ false

span_end : (s : Bytes) → EndsName s → span_name s ≡ ([], s)
unfolding span_name
span_end [] h = refl
span_end (c ∷ s) h = rw (h, span_name)

pub span_name_lem :
    (name rest : Bytes)
    → All (λ b. is_path_name_byte b ≡ true) name
    → EndsName rest
    → span_name (name ++ rest) ≡ (name, rest)
unfolding span_name
span_name_lem [] rest h e = span_end rest e
span_name_lem (b ∷ name) rest h e = rw (h.0, span_name, span_name_lem name rest h.1 e)

pub cut_bracket_lem :
    (inner rest : Bytes)
    → All (λ c. (c == b']') ≡ false) inner
    → cut_bracket (inner ++ b']' ∷ rest) ≡ some (inner, rest)
unfolding cut_bracket
cut_bracket_lem [] rest h = refl
cut_bracket_lem (c ∷ inner) rest h = rw (h.0, cut_bracket_lem inner rest h.1)

digits_lack_bracket : (s : Bytes) → AllDigits s → All (λ c. (c == b']') ≡ false) s
digits_lack_bracket [] h = tt
digits_lack_bracket (c ∷ s) h = (lacks c h.0, digits_lack_bracket s h.1)
  where
    lacks : (c : ℕ) → is_digit c ≡ true → (c == b']') ≡ false
    lacks c h = ground arith

all_digits : (s : Bytes) → AllDigits s → all_of is_digit s ≡ true
all_digits [] h = refl
all_digits (c ∷ s) h = rw (h.0, all_digits s h.1)

parse_digits :
    (s : Bytes)
    → AllDigits s
    → s ≢ []
    → value s < 2 ^ 31
    → parse_path_sub s ≡ some (index (value s))
unfolding parse_path_sub parse_index is_array_index
parse_digits [] h n lt = absurd (n refl)
parse_digits (c ∷ []) h n lt = rw (not_star c h.0, h.0, small (value (c ∷ [])) lt)
  where
    not_star : (c : ℕ) → is_digit c ≡ true → (c == b'*') ≡ false
    not_star c h = ground arith

    small : (v : ℕ) → v < 2 ^ 31 → leb (2 ^ 31) v ≡ false
    small v h = ground arith
parse_digits (c ∷ d ∷ s) h n lt = rw (h.0, all_digits (d ∷ s) h.1, small (value (c ∷ d ∷ s)) lt)
  where
    small : (v : ℕ) → v < 2 ^ 31 → leb (2 ^ 31) v ≡ false
    small v h = ground arith

nonempty : (s : Bytes) → 0 < length s → s ≢ []
nonempty [] h = absurd (omega arith)
nonempty (c ∷ s) h = λ e. cc e

pub parse-print : (i : ℕ) → i < 2 ^ 31 → parse_path_sub (print i) ≡ some (index i)
parse-print i h =
    parse_digits (print i) (print-digits i) (nonempty (print i) (print-pos i))
      (rw (value-print i) h)
    ∙ ap (λ n. some (index n)) (value-print i)

pub print_lacks_bracket : (i : ℕ) → All (λ c. (c == b']') ≡ false) (print i)
print_lacks_bracket i = digits_lack_bracket (print i) (print-digits i)

pub render_more-EndsName : (hops : List PathHop) → EndsName (render_more false hops)
unfolding render_more
render_more-EndsName [] = tt
render_more-EndsName (h ∷ hops) = refl

pub render_more-EndsSubs : (hops : List PathHop) → EndsSubs (render_more false hops)
unfolding render_more
render_more-EndsSubs [] = tt
render_more-EndsSubs (h ∷ hops) = refl

pub render_subs-EndsName :
    (subs : List PathSub) (rest : Bytes) → EndsName rest → EndsName (render_subs false subs ++ rest)
unfolding render_subs
render_subs-EndsName [] rest h = h
render_subs-EndsName (wildcard ∷ subs) rest h = refl
render_subs-EndsName (index i ∷ subs) rest h = refl
