-- ===== src/Like.antt =====
-- like_pattern.go: the LIKE operator, with `%` for any run of runes, `_` for one rune and `\` in
-- front of a rune that stands for itself. `parse_like_pattern` is `parseLikePatternImpl` and
-- `matches` is the method of `likePattern`; both walk the text from the front, so an index into it is
-- the rest of the text, an index into the tokens the rest of the tokens, and `starTok`, `starPos` are
-- one `Option`. Both loops run on fuel.
pub mod Meaning
pub mod Match
pub mod Parse
mod Tests
use cyoda_go_spi.Base.{
  ℕ, zero, suc, ◌+◌, ◌*◌, Bool, true, false, not, ◌&&◌, List, [], ◌∷◌, ◌++◌, Option, none, some,
  Bytes, ◌==◌, if◌then◌else◌, length, drop, take, Result, ok, err, ◌>>=◌,
}
use cyoda_go_spi.Base.Utf8.{rune_size, first_rune, rest_rune}

pub data LikeTok : Type 0 where
  lit : Bytes → LikeTok
  one : LikeTok
  any : LikeTok

-- The offset of the unpaired escape. `out_of_fuel` belongs to the model only.
pub data LikeError : Type 0 where
  unpaired_escape : ℕ → LikeError
  out_of_fuel : LikeError

abbrev pub has_prefix : Bytes → Bytes → Bool
has_prefix [] s = true
has_prefix (a ∷ l) [] = false
has_prefix (a ∷ l) (b ∷ s) = a == b && has_prefix l s

abbrev pub backslash : ℕ
backslash = 92

-- A literal that was gathered becomes a token.
unfoldable pub flush : List LikeTok → Bytes → List LikeTok
flush toks [] = toks
flush toks (c ∷ l) = toks ++ lit (c ∷ l) ∷ []

abbrev pub ends_in_any : List LikeTok → Bool
ends_in_any [] = false
ends_in_any (any ∷ []) = true
ends_in_any (t ∷ []) = false
ends_in_any (t ∷ u ∷ ts) = ends_in_any (u ∷ ts)

-- A second `%` in a row adds nothing.
unfoldable pub push_any : List LikeTok → List LikeTok
push_any toks = if not (ends_in_any toks) then toks ++ any ∷ [] else toks

-- `i` is the offset of what is left of the operand.
unfoldable pub parse_loop : ℕ → ℕ → Bytes → List LikeTok → Bytes → Result LikeError (List LikeTok)
parse_loop f i [] toks l = ok (flush toks l)
parse_loop zero i (c ∷ op) toks l = err out_of_fuel
parse_loop (suc f) i (c ∷ op) toks l =
    let escaped : Result LikeError (List LikeTok) = elim op [
      | [] ↦ err (unpaired_escape i)
      | d ∷ op' ↦
          parse_loop f (i + (1 + rune_size (d ∷ op'))) (rest_rune (d ∷ op')) toks
            (l ++ first_rune (d ∷ op'))
    ] in
    let run = parse_loop f (i + 1) op (push_any (flush toks l)) [] in
    let single = parse_loop f (i + 1) op (flush toks l ++ one ∷ []) [] in
    let plain =
      parse_loop f (i + rune_size (c ∷ op)) (rest_rune (c ∷ op)) toks (l ++ first_rune (c ∷ op)) in
    if c == backslash
    then escaped
    else if c == b'%'
    then run
    else if c == b'_'
    then single
    else plain

unfoldable pub parse_like_pattern : Bytes → Result LikeError (List LikeTok)
unfolding parse_loop flush push_any
parse_like_pattern operand = parse_loop (length operand) 0 operand [] []

-- `starTok` and `starPos`: the tokens behind the last `%`, and the text that it has not taken.
abbrev pub Star : Type 0
Star = Option (List LikeTok × Bytes)

-- A mismatch: the last `%` takes one rune more.
unfoldable pub retry : Star → (List LikeTok → Bytes → Star → Option Bool) → Option Bool
retry none next = some false
retry (some (p, s)) next = next p (rest_rune s) (some (p, rest_rune s))

-- The tokens that are left match the empty text.
unfoldable pub only_any : List LikeTok → Bool
only_any [] = true
only_any (any ∷ p) = only_any p
only_any (one ∷ p) = false
only_any (lit l ∷ p) = false

-- The answer, or `none` if the fuel ran out.
unfoldable pub match_loop : ℕ → List LikeTok → Bytes → Star → Option Bool
match_loop zero p s star = none
match_loop (suc f) p [] star = some (only_any p)
match_loop (suc f) [] (c ∷ s) star = retry star (match_loop f)
match_loop (suc f) (lit l ∷ p) (c ∷ s) star =
    let onward = match_loop f p (drop (length l) (c ∷ s)) star in
    if has_prefix l (c ∷ s) then onward else retry star (match_loop f)
match_loop (suc f) (one ∷ p) (c ∷ s) star = match_loop f p (rest_rune (c ∷ s)) star
match_loop (suc f) (any ∷ p) (c ∷ s) star = match_loop f p (c ∷ s) (some (p, c ∷ s))

unfoldable pub matches : List LikeTok → Bytes → Option Bool
unfolding match_loop retry only_any
matches toks s = match_loop ((length s + 1) * (length toks + 1) + 1) toks s none
