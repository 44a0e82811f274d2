-- ===== src/Like/Tests.antt =====
-- The LIKE theorems at concrete operands, and runs of the parser and the matcher.
use cyoda_go_spi.Base.{List, ◌≡◌, refl, true, false, [], ◌∷◌, ◌++◌, some, ok, err, codes, Bytes}
use cyoda_go_spi.Base.Utf8.{
  Utf8, end, rune, rune_size, lead_length, second_fits, continues, is_continuation,
}
use cyoda_go_spi.Like.{LikeTok, lit, one, any, unpaired_escape, parse_like_pattern, matches}
use cyoda_go_spi.Like.Match.{AllWhole, Decides, matches-Decides}
use cyoda_go_spi.Like.Meaning.{Matches}
use cyoda_go_spi.Like.Parse.{Correct, parse_like_pattern-Correct}

-- "€", three bytes.
abbrev euro : Bytes
euro = 0xE2 ∷ 0x82 ∷ 0xAC ∷ []

-- `a%_€`
abbrev operand : Bytes
operand = codes "a%_" ++ euro

operand-Utf8 : Utf8 operand
unfolding rune_size lead_length second_fits continues is_continuation
operand-Utf8 = rune refl (rune refl (rune refl (rune refl end)))

parse_like_pattern-Correct_example : Correct operand (parse_like_pattern operand)
parse_like_pattern-Correct_example = parse_like_pattern-Correct operand operand-Utf8

abbrev tokens : List LikeTok
tokens = lit (codes "a") ∷ any ∷ one ∷ lit euro ∷ []

tokens-AllWhole : AllWhole tokens
unfolding rune_size lead_length second_fits continues is_continuation
tokens-AllWhole = (((λ e. cc e), rune refl end), (tt, (tt, (((λ e. cc e), rune refl end), tt))))

matches-Decides_example :
    Decides (Matches tokens (codes "axx" ++ euro)) (matches tokens (codes "axx" ++ euro))
matches-Decides_example = matches-Decides tokens (codes "axx" ++ euro) tokens-AllWhole

parsed : parse_like_pattern operand ≡ ok tokens
unfolding parse_like_pattern rune_size lead_length second_fits continues is_continuation
parsed = refl

matched : matches tokens (codes "axx" ++ euro) ≡ some true
unfolding matches rune_size lead_length second_fits continues is_continuation
matched = refl

too_short : matches tokens (codes "a" ++ euro) ≡ some false
unfolding matches rune_size lead_length second_fits continues is_continuation
too_short = refl

ends_in_escape : parse_like_pattern (codes "ab\\") ≡ err (unpaired_escape 2)
unfolding parse_like_pattern rune_size lead_length second_fits continues is_continuation
ends_in_escape = refl
