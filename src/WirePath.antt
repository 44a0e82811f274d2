-- ===== src/WirePath.antt =====
-- condition_filter.go, the two forms of a path: `stripDollarDot` from the form of a request to that
-- of a filter, `NormalisePath` and `foldSubscriptWildcards` to the key of a field. A refusal is a
-- constructor for each reason that the source words.
pub mod Strip
mod Tests
use cyoda_go_spi.Base.{
  ℕ, zero, suc, Bool, true, false, not, ◌&&◌, ◌||◌, List, [], ◌∷◌, ◌++◌, Option, none, some, Bytes,
  codes, length, drop, ltb, leb, ◌==◌, any_of, if◌then◌else◌, Result, ok, err, ◌>>=◌,
}
use cyoda_go_spi.Like.{has_prefix}
use cyoda_go_spi.Path.{PathHop, PathError, scan_path_hops, parse_filter_path, render_path_hops}
use cyoda_go_spi.Conditions.{json_path_leader, cut_leader}

-- `strings.Contains(s, sub)`
unfoldable pub contains_text : Bytes → Bytes → Bool
contains_text [] sub = has_prefix sub []
contains_text (c ∷ s) sub = has_prefix sub (c ∷ s) || contains_text s sub

-- The reasons of `invalidPathError`.
pub data WireError : Type 0 where
  no_leader no_field bracket_quoted : WireError
  bad_body : PathError → WireError

-- The single quote.
abbrev pub quote : ℕ
quote = 39

unfoldable pub contains_bracket_quote : Bytes → Bool
unfolding contains_text
contains_bracket_quote p =
    contains_text p (b'[' ∷ quote ∷ [])
    || contains_text p (quote ∷ b']' ∷ [])
    || contains_text p (b'[' ∷ b'"' ∷ [])
    || contains_text p (b'"' ∷ b']' ∷ [])

unfoldable pub scan_wire_path_body : Bytes → Option WireError
scan_wire_path_body body = elim (scan_path_hops (suc (length body)) body []) [
  | err e ↦ some (bad_body e)
  | ok hops ↦ none
]

-- What follows the leader.
unfoldable pub strip_body : Bytes → Result WireError Bytes
unfolding contains_bracket_quote scan_wire_path_body
strip_body [] = err no_field
strip_body (c ∷ s) =
    if contains_bracket_quote (c ∷ s)
    then err bracket_quoted
    else elim (scan_wire_path_body (c ∷ s)) [ some e ↦ err e | none ↦ ok (c ∷ s) ]

unfoldable pub strip_dollar_dot : Bytes → Result WireError Bytes
unfolding strip_body
strip_dollar_dot path = elim (cut_leader path) [ none ↦ err no_leader | some s ↦ strip_body s ]

-- The encodings of the runes that `unicode.IsSpace` takes.
abbrev pub space_runes : List Bytes
space_runes =
    (9 ∷ [])
    ∷ (10 ∷ [])
    ∷ (11 ∷ [])
    ∷ (12 ∷ [])
    ∷ (13 ∷ [])
    ∷ (32 ∷ [])
    ∷ (0xC2 ∷ 0x85 ∷ [])
    ∷ (0xC2 ∷ 0xA0 ∷ [])
    ∷ (0xE1 ∷ 0x9A ∷ 0x80 ∷ [])
    ∷ (0xE2 ∷ 0x80 ∷ 0x80 ∷ [])
    ∷ (0xE2 ∷ 0x80 ∷ 0x81 ∷ [])
    ∷ (0xE2 ∷ 0x80 ∷ 0x82 ∷ [])
    ∷ (0xE2 ∷ 0x80 ∷ 0x83 ∷ [])
    ∷ (0xE2 ∷ 0x80 ∷ 0x84 ∷ [])
    ∷ (0xE2 ∷ 0x80 ∷ 0x85 ∷ [])
    ∷ (0xE2 ∷ 0x80 ∷ 0x86 ∷ [])
    ∷ (0xE2 ∷ 0x80 ∷ 0x87 ∷ [])
    ∷ (0xE2 ∷ 0x80 ∷ 0x88 ∷ [])
    ∷ (0xE2 ∷ 0x80 ∷ 0x89 ∷ [])
    ∷ (0xE2 ∷ 0x80 ∷ 0x8A ∷ [])
    ∷ (0xE2 ∷ 0x80 ∷ 0xA8 ∷ [])
    ∷ (0xE2 ∷ 0x80 ∷ 0xA9 ∷ [])
    ∷ (0xE2 ∷ 0x80 ∷ 0xAF ∷ [])
    ∷ (0xE2 ∷ 0x81 ∷ 0x9F ∷ [])
    ∷ (0xE3 ∷ 0x80 ∷ 0x80 ∷ [])
    ∷ []

-- The bytes of a space in front; 0 if there is none.
unfoldable pub space_size : List Bytes → Bytes → ℕ
space_size [] s = 0
space_size (r ∷ runes) s = if has_prefix r s then length r else space_size runes s

-- A space takes a byte at least, so the text's length is fuel enough.
unfoldable pub trim_left : ℕ → Bytes → Bytes
unfolding space_size
trim_left zero s = s
trim_left (suc f) s = elim (space_size space_runes s) [
  | zero ↦ s
  | suc n ↦ trim_left f (drop (suc n) s)
]

unfoldable pub is_blank : Bytes → Bool
unfolding trim_left
is_blank s = elim (trim_left (length s) s) [ [] ↦ true | c ∷ t ↦ false ]

-- The longest blank end is cut off.
unfoldable pub trim_right : Bytes → Bytes
unfolding is_blank
trim_right [] = []
trim_right (c ∷ s) = if is_blank (c ∷ s) then [] else c ∷ trim_right s

-- `strings.TrimSpace`
unfoldable pub trim_space : Bytes → Bytes
unfolding trim_right
trim_space s = trim_right (trim_left (length s) s)

unfoldable pub with_leader : Bytes → Bytes
with_leader [] = []
with_leader (c ∷ p) =
    if has_prefix json_path_leader (c ∷ p)
    then c ∷ p
    else if c == b'$'
    then c ∷ p
    else json_path_leader ++ c ∷ p

unfoldable pub normalise_path : Bytes → Bytes
unfolding trim_space with_leader
normalise_path raw = with_leader (trim_space raw)

-- The key behind its leader, if a bracket stands in it.
unfoldable pub fold_body : Bytes → Bytes → Bytes
fold_body key rest =
    if not (contains_text rest (b'[' ∷ [])) then key else elim (parse_filter_path rest) [
      | err e ↦ key
      | ok hops ↦ json_path_leader ++ render_path_hops hops true
    ]

unfoldable pub fold_subscript_wildcards : Bytes → Bytes
unfolding fold_body
fold_subscript_wildcards key = elim (cut_leader key) [ none ↦ key | some rest ↦ fold_body key rest ]
