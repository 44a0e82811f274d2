-- ===== src/Path.antt =====
-- filter_path.go, filter_path_resolve.go and, of condition_filter.go, `renderPathHops`: the path of a
-- data leaf. `parse_filter_path` and `scan_path_hops` are the Go functions of those names; an index
-- into the body is the rest of the body, and the scan runs on fuel, the body's length and one, of which each
-- hop takes a byte at least. A refusal is a constructor for each reason that the source words.
pub mod Valid
pub mod RoundTrip
pub mod Accepts
pub mod Plain
mod Tests
use cyoda_go_spi.Base.{
  ℕ, zero, suc, ◌+◌, ◌^◌, Bool, true, false, not, ◌&&◌, ◌||◌, List, [], ◌∷◌, ◌++◌, Option, none,
  some, Bytes, ◌==◌, leb, ltb, if◌then◌else◌, length, all_of, Result, ok, err, ◌>>=◌,
}
use cyoda_go_spi.Base.Utf8.{first_rune}
use cyoda_go_spi.Base.Digits.{value, print, is_digit}

-- `Wildcard: true`, or an index.
pub data PathSub : Type 0 where
  wildcard : PathSub
  index : ℕ → PathSub

pub record PathHop : Type 0 where
  pub name : Bytes
  pub subs : List PathSub

-- `out_of_fuel` belongs to the model only.
pub data PathError : Type 0 where
  trailing_dot : PathError
  empty_segment : PathError
  no_field_before_subscript : PathError
  unmatched_bracket : PathError
  disallowed_char : Bytes → PathError
  unclosed_subscript : PathError
  unsupported_subscript : Bytes → PathError
  out_of_fuel : PathError

abbrev pub is_path_name_byte : ℕ → Bool
is_path_name_byte b =
    leb b'a' b && leb b b'z'
    || leb b'A' b && leb b b'Z'
    || leb b'0' b && leb b b'9'
    || b == b'_'
    || b == b'-'

-- The longest name in front, and the rest.
unfoldable pub span_name : Bytes → Bytes × Bytes
span_name [] = ([], [])
span_name (b ∷ s) =
    let (name, rest) = span_name s in
    elim (is_path_name_byte b) [ true ↦ (b ∷ name, rest) | false ↦ ([], b ∷ s) ]

-- `strings.IndexByte(s, ']')`: what stands before the first `]`, and behind it.
unfoldable pub cut_bracket : Bytes → Option (Bytes × Bytes)
cut_bracket [] = none
cut_bracket (b ∷ s) =
    let later = cut_bracket s in
    if b == b']'
    then some ([], s)
    else elim later [ none ↦ none | some (inner, rest) ↦ some (b ∷ inner, rest) ]

unfoldable pub is_array_index : Bytes → Bool
is_array_index [] = false
is_array_index (c ∷ s) = all_of is_digit (c ∷ s)

-- The index is read by `strconv.ParseInt(inner, 10, 32)`, which refuses what does not fit an int32.
unfoldable pub parse_index : Bytes → Option PathSub
parse_index inner =
    if not (is_array_index inner)
    then none
    else if leb (2 ^ 31) (value inner)
    then none
    else some (index (value inner))

unfoldable pub parse_path_sub : Bytes → Option PathSub
parse_path_sub [] = parse_index []
parse_path_sub (c ∷ []) = if c == b'*' then some wildcard else parse_index (c ∷ [])
parse_path_sub (c ∷ d ∷ s) = parse_index (c ∷ d ∷ s)

-- The loop over the subscripts of one hop, and what stands behind them.
unfoldable pub scan_subs : ℕ → Bytes → List PathSub → Result PathError (List PathSub × Bytes)
scan_subs f [] subs = ok (subs, [])
scan_subs zero (c ∷ s) subs = err out_of_fuel
scan_subs (suc f) (c ∷ s) subs =
    let found : Result PathError (List PathSub × Bytes) = elim (cut_bracket s) [
      | none ↦ err unclosed_subscript
      | some (inner, rest) ↦ elim (parse_path_sub inner) [
        | none ↦ err (unsupported_subscript inner)
        | some sub ↦ scan_subs f rest (subs ++ sub ∷ [])
      ]
    ] in
    if c == b'[' then found else ok (subs, c ∷ s)

-- Why no name stands here.
pub no_name : Bytes → PathError
no_name [] = trailing_dot
no_name (c ∷ s) =
    if c == b'.'
    then empty_segment
    else if c == b'['
    then no_field_before_subscript
    else if c == b']'
    then unmatched_bracket
    else disallowed_char (first_rune (c ∷ s))

-- Behind a hop: the end, a dot with more behind it, or a refusal. `next` is the loop's next turn.
unfoldable pub after_hop :
    Bytes
    → List PathHop
    → (Bytes → Result PathError (List PathHop))
    → Result PathError (List PathHop)
after_hop [] hops next = ok hops
after_hop (c ∷ s) hops next =
    let more : Result PathError (List PathHop) = elim s [
      | [] ↦ err trailing_dot
      | d ∷ r ↦ next (d ∷ r)
    ] in
    if c == b'.'
    then more
    else if c == b']'
    then err unmatched_bracket
    else err (disallowed_char (first_rune (c ∷ s)))

-- One turn of the loop, on the name in front and the rest.
unfoldable pub hop_turn :
    Bytes
    → Bytes
    → List PathHop
    → (Bytes → List PathHop → Result PathError (List PathHop))
    → Result PathError (List PathHop)
hop_turn [] rest hops next = err (no_name rest)
hop_turn (b ∷ bs) rest hops next = elim (scan_subs (length rest) rest []) [
  | err e ↦ err e
  | ok (subs, behind) ↦
      let hops' = hops ++ record { name = b ∷ bs; subs = subs } ∷ [] in
      after_hop behind hops' (λ body. next body hops')
]

unfoldable pub scan_path_hops : ℕ → Bytes → List PathHop → Result PathError (List PathHop)
scan_path_hops zero body hops = err out_of_fuel
scan_path_hops (suc f) body hops =
    hop_turn (span_name body).0 (span_name body).1 hops (scan_path_hops f)

unfoldable pub parse_filter_path : Bytes → Result PathError (List PathHop)
parse_filter_path [] = ok []
parse_filter_path (c ∷ p) = scan_path_hops (suc (suc (length p))) (c ∷ p) []

-- `ValidateFilterPath`
pub validate_filter_path : Bytes → Option PathError
validate_filter_path p = elim (parse_filter_path p) [ ok hops ↦ none | err e ↦ some e ]

unfoldable pub render_subs : Bool → List PathSub → Bytes
render_subs fold [] = []
render_subs fold (wildcard ∷ subs) = b'[' ∷ b'*' ∷ b']' ∷ render_subs fold subs
render_subs fold (index i ∷ subs) =
    (if fold then b'[' ∷ b'*' ∷ b']' ∷ [] else b'[' ∷ print i ++ b']' ∷ []) ++ render_subs fold subs

-- The hops behind the first, a dot in front of each.
unfoldable pub render_more : Bool → List PathHop → Bytes
render_more fold [] = []
render_more fold (h ∷ hops) = b'.' ∷ (h.name ++ (render_subs fold h.subs ++ render_more fold hops))

unfoldable pub render_path_hops : List PathHop → Bool → Bytes
render_path_hops [] fold = []
render_path_hops (h ∷ hops) fold = h.name ++ (render_subs fold h.subs ++ render_more fold hops)
