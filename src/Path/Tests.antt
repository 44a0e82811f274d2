-- ===== src/Path/Tests.antt =====
-- The path theorems at concrete paths, and runs of the scan.
use cyoda_go_spi.Base.{◌≡◌, ◌⊎◌, refl, false, [], ◌∷◌, ok, err, codes, arith}
use cyoda_go_spi.Base.Digits.{print}
use cyoda_go_spi.Path.{
  PathHop, wildcard, index, parse_filter_path, render_path_hops, render_subs, render_more,
  trailing_dot, span_name, scan_path_hops, hop_turn, scan_subs, cut_bracket, parse_path_sub,
  parse_index, is_array_index, after_hop,
}
use cyoda_go_spi.Path.Valid.{IsHop}
use cyoda_go_spi.Path.RoundTrip.{parse-render}
use cyoda_go_spi.Path.Accepts.{Ends, AreHops, parse_filter_path-Ends, parse-render-parse}

-- `lines[*][12]`
abbrev lines : PathHop
lines = record { name = codes "lines"; subs = wildcard ∷ index 12 ∷ [] }

abbrev price : PathHop
price = record { name = codes "unit_price"; subs = [] }

lines-IsHop : IsHop lines
lines-IsHop = record {
  named = λ e. cc e;
  plain = (refl, (refl, (refl, (refl, (refl, tt)))));
  subs = (tt, (omega arith, tt));
}

price-IsHop : IsHop price
price-IsHop = record {
  named = λ e. cc e;
  plain = (refl, (refl, (refl, (refl, (refl, (refl, (refl, (refl, (refl, (refl, tt))))))))));
  subs = tt;
}

parse-render_example :
    parse_filter_path (render_path_hops (lines ∷ price ∷ []) false) ≡ ok (lines ∷ price ∷ [])
parse-render_example = parse-render lines (price ∷ []) lines-IsHop (price-IsHop, tt)

rendered : render_path_hops (lines ∷ price ∷ []) false ≡ codes "lines[*][12].unit_price"
unfolding render_path_hops render_subs render_more print
rendered = refl

parsed :
    parse_filter_path (codes "a[007].b")
    ≡ ok (
        record { name = codes "a"; subs = index 7 ∷ [] }
        ∷ record { name = codes "b"; subs = [] }
        ∷ [])
unfolding parse_filter_path scan_path_hops hop_turn span_name scan_subs cut_bracket parse_path_sub
    parse_index is_array_index after_hop
parsed = refl

parse-render-parse_example :
    parse_filter_path (
      render_path_hops
        (record { name = codes "a"; subs = index 7 ∷ [] }
          ∷ record { name = codes "b"; subs = [] }
          ∷ [])
        false)
    ≡ ok (
        record { name = codes "a"; subs = index 7 ∷ [] }
        ∷ record { name = codes "b"; subs = [] }
        ∷ [])
parse-render-parse_example =
    parse-render-parse (codes "a[007].b") (record { name = codes "a"; subs = index 7 ∷ [] })
      (record { name = codes "b"; subs = [] } ∷ []) parsed

parse_filter_path-Ends_example :
    Ends (λ hops. (codes "a.b" ≡ []) × (hops ≡ []) ⊎ AreHops hops) (parse_filter_path (codes "a.b"))
parse_filter_path-Ends_example = parse_filter_path-Ends (codes "a.b")

dotted : parse_filter_path (codes "a.") ≡ err trailing_dot
unfolding parse_filter_path scan_path_hops hop_turn span_name scan_subs after_hop
dotted = refl
