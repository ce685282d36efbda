-- ===== src/Csv/Tests.antt =====
-- Runs of the parser of lines.
use concentrator.Common.{arith, ◌≡◌, refl, [], ◌∷◌}
use concentrator.Csv.{csvline_populate, csv_fields}
use concentrator.Csv.RoundTrip.{print_fields, csvline_populate-print}

-- `a,"b,""",` and a line feed.
plain_line :
    csvline_populate (97 ∷ 44 ∷ 34 ∷ 98 ∷ 44 ∷ 34 ∷ 34 ∷ 34 ∷ 44 ∷ 10 ∷ []) 44
    ≡ (97 ∷ []) ∷ (98 ∷ 44 ∷ 34 ∷ []) ∷ [] ∷ []
unfolding csvline_populate csv_fields
plain_line = refl

csvline_populate-print_example :
    csvline_populate (print_fields 44 (97 ∷ 44 ∷ []) ((34 ∷ []) ∷ [] ∷ [])) 44
    ≡ (97 ∷ 44 ∷ []) ∷ (34 ∷ []) ∷ [] ∷ []
csvline_populate-print_example =
    csvline_populate-print 44 (97 ∷ 44 ∷ []) ((34 ∷ []) ∷ [] ∷ []) refl refl
      ((omega arith, (omega arith, tt)), ((omega arith, tt), (tt, tt)))
