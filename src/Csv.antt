-- ===== src/Csv.antt =====
-- src/csvparser.cpp: the parser of a line of fields. A line is its bytes.
pub mod RoundTrip
mod Tests
use concentrator.Common.{
  ℕ, ◌+◌, Bool, true, false, not, ◌&&◌, ◌||◌, List, [], ◌∷◌, ◌++◌, if◌then◌else◌, ◌==◌, length,
}

-- The loop from a position on, with `inquotes` and `curstring`, and the fields that are still to come.
-- A quote is 34, a carriage return 13, a line feed 10.
unfoldable pub csv_fields :
    (delimiter : ℕ) (inquotes : Bool) (curstring : List ℕ) (line : List ℕ) → List (List ℕ)
csv_fields delimiter inquotes curstring [] = curstring ∷ []
csv_fields delimiter inquotes curstring (c ∷ []) =
    if c == 0
    then curstring ∷ []
    else if not inquotes && ((length curstring == 0) && (c == 34))
    then curstring ∷ []
    else if inquotes && (c == 34)
    then curstring ∷ []
    else if not inquotes && (c == delimiter)
    then curstring ∷ [] ∷ []
    else if not inquotes && ((c == 13) || (c == 10))
    then curstring ∷ []
    else (curstring ++ c ∷ []) ∷ []
csv_fields delimiter inquotes curstring (c ∷ d ∷ line) =
    let opened = csv_fields delimiter true curstring (d ∷ line) in
    let doubled = csv_fields delimiter true (curstring ++ c ∷ []) line in
    let closed = csv_fields delimiter false curstring (d ∷ line) in
    let next = csv_fields delimiter false [] (d ∷ line) in
    let grown = csv_fields delimiter inquotes (curstring ++ c ∷ []) (d ∷ line) in
    if c == 0
    then curstring ∷ []
    else if not inquotes && ((length curstring == 0) && (c == 34))
    then opened
    else if inquotes && (c == 34)
    then (if d == 34 then doubled else closed)
    else if not inquotes && (c == delimiter)
    then curstring ∷ next
    else if not inquotes && ((c == 13) || (c == 10))
    then curstring ∷ []
    else grown

unfoldable pub csvline_populate : (line : List ℕ) (delimiter : ℕ) → List (List ℕ)
csvline_populate line delimiter = csv_fields delimiter false [] line
