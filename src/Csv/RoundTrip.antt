-- ===== src/Csv/RoundTrip.antt =====
-- src/csvparser.cpp: quoted fields are read back.
use concentrator.Common.{
  ℕ, ◌<◌, ◌≡◌, refl, ap, ◌∙◌, Bool, true, false, ◌&&◌, List, [], ◌∷◌, ◌++◌, append-nil,
  append_assoc, if◌then◌else◌, ◌==◌, ==_refl, length, All, arith, Bool-cases, inl, inr,
}
use concentrator.Csv.{csv_fields, csvline_populate}

-- A field in quotes: its quotes doubled, and the closing one.
abbrev pub quoted : List ℕ → List ℕ
quoted [] = 34 ∷ []
quoted (c ∷ field) = if c == 34 then 34 ∷ 34 ∷ quoted field else c ∷ quoted field

abbrev pub print_fields : (delimiter : ℕ) (first : List ℕ) (others : List (List ℕ)) → List ℕ
print_fields delimiter first [] = 34 ∷ quoted first
print_fields delimiter first (field ∷ others) =
    34 ∷ (quoted first ++ delimiter ∷ print_fields delimiter field others)

-- A byte of a field: the string's end does not occur.
abbrev pub IsText : List ℕ → Type 0
IsText field = All (λ c. 0 < c) field

-- A byte inside quotes that is none.
csv_fields-plain :
    (delimiter : ℕ) (cur : List ℕ) (c : ℕ) (line : List ℕ)
    → (c == 0) ≡ false
    → (c == 34) ≡ false
    → csv_fields delimiter true cur (c ∷ line) ≡ csv_fields delimiter true (cur ++ c ∷ []) line
unfolding csv_fields
csv_fields-plain delimiter cur c [] text plain = rw (text, plain) refl
csv_fields-plain delimiter cur c (d ∷ line) text plain = rw (csv_fields, text, plain) refl

-- Inside quotes, up to the closing one; what follows starts with no quote.
csv_fields-quoted :
    (delimiter : ℕ) (cur field : List ℕ) (d : ℕ) (line : List ℕ)
    → IsText field
    → (d == 34) ≡ false
    → csv_fields delimiter true cur (quoted field ++ d ∷ line)
      ≡ csv_fields delimiter false (cur ++ field) (d ∷ line)
unfolding csv_fields
csv_fields-quoted delimiter cur [] d line text other = rw (other, append-nil cur) refl
csv_fields-quoted delimiter cur (c ∷ field) d line text other = elim (Bool-cases (c == 34)) [
  | inl quote ↦
      let e : c ≡ 34 = ground arith in
      rw e (
        csv_fields-quoted delimiter (cur ++ 34 ∷ []) field d line text.1 other
        ∙ ap (λ l. csv_fields delimiter false l (d ∷ line)) (append_assoc cur (34 ∷ []) field))
  | inr plain ↦ rw plain (
      csv_fields-plain delimiter cur c (quoted field ++ d ∷ line) (ground arith) plain
      ∙ csv_fields-quoted delimiter (cur ++ c ∷ []) field d line text.1 other
      ∙ ap (λ l. csv_fields delimiter false l (d ∷ line)) (append_assoc cur (c ∷ []) field))
]

-- The last field.
csv_fields-last :
    (delimiter : ℕ) (cur field : List ℕ)
    → IsText field
    → csv_fields delimiter true cur (quoted field) ≡ (cur ++ field) ∷ []
unfolding csv_fields
csv_fields-last delimiter cur [] text = rw (append-nil cur) refl
csv_fields-last delimiter cur (c ∷ field) text = elim (Bool-cases (c == 34)) [
  | inl quote ↦
      let e : c ≡ 34 = ground arith in
      rw e (
        csv_fields-last delimiter (cur ++ 34 ∷ []) field text.1
        ∙ ap (λ l. l ∷ []) (append_assoc cur (34 ∷ []) field))
  | inr plain ↦ rw plain (
      csv_fields-plain delimiter cur c (quoted field) (ground arith) plain
      ∙ csv_fields-last delimiter (cur ++ c ∷ []) field text.1
      ∙ ap (λ l. l ∷ []) (append_assoc cur (c ∷ []) field))
]

-- An opening quote, whatever follows.
csv_fields-open :
    (delimiter : ℕ) (line : List ℕ)
    → csv_fields delimiter false [] (34 ∷ line) ≡ csv_fields delimiter true [] line
unfolding csv_fields
csv_fields-open delimiter [] = refl
csv_fields-open delimiter (d ∷ line) = refl

same : (b : Bool) → (b && false) ≡ false
same true = refl
same false = refl

-- A delimiter, whatever follows.
csv_fields-next :
    (delimiter : ℕ) (cur : List ℕ) (line : List ℕ)
    → (delimiter == 0) ≡ false
    → (delimiter == 34) ≡ false
    → csv_fields delimiter false cur (delimiter ∷ line) ≡ cur ∷ csv_fields delimiter false [] line
unfolding csv_fields
csv_fields-next delimiter cur [] some_one other =
    rw (some_one, other, ==_refl delimiter, same (length cur == 0)) refl
csv_fields-next delimiter cur (d ∷ line) some_one other =
    rw (csv_fields, some_one, other, ==_refl delimiter, same (length cur == 0)) refl

-- A line of one or more fields in quotes, separated by the delimiter, gives these fields back: whatever bytes but 0
-- they have, quotes, delimiters and line ends included, for a delimiter that is neither 0 nor a quote.
pub csvline_populate-print :
    (delimiter : ℕ) (first : List ℕ) (others : List (List ℕ))
    → (delimiter == 0) ≡ false
    → (delimiter == 34) ≡ false
    → All IsText (first ∷ others)
    → csvline_populate (print_fields delimiter first others) delimiter ≡ first ∷ others
unfolding csvline_populate
csvline_populate-print delimiter first [] some_one other text =
    csv_fields-open delimiter (quoted first) ∙ csv_fields-last delimiter [] first text.0
csvline_populate-print delimiter first (field ∷ others) some_one other text =
    csv_fields-open delimiter (quoted first ++ delimiter ∷ print_fields delimiter field others)
    ∙ csv_fields-quoted delimiter [] first delimiter (print_fields delimiter field others) text.0
        other
    ∙ csv_fields-next delimiter first (print_fields delimiter field others) some_one other
    ∙ ap (λ l. first ∷ l) (csvline_populate-print delimiter field others some_one other text.1)
