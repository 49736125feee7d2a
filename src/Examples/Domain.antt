-- ===== src/Examples/Domain.antt =====
-- Small cells for src/procurement_parser/domain/csv_safety.py, with the ASCII digits.
use govpars.Prelude.{ℕ, ◌≡◌, refl, Bool, true, ◌&&◌, List, [], ◌∷◌, leb}
use govpars.Domain.CsvSafety.{is_spreadsheet_formula}

abbrev is_ascii_digit : ℕ → Bool
is_ascii_digit c = leb 48 c && leb c 57

-- `=1+2`
abbrev a_sum : List ℕ
a_sum = 61 ∷ 49 ∷ 43 ∷ 50 ∷ []

sum_is_formula : is_spreadsheet_formula is_ascii_digit a_sum ≡ true
unfolding is_spreadsheet_formula
sum_is_formula = refl
