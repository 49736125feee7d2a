-- ===== src/Domain/CsvSafety.antt =====
-- domain/csv_safety.py: cells that a spreadsheet would read as a formula. A text is a list of code
-- points; `\d` of the regular expression, which has all decimal digits of Unicode, is an argument.
use govpars.Prelude.{
  ℕ, ◌≡◌, refl, Bool, true, false, not, ◌&&◌, ◌||◌, List, [], ◌∷◌, ◌++◌, arith, ◌==◌, if◌then◌else◌,
  all,
}

-- `value.lstrip(" \t\r\n")`
abbrev is_stripped : ℕ → Bool
is_stripped c = c == 32 || (c == 9 || (c == 13 || c == 10))

unfoldable pub lstrip : List ℕ → List ℕ
lstrip [] = []
lstrip (c ∷ cs) = if is_stripped c then lstrip cs else c ∷ cs

module _ (is_digit : ℕ → Bool) where
  -- `\d*$`: what is left is digits only
  unfoldable pub is_digits : List ℕ → Bool
  is_digits cs = all is_digit cs

  -- `\d+$`
  unfoldable pub is_number : List ℕ → Bool
  unfolding is_digits
  is_number [] = false
  is_number (c ∷ cs) = is_digit c && is_digits cs

  -- `(?:[.,]\d+)?$` after digits: more digits, or a separator and a number
  unfoldable pub is_fraction : List ℕ → Bool
  unfolding is_number
  is_fraction [] = true
  is_fraction (c ∷ cs) =
      let more = is_fraction cs in if is_digit c then more else (c == 46 || c == 44) && is_number cs

  -- `_NEGATIVE_NUMBER.fullmatch(candidate)`
  unfoldable pub is_negative_number : List ℕ → Bool
  unfolding is_fraction
  is_negative_number (minus ∷ c ∷ cs) = minus == 45 && (is_digit c && is_fraction cs)
  is_negative_number _ = false

  unfoldable pub is_formula_candidate : List ℕ → Bool
  unfolding is_negative_number
  is_formula_candidate [] = false
  is_formula_candidate (c ∷ cs) =
      if c == 61 || (c == 43 || c == 64) then true else c == 45 && not (is_negative_number (c ∷ cs))

  unfoldable pub is_spreadsheet_formula : List ℕ → Bool
  unfolding lstrip is_formula_candidate
  is_spreadsheet_formula value = is_formula_candidate (lstrip value)

  unfoldable pub escape_spreadsheet_formula : List ℕ → List ℕ
  escape_spreadsheet_formula value = if is_spreadsheet_formula value then 39 ∷ value else value

  -- An escaped cell is no formula for a spreadsheet, and escaping it again changes nothing.
  pub escape-escape :
      (value : List ℕ)
      → (is_spreadsheet_formula (escape_spreadsheet_formula value) ≡ false)
        × (escape_spreadsheet_formula (escape_spreadsheet_formula value)
            ≡ escape_spreadsheet_formula value)
  unfolding escape_spreadsheet_formula is_spreadsheet_formula
  escape-escape value = ground arith

  lstrip-append : (ws cs : List ℕ) → all is_stripped ws ≡ true → lstrip (ws ++ cs) ≡ lstrip cs
  unfolding lstrip
  lstrip-append [] cs h = refl
  lstrip-append (w ∷ ws) cs h = ground (arith, lstrip-append ws cs)

  fraction_digits :
      (ds : List ℕ) (sep : ℕ) (es : List ℕ)
      → all is_digit ds ≡ true
      → is_digit sep ≡ false
      → (sep == 46 || sep == 44) ≡ true
      → is_number es ≡ true
      → is_fraction (ds ++ sep ∷ es) ≡ true
  unfolding is_fraction
  fraction_digits [] sep es h n k m = ground arith
  fraction_digits (d ∷ ds) sep es h n k m = ground (arith, fraction_digits ds sep es)

  -- A negative decimal number, with a point or a comma that is no digit, and with white space before
  -- it or not, is written as it is.
  pub escape-append :
      (ws : List ℕ) (d : ℕ) (ds : List ℕ) (sep e : ℕ) (es : List ℕ)
      → all is_stripped ws ≡ true
      → all is_digit (d ∷ ds) ≡ true
      → is_digit sep ≡ false
      → (sep == 46 || sep == 44) ≡ true
      → all is_digit (e ∷ es) ≡ true
      → escape_spreadsheet_formula (ws ++ 45 ∷ d ∷ (ds ++ sep ∷ e ∷ es))
        ≡ ws ++ 45 ∷ d ∷ (ds ++ sep ∷ e ∷ es)
  unfolding escape_spreadsheet_formula is_spreadsheet_formula
  escape-append ws d ds sep e es h k n m l =
      let strip = lstrip-append ws (45 ∷ d ∷ (ds ++ sep ∷ e ∷ es)) h in
      let number : is_number (e ∷ es) ≡ true = unfold is_number in l in
      let frac = fraction_digits ds sep (e ∷ es) (ground arith) n m number in ground arith
