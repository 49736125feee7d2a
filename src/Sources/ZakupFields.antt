-- ===== src/Sources/ZakupFields.antt =====
-- The helpers of infrastructure/sources/zakup_sk/parser.py that read one field or one list of an
-- entity. A value of the wrong type for its field is the `ValidationError` of the record that it is
-- put into.
use govpars.Prelude.{
  ℕ, String, Bool, true, false, Option, none, some, List, [], ◌∷◌, str_eq, if◌then◌else◌,
}
use govpars.Domain.Errors.{Result, ok, raised, plain_error, ◌>>=◌}
use govpars.Domain.Models.{PaymentTerms}
use govpars.Sources.Json.{
  Json, null, text, array, object, Fields, Python, truthy, get, pick, dicts, items, contains, join,
}
use govpars.Sources.ZakupParser.{◌+++◌}

pub data Language : Type 0 where
  ru kk : Language

abbrev pub suffix : Language → String
suffix ru = "Ru"
suffix kk = "Kk"

abbrev pub language_name : Language → String
language_name ru = "ru"
language_name kk = "kk"

-- `_text`
unfoldable pub text_of : Python → Language → Json → Json
text_of py language null = null
text_of py language (text t) = if str_eq t "" then null else text t
text_of py language (object fs) = pick fs (
    ("name" +++ suffix language)
    ∷ ("title" +++ suffix language)
    ∷ language_name language
    ∷ "name"
    ∷ "title"
    ∷ "code"
    ∷ [])
text_of py language v = text (py.str_of v)

-- A field `str | None`
unfoldable pub text_field : Json → Result (Option String)
text_field null = ok none
text_field (text t) = ok (some t)
text_field v = raised (plain_error "ValidationError")

-- `a or b`, where `b` is such a field already
unfoldable pub text_field_or : Json → Result (Option String) → Result (Option String)
unfolding text_field
text_field_or v other = if truthy v then text_field v else other

-- `str(value or "") or None`
unfoldable pub str_of_truthy : Python → Json → Option String
str_of_truthy py v = if truthy v then some (py.str_of v) else none

-- `s.replace(c, new)` for a text `c` of one character
unfoldable pub replace : String → String → String → String
replace c new String.[] = String.[]
replace c new (String.◌∷◌ d s) =
    let rest = replace c new s in
    if str_eq (String.◌∷◌ d String.[]) c then new +++ rest else String.◌∷◌ d rest

unfoldable pub is_missing : Json → Bool
is_missing null = true
is_missing (text t) = str_eq t ""
is_missing _ = false

-- `_decimal`
unfoldable pub decimal_of : Python → Json → Option String
unfolding is_missing replace
decimal_of py v =
    if is_missing v then none else py.decimal (replace "," "." (replace " " "" (py.str_of v)))

-- `_datetime`; `from_iso_format` reads a time without an offset as the portal's.
unfoldable pub datetime_of : Python → Json → Option ℕ
unfolding replace
datetime_of py v =
    if truthy v then py.from_iso_format (replace "Z" "+00:00" (py.str_of v)) else none

-- The status of an entry of the history, in capitals.
unfoldable pub event_status : Python → Fields → String
event_status py fs =
    let v = pick fs ("status" ∷ "advertStatus" ∷ "lotStatus" ∷ "simpleStatus" ∷ "event" ∷ []) in
    py.upper (if truthy v then py.str_of v else "")

unfoldable pub first_published : Python → List Fields → Option ℕ
unfolding event_status datetime_of
first_published py [] = none
first_published py (fs ∷ rest) =
    let later = first_published py rest in
    let date = datetime_of py (
      pick fs
        ("date" ∷ "eventDate" ∷ "changeDate" ∷ "createdDate" ∷ "createdAt" ∷ "dateTime" ∷ [])) in
    if contains "PUBLISH" (event_status py fs)
    then elim date [ none ↦ later | some t ↦ some t ]
    else later

unfoldable pub history_of : Json → List Fields
history_of (object fs) = items (object fs)
history_of (array xs) = dicts xs
history_of _ = []

-- `_published_at`
unfoldable pub published_at : Python → Fields → Option ℕ
unfolding datetime_of first_published history_of
published_at py fs =
    let history = first_published py (history_of (get fs "timeHistory")) in
    elim (datetime_of py
      (pick fs ("publishDate" ∷ "publishedDate" ∷ "publicationDate" ∷ "datePublished" ∷ []))) [
        | none ↦ history
        | some t ↦ some t
      ]

-- The dictionaries of `for item in value or []`: the keys of a dictionary and the characters of a
-- text are no dictionaries, and other values have no items.
unfoldable pub looped : Json → Result (List Fields)
looped (array xs) = ok (dicts xs)
looped (object fs) = ok []
looped (text t) = ok []
looped v = if truthy v then raised (plain_error "TypeError") else ok []

-- `label` of `_goods_description`
unfoldable pub attribute_label : Language → Json → Json
attribute_label language (object fs) =
    pick fs (language_name language ∷ ("name" +++ suffix language) ∷ [])
attribute_label language _ = null

unfoldable pub goods_parts : Python → Language → List Fields → List String
unfolding attribute_label
goods_parts py language [] = []
goods_parts py language (fs ∷ rest) =
    let others = goods_parts py language rest in
    let value = pick fs (("name" +++ suffix language) ∷ "name" ∷ []) in
    let label = attribute_label language (get fs "attribute") in
    if truthy value
    then (if truthy label then py.str_of label +++ ": " +++ py.str_of value else py.str_of value)
      ∷ others
    else others

-- `… or None`
abbrev pub non_empty : String → Option String
non_empty s = if str_eq s "" then none else some s

unfoldable pub goods_description : Python → Language → Fields → Result (Option String)
unfolding looped goods_parts
goods_description py language fs = looped (get fs "goodsAttributeList") >>= λ entries.
    ok (non_empty (join "; " (goods_parts py language entries)))

-- One entry of the payment conditions; a later one wins.
unfoldable pub with_condition : Python → PaymentTerms → Fields → PaymentTerms
unfolding decimal_of
with_condition py terms fs =
    let kind = py.str_of (get fs "paymentType") in
    let value = decimal_of py (get fs "value") in
    if str_eq kind "PREPAY"
    then record terms { prepayment_percent = value }
    else if str_eq kind "INTERIM_PAYMENT"
    then record terms { interim_percent = value }
    else if str_eq kind "FINAL_PAYMENT"
    then record terms { final_percent = value }
    else terms

unfoldable pub with_conditions : Python → PaymentTerms → List Fields → PaymentTerms
unfolding with_condition
with_conditions py terms [] = terms
with_conditions py terms (fs ∷ rest) = with_conditions py (with_condition py terms fs) rest

-- `_payment_terms`
unfoldable pub payment_terms : Python → Fields → Result PaymentTerms
unfolding decimal_of looped with_conditions text_field
payment_terms py fs = do
  entries ← looped (get fs "paymentConditionList")
  raw ← text_field (pick fs ("paymentTerms" ∷ "paymentCondition" ∷ []))
  ok
      (record (with_conditions py
        (record {
          prepayment_percent =
              decimal_of py
                (pick fs ("prepaymentPercent" ∷ "advancePaymentPercent" ∷ "prepayment" ∷ []));
          interim_percent =
              decimal_of py (
                pick fs
                  ("interimPaymentPercent" ∷ "partialPaymentPercent" ∷ "interimPayment" ∷ []));
          final_percent =
              decimal_of py
                (pick fs ("finalPaymentPercent" ∷ "finalPercent" ∷ "finalPayment" ∷ []));
          raw_text = none;
        })
        entries) { raw_text = raw })
