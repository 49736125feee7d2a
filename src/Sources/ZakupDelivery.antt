-- ===== src/Sources/ZakupDelivery.antt =====
-- `_delivery_schedule` and `_delivery_places` of
-- infrastructure/sources/zakup_sk/parser.py.
use govpars.Prelude.{String, ◌&&◌, Option, none, some, List, [], ◌∷◌, map, str_eq, if◌then◌else◌}
use govpars.Domain.Errors.{Result, ok, ◌>>=◌}
use govpars.Domain.Models.{DeliveryPlace}
use govpars.Sources.Json.{
  Json, text, array, object, Fields, Python, truthy, get, get_or, pick, dicts, payload_of,
}
use govpars.Sources.ZakupParser.{◌+++◌, str_or_none}
use govpars.Sources.ZakupFields.{
  Language, ru, kk, suffix, text_of, text_field, str_of_truthy, decimal_of,
}

-- The code of the type of day, in capitals; `str(value.get("code", ""))`
unfoldable pub day_code : Python → Json → String
day_code py (object fs) = py.upper (py.str_of (get_or fs "code" (text "")))
day_code py _ = ""

abbrev lower_text : Python → Json → String
lower_text py v = if truthy v then py.lower (py.str_of v) else ""

-- The word for the days, in Russian by its code.
unfoldable pub day_word : Python → Language → Json → Json → String
unfolding day_code
day_word py ru day_type name =
    let code = day_code py day_type in
    if str_eq code "CALENDAR"
    then "календарных"
    else if str_eq code "WORKING"
    then "рабочих"
    else lower_text py name
day_word py kk day_type name = lower_text py name

abbrev spaced : String → String
spaced s = if str_eq s "" then "" else " " +++ s

abbrev days_text : Language → String → String → String
days_text ru count word =
    "С даты подписания договора в течение " +++ count +++ spaced word +++ " дней"
days_text kk count word =
    "Шартқа қол қойылған күннен бастап " +++ count +++ spaced word +++ " күн ішінде"

abbrev months_text : Language → String → String → String
months_text ru from to = "С " +++ from +++ " по " +++ to
months_text kk from to = from +++ " бастап " +++ to +++ " дейін"

abbrev until_text : Language → String → String
until_text ru to = "С даты подписания договора по (включительно) " +++ to
until_text kk to = "Шартқа қол қойылған күннен бастап " +++ to +++ " дейін (қоса алғанда)"

unfoldable pub schedule_text : Python → Language → Json → Option String
unfolding day_word text_of
schedule_text py language (object fs) =
    let count = pick fs ("count" ∷ "daysForDelivery" ∷ []) in
    let day_type = get fs "dayType" in
    let from = get fs "monthFrom" in
    let to = get fs "monthTo" in
    elim (str_or_none py count) [
      | some n ↦
          some (days_text language n (day_word py language day_type (text_of py language day_type)))
      | none ↦
          if truthy from && truthy to
          then some (months_text language (py.str_of from) (py.str_of to))
          else if truthy to
          then some (until_text language (py.str_of to))
          else none
    ]
schedule_text py language _ = none

unfoldable pub delivery_schedule : Python → Language → Fields → Option String
unfolding schedule_text
delivery_schedule py language fs =
    let direct = pick fs (
      ("deliveryTerms" +++ suffix language)
      ∷ ("deliveryDate" +++ suffix language)
      ∷ ("deliveryPeriod" +++ suffix language)
      ∷ []) in
    if truthy direct then some (py.str_of direct) else schedule_text py language (get fs "schedule")

unfoldable pub listed_place : Python → Fields → Result DeliveryPlace
unfolding text_of text_field str_of_truthy
listed_place py fs = do
  country ← text_field (text_of py ru (pick fs ("country" ∷ "countryName" ∷ [])))
  address ← text_field (text_of py ru (pick fs ("address" ∷ "place" ∷ "deliveryPlace" ∷ [])))
  incoterms ← text_field (text_of py ru (pick fs ("incoterms" ∷ "deliveryCondition" ∷ [])))
  ok (record {
    source_row_id = str_of_truthy py (pick fs ("id" ∷ "rowId" ∷ []));
    country = country;
    address = address;
    quantity = decimal_of py (pick fs ("quantity" ∷ "count" ∷ []));
    incoterms = incoterms;
    source_payload = payload_of py.dumps fs;
  })

unfoldable pub listed_places : Python → List Fields → Result (List DeliveryPlace)
unfolding listed_place
listed_places py [] = ok []
listed_places py (fs ∷ rest) = do
  place ← listed_place py fs
  places ← listed_places py rest
  ok (place ∷ places)

unfoldable pub direct_place : Python → Fields → Json → Result (List DeliveryPlace)
unfolding text_of text_field
direct_place py fs direct = do
  country ← text_field (text_of py ru (pick fs ("deliveryCountry" ∷ [])))
  address ← text_field (text_of py ru direct)
  incoterms ← text_field (text_of py ru (pick fs ("incoterms" ∷ [])))
  ok (
      record {
        source_row_id = none;
        country = country;
        address = address;
        quantity = decimal_of py (pick fs ("count" ∷ "quantity" ∷ []));
        incoterms = incoterms;
        source_payload =
            map (λ key. (key, py.dumps (get fs key)))
              ("deliveryCountry" ∷ "deliveryLocationRu" ∷ "deliveryLocationKk" ∷ "deliveryKato"
                ∷ "incoterms" ∷ []);
      }
      ∷ [])

unfoldable pub places_of : Python → Fields → Json → Result (List DeliveryPlace)
unfolding listed_places direct_place
places_of py fs (array xs) = listed_places py (dicts xs)
places_of py fs _ =
    let direct = pick fs ("deliveryLocationRu" ∷ "deliveryPlaceRu" ∷ "deliveryAddressRu" ∷ []) in
    if truthy direct then direct_place py fs direct else ok []

-- `_delivery_places`
unfoldable pub delivery_places : Python → Fields → Result (List DeliveryPlace)
unfolding places_of
delivery_places py fs =
    places_of py fs (pick fs ("deliveryPlaces" ∷ "deliveryPlaceList" ∷ "deliveryAddresses" ∷ []))
