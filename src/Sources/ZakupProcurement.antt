-- ===== src/Sources/ZakupProcurement.antt =====
-- The `ProcurementEntity` that `parse_detail` of infrastructure/sources/zakup_sk/parser.py constructs.
use govpars.Prelude.{Option, none, some, [], ◌∷◌, if◌then◌else◌}
use govpars.Domain.Errors.{Result, ok, ◌>>=◌}
use govpars.Domain.Models.{EntityIdentity, ProcurementEntity}
use govpars.Sources.Json.{Fields, Python, get, pick}
use govpars.Sources.ZakupFields.{
  ru, kk, text_of, text_field, text_field_or, str_of_truthy, decimal_of, datetime_of, is_missing,
  published_at, goods_description, payment_terms,
}
use govpars.Sources.ZakupDelivery.{delivery_schedule, delivery_places}
use govpars.Sources.ZakupDocuments.{documents, FoundOrganization}

abbrev identity_of : Option FoundOrganization → Option EntityIdentity
identity_of none = none
identity_of (some o) = some o.identity

-- The construction of the `ProcurementEntity`.
unfoldable pub procurement_of :
    Python → Fields → Option FoundOrganization → Option FoundOrganization → Result ProcurementEntity
procurement_of py fs customer_found organizer_found = do
  payment ← payment_terms py fs
  title_ru ← text_field (pick fs ("nameRu" ∷ "name" ∷ "titleRu" ∷ "lotNameRu" ∷ []))
  title_kk ← text_field (pick fs ("nameKk" ∷ "titleKk" ∷ "lotNameKk" ∷ []))
  description_ru ←
      text_field_or (pick fs ("descriptionRu" ∷ "briefDescriptionRu" ∷ "characteristicRu" ∷ []))
        (goods_description py ru fs)
  description_kk ←
      text_field_or (pick fs ("descriptionKk" ∷ "briefDescriptionKk" ∷ "characteristicKk" ∷ []))
        (goods_description py kk fs)
  additional_ru ← text_field_or (pick fs ("addAttributeRu" ∷ [])) (goods_description py ru fs)
  additional_kk ← text_field_or (pick fs ("addAttributeKk" ∷ [])) (goods_description py kk fs)
  method ←
      text_field
        (text_of py ru (pick fs ("tenderTypeNameRu" ∷ "procurementMethod" ∷ "tenderType" ∷ [])))
  tru_code ← text_field (pick fs ("truCode" ∷ "enstruCode" ∷ "codeEnstru" ∷ []))
  oktru_code ← text_field (pick fs ("oktruFullCode" ∷ []))
  oktru_ru ← text_field (pick fs ("oktruCategoryNameRu" ∷ []))
  oktru_kk ← text_field (pick fs ("oktruCategoryNameKk" ∷ []))
  plan_row ← text_field (pick fs ("lotRowNumber" ∷ []))
  plan_type ←
      text_field (text_of py ru (pick fs ("tenderSubjectType" ∷ "subjectType" ∷ "truType" ∷ [])))
  priority ← text_field (text_of py ru (pick fs ("tenderPriority" ∷ [])))
  unit ←
      text_field
        (text_of py ru (pick fs ("measureNameRu" ∷ "unitNameRu" ∷ "measure" ∷ "mkei" ∷ [])))
  currency ← text_field_or (pick fs ("currency" ∷ "currencyCode" ∷ [])) (ok (some "KZT"))
  conditions_ru ←
      text_field (
        text_of py ru (pick fs ("deliveryConditionRu" ∷ "deliveryConditionsRu" ∷ "incoterms" ∷ [])))
  conditions_kk ←
      text_field (
        text_of py kk (pick fs ("deliveryConditionKk" ∷ "deliveryConditionsKk" ∷ "incoterms" ∷ [])))
  venue_ru ← text_field (pick fs ("tenderLocationRu" ∷ "tenderLocation" ∷ []))
  venue_kk ← text_field (pick fs ("tenderLocationKk" ∷ []))
  email ← text_field (pick fs ("email" ∷ []))
  phone ← text_field (pick fs ("phone" ∷ []))
  places ← delivery_places py fs
  files ← documents py fs
  ok (record {
    title_ru = title_ru;
    title_kk = title_kk;
    description_ru = description_ru;
    description_kk = description_kk;
    additional_characteristics_ru = additional_ru;
    additional_characteristics_kk = additional_kk;
    status =
        str_of_truthy py
          (pick fs ("status" ∷ "statusName" ∷ "lotStatus" ∷ "advertStatus" ∷ "simpleStatus" ∷ []));
    procurement_method = method;
    tru_code = tru_code;
    oktru_code = oktru_code;
    oktru_category_ru = oktru_ru;
    oktru_category_kk = oktru_kk;
    plan_row_number = plan_row;
    priority = priority;
    procurement_year = none;
    procurement_month = none;
    plan_item_type = plan_type;
    quantity = decimal_of py (pick fs ("quantity" ∷ "count" ∷ []));
    unit = unit;
    unit_price = decimal_of py (pick fs ("price" ∷ "unitPrice" ∷ "priceNoNds" ∷ []));
    total_amount = decimal_of py (pick fs ("sum" ∷ "totalSum" ∷ "sumNoNds" ∷ "sumTruNoNds" ∷ []));
    currency = currency;
    published_at = published_at py fs;
    application_start_at =
        datetime_of py (pick fs ("beginDate" ∷ "beginDateTime" ∷ "acceptanceBeginDateTime" ∷ []));
    application_end_at =
        datetime_of py (pick fs ("endDate" ∷ "endDateTime" ∷ "acceptanceEndDateTime" ∷ []));
    delivery_terms_ru = delivery_schedule py ru fs;
    delivery_terms_kk = delivery_schedule py kk fs;
    delivery_conditions_ru = conditions_ru;
    delivery_conditions_kk = conditions_kk;
    venue_ru = venue_ru;
    venue_kk = venue_kk;
    contact_email = email;
    contact_phone = phone;
    contact_extension =
        if is_missing (get fs "extensionNumber")
        then none
        else some (py.str_of (get fs "extensionNumber"));
    customer_identity = identity_of customer_found;
    organizer_identity = identity_of organizer_found;
    delivery_places = places;
    payment_terms = some payment;
    documents = files;
  })
