-- ===== src/Examples/Records.antt =====
-- Records with no optional field set, for src/procurement_parser/domain/models.py.
use govpars.Prelude.{none, []}
use govpars.Domain.Models.{ProcurementEntity, EntityFields, procurement_fields}

abbrev no_values : ProcurementEntity
no_values = record {
  title_ru = none;
  title_kk = none;
  description_ru = none;
  description_kk = none;
  additional_characteristics_ru = none;
  additional_characteristics_kk = none;
  status = none;
  procurement_method = none;
  tru_code = none;
  oktru_code = none;
  oktru_category_ru = none;
  oktru_category_kk = none;
  plan_row_number = none;
  priority = none;
  procurement_year = none;
  procurement_month = none;
  plan_item_type = none;
  quantity = none;
  unit = none;
  unit_price = none;
  total_amount = none;
  currency = none;
  published_at = none;
  application_start_at = none;
  application_end_at = none;
  delivery_terms_ru = none;
  delivery_terms_kk = none;
  delivery_conditions_ru = none;
  delivery_conditions_kk = none;
  venue_ru = none;
  venue_kk = none;
  contact_email = none;
  contact_phone = none;
  contact_extension = none;
  customer_identity = none;
  organizer_identity = none;
  delivery_places = [];
  payment_terms = none;
  documents = [];
}

abbrev pub no_fields : EntityFields
no_fields = procurement_fields no_values
