-- ===== src/Persistence/EntityTables.antt =====
-- The tables of schema.py in which infrastructure/persistence/postgres/repositories.py keeps the
-- entities, as lists of rows, and the values that it stores for an entity.
use govpars.Prelude.{ℕ, String, Option, List}
use govpars.Domain.Models.{
  EntityType, RelationType, Payload, Organization, ProcurementEntity, DeliveryPlace, PaymentTerms,
  DocumentMetadata,
}
use govpars.Persistence.Tables.{Database}

-- `ProcurementColumns`: the columns of the tables lots, procurement_notices and plan_items.
pub record ProcurementColumns : Type 0 where
  pub title_ru : Option String
  pub title_kk : Option String
  pub description_ru : Option String
  pub description_kk : Option String
  pub additional_characteristics_ru : Option String
  pub additional_characteristics_kk : Option String
  pub status : Option String
  pub procurement_method : Option String
  pub tru_code : Option String
  pub oktru_code : Option String
  pub oktru_category_ru : Option String
  pub oktru_category_kk : Option String
  pub plan_row_number : Option String
  pub priority : Option String
  pub procurement_year : Option ℕ
  pub procurement_month : Option String
  pub plan_item_type : Option String
  pub quantity : Option String
  pub unit : Option String
  pub unit_price : Option String
  pub total_amount : Option String
  pub currency : Option String
  pub published_at : Option ℕ
  pub application_start_at : Option ℕ
  pub application_end_at : Option ℕ
  pub delivery_terms_ru : Option String
  pub delivery_terms_kk : Option String
  pub delivery_conditions_ru : Option String
  pub delivery_conditions_kk : Option String
  pub venue_ru : Option String
  pub venue_kk : Option String
  pub contact_email : Option String
  pub contact_phone : Option String
  pub contact_extension : Option String

-- `OrganizationRow`, which has the fields of an organization, and the three tables above.
pub data ContentColumns : Type 0 where
  organization_columns : Organization → ContentColumns
  procurement_columns : ProcurementColumns → ContentColumns

-- A row of the table that `_table_for` gives for `table`; the columns that all four have stand here.
pub record ContentRow : Type 0 where
  pub table : EntityType
  pub source_entity_fk : ℕ
  pub columns : ContentColumns
  pub source_payload : Payload
  pub content_hash : String
  pub fetched_at : ℕ

pub record EntityRevisionRow : Type 0 where
  pub source_entity_fk : ℕ
  pub content_hash : String
  pub payload : ContentRow

pub record DeliveryPlaceRow : Type 0 where
  pub owner_source_entity_fk : ℕ
  pub place : DeliveryPlace

pub record DocumentMetadataRow : Type 0 where
  pub owner_source_entity_fk : ℕ
  pub identity_key : String
  pub extension : Option String
  pub document : DocumentMetadata

pub record PaymentTermsRow : Type 0 where
  pub owner_source_entity_fk : ℕ
  pub terms : PaymentTerms

pub record EntityRelationRow : Type 0 where
  pub relation_type : RelationType
  pub parent_source_entity_fk : ℕ
  pub child_source_entity_fk : ℕ
  pub source_payload : Payload
  pub last_seen_at : ℕ

-- What one session sees.
pub record EntityStore : Type 0 where
  pub database : Database
  pub contents : List ContentRow
  pub revisions : List EntityRevisionRow
  pub delivery_places : List DeliveryPlaceRow
  pub documents : List DocumentMetadataRow
  pub payment_terms : List PaymentTermsRow
  pub relations : List EntityRelationRow

-- `_procurement_values`
unfoldable pub procurement_values : ProcurementEntity → ProcurementColumns
procurement_values entity = record {
  title_ru = entity.title_ru;
  title_kk = entity.title_kk;
  description_ru = entity.description_ru;
  description_kk = entity.description_kk;
  additional_characteristics_ru = entity.additional_characteristics_ru;
  additional_characteristics_kk = entity.additional_characteristics_kk;
  status = entity.status;
  procurement_method = entity.procurement_method;
  tru_code = entity.tru_code;
  oktru_code = entity.oktru_code;
  oktru_category_ru = entity.oktru_category_ru;
  oktru_category_kk = entity.oktru_category_kk;
  plan_row_number = entity.plan_row_number;
  priority = entity.priority;
  procurement_year = entity.procurement_year;
  procurement_month = entity.procurement_month;
  plan_item_type = entity.plan_item_type;
  quantity = entity.quantity;
  unit = entity.unit;
  unit_price = entity.unit_price;
  total_amount = entity.total_amount;
  currency = entity.currency;
  published_at = entity.published_at;
  application_start_at = entity.application_start_at;
  application_end_at = entity.application_end_at;
  delivery_terms_ru = entity.delivery_terms_ru;
  delivery_terms_kk = entity.delivery_terms_kk;
  delivery_conditions_ru = entity.delivery_conditions_ru;
  delivery_conditions_kk = entity.delivery_conditions_kk;
  venue_ru = entity.venue_ru;
  venue_kk = entity.venue_kk;
  contact_email = entity.contact_email;
  contact_phone = entity.contact_phone;
  contact_extension = entity.contact_extension;
}
