-- ===== src/Domain/Models.antt =====
-- domain/models.py: the entities' identities, and the values that the pipeline and the queue pass.
-- A JSON object is a dictionary of serialised values; an instant is a number of seconds.
use Prim.Native.String
use Prim.Native.String.{compare, then}
use Prim.Native.Nat.{Ordering}
use govpars.Prelude.{ℕ, String, Bool, true, false, ◌&&◌, Option, List, str_eq}
use govpars.Prelude.Int.{ℤ}

pub data Source : Type 0 where
  eep_mitwork zakup_sk : Source

pub data EntityType : Type 0 where
  lot notice plan_item organization : EntityType

pub data RelationType : Type 0 where
  plan_to_notice plan_to_lot notice_to_lot customer organizer : RelationType

-- `value` of the two enumerations
abbrev pub source_value : Source → String
source_value eep_mitwork = "eep-mitwork"
source_value zakup_sk = "zakup-sk"

abbrev pub entity_type_value : EntityType → String
entity_type_value lot = "lot"
entity_type_value notice = "notice"
entity_type_value plan_item = "plan_item"
entity_type_value organization = "organization"

-- `==` of the two enumerations
abbrev pub source_eq : Source → Source → Bool
source_eq eep_mitwork eep_mitwork = true
source_eq zakup_sk zakup_sk = true
source_eq _ _ = false

abbrev pub entity_type_eq : EntityType → EntityType → Bool
entity_type_eq lot lot = true
entity_type_eq notice notice = true
entity_type_eq plan_item plan_item = true
entity_type_eq organization organization = true
entity_type_eq _ _ = false

pub record EntityIdentity : Type 0 where
  pub source : Source
  pub entity_type : EntityType
  pub source_entity_id : String
  pub business_number : Option String
  pub canonical_url : String

unfoldable pub stable_key : EntityIdentity → String
stable_key i = String.◌++◌ (source_value i.source) (
    String.◌++◌ ":"
      (String.◌++◌ (entity_type_value i.entity_type) (String.◌++◌ ":" i.source_entity_id)))

-- The fields that the unique constraint and `_identity_sort_key` compare.
unfoldable pub same_identity : EntityIdentity → EntityIdentity → Bool
same_identity a b =
    source_eq a.source b.source
    && (entity_type_eq a.entity_type b.entity_type && str_eq a.source_entity_id b.source_entity_id)

abbrev pub is_le : Ordering → Bool
is_le Ordering.gt = false
is_le _ = true

-- `_identity_sort_key(a)` against `_identity_sort_key(b)`: texts compare by code points, in turn
unfoldable pub identity_compare : EntityIdentity → EntityIdentity → Ordering
identity_compare a b = then (compare (source_value a.source) (source_value b.source)) (
    then (compare (entity_type_value a.entity_type) (entity_type_value b.entity_type))
      (compare a.source_entity_id b.source_entity_id))

unfoldable pub identity_le : EntityIdentity → EntityIdentity → Bool
unfolding identity_compare
identity_le a b = is_le (identity_compare a b)

abbrev pub Payload : Type 0
Payload = List (String × String)

pub record DiscoveredEntity : Type 0 where
  pub identity : EntityIdentity
  pub priority : ℤ
  pub task_type : String
  pub refresh_existing : Bool
  pub available_at : ℕ
  pub summary_payload : Payload

pub record EntityRelation : Type 0 where
  pub source : Source
  pub relation_type : RelationType
  pub parent : EntityIdentity
  pub child : EntityIdentity
  pub source_payload : Payload

pub record DeliveryPlace : Type 0 where
  pub source_row_id : Option String
  pub country : Option String
  pub address : Option String
  pub quantity : Option String
  pub incoterms : Option String
  pub source_payload : Payload

pub record PaymentTerms : Type 0 where
  pub prepayment_percent : Option String
  pub interim_percent : Option String
  pub final_percent : Option String
  pub raw_text : Option String

pub record DocumentMetadata : Type 0 where
  pub source_document_id : Option String
  pub category : Option String
  pub filename : Option String
  pub url : Option String
  pub size_bytes : Option ℕ
  pub uploaded_at : Option ℕ
  pub document_hash : Option String
  pub declared_content_type : Option String
  pub inferred_content_type : Option String
  pub response_content_type : Option String
  pub source_payload : Payload

pub record Organization : Type 0 where
  pub name_ru : Option String
  pub name_kk : Option String
  pub bin : Option String
  pub address : Option String
  pub phone : Option String
  pub email : Option String

pub record ProcurementEntity : Type 0 where
  pub title_ru : Option String
  pub title_kk : Option String
  pub description_ru : Option String
  pub description_kk : Option String
  pub additional_characteristics_ru : Option String
  pub additional_characteristics_kk : Option String
  pub status : Option String
  pub procurement_method : Option String
  pub tru_code : Option String
  pub oktru_code : Option String
  pub oktru_category_ru : Option String
  pub oktru_category_kk : Option String
  pub plan_row_number : Option String
  pub priority : Option String
  pub procurement_year : Option ℕ
  pub procurement_month : Option String
  pub plan_item_type : Option String
  pub quantity : Option String
  pub unit : Option String
  pub unit_price : Option String
  pub total_amount : Option String
  pub currency : Option String
  pub published_at : Option ℕ
  pub application_start_at : Option ℕ
  pub application_end_at : Option ℕ
  pub delivery_terms_ru : Option String
  pub delivery_terms_kk : Option String
  pub delivery_conditions_ru : Option String
  pub delivery_conditions_kk : Option String
  pub venue_ru : Option String
  pub venue_kk : Option String
  pub contact_email : Option String
  pub contact_phone : Option String
  pub contact_extension : Option String
  pub customer_identity : Option EntityIdentity
  pub organizer_identity : Option EntityIdentity
  pub delivery_places : List DeliveryPlace
  pub payment_terms : Option PaymentTerms
  pub documents : List DocumentMetadata

-- The class of an entity with its own fields.
pub data EntityFields : Type 0 where
  organization_fields : Organization → EntityFields
  procurement_fields : ProcurementEntity → EntityFields

-- An entity and its envelope; what the two classes of entities have in common stands beside the
-- other fields. A decimal is the text of its JSON value.
pub record EntityEnvelope : Type 0 where
  pub identity : EntityIdentity
  pub fields : EntityFields
  pub source_payload : Payload
  pub fetched_at : ℕ
  pub content_hash : String

pub record ExtractedBatch : Type 0 where
  pub entities : List EntityEnvelope
  pub relations : List EntityRelation
  pub discovered : List DiscoveredEntity

pub record FrontierTask : Type 0 where
  pub id : ℕ
  pub identity : EntityIdentity
  pub task_type : String
  pub priority : ℤ
  pub attempt : ℕ
  pub payload : Payload

pub record FrontierActivity : Type 0 where
  pub depth : ℕ
  pub ready : ℕ
  pub delayed : ℕ
  pub leased : ℕ
