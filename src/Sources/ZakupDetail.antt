-- ===== src/Sources/ZakupDetail.antt =====
-- `parse_detail` of infrastructure/sources/zakup_sk/parser.py. The digest of an entity is an argument.
pub mod Keys
pub mod Contract
use Prim.Native.String
use govpars.Prelude.{
  ℕ, String, false, Option, none, some, List, [], ◌∷◌, ◌++◌, str_eq, if◌then◌else◌, any,
}
use govpars.Prelude.Int.{ℤ, pos}
use govpars.Domain.Errors.{Result, ok, raised, ◌>>=◌}
use govpars.Domain.Models.{
  zakup_sk, EntityType, lot, notice, EntityIdentity, RelationType, customer, organizer,
  notice_to_lot, EntityEnvelope, EntityRelation, DiscoveredEntity, ExtractedBatch, EntityFields,
  organization_fields, procurement_fields, ProcurementEntity, Payload, stable_key,
}
use govpars.Sources.Json.{
  Json, null, object, Fields, no_fields, field, Python, truthy, get, pick, payload_of,
}
use govpars.Sources.ZakupParser.{identity, str_or_none}
use govpars.Sources.ZakupFields.{
  Language, ru, kk, text_of, text_field, text_field_or, str_of_truthy, decimal_of, datetime_of,
  is_missing, published_at, goods_description, payment_terms,
}
use govpars.Sources.ZakupProcurement.{procurement_of}
use govpars.Sources.ZakupDelivery.{delivery_schedule, delivery_places}
use govpars.Sources.ZakupDocuments.{documents, FoundOrganization, organization_of}

-- An envelope with its digest; `fetched_at` is the present.
unfoldable pub envelope_of :
    (EntityIdentity → EntityFields → Payload → String)
    → ℕ
    → EntityIdentity
    → EntityFields
    → Payload
    → EntityEnvelope
envelope_of digest now identity fields payload = record {
  identity = identity;
  fields = fields;
  source_payload = payload;
  fetched_at = now;
  content_hash = digest identity fields payload;
}

-- `for item in (customer, organizer)`: no organization twice
unfoldable pub related_entities :
    (EntityIdentity → EntityFields → Payload → String)
    → ℕ
    → List String
    → List (Option FoundOrganization)
    → List EntityEnvelope
unfolding envelope_of
related_entities digest now seen [] = []
related_entities digest now seen (none ∷ rest) = related_entities digest now seen rest
related_entities digest now seen (some o ∷ rest) =
    let known = any (λ k. str_eq k (stable_key o.identity)) seen in
    let others =
      related_entities digest now (if known then seen else stable_key o.identity ∷ seen) rest in
    if known
    then others
    else envelope_of digest now o.identity (organization_fields o.fields) o.source_payload ∷ others

unfoldable pub related_to :
    EntityIdentity → RelationType → Option FoundOrganization → List EntityRelation
related_to parent relation_type none = []
related_to parent relation_type (some o) =
    record {
      source = zakup_sk;
      relation_type = relation_type;
      parent = parent;
      child = o.identity;
      source_payload = [];
    }
    ∷ []

-- The notice of a lot, as a relation and an entity to discover.
unfoldable pub with_notice :
    Python
    → ℕ
    → EntityIdentity
    → Fields
    → EntityIdentity
    → List EntityRelation × List DiscoveredEntity
with_notice py now entity fs parent = (
  record {
    source = zakup_sk;
    relation_type = notice_to_lot;
    parent = parent;
    child = entity;
    source_payload = [];
  }
      ∷ [],
  record {
    identity = parent;
    priority = pos 10;
    task_type = "detail";
    refresh_existing = false;
    available_at = now;
    summary_payload =
        ("nameRu", py.dumps (get fs "advertNameRu"))
        ∷ ("nameKk", py.dumps (get fs "advertNameKk"))
        ∷ ("status", py.dumps (get fs "advertStatus"))
        ∷ [];
  }
      ∷ [],
)

-- `if entity_type == EntityType.LOT and (advert_id := payload.get("advertId"))`
unfoldable pub notice_of :
    Python
    → ℕ
    → EntityType
    → EntityIdentity
    → Fields
    → Result (List EntityRelation × List DiscoveredEntity)
unfolding with_notice
notice_of py now lot entity fs =
    let id = get fs "advertId" in
    if truthy id
    then (identity py
          (field "id" id (field "number" (pick fs ("advertNumber" ∷ "advertId" ∷ [])) no_fields))
          notice none
        >>= λ parent. ok (with_notice py now entity fs parent))
    else ok ([], [])
notice_of py now _ entity fs = ok ([], [])

-- The batch of an entity with its organizations and its notice.
unfoldable pub detail_batch :
    Python
    → (EntityIdentity → EntityFields → Payload → String)
    → ℕ
    → Fields
    → EntityIdentity
    → Option FoundOrganization
    → Option FoundOrganization
    → ProcurementEntity
    → List EntityRelation × List DiscoveredEntity
    → ExtractedBatch
unfolding envelope_of related_entities related_to
detail_batch py digest now fs entity customer_found organizer_found procurement notices = record {
  entities =
      envelope_of digest now entity (procurement_fields procurement) (payload_of py.dumps fs)
      ∷ related_entities digest now [] (customer_found ∷ organizer_found ∷ []);
  relations =
      related_to entity customer customer_found
      ++ (related_to entity organizer organizer_found ++ notices.0);
  discovered = notices.1;
}

unfoldable pub parse_detail :
    Python
    → (EntityIdentity → EntityFields → Payload → String)
    → ℕ
    → Fields
    → EntityType
    → String
    → Result ExtractedBatch
unfolding notice_of detail_batch
parse_detail py digest now fs entity_type source_entity_id = do
  entity ← identity py fs entity_type (some source_entity_id)
  customer_found ← organization_of py (pick fs ("customer" ∷ "customerInfo" ∷ []))
  organizer_found ← organization_of py (pick fs ("organizer" ∷ "organizerInfo" ∷ []))
  procurement ← procurement_of py fs customer_found organizer_found
  notices ← notice_of py now entity_type entity fs
  ok (detail_batch py digest now fs entity customer_found organizer_found procurement notices)
