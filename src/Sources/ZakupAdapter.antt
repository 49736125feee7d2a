-- ===== src/Sources/ZakupAdapter.antt =====
-- `_endpoint`, `discover` and `extract` of infrastructure/sources/zakup_sk/adapter.py. What `_request`
-- gives is a function of the path, and of the page where there is one; the other parameters and the
-- body of a request, the headers of a response and the metrics are left out.
pub mod Contract
use govpars.Prelude.{ℕ, ◌-◌, String, Option, none, some, List, []}
use govpars.Domain.Errors.{Result, ok, raised, plain_error, ◌>>=◌}
use govpars.Domain.Models.{
  EntityType, lot, notice, plan_item, organization, entity_type_value, EntityIdentity, EntityFields,
  Payload, DiscoveredEntity, ExtractedBatch,
}
use govpars.Sources.Json.{Json, object, Fields, no_fields, field, Python}
use govpars.Sources.ZakupParser.{parse_discovery, ◌+++◌}
use govpars.Sources.ZakupDetail.{parse_detail}
use govpars.Sources.NoticeLots.{PageResponse, LotsPage, ensure_success, read_pages}

pub record SourceEndpoints : Type 0 where
  pub lots : String
  pub adverts : String
  pub plan_items : String

pub record Site : Type 0 where
  pub base_url : String
  pub endpoints : SourceEndpoints
  pub respond : String → Result PageResponse
  pub respond_page : String → ℕ → Result PageResponse

unfoldable pub endpoint : SourceEndpoints → EntityType → Result String
endpoint e lot = ok e.lots
endpoint e notice = ok e.adverts
endpoint e plan_item = ok e.plan_items
endpoint e organization =
    raised (plain_error ("Unsupported Zakup entity type: " +++ entity_type_value organization))

-- `discover` of a page from 1 on.
unfoldable pub discover : Python → ℕ → Site → EntityType → ℕ → ℕ → Result (List DiscoveredEntity)
unfolding endpoint
discover py now site entity_type page priority = do
  path ← endpoint site.endpoints entity_type
  r ← site.respond_page (site.base_url +++ path +++ "/filter") (page - 1)
  _ ← ensure_success py r
  ok (parse_discovery py now r.payload entity_type priority)

-- `response.data if isinstance(response.data, dict) else {"data": response.data}`
unfoldable pub payload_fields : Json → Fields
payload_fields (object fs) = fs
payload_fields v = field "data" v no_fields

-- Up to the parsed batch.
unfoldable pub extract_detail :
    Python
    → (EntityIdentity → EntityFields → Payload → String)
    → ℕ
    → Site
    → EntityIdentity
    → Result ExtractedBatch
unfolding endpoint payload_fields
extract_detail py digest now site i = do
  path ← endpoint site.endpoints i.entity_type
  r ← site.respond (site.base_url +++ path +++ "/" +++ i.source_entity_id)
  _ ← ensure_success py r
  parse_detail py digest now (payload_fields r.payload) i.entity_type i.source_entity_id

-- `_attach_notice_lots` of the batch of a notice; the fuel is that of its pages.
unfoldable pub attach_lots :
    ℕ → Python → ℕ → Site → EntityIdentity → ExtractedBatch → Option (Result ExtractedBatch)
attach_lots fuel py now site i batch =
    elim (read_pages fuel py now
      (site.respond_page
        (site.base_url +++ site.endpoints.adverts +++ "/lots/" +++ i.source_entity_id))
      i batch [] 0) [
        | none ↦ none
        | some (raised e) ↦ some (raised e)
        | some (ok p) ↦ some (ok p.batch)
      ]

unfoldable pub with_lots :
    ℕ
    → Python
    → ℕ
    → Site
    → EntityIdentity
    → EntityType
    → ExtractedBatch
    → Option (Result ExtractedBatch)
unfolding attach_lots
with_lots fuel py now site i notice batch = attach_lots fuel py now site i batch
with_lots fuel py now site i _ batch = some (ok batch)

unfoldable pub extract :
    ℕ
    → Python
    → (EntityIdentity → EntityFields → Payload → String)
    → ℕ
    → Site
    → EntityIdentity
    → Option (Result ExtractedBatch)
unfolding extract_detail with_lots
extract fuel py digest now site i = elim (extract_detail py digest now site i) [
  | raised e ↦ some (raised e)
  | ok batch ↦ with_lots fuel py now site i i.entity_type batch
]
