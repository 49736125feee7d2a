-- ===== src/Sources/ZakupAdapter/Contract.antt =====
-- The batch that `extract` of infrastructure/sources/zakup_sk/adapter.py gives for a lot.
use govpars.Prelude.{ℕ, String, ◌≡◌, refl, sym, ap, ◌∙◌, subst, inl, inr, Option, some, arith}
use govpars.Domain.Errors.{Result, ok, ◌>>=◌, >>=-ok, Result-cases}
use govpars.Domain.Models.{
  zakup_sk, lot, EntityIdentity, EntityFields, Payload, ExtractedBatch, FrontierTask,
}
use govpars.Pipeline.Batch.{validate_extracted_batch}
use govpars.Sources.Json.{Json, object, Fields, field, Python}
use govpars.Sources.ZakupParser.{◌+++◌, or_text, source_id}
use govpars.Sources.ZakupDetail.{parse_detail}
use govpars.Sources.ZakupDetail.Contract.{parse_detail-validated}
use govpars.Sources.NoticeLots.{PageResponse, ensure_success}
use govpars.Sources.ZakupAdapter.{
  Site, endpoint, payload_fields, extract_detail, with_lots, extract,
}

abbrev pub lot_identity : String → Option String → String → EntityIdentity
lot_identity id number url = record {
  source = zakup_sk;
  entity_type = lot;
  source_entity_id = id;
  business_number = number;
  canonical_url = url;
}

abbrev pub detail_path : Site → String → String
detail_path site id = site.base_url +++ site.endpoints.lots +++ "/" +++ id

module _ (py : Python) (digest : EntityIdentity → EntityFields → Payload → String) (now : ℕ)
    (site : Site) (id : String) (number : Option String) (url : String) (r : PageResponse) where
  extract_detail-parsed :
      (batch : ExtractedBatch)
      → site.respond (detail_path site id) ≡ ok r
      → extract_detail py digest now site (lot_identity id number url) ≡ ok batch
      → parse_detail py digest now (payload_fields r.payload) lot id ≡ ok batch
  unfolding extract_detail endpoint
  extract_detail-parsed batch answer h =
      let checked : (ensure_success py r >>= λ _.
      parse_detail py digest now (payload_fields r.payload) lot id)
          ≡ ok batch =
        subst
          (λ (m : Result PageResponse).
            (m >>= λ a. ensure_success py a >>= λ _.
            parse_detail py digest now (payload_fields a.payload) lot id)
            ≡ ok batch)
          answer h in
      (>>=-ok (ensure_success py r)
        (λ _. parse_detail py digest now (payload_fields r.payload) lot id) batch checked).2

  extract-parsed :
      (fuel : ℕ) (batch : ExtractedBatch)
      → extract fuel py digest now site (lot_identity id number url) ≡ some (ok batch)
      → extract_detail py digest now site (lot_identity id number url) ≡ ok batch
  unfolding extract with_lots
  extract-parsed fuel batch h =
      elim (Result-cases (extract_detail py digest now site (lot_identity id number url))) [
        | inl (b, e) ↦ ground (arith, h, e)
        | inr (x, e) ↦ absurd (ground (arith, h, e))
      ]

-- The batch that `extract` gives for a lot passes the validation of a task with that identity, if the
-- site answers with an object that has some entry and that gives the id of the lot or none.
pub extract-validated :
    (fuel : ℕ) (py : Python) (digest : EntityIdentity → EntityFields → Payload → String) (now : ℕ)
    (site : Site) (id : String) (number : Option String) (url : String) (r : PageResponse)
    (k : String) (v : Json) (fs : Fields) (batch : ExtractedBatch) (task : FrontierTask)
    → extract fuel py digest now site (lot_identity id number url) ≡ some (ok batch)
    → site.respond (detail_path site id) ≡ ok r
    → r.payload ≡ object (field k v fs)
    → or_text (source_id py (field k v fs) lot) (some id) ≡ some id
    → task.identity ≡ lot_identity id number url
    → validate_extracted_batch batch task ≡ ok tt
unfolding payload_fields
extract-validated fuel py digest now site id number url r k v fs batch task h answer payload own
      same =
    let parsed =
      extract_detail-parsed py digest now site id number url r batch answer
        (extract-parsed py digest now site id number url r fuel batch h) in
    parse_detail-validated py digest now k v fs lot id batch task
      (subst (λ p. parse_detail py digest now (payload_fields p) lot id ≡ ok batch) payload parsed)
      refl (ap (λ (i : EntityIdentity). i.source) same)
      (ap (λ (i : EntityIdentity). i.entity_type) same)
      (own ∙ ap some (sym (ap (λ (i : EntityIdentity). i.source_entity_id) same)))
