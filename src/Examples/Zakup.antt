-- ===== src/Examples/Zakup.antt =====
-- Small payloads for src/procurement_parser/infrastructure/sources/zakup_sk/parser.py and adapter.py.
use govpars.Sources.Strategies.{is_blocked_status}
use govpars.Sources.ZakupDelivery.{delivery_places}
use govpars.Sources.ZakupFields.{payment_terms, goods_description, text_field_or, text_of}
use govpars.Sources.ZakupProcurement.{procurement_of}
use govpars.Sources.ZakupParser.{source_id, attach_notice_lots, or_text, identity}
use govpars.Prelude.{
  ℕ, zero, suc, String, ◌≡◌, refl, subst, true, false, Option, none, some, List, [], ◌∷◌, arith,
  length, all,
}
use govpars.Prelude.Int.{pos}
use govpars.Domain.Errors.{Result, ok, raised}
use govpars.Domain.Models.{
  zakup_sk, lot, notice, EntityIdentity, EntityFields, ExtractedBatch, FrontierTask, Payload,
  stable_key,
}
use govpars.Pipeline.Batch.{validate_extracted_batch}
use govpars.Sources.Json.{
  first_found, items, dicts, get, walk_fields, pick, truthy, Json, integer, text, array, object,
  no_items, item, Fields, no_fields, field, Python,
}
use govpars.Sources.ZakupDocuments.{organization_of, documents, chosen_documents}
use govpars.Sources.ZakupDocuments.Distinct.{has_repeats, keys_of, is_covered, documents_lem}
use govpars.Sources.ZakupDetail.{parse_detail}
use govpars.Sources.ZakupDetail.Contract.{parse_detail-validated}
use govpars.Sources.ZakupAdapter.{Site, extract, extract_detail, with_lots}
use govpars.Sources.ZakupAdapter.Contract.{extract-validated}
use govpars.Sources.NoticeLots.{
  first_total, PageResponse, LotsPage, ensure_success, catalog_total, reaches, read_pages,
}
use govpars.Sources.NoticeLots.Ends.{HasGathered, read_pages_complete}
use govpars.Sources.NoticeLots.Bounds.{read_pages-ends}

abbrev str_of : Json → String
str_of (text t) = t
str_of _ = "1"

abbrev py : Python
py = record {
  str_of = str_of;
  lower = λ s. s;
  upper = λ s. s;
  strip = λ s. s;
  decimal = λ s. some s;
  from_iso_format = λ s. none;
  dumps = str_of;
  guess_type = λ s. none;
  int_of_digits = λ s. none;
}

abbrev digest : EntityIdentity → EntityFields → Payload → String
digest i fields payload = i.source_entity_id

abbrev the_customer : Json
the_customer = object (field "id" (text "9") (field "nameRu" (text "Customer") no_fields))

abbrev other_fields : Fields
other_fields = field "nameRu" (text "Paper") (
    field "customer" the_customer
      (field "organizer" the_customer (field "advertId" (text "5") no_fields)))

abbrev empty_batch : ExtractedBatch
empty_batch = record { entities = []; relations = []; discovered = [] }

abbrev batch_or : Result ExtractedBatch → ExtractedBatch
batch_or (ok b) = b
batch_or (raised e) = empty_batch

abbrev parsed : Result ExtractedBatch
parsed = parse_detail py digest 100 (field "id" (text "71") other_fields) lot "71"

parsed_ok : parsed ≡ ok (batch_or parsed)
unfolding parse_detail identity pick organization_of procurement_of payment_terms truthy
    text_field_or goods_description text_of delivery_places documents walk_fields
parsed_ok = refl

abbrev lot_task : FrontierTask
lot_task = record {
  id = 1;
  identity = record {
    source = zakup_sk;
    entity_type = lot;
    source_entity_id = "71";
    business_number = none;
    canonical_url = "";
  };
  task_type = "detail";
  priority = pos 0;
  attempt = 1;
  payload = [];
}

-- The lot and its customer, which is also the organizer, with three relations.
two_entities : (length (batch_or parsed).entities ≡ 2) × (length (batch_or parsed).relations ≡ 3)
unfolding stable_key parse_detail identity pick organization_of procurement_of payment_terms truthy
    text_field_or goods_description text_of delivery_places documents walk_fields
two_entities = (refl, refl)

parse_detail-validated_example : validate_extracted_batch (batch_or parsed) lot_task ≡ ok tt
unfolding or_text source_id pick
parse_detail-validated_example =
    parse_detail-validated py digest 100 "id" (text "71") other_fields lot "71" (batch_or parsed)
      lot_task parsed_ok refl refl refl refl

abbrev a_site : Site
a_site = record {
  base_url = "https://zakup.sk.kz";
  endpoints = record { lots = "/lots"; adverts = "/adverts"; plan_items = "/plans" };
  respond = λ path. ok (record {
    status = 200;
    strategy = "api";
    payload = object (field "id" (text "71") other_fields);
  });
  respond_page =
      λ path page. ok (record { status = 200; strategy = "api"; payload = array no_items });
}

extracted_ok : extract 1 py digest 100 a_site lot_task.identity ≡ some (ok (batch_or parsed))
unfolding extract extract_detail with_lots is_blocked_status parse_detail identity pick
    organization_of procurement_of payment_terms truthy ensure_success text_field_or
    goods_description text_of delivery_places documents walk_fields
extracted_ok = refl

extract-validated_example : validate_extracted_batch (batch_or parsed) lot_task ≡ ok tt
unfolding or_text source_id pick
extract-validated_example =
    extract-validated 1 py digest 100 a_site "71" none ""
      (record {
        status = 200;
        strategy = "api";
        payload = object (field "id" (text "71") other_fields);
      })
      "id" (text "71") other_fields (batch_or parsed) lot_task extracted_ok refl refl refl refl

abbrev lot_item : String → Json
lot_item id = object (field "id" (text id) no_fields)

abbrev page_of : String → String → PageResponse
page_of a b = record {
  status = 200;
  strategy = "api";
  payload = object (
      field "content" (array (item (lot_item a) (item (lot_item b) no_items)))
        (field "totalElements" (integer (pos 3)) no_fields));
}

abbrev respond : ℕ → Result PageResponse
respond zero = ok (page_of "71" "72")
respond (suc page) = ok (page_of "72" "73")

abbrev the_notice : EntityIdentity
the_notice = record {
  source = zakup_sk;
  entity_type = notice;
  source_entity_id = "5";
  business_number = none;
  canonical_url = "";
}

abbrev last_or : Option (Result LotsPage) → LotsPage
last_or (some (ok p)) = p
last_or _ = record { is_last = false; batch = empty_batch; seen = [] }

abbrev read : Option (Result LotsPage)
read = read_pages 4 py 100 respond the_notice empty_batch [] 0

read_ok : read ≡ some (ok (last_or read))
unfolding read_pages is_blocked_status catalog_total first_total get attach_notice_lots items
    first_found dicts pick
read_ok = refl

three_lots : (last_or read).seen ≡ ("71" ∷ "72" ∷ "73" ∷ [])
unfolding read_pages is_blocked_status catalog_total first_total get attach_notice_lots items
    first_found dicts pick
three_lots = refl

read_pages_complete_example : HasGathered py 100 the_notice empty_batch respond (last_or read)
read_pages_complete_example =
    read_pages_complete py 100 4 respond the_notice empty_batch (last_or read) read_ok

reports_three :
    (page : ℕ) (r : PageResponse)
    → respond page ≡ ok r
    → reaches (catalog_total py r.payload) 3 ≡ true
unfolding catalog_total first_total get
reports_three zero r e =
    let q : page_of "71" "72" ≡ r = ground (arith, e) in
    subst (λ z. reaches (catalog_total py z.payload) 3 ≡ true) q refl
reports_three (suc page) r e =
    let q : page_of "72" "73" ≡ r = ground (arith, e) in
    subst (λ z. reaches (catalog_total py z.payload) 3 ≡ true) q refl

read_pages-ends_example :
    (res : Result LotsPage) × (read_pages 4 py 100 respond the_notice empty_batch [] 0 ≡ some res)
read_pages-ends_example = read_pages-ends py 100 3 respond the_notice empty_batch reports_three

abbrev file : String → String → Fields
file uid name =
    field "uid" (text uid) (field "name" (text name) (field "size" (text "9") no_fields))

abbrev files : List Fields
files = file "a" "x.pdf" ∷ file "b" "x.pdf" ∷ file "a" "y.pdf" ∷ other_fields ∷ []

documents_lem_example :
    (has_repeats (keys_of py (chosen_documents py [] files)) ≡ false)
    × (all (is_covered py [] (keys_of py (chosen_documents py [] files))) files ≡ true)
documents_lem_example = documents_lem py files
