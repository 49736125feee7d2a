-- ===== src/Sources/NoticeLots.antt =====
-- `_attach_notice_lots`, `_catalog_total` and `_ensure_success` of
-- infrastructure/sources/zakup_sk/adapter.py: the lots of a notice, page by page. The responses are a
-- function of the page; a round of the loop takes one unit of fuel.
pub mod Lots
pub mod Gathered
pub mod Ends
pub mod Bounds
use Prim.Native.String
use govpars.Prelude.{
  ℕ, zero, suc, ◌+◌, String, Bool, true, false, not, ◌&&◌, Option, none, some, List, [], ◌∷◌, ◌++◌,
  map, str_eq, ltb, leb, ◌==◌, if◌then◌else◌, length, take, drop, any, filter,
}
use govpars.Prelude.Int.{ℤ, pos, leb_ℤ}
use govpars.Domain.Errors.{Result, ok, raised, retriable, plain_error, ◌>>=◌}
use govpars.Domain.Models.{
  EntityIdentity, EntityRelation, DiscoveredEntity, ExtractedBatch, entity_type_eq, lot,
}
use govpars.Sources.Strategies.{is_blocked_status}
use govpars.Sources.Json.{
  Json, boolean, integer, text, object, Fields, no_fields, field, Python, get,
}
use govpars.Sources.ZakupParser.{attach_notice_lots, ◌+++◌}

pub record PageResponse : Type 0 where
  pub status : ℕ
  pub strategy : String
  pub payload : Json

unfoldable pub ensure_success : Python → PageResponse → Result (Unit {0})
ensure_success py r =
    let status = py.str_of (integer (pos r.status)) in
    if is_blocked_status r.status
    then raised (
        retriable (record {
          message = "Zakup blocked request with HTTP " +++ status +++ " via " +++ r.strategy;
          delay_seconds = 600;
          strategy = r.strategy;
          http_status = some r.status;
        }))
    else if leb 400 r.status
    then raised (plain_error ("Zakup HTTP " +++ status +++ " via " +++ r.strategy))
    else ok tt

-- A number, or a text of digits; `True` and `False` are numbers.
unfoldable pub total_in : Python → Json → Option ℤ
total_in py (integer n) = some n
total_in py (boolean b) = some (pos (if b then 1 else 0))
total_in py (text t) = elim (py.int_of_digits t) [ none ↦ none | some n ↦ some (pos n) ]
total_in py _ = none

unfoldable pub first_total : Python → Fields → List String → Option ℤ
unfolding total_in
first_total py fs [] = none
first_total py fs (key ∷ keys) =
    let rest = first_total py fs keys in
    elim (total_in py (get fs key)) [ none ↦ rest | some n ↦ some n ]

-- `_catalog_total`: the keys of a dictionary, and then its values in turn
unfoldable mutual
  pub catalog_total : Python → Json → Option ℤ
  catalog_total py (object fs) =
      elim (first_total py fs ("totalElements" ∷ "totalCount" ∷ "total" ∷ [])) [
        | none ↦ values_total py fs
        | some n ↦ some n
      ]
  catalog_total py _ = none

  pub values_total : Python → Fields → Option ℤ
  values_total py no_fields = none
  values_total py (field k v fs) =
      let rest = values_total py fs in elim (catalog_total py v) [ none ↦ rest | some n ↦ some n ]

abbrev pub is_in : List String → String → Bool
is_in ids id = any (λ i. str_eq i id) ids

-- `page_ids`, with its repetitions
unfoldable pub lot_ids : List DiscoveredEntity → List String
lot_ids items =
    map (λ d. d.identity.source_entity_id)
      (filter (λ d. entity_type_eq d.identity.entity_type lot) items)

-- `seen_lot_ids.update(new_ids)`: a set, as a list without repetitions
unfoldable pub add_ids : List String → List String → List String
add_ids seen [] = seen
add_ids seen (id ∷ ids) = add_ids (if is_in seen id then seen else seen ++ id ∷ []) ids

-- The items of the page without those whose id an earlier page had.
unfoldable pub without_duplicates : List String → ℕ → ℕ → ExtractedBatch → ExtractedBatch
without_duplicates seen discovered_before relations_before batch =
    let page_ids = lot_ids (drop discovered_before batch.discovered) in
    if any (is_in seen) page_ids
    then record batch {
      discovered =
          take discovered_before batch.discovered
          ++ filter
              (λ d. not (
                is_in page_ids d.identity.source_entity_id
                && is_in seen d.identity.source_entity_id))
              (drop discovered_before batch.discovered);
      relations =
          take relations_before batch.relations
          ++ filter
              (λ r.
                not
                  (is_in page_ids r.child.source_entity_id && is_in seen r.child.source_entity_id))
              (drop relations_before batch.relations);
    }
    else batch

abbrev pub reaches : Option ℤ → ℕ → Bool
reaches none n = false
reaches (some total) n = leb_ℤ total (pos n)

abbrev is_missing : Option ℤ → Bool
is_missing none = true
is_missing (some total) = false

-- Whether the loop returns after a page: the total, the number of items of the page, whether one of
-- them is new, and the number of lots seen.
unfoldable pub is_last_page : Option ℤ → ℕ → Bool → ℕ → Result Bool
is_last_page total added has_new seen =
    if reaches total seen
    then ok true
    else if added == 0
    then raised (
        plain_error (
          if is_missing total
          then "Zakup notice lots response has no items or explicit total"
          else "Zakup notice lots pagination stopped before the reported total"))
    else if not has_new
    then raised (plain_error "Zakup notice lots pagination repeated the same page")
    else ok (is_missing total && ltb added 1000)

-- What a page leaves: whether it is the last, the batch and the ids seen.
pub record LotsPage : Type 0 where
  pub is_last : Bool
  pub batch : ExtractedBatch
  pub seen : List String

-- `batch.discovered[discovered_before:]`
abbrev pub added_items : ExtractedBatch → ExtractedBatch → List DiscoveredEntity
added_items batch attached = drop (length batch.discovered) attached.discovered

-- Its end, and what it leaves; `attached` is the batch after `attach_notice_lots`.
unfoldable pub page_end :
    Python → ExtractedBatch → List String → ExtractedBatch → Json → Result Bool
unfolding is_last_page lot_ids add_ids
page_end py batch seen attached payload =
    let page_ids = lot_ids (added_items batch attached) in
    is_last_page (catalog_total py payload) (length (added_items batch attached))
      (any (λ id. not (is_in seen id)) page_ids) (length (add_ids seen page_ids))

unfoldable pub page_left : ExtractedBatch → List String → ExtractedBatch → Bool → LotsPage
unfolding without_duplicates lot_ids add_ids
page_left batch seen attached last = record {
  is_last = last;
  batch = without_duplicates seen (length batch.discovered) (length batch.relations) attached;
  seen = add_ids seen (lot_ids (added_items batch attached));
}

unfoldable pub read_page :
    Python → ℕ → EntityIdentity → ExtractedBatch → List String → PageResponse → Result LotsPage
unfolding ensure_success page_end page_left
read_page py now notice batch seen r = ensure_success py r >>= λ _.
    (let attached = attach_notice_lots py now batch notice r.payload in
      page_end py batch seen attached r.payload >>= λ last. ok (page_left batch seen attached last))

-- The loop from a page on; `none` where the fuel does not suffice.
unfoldable pub read_pages :
    ℕ
    → Python
    → ℕ
    → (ℕ → Result PageResponse)
    → EntityIdentity
    → ExtractedBatch
    → List String
    → ℕ
    → Option (Result LotsPage)
unfolding read_page
read_pages zero py now respond notice batch seen page = none
read_pages (suc fuel) py now respond notice batch seen page =
    elim (respond page >>= read_page py now notice batch seen) [
      | raised e ↦ some (raised e)
      | ok p ↦ elim p.is_last [
        | true ↦ some (ok p)
        | false ↦ read_pages fuel py now respond notice p.batch p.seen (page + 1)
      ]
    ]
