-- ===== src/Sources/ZakupParser.antt =====
-- The identities and lists of infrastructure/sources/zakup_sk/parser.py: `identity`,
-- `parse_discovery`, `attach_notice_lots`, and the parts of a detail that are lists of values.
use Prim.Native.String
use govpars.Prelude.{
  ℕ, String, Bool, true, false, Option, none, some, List, [], ◌∷◌, ◌++◌, map, str_eq, if◌then◌else◌,
}
use govpars.Prelude.Int.{pos}
use govpars.Domain.Errors.{Result, ok, raised, plain_error, ◌>>=◌}
use govpars.Domain.Models.{
  zakup_sk, EntityType, lot, notice, notice_to_lot, EntityIdentity, EntityRelation,
  DiscoveredEntity, ExtractedBatch, entity_type_value,
}
use govpars.Sources.Json.{Json, null, Fields, Python, pick, items, payload_of}

infixr 60 ◌+++◌
abbrev pub ◌+++◌ : String → String → String
s +++ t = String.◌++◌ s t

abbrev pub base_url : String
base_url = "https://zakup.sk.kz"

-- `str(value) if value is not None else None`
unfoldable pub str_or_none : Python → Json → Option String
str_or_none py null = none
str_or_none py v = some (py.str_of v)

-- `a or b`, for texts
unfoldable pub or_text : Option String → Option String → Option String
or_text none b = b
or_text (some a) b = if str_eq a "" then b else some a

abbrev id_keys : EntityType → List String
id_keys lot = "id" ∷ "lotId" ∷ "lot_id" ∷ "itemId" ∷ []
id_keys _ = "id" ∷ "advertId" ∷ "advert_id" ∷ "announcementId" ∷ []

unfoldable pub source_id : Python → Fields → EntityType → Option String
unfolding str_or_none
source_id py fs entity_type = str_or_none py (pick fs (id_keys entity_type))

unfoldable pub canonical_url_of : EntityType → String → String
canonical_url_of lot id =
    base_url +++ "/#/ext(popup:item/" +++ id
    +++ "/lot)?tabs=lot&adst=PUBLISHED&lst=PUBLISHED&page=1"
canonical_url_of notice id =
    base_url +++ "/#/ext(popup:item/" +++ id +++ "/advert)?tabs=advert&tabstatus=active&page=1"
canonical_url_of entity_type id =
    base_url +++ "/#/ext?entity=" +++ entity_type_value entity_type +++ "&id=" +++ id

-- The identity under an id that is there.
unfoldable pub identity_under : Python → Fields → EntityType → String → EntityIdentity
unfolding str_or_none canonical_url_of
identity_under py fs entity_type id = record {
  source = zakup_sk;
  entity_type = entity_type;
  source_entity_id = id;
  business_number =
      str_or_none py (pick fs ("number" ∷ "lotNumber" ∷ "advertNumber" ∷ "rowNumber" ∷ "num" ∷ []));
  canonical_url = canonical_url_of entity_type id;
}

-- `if not source_id: raise ValueError(…)`
unfoldable pub required_id : EntityType → Option String → Result String
required_id entity_type none =
    raised (plain_error ("Zakup payload has no " +++ entity_type_value entity_type +++ " ID"))
required_id entity_type (some id) =
    if str_eq id ""
    then raised (plain_error ("Zakup payload has no " +++ entity_type_value entity_type +++ " ID"))
    else ok id

unfoldable pub identity : Python → Fields → EntityType → Option String → Result EntityIdentity
unfolding source_id or_text required_id identity_under
identity py fs entity_type fallback =
    required_id entity_type (or_text (source_id py fs entity_type) fallback) >>= λ id.
    ok (identity_under py fs entity_type id)

-- The items of a page whose identity does not raise, with it.
unfoldable pub identified : Python → EntityType → List Fields → List (EntityIdentity × Fields)
unfolding identity
identified py entity_type [] = []
identified py entity_type (fs ∷ rest) =
    let others = identified py entity_type rest in
    elim (identity py fs entity_type none) [ ok i ↦ (i, fs) ∷ others | raised e ↦ others ]

-- `DiscoveredEntity(…)` with its other fields at their defaults; `now` is its `available_at`.
unfoldable pub discovered_entity :
    Python → ℕ → ℕ → Bool → EntityIdentity × Fields → DiscoveredEntity
discovered_entity py now priority refresh (i, fs) = record {
  identity = i;
  priority = pos priority;
  task_type = "detail";
  refresh_existing = refresh;
  available_at = now;
  summary_payload = payload_of py.dumps fs;
}

unfoldable pub parse_discovery : Python → ℕ → Json → EntityType → ℕ → List DiscoveredEntity
unfolding identified discovered_entity
parse_discovery py now payload entity_type priority =
    map (discovered_entity py now priority true) (identified py entity_type (items payload))

unfoldable pub lot_relation : Python → EntityIdentity → EntityIdentity × Fields → EntityRelation
lot_relation py parent (i, fs) = record {
  source = zakup_sk;
  relation_type = notice_to_lot;
  parent = parent;
  child = i;
  source_payload = payload_of py.dumps fs;
}

-- `batch.discovered` and `batch.relations` after it.
unfoldable pub attach_notice_lots :
    Python → ℕ → ExtractedBatch → EntityIdentity → Json → ExtractedBatch
unfolding identified discovered_entity lot_relation
attach_notice_lots py now batch parent payload =
    let lots = identified py lot (items payload) in
    record batch {
      discovered = batch.discovered ++ map (discovered_entity py now 10 false) lots;
      relations = batch.relations ++ map (lot_relation py parent) lots;
    }
