-- ===== src/Persistence/Entities/Hashes.antt =====
-- That the content of an entity and its current hash agree under every part of `persist` of
-- infrastructure/persistence/postgres/repositories.py, and which hash is the current one.
use govpars.Prelude.{
  ℕ, String, ◌≡◌, refl, Bool, true, false, Option, none, some, List, [], ◌∷◌, arith, str_eq, eq_iff,
  ◌==◌, all, find?,
}
use govpars.Domain.Models.{EntityIdentity, EntityType, entity_type_eq, Payload}
use govpars.Persistence.Tables.{SourceEntityRow, Database}
use govpars.Persistence.Enqueue.{updated_entity, upsert_entity, ensure_source_entity}
use govpars.Persistence.EntityTables.{ContentRow, EntityStore}
use govpars.Persistence.EntityContents.{ensure, is_content, upsert_content}
use govpars.Persistence.Entities.Rows.{
  is_of, HasIds, ensured_row, find?-upsert, upsert-HasIds, find?-same,
}

-- The content found is there and has the hash.
abbrev stored : Option ContentRow → String → Bool
stored none hash = false
stored (some c) hash = str_eq c.content_hash hash

-- A current hash is the hash of the entity's stored content.
unfoldable pub agrees : List ContentRow → SourceEntityRow → Bool
agrees contents row = elim row.current_content_hash [
  | none ↦ true
  | some h ↦ elim (find? (is_content row.identity.entity_type row.id) contents) [
    | none ↦ false
    | some c ↦ str_eq c.content_hash h
  ]
]

-- The tables of the entities are sound: ids are distinct, and every current hash is that of a content.
pub record Sound (db : Database) (contents : List ContentRow) : Type 0 where
  pub ids : HasIds db.next_entity_id db.source_entities
  pub hashes : all (agrees contents) db.source_entities ≡ true

-- The current hash of an entity, by its identity: the abstract view.
unfoldable pub current_hash : Database → EntityIdentity → Option String
current_hash db i = elim (find? (is_of i) db.source_entities) [
  | none ↦ none
  | some r ↦ r.current_content_hash
]

-- A step that changes no current hash.
pub record Keeps (db : Database) (contents : List ContentRow) (db' : Database) : Type 0 where
  pub sound : Sound db' contents
  pub same : (i : EntityIdentity) → current_hash db' i ≡ current_hash db i

all-agrees-upsert :
    (rows : List SourceEntityRow) (contents : List ContentRow) (next : ℕ) (i : EntityIdentity)
    (summary : Option Payload) (now : ℕ)
    → all (agrees contents) rows ≡ true
    → all (agrees contents) (upsert_entity rows next i summary now).0 ≡ true
unfolding agrees upsert_entity updated_entity
all-agrees-upsert [] contents next i summary now h = refl
all-agrees-upsert (r ∷ rows) contents next i summary now h =
    ground (arith, all-agrees-upsert rows contents next i summary now)

pub ensure-Keeps :
    (s : EntityStore) (now : ℕ) (i : EntityIdentity)
    → Sound s.database s.contents
    → Keeps s.database s.contents (ensure s now i).0.database
unfolding ensure ensure_source_entity current_hash ensured_row updated_entity
ensure-Keeps s now i v =
    let rows = s.database.source_entities in
    let next = s.database.next_entity_id in
    record {
      sound = record {
        ids = upsert-HasIds rows next i none now v.ids;
        hashes = all-agrees-upsert rows s.contents next i none now v.hashes;
      };
      same = λ j. ground (arith, find?-upsert rows next i j none now, find?-same rows i j);
    }

pub type_eq→eq : (a b : EntityType) → entity_type_eq a b ≡ true → a ≡ b
type_eq→eq a b h = ground arith

type_eq_self : (a : EntityType) → entity_type_eq a a ≡ true
type_eq_self a = ground arith

is_content-fk :
    (t : EntityType) (fk : ℕ) (c : ContentRow) → is_content t fk c ≡ true → c.source_entity_fk ≡ fk
unfolding is_content
is_content-fk t fk c h = ground arith

is_content_self : (c : ContentRow) → is_content c.table c.source_entity_fk c ≡ true
unfolding is_content
is_content_self c = ground (arith, type_eq_self c.table)

-- After the upsert a content is found at its own key, with its hash, and the others are as before.
pub find?-upsert_content :
    (contents : List ContentRow) (new : ContentRow) (fk : ℕ) (t : EntityType)
    → (new.source_entity_fk == fk) ≡ false
    → find? (is_content t fk) (upsert_content contents new) ≡ find? (is_content t fk) contents
unfolding upsert_content
find?-upsert_content [] new fk t h = ground (arith, is_content-fk t fk new)
find?-upsert_content (c ∷ contents) new fk t h = ground (
  arith,
  is_content-fk t fk c,
  is_content-fk t fk new,
  is_content-fk new.table new.source_entity_fk c,
  find?-upsert_content contents new fk t h,
)

pub find?-upserted :
    (contents : List ContentRow) (new : ContentRow)
    → stored
        (find? (is_content new.table new.source_entity_fk) (upsert_content contents new))
        new.content_hash
      ≡ true
unfolding upsert_content
find?-upserted [] new =
    ground (arith, is_content_self new, eq_iff new.content_hash new.content_hash)
find?-upserted (c ∷ contents) new = ground (
  arith,
  find?-upserted contents new,
  is_content_self new,
  eq_iff new.content_hash new.content_hash,
)
