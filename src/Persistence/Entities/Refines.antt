-- ===== src/Persistence/Entities/Refines.antt =====
-- What `_persist_envelope` of infrastructure/persistence/postgres/repositories.py, from the comparison
-- of the hashes on, writes of the current hashes.
use govpars.Prelude.{
  ℕ, String, ◌≡◌, refl, sym, ap, ◌∙◌, subst, inl, inr, true, false, Option, none, some, List, [],
  ◌∷◌, arith, eq_iff, ◌==◌, if◌then◌else◌, Bool-cases, set, any, all, find?,
}
use govpars.Domain.Models.{EntityIdentity, EntityEnvelope, same_identity}
use govpars.Persistence.Tables.{SourceEntityRow, Database}
use govpars.Persistence.EntityTables.{ContentRow, EntityStore}
use govpars.Domain.Errors.{ok, Result-cases}
use govpars.Domain.Models.{DocumentMetadata, EntityFields, organization_fields, procurement_fields}
use govpars.Persistence.EntityTables.{ContentColumns}
use govpars.Persistence.EntityContents.{
  is_content, add_revision, update_entity, previous_hash, has_hash, columns_for, content_values,
  upsert_content, replace_children,
}
use govpars.Persistence.Entities.{stored_entity, replace_own_children, store_content, persist_row}
use govpars.Persistence.Entities.Rows.{
  is_of, HasIds, change_id, find?-id, find?-change_id, change_id-HasIds, change_id-none, find?-any,
}
use govpars.Persistence.Entities.Hashes.{
  find?-upsert_content, find?-upserted, type_eq→eq, agrees, Sound, current_hash,
}

-- The abstract write of one envelope.
unfoldable pub write :
    EntityIdentity → String → (EntityIdentity → Option String) → EntityIdentity → Option String
write i hash view j = if same_identity i j then some hash else view j

-- A step that gives `i` the hash, and changes no other.
pub record Writes (i : EntityIdentity) (hash : String) (db db' : Database)
    (contents' : List ContentRow) : Type 0 where
  pub sound : Sound db' contents'
  pub hashes : (j : EntityIdentity) → current_hash db' j ≡ write i hash (current_hash db) j

all-change_id :
    (rows : List SourceEntityRow) (next : ℕ) (i : EntityIdentity) (r : SourceEntityRow)
    (f : SourceEntityRow → SourceEntityRow) (contents contents' : List ContentRow)
    → ((x : SourceEntityRow)
        → (x.id == r.id) ≡ false
        → agrees contents x ≡ true
        → agrees contents' x ≡ true)
    → agrees contents' (f r) ≡ true
    → HasIds next rows
    → find? (is_of i) rows ≡ some r
    → all (agrees contents) rows ≡ true
    → all (agrees contents') (change_id r.id f rows) ≡ true
all-change_id [] next i r f contents contents' other own v h a = refl
all-change_id (x ∷ rows) next i r f contents contents' other own v h a = ground (
  arith,
  other x,
  all-others rows,
  all-change_id rows next i r f contents contents' other own v.2,
  change_id-none rows x.id f v.0,
  find?-any rows (is_of i) r,
)
  where
    all-others :
        (ys : List SourceEntityRow)
        → any (λ y. y.id == r.id) ys ≡ false
        → all (agrees contents) ys ≡ true
        → all (agrees contents') ys ≡ true
    all-others [] n b = refl
    all-others (y ∷ ys) n b = ground (arith, other y, all-others ys)

-- An update of the row of `i` that gives it the hash.
update-Writes :
    (db : Database) (contents contents' : List ContentRow) (i : EntityIdentity) (hash : String)
    (r : SourceEntityRow) (f : SourceEntityRow → SourceEntityRow)
    → Sound db contents
    → find? (is_of i) db.source_entities ≡ some r
    → ((x : SourceEntityRow) (k : EntityIdentity) → is_of k (f x) ≡ is_of k x)
    → ((x : SourceEntityRow) → (f x).id ≡ x.id)
    → (f r).current_content_hash ≡ some hash
    → ((x : SourceEntityRow)
        → (x.id == r.id) ≡ false
        → agrees contents x ≡ true
        → agrees contents' x ≡ true)
    → agrees contents' (f r) ≡ true
    → Writes i hash db
        (record db { source_entities = change_id r.id f db.source_entities })
        contents'
unfolding current_hash write
update-Writes db contents contents' i hash r f v found keep id_ set other own = record {
  sound = record {
    ids = change_id-HasIds db.source_entities db.next_entity_id r.id f id_ v.ids;
    hashes =
        all-change_id db.source_entities db.next_entity_id i r f contents contents' other own v.ids
          found v.hashes;
  };
  hashes = λ j.
      ground (arith, find?-change_id db.source_entities db.next_entity_id i j r f keep v.ids found);
}

find?-agrees :
    (rows : List SourceEntityRow) (contents : List ContentRow) (i : EntityIdentity)
    (r : SourceEntityRow)
    → all (agrees contents) rows ≡ true
    → find? (is_of i) rows ≡ some r
    → (agrees contents r ≡ true) × (same_identity r.identity i ≡ true)
find?-agrees [] contents i r a h = ground arith
find?-agrees (x ∷ rows) contents i r a h = elim (Bool-cases (is_of i x)) [
  | inl here ↦
      let e : x ≡ r = ground arith in
      subst (λ z. (agrees contents z ≡ true) × (same_identity z.identity i ≡ true)) e
        (ground arith, here)
  | inr later ↦ find?-agrees rows contents i r (ground arith) (ground arith)
]

pub has_hash-eq : (o : Option String) (hash : String) → has_hash o hash ≡ true → o ≡ some hash
has_hash-eq none hash h = ground arith
has_hash-eq (some x) hash h = ground (arith, eq_iff x hash)

pub previous_hash_lem :
    (s : EntityStore) (i : EntityIdentity) (r : SourceEntityRow)
    → Sound s.database s.contents
    → find? (is_of i) s.database.source_entities ≡ some r
    → previous_hash s r.id ≡ r.current_content_hash
unfolding previous_hash
previous_hash_lem s i r v found =
    ap (λ o. elim o [ none ↦ none | some x ↦ x.current_content_hash ])
      (find?-id s.database.source_entities s.database.next_entity_id (is_of i) r v.ids found)

module _ (digest : DocumentMetadata → String) (extension : DocumentMetadata → Option String)
    (mode : String) where
  -- The children stand in tables of their own.
  children-same :
      (fields : EntityFields) (fk : ℕ) (s s' : EntityStore)
      → replace_own_children digest extension mode fields fk s ≡ ok s'
      → (s.database ≡ s'.database) × (s.contents ≡ s'.contents)
  unfolding replace_own_children replace_children
  children-same (organization_fields o) fk s s' h = (ground arith, ground arith)
  children-same (procurement_fields p) fk s s' h = (ground arith, ground arith)

  -- The hash is the same: only the instant of the last success changes.
  seen-Writes :
      (s : EntityStore) (r : SourceEntityRow) (e : EntityEnvelope)
      → Sound s.database s.contents
      → find? (is_of e.identity) s.database.source_entities ≡ some r
      → has_hash (previous_hash s r.id) e.content_hash ≡ true
      → Writes e.identity e.content_hash s.database
          (update_entity r.id (λ x. record x { last_success_at = some e.fetched_at }) s).database
          s.contents
  unfolding agrees
  seen-Writes s r e v found same =
      update-Writes s.database s.contents s.contents e.identity e.content_hash r
        (λ x. record x { last_success_at = some e.fetched_at }) v found (λ x k. refl) (λ x. refl)
        (sym (previous_hash_lem s e.identity r v found)
          ∙ has_hash-eq (previous_hash s r.id) e.content_hash same)
        (λ x n a. a)
        (find?-agrees s.database.source_entities s.contents e.identity r v.hashes found).0

  -- It differs: the content is stored and the hash becomes the envelope's.
  store-Writes :
      (s s' : EntityStore) (r : SourceEntityRow) (e : EntityEnvelope) (columns : ContentColumns)
      → Sound s.database s.contents
      → find? (is_of e.identity) s.database.source_entities ≡ some r
      → store_content digest extension mode s r.id e columns ≡ ok s'
      → Writes e.identity e.content_hash s.database s'.database s'.contents
  unfolding store_content stored_entity agrees same_identity content_values
  store-Writes s s' r e columns v found h =
      let new = content_values e r.id columns in
      let contents' = upsert_content s.contents new in
      let sides =
        children-same e.fields r.id
          (update_entity r.id (stored_entity e) (record s {
            revisions =
                add_revision mode r.id (previous_hash s r.id)
                  (find? (is_content e.identity.entity_type r.id) s.contents) s.revisions;
            contents = contents';
          }))
          s' h in
      let own =
        (find?-agrees s.database.source_entities s.contents e.identity r v.hashes found).1 in
      let written =
        update-Writes s.database s.contents contents' e.identity e.content_hash r (stored_entity e)
          v found (λ x k. refl) (λ x. refl) refl
          (λ x n a.
            ground (arith, find?-upsert_content s.contents new x.id x.identity.entity_type, a))
          (ground (
            arith,
            find?-upserted s.contents new,
            type_eq→eq r.identity.entity_type e.identity.entity_type,
            own,
          )) in
      subst (λ d. Writes e.identity e.content_hash s.database d s'.contents) sides.0
        (subst (Writes e.identity e.content_hash s.database _) sides.1 written)

  pub persist_row-Writes :
      (s s' : EntityStore) (r : SourceEntityRow) (e : EntityEnvelope)
      → Sound s.database s.contents
      → find? (is_of e.identity) s.database.source_entities ≡ some r
      → persist_row digest extension mode s r.id e ≡ ok s'
      → Writes e.identity e.content_hash s.database s'.database s'.contents
  unfolding persist_row
  persist_row-Writes s s' r e v found h =
      elim (Bool-cases (has_hash (previous_hash s r.id) e.content_hash)) [
        | inl same ↦
            let end : update_entity r.id (λ x. record x { last_success_at = some e.fetched_at }) s
                ≡ s' =
              ground arith in
            subst (λ z. Writes e.identity e.content_hash s.database z.database z.contents) end
              (seen-Writes s r e v found same)
        | inr new ↦ elim (Result-cases (columns_for e.identity.entity_type e.fields)) [
          | inl (columns, q) ↦ store-Writes s s' r e columns v found (ground arith)
          | inr (x, q) ↦ absurd (ground arith)
        ]
      ]
