-- ===== src/Persistence/EntityContents.antt =====
-- The parts of `_persist_envelope` of infrastructure/persistence/postgres/repositories.py, and
-- `_replace_children`. Where a constraint is violated the `Result` is an exception. The digest of a
-- document and its extension are arguments.
use govpars.Prelude.{
  ℕ, String, Bool, false, not, ◌&&◌, ◌||◌, Option, none, some, List, [], ◌∷◌, ◌++◌, map, str_eq,
  ◌==◌, if◌then◌else◌, any, filter, find?,
}
use govpars.Prelude.Dict.{first_chars}
use govpars.Domain.Errors.{Result, ok, raised, plain_error}
use govpars.Domain.Models.{
  EntityType, organization, EntityIdentity, EntityEnvelope, EntityFields, organization_fields,
  procurement_fields, ProcurementEntity, DeliveryPlace, DocumentMetadata, PaymentTerms,
  entity_type_eq,
}
use govpars.Persistence.Tables.{SourceEntityRow}
use govpars.Persistence.EntityTables.{
  ContentColumns, organization_columns, procurement_columns, ContentRow, EntityRevisionRow,
  DocumentMetadataRow, PaymentTermsRow, EntityStore, procurement_values,
}
use govpars.Persistence.Enqueue.{ensure_source_entity}

-- `_ensure_source_entity(session, identity)`: the store, and the id.
unfoldable pub ensure : EntityStore → ℕ → EntityIdentity → EntityStore × ℕ
ensure s now identity =
    let (db, fk) = ensure_source_entity s.database now identity none in
    (record s { database = db }, fk)

-- UPDATE source_entities … WHERE id = fk
abbrev pub update_entity : ℕ → (SourceEntityRow → SourceEntityRow) → EntityStore → EntityStore
update_entity fk f s = record s {
  database = record s.database {
    source_entities = map (λ r. if r.id == fk then f r else r) s.database.source_entities;
  };
}

-- `current_content_hash` of the row, as `scalar_one_or_none` gives it
unfoldable pub previous_hash : EntityStore → ℕ → Option String
previous_hash s fk = elim (find? (λ r. r.id == fk) s.database.source_entities) [
  | none ↦ none
  | some r ↦ r.current_content_hash
]

unfoldable pub is_content : EntityType → ℕ → ContentRow → Bool
is_content table fk row = entity_type_eq row.table table && row.source_entity_fk == fk

-- `previous_hash == envelope.content_hash`
abbrev pub has_hash : Option String → String → Bool
has_hash none hash = false
has_hash (some h) hash = str_eq h hash

-- The columns of the envelope's entity for its table; an organization has no place in the tables of
-- the others, nor the other way round.
unfoldable pub columns_for : EntityType → EntityFields → Result ContentColumns
columns_for organization (organization_fields o) = ok (organization_columns o)
columns_for _ (organization_fields o) = raised (plain_error "CompileError")
columns_for organization (procurement_fields p) = raised (plain_error "CompileError")
columns_for _ (procurement_fields p) = ok (procurement_columns (procurement_values p))

unfoldable pub content_values : EntityEnvelope → ℕ → ContentColumns → ContentRow
content_values envelope fk columns = record {
  table = envelope.identity.entity_type;
  source_entity_fk = fk;
  columns = columns;
  source_payload = envelope.source_payload;
  content_hash = envelope.content_hash;
  fetched_at = envelope.fetched_at;
}

-- INSERT … ON CONFLICT DO UPDATE … WHERE content_hash IS DISTINCT FROM EXCLUDED.content_hash
unfoldable pub upsert_content : List ContentRow → ContentRow → List ContentRow
upsert_content [] new = new ∷ []
upsert_content (row ∷ rows) new =
    let rest = upsert_content rows new in
    if is_content new.table new.source_entity_fk row
    then (if str_eq row.content_hash new.content_hash then row else new) ∷ rows
    else row ∷ rest

-- The row that was there before is kept as a revision, if changes are recorded.
unfoldable pub add_revision :
    String → ℕ → Option String → Option ContentRow → List EntityRevisionRow → List EntityRevisionRow
add_revision mode fk hash none revisions = revisions
add_revision mode fk hash (some previous) revisions =
    if str_eq mode "changes"
    then revisions
      ++ record {
        source_entity_fk = fk;
        content_hash = elim hash [
          | none ↦ previous.content_hash
          | some h ↦ if str_eq h "" then previous.content_hash else h
        ];
        payload = previous;
      }
        ∷ []
    else revisions

-- The first of the texts that is neither missing nor empty.
abbrev first_truthy : List (Option String) → Option String
first_truthy [] = none
first_truthy (none ∷ texts) = first_truthy texts
first_truthy (some t ∷ texts) = if str_eq t "" then first_truthy texts else some t

module _ (digest : DocumentMetadata → String) (extension : DocumentMetadata → Option String)
    (mode : String) where
  unfoldable pub identity_key : DocumentMetadata → String
  identity_key d =
      first_chars 512
        (elim (first_truthy (d.source_document_id ∷ d.document_hash ∷ d.url ∷ d.filename ∷ [])) [
          | none ↦ digest d
          | some t ↦ t
        ])

  unfoldable pub document_row : ℕ → DocumentMetadata → DocumentMetadataRow
  document_row fk d = record {
    owner_source_entity_fk = fk;
    identity_key = identity_key d;
    extension = extension d;
    document = d;
  }

  -- uq_document_owner_identity, among the documents of one owner
  unfoldable pub has_same_document : List DocumentMetadataRow → Bool
  has_same_document [] = false
  has_same_document (d ∷ ds) =
      any (λ e. str_eq e.identity_key d.identity_key) ds || has_same_document ds

  abbrev same_row_id : Option String → Option String → Bool
  same_row_id (some a) (some b) = str_eq a b
  same_row_id _ _ = false

  -- uq_delivery_owner_row, in which NULL is distinct from NULL
  unfoldable pub has_same_place : List DeliveryPlace → Bool
  has_same_place [] = false
  has_same_place (p ∷ ps) =
      any (λ q. same_row_id q.source_row_id p.source_row_id) ps || has_same_place ps

  abbrev terms_rows : ℕ → Option PaymentTerms → List PaymentTermsRow
  terms_rows fk none = []
  terms_rows fk (some t) = record { owner_source_entity_fk = fk; terms = t } ∷ []

  unfoldable pub replace_children : EntityStore → ℕ → ProcurementEntity → Result EntityStore
  unfolding document_row has_same_document has_same_place
  replace_children s fk entity =
      let documents = map (document_row fk) entity.documents in
      if has_same_place entity.delivery_places || has_same_document documents
      then raised (plain_error "IntegrityError")
      else ok (record s {
        delivery_places =
            filter (λ r. not (r.owner_source_entity_fk == fk)) s.delivery_places
            ++ map (λ p. record { owner_source_entity_fk = fk; place = p }) entity.delivery_places;
        documents = filter (λ r. not (r.owner_source_entity_fk == fk)) s.documents ++ documents;
        payment_terms =
            filter (λ r. not (r.owner_source_entity_fk == fk)) s.payment_terms
            ++ terms_rows fk entity.payment_terms;
      })
