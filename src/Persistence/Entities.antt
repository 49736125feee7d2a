-- ===== src/Persistence/Entities.antt =====
-- `PostgresEntityRepository` of infrastructure/persistence/postgres/repositories.py. `persist` is one
-- transaction: where it raises, nothing is stored. The digest of a document, its extension and the
-- clock are arguments.
pub mod Rows
pub mod Hashes
pub mod Refines
pub mod Persisted
pub mod Unchanged
pub mod Ids
pub mod Relations
pub mod Reconciled
use Prim.Native.String.{compare, then}
use govpars.Prelude.{
  ℕ, String, Bool, true, false, not, ◌&&◌, ◌||◌, Option, some, List, [], ◌∷◌, ◌++◌, map, str_eq,
  ◌==◌, if◌then◌else◌, filter, find?,
}
use govpars.Prelude.Dict.{put}
use govpars.Prelude.Sort.{sort_by}
use govpars.Domain.Errors.{Result, ok, raised, ◌>>=◌, plain_error}
use govpars.Domain.Models.{
  RelationType, plan_to_notice, plan_to_lot, notice_to_lot, customer, organizer, EntityIdentity,
  EntityEnvelope, EntityRelation, EntityFields, organization_fields, procurement_fields,
  DocumentMetadata, identity_le, identity_compare, is_le, stable_key,
}
use govpars.Persistence.Tables.{SourceEntityRow}
use govpars.Persistence.EntityTables.{ContentColumns, EntityRelationRow, EntityStore}
use govpars.Persistence.EntityContents.{
  ensure, update_entity, previous_hash, is_content, has_hash, columns_for, content_values,
  upsert_content, add_revision, replace_children,
}

-- The second UPDATE of `_persist_envelope`.
unfoldable pub stored_entity : EntityEnvelope → SourceEntityRow → SourceEntityRow
stored_entity envelope row = record row {
  identity = record row.identity {
    business_number = envelope.identity.business_number;
    canonical_url = envelope.identity.canonical_url;
  };
  current_content_hash = some envelope.content_hash;
  last_success_at = some envelope.fetched_at;
  last_seen_at = envelope.fetched_at;
}

module _ (digest : DocumentMetadata → String) (extension : DocumentMetadata → Option String)
    (mode : String) where
  -- `_replace_children`, for procurement entities
  unfoldable pub replace_own_children : EntityFields → ℕ → EntityStore → Result EntityStore
  replace_own_children (organization_fields o) fk s = ok s
  replace_own_children (procurement_fields p) fk s = replace_children digest extension mode s fk p

  -- From the revision on.
  unfoldable pub store_content :
      EntityStore → ℕ → EntityEnvelope → ContentColumns → Result EntityStore
  unfolding stored_entity replace_own_children
  store_content s fk envelope columns = replace_own_children envelope.fields fk (
      update_entity fk (stored_entity envelope) (record s {
        revisions =
            add_revision mode fk (previous_hash s fk)
              (find? (is_content envelope.identity.entity_type fk) s.contents) s.revisions;
        contents = upsert_content s.contents (content_values envelope fk columns);
      }))

  -- From the comparison of the hashes on.
  unfoldable pub persist_row : EntityStore → ℕ → EntityEnvelope → Result EntityStore
  unfolding store_content
  persist_row s fk envelope =
      if has_hash (previous_hash s fk) envelope.content_hash
      then ok (update_entity fk (λ r. record r { last_success_at = some envelope.fetched_at }) s)
      else columns_for envelope.identity.entity_type envelope.fields >>= store_content s fk envelope

  unfoldable pub persist_envelope : EntityStore → ℕ → EntityEnvelope → Result EntityStore
  unfolding persist_row
  persist_envelope s now envelope =
      let (s', fk) = ensure s now envelope.identity in persist_row s' fk envelope

  unfoldable pub persist_envelopes : EntityStore → ℕ → List EntityEnvelope → Result EntityStore
  persist_envelopes s now [] = ok s
  persist_envelopes s now (e ∷ es) = persist_envelope s now e >>= λ s'. persist_envelopes s' now es

-- `relation_type.value`, and `==` of its values
unfoldable pub relation_type_value : RelationType → String
relation_type_value plan_to_notice = "plan_to_notice"
relation_type_value plan_to_lot = "plan_to_lot"
relation_type_value notice_to_lot = "notice_to_lot"
relation_type_value customer = "customer"
relation_type_value organizer = "organizer"

abbrev pub relation_type_eq : RelationType → RelationType → Bool
relation_type_eq plan_to_notice plan_to_notice = true
relation_type_eq plan_to_lot plan_to_lot = true
relation_type_eq notice_to_lot notice_to_lot = true
relation_type_eq customer customer = true
relation_type_eq organizer organizer = true
relation_type_eq _ _ = false

-- `desired_by_parent` as the triples of its keys and the members of their sets; the children are
-- ensured on the way.
unfoldable pub desired_relations :
    EntityStore → ℕ → List EntityRelation → EntityStore × List (String × RelationType × ℕ)
desired_relations s now [] = (s, [])
desired_relations s now (r ∷ rs) =
    let (s', child_fk) = ensure s now r.child in
    let (s'', desired) = desired_relations s' now rs in
    (s'', (stable_key r.parent, r.relation_type, child_fk) ∷ desired)

-- `(row.relation_type, row.child_source_entity_fk) in desired`
unfoldable pub is_desired : List (String × RelationType × ℕ) → String → EntityRelationRow → Bool
is_desired [] key row = false
is_desired ((k, t, fk) ∷ desired) key row =
    str_eq k key && (relation_type_eq t row.relation_type && fk == row.child_source_entity_fk)
    || is_desired desired key row

-- The stale rows of one parent are deleted.
unfoldable pub keep_desired :
    List (String × RelationType × ℕ) → ℕ → String → List EntityRelationRow → List EntityRelationRow
unfolding is_desired
keep_desired desired parent_fk key rows =
    filter (λ r. not (r.parent_source_entity_fk == parent_fk) || is_desired desired key r) rows

unfoldable pub delete_stale :
    List (String × RelationType × ℕ) → EntityStore → ℕ → List EntityEnvelope → EntityStore
unfolding keep_desired
delete_stale desired s now [] = s
delete_stale desired s now (e ∷ es) =
    let (s', parent_fk) = ensure s now e.identity in
    delete_stale desired
      (record s' {
        relations = keep_desired desired parent_fk (stable_key e.identity) s'.relations;
      })
      now es

unfoldable pub reconcile_relations :
    EntityStore → ℕ → List EntityEnvelope → List EntityRelation → EntityStore
unfolding desired_relations delete_stale
reconcile_relations s now entities relations =
    let (s', desired) = desired_relations s now relations in delete_stale desired s' now entities

-- uq_entity_relation
abbrev pub is_relation : RelationType → ℕ → ℕ → EntityRelationRow → Bool
is_relation t parent child row =
    relation_type_eq row.relation_type t
    && (row.parent_source_entity_fk == parent && row.child_source_entity_fk == child)

unfoldable pub upsert_relation : List EntityRelationRow → EntityRelationRow → List EntityRelationRow
upsert_relation [] new = new ∷ []
upsert_relation (row ∷ rows) new =
    let rest = upsert_relation rows new in
    if is_relation new.relation_type new.parent_source_entity_fk new.child_source_entity_fk row
    then record row { source_payload = new.source_payload; last_seen_at = new.last_seen_at } ∷ rows
    else row ∷ rest

unfoldable pub persist_relation : EntityStore → ℕ → EntityRelation → EntityStore
unfolding upsert_relation
persist_relation s now r =
    let (s', parent_fk) = ensure s now r.parent in
    let (s'', child_fk) = ensure s' now r.child in
    record s'' {
      relations = upsert_relation s''.relations (record {
        relation_type = r.relation_type;
        parent_source_entity_fk = parent_fk;
        child_source_entity_fk = child_fk;
        source_payload = r.source_payload;
        last_seen_at = now;
      });
    }

-- The sort key of the relations.
unfoldable pub relation_le : EntityRelation → EntityRelation → Bool
unfolding relation_type_value
relation_le a b = is_le (
    (then) (identity_compare a.parent b.parent) (
      (then) (identity_compare a.child b.child)
        (compare (relation_type_value a.relation_type) (relation_type_value b.relation_type))))

unfoldable pub persist_relations : EntityStore → ℕ → List EntityRelation → EntityStore
unfolding persist_relation
persist_relations s now [] = s
persist_relations s now (r ∷ rs) = persist_relations (persist_relation s now r) now rs

-- `{identity.stable_key: identity for …}`
unfoldable pub by_key :
    List (String × EntityIdentity) → List EntityIdentity → List (String × EntityIdentity)
by_key d [] = d
by_key d (i ∷ is) = by_key (put d (stable_key i) i) is

unfoldable pub mentioned : List EntityEnvelope → List EntityRelation → List EntityIdentity
unfolding by_key
mentioned entities relations =
    map (λ e. e.1)
      (by_key [] (
        map (λ e. e.identity) entities
        ++ (map (λ r. r.parent) relations ++ map (λ r. r.child) relations)))

unfoldable pub ensure_all : EntityStore → ℕ → List EntityIdentity → EntityStore
ensure_all s now [] = s
ensure_all s now (i ∷ is) = ensure_all (ensure s now i).0 now is

-- The transaction of `persist`.
unfoldable pub persist :
    (DocumentMetadata → String)
    → (DocumentMetadata → Option String)
    → String
    → EntityStore
    → ℕ
    → List EntityEnvelope
    → List EntityRelation
    → Result EntityStore
unfolding ensure_all mentioned persist_envelopes reconcile_relations persist_relations relation_le
persist digest extension mode s now entities relations =
    persist_envelopes digest extension mode
      (ensure_all s now (sort_by identity_le (mentioned entities relations))) now
      (sort_by (λ a b. identity_le a.identity b.identity) entities)
    >>= λ s'. ok (
        persist_relations (reconcile_relations s' now entities relations) now
          (sort_by relation_le relations))
