-- ===== src/Persistence/Entities/Relations.antt =====
-- The table `entity_relations` after `persist` of
-- infrastructure/persistence/postgres/repositories.py, read through the ids of the entities.
use govpars.Prelude.{
  ℕ, String, ◌≡◌, refl, Bool, true, false, not, ◌&&◌, ◌||◌, Option, none, some, List, [], ◌∷◌,
  arith, str_eq, ◌==◌, any, all, filter,
}
use govpars.Domain.Models.{EntityEnvelope, EntityRelation, RelationType, stable_key}
use govpars.Persistence.Tables.{Database}
use govpars.Persistence.EntityTables.{EntityRelationRow, EntityStore}
use govpars.Persistence.EntityContents.{ensure}
use govpars.Persistence.Entities.{
  relation_type_eq, is_desired, keep_desired, desired_relations, delete_stale,
}
use govpars.Persistence.Entities.Ids.{
  id_of, Extends, ensure-id, desired-Extends, delete_stale-Extends,
}

abbrev pub is_id : Option ℕ → ℕ → Bool
is_id none k = false
is_id (some i) k = i == k

-- Some relation of the batch has this parent, type and child.
unfoldable pub wanted : Database → List EntityRelation → String → RelationType → ℕ → Bool
wanted db [] key t child = false
wanted db (r ∷ rs) key t child =
    str_eq (stable_key r.parent) key
      && (relation_type_eq r.relation_type t && is_id (id_of db r.child) child)
    || wanted db rs key t child

-- A row of the envelope's entity is one that the batch wants.
unfoldable pub is_accounted :
    Database → List EntityRelation → EntityEnvelope → EntityRelationRow → Bool
is_accounted db relations e row =
    not (is_id (id_of db e.identity) row.parent_source_entity_fk)
    || wanted db relations (stable_key e.identity) row.relation_type row.child_source_entity_fk

-- The relation has its row.
unfoldable pub has_row : Database → List EntityRelationRow → EntityRelation → Bool
has_row db rows r =
    any
      (λ row.
        relation_type_eq row.relation_type r.relation_type
        && (is_id (id_of db r.parent) row.parent_source_entity_fk
            && is_id (id_of db r.child) row.child_source_entity_fk))
      rows

module _ (db : Database) (relations : List EntityRelation) where
  pub desired-wanted :
      (s : EntityStore) (now : ℕ) (rs : List EntityRelation) (key : String)
      (row : EntityRelationRow)
      → Extends (desired_relations s now rs).0.database db
      → is_desired (desired_relations s now rs).1 key row
        ≡ wanted db rs key row.relation_type row.child_source_entity_fk
  unfolding desired_relations is_desired wanted
  desired-wanted s now [] key row later = refl
  desired-wanted s now (r ∷ rs) key row later =
      let s1 = (ensure s now r.child).0 in
      ground (
        arith,
        ensure-id s now r.child db
            (record { keeps = λ i k h. later.keeps i k ((desired-Extends s1 now rs).keeps i k h) }),
        desired-wanted s1 now rs key row later,
      )

  -- `delete_stale` only deletes.
  all-delete_stale :
      (p : EntityRelationRow → Bool) (s : EntityStore) (now : ℕ)
      (desired : List (String × RelationType × ℕ)) (es : List EntityEnvelope)
      → all p s.relations ≡ true
      → all p (delete_stale desired s now es).relations ≡ true
  unfolding delete_stale ensure keep_desired
  all-delete_stale p s now desired [] h = h
  all-delete_stale p s now desired (e ∷ es) h =
      let (s', fk) = ensure s now e.identity in
      all-delete_stale p
        (record s' { relations = keep_desired desired fk (stable_key e.identity) s'.relations }) now
        desired es
        (all-keep
          (λ r.
            not (r.parent_source_entity_fk == fk) || is_desired desired (stable_key e.identity) r)
          s.relations h)
    where
      all-keep :
          (q : EntityRelationRow → Bool) (rows : List EntityRelationRow)
          → all p rows ≡ true
          → all p (filter q rows) ≡ true
      all-keep q [] a = refl
      all-keep q (r ∷ rows) a = ground (arith, all-keep q rows)

  keep-accounted :
      (desired : List (String × RelationType × ℕ)) (fk : ℕ) (e : EntityEnvelope)
      (rows : List EntityRelationRow)
      → id_of db e.identity ≡ some fk
      → ((key : String) (row : EntityRelationRow)
          → is_desired desired key row
            ≡ wanted db relations key row.relation_type row.child_source_entity_fk)
      → all (is_accounted db relations e) (keep_desired desired fk (stable_key e.identity) rows)
        ≡ true
  unfolding keep_desired is_accounted
  keep-accounted desired fk e [] id_ same = refl
  keep-accounted desired fk e (row ∷ rows) id_ same =
      ground
        (arith, id_, same (stable_key e.identity) row, keep-accounted desired fk e rows id_ same)

  pub delete_stale-accounted :
      (s : EntityStore) (now : ℕ) (desired : List (String × RelationType × ℕ))
      (es : List EntityEnvelope)
      → Extends (delete_stale desired s now es).database db
      → ((key : String) (row : EntityRelationRow)
          → is_desired desired key row
            ≡ wanted db relations key row.relation_type row.child_source_entity_fk)
      → all (λ e. all (is_accounted db relations e) (delete_stale desired s now es).relations) es
        ≡ true
  unfolding delete_stale
  delete_stale-accounted s now desired [] later same = refl
  delete_stale-accounted s now desired (e ∷ es) later same =
      let (s', fk) = ensure s now e.identity in
      let kept = keep_desired desired fk (stable_key e.identity) s'.relations in
      let s'' = record s' { relations = kept } in
      let id_ = ensure-id s now e.identity db (record {
        keeps = λ i k h. later.keeps i k ((delete_stale-Extends s'' now desired es).keeps i k h);
      }) in
      ground (
        arith,
        all-delete_stale (is_accounted db relations e) s'' now desired es
            (keep-accounted desired fk e s'.relations id_ same),
        delete_stale-accounted s'' now desired es later same,
      )
