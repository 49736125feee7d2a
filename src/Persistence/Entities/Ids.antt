-- ===== src/Persistence/Entities/Ids.antt =====
-- The ids of the entities in repositories.py: an id that was given stays, and two entities share none.
use govpars.Prelude.{
  ℕ, String, ◌≡◌, sym, ap, ◌∙◌, subst, inl, inr, true, Option, none, some, List, [], ◌∷◌, arith,
  eq_iff, Bool-cases, Option-cases, find?,
}
use govpars.Domain.Models.{
  EntityIdentity, EntityEnvelope, EntityRelation, RelationType, same_identity, source_eq, Source,
  stable_key,
}
use govpars.Persistence.Tables.{SourceEntityRow, Database}
use govpars.Persistence.Enqueue.{ensure_source_entity, updated_entity}
use govpars.Persistence.EntityTables.{EntityStore}
use govpars.Persistence.EntityContents.{ensure}
use govpars.Persistence.Entities.{
  desired_relations, delete_stale, persist_relation, persist_relations, keep_desired,
}
use govpars.Persistence.Entities.Rows.{
  is_of, HasIds, ensured_row, find?-upsert, find?-id, find?-same,
}
use govpars.Persistence.Entities.Hashes.{type_eq→eq}
use govpars.Persistence.Entities.Persisted.{ensured}

unfoldable pub id_of : Database → EntityIdentity → Option ℕ
id_of db i = elim (find? (is_of i) db.source_entities) [ none ↦ none | some r ↦ some r.id ]

-- Whatever id an entity has, it keeps.
pub record Extends (db db' : Database) : Type 0 where
  pub keeps : (i : EntityIdentity) (k : ℕ) → id_of db i ≡ some k → id_of db' i ≡ some k

pub Extends-refl : (db : Database) → Extends db db
Extends-refl db = record { keeps = λ i k h. h }

Extends-trans : {a b c : Database} → Extends a b → Extends b c → Extends a c
Extends-trans p q = record { keeps = λ i k h. q.keeps i k (p.keeps i k h) }

pub ensure-Extends :
    (s : EntityStore) (now : ℕ) (i : EntityIdentity)
    → Extends s.database (ensure s now i).0.database
unfolding ensure ensure_source_entity id_of ensured_row updated_entity
ensure-Extends s now i =
    let rows = s.database.source_entities in
    record {
      keeps = λ j k h.
          ground (
            arith,
            find?-upsert rows s.database.next_entity_id i j none now,
            find?-same rows i j,
            h,
          );
    }

-- The id that `_ensure_source_entity` returns, in the tables of any later moment.
pub ensure-id :
    (s : EntityStore) (now : ℕ) (i : EntityIdentity) (db : Database)
    → Extends (ensure s now i).0.database db
    → id_of db i ≡ some (ensure s now i).1
unfolding id_of
ensure-id s now i db later =
    let (r, found, is_id) = ensured s now i in
    later.keeps i (ensure s now i).1
      (ap (λ o. elim o [ none ↦ none | some x ↦ some x.id ]) found ∙ ap (λ k. some k) (sym is_id))

pub desired-Extends :
    (s : EntityStore) (now : ℕ) (rs : List EntityRelation)
    → Extends s.database (desired_relations s now rs).0.database
unfolding desired_relations
desired-Extends s now [] = Extends-refl s.database
desired-Extends s now (r ∷ rs) =
    Extends-trans (ensure-Extends s now r.child) (desired-Extends (ensure s now r.child).0 now rs)

pub delete_stale-Extends :
    (s : EntityStore) (now : ℕ) (desired : List (String × RelationType × ℕ))
    (es : List EntityEnvelope)
    → Extends s.database (delete_stale desired s now es).database
unfolding delete_stale
delete_stale-Extends s now desired [] = Extends-refl s.database
delete_stale-Extends s now desired (e ∷ es) =
    let (s', fk) = ensure s now e.identity in
    Extends-trans (ensure-Extends s now e.identity) (
      delete_stale-Extends
        (record s' { relations = keep_desired desired fk (stable_key e.identity) s'.relations }) now
        desired es)

pub persist_relation-Extends :
    (s : EntityStore) (now : ℕ) (r : EntityRelation)
    → Extends s.database (persist_relation s now r).database
unfolding persist_relation
persist_relation-Extends s now r =
    let first = ensure-Extends s now r.parent in
    let second = ensure-Extends (ensure s now r.parent).0 now r.child in
    record { keeps = λ i k h. second.keeps i k (first.keeps i k h) }

pub persist_relations-Extends :
    (s : EntityStore) (now : ℕ) (rs : List EntityRelation)
    → Extends s.database (persist_relations s now rs).database
unfolding persist_relations
persist_relations-Extends s now [] = Extends-refl s.database
persist_relations-Extends s now (r ∷ rs) =
    Extends-trans (persist_relation-Extends s now r)
      (persist_relations-Extends (persist_relation s now r) now rs)

source_eq→eq : (a b : Source) → source_eq a b ≡ true → a ≡ b
source_eq→eq a b h = ground arith

pub same_identity-stable_key :
    (a b : EntityIdentity) → same_identity a b ≡ true → stable_key a ≡ stable_key b
unfolding same_identity stable_key
same_identity-stable_key a b h =
    let s = source_eq→eq a.source b.source (ground arith) in
    let t = type_eq→eq a.entity_type b.entity_type (ground arith) in
    let i : a.source_entity_id ≡ b.source_entity_id =
      ground (arith, eq_iff a.source_entity_id b.source_entity_id) in
    rw (s, t, i)

find?-is_of :
    (rows : List SourceEntityRow) (i : EntityIdentity) (r : SourceEntityRow)
    → find? (is_of i) rows ≡ some r
    → same_identity r.identity i ≡ true
find?-is_of [] i r h = ground arith
find?-is_of (x ∷ rows) i r h = elim (Bool-cases (is_of i x)) [
  | inl here ↦ let e : x ≡ r = ground arith in subst (λ z. same_identity z.identity i ≡ true) e here
  | inr later ↦ find?-is_of rows i r (ground arith)
]

-- Entities with one id have one key.
pub id_of-inj :
    (db : Database) (a b : EntityIdentity) (k : ℕ)
    → HasIds db.next_entity_id db.source_entities
    → id_of db a ≡ some k
    → id_of db b ≡ some k
    → stable_key a ≡ stable_key b
unfolding id_of
id_of-inj db a b k v ha hb =
    let rows = db.source_entities in
    elim (Option-cases (find? (is_of a) rows)) [
      | inl n ↦ absurd (ground arith)
      | inr (x, fx) ↦ elim (Option-cases (find? (is_of b) rows)) [
        | inl n ↦ absurd (ground arith)
        | inr (y, fy) ↦
            let same_id : x.id ≡ y.id = ground arith in
            let same_row : x ≡ y = ground (
              arith,
              find?-id rows db.next_entity_id (is_of a) x v fx,
              find?-id rows db.next_entity_id (is_of b) y v fy,
              same_id,
            ) in
            sym (same_identity-stable_key x.identity a (find?-is_of rows a x fx))
            ∙ (ap (λ z. stable_key z.identity) same_row
                ∙ same_identity-stable_key y.identity b (find?-is_of rows b y fy))
      ]
    ]
