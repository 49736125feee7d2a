-- ===== src/Persistence/Entities/Reconciled.antt =====
-- That `persist` of infrastructure/persistence/postgres/repositories.py leaves the relations of a batch
-- as the batch has them.
use govpars.Prelude.{
  ℕ, String, ◌≡◌, refl, sym, ◌∙◌, subst, inl, inr, Bool, true, not, ◌||◌, Option, none, some, List,
  [], ◌∷◌, arith, eq_iff, Bool-cases, Option-cases, all,
}
use govpars.Prelude.Sort.{sort_by, all-sort_by}
use govpars.Domain.Errors.{ok, Result-cases}
use govpars.Domain.Models.{
  DocumentMetadata, EntityEnvelope, EntityRelation, RelationType, stable_key, identity_le,
}
use govpars.Persistence.Tables.{Database}
use govpars.Persistence.EntityTables.{EntityRelationRow, EntityStore}
use govpars.Persistence.EntityContents.{ensure}
use govpars.Persistence.Entities.{
  relation_type_eq, desired_relations, delete_stale, upsert_relation, persist_relation,
  persist_relations, reconcile_relations, persist_envelopes, ensure_all, mentioned, persist,
  relation_le,
}
use govpars.Persistence.Entities.Rows.{HasIds}
use govpars.Persistence.Entities.Hashes.{Sound}
use govpars.Persistence.Entities.Persisted.{persist-Implements}
use govpars.Persistence.Entities.Ids.{
  id_of, Extends, Extends-refl, ensure-Extends, ensure-id, delete_stale-Extends,
  persist_relations-Extends, id_of-inj,
}
use govpars.Persistence.Entities.Relations.{
  is_id, wanted, is_accounted, has_row, desired-wanted, delete_stale-accounted,
}

relation_type_eq_self : (t : RelationType) → relation_type_eq t t ≡ true
relation_type_eq_self t = ground arith

type_eq_trans :
    (a b c : RelationType)
    → relation_type_eq a b ≡ true
    → relation_type_eq a c ≡ relation_type_eq b c
type_eq_trans a b c h = ground arith

all_mono :
    {A : Type 0} (p q : A → Bool) (xs : List A)
    → ((x : A) → p x ≡ true → q x ≡ true)
    → all p xs ≡ true
    → all q xs ≡ true
all_mono p q [] f h = refl
all_mono p q (x ∷ xs) f h = ground (arith, f x, all_mono p q xs f)

is_id-eq : (o : Option ℕ) (k : ℕ) → is_id o k ≡ true → o ≡ some k
is_id-eq none k h = ground arith
is_id-eq (some i) k h = ground arith

module _ (db : Database) where
  -- A relation of the list is wanted by it.
  listed : List EntityRelation → EntityRelation → Bool
  listed rs r = elim (id_of db r.child) [
    | none ↦ true
    | some c ↦ wanted db rs (stable_key r.parent) r.relation_type c
  ]

  all-listed : (rs : List EntityRelation) → all (listed rs) rs ≡ true
  unfolding listed wanted
  all-listed [] = refl
  all-listed (r ∷ rs) = ground (
    arith,
    eq_iff (stable_key r.parent) (stable_key r.parent),
    relation_type_eq_self r.relation_type,
    all_mono (listed rs) (listed (r ∷ rs)) rs
        (λ x h. ground (arith, h, Option-cases (id_of db x.child))) (all-listed rs),
  )

  all-upsert_relation :
      (p : EntityRelationRow → Bool) (rows : List EntityRelationRow) (new : EntityRelationRow)
      → ((row : EntityRelationRow) (r : EntityRelationRow)
          → p row ≡ true
          → p (record row { source_payload = r.source_payload; last_seen_at = r.last_seen_at })
            ≡ true)
      → p new ≡ true
      → all p rows ≡ true
      → all p (upsert_relation rows new) ≡ true
  unfolding upsert_relation
  all-upsert_relation p [] new keep n h = rw n
  all-upsert_relation p (row ∷ rows) new keep n h =
      ground (arith, keep row new, n, all-upsert_relation p rows new keep n)

  listed-wanted :
      (rs : List EntityRelation) (r : EntityRelation) (c : ℕ)
      → id_of db r.child ≡ some c
      → listed rs r ≡ true
      → wanted db rs (stable_key r.parent) r.relation_type c ≡ true
  unfolding listed
  listed-wanted rs r c q h = ground (arith, q, h)

  has_row-upsert_own :
      (rows : List EntityRelationRow) (r : EntityRelation) (new : EntityRelationRow)
      → id_of db r.parent ≡ some new.parent_source_entity_fk
      → id_of db r.child ≡ some new.child_source_entity_fk
      → new.relation_type ≡ r.relation_type
      → has_row db (upsert_relation rows new) r ≡ true
  unfolding has_row upsert_relation
  has_row-upsert_own [] r new p c t = ground (arith, relation_type_eq_self r.relation_type, p, c, t)
  has_row-upsert_own (row ∷ rows) r new p c t = ground (
    arith,
    relation_type_eq_self r.relation_type,
    p,
    c,
    t,
    type_eq_trans row.relation_type new.relation_type r.relation_type,
    has_row-upsert_own rows r new p c t,
  )

  has_row-upsert :
      (rows : List EntityRelationRow) (r : EntityRelation) (new : EntityRelationRow)
      → has_row db rows r ≡ true
      → has_row db (upsert_relation rows new) r ≡ true
  unfolding has_row upsert_relation
  has_row-upsert [] r new h = ground arith
  has_row-upsert (row ∷ rows) r new h = ground (arith, has_row-upsert rows r new)

  module _ (relations : List EntityRelation)
      (ids : HasIds db.next_entity_id db.source_entities) where
    new-accounted :
        (e : EntityEnvelope) (r : EntityRelation) (parent child : ℕ)
        → id_of db r.parent ≡ some parent
        → id_of db r.child ≡ some child
        → listed relations r ≡ true
        → (not (is_id (id_of db e.identity) parent)
            || wanted db relations (stable_key e.identity) r.relation_type child)
          ≡ true
    new-accounted e r parent child p c h = elim (Bool-cases (is_id (id_of db e.identity) parent)) [
      | inl hit ↦
          let key =
            id_of-inj db r.parent e.identity parent ids p
              (is_id-eq (id_of db e.identity) parent hit) in
          rw (hit, sym key, listed-wanted relations r child c h) refl
      | inr miss ↦ rw miss refl
    ]

    persist_relations-accounted :
        (e : EntityEnvelope) (s : EntityStore) (now : ℕ) (rs : List EntityRelation)
        → Extends (persist_relations s now rs).database db
        → all (listed relations) rs ≡ true
        → all (is_accounted db relations e) s.relations ≡ true
        → all (is_accounted db relations e) (persist_relations s now rs).relations ≡ true
    unfolding persist_relations persist_relation is_accounted ensure
    persist_relations-accounted e s now [] later l h = h
    persist_relations-accounted e s now (r ∷ rs) later l h =
        let s1 = (ensure s now r.parent).0 in
        let s2 = (ensure s1 now r.child).0 in
        let end = persist_relations-Extends (persist_relation s now r) now rs in
        let after2 : Extends s2.database db = record {
          keeps = λ i k q. later.keeps i k (end.keeps i k q);
        } in
        let after1 : Extends s1.database db = record {
          keeps = λ i k q. after2.keeps i k ((ensure-Extends s1 now r.child).keeps i k q);
        } in
        persist_relations-accounted e (persist_relation s now r) now rs later (ground (arith, l)) (
          all-upsert_relation (is_accounted db relations e) s.relations _ (λ row x q. q)
            (new-accounted e r (ensure s now r.parent).1 (ensure s1 now r.child).1
              (ensure-id s now r.parent db after1) (ensure-id s1 now r.child db after2)
              (ground (arith, l)))
            h)

  persist_relations-has_row :
      (q : EntityRelation) (s : EntityStore) (now : ℕ) (rs : List EntityRelation)
      → has_row db s.relations q ≡ true
      → has_row db (persist_relations s now rs).relations q ≡ true
  unfolding persist_relations persist_relation ensure
  persist_relations-has_row q s now [] h = h
  persist_relations-has_row q s now (r ∷ rs) h =
      persist_relations-has_row q (persist_relation s now r) now rs
        (has_row-upsert s.relations q _ h)

  persist_relations-all :
      (s : EntityStore) (now : ℕ) (rs : List EntityRelation)
      → Extends (persist_relations s now rs).database db
      → all (has_row db (persist_relations s now rs).relations) rs ≡ true
  unfolding persist_relations persist_relation ensure
  persist_relations-all s now [] later = refl
  persist_relations-all s now (r ∷ rs) later =
      let s1 = (ensure s now r.parent).0 in
      let s2 = (ensure s1 now r.child).0 in
      let end = persist_relations-Extends (persist_relation s now r) now rs in
      let after2 : Extends s2.database db = record {
        keeps = λ i k q. later.keeps i k (end.keeps i k q);
      } in
      let after1 : Extends s1.database db = record {
        keeps = λ i k q. after2.keeps i k ((ensure-Extends s1 now r.child).keeps i k q);
      } in
      ground (
        arith,
        persist_relations-all (persist_relation s now r) now rs later,
        persist_relations-has_row r (persist_relation s now r) now rs (
            has_row-upsert_own s.relations r _ (ensure-id s now r.parent db after1)
              (ensure-id s1 now r.child db after2) refl),
      )

-- From sound tables, after a batch is persisted, every row of `entity_relations` whose parent is an
-- entity of the batch is a relation of the batch (by the parent's key, the type and the child), and
-- every relation of the batch has its row: the stale ones are gone and none is missing.
pub persist-relations :
    (digest : DocumentMetadata → String) (extension : DocumentMetadata → Option String)
    (mode : String) (s s' : EntityStore) (now : ℕ) (entities : List EntityEnvelope)
    (relations : List EntityRelation)
    → Sound s.database s.contents
    → persist digest extension mode s now entities relations ≡ ok s'
    → (all (λ e. all (is_accounted s'.database relations e) s'.relations) entities ≡ true)
      × (all (has_row s'.database s'.relations) relations ≡ true)
unfolding persist reconcile_relations
persist-relations digest extension mode s s' now entities relations v h =
    let s0 = ensure_all s now (sort_by identity_le (mentioned entities relations)) in
    let es = sort_by (λ a b. identity_le a.identity b.identity) entities in
    let rs = sort_by relation_le relations in
    let ids =
      (persist-Implements digest extension mode s s' now entities relations v h).sound.ids in
    elim (Result-cases (persist_envelopes digest extension mode s0 now es)) [
      | inl (s1, q) ↦
          let (s2, desired) = desired_relations s1 now relations in
          let s3 = delete_stale desired s2 now entities in
          let end : persist_relations s3 now rs ≡ s' = ground arith in
          let last : Extends (persist_relations s3 now rs).database s'.database =
            subst (λ z. Extends (persist_relations s3 now rs).database z.database) end
              (Extends-refl (persist_relations s3 now rs).database) in
          let third : Extends s3.database s'.database = record {
            keeps = λ i k p. last.keeps i k ((persist_relations-Extends s3 now rs).keeps i k p);
          } in
          let second : Extends s2.database s'.database = record {
            keeps = λ i k p.
                third.keeps i k ((delete_stale-Extends s2 now desired entities).keeps i k p);
          } in
          let listed_all =
            all-sort_by (listed s'.database relations) relation_le relations
            ∙ all-listed s'.database relations in
          (
            all_mono (λ e. all (is_accounted s'.database relations e) s3.relations)
                (λ e. all (is_accounted s'.database relations e) s'.relations) entities
                (λ e p.
                  subst (λ z. all (is_accounted s'.database relations e) z.relations ≡ true) end
                    (persist_relations-accounted s'.database relations ids e s3 now rs last
                      listed_all p))
                (delete_stale-accounted s'.database relations s2 now desired entities third
                  (λ key row.
                    desired-wanted s'.database relations s1 now relations key row second)),
            subst (λ z. all (has_row s'.database z.relations) relations ≡ true) end
                (sym (
                    all-sort_by (has_row s'.database (persist_relations s3 now rs).relations)
                      relation_le relations)
                  ∙ persist_relations-all s'.database s3 now rs last),
          )
      | inr (x, q) ↦ absurd (ground arith)
    ]
