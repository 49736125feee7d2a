-- ===== src/Persistence/Entities/Persisted.antt =====
-- `persist` of infrastructure/persistence/postgres/repositories.py as a refinement of the abstract
-- view, in which an entity has a current hash and a batch writes its hashes in turn.
use govpars.Prelude.{
  ℕ, String, ◌≡◌, refl, ap, ◌∙◌, subst, inl, inr, Option, none, some, List, [], ◌∷◌, arith,
  if◌then◌else◌, find?,
}
use govpars.Prelude.Sort.{sort_by}
use govpars.Domain.Errors.{ok, ◌>>=◌, Result-cases}
use govpars.Domain.Models.{
  DocumentMetadata, EntityIdentity, EntityEnvelope, EntityRelation, RelationType, same_identity,
  identity_le, stable_key,
}
use govpars.Persistence.Tables.{SourceEntityRow, Database}
use govpars.Persistence.Enqueue.{ensure_source_entity}
use govpars.Persistence.EntityTables.{ContentRow, EntityStore}
use govpars.Persistence.EntityContents.{ensure}
use govpars.Persistence.Entities.{
  persist_row, persist_envelope, persist_envelopes, desired_relations, delete_stale,
  reconcile_relations, persist_relation, persist_relations, ensure_all, mentioned, persist,
  relation_le, keep_desired,
}
use govpars.Persistence.Entities.Rows.{
  same_identity_self, is_of, ensured_row, find?-upsert, upsert-id,
}
use govpars.Persistence.Entities.Hashes.{Sound, current_hash, ensure-Keeps}
use govpars.Persistence.Entities.Refines.{write, persist_row-Writes}

-- A whole step: sound tables again, and the hashes as the abstract view has them.
pub record Implements (db' : Database) (contents' : List ContentRow)
    (view : EntityIdentity → Option String) : Type 0 where
  pub sound : Sound db' contents'
  pub hashes : (i : EntityIdentity) → current_hash db' i ≡ view i

abbrev pub StoreImplements : EntityStore → (EntityIdentity → Option String) → Type 0
StoreImplements s view = Implements s.database s.contents view

abbrev pub write_all :
    List EntityEnvelope → (EntityIdentity → Option String) → EntityIdentity → Option String
write_all [] view = view
write_all (e ∷ es) view = write_all es (write e.identity e.content_hash view)

module _ (view : EntityIdentity → Option String) where
  pub ensure-Implements :
      (s : EntityStore) (now : ℕ) (i : EntityIdentity)
      → StoreImplements s view
      → StoreImplements (ensure s now i).0 view
  unfolding ensure
  ensure-Implements s now i m =
      let k = ensure-Keeps s now i m.sound in
      record { sound = k.sound; hashes = λ j. k.same j ∙ m.hashes j }

  pub ensure_all-Implements :
      (s : EntityStore) (now : ℕ) (is : List EntityIdentity)
      → StoreImplements s view
      → StoreImplements (ensure_all s now is) view
  unfolding ensure_all
  ensure_all-Implements s now [] m = m
  ensure_all-Implements s now (i ∷ is) m =
      ensure_all-Implements (ensure s now i).0 now is (ensure-Implements s now i m)

  desired-Implements :
      (s : EntityStore) (now : ℕ) (rs : List EntityRelation)
      → StoreImplements s view
      → StoreImplements (desired_relations s now rs).0 view
  unfolding desired_relations
  desired-Implements s now [] m = m
  desired-Implements s now (r ∷ rs) m =
      desired-Implements (ensure s now r.child).0 now rs (ensure-Implements s now r.child m)

  delete_stale-Implements :
      (s : EntityStore) (now : ℕ) (desired : List (String × RelationType × ℕ))
      (es : List EntityEnvelope)
      → StoreImplements s view
      → StoreImplements (delete_stale desired s now es) view
  unfolding delete_stale
  delete_stale-Implements s now desired [] m = m
  delete_stale-Implements s now desired (e ∷ es) m =
      let (s', fk) = ensure s now e.identity in
      let step = ensure-Implements s now e.identity m in
      delete_stale-Implements
        (record s' { relations = keep_desired desired fk (stable_key e.identity) s'.relations }) now
        desired es (record { sound = step.sound; hashes = step.hashes })

  persist_relations-Implements :
      (s : EntityStore) (now : ℕ) (rs : List EntityRelation)
      → StoreImplements s view
      → StoreImplements (persist_relations s now rs) view
  unfolding persist_relations persist_relation
  persist_relations-Implements s now [] m = m
  persist_relations-Implements s now (r ∷ rs) m =
      let first = ensure-Implements s now r.parent m in
      let second = ensure-Implements (ensure s now r.parent).0 now r.child first in
      persist_relations-Implements (persist_relation s now r) now rs
        (record { sound = second.sound; hashes = second.hashes })

-- The row of an ensured entity.
pub ensured :
    (s : EntityStore) (now : ℕ) (i : EntityIdentity)
    → (r : SourceEntityRow) × (find? (is_of i) (ensure s now i).0.database.source_entities ≡ some r)
      × ((ensure s now i).1 ≡ r.id)
unfolding ensure ensure_source_entity
ensured s now i =
    let rows = s.database.source_entities in
    let next = s.database.next_entity_id in
    (
      ensured_row (find? (is_of i) rows) next i none now,
      ground (arith, find?-upsert rows next i i none now, same_identity_self i),
      upsert-id rows next i none now,
    )

module _ (digest : DocumentMetadata → String) (extension : DocumentMetadata → Option String)
    (mode : String) where
  pub persist_envelope-Implements :
      (s s' : EntityStore) (now : ℕ) (e : EntityEnvelope) (view : EntityIdentity → Option String)
      → StoreImplements s view
      → persist_envelope digest extension mode s now e ≡ ok s'
      → StoreImplements s' (write e.identity e.content_hash view)
  unfolding persist_envelope write
  persist_envelope-Implements s s' now e view m h =
      let (s1, fk) = ensure s now e.identity in
      let m1 = ensure-Implements view s now e.identity m in
      let (r, found, is_id) = ensured s now e.identity in
      let w =
        persist_row-Writes digest extension mode s1 s' r e m1.sound found
          (subst (λ k. persist_row digest extension mode s1 k e ≡ ok s') is_id h) in
      record {
        sound = w.sound;
        hashes = λ j.
            w.hashes j
            ∙ ap (λ o. if same_identity e.identity j then some e.content_hash else o) (m1.hashes j);
      }

  persist_envelopes-Implements :
      (s s' : EntityStore) (now : ℕ) (es : List EntityEnvelope)
      (view : EntityIdentity → Option String)
      → StoreImplements s view
      → persist_envelopes digest extension mode s now es ≡ ok s'
      → StoreImplements s' (write_all es view)
  unfolding persist_envelopes
  persist_envelopes-Implements s s' now [] view m h =
      let e : s ≡ s' = ground arith in subst (λ z. StoreImplements z view) e m
  persist_envelopes-Implements s s' now (e ∷ es) view m h =
      elim (Result-cases (persist_envelope digest extension mode s now e)) [
        | inl (s1, q) ↦
            persist_envelopes-Implements s1 s' now es (write e.identity e.content_hash view)
              (persist_envelope-Implements s s1 now e view m q)
              (subst (λ o. (o >>= λ z. persist_envelopes digest extension mode z now es) ≡ ok s') q
                h)
        | inr (x, q) ↦ absurd (ground arith)
      ]

-- From sound tables, a batch that is persisted leaves sound tables (distinct ids, and each current
-- hash the hash of the content that is stored for the entity), and the current hashes are those from
-- before with the hashes of the batch written over them in the order of the identities: what the
-- relations, the revisions and the children need never touches the hash of another entity.
pub persist-Implements :
    (digest : DocumentMetadata → String) (extension : DocumentMetadata → Option String)
    (mode : String) (s s' : EntityStore) (now : ℕ) (entities : List EntityEnvelope)
    (relations : List EntityRelation)
    → Sound s.database s.contents
    → persist digest extension mode s now entities relations ≡ ok s'
    → Implements s'.database s'.contents (
        write_all
          (sort_by (λ a b. identity_le a.identity b.identity) entities)
          (current_hash s.database))
unfolding persist reconcile_relations
persist-Implements digest extension mode s s' now entities relations v h =
    let s0 = ensure_all s now (sort_by identity_le (mentioned entities relations)) in
    let sorted = sort_by (λ a b. identity_le a.identity b.identity) entities in
    let m0 =
      ensure_all-Implements (current_hash s.database) s now
        (sort_by identity_le (mentioned entities relations))
        (record { sound = v; hashes = λ j. refl }) in
    elim (Result-cases (persist_envelopes digest extension mode s0 now sorted)) [
      | inl (s1, q) ↦
          let view = write_all sorted (current_hash s.database) in
          let m1 = persist_envelopes-Implements digest extension mode s0 s1 now sorted _ m0 q in
          let (s2, desired) = desired_relations s1 now relations in
          let end : persist_relations (delete_stale desired s2 now entities) now
                (sort_by relation_le relations)
              ≡ s' =
            ground arith in
          subst (λ z. StoreImplements z view) end
            (persist_relations-Implements view (delete_stale desired s2 now entities) now
              (sort_by relation_le relations)
              (delete_stale-Implements view s2 now desired entities
                (desired-Implements view s1 now relations m1)))
      | inr (x, q) ↦ absurd (ground arith)
    ]
