-- ===== src/Persistence/Entities/Unchanged.antt =====
-- `persist` of infrastructure/persistence/postgres/repositories.py on entities that are stored already.
use govpars.Prelude.{
  ℕ, String, ◌≡◌, refl, sym, ap, ◌∙◌, Bool, true, Option, none, some, List, [], ◌∷◌, arith, eq_iff,
  all,
}
use govpars.Prelude.Sort.{sort_by, all-sort_by}
use govpars.Domain.Errors.{ok, ◌>>=◌}
use govpars.Domain.Models.{
  DocumentMetadata, EntityIdentity, EntityEnvelope, EntityRelation, RelationType, identity_le,
  stable_key,
}
use govpars.Persistence.Tables.{SourceEntityRow, Database}
use govpars.Persistence.EntityTables.{EntityStore}
use govpars.Persistence.EntityContents.{ensure, update_entity, previous_hash, has_hash}
use govpars.Persistence.Entities.{
  persist_row, persist_envelope, persist_envelopes, desired_relations, delete_stale,
  reconcile_relations, persist_relation, persist_relations, ensure_all, mentioned, persist,
  relation_le, keep_desired,
}
use govpars.Persistence.Entities.Rows.{find?-same}
use govpars.Persistence.Entities.Hashes.{Sound, current_hash}
use govpars.Persistence.Entities.Refines.{previous_hash_lem, has_hash-eq, write}
use govpars.Persistence.Entities.Persisted.{
  StoreImplements, ensure-Implements, ensure_all-Implements, ensured, persist_envelope-Implements,
}

-- Nothing of the contents, their revisions and the children differs.
pub record SameContents (s s' : EntityStore) : Type 0 where
  pub contents : s'.contents ≡ s.contents
  pub revisions : s'.revisions ≡ s.revisions
  pub delivery_places : s'.delivery_places ≡ s.delivery_places
  pub documents : s'.documents ≡ s.documents
  pub payment_terms : s'.payment_terms ≡ s.payment_terms

SameContents-trans : {a b c : EntityStore} → SameContents a b → SameContents b c → SameContents a c
SameContents-trans p q = record {
  contents = q.contents ∙ p.contents;
  revisions = q.revisions ∙ p.revisions;
  delivery_places = q.delivery_places ∙ p.delivery_places;
  documents = q.documents ∙ p.documents;
  payment_terms = q.payment_terms ∙ p.payment_terms;
}

same : {s : EntityStore} (db : Database) → SameContents s (record s { database = db })
same db = record {
  contents = refl;
  revisions = refl;
  delivery_places = refl;
  documents = refl;
  payment_terms = refl;
}

ensure_all-same :
    (s : EntityStore) (now : ℕ) (is : List EntityIdentity) → SameContents s (ensure_all s now is)
unfolding ensure_all ensure
ensure_all-same s now [] = same s.database
ensure_all-same s now (i ∷ is) =
    SameContents-trans (same _) (ensure_all-same (ensure s now i).0 now is)

desired-same :
    (s : EntityStore) (now : ℕ) (rs : List EntityRelation)
    → SameContents s (desired_relations s now rs).0
unfolding desired_relations ensure
desired-same s now [] = same s.database
desired-same s now (r ∷ rs) =
    SameContents-trans (same _) (desired-same (ensure s now r.child).0 now rs)

-- The hash that is current for each of the envelopes is its own.
abbrev pub is_stored : (EntityIdentity → Option String) → EntityEnvelope → Bool
is_stored view e = has_hash (view e.identity) e.content_hash

module _ (digest : DocumentMetadata → String) (extension : DocumentMetadata → Option String)
    (mode : String) where
  -- One envelope: it is persisted, nothing but its dates changes, and no current hash does.
  persist_envelope-stored :
      (s : EntityStore) (now : ℕ) (e : EntityEnvelope)
      → Sound s.database s.contents
      → is_stored (current_hash s.database) e ≡ true
      → (s' : EntityStore) × (persist_envelope digest extension mode s now e ≡ ok s')
        × SameContents s s'
        × StoreImplements s' (current_hash s.database)
  unfolding persist_envelope persist_row write current_hash ensure
  persist_envelope-stored s now e v h =
      let (s1, fk) = ensure s now e.identity in
      let view = current_hash s.database in
      let m1 = ensure-Implements view s now e.identity (record { sound = v; hashes = λ j. refl }) in
      let (r, found, is_id) = ensured s now e.identity in
      let current : view e.identity ≡ some e.content_hash =
        has_hash-eq (view e.identity) e.content_hash h in
      let before : previous_hash s1 fk ≡ some e.content_hash =
        ap (previous_hash s1) is_id
        ∙ (previous_hash_lem s1 e.identity r m1.sound found
            ∙ (sym (ap current_of found) ∙ (m1.hashes e.identity ∙ current))) in
      let s' = update_entity fk (λ x. record x { last_success_at = some e.fetched_at }) s1 in
      let done : persist_envelope digest extension mode s now e ≡ ok s' =
        ground (arith, before, eq_iff e.content_hash e.content_hash) in
      let m' =
        persist_envelope-Implements digest extension mode s s' now e view
          (record { sound = v; hashes = λ j. refl }) done in
      (
        s',
        done,
        same s'.database,
        record {
          sound = m'.sound;
          hashes = λ j.
              m'.hashes j
              ∙ ground (arith, current, find?-same s.database.source_entities e.identity j);
        },
      )
    where
      current_of : Option SourceEntityRow → Option String
      current_of o = elim o [ none ↦ none | some x ↦ x.current_content_hash ]

  persist_envelopes-stored :
      (s : EntityStore) (now : ℕ) (es : List EntityEnvelope) (view : EntityIdentity → Option String)
      → StoreImplements s view
      → all (is_stored view) es ≡ true
      → (s' : EntityStore) × (persist_envelopes digest extension mode s now es ≡ ok s')
        × SameContents s s'
  unfolding persist_envelopes
  persist_envelopes-stored s now [] view m h = (s, refl, same s.database)
  persist_envelopes-stored s now (e ∷ es) view m h =
      let (s1, q1, same1, m1) =
        persist_envelope-stored s now e m.sound
          (ap (λ o. has_hash o e.content_hash) (m.hashes e.identity) ∙ ground (arith, h)) in
      let (s2, q2, same2) =
        persist_envelopes-stored s1 now es view
          (record { sound = m1.sound; hashes = λ j. m1.hashes j ∙ m.hashes j })
          (ground (arith, h)) in
      (
        s2,
        ap (λ o. o >>= λ z. persist_envelopes digest extension mode z now es) q1 ∙ q2,
        SameContents-trans same1 same2,
      )

delete_stale-same :
    (s : EntityStore) (now : ℕ) (desired : List (String × RelationType × ℕ))
    (es : List EntityEnvelope)
    → SameContents s (delete_stale desired s now es)
unfolding delete_stale ensure
delete_stale-same s now desired [] = same s.database
delete_stale-same s now desired (e ∷ es) =
    let (s', fk) = ensure s now e.identity in
    SameContents-trans
      (record {
        contents = refl;
        revisions = refl;
        delivery_places = refl;
        documents = refl;
        payment_terms = refl;
      })
      (delete_stale-same
        (record s' { relations = keep_desired desired fk (stable_key e.identity) s'.relations }) now
        desired es)

persist_relations-same :
    (s : EntityStore) (now : ℕ) (rs : List EntityRelation)
    → SameContents s (persist_relations s now rs)
unfolding persist_relations persist_relation ensure
persist_relations-same s now [] = same s.database
persist_relations-same s now (r ∷ rs) =
    SameContents-trans
      (record {
        contents = refl;
        revisions = refl;
        delivery_places = refl;
        documents = refl;
        payment_terms = refl;
      })
      (persist_relations-same (persist_relation s now r) now rs)

-- In sound tables, where the ids are distinct and below the next one and each current hash is that of
-- a stored content, and where the current hash of each entity of a batch is the one in its envelope, the batch is persisted
-- without an exception, and no content, revision, delivery place, document or payment terms change,
-- whatever else the envelopes hold.
pub persist-SameContents :
    (digest : DocumentMetadata → String) (extension : DocumentMetadata → Option String)
    (mode : String) (s : EntityStore) (now : ℕ) (entities : List EntityEnvelope)
    (relations : List EntityRelation)
    → Sound s.database s.contents
    → all (is_stored (current_hash s.database)) entities ≡ true
    → (s' : EntityStore) × (persist digest extension mode s now entities relations ≡ ok s')
      × SameContents s s'
unfolding persist reconcile_relations
persist-SameContents digest extension mode s now entities relations v h =
    let view = current_hash s.database in
    let ids = sort_by identity_le (mentioned entities relations) in
    let s0 = ensure_all s now ids in
    let le = λ (a : EntityEnvelope) (b : EntityEnvelope). identity_le a.identity b.identity in
    let m0 = ensure_all-Implements view s now ids (record { sound = v; hashes = λ j. refl }) in
    let (s1, q, same1) =
      persist_envelopes-stored digest extension mode s0 now (sort_by le entities) view m0
        (all-sort_by (is_stored view) le entities ∙ h) in
    let (s2, desired) = desired_relations s1 now relations in
    let s3 = delete_stale desired s2 now entities in
    (
      persist_relations s3 now (sort_by relation_le relations),
      ap
          (λ o. o >>= λ z. ok (
            persist_relations (reconcile_relations z now entities relations) now
              (sort_by relation_le relations)))
          q,
      SameContents-trans (ensure_all-same s now ids) (
          SameContents-trans same1 (
            SameContents-trans (desired-same s1 now relations) (
              SameContents-trans (delete_stale-same s2 now desired entities)
                (persist_relations-same s3 now (sort_by relation_le relations))))),
    )
