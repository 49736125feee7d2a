-- ===== src/Examples/Entities.antt =====
-- Two entities and a relation for
-- src/procurement_parser/infrastructure/persistence/postgres/repositories.py.
use govpars.Prelude.{ℕ, String, ◌≡◌, refl, true, Option, none, some, List, [], ◌∷◌, length, all}
use govpars.Prelude.Sort.{sort_by}
use govpars.Domain.Errors.{Result, ok, raised}
use govpars.Domain.Models.{
  zakup_sk, lot, notice, EntityIdentity, EntityEnvelope, EntityRelation, notice_to_lot, stable_key,
  DocumentMetadata, identity_le, same_identity,
}
use govpars.Prelude.Dict.{put}
use govpars.Persistence.Enqueue.{ensure_source_entity}
use govpars.Persistence.EntityContents.{
  previous_hash, ensure, columns_for, replace_children, add_revision, upsert_content, is_content,
  content_values,
}
use govpars.Persistence.EntityTables.{EntityStore}
use govpars.Persistence.Entities.{persist, persist_envelope}
use govpars.Persistence.Entities.Hashes.{Sound, current_hash}
use govpars.Persistence.Entities.Persisted.{Implements, write_all, persist-Implements}
use govpars.Persistence.Entities.Unchanged.{SameContents, persist-SameContents}
use govpars.Persistence.Entities.Relations.{is_accounted, has_row}
use govpars.Persistence.Entities.Reconciled.{persist-relations}
use govpars.Examples.Records.{no_fields}

abbrev the_notice : EntityIdentity
the_notice = record {
  source = zakup_sk;
  entity_type = notice;
  source_entity_id = "5";
  business_number = none;
  canonical_url = "https://zakup.sk.kz/#/ext?tabs=advert&adv=5";
}

abbrev the_lot : EntityIdentity
the_lot = record {
  source = zakup_sk;
  entity_type = lot;
  source_entity_id = "71";
  business_number = some "71-1";
  canonical_url = "https://zakup.sk.kz/#/ext?tabs=lot&lot=71";
}

abbrev notice_envelope : EntityEnvelope
notice_envelope = record {
  identity = the_notice;
  fields = no_fields;
  source_payload = ("id", "5") ∷ [];
  fetched_at = 100;
  content_hash = "aa";
}

abbrev has_lot : EntityRelation
has_lot = record {
  source = zakup_sk;
  relation_type = notice_to_lot;
  parent = the_notice;
  child = the_lot;
  source_payload = [];
}

abbrev empty_store : EntityStore
empty_store = record {
  database = record {
    source_entities = [];
    crawl_frontier = [];
    crawl_task_history = [];
    fetch_failures = [];
    next_entity_id = 1;
    next_frontier_id = 1;
  };
  contents = [];
  revisions = [];
  delivery_places = [];
  documents = [];
  payment_terms = [];
  relations = [];
}

abbrev digest : DocumentMetadata → String
digest d = "0f"

abbrev extension : DocumentMetadata → Option String
extension d = none

abbrev persist_at : EntityStore → ℕ → String → List EntityRelation → Result EntityStore
persist_at s now hash relations =
    persist digest extension "changes" s now (record notice_envelope { content_hash = hash } ∷ [])
      relations

abbrev or_else : Result EntityStore → EntityStore → EntityStore
or_else (ok s) t = s
or_else (raised e) t = t

abbrev first_store : EntityStore
first_store = or_else (persist_at empty_store 100 "aa" (has_lot ∷ [])) empty_store

abbrev second_store : EntityStore
second_store = or_else (persist_at first_store 200 "bb" []) first_store

first_persisted : persist_at empty_store 100 "aa" (has_lot ∷ []) ≡ ok first_store
unfolding persist sort_by persist_envelope previous_hash ensure ensure_source_entity put stable_key
    identity_le same_identity columns_for replace_children
first_persisted = refl

second_persisted : persist_at first_store 200 "bb" [] ≡ ok second_store
unfolding persist sort_by persist_envelope previous_hash ensure ensure_source_entity put stable_key
    identity_le same_identity columns_for replace_children
second_persisted = refl

-- The old content is kept as a revision, and the relation is gone.
one_revision : length second_store.revisions ≡ 1
unfolding persist sort_by persist_envelope previous_hash ensure ensure_source_entity put stable_key
    identity_le same_identity columns_for replace_children add_revision upsert_content is_content
    content_values
one_revision = refl

no_relation : length second_store.relations ≡ 0
unfolding persist sort_by persist_envelope previous_hash ensure ensure_source_entity put stable_key
    identity_le same_identity columns_for replace_children
no_relation = refl

empty-Sound : Sound empty_store.database empty_store.contents
empty-Sound = record { ids = tt; hashes = refl }

first-Sound : Sound first_store.database first_store.contents
first-Sound =
    (persist-Implements digest extension "changes" empty_store first_store 100
      (record notice_envelope { content_hash = "aa" } ∷ []) (has_lot ∷ []) empty-Sound
      first_persisted).sound

persist-Implements_example : Implements second_store.database second_store.contents (
    write_all
      (sort_by
        (λ (a : EntityEnvelope) (b : EntityEnvelope). identity_le a.identity b.identity)
        (record notice_envelope { content_hash = "bb" } ∷ []))
      (current_hash first_store.database))
persist-Implements_example =
    persist-Implements digest extension "changes" first_store second_store 200
      (record notice_envelope { content_hash = "bb" } ∷ []) [] first-Sound second_persisted

persist-SameContents_example :
    (s' : EntityStore) × (persist_at first_store 300 "aa" (has_lot ∷ []) ≡ ok s')
    × SameContents first_store s'
unfolding current_hash persist sort_by persist_envelope previous_hash ensure ensure_source_entity
    put stable_key identity_le same_identity columns_for replace_children
persist-SameContents_example =
    persist-SameContents digest extension "changes" first_store 300
      (record notice_envelope { content_hash = "aa" } ∷ []) (has_lot ∷ []) first-Sound refl

persist-relations_example :
    (all
        (λ (e : EntityEnvelope).
          all (is_accounted first_store.database (has_lot ∷ []) e) first_store.relations)
        (record notice_envelope { content_hash = "aa" } ∷ [])
      ≡ true)
    × (all (has_row first_store.database first_store.relations) (has_lot ∷ []) ≡ true)
persist-relations_example =
    persist-relations digest extension "changes" empty_store first_store 100
      (record notice_envelope { content_hash = "aa" } ∷ []) (has_lot ∷ []) empty-Sound
      first_persisted
