-- ===== src/Pipeline/Batch.antt =====
-- `_validate_extracted_batch` and `_task_content_hash` of application/pipeline.py. A violation is
-- named by the text of its message, less the key and the count that the first one prints.
use govpars.Prelude.{
  String, ◌≡◌, refl, ◌≢◌, inl, inr, Bool, true, false, not, ◌&&◌, ◌||◌, none, some, List, [], ◌∷◌,
  arith, str_eq, ◌==◌, if◌then◌else◌, Option-cases, any, all, count_if, find?,
}
use govpars.Domain.Errors.{Result, ok, raised, plain_error, ◌>>◌}
use govpars.Domain.Models.{
  Source, EntityEnvelope, EntityRelation, DiscoveredEntity, ExtractedBatch, FrontierTask, Payload,
  source_eq, stable_key,
}

abbrev pub entity_keys : List EntityEnvelope → List String
entity_keys [] = []
entity_keys (e ∷ es) = stable_key e.identity ∷ entity_keys es

-- `len(keys) != len(set(keys))`
unfoldable pub has_duplicates : List String → Bool
has_duplicates [] = false
has_duplicates (k ∷ ks) = any (λ j. str_eq j k) ks || has_duplicates ks

-- the three tests for another source than the task's
abbrev pub is_foreign_entity : Source → EntityEnvelope → Bool
is_foreign_entity s e = not (source_eq e.identity.source s)

abbrev pub is_foreign_relation : Source → EntityRelation → Bool
is_foreign_relation s r =
    not (source_eq r.source s)
    || (not (source_eq r.parent.source s) || not (source_eq r.child.source s))

abbrev pub is_foreign_item : Source → DiscoveredEntity → Bool
is_foreign_item s d = not (source_eq d.identity.source s)

abbrev pub has_key_of : FrontierTask → EntityEnvelope → Bool
has_key_of task e = str_eq (stable_key e.identity) (stable_key task.identity)

abbrev is_empty_payload : Payload → Bool
is_empty_payload [] = true
is_empty_payload (x ∷ xs) = false

-- `raise ValueError(…)` where the test holds
abbrev pub refuse_if : Bool → String → Result (Unit {0})
refuse_if true message = raised (plain_error message)
refuse_if false message = ok tt

-- `next(…)` over the entities with the task's key; it cannot fail after the count
unfoldable pub primary_payload : List EntityEnvelope → FrontierTask → Result (Unit {0})
primary_payload es task = elim (find? (has_key_of task) es) [
  | none ↦ raised (plain_error "StopIteration")
  | some e ↦
      refuse_if (is_empty_payload e.source_payload)
        "Extraction contract violation: primary raw payload is empty"
]

unfoldable pub validate_extracted_batch : ExtractedBatch → FrontierTask → Result (Unit {0})
unfolding primary_payload
validate_extracted_batch batch task = do
  refuse_if
      (not (count_if (λ k. str_eq k (stable_key task.identity)) (entity_keys batch.entities) == 1))
      "Extraction contract violation: expected exactly one primary entity"
  refuse_if (has_duplicates (entity_keys batch.entities))
      "Extraction contract violation: duplicate entity identities"
  refuse_if (any (is_foreign_entity task.identity.source) batch.entities)
      "Extraction contract violation: cross-source entity"
  refuse_if (any (is_foreign_relation task.identity.source) batch.relations)
      "Extraction contract violation: cross-source relation"
  refuse_if (any (is_foreign_item task.identity.source) batch.discovered)
      "Extraction contract violation: cross-source discovery"
  primary_payload batch.entities task

unfoldable pub task_content_hash : List EntityEnvelope → FrontierTask → Result String
task_content_hash [] task =
    raised (plain_error "Extraction contract violation: primary entity is missing")
task_content_hash (e ∷ es) task =
    if has_key_of task e then ok e.content_hash else task_content_hash es task

-- What the pipeline may rely on after the validation.
pub record IsContract (batch : ExtractedBatch) (task : FrontierTask) : Type 0 where
  pub one_primary : count_if (has_key_of task) batch.entities ≡ 1
  pub distinct : has_duplicates (entity_keys batch.entities) ≡ false
  pub own_entities :
      all (λ e. source_eq e.identity.source task.identity.source) batch.entities ≡ true
  pub own_relations :
      all
        (λ r.
          source_eq r.source task.identity.source
          && (source_eq r.parent.source task.identity.source
              && source_eq r.child.source task.identity.source))
        batch.relations
      ≡ true
  pub own_items :
      all (λ d. source_eq d.identity.source task.identity.source) batch.discovered ≡ true

count-keys :
    (task : FrontierTask) (es : List EntityEnvelope)
    → count_if (λ k. str_eq k (stable_key task.identity)) (entity_keys es)
      ≡ count_if (has_key_of task) es
count-keys task [] = refl
count-keys task (e ∷ es) = ground (arith, count-keys task es)

any-all-not {ℓ} :
    {A : Type ℓ} (p q : A → Bool) (xs : List A)
    → ((x : A) → p x ≡ not (q x))
    → any p xs ≡ false
    → all q xs ≡ true
any-all-not p q [] e h = refl
any-all-not p q (x ∷ xs) e h = ground (arith, e x, any-all-not p q xs e)

-- A batch that passes the validation has exactly one entity with the task's key, no two entities with
-- one key, and only entities, relations and discoveries of the task's source.
pub validate_extracted_batch-IsContract :
    (batch : ExtractedBatch) (task : FrontierTask)
    → validate_extracted_batch batch task ≡ ok tt
    → IsContract batch task
unfolding validate_extracted_batch
validate_extracted_batch-IsContract batch task h = record {
  one_primary = ground (arith, count-keys task batch.entities);
  distinct = ground arith;
  own_entities =
      any-all-not (is_foreign_entity task.identity.source) _ batch.entities (λ e. refl)
        (ground arith);
  own_relations =
      any-all-not (is_foreign_relation task.identity.source) _ batch.relations (λ r. ground arith)
        (ground arith);
  own_items =
      any-all-not (is_foreign_item task.identity.source) _ batch.discovered (λ d. refl)
        (ground arith);
}

find-hash :
    (task : FrontierTask) (es : List EntityEnvelope) (e : EntityEnvelope)
    → find? (has_key_of task) es ≡ some e
    → task_content_hash es task ≡ ok e.content_hash
unfolding task_content_hash
find-hash task [] e h = cc
find-hash task (x ∷ es) e h = ground (arith, find-hash task es e)

-- After the validation the content hash of the task is there: it is that of the first entity with
-- the task's key, which has a payload.
pub validated-hash :
    (batch : ExtractedBatch) (task : FrontierTask)
    → validate_extracted_batch batch task ≡ ok tt
    → (e : EntityEnvelope) × (find? (has_key_of task) batch.entities ≡ some e)
      × (task_content_hash batch.entities task ≡ ok e.content_hash)
      × (e.source_payload ≢ [])
unfolding validate_extracted_batch
validated-hash batch task h = elim (Option-cases (find? (has_key_of task) batch.entities)) [
  | inl n ↦ absurd (ground arith)
  | inr (e, f) ↦ (e, f, find-hash task batch.entities e f, λ z. ground arith)
]
