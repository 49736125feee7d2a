-- ===== src/Sources/ZakupDetail/Contract.antt =====
-- That what `parse_detail` of infrastructure/sources/zakup_sk/parser.py gives is what the pipeline's
-- `_validate_extracted_batch` asks for.
use govpars.Prelude.{
  ℕ, String, ◌≡◌, refl, sym, ◌∙◌, subst, inl, inr, Bool, true, false, not, Option, none, some, List,
  [], ◌∷◌, ◌++◌, arith, str_eq, eq_iff, Bool-cases, any, all, count_if,
}
use govpars.Domain.Errors.{ok, >>=-ok, Result-cases}
use govpars.Domain.Models.{
  zakup_sk, EntityType, lot, notice, plan_item, organization, EntityIdentity, EntityEnvelope,
  EntityFields, EntityRelation, DiscoveredEntity, ExtractedBatch, FrontierTask, Payload,
  RelationType, ProcurementEntity, source_eq, entity_type_eq, stable_key, customer, organizer,
}
use govpars.Pipeline.Batch.{
  entity_keys, has_duplicates, primary_payload, validate_extracted_batch, is_foreign_entity,
  is_foreign_relation, is_foreign_item,
}
use govpars.Sources.Json.{Json, Fields, no_fields, field, Python, pick, payload_of, get, truthy}
use govpars.Sources.ZakupParser.{identity, or_text, source_id}
use govpars.Sources.ZakupDocuments.{FoundOrganization, organization_of}
use govpars.Sources.ZakupProcurement.{procurement_of}
use govpars.Sources.ZakupDetail.{
  envelope_of, related_entities, related_to, with_notice, notice_of, detail_batch, parse_detail,
}
use govpars.Sources.ZakupDetail.Keys.{
  is_zakup, identity-zakup, is_own, organization_of-own, key-organization,
}

abbrev is_among : List String → String → Bool
is_among keys key = any (λ k. str_eq k key) keys

is_among-false :
    (keys seen : List String) (key : String)
    → all (λ k. not (is_among (key ∷ seen) k)) keys ≡ true
    → is_among keys key ≡ false
is_among-false [] seen key h = refl
is_among-false (k ∷ keys) seen key h =
    ground (arith, eq_iff k key, eq_iff key k, is_among-false keys seen key)

all-weaken :
    (keys seen : List String) (key : String)
    → all (λ k. not (is_among (key ∷ seen) k)) keys ≡ true
    → all (λ k. not (is_among seen k)) keys ≡ true
all-weaken [] seen key h = refl
all-weaken (k ∷ keys) seen key h = ground (arith, all-weaken keys seen key)

module _ (digest : EntityIdentity → EntityFields → Payload → String) (now : ℕ) where
  related-fresh :
      (seen : List String) (os : List (Option FoundOrganization))
      → all (λ k. not (is_among seen k)) (entity_keys (related_entities digest now seen os)) ≡ true
  unfolding related_entities envelope_of
  related-fresh seen [] = refl
  related-fresh seen (none ∷ os) = related-fresh seen os
  related-fresh seen (some o ∷ os) = elim (Bool-cases (is_among seen (stable_key o.identity))) [
    | inl known ↦ rw known (related-fresh seen os)
    | inr new ↦
        let key = stable_key o.identity in
        let later =
          all-weaken (entity_keys (related_entities digest now (key ∷ seen) os)) seen key
            (related-fresh (key ∷ seen) os) in
        rw new (ground (arith, new, later))
  ]

  related-distinct :
      (seen : List String) (os : List (Option FoundOrganization))
      → has_duplicates (entity_keys (related_entities digest now seen os)) ≡ false
  unfolding related_entities envelope_of has_duplicates
  related-distinct seen [] = refl
  related-distinct seen (none ∷ os) = related-distinct seen os
  related-distinct seen (some o ∷ os) = elim (Bool-cases (is_among seen (stable_key o.identity))) [
    | inl known ↦ rw known (related-distinct seen os)
    | inr new ↦
        let key = stable_key o.identity in
        let keys = entity_keys (related_entities digest now (key ∷ seen) os) in
        rw
          (
            new,
            is_among-false keys seen key (related-fresh (key ∷ seen) os),
            related-distinct (key ∷ seen) os,
          )
          refl
  ]

  related-own :
      (seen : List String) (os : List (Option FoundOrganization))
      → all is_own os ≡ true
      → all (λ e. is_zakup organization e.identity) (related_entities digest now seen os) ≡ true
  unfolding related_entities envelope_of
  related-own seen [] h = refl
  related-own seen (none ∷ os) h = related-own seen os h
  related-own seen (some o ∷ os) h = elim (Bool-cases (is_among seen (stable_key o.identity))) [
    | inl known ↦ rw known (related-own seen os (ground (arith, h)))
    | inr new ↦
        let later = related-own (stable_key o.identity ∷ seen) os (ground (arith, h)) in
        let own : is_zakup organization o.identity ≡ true = ground (arith, h) in
        rw (new, own, later) refl
  ]

-- No organization has the key of the entity, or comes from another site.
organizations-apart :
    (i : EntityIdentity) (t : EntityType) (es : List EntityEnvelope)
    → i.source ≡ zakup_sk
    → i.entity_type ≡ t
    → entity_type_eq t organization ≡ false
    → all (λ e. is_zakup organization e.identity) es ≡ true
    → (count_if (λ k. str_eq k (stable_key i)) (entity_keys es) ≡ 0)
      × (is_among (entity_keys es) (stable_key i) ≡ false)
      × (any (is_foreign_entity zakup_sk) es ≡ false)
organizations-apart i t [] s e n h = (refl, refl, refl)
organizations-apart i t (x ∷ es) s e n h =
    let (c, a, f) = organizations-apart i t es s e n (ground (arith, h)) in
    let own : is_zakup organization x.identity ≡ true = ground (arith, h) in
    let differ = key-organization i x.identity t s e n own in
    (rw (differ, c) refl, rw (differ, a) refl, ground (arith, own, f))

is_known_source :
    (py : Python) (now : ℕ) (t : EntityType) (entity : EntityIdentity) (fs : Fields)
    (ns : List EntityRelation × List DiscoveredEntity)
    → entity.source ≡ zakup_sk
    → notice_of py now t entity fs ≡ ok ns
    → (any (is_foreign_relation zakup_sk) ns.0 ≡ false)
      × (any (is_foreign_item zakup_sk) ns.1 ≡ false)
unfolding notice_of with_notice
is_known_source py now lot entity fs ns s h = elim (Bool-cases (truthy (get fs "advertId"))) [
  | inr no_id ↦ (ground (arith, h, no_id), ground (arith, h, no_id))
  | inl has_id ↦
      let value =
        field "id" (get fs "advertId")
          (field "number" (pick fs ("advertNumber" ∷ "advertId" ∷ [])) no_fields) in
      let (parent, made, rest) =
        >>=-ok (identity py value notice none) (λ p. ok (with_notice py now entity fs p)) ns
          (ground (arith, h, has_id)) in
      let sp = (identity-zakup py value notice none parent made).0 in
      (ground (arith, s, sp, rest), ground (arith, s, sp, rest))
]
is_known_source py now notice entity fs ns s h = (ground (arith, h), ground (arith, h))
is_known_source py now plan_item entity fs ns s h = (ground (arith, h), ground (arith, h))
is_known_source py now organization entity fs ns s h = (ground (arith, h), ground (arith, h))

related_to-known :
    (parent : EntityIdentity) (t : RelationType) (o : Option FoundOrganization)
    → parent.source ≡ zakup_sk
    → is_own o ≡ true
    → any (is_foreign_relation zakup_sk) (related_to parent t o) ≡ false
unfolding related_to
related_to-known parent t none s h = refl
related_to-known parent t (some o) s h = ground (arith, s, h)

any-append :
    {A : Type 0} (p : A → Bool) (xs ys : List A)
    → any p xs ≡ false
    → any p ys ≡ false
    → any p (xs ++ ys) ≡ false
any-append p [] ys a b = b
any-append p (x ∷ xs) ys a b = ground (arith, any-append p xs ys)

key-same :
    (i j : EntityIdentity)
    → i.source ≡ j.source
    → i.entity_type ≡ j.entity_type
    → i.source_entity_id ≡ j.source_entity_id
    → stable_key i ≡ stable_key j
unfolding stable_key
key-same i j s t e = rw (s, t, e) refl

-- A batch of one entity of the task and of organizations.
detail-validated :
    (py : Python) (digest : EntityIdentity → EntityFields → Payload → String) (now : ℕ) (k : String)
    (v : Json) (fs : Fields) (t : EntityType) (entity : EntityIdentity)
    (c o : Option FoundOrganization) (p : ProcurementEntity)
    (ns : List EntityRelation × List DiscoveredEntity) (task : FrontierTask)
    → entity.source ≡ zakup_sk
    → entity.entity_type ≡ t
    → entity_type_eq t organization ≡ false
    → stable_key task.identity ≡ stable_key entity
    → task.identity.source ≡ zakup_sk
    → all is_own (c ∷ o ∷ []) ≡ true
    → (any (is_foreign_relation zakup_sk) ns.0 ≡ false)
      × (any (is_foreign_item zakup_sk) ns.1 ≡ false)
    → validate_extracted_batch (detail_batch py digest now (field k v fs) entity c o p ns) task
      ≡ ok tt
unfolding validate_extracted_batch primary_payload detail_batch envelope_of has_duplicates
    payload_of
detail-validated py digest now k v fs t entity c o p ns task se te n key st own (nr, ni) =
    let os = c ∷ o ∷ [] in
    let related = related_entities digest now [] os in
    let (count, among, foreign) =
      organizations-apart entity t related se te n (related-own digest now [] os own) in
    let relations =
      any-append (is_foreign_relation zakup_sk) (related_to entity customer c)
        (related_to entity organizer o ++ ns.0)
        (related_to-known entity customer c se (ground (arith, own)))
        (any-append (is_foreign_relation zakup_sk) (related_to entity organizer o) ns.0
          (related_to-known entity organizer o se (ground (arith, own))) nr) in
    let self : str_eq (stable_key entity) (stable_key task.identity) ≡ true =
      (eq_iff (stable_key entity) (stable_key task.identity)).1 (sym key) in
    let one : count_if (λ k. str_eq k (stable_key task.identity)) (entity_keys related) ≡ 0 =
      subst (λ z. count_if (λ k. str_eq k z) (entity_keys related) ≡ 0) (sym key) count in
    let from_source : any (is_foreign_entity task.identity.source) related ≡ false =
      subst (λ z. any (is_foreign_entity z) related ≡ false) (sym st) foreign in
    let home : source_eq entity.source task.identity.source ≡ true = rw (se, st) refl in
    let relations' =
      subst
        (λ z.
          any (is_foreign_relation z)
            (related_to entity customer c ++ (related_to entity organizer o ++ ns.0))
          ≡ false)
        (sym st) relations in
    let items' = subst (λ z. any (is_foreign_item z) ns.1 ≡ false) (sym st) ni in
    rw (self, one, among, related-distinct digest now [] os, home, from_source, relations', items')
      (rw (primary_payload, self) refl)

-- What is parsed from a payload passes the validation: the payload is an object with some entry, the
-- type is not that of organizations, and the task is of the site, of the type and of the id that the
-- payload gives, or of the id asked for where it gives none.
pub parse_detail-validated :
    (py : Python) (digest : EntityIdentity → EntityFields → Payload → String) (now : ℕ) (k : String)
    (v : Json) (fs : Fields) (t : EntityType) (id : String) (batch : ExtractedBatch)
    (task : FrontierTask)
    → parse_detail py digest now (field k v fs) t id ≡ ok batch
    → entity_type_eq t organization ≡ false
    → task.identity.source ≡ zakup_sk
    → task.identity.entity_type ≡ t
    → or_text (source_id py (field k v fs) t) (some id) ≡ some task.identity.source_entity_id
    → validate_extracted_batch batch task ≡ ok tt
unfolding parse_detail
parse_detail-validated py digest now k v fs t id batch task h n st tt_ own_id =
    let all_fields = field k v fs in
    elim (Result-cases (identity py all_fields t (some id))) [
      | inr (e, x) ↦ absurd (ground (arith, h, x))
      | inl (entity, a) ↦
          elim (Result-cases
            (organization_of py (pick all_fields ("customer" ∷ "customerInfo" ∷ [])))) [
              | inr (e, x) ↦ absurd (ground (arith, h, a, x))
              | inl (c, b) ↦
                  elim (Result-cases
                    (organization_of py (pick all_fields ("organizer" ∷ "organizerInfo" ∷ [])))) [
                      | inr (e, x) ↦ absurd (ground (arith, h, a, b, x))
                      | inl (o, d) ↦ elim (Result-cases (procurement_of py all_fields c o)) [
                        | inr (e, x) ↦ absurd (ground (arith, h, a, b, d, x))
                        | inl (p, f) ↦ elim (Result-cases (notice_of py now t entity all_fields)) [
                          | inr (e, x) ↦ absurd (ground (arith, h, a, b, d, f, x))
                          | inl (ns, g) ↦
                              let made : detail_batch py digest now all_fields entity c o p ns
                                  ≡ batch =
                                ground (arith, h, a, b, d, f, g) in
                              let (se, te, ie) =
                                identity-zakup py all_fields t (some id) entity a in
                              let same_id : task.identity.source_entity_id
                                  ≡ entity.source_entity_id =
                                ground (arith, own_id, ie) in
                              subst (λ z. validate_extracted_batch z task ≡ ok tt) made
                                (detail-validated py digest now k v fs t entity c o p ns task se te
                                  n
                                  (key-same task.identity entity (st ∙ sym se) (tt_ ∙ sym te)
                                    same_id)
                                  st
                                  (ground (
                                    arith,
                                    organization_of-own py
                                        (pick all_fields ("customer" ∷ "customerInfo" ∷ [])) c b,
                                    organization_of-own py
                                        (pick all_fields ("organizer" ∷ "organizerInfo" ∷ [])) o d,
                                  ))
                                  (is_known_source py now t entity all_fields ns se g))
                        ]
                      ]
                    ]
            ]
    ]
