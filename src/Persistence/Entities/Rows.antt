-- ===== src/Persistence/Entities/Rows.antt =====
-- The table `source_entities` under `_ensure_source_entity` and the updates by id of
-- infrastructure/persistence/postgres/repositories.py: whose row changes.
use govpars.Prelude.{
  ℕ, ◌+◌, ◌≤◌, ◌<◌, ◌≡◌, refl, ◌∙◌, inl, inr, Bool, true, false, Option, none, some, List, [], ◌∷◌,
  map, arith, eq_iff, ◌==◌, if◌then◌else◌, Bool-cases, any, find?,
}
use govpars.Domain.Models.{
  Source, EntityType, EntityIdentity, source_eq, entity_type_eq, same_identity, eep_mitwork,
  zakup_sk, lot, notice, plan_item, organization, Payload,
}
use govpars.Persistence.Tables.{SourceEntityRow}
use govpars.Persistence.Enqueue.{updated_entity, upsert_entity}

source_eq_trans : (a b c : Source) → source_eq a b ≡ true → source_eq a c ≡ source_eq b c
source_eq_trans eep_mitwork eep_mitwork c h = refl
source_eq_trans eep_mitwork zakup_sk c h = ground arith
source_eq_trans zakup_sk eep_mitwork c h = ground arith
source_eq_trans zakup_sk zakup_sk c h = refl

type_eq_trans :
    (a b c : EntityType) → entity_type_eq a b ≡ true → entity_type_eq a c ≡ entity_type_eq b c
type_eq_trans lot lot c h = refl
type_eq_trans notice notice c h = refl
type_eq_trans plan_item plan_item c h = refl
type_eq_trans organization organization c h = refl
type_eq_trans lot notice c h = ground arith
type_eq_trans lot plan_item c h = ground arith
type_eq_trans lot organization c h = ground arith
type_eq_trans notice lot c h = ground arith
type_eq_trans notice plan_item c h = ground arith
type_eq_trans notice organization c h = ground arith
type_eq_trans plan_item lot c h = ground arith
type_eq_trans plan_item notice c h = ground arith
type_eq_trans plan_item organization c h = ground arith
type_eq_trans organization lot c h = ground arith
type_eq_trans organization notice c h = ground arith
type_eq_trans organization plan_item c h = ground arith

source_eq_comm : (a b : Source) → source_eq a b ≡ source_eq b a
source_eq_comm a b = ground arith

type_eq_comm : (a b : EntityType) → entity_type_eq a b ≡ entity_type_eq b a
type_eq_comm a b = ground arith

pub same_identity_trans :
    (a b c : EntityIdentity) → same_identity a b ≡ true → same_identity a c ≡ same_identity b c
unfolding same_identity
same_identity_trans a b c h = ground (
  arith,
  source_eq_trans a.source b.source c.source,
  type_eq_trans a.entity_type b.entity_type c.entity_type,
  eq_iff a.source_entity_id b.source_entity_id,
  eq_iff a.source_entity_id c.source_entity_id,
  eq_iff b.source_entity_id c.source_entity_id,
)

pub same_identity_comm : (a b : EntityIdentity) → same_identity a b ≡ same_identity b a
unfolding same_identity
same_identity_comm a b = ground (
  arith,
  source_eq_comm a.source b.source,
  type_eq_comm a.entity_type b.entity_type,
  eq_iff a.source_entity_id b.source_entity_id,
  eq_iff b.source_entity_id a.source_entity_id,
)

pub same_identity_self : (a : EntityIdentity) → same_identity a a ≡ true
unfolding same_identity
same_identity_self a = ground (arith, eq_iff a.source_entity_id a.source_entity_id)

abbrev pub is_of : EntityIdentity → SourceEntityRow → Bool
is_of i row = same_identity row.identity i

-- The columns outside the constraint do not matter.
updated-is_of :
    (row : SourceEntityRow) (i j : EntityIdentity) (summary : Option Payload) (now : ℕ)
    → same_identity (updated_entity row i summary now).identity j ≡ same_identity row.identity j
unfolding updated_entity same_identity
updated-is_of row i j summary now = refl

abbrev pub has_id : ℕ → SourceEntityRow → Bool
has_id fk row = row.id == fk

-- The ids are distinct and below the sequence.
abbrev pub HasIds : ℕ → List SourceEntityRow → Type 0
HasIds next [] = Unit {0}
HasIds next (r ∷ rows) = (any (has_id r.id) rows ≡ false) × (r.id < next) × HasIds next rows

HasIds-mono : (m n : ℕ) (rows : List SourceEntityRow) → m ≤ n → HasIds m rows → HasIds n rows
HasIds-mono m n [] h v = tt
HasIds-mono m n (r ∷ rows) h v = (v.0, omega arith, HasIds-mono m n rows h v.2)

-- What `_ensure_source_entity` leaves in the row of its identity.
unfoldable pub ensured_row :
    Option SourceEntityRow → ℕ → EntityIdentity → Option Payload → ℕ → SourceEntityRow
unfolding updated_entity
ensured_row none next i summary now = record {
  id = next;
  identity = i;
  summary_payload = elim summary [ none ↦ [] | some p ↦ p ];
  last_seen_at = now;
  last_success_at = none;
  current_content_hash = none;
}
ensured_row (some row) next i summary now = updated_entity row i summary now

pub find?-upsert :
    (rows : List SourceEntityRow) (next : ℕ) (i j : EntityIdentity) (summary : Option Payload)
    (now : ℕ)
    → find? (is_of j) (upsert_entity rows next i summary now).0 ≡ (
        if same_identity i j
        then some (ensured_row (find? (is_of i) rows) next i summary now)
        else find? (is_of j) rows)
unfolding upsert_entity ensured_row
find?-upsert [] next i j summary now = ground arith
find?-upsert (r ∷ rows) next i j summary now = ground (
  arith,
  find?-upsert rows next i j summary now,
  same_identity_trans r.identity i j,
  same_identity_trans r.identity j i,
  same_identity_comm i j,
  updated-is_of r i j summary now,
)

pub upsert-id :
    (rows : List SourceEntityRow) (next : ℕ) (i : EntityIdentity) (summary : Option Payload)
    (now : ℕ)
    → (upsert_entity rows next i summary now).1
      ≡ (ensured_row (find? (is_of i) rows) next i summary now).id
unfolding upsert_entity ensured_row
upsert-id [] next i summary now = refl
upsert-id (r ∷ rows) next i summary now = ground (arith, upsert-id rows next i summary now)

any-upsert :
    (rows : List SourceEntityRow) (next k : ℕ) (i : EntityIdentity) (summary : Option Payload)
    (now : ℕ)
    → k < next
    → any (has_id k) (upsert_entity rows next i summary now).0 ≡ any (has_id k) rows
unfolding upsert_entity updated_entity
any-upsert [] next k i summary now h = ground arith
any-upsert (r ∷ rows) next k i summary now h = ground (arith, any-upsert rows next k i summary now)

pub upsert-HasIds :
    (rows : List SourceEntityRow) (next : ℕ) (i : EntityIdentity) (summary : Option Payload)
    (now : ℕ)
    → HasIds next rows
    → HasIds (next + 1) (upsert_entity rows next i summary now).0
unfolding upsert_entity updated_entity
upsert-HasIds [] next i summary now v = (refl, ground arith, tt)
upsert-HasIds (r ∷ rows) next i summary now v = elim (Bool-cases (same_identity r.identity i)) [
  | inl same ↦ rw same (v.0, omega arith, HasIds-mono next (next + 1) rows (omega arith) v.2)
  | inr new ↦ rw new (
    any-upsert rows next r.id i summary now v.1 ∙ v.0,
    omega arith,
    upsert-HasIds rows next i summary now v.2,
  )
]

pub find?-any :
    (rows : List SourceEntityRow) (p : SourceEntityRow → Bool) (r : SourceEntityRow)
    → find? p rows ≡ some r
    → any (has_id r.id) rows ≡ true
find?-any [] p r h = ground arith
find?-any (x ∷ rows) p r h = ground (arith, find?-any rows p r)

-- With distinct ids the id of a row finds it.
pub find?-id :
    (rows : List SourceEntityRow) (next : ℕ) (p : SourceEntityRow → Bool) (r : SourceEntityRow)
    → HasIds next rows
    → find? p rows ≡ some r
    → find? (has_id r.id) rows ≡ some r
find?-id [] next p r v h = ground arith
find?-id (x ∷ rows) next p r v h =
    ground (arith, find?-id rows next p r v.2, find?-any rows p r, v.0)

abbrev pub change_id :
    ℕ → (SourceEntityRow → SourceEntityRow) → List SourceEntityRow → List SourceEntityRow
change_id fk f rows = map (λ r. if r.id == fk then f r else r) rows

pub change_id-none :
    (rows : List SourceEntityRow) (fk : ℕ) (f : SourceEntityRow → SourceEntityRow)
    → any (has_id fk) rows ≡ false
    → change_id fk f rows ≡ rows
change_id-none [] fk f h = refl
change_id-none (x ∷ rows) fk f h = ground (arith, change_id-none rows fk f)

-- An update by id of the row of `i` changes the row of `i` and no other.
pub find?-change_id :
    (rows : List SourceEntityRow) (next : ℕ) (i j : EntityIdentity) (r : SourceEntityRow)
    (f : SourceEntityRow → SourceEntityRow)
    → ((x : SourceEntityRow) (k : EntityIdentity) → is_of k (f x) ≡ is_of k x)
    → HasIds next rows
    → find? (is_of i) rows ≡ some r
    → find? (is_of j) (change_id r.id f rows)
      ≡ (if same_identity i j then some (f r) else find? (is_of j) rows)
find?-change_id [] next i j r f keep v h = ground arith
find?-change_id (x ∷ rows) next i j r f keep v h = ground (
  arith,
  keep x j,
  same_identity_trans x.identity i j,
  same_identity_trans x.identity j i,
  same_identity_comm i j,
  change_id-none rows x.id f v.0,
  find?-any rows (is_of i) r,
  find?-change_id rows next i j r f keep v.2,
)

pub change_id-HasIds :
    (rows : List SourceEntityRow) (next fk : ℕ) (f : SourceEntityRow → SourceEntityRow)
    → ((x : SourceEntityRow) → (f x).id ≡ x.id)
    → HasIds next rows
    → HasIds next (change_id fk f rows)
change_id-HasIds [] next fk f keep v = tt
change_id-HasIds (x ∷ rows) next fk f keep v = (
  ground (arith, keep x, any-change_id rows),
  ground (arith, keep x, v.1),
  change_id-HasIds rows next fk f keep v.2,
)
  where
    any-change_id :
        (ys : List SourceEntityRow) → any (has_id x.id) (change_id fk f ys) ≡ any (has_id x.id) ys
    any-change_id [] = refl
    any-change_id (y ∷ ys) = ground (arith, keep y, any-change_id ys)

pub find?-same :
    (rows : List SourceEntityRow) (i j : EntityIdentity)
    → same_identity i j ≡ true
    → find? (is_of i) rows ≡ find? (is_of j) rows
find?-same [] i j h = refl
find?-same (x ∷ rows) i j h = ground (
  arith,
  same_identity_trans i j x.identity,
  same_identity_comm i x.identity,
  same_identity_comm j x.identity,
  find?-same rows i j,
)
