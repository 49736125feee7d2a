-- ===== src/Persistence/Checkpoints/Roundtrip.antt =====
-- What `get_checkpoint` reads after `set_checkpoint` in
-- infrastructure/persistence/postgres/repositories.py.
use govpars.Prelude.{
  ℕ, String, ◌≡◌, refl, sym, ◌∙◌, inl, inr, Bool, true, false, ◌&&◌, List, [], ◌∷◌, ◌++◌, map,
  append-nil, arith, str_eq, eq_iff, if◌then◌else◌, Bool-cases, any, filter,
}
use govpars.Domain.Errors.{ok}
use govpars.Domain.Models.{Source, EntityType, source_eq, entity_type_eq}
use govpars.Persistence.Checkpoints.{
  DiscoveryCheckpointRow, is_for, one_or_none, get_checkpoint, set_checkpoint, is_unique, inserted,
  updated,
}

source_eq_lem : (a b : Source) → source_eq a b ≡ true → a ≡ b
source_eq_lem a b h = ground arith

entity_type_eq_lem : (a b : EntityType) → entity_type_eq a b ≡ true → a ≡ b
entity_type_eq_lem a b h = ground arith

-- Two rows for the same three columns are so for each other.
is_for-is_for :
    (s : Source) (t : EntityType) (k : String) (row other : DiscoveryCheckpointRow)
    → is_for s t k row ≡ true
    → is_for row.source row.entity_type row.scope other ≡ is_for s t k other
unfolding is_for
is_for-is_for s t k row other h =
    ground
      (arith, source_eq_lem row.source s, entity_type_eq_lem row.entity_type t, eq_iff row.scope k)

-- Two triples of columns are the same.
abbrev pub same_columns : Source → EntityType → String → Source → EntityType → String → Bool
same_columns s t k s' t' k' = source_eq s s' && (entity_type_eq t t' && str_eq k k')

-- A row for one triple is for another exactly when the triples are the same.
is_for-same_columns :
    (s s' : Source) (t t' : EntityType) (k k' : String) (row : DiscoveryCheckpointRow)
    → is_for s t k row ≡ true
    → is_for s' t' k' row ≡ same_columns s t k s' t' k'
unfolding is_for
is_for-same_columns s s' t t' k k' row h =
    ground
      (arith, source_eq_lem row.source s, entity_type_eq_lem row.entity_type t, eq_iff row.scope k)

module _ (s : Source) (t : EntityType) (k : String) (n : ℕ) (c : Bool) where
  updated-is_for :
      (s' : Source) (t' : EntityType) (k' : String) (row : DiscoveryCheckpointRow)
      → is_for s' t' k' (updated s t k n c row) ≡ is_for s' t' k' row
  unfolding is_for
  updated-is_for s' t' k' row = ground arith

  -- no row for these columns
  filter_none :
      (rows : List DiscoveryCheckpointRow)
      → any (is_for s t k) rows ≡ false
      → filter (is_for s t k) (map (updated s t k n c) rows) ≡ []
  filter_none [] h = refl
  filter_none (row ∷ rows) h = ground (arith, updated-is_for s t k row, filter_none rows)

  any_same :
      (row : DiscoveryCheckpointRow) (rows : List DiscoveryCheckpointRow)
      → is_for s t k row ≡ true
      → any (is_for row.source row.entity_type row.scope) rows ≡ any (is_for s t k) rows
  any_same row [] h = refl
  any_same row (other ∷ rows) h =
      ground (arith, is_for-is_for s t k row other h, any_same row rows h)

  update_unique :
      (rows : List DiscoveryCheckpointRow)
      → is_unique rows ≡ true
      → any (is_for s t k) rows ≡ true
      → one_or_none (filter (is_for s t k) (map (updated s t k n c) rows)) ≡ ok (n, c)
  update_unique [] u h = absurd (ground arith)
  update_unique (row ∷ rows) u h = elim (Bool-cases (is_for s t k row)) [
    | inl y ↦
        let none_left : any (is_for s t k) rows ≡ false =
          sym (any_same row rows y) ∙ ground arith in
        ground (arith, updated-is_for s t k row, filter_none rows none_left)
    | inr z ↦ ground (arith, updated-is_for s t k row, update_unique rows)
  ]

  update_others :
      (s' : Source) (t' : EntityType) (k' : String) (rows : List DiscoveryCheckpointRow)
      → same_columns s t k s' t' k' ≡ false
      → filter (is_for s' t' k') (map (updated s t k n c) rows) ≡ filter (is_for s' t' k') rows
  update_others s' t' k' [] h = refl
  update_others s' t' k' (row ∷ rows) h = elim (Bool-cases (is_for s t k row)) [
    | inl y ↦ ground (
      arith,
      updated-is_for s' t' k' row,
      is_for-same_columns s s' t t' k k' row y,
      update_others s' t' k' rows h,
    )
    | inr z ↦ ground (arith, update_others s' t' k' rows h)
  ]

  filter_append :
      (s' : Source) (t' : EntityType) (k' : String) (rows : List DiscoveryCheckpointRow)
      (row : DiscoveryCheckpointRow)
      → filter (is_for s' t' k') (rows ++ row ∷ [])
        ≡ filter (is_for s' t' k') rows ++ (if is_for s' t' k' row then row ∷ [] else [])
  filter_append s' t' k' [] row = ground arith
  filter_append s' t' k' (r ∷ rows) row = ground (arith, filter_append s' t' k' rows row)

  filter-any :
      (p : DiscoveryCheckpointRow → Bool) (rows : List DiscoveryCheckpointRow)
      → any p rows ≡ false
      → filter p rows ≡ []
  filter-any p [] h = refl
  filter-any p (r ∷ rows) h = ground (arith, filter-any p rows)

  any-columns :
      (s' : Source) (t' : EntityType) (k' : String) (rows : List DiscoveryCheckpointRow)
      → same_columns s t k s' t' k' ≡ true
      → any (is_for s' t' k') rows ≡ any (is_for s t k) rows
  unfolding is_for
  any-columns s' t' k' [] h = refl
  any-columns s' t' k' (row ∷ rows) h =
      ground (
        arith,
        any-columns s' t' k' rows h,
        source_eq_lem s s',
        entity_type_eq_lem t t',
        eq_iff k k',
      )

  inserted-is_for :
      (s' : Source) (t' : EntityType) (k' : String)
      → is_for s' t' k' (inserted s t k n c) ≡ same_columns s t k s' t' k'
  unfolding is_for
  inserted-is_for s' t' k' = refl

  same_columns-eq :
      (s' : Source) (t' : EntityType) (k' : String)
      → same_columns s t k s' t' k' ≡ true
      → (s ≡ s') × (t ≡ t') × (k ≡ k')
  same_columns-eq s' t' k' h = (
    source_eq_lem s s' (ground arith),
    entity_type_eq_lem t t' (ground arith),
    (eq_iff k k').0 (ground arith),
  )

  -- On rows that are unique, `get_checkpoint` gives what the last `set_checkpoint` for the same
  -- source, entity type and scope has set, and for any others what it gave before.
  pub get_checkpoint-set_checkpoint :
      (rows : List DiscoveryCheckpointRow) (s' : Source) (t' : EntityType) (k' : String)
      → is_unique rows ≡ true
      → get_checkpoint (set_checkpoint rows s t k n c) s' t' k'
        ≡ (if same_columns s t k s' t' k' then ok (n, c) else get_checkpoint rows s' t' k')
  unfolding get_checkpoint set_checkpoint
  get_checkpoint-set_checkpoint rows s' t' k' u = elim (Bool-cases (any (is_for s t k) rows)) [
    | inl y ↦ elim (Bool-cases (same_columns s t k s' t' k')) [
      | inl same ↦
          let (es, et, ek) = same_columns-eq s' t' k' same in
          let read = update_unique rows u y in ground arith
      | inr differ ↦ ground (arith, update_others s' t' k' rows differ)
    ]
    | inr z ↦ elim (Bool-cases (same_columns s t k s' t' k')) [
      | inl same ↦ ground (
        arith,
        filter_append s' t' k' rows (inserted s t k n c),
        inserted-is_for s' t' k',
        any-columns s' t' k' rows same,
        filter-any (is_for s' t' k') rows,
      )
      | inr differ ↦ ground (
        arith,
        filter_append s' t' k' rows (inserted s t k n c),
        inserted-is_for s' t' k',
        append-nil (filter (is_for s' t' k') rows),
      )
    ]
  ]

  any-updated :
      (s' : Source) (t' : EntityType) (k' : String) (rows : List DiscoveryCheckpointRow)
      → any (is_for s' t' k') (map (updated s t k n c) rows) ≡ any (is_for s' t' k') rows
  any-updated s' t' k' [] = refl
  any-updated s' t' k' (row ∷ rows) =
      ground (arith, updated-is_for s' t' k' row, any-updated s' t' k' rows)

  is_unique-updated :
      (rows : List DiscoveryCheckpointRow)
      → is_unique (map (updated s t k n c) rows) ≡ is_unique rows
  is_unique-updated [] = refl
  is_unique-updated (row ∷ rows) = elim (Bool-cases (is_for s t k row)) [
    | inl y ↦
        ground
          (arith, any-updated row.source row.entity_type row.scope rows, is_unique-updated rows)
    | inr z ↦
        ground
          (arith, any-updated row.source row.entity_type row.scope rows, is_unique-updated rows)
  ]

  any-inserted :
      (row : DiscoveryCheckpointRow) (rows : List DiscoveryCheckpointRow)
      → is_for s t k row ≡ false
      → any (is_for row.source row.entity_type row.scope) (rows ++ inserted s t k n c ∷ [])
        ≡ any (is_for row.source row.entity_type row.scope) rows
  unfolding is_for
  any-inserted row [] h = ground (
    arith,
    source_eq_lem s row.source,
    entity_type_eq_lem t row.entity_type,
    eq_iff k row.scope,
    eq_iff row.scope k,
  )
  any-inserted row (other ∷ rows) h = ground (arith, any-inserted row rows h)

  is_unique-inserted :
      (rows : List DiscoveryCheckpointRow)
      → any (is_for s t k) rows ≡ false
      → is_unique rows ≡ true
      → is_unique (rows ++ inserted s t k n c ∷ []) ≡ true
  is_unique-inserted [] h u = refl
  is_unique-inserted (row ∷ rows) h u =
      ground (arith, any-inserted row rows (ground arith), is_unique-inserted rows)

  -- `set_checkpoint` keeps the rows unique.
  pub is_unique-set_checkpoint :
      (rows : List DiscoveryCheckpointRow)
      → is_unique rows ≡ true
      → is_unique (set_checkpoint rows s t k n c) ≡ true
  unfolding set_checkpoint
  is_unique-set_checkpoint rows u = elim (Bool-cases (any (is_for s t k) rows)) [
    | inl y ↦ ground (arith, is_unique-updated rows)
    | inr z ↦ ground (arith, is_unique-inserted rows z u)
  ]
