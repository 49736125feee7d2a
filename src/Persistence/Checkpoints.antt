-- ===== src/Persistence/Checkpoints.antt =====
-- `get_checkpoint` and `set_checkpoint` of infrastructure/persistence/postgres/repositories.py over the
-- rows of the table `discovery_checkpoints`, whose constraint `uq_discovery_checkpoint` decides
-- between an insertion and an update.
pub mod Roundtrip
use govpars.Prelude.{
  ℕ, String, Bool, true, false, not, ◌&&◌, List, [], ◌∷◌, ◌++◌, map, str_eq, if◌then◌else◌, any,
  filter,
}
use govpars.Domain.Errors.{Result, ok, raised, plain_error}
use govpars.Domain.Models.{Source, EntityType, source_eq, entity_type_eq}

pub record DiscoveryCheckpointRow : Type 0 where
  pub source : Source
  pub entity_type : EntityType
  pub scope : String
  pub next_page : ℕ
  pub completed : Bool

-- The three columns of the constraint.
unfoldable pub is_for : Source → EntityType → String → DiscoveryCheckpointRow → Bool
is_for source entity_type scope row =
    source_eq row.source source
    && (entity_type_eq row.entity_type entity_type && str_eq row.scope scope)

-- `scalar_one_or_none`, and `(1, False)` without a row
abbrev one_or_none : List DiscoveryCheckpointRow → Result (ℕ × Bool)
one_or_none [] = ok (1, false)
one_or_none (row ∷ []) = ok (row.next_page, row.completed)
one_or_none (row ∷ r ∷ rows) = raised (plain_error "MultipleResultsFound")

unfoldable pub get_checkpoint :
    List DiscoveryCheckpointRow → Source → EntityType → String → Result (ℕ × Bool)
unfolding is_for
get_checkpoint rows source entity_type scope =
    one_or_none (filter (is_for source entity_type scope) rows)

abbrev inserted : Source → EntityType → String → ℕ → Bool → DiscoveryCheckpointRow
inserted source entity_type scope next_page completed = record {
  source = source;
  entity_type = entity_type;
  scope = scope;
  next_page = next_page;
  completed = completed;
}

abbrev updated :
    Source → EntityType → String → ℕ → Bool → DiscoveryCheckpointRow → DiscoveryCheckpointRow
updated source entity_type scope next_page completed row =
    if is_for source entity_type scope row
    then record row { next_page = next_page; completed = completed }
    else row

-- INSERT … ON CONFLICT DO UPDATE
unfoldable pub set_checkpoint :
    List DiscoveryCheckpointRow
    → Source
    → EntityType
    → String
    → ℕ
    → Bool
    → List DiscoveryCheckpointRow
unfolding is_for
set_checkpoint rows source entity_type scope next_page completed =
    if any (is_for source entity_type scope) rows
    then map (updated source entity_type scope next_page completed) rows
    else rows ++ inserted source entity_type scope next_page completed ∷ []

-- No two rows have the same three columns.
abbrev pub is_unique : List DiscoveryCheckpointRow → Bool
is_unique [] = true
is_unique (row ∷ rows) =
    not (any (is_for row.source row.entity_type row.scope) rows) && is_unique rows
