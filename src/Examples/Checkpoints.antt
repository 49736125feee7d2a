-- ===== src/Examples/Checkpoints.antt =====
-- A small table of checkpoints for
-- src/procurement_parser/infrastructure/persistence/postgres/repositories.py.
use govpars.Prelude.{◌≡◌, refl, true, false, List, [], ◌∷◌}
use govpars.Domain.Models.{eep_mitwork, lot, notice}
use govpars.Persistence.Checkpoints.{is_for, DiscoveryCheckpointRow, is_unique}

abbrev some_rows : List DiscoveryCheckpointRow
some_rows =
    record {
      source = eep_mitwork;
      entity_type = lot;
      scope = "all";
      next_page = 4;
      completed = false;
    }
    ∷ record {
      source = eep_mitwork;
      entity_type = notice;
      scope = "all";
      next_page = 9;
      completed = true;
    }
    ∷ []

rows_unique : is_unique some_rows ≡ true
unfolding is_for
rows_unique = refl
