-- ===== src/Persistence/Claim/Rows.antt =====
-- Which rows `claim` of repositories.py changes: only those that its WHERE clause admits.
use govpars.Prelude.{
  ℕ, ◌≡◌, refl, Bool, true, false, not, ◌||◌, Option, List, [], ◌∷◌, arith, ◌==◌, any, all, filter,
}
use govpars.Domain.Models.{Source}
use govpars.Persistence.Tables.{Database, CrawlFrontierRow}
use govpars.Persistence.Claim.{is_claimable, candidates, has_id_of}
use govpars.Persistence.Claim.Exclusive.{has_row_id, any-candidates}

-- No two rows have one id: the primary key.
abbrev pub DistinctIds : List CrawlFrontierRow → Type 0
DistinctIds [] = Unit {0}
DistinctIds (r ∷ rows) = (any (has_row_id r.id) rows ≡ false) × DistinctIds rows

abbrev chosen_passes : (CrawlFrontierRow → Bool) → List CrawlFrontierRow → CrawlFrontierRow → Bool
chosen_passes q kept row = not (any (has_row_id row.id) kept) || q row

any-filter_le :
    (q : CrawlFrontierRow → Bool) (rows : List CrawlFrontierRow) (i : ℕ)
    → any (has_row_id i) rows ≡ false
    → any (has_row_id i) (filter q rows) ≡ false
any-filter_le q [] i h = refl
any-filter_le q (r ∷ rows) i h = ground (arith, any-filter_le q rows i)

==_sym : (a b : ℕ) → (a == b) ≡ (b == a)
==_sym a b = ground arith

-- one more row with an id of its own changes nothing for the others
all-cons_other :
    (q : CrawlFrontierRow → Bool) (x : CrawlFrontierRow) (kept rows : List CrawlFrontierRow)
    → any (has_row_id x.id) rows ≡ false
    → all (chosen_passes q kept) rows ≡ true
    → all (chosen_passes q (x ∷ kept)) rows ≡ true
all-cons_other q x kept [] d h = refl
all-cons_other q x kept (r ∷ rows) d h =
    ground (arith, all-cons_other q x kept rows, ==_sym x.id r.id)

all-chosen_passes :
    (q : CrawlFrontierRow → Bool) (rows : List CrawlFrontierRow)
    → DistinctIds rows
    → all (chosen_passes q (filter q rows)) rows ≡ true
all-chosen_passes q [] d = refl
all-chosen_passes q (r ∷ rows) d = ground (
  arith,
  all-chosen_passes q rows d.1,
  any-filter_le q rows r.id d.0,
  all-cons_other q r (filter q rows) rows d.0,
)

all-weaken :
    (p q : CrawlFrontierRow → Bool) (rows : List CrawlFrontierRow)
    → ((r : CrawlFrontierRow) → p r ≡ true → q r ≡ true)
    → all p rows ≡ true
    → all q rows ≡ true
all-weaken p q [] f h = refl
all-weaken p q (r ∷ rows) f h = ground (arith, f r, all-weaken p q rows f)

-- With distinct ids every row whose id is among the candidates passes the WHERE clause itself: it
-- is due, has no running lease and is not locked, and it has the source and the priority asked for.
pub chosen_claimable :
    (db : Database) (now : ℕ) (source : Option Source) (limit : ℕ) (backfill_only : Bool)
    (locked : List ℕ)
    → DistinctIds db.crawl_frontier
    → all
        (λ r.
          not (has_id_of (candidates db now source limit backfill_only locked) r)
          || is_claimable db now source backfill_only locked r)
        db.crawl_frontier
      ≡ true
chosen_claimable db now source limit b locked d =
    all-weaken (chosen_passes q (filter q db.crawl_frontier)) _ db.crawl_frontier keep
      (all-chosen_passes q db.crawl_frontier d)
  where
    q : CrawlFrontierRow → Bool
    q = is_claimable db now source b locked

    keep :
        (r : CrawlFrontierRow)
        → chosen_passes
            (is_claimable db now source b locked)
            (filter (is_claimable db now source b locked) db.crawl_frontier)
            r
          ≡ true
        → (not (has_id_of (candidates db now source limit b locked) r)
            || is_claimable db now source b locked r)
          ≡ true
    keep r h = ground (arith, any-candidates db now r.id source limit b locked)
