-- ===== src/Sources/NoticeLots/Bounds.antt =====
-- That the loop of `_attach_notice_lots` of infrastructure/sources/zakup_sk/adapter.py ends where the
-- pages report a total.
use govpars.Prelude.{
  ℕ, zero, suc, ◌+◌, ◌≤◌, ◌<◌, String, ◌≡◌, sym, ap, ◌∙◌, subst, inl, inr, Bool, true, false, not,
  Option, none, some, List, [], ◌∷◌, ◌++◌, arith, Bool-cases, length, any, length-append,
}
use govpars.Prelude.Int.{ℤ, pos, negsuc}
use govpars.Domain.Errors.{Result, ok, raised, ◌>>=◌, Result-cases, >>=-ok}
use govpars.Domain.Models.{EntityIdentity, ExtractedBatch}
use govpars.Sources.Json.{Python}
use govpars.Sources.NoticeLots.{
  PageResponse, catalog_total, is_in, lot_ids, add_ids, reaches, is_last_page, LotsPage, read_page,
  read_pages,
}
use govpars.Sources.NoticeLots.Ends.{page_items, read_page-PageRead}

length-add_ids_le : (seen ids : List String) → length seen ≤ length (add_ids seen ids)
unfolding add_ids
length-add_ids_le seen [] = omega arith
length-add_ids_le seen (x ∷ ids) = elim (Bool-cases (is_in seen x)) [
  | inl old ↦ rw old (length-add_ids_le seen ids)
  | inr new ↦
      rw new (omega (arith, length-add_ids_le (seen ++ x ∷ []) ids, length-append seen (x ∷ [])))
]

length-add_ids_lt :
    (seen ids : List String)
    → any (λ id. not (is_in seen id)) ids ≡ true
    → length seen < length (add_ids seen ids)
unfolding add_ids
length-add_ids_lt seen [] h = absurd (ground arith)
length-add_ids_lt seen (x ∷ ids) h = elim (Bool-cases (is_in seen x)) [
  | inl old ↦ rw old (length-add_ids_lt seen ids (ground (arith, h, old)))
  | inr new ↦
      rw new (omega (arith, length-add_ids_le (seen ++ x ∷ []) ids, length-append seen (x ∷ [])))
]

-- A page that is not the last has a new lot, and its total is not reached.
not_last_page :
    (total : Option ℤ) (added seen n : ℕ) (has_new : Bool)
    → is_last_page total added has_new seen ≡ ok false
    → reaches total n ≡ true
    → (has_new ≡ true) × (seen < n)
unfolding is_last_page
not_last_page none added seen n has_new h t = absurd (ground arith)
not_last_page (some (pos k)) added seen n has_new h t = (ground arith, ground arith)
not_last_page (some (negsuc k)) added seen n has_new h t = (ground arith, ground arith)

module _ (py : Python) (now n : ℕ) (notice : EntityIdentity) (respond : ℕ → Result PageResponse)
    (reports : (page : ℕ) (r : PageResponse)
      → respond page ≡ ok r
      → reaches (catalog_total py r.payload) n ≡ true) where
  read_pages_lem :
      (fuel : ℕ) (batch : ExtractedBatch) (seen : List String) (page : ℕ)
      → n < fuel + length seen
      → length seen ≤ n
      → (res : Result LotsPage) × (read_pages fuel py now respond notice batch seen page ≡ some res)
  unfolding read_pages
  read_pages_lem zero batch seen page f l = absurd (omega arith)
  read_pages_lem (suc fuel) batch seen page f l =
      elim (Result-cases (respond page >>= read_page py now notice batch seen)) [
        | inr (e, x) ↦ (raised e, ground arith)
        | inl (p, x) ↦ elim (Bool-cases p.is_last) [
          | inl end ↦ (ok p, ground arith)
          | inr more ↦
              let (r, responded, read) =
                >>=-ok (respond page) (read_page py now notice batch seen) p x in
              let parts = read_page-PageRead py now notice batch seen r p read in
              let (new, below) =
                not_last_page (catalog_total py r.payload)
                  (length (page_items py now notice batch r)) (length p.seen) n
                  (any (λ id. not (is_in seen id)) (lot_ids (page_items py now notice batch r)))
                  (parts.last ∙ ap ok more) (reports page r responded) in
              let grows : length seen < length p.seen =
                subst (λ z. length seen < length z) (sym parts.seen_is)
                  (length-add_ids_lt seen (lot_ids (page_items py now notice batch r)) new) in
              let (res, e) =
                read_pages_lem fuel p.batch p.seen (page + 1) (omega (arith, grows))
                  (omega (arith, below)) in
              (res, ground (arith, e))
        ]
      ]

-- Where each page that answers reports a total of at most `n`, the loop has returned or raised after
-- `n + 1` pages.
pub read_pages-ends :
    (py : Python) (now n : ℕ) (respond : ℕ → Result PageResponse) (notice : EntityIdentity)
    (batch : ExtractedBatch)
    → ((page : ℕ) (r : PageResponse)
        → respond page ≡ ok r
        → reaches (catalog_total py r.payload) n ≡ true)
    → (res : Result LotsPage) × (read_pages (n + 1) py now respond notice batch [] 0 ≡ some res)
read_pages-ends py now n respond notice batch reports =
    read_pages_lem py now n notice respond reports (n + 1) batch [] 0 (omega arith) (omega arith)
