-- ===== src/Sources/NoticeLots/Ends.antt =====
-- What `_attach_notice_lots` of infrastructure/sources/zakup_sk/adapter.py has gathered when it returns.
use govpars.Prelude.{
  ℕ, zero, suc, ◌+◌, String, ◌≡◌, refl, sym, ap, ◌∙◌, subst, inl, inr, true, not, some, List, [],
  ◌∷◌, map, append-nil, arith, Bool-cases, length, drop, any,
}
use govpars.Domain.Errors.{Result, ok, raised, ◌>>=◌, Result-cases, >>=-ok}
use govpars.Domain.Models.{EntityIdentity, ExtractedBatch, DiscoveredEntity}
use govpars.Sources.Json.{Python}
use govpars.Sources.NoticeLots.{
  PageResponse, ensure_success, catalog_total, is_in, lot_ids, add_ids, page_end, page_left,
  without_duplicates, is_last_page, LotsPage, read_page, read_pages,
}
use govpars.Sources.NoticeLots.Gathered.{
  item_of, IsGathered, attached, added-items, page_lots, page-IsGathered, is_complete,
  is_last-is_complete,
}

module _ {A B : Type 0} where
  length-map : (f : A → B) (xs : List A) → length (map f xs) ≡ length xs
  length-map f [] = refl
  length-map f (x ∷ xs) = omega (arith, length-map f xs)

module _ (py : Python) (now : ℕ) (notice : EntityIdentity) where
  abbrev pub page_items : ExtractedBatch → PageResponse → List DiscoveredEntity
  page_items batch r =
      drop (length batch.discovered) (attached py now notice batch r.payload).discovered

  -- The parts of a page that was read.
  pub record PageRead (batch : ExtractedBatch) (seen : List String) (r : PageResponse)
      (q : LotsPage) : Type 0 where
    pub last :
        is_last_page
          (catalog_total py r.payload)
          (length (page_items batch r))
          (any (λ id. not (is_in seen id)) (lot_ids (page_items batch r)))
          (length q.seen)
        ≡ ok q.is_last
    pub batch_is :
        q.batch
        ≡ without_duplicates seen
            (length batch.discovered)
            (length batch.relations)
            (attached py now notice batch r.payload)
    pub seen_is : q.seen ≡ add_ids seen (lot_ids (page_items batch r))

  pub read_page-PageRead :
      (batch : ExtractedBatch) (seen : List String) (r : PageResponse) (q : LotsPage)
      → read_page py now notice batch seen r ≡ ok q
      → PageRead batch seen r q
  unfolding read_page page_end page_left
  read_page-PageRead batch seen r q h =
      let after = attached py now notice batch r.payload in
      let (u, e, h') =
        >>=-ok (ensure_success py r)
          (λ _.
            page_end py batch seen after r.payload >>= λ last. ok (page_left batch seen after last))
          q h in
      let (last, l, d) =
        >>=-ok (page_end py batch seen after r.payload)
          (λ last. ok (page_left batch seen after last)) q h' in
      subst (PageRead batch seen r) (ap (or_else q) d)
        (record { last = l; batch_is = refl; seen_is = refl })
    where
      or_else : LotsPage → Result LotsPage → LotsPage
      or_else z (ok a) = a
      or_else z (raised e) = z

  PageRead-IsGathered :
      (base batch : ExtractedBatch) (seen : List String) (r : PageResponse) (q : LotsPage)
      → PageRead batch seen r q
      → IsGathered py now notice base batch seen
      → IsGathered py now notice base q.batch q.seen
  PageRead-IsGathered base batch seen r q p g =
      rw (p.batch_is, p.seen_is) (page-IsGathered py now notice base batch seen r.payload g)

  -- What a run of the loop that returns has: the lots, and a last page that is complete.
  pub record HasGathered (base : ExtractedBatch) (respond : ℕ → Result PageResponse) (q : LotsPage)
      : Type 0 where
    pub gathered : IsGathered py now notice base q.batch q.seen
    pub last_page : ℕ
    pub response : PageResponse
    pub responded : respond last_page ≡ ok response
    pub complete : is_complete py now notice response.payload (length q.seen) ≡ true

  read_pages-HasGathered :
      (fuel : ℕ) (respond : ℕ → Result PageResponse) (base batch : ExtractedBatch)
      (seen : List String) (page : ℕ) (q : LotsPage)
      → read_pages fuel py now respond notice batch seen page ≡ some (ok q)
      → IsGathered py now notice base batch seen
      → HasGathered base respond q
  unfolding read_pages
  read_pages-HasGathered zero respond base batch seen page q h g = absurd (ground arith)
  read_pages-HasGathered (suc fuel) respond base batch seen page q h g =
      elim (Result-cases (respond page >>= read_page py now notice batch seen)) [
        | inr (e, x) ↦ absurd (ground arith)
        | inl (p, x) ↦
            let (r, responded, read) =
              >>=-ok (respond page) (read_page py now notice batch seen) p x in
            let parts = read_page-PageRead batch seen r p read in
            let g' = PageRead-IsGathered base batch seen r p parts g in
            elim (Bool-cases p.is_last) [
              | inl end ↦
                  let same : p ≡ q = ground arith in
                  subst (HasGathered base respond) same (record {
                    gathered = g';
                    last_page = page;
                    response = r;
                    responded = responded;
                    complete =
                        is_last-is_complete py now notice r.payload (length (page_items batch r))
                          (length p.seen)
                          (any (λ id. not (is_in seen id)) (lot_ids (page_items batch r)))
                          (ap length (added-items py now notice batch r.payload)
                            ∙ length-map (item_of py now notice)
                                (page_lots py now notice r.payload))
                          (parts.last ∙ ap ok end);
                  })
              | inr more ↦
                  read_pages-HasGathered fuel respond base p.batch p.seen (page + 1) q
                    (ground arith) g'
            ]
      ]

-- When the loop returns, however long it took, the batch is the one from before with some lots added,
-- each as a discovered entity and, in the same order, as the child of a relation from the notice; the
-- ids of these lots are those that were seen, counted once each; and the last page that was read
-- either reports a total that is reached by that count, or reports none and has fewer than 1000 lots.
pub read_pages_complete :
    (py : Python) (now fuel : ℕ) (respond : ℕ → Result PageResponse) (notice : EntityIdentity)
    (batch : ExtractedBatch) (q : LotsPage)
    → read_pages fuel py now respond notice batch [] 0 ≡ some (ok q)
    → HasGathered py now notice batch respond q
read_pages_complete py now fuel respond notice batch q h =
    read_pages-HasGathered py now notice fuel respond batch batch [] 0 q h (record {
      lots = [];
      discovered = sym (append-nil batch.discovered);
      relations = sym (append-nil batch.relations);
      entities = refl;
      distinct = refl;
      ids = λ id. refl;
    })
