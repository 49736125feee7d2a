-- ===== src/Sources/NoticeLots/Gathered.antt =====
-- What the loop of `_attach_notice_lots` of infrastructure/sources/zakup_sk/adapter.py has gathered:
-- the lots that were added, and the ids that were seen.
use mathlib.Core.Path.{ap₂}
use govpars.Prelude.{
  ℕ, String, ◌≡◌, refl, sym, ap, ◌∙◌, inl, inr, Bool, true, false, not, ◌&&◌, ◌||◌, List, [], ◌∷◌,
  ◌++◌, map, append_assoc, arith, ltb, if◌then◌else◌, Bool-cases, length, take, drop, any, all,
  filter,
}
use govpars.Domain.Errors.{ok}
use govpars.Domain.Models.{
  EntityIdentity, EntityRelation, DiscoveredEntity, ExtractedBatch, entity_type_eq, lot,
}
use govpars.Sources.Json.{Json, Python, items}
use govpars.Sources.ZakupParser.{identified, discovered_entity, lot_relation, attach_notice_lots}
use govpars.Sources.NoticeLots.{
  catalog_total, is_in, lot_ids, add_ids, without_duplicates, reaches, is_missing, is_last_page,
}
use govpars.Sources.NoticeLots.Lots.{
  Lot, lot_id, filter-map, map-append, drop-append, take-append_all, is_in-append, is_in-add_ids,
  is_distinct, is_distinct-add_ids, is_in-filter, identified-lots,
}

-- An assignment to the slice `xs[before:]`.
slice-assigned :
    {A B : Type 0} (p : B → Bool) (f : A → B) (xs : List B) (lots : List A)
    → take (length xs) (xs ++ map f lots) ++ filter p (drop (length xs) (xs ++ map f lots))
      ≡ xs ++ map f (filter (λ x. p (f x)) lots)
slice-assigned p f xs lots =
    rw (take-append_all xs (map f lots), drop-append xs (map f lots), filter-map p f lots) refl

module _ (py : Python) (now : ℕ) (notice : EntityIdentity) where
  abbrev pub item_of : Lot → DiscoveredEntity
  item_of = discovered_entity py now 10 false

  abbrev pub relation_of : Lot → EntityRelation
  relation_of = lot_relation py notice

  -- The batch is the first one with the lots added, each with its relation, and their ids are the
  -- ones that were seen.
  pub record IsGathered (base batch : ExtractedBatch) (seen : List String) : Type 0 where
    pub lots : List Lot
    pub discovered : batch.discovered ≡ base.discovered ++ map item_of lots
    pub relations : batch.relations ≡ base.relations ++ map relation_of lots
    pub entities : batch.entities ≡ base.entities
    pub distinct : is_distinct seen ≡ true
    pub ids : (id : String) → is_in (map lot_id lots) id ≡ is_in seen id

  lot_ids-items :
      (lots : List Lot)
      → all (λ p. entity_type_eq p.0.entity_type lot) lots ≡ true
      → lot_ids (map item_of lots) ≡ map lot_id lots
  unfolding lot_ids discovered_entity
  lot_ids-items [] h = refl
  lot_ids-items (p ∷ lots) h = ground (arith, lot_ids-items lots, h)

  -- The items of a page that the batch keeps.
  abbrev kept_lots : List String → List Lot → List Lot
  kept_lots seen lots =
      if any (is_in seen) (map lot_id lots)
      then filter (λ p. not (is_in (map lot_id lots) (lot_id p) && is_in seen (lot_id p))) lots
      else lots

  kept_lots-ids :
      (seen : List String) (lots : List Lot) (id : String)
      → (is_in (map lot_id (kept_lots seen lots)) id || is_in seen id)
        ≡ (is_in (map lot_id lots) id || is_in seen id)
  kept_lots-ids seen lots id = elim (Bool-cases (any (is_in seen) (map lot_id lots))) [
    | inl h ↦ rw h (is_in-filter seen (map lot_id lots) lots id)
    | inr h ↦ rw h refl
  ]

  pub page_lots : Json → List Lot
  page_lots payload = identified py lot (items payload)

  abbrev pub attached : ExtractedBatch → Json → ExtractedBatch
  attached batch payload = attach_notice_lots py now batch notice payload

  pub added-items :
      (batch : ExtractedBatch) (payload : Json)
      → drop (length batch.discovered) (attached batch payload).discovered
        ≡ map item_of (page_lots payload)
  unfolding page_lots attach_notice_lots
  added-items batch payload = drop-append batch.discovered (map item_of (page_lots payload))

  page_ids-lots :
      (batch : ExtractedBatch) (payload : Json)
      → lot_ids (drop (length batch.discovered) (attached batch payload).discovered)
        ≡ map lot_id (page_lots payload)
  unfolding page_lots
  page_ids-lots batch payload =
      ap lot_ids (added-items batch payload)
      ∙ lot_ids-items (page_lots payload) (identified-lots py (items payload))

  without_duplicates-kept :
      (batch : ExtractedBatch) (seen : List String) (payload : Json)
      → without_duplicates seen
          (length batch.discovered)
          (length batch.relations)
          (attached batch payload)
        ≡ record batch {
          discovered = batch.discovered ++ map item_of (kept_lots seen (page_lots payload));
          relations = batch.relations ++ map relation_of (kept_lots seen (page_lots payload));
        }
  unfolding without_duplicates page_lots attach_notice_lots
  without_duplicates-kept batch seen payload =
      let lots = page_lots payload in
      elim (Bool-cases (any (is_in seen) (map lot_id lots))) [
        | inl h ↦
            rw (page_ids-lots batch payload, h)
              (ap₂ (λ d r. record batch { discovered = d; relations = r })
                (slice-assigned
                  (λ d. not (
                    is_in (map lot_id lots) d.identity.source_entity_id
                    && is_in seen d.identity.source_entity_id))
                  item_of batch.discovered lots)
                (slice-assigned
                  (λ r. not (
                    is_in (map lot_id lots) r.child.source_entity_id
                    && is_in seen r.child.source_entity_id))
                  relation_of batch.relations lots))
        | inr h ↦ rw (page_ids-lots batch payload, h) refl
      ]

  pub page-IsGathered :
      (base batch : ExtractedBatch) (seen : List String) (payload : Json)
      → IsGathered base batch seen
      → IsGathered base
          (without_duplicates seen
            (length batch.discovered)
            (length batch.relations)
            (attached batch payload))
          (add_ids seen
            (lot_ids (drop (length batch.discovered) (attached batch payload).discovered)))
  page-IsGathered base batch seen payload g =
      let lots = page_lots payload in
      let kept = kept_lots seen lots in
      rw (without_duplicates-kept batch seen payload, page_ids-lots batch payload)
        (record {
          lots = g.lots ++ kept;
          discovered =
              ap (λ l. l ++ map item_of kept) g.discovered
              ∙ (append_assoc base.discovered (map item_of g.lots) (map item_of kept)
                  ∙ ap (λ l. base.discovered ++ l) (sym (map-append item_of g.lots kept)));
          relations =
              ap (λ l. l ++ map relation_of kept) g.relations
              ∙ (append_assoc base.relations (map relation_of g.lots) (map relation_of kept)
                  ∙ ap (λ l. base.relations ++ l) (sym (map-append relation_of g.lots kept)));
          entities = g.entities;
          distinct = is_distinct-add_ids seen (map lot_id lots) g.distinct;
          ids = λ id. ground (
            arith,
            ap (λ l. is_in l id) (map-append lot_id g.lots kept),
            is_in-append (map lot_id g.lots) (map lot_id kept) id,
            g.ids id,
            kept_lots-ids seen lots id,
            is_in-add_ids seen (map lot_id lots) id,
          );
        })

  -- The last page told the truth: as many lots as it reports were seen, or it reports no number and
  -- has fewer items than were asked for.
  unfoldable pub is_complete : Json → ℕ → Bool
  unfolding page_lots
  is_complete payload seen =
      reaches (catalog_total py payload) seen
      || (is_missing (catalog_total py payload) && ltb (length (page_lots payload)) 1000)

  pub is_last-is_complete :
      (payload : Json) (added seen : ℕ) (has_new : Bool)
      → added ≡ length (page_lots payload)
      → is_last_page (catalog_total py payload) added has_new seen ≡ ok true
      → is_complete payload seen ≡ true
  unfolding is_last_page is_complete
  is_last-is_complete payload added seen has_new e h = ground (arith, e)
