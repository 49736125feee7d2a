-- ===== src/Sources/NoticeLots/Lots.antt =====
-- Which lots `_attach_notice_lots` of infrastructure/sources/zakup_sk/adapter.py leaves in a batch.
use govpars.Prelude.{
  String, ◌≡◌, refl, ap, subst, inl, inr, Bool, true, false, not, ◌&&◌, ◌||◌, List, [], ◌∷◌, ◌++◌,
  map, arith, eq_iff, Bool-cases, length, take, drop, all, filter,
}
use govpars.Domain.Models.{EntityIdentity, entity_type_eq, lot}
use govpars.Sources.Json.{Fields, Python}
use govpars.Sources.ZakupParser.{identity_under, identity, identified}
use govpars.Sources.NoticeLots.{is_in, add_ids}

module _ {A B : Type 0} where
  pub filter-map :
      (p : B → Bool) (f : A → B) (xs : List A)
      → filter p (map f xs) ≡ map f (filter (λ x. p (f x)) xs)
  filter-map p f [] = refl
  filter-map p f (x ∷ xs) = ground (arith, filter-map p f xs)

  pub map-append : (f : A → B) (xs ys : List A) → map f (xs ++ ys) ≡ map f xs ++ map f ys
  map-append f [] ys = refl
  map-append f (x ∷ xs) ys = ap (λ l. f x ∷ l) (map-append f xs ys)

module _ {A : Type 0} where
  pub drop-append : (xs ys : List A) → drop (length xs) (xs ++ ys) ≡ ys
  drop-append [] ys = refl
  drop-append (x ∷ xs) ys = drop-append xs ys

  pub take-append_all : (xs ys : List A) → take (length xs) (xs ++ ys) ≡ xs
  take-append_all [] ys = refl
  take-append_all (x ∷ xs) ys = ap (λ l. x ∷ l) (take-append_all xs ys)

  pub filter-all : (p : A → Bool) (xs : List A) → all p xs ≡ true → filter p xs ≡ xs
  filter-all p [] h = refl
  filter-all p (x ∷ xs) h = ground (arith, filter-all p xs)

pub is_in-append :
    (xs ys : List String) (id : String) → is_in (xs ++ ys) id ≡ (is_in xs id || is_in ys id)
is_in-append [] ys id = refl
is_in-append (x ∷ xs) ys id = ground (arith, is_in-append xs ys id)

is_in_subst : (xs : List String) (x id : String) → x ≡ id → is_in xs x ≡ true → is_in xs id ≡ true
is_in_subst xs x id e h = subst (λ z. is_in xs z ≡ true) e h

pub is_in-add_ids :
    (seen ids : List String) (id : String)
    → is_in (add_ids seen ids) id ≡ (is_in seen id || is_in ids id)
unfolding add_ids
is_in-add_ids seen [] id = ground arith
is_in-add_ids seen (x ∷ ids) id = elim (Bool-cases (is_in seen x)) [
  | inl old ↦
      rw old (ground (arith, is_in-add_ids seen ids id, eq_iff x id, is_in_subst seen x id, old))
  | inr new ↦
      rw new (ground (arith, is_in-add_ids (seen ++ x ∷ []) ids id, is_in-append seen (x ∷ []) id))
]

-- No text is twice in the list.
abbrev pub is_distinct : List String → Bool
is_distinct [] = true
is_distinct (x ∷ xs) = not (is_in xs x) && is_distinct xs

is_distinct-snoc :
    (xs : List String) (x : String)
    → is_in xs x ≡ false
    → is_distinct xs ≡ true
    → is_distinct (xs ++ x ∷ []) ≡ true
is_distinct-snoc [] x n h = refl
is_distinct-snoc (y ∷ xs) x n h =
    ground (arith, is_distinct-snoc xs x, is_in-append xs (x ∷ []) y, eq_iff x y, eq_iff y x)

pub is_distinct-add_ids :
    (seen ids : List String) → is_distinct seen ≡ true → is_distinct (add_ids seen ids) ≡ true
unfolding add_ids
is_distinct-add_ids seen [] h = h
is_distinct-add_ids seen (x ∷ ids) h = elim (Bool-cases (is_in seen x)) [
  | inl old ↦ rw old (is_distinct-add_ids seen ids h)
  | inr new ↦ rw new (is_distinct-add_ids (seen ++ x ∷ []) ids (is_distinct-snoc seen x new h))
]

abbrev pub Lot : Type 0
Lot = EntityIdentity × Fields

abbrev pub lot_id : Lot → String
lot_id p = p.0.source_entity_id

-- The items that are kept are those that are not seen yet; with the seen ones they are all.
pub is_in-filter :
    (seen page_ids : List String) (lots : List Lot) (id : String)
    → ((is_in
          (map lot_id (filter (λ p. not (is_in page_ids (lot_id p) && is_in seen (lot_id p))) lots))
          id)
        || is_in seen id)
      ≡ (is_in (map lot_id lots) id || is_in seen id)
is_in-filter seen page_ids [] id = refl
is_in-filter seen page_ids (p ∷ lots) id = ground (
  arith,
  is_in-filter seen page_ids lots id,
  eq_iff (lot_id p) id,
  is_in_subst seen (lot_id p) id,
)

-- Every lot of a page has the type of a lot.
pub identified-lots :
    (py : Python) (fs : List Fields)
    → all (λ p. entity_type_eq p.0.entity_type lot) (identified py lot fs) ≡ true
unfolding identified identity identity_under
identified-lots py [] = refl
identified-lots py (f ∷ fs) = ground (arith, identified-lots py fs)
