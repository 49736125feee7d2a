-- ===== src/Sources/ZakupDocuments/Distinct.antt =====
-- Which dictionaries `_documents` of infrastructure/sources/zakup_sk/parser.py makes documents of.
use govpars.Prelude.{
  String, ◌≡◌, refl, sym, subst, inl, inr, Bool, true, false, not, ◌&&◌, ◌||◌, List, [], ◌∷◌, arith,
  str_eq, eq_iff, Bool-cases, any, all,
}
use govpars.Sources.Json.{Fields, Python}
use govpars.Sources.ZakupDocuments.{is_document, document_key, chosen_documents}

abbrev is_among : List String → String → Bool
is_among keys key = any (λ k. str_eq k key) keys

abbrev pub has_repeats : List String → Bool
has_repeats [] = false
has_repeats (k ∷ keys) = is_among keys k || has_repeats keys

module _ (py : Python) where
  abbrev pub keys_of : List Fields → List String
  keys_of [] = []
  keys_of (fs ∷ rest) = document_key py fs ∷ keys_of rest

  -- No chosen key was seen, and none is chosen twice.
  seen-not_chosen :
      (seen : List String) (xs : List Fields) (key : String)
      → is_among seen key ≡ true
      → is_among (keys_of (chosen_documents py seen xs)) key ≡ false
  unfolding chosen_documents
  seen-not_chosen seen [] key h = refl
  seen-not_chosen seen (fs ∷ xs) key h = ground (
    arith,
    seen-not_chosen seen xs key,
    seen-not_chosen (document_key py fs ∷ seen) xs key,
    eq_iff (document_key py fs) key,
    eq_iff (document_key py fs) (document_key py fs),
    is_among_subst seen key (document_key py fs),
  )
    where
      is_among_subst :
          (ks : List String) (a b : String) → b ≡ a → is_among ks a ≡ true → is_among ks b ≡ true
      is_among_subst ks a b e q = subst (λ z. is_among ks z ≡ true) (sym e) q

  chosen-distinct :
      (seen : List String) (xs : List Fields)
      → has_repeats (keys_of (chosen_documents py seen xs)) ≡ false
  unfolding chosen_documents
  chosen-distinct seen [] = refl
  chosen-distinct seen (fs ∷ xs) = ground (
    arith,
    chosen-distinct seen xs,
    chosen-distinct (document_key py fs ∷ seen) xs,
    seen-not_chosen (document_key py fs ∷ seen) xs (document_key py fs),
    eq_iff (document_key py fs) (document_key py fs),
  )

  -- The key of a document was seen before, or is among the chosen ones.
  abbrev pub is_covered : List String → List String → Fields → Bool
  is_covered seen keys fs =
      not (is_document fs)
      || (is_among seen (document_key py fs) || is_among keys (document_key py fs))

  chosen-covered :
      (seen : List String) (xs : List Fields)
      → all (is_covered seen (keys_of (chosen_documents py seen xs))) xs ≡ true
  unfolding chosen_documents
  chosen-covered seen [] = refl
  chosen-covered seen (fs ∷ xs) =
      elim (Bool-cases (is_document fs && not (is_among seen (document_key py fs)))) [
        | inr skipped ↦
            let same : chosen_documents py seen (fs ∷ xs) ≡ chosen_documents py seen xs =
              rw skipped refl in
            subst (λ z. all (is_covered seen (keys_of z)) (fs ∷ xs) ≡ true) (sym same)
              (ground (arith, skipped, chosen-covered seen xs))
        | inl chosen ↦
            let key = document_key py fs in
            let others = chosen_documents py (key ∷ seen) xs in
            let same : chosen_documents py seen (fs ∷ xs) ≡ fs ∷ others = rw chosen refl in
            subst (λ z. all (is_covered seen (keys_of z)) (fs ∷ xs) ≡ true) (sym same)
              (ground (
                arith,
                eq_iff key key,
                moved xs (keys_of others) key (chosen-covered (key ∷ seen) xs),
              ))
      ]
    where
      moved :
          (ys : List Fields) (keys : List String) (key : String)
          → all (is_covered (key ∷ seen) keys) ys ≡ true
          → all (is_covered seen (key ∷ keys)) ys ≡ true
      moved [] keys key h = refl
      moved (y ∷ ys) keys key h = ground (arith, moved ys keys key)

-- No two of the dictionaries that become documents have one key, and each dictionary that describes a
-- file has its key among theirs: repetitions are left out and nothing else.
pub documents_lem :
    (py : Python) (xs : List Fields)
    → (has_repeats (keys_of py (chosen_documents py [] xs)) ≡ false)
      × (all (is_covered py [] (keys_of py (chosen_documents py [] xs))) xs ≡ true)
documents_lem py xs = (chosen-distinct py [] xs, chosen-covered py [] xs)
