-- ===== src/Network/ProxyPool/Rotation.antt =====
-- `ProxyPoolCursor.next` of infrastructure/network/proxy_pool.py against its description: the first
-- usable url on a walk once round the list, from the cursor on.
use govpars.Prelude.{
  ℕ, zero, suc, ◌+◌, ◌%◌, ◌≤◌, ◌<◌, String, ◌≡◌, refl, sym, ap, ◌∙◌, ◌≢◌, inl, inr, Bool, true, not,
  ◌&&◌, none, some, List, [], ◌∷◌, arith, str_eq, leb, if◌then◌else◌, Bool-cases, length, get_elem?,
  all, find?, get_elem?_lt, drop-get_elem?,
}
use govpars.Prelude.Dict.{get-put}
use govpars.Prelude.Walk.{
  walk, walk_from, walk_from_next, walk_from_all, all-walk, find?-none, mod-lt_of_lt,
}
use govpars.Domain.Errors.{ok}
use govpars.Network.ProxyPool.{
  ProxyPoolCursor, is_excluded, is_cooling, next_loop, next, mark_failed, new,
}

unfoldable pub is_usable : ProxyPoolCursor → ℕ → List String → String → Bool
is_usable p now exclude url = not (is_excluded exclude url) && not (is_cooling p now url)

pub record IsValid (p : ProxyPoolCursor) : Type 0 where
  pub in_range : p.urls ≢ [] → p.cursor < length p.urls

abbrev at_cursor : ProxyPoolCursor → ℕ → ProxyPoolCursor
at_cursor p c = record p { cursor = c }

-- one round of the loop at a place in range
next_loop_step :
    (p : ProxyPoolCursor) (r now : ℕ) (exclude : List String) (url : String)
    → get_elem? p.urls p.cursor ≡ some url
    → next_loop (suc r) p now exclude ≡ (
        if is_usable p now exclude url
        then (ok (some url), at_cursor p ((p.cursor + 1) % length p.urls))
        else next_loop r (at_cursor p ((p.cursor + 1) % length p.urls)) now exclude)
unfolding next_loop is_usable
next_loop_step p r now exclude url e = rw (e, next_loop) (ground arith)

is_usable-at_cursor :
    (p : ProxyPoolCursor) (c now : ℕ) (exclude : List String)
    → is_usable (at_cursor p c) now exclude ≡ is_usable p now exclude
unfolding is_usable is_cooling
is_usable-at_cursor p c now exclude = refl

next_loop-eq-find? :
    (r : ℕ) (p : ProxyPoolCursor) (now : ℕ) (exclude : List String)
    → p.cursor < length p.urls
    → r ≤ length p.urls
    → let (res, p') = next_loop r p now exclude in
      (res ≡ ok (find? (is_usable p now exclude) (walk_from p.urls p.cursor r)))
      × (p' ≡ at_cursor p p'.cursor)
      × (p'.cursor < length p.urls)
next_loop-eq-find? zero p now exclude h k = unfold next_loop in (refl, refl, h)
next_loop-eq-find? (suc r) p now exclude h k =
    let (url, e) = get_elem?_lt p.urls p.cursor h in
    let c' : ℕ = (p.cursor + 1) % length p.urls in
    let ih =
      next_loop-eq-find? r (at_cursor p c') now exclude
        (mod-lt_of_lt (p.cursor + 1) (length p.urls) p.cursor h) (omega arith) in
    let w = walk_from_next p.urls p.cursor r h (omega arith) in
    rw (next_loop_step p r now exclude url e, drop-get_elem? p.urls p.cursor url e, w)
      (elim (Bool-cases (is_usable p now exclude url)) [
        | inl u ↦ rw u (refl, refl, mod-lt_of_lt (p.cursor + 1) (length p.urls) p.cursor h)
        | inr u ↦ rw u (rw (is_usable-at_cursor p c' now exclude) at ih)
      ])

-- On a valid cursor over a list that is not empty, `next` never raises. It returns the first
-- usable url (neither excluded nor cooling down) of a walk once round the list from the cursor on,
-- and `None` if there is none; it changes the cursor alone, and leaves it in range.
pub next-eq-find? :
    (p : ProxyPoolCursor) (now : ℕ) (exclude : List String)
    → IsValid p
    → p.urls ≢ []
    → let (res, p') = next p now exclude in
      (res ≡ ok (find? (is_usable p now exclude) (walk p.urls p.cursor)))
      × (p' ≡ record p { cursor = p'.cursor })
      × IsValid p'
unfolding next
next-eq-find? p now exclude v ne =
    let h = v.in_range ne in
    let l = next_loop-eq-find? (length p.urls) p now exclude h (omega arith) in
    (
      l.0 ∙ ap (λ w. ok (find? (is_usable p now exclude) w)) (walk_from_all p.urls p.cursor h),
      l.1,
      record { in_range = λ _. rw same_urls l.2 },
    )
  where
    same_urls : (next_loop (length p.urls) p now exclude).1.urls ≡ p.urls
    same_urls =
        ap (λ (q : ProxyPoolCursor). q.urls)
          (next_loop-eq-find? (length p.urls) p now exclude (v.in_range ne) (omega arith)).1

-- A new cursor is valid, whatever the start index.
pub new-IsValid :
    (urls : List String) (start_index cooldown_seconds : ℕ)
    → IsValid (new urls start_index cooldown_seconds)
unfolding new
new-IsValid [] i c = record { in_range = λ ne. absurd (ne refl) }
new-IsValid (u ∷ us) i c = record { in_range = λ _. omega arith }

-- `next` on a valid cursor over a list that is not empty returns `None` only if every url of the
-- list is excluded or cooling down: it never overlooks one.
pub next-none :
    (p : ProxyPoolCursor) (now : ℕ) (exclude : List String)
    → IsValid p
    → p.urls ≢ []
    → (next p now exclude).0 ≡ ok none
    → all (λ u. not (is_usable p now exclude u)) p.urls ≡ true
next-none p now exclude v ne h =
    let e : find? (is_usable p now exclude) (walk p.urls p.cursor) ≡ none =
      cc (h, (next-eq-find? p now exclude v ne).0) in
    sym (all-walk (λ u. not (is_usable p now exclude u)) p.urls p.cursor)
    ∙ find?-none (is_usable p now exclude) (walk p.urls p.cursor) e

-- After `mark_failed` at `now` that url is usable at an instant exactly when it is not excluded and
-- the cooldown has passed by then, and every other url exactly when it was so before.
pub mark_failed_lem :
    (p : ProxyPoolCursor) (now later : ℕ) (exclude : List String) (url other : String)
    → is_usable (mark_failed p now url) later exclude other ≡ (
        if str_eq url other
        then not (is_excluded exclude other) && leb (now + p.cooldown_seconds) later
        else is_usable p later exclude other)
unfolding is_usable is_cooling mark_failed
mark_failed_lem p now later exclude url other =
    ground (arith, get-put p.cooldown_until url other (now + p.cooldown_seconds))
