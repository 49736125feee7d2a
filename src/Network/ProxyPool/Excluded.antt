-- ===== src/Network/ProxyPool/Excluded.antt =====
-- What `ProxyPoolCursor.next` of infrastructure/network/proxy_pool.py never returns.
use govpars.Prelude.{
  ℕ, zero, suc, ◌+◌, ◌%◌, String, ◌≡◌, inl, inr, false, some, List, arith, Bool-cases, Option-cases,
  length, get_elem?,
}
use govpars.Domain.Errors.{ok}
use govpars.Network.ProxyPool.{ProxyPoolCursor, is_excluded, is_cooling, next_loop, next}

next_loop-is_excluded :
    (r : ℕ) (p p' : ProxyPoolCursor) (now : ℕ) (exclude : List String) (url : String)
    → next_loop r p now exclude ≡ (ok (some url), p')
    → is_excluded exclude url ≡ false
unfolding next_loop
next_loop-is_excluded zero p p' now exclude url h = absurd (ground arith)
next_loop-is_excluded (suc r) p p' now exclude url h =
    elim (Option-cases (get_elem? p.urls p.cursor)) [
      | inl n ↦ absurd (ground arith)
      | inr (u, e) ↦
          let step =
            next_loop-is_excluded r (record p { cursor = (p.cursor + 1) % length p.urls }) p' now
              exclude url in
          elim (Bool-cases (is_excluded exclude u)) [
            | inl x ↦ ground (arith, step)
            | inr x ↦ elim (Bool-cases (is_cooling p now u)) [
              | inl y ↦ ground (arith, step)
              | inr y ↦ ground arith
            ]
          ]
    ]

pub next-is_excluded :
    (p p' : ProxyPoolCursor) (now : ℕ) (exclude : List String) (url : String)
    → next p now exclude ≡ (ok (some url), p')
    → is_excluded exclude url ≡ false
unfolding next
next-is_excluded p p' now exclude url h =
    next_loop-is_excluded (length p.urls) p p' now exclude url h
