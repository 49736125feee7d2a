-- ===== src/Network/ProxyPool.antt =====
-- `ProxyPoolCursor` of infrastructure/network/proxy_pool.py. `time.monotonic` is an argument, in
-- whole ticks. An index out of range is an `IndexError`, as in Python.
pub mod Rotation
pub mod Excluded
use govpars.Prelude.{
  ℕ, zero, suc, ◌+◌, ◌%◌, String, Bool, Option, none, some, List, [], ◌∷◌, str_eq, ltb,
  if◌then◌else◌, length, get_elem?, any,
}
use govpars.Prelude.Dict.{get, put}
use govpars.Domain.Errors.{Result, ok, raised, plain_error}

pub record ProxyPoolCursor : Type 0 where
  pub urls : List String
  pub cursor : ℕ
  pub cooldown_seconds : ℕ
  pub cooldown_until : List (String × ℕ)

-- `start_index % len(urls) if urls else 0`
abbrev start_cursor : List String → ℕ → ℕ
start_cursor [] start_index = 0
start_cursor (u ∷ us) start_index = start_index % length (u ∷ us)

unfoldable pub new : List String → ℕ → ℕ → ProxyPoolCursor
new urls start_index cooldown_seconds = record {
  urls = urls;
  cursor = start_cursor urls start_index;
  cooldown_seconds = cooldown_seconds;
  cooldown_until = [];
}

unfoldable pub mark_failed : ProxyPoolCursor → ℕ → String → ProxyPoolCursor
mark_failed p now url = record p {
  cooldown_until = put p.cooldown_until url (now + p.cooldown_seconds);
}

-- `url in exclude`
abbrev pub is_excluded : List String → String → Bool
is_excluded exclude url = any (λ e. str_eq e url) exclude

-- `self.cooldown_until.get(url, 0) > now`
unfoldable pub is_cooling : ProxyPoolCursor → ℕ → String → Bool
is_cooling p now url = elim (get p.cooldown_until url) [ none ↦ ltb now 0 | some t ↦ ltb now t ]

-- `for _ in self.urls`: one round for each url, from the cursor on.
next_loop : ℕ → ProxyPoolCursor → ℕ → List String → Result (Option String) × ProxyPoolCursor
unfolding is_cooling
next_loop zero p now exclude = (ok none, p)
next_loop (suc rounds) p now exclude = elim (get_elem? p.urls p.cursor) [
  | none ↦ (raised (plain_error "IndexError"), p)
  | some url ↦
      let p' = record p { cursor = (p.cursor + 1) % length p.urls } in
      let rest = next_loop rounds p' now exclude in
      if is_excluded exclude url
      then rest
      else if is_cooling p now url
      then rest
      else (ok (some url), p')
]

unfoldable pub next : ProxyPoolCursor → ℕ → List String → Result (Option String) × ProxyPoolCursor
unfolding next_loop
next p now exclude = next_loop (length p.urls) p now exclude
