-- ===== src/Sources/BundleCache/Complete.antt =====
-- What a download of infrastructure/sources/zakup_sk/bundle_cache.py leaves in the two files.
use govpars.Prelude.{
  ℕ, zero, suc, ◌+◌, ◌-◌, ◌≤◌, ◌<◌, min, ◌≡◌, refl, sym, ap, ◌∙◌, subst, ◌⊎◌, inl, inr, Bool, true,
  false, none, some, List, ◌++◌, arith, Option-cases, length, take, drop, length-append, take-add,
  take-length, take_all,
}
use mathlib.Core.Path.{ap₂}
use native.Mathlib.Decide.{dec_lt}
use govpars.Domain.Errors.{ok, plain_error, Result-cases}
use govpars.Sources.BundleCache.{
  RangeResponse, Fetched, response, network_error, other_error, Files, DownloadEnd, downloaded,
  out_of_fuel, failed, has_range, get_range_once, get_range, partial_bytes, download_loop, download,
  chunk_size,
}

-- A server of the bundle: a partial response for a range has bytes of the bundle from the start of
-- the range on; it may end too early, or too late.
abbrev pub ServesBundle : List ℕ → (ℕ → ℕ → ℕ → Fetched) → Type 0
ServesBundle bundle server =
    (left start end_ : ℕ) (r : RangeResponse)
    → server left start end_ ≡ response r
    → r.status_code ≡ 206
    → has_range start end_ r ≡ true
    → (n : ℕ) × (r.content ≡ take n (drop start bundle))

-- What is cut off a list and has the length `m` is its first `m` elements.
take-cut : {A : Type 0} (n m : ℕ) (xs ys : List A) → ys ≡ take n xs → length ys ≡ m → ys ≡ take m xs
take-cut n m xs ys e h = e ∙ sym (take-length n xs) ∙ ap (λ k. take k xs) (ap length (sym e) ∙ h)

prefix-append :
    {A : Type 0} (xs ps cs : List A) (o w : ℕ)
    → ps ≡ take (length ps) xs
    → length ps ≡ o
    → cs ≡ take w (drop o xs)
    → length cs ≡ w
    → ps ++ cs ≡ take (length (ps ++ cs)) xs
prefix-append xs ps cs o w p l c m =
    ap₂ (λ x y. x ++ y) (p ∙ ap (λ k. take k xs) l) c
    ∙ take-add o w (length (ps ++ cs)) xs (omega (arith, length-append ps cs))

abbrev is_response : Fetched → Bool
is_response (response r) = true
is_response _ = false

Fetched-cases : (f : Fetched) → ((r : RangeResponse) × (f ≡ response r)) ⊎ (is_response f ≡ false)
Fetched-cases (response r) = inl (r, refl)
Fetched-cases (network_error e) = inr refl
Fetched-cases (other_error e) = inr refl

module _ (bundle : List ℕ) (server : ℕ → ℕ → ℕ → Fetched)
    (serves : ServesBundle bundle server) where
  -- A chunk is exactly the part of the bundle that was asked for.
  abbrev IsChunk : ℕ → ℕ → List ℕ → Type 0
  IsChunk start end_ content =
      (content ≡ take (end_ - start + 1) (drop start bundle)) × (length content ≡ end_ - start + 1)

  get_range_once-IsChunk :
      (left start end_ : ℕ) (r : RangeResponse)
      → get_range_once (server left) start end_ ≡ response r
      → IsChunk start end_ r.content
  unfolding get_range_once
  get_range_once-IsChunk left start end_ r h =
      let long : length r.content ≡ end_ - start + 1 = ground arith in
      let (n, e) = serves left start end_ r (ground arith) (ground arith) (ground arith) in
      (take-cut n (end_ - start + 1) (drop start bundle) r.content e long, long)

  get_range-IsChunk :
      (left start end_ : ℕ) (content : List ℕ)
      → get_range server left start end_ ≡ ok content
      → IsChunk start end_ content
  unfolding get_range
  get_range-IsChunk zero start end_ content h =
      elim (Fetched-cases (get_range_once (server zero) start end_)) [
        | inl (r, f) ↦
            subst (IsChunk start end_) (ground arith) (get_range_once-IsChunk zero start end_ r f)
        | inr n ↦ absurd (ground arith)
      ]
  get_range-IsChunk (suc left) start end_ content h =
      elim (Fetched-cases (get_range_once (server (suc left)) start end_)) [
        | inl (r, f) ↦
            subst (IsChunk start end_) (ground arith)
              (get_range_once-IsChunk (suc left) start end_ r f)
        | inr n ↦ get_range-IsChunk left start end_ content (ground arith)
      ]

  -- The partial file holds the first bytes of the bundle.
  abbrev pub IsPrefix : Files → Type 0
  IsPrefix files = partial_bytes files.partial ≡ take (length (partial_bytes files.partial)) bundle

  -- How a download may end that began with `files`.
  abbrev pub Ends : Files → DownloadEnd × Files → Type 0
  Ends files (downloaded, f) = (f.destination ≡ some bundle) × (f.partial ≡ none)
  Ends files (failed e, f) = (f.destination ≡ files.destination) × IsPrefix f
  Ends files (out_of_fuel, f) = ⊥

  append-IsPrefix :
      (files : Files) (offset end_ : ℕ) (content : List ℕ)
      → length (partial_bytes files.partial) ≡ offset
      → IsPrefix files
      → IsChunk offset end_ content
      → IsPrefix (record files { partial = some (partial_bytes files.partial ++ content) })
  append-IsPrefix files offset end_ content l p (c, m) =
      prefix-append bundle (partial_bytes files.partial) content offset (end_ - offset + 1) p l c m

  Ends-destination :
      (f g : Files) (r : DownloadEnd × Files) → f.destination ≡ g.destination → Ends f r → Ends g r
  Ends-destination f g (downloaded, k) h e = e
  Ends-destination f g (failed x, k) h (e, p) = (e ∙ h, p)
  Ends-destination f g (out_of_fuel, k) h e = e

  download_loop-Ends :
      (fuel offset : ℕ) (files : Files)
      → length bundle < offset + fuel
      → offset ≤ length bundle
      → length (partial_bytes files.partial) ≡ offset
      → IsPrefix files
      → Ends files (download_loop server (length bundle) fuel offset files)
  unfolding download_loop
  download_loop-Ends zero offset files f h l p = absurd (omega arith)
  download_loop-Ends (suc fuel) offset files f h l p = elim (dec_lt offset (length bundle)) [
    | yes more ↦
        let last = min (length bundle - 1) (offset + chunk_size - 1) in
        elim (Result-cases (get_range server 4 offset last)) [
          | inr (e, r) ↦
              let eq : download_loop server (length bundle) (suc fuel) offset files
                  ≡ (failed e, files) =
                ground arith in
              subst (Ends files) (sym eq) (refl, p)
          | inl (content, r) ↦
              let chunk = get_range-IsChunk 4 offset last content r in
              let files' = record files {
                partial = some (partial_bytes files.partial ++ content);
              } in
              let eq : download_loop server (length bundle) (suc fuel) offset files
                  ≡ download_loop server (length bundle) fuel (offset + length content) files' =
                ground arith in
              let long = chunk.1 in
              let size = length-append (partial_bytes files.partial) content in
              subst (Ends files) (sym eq) (
                Ends-destination files' files _ refl (
                  download_loop-Ends fuel (offset + length content) files' (omega arith)
                    (omega arith) (omega arith)
                    (append-IsPrefix files offset last content l p chunk)))
        ]
    | no done ↦ elim (Option-cases files.partial) [
      | inl n ↦
          let eq : download_loop server (length bundle) (suc fuel) offset files
              ≡ (failed (plain_error "FileNotFoundError"), files) =
            ground arith in
          subst (Ends files) (sym eq) (refl, p)
      | inr (bytes, s) ↦
          let eq : download_loop server (length bundle) (suc fuel) offset files
              ≡ (downloaded, record { partial = none; destination = some bytes }) =
            ground arith in
          let whole : partial_bytes files.partial ≡ bundle =
            p ∙ take_all (length (partial_bytes files.partial)) bundle (omega arith) in
          subst (Ends files) (sym eq) (ap some (sym (ap partial_bytes s) ∙ whole), refl)
    ]
  ]

  -- A download of the whole bundle, with more fuel than it has bytes, always ends. The server is one
  -- of the bundle: in each response of status 206 whose `Content-Range` is the one asked for, the
  -- bytes are those of the bundle from the start of the range on, though there may be too few or too
  -- many. The partial file may be what an earlier download left, if it is not longer than the bundle,
  -- or anything longer. Whether the server cuts the ranges short, gives other responses or fails,
  -- either the destination is exactly the bundle and the partial file is gone, or an exception is
  -- raised, the destination is as before, and the partial file holds the first bytes of the bundle, so
  -- that the next download resumes it.
  pub download-Ends :
      (fuel : ℕ) (files : Files)
      → length bundle < fuel
      → (length (partial_bytes files.partial) ≤ length bundle → IsPrefix files)
      → Ends files (download server (length bundle) fuel files)
  unfolding download
  download-Ends fuel files f p =
      elim (dec_lt (length bundle) (length (partial_bytes files.partial))) [
        | yes longer ↦
            let eq : download server (length bundle) fuel files
                ≡ download_loop server (length bundle) fuel 0 (record files { partial = none }) =
              ground arith in
            subst (Ends files) (sym eq) (
              Ends-destination (record files { partial = none }) files _ refl
                (download_loop-Ends fuel 0 (record files { partial = none }) (omega arith)
                  (omega arith) refl refl))
        | no short ↦
            let eq : download server (length bundle) fuel files
                ≡ download_loop server (length bundle) fuel (length (partial_bytes files.partial))
                    files =
              ground arith in
            subst (Ends files) (sym eq) (
              download_loop-Ends fuel (length (partial_bytes files.partial)) files (omega arith)
                (omega arith) refl (p (omega arith)))
      ]
