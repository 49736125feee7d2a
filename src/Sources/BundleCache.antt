-- ===== src/Sources/BundleCache.antt =====
-- The download of `ZakupBundleCache` in infrastructure/sources/zakup_sk/bundle_cache.py: `_get_range`
-- with its retries, and `_download`, which resumes a partial file. The two files are states, the
-- server is what each request for a range gives at each attempt; a `Content-Range` header is the
-- pair of numbers that it begins with. The waits between attempts are left out.
pub mod Complete
use govpars.Prelude.{
  ℕ, zero, suc, ◌+◌, ◌-◌, min, Bool, false, not, ◌&&◌, ◌||◌, Option, none, some, List, [], ◌++◌,
  ltb, leb, ◌==◌, if◌then◌else◌, length,
}
use govpars.Domain.Errors.{Exc, Result, ok, raised, plain_error}

pub record RangeResponse : Type 0 where
  pub status_code : ℕ
  pub content_range : Option (ℕ × ℕ)
  pub content : List ℕ

-- What `client.get` gives: a response, or an exception that the retries cover (a timeout, a network
-- or a protocol error) or not.
pub data Fetched : Type 0 where
  response : RangeResponse → Fetched
  network_error other_error : Exc → Fetched

pub record Files : Type 0 where
  pub partial : Option (List ℕ)
  pub destination : Option (List ℕ)

-- How a download ends, or that its fuel is used up.
pub data DownloadEnd : Type 0 where
  downloaded out_of_fuel : DownloadEnd
  failed : Exc → DownloadEnd

-- `response.headers.get("content-range", "").startswith(f"bytes {start}-{end}/")`
abbrev pub has_range : ℕ → ℕ → RangeResponse → Bool
has_range start end_ r = elim r.content_range [
  | none ↦ false
  | some (a, b) ↦ a == start && b == end_
]

-- The tests on a response: `raise_for_status`, the range and the length.
unfoldable pub check_response : ℕ → ℕ → RangeResponse → Fetched
check_response start end_ r =
    if not (leb 200 r.status_code && leb r.status_code 299)
    then other_error (plain_error "HTTPStatusError")
    else if not (r.status_code == 206) || not (has_range start end_ r)
    then network_error (plain_error "Invalid range response")
    else if not (length r.content == end_ - start + 1)
    then network_error (plain_error "Incomplete range")
    else response r

-- One attempt.
unfoldable pub get_range_once : (ℕ → ℕ → Fetched) → ℕ → ℕ → Fetched
unfolding check_response
get_range_once get start end_ = elim (get start end_) [
  | response r ↦ check_response start end_ r
  | network_error e ↦ network_error e
  | other_error e ↦ other_error e
]

-- `stop_after_attempt(5)` with `reraise=True`: `left` attempts after this one.
unfoldable pub get_range : (ℕ → ℕ → ℕ → Fetched) → ℕ → ℕ → ℕ → Result (List ℕ)
get_range server zero start end_ = elim (get_range_once (server zero) start end_) [
  | response r ↦ ok r.content
  | network_error e ↦ raised e
  | other_error e ↦ raised e
]
get_range server (suc left) start end_ =
    let rest = get_range server left start end_ in
    elim (get_range_once (server (suc left)) start end_) [
      | response r ↦ ok r.content
      | network_error e ↦ rest
      | other_error e ↦ raised e
    ]

abbrev pub chunk_size : ℕ
chunk_size = 1048576

abbrev pub partial_bytes : Option (List ℕ) → List ℕ
partial_bytes none = []
partial_bytes (some bytes) = bytes

module _ (server : ℕ → ℕ → ℕ → Fetched) (total : ℕ) where
  -- The `while` loop: the offset is the size of the partial file, to which each chunk is appended.
  unfoldable pub download_loop : ℕ → ℕ → Files → DownloadEnd × Files
  download_loop zero offset files = (out_of_fuel, files)
  download_loop (suc fuel) offset files =
      if ltb offset total
      then elim (get_range server 4 offset (min (total - 1) (offset + chunk_size - 1))) [
        | raised e ↦ (failed e, files)
        | ok content ↦
            download_loop fuel (offset + length content)
              (record files { partial = some (partial_bytes files.partial ++ content) })
      ]
      else elim files.partial [
        | none ↦ (failed (plain_error "FileNotFoundError"), files)
        | some bytes ↦ (downloaded, record { partial = none; destination = some bytes })
      ]

  -- `_download`: a partial file that is too long is removed first.
  unfoldable pub download : ℕ → Files → DownloadEnd × Files
  unfolding download_loop
  download fuel files =
      let offset = length (partial_bytes files.partial) in
      if ltb total offset
      then download_loop fuel 0 (record files { partial = none })
      else download_loop fuel offset files
