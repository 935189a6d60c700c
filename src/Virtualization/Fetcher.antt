-- ===== src/Virtualization/Fetcher.antt =====
-- virtualization/fetcher.py: downloads in parallel ranges. The server is a parameter: the headers of
-- `head` and the bytes it sends for a whole file and for a range. The tasks of `asyncio.gather` write
-- under one lock, so a run of them is an order of the ranges. `on_progress` is always passed, and its
-- calls are recorded. A timeout and a failing request, which end the download, are not modelled.
mod Ranges
mod Assembly
mod Downloads
mod Tests
use cpip.Common.{
  ℕ, zero, suc, ◌+◌, ◌-◌, ◌*◌, min, String, Bool, true, false, Option, none, some, List, [], ◌∷◌,
  ◌++◌, ltb, length, take, drop, not, ◌||◌, ◌==◌, if◌then◌else◌,
}

pub record ChunkDownloader : Type 0 where
  pub max_concurrent : ℕ
  pub chunk_size : ℕ

abbrev pub Bytes : Type 0
Bytes = List ℕ

-- What the HTTP client gets for the URL: the two headers, the pieces of the streamed file, and the
-- bytes of a range, its last byte included.
pub record Remote : Type 0 where
  pub content_length : ℕ
  pub accept_ranges : Option String
  pub stream : List Bytes
  pub get_range : ℕ → ℕ → Bytes

-- The file at `dest`, the bytes downloaded and the calls of `on_progress`.
pub record Download : Type 0 where
  pub file : Option Bytes
  pub downloaded : ℕ
  pub progress : List (ℕ × ℕ)

pub data Outcome : Type 0 where
  returned : Download → Outcome
  hash_mismatch : Download → Outcome

-- One call of `_chunked_download`'s loop adds a range and ends when the offset is the total: with a
-- positive chunk size, `total` rounds are enough.
unfoldable pub range_loop : ℕ → ℕ → ℕ → ℕ → List (ℕ × ℕ)
range_loop zero chunk_size total offset = []
range_loop (suc fuel) chunk_size total offset =
    let end = min (offset + chunk_size - 1) (total - 1) in
    let rest = range_loop fuel chunk_size total (end + 1) in
    if ltb offset total then (offset, end) ∷ rest else []

unfoldable pub ranges : ChunkDownloader → ℕ → List (ℕ × ℕ)
ranges d total = range_loop total d.chunk_size total 0

-- `f.truncate(total)` of a new file
abbrev pub zeros : ℕ → Bytes
zeros zero = []
zeros (suc n) = 0 ∷ zeros n

-- `f.seek(start); f.write(data)`, within the file or at its end.
unfoldable pub write_at : ℕ → Bytes → Bytes → Bytes
write_at start content file = take start file ++ content ++ drop (start + length content) file

unfoldable pub fetch_chunk : Remote → ℕ → ℕ × ℕ → Bytes × Download → Bytes × Download
fetch_chunk r total (start, end) (file, d) =
    let content = r.get_range start end in
    (
      write_at start content file,
      record d {
        downloaded = d.downloaded + length content;
        progress = d.progress ++ (d.downloaded + length content, total) ∷ [];
      },
    )

unfoldable pub fetch_all : Remote → ℕ → List (ℕ × ℕ) → Bytes × Download → Bytes × Download
fetch_all r total [] s = s
fetch_all r total (range ∷ order) s = fetch_all r total order (fetch_chunk r total range s)

-- `for chunk in resp.aiter_bytes(...)`
unfoldable pub stream_loop : ℕ → List Bytes → Bytes × Download → Bytes × Download
stream_loop total [] s = s
stream_loop total (chunk ∷ chunks) (file, d) = stream_loop total chunks (
  file ++ chunk,
  record d {
    downloaded = d.downloaded + length chunk;
    progress = d.progress ++ (d.downloaded + length chunk, total) ∷ [];
  },
)

abbrev pub fresh : Download
fresh = record { file = none; downloaded = 0; progress = [] }

abbrev pub written : Bytes × Download → Download
written (file, d) = record d { file = some file }

unfoldable pub simple_download : Remote → ℕ → Outcome
simple_download r total = Outcome.returned (written (stream_loop total r.stream ([], fresh)))

-- The test of the digest, and `dest.unlink()` where it fails.
unfoldable pub verify : (Bytes → String) → String → Bytes × Download → Outcome
verify sha256 expected (file, d) =
    if expected == ""
    then Outcome.returned (written (file, d))
    else if sha256 file == expected
    then Outcome.returned (written (file, d))
    else Outcome.hash_mismatch (record d { file = none })

-- `_chunked_download`, with the ranges completed in the given order.
unfoldable pub chunked_download : (Bytes → String) → Remote → ℕ → String → List (ℕ × ℕ) → Outcome
chunked_download sha256 r total expected order =
    verify sha256 expected (fetch_all r total order (zeros total, fresh))

abbrev pub supports_range : Remote → Bool
supports_range r = elim r.accept_ranges [ some v ↦ v == "bytes" | none ↦ false ]

unfoldable pub download :
    (Bytes → String) → ChunkDownloader → Remote → String → List (ℕ × ℕ) → Outcome
download sha256 d r expected order =
    if not (supports_range r) || ltb r.content_length (d.chunk_size * 2)
    then simple_download r r.content_length
    else chunked_download sha256 r r.content_length expected order
