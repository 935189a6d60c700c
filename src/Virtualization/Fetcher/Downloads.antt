-- ===== src/Virtualization/Fetcher/Downloads.antt =====
-- virtualization/fetcher.py: what a download leaves in the file, chunked or simple.
use mathlib.Core.List.{Permᴰ, append-nil, append_assoc}
use cpip.Common.{
  ℕ, zero, suc, ◌+◌, ◌*◌, ◌≤◌, ◌<◌, ◌≡◌, refl, ◌∙◌, sym, ap, Bool, true, false, List, [], ◌∷◌, ◌++◌,
  arith, String, ◌||◌, ◌==◌, All, if◌then◌else◌, length, get_elem?, eq_of_get_elem?, ◌⊎◌, inl, inr,
  Option, some, none,
}
use cpip.Virtualization.Fetcher.{
  ChunkDownloader, Bytes, Remote, Download, Outcome, fetch_all, zeros, fresh, ranges, verify,
  download, chunked_download, simple_download, supports_range, stream_loop,
}
use cpip.Virtualization.Fetcher.Ranges.{
  Bounded, covers-Permᴰ, bytes_of-Permᴰ, All-Permᴰ, covers-Tiles, bytes_of-Tiles, ranges-Tiles,
}
use cpip.Virtualization.Fetcher.Assembly.{Serves, fetch_all-byte, fetch_all-length, fetch_all-count}

length-zeros : (n : ℕ) → length (zeros n) ≡ n
length-zeros zero = refl
length-zeros (suc n) = ap suc (length-zeros n)

within_or_end :
    (xs ys : Bytes) (j : ℕ)
    → length xs ≡ length ys
    → (j < length ys) ⊎ (get_elem? xs j ≡ get_elem? ys j)
within_or_end [] [] j l = inr refl
within_or_end [] (y ∷ ys) j l = absurd (omega arith)
within_or_end (x ∷ xs) [] j l = absurd (omega arith)
within_or_end (x ∷ xs) (y ∷ ys) zero l = inl (omega arith)
within_or_end (x ∷ xs) (y ∷ ys) (suc j) l = elim (within_or_end xs ys j (omega arith)) [
  | inl h ↦ inl (omega arith)
  | inr e ↦ inr e
]

-- The ranges of a file, fetched in any order from a server that sends the bytes it is asked for, make
-- up the file, and the count of downloaded bytes is its length.
pub fetch_all-ranges :
    (d : ChunkDownloader) (content : Bytes) (r : Remote) (order : List (ℕ × ℕ))
    → 0 < d.chunk_size
    → Serves content r
    → Permᴰ order (ranges d (length content))
    → ((fetch_all r (length content) order (zeros (length content), fresh)).0 ≡ content)
      × ((fetch_all r (length content) order (zeros (length content), fresh)).1.downloaded
          ≡ length content)
fetch_all-ranges d content r order c serves p = (
  eq_of_get_elem? (fetch_all r n order (zeros n, fresh)).0 content (λ j.
      elim (within_or_end (fetch_all r n order (zeros n, fresh)).0 content j (
        fetch_all-length content r n d.chunk_size order (zeros n) fresh serves bounded
          (length-zeros n))) [
            | inl h ↦
                fetch_all-byte content r n d.chunk_size order (zeros n) fresh j serves bounded
                  (length-zeros n)
                  (inl (
                    covers-Permᴰ j order (ranges d n) p
                    ∙ covers-Tiles 0 n (ranges d n) j (ranges-Tiles d n c).0 (omega arith) h))
            | inr e ↦ e
          ]),
  omega (
    arith,
    fetch_all-count content r n d.chunk_size order (zeros n) fresh serves bounded,
    bytes_of-Permᴰ order (ranges d n) p,
    bytes_of-Tiles 0 n (ranges d n) (ranges-Tiles d n c).0,
  ),
)
  where
    n : ℕ
    n = length content

    bounded : All (Bounded n d.chunk_size) order
    bounded = All-Permᴰ (Bounded n d.chunk_size) order (ranges d n) p (ranges-Tiles d n c).1

abbrev pub accepted : (Bytes → String) → String → Bytes → Bool
accepted sha256 expected content = (expected == "") || (sha256 content == expected)

verify_lem :
    (sha256 : Bytes → String) (expected : String) (file : Bytes) (d : Download)
    → verify sha256 expected (file, d) ≡ (
        if accepted sha256 expected file
        then Outcome.returned (record d { file = some file })
        else Outcome.hash_mismatch (record d { file = none }))
unfolding verify
verify_lem sha256 expected file d = ground arith

download_chunked :
    (sha256 : Bytes → String) (d : ChunkDownloader) (r : Remote) (expected : String)
    (order : List (ℕ × ℕ))
    → supports_range r ≡ true
    → d.chunk_size * 2 ≤ r.content_length
    → download sha256 d r expected order ≡ chunked_download sha256 r r.content_length expected order
unfolding download
download_chunked sha256 d r expected order s h = ground (arith, s, h)

-- A download that is made in chunks, from a server that sends the bytes it is asked for, ends with
-- the whole file in place, whatever the order of the ranges, if no digest is expected or the file has
-- the expected digest, and otherwise with an error and no file.
pub download_verified :
    (sha256 : Bytes → String) (d : ChunkDownloader) (content : Bytes) (r : Remote)
    (expected : String) (order : List (ℕ × ℕ))
    → 0 < d.chunk_size
    → supports_range r ≡ true
    → r.content_length ≡ length content
    → d.chunk_size * 2 ≤ length content
    → Serves content r
    → Permᴰ order (ranges d (length content))
    → (s : Download) × (s.downloaded ≡ length content)
      × (download sha256 d r expected order ≡ (
          if accepted sha256 expected content
          then Outcome.returned (record s { file = some content })
          else Outcome.hash_mismatch (record s { file = none })))
unfolding chunked_download
download_verified sha256 d content r expected order c s l h serves p = (
  (fetch_all r n order (zeros n, fresh)).1,
  (fetch_all-ranges d content r order c serves p).1,
  download_chunked sha256 d r expected order s (omega arith)
      ∙ ap (λ (m : ℕ). chunked_download sha256 r m expected order) l
      ∙ verify_lem sha256 expected (fetch_all r n order (zeros n, fresh)).0
          (fetch_all r n order (zeros n, fresh)).1
      ∙ ap
          (λ (file : Bytes).
            if accepted sha256 expected file
            then Outcome.returned
                (record ((fetch_all r n order (zeros n, fresh)).1) { file = some file })
            else Outcome.hash_mismatch
                (record ((fetch_all r n order (zeros n, fresh)).1) { file = none }))
          (fetch_all-ranges d content r order c serves p).0,
)
  where
    n : ℕ
    n = length content

abbrev pub concat : List Bytes → Bytes
concat [] = []
concat (c ∷ cs) = c ++ concat cs

stream_loop-concat :
    (total : ℕ) (chunks : List Bytes) (file : Bytes) (d : Download)
    → (stream_loop total chunks (file, d)).0 ≡ file ++ concat chunks
unfolding stream_loop
stream_loop-concat total [] file d = sym (append-nil file)
stream_loop-concat total (chunk ∷ chunks) file d =
    stream_loop-concat total chunks (file ++ chunk) (record d {
      downloaded = d.downloaded + length chunk;
      progress = d.progress ++ (d.downloaded + length chunk, total) ∷ [];
    })
    ∙ append_assoc file chunk (concat chunks)

abbrev pub file_of : Outcome → Option Bytes
file_of (Outcome.returned d) = d.file
file_of (Outcome.hash_mismatch d) = none

-- A file of less than two chunks, or one from a server without ranges, is returned as it is streamed:
-- the expected digest is not looked at.
pub download_unverified :
    (sha256 : Bytes → String) (d : ChunkDownloader) (r : Remote) (expected : String)
    (order : List (ℕ × ℕ))
    → (supports_range r ≡ false) ⊎ (r.content_length < d.chunk_size * 2)
    → file_of (download sha256 d r expected order) ≡ some (concat r.stream)
unfolding download simple_download
download_unverified sha256 d r expected order h =
    ground (arith, h, stream_loop-concat r.content_length r.stream [] fresh)
