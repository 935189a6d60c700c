-- ===== src/Virtualization/Fetcher/Tests.antt =====
-- Runs of virtualization/fetcher.py: a file of five bytes in chunks of two.
use mathlib.Core.List.{Permᴰ}
use cpip.Common.{ℕ, ◌≡◌, refl, String, some, none, List, [], ◌∷◌, arith}
use cpip.Virtualization.Fetcher.{
  ChunkDownloader, Bytes, Remote, Download, Outcome, ranges, range_loop, fetch_chunk, fetch_all,
  write_at, stream_loop, simple_download, verify, chunked_download, download,
}
use cpip.Virtualization.Fetcher.Assembly.{Serves, slice}
use cpip.Virtualization.Fetcher.Downloads.{download_verified, file_of}

program : Unit {0}
unfolding ranges range_loop fetch_chunk fetch_all write_at stream_loop simple_download verify
    chunked_download download
program = tt

abbrev by_two : ChunkDownloader
by_two = record { max_concurrent = 4; chunk_size = 2 }

abbrev five : Bytes
five = 10 ∷ 11 ∷ 12 ∷ 13 ∷ 14 ∷ []

abbrev server : Remote
server = record {
  content_length = 5;
  accept_ranges = some "bytes";
  stream = (10 ∷ 11 ∷ 12 ∷ []) ∷ (13 ∷ 14 ∷ []) ∷ [];
  get_range = λ start end. slice start end five;
}

abbrev small : Remote
small = record server { content_length = 3; stream = (66 ∷ []) ∷ (67 ∷ 68 ∷ []) ∷ [] }

abbrev digest : Bytes → String
digest [] = "e3b0"
digest (b ∷ bs) = "c0de"

abbrev order : List (ℕ × ℕ)
order = (2, 3) ∷ (0, 1) ∷ (4, 4) ∷ []

test_ranges : ranges by_two 5 ≡ (0, 1) ∷ (2, 3) ∷ (4, 4) ∷ []
unfolding program
test_ranges = refl

order-Perm : Permᴰ order (ranges by_two 5)
unfolding program
order-Perm = Permᴰ.swap refl refl

server-Serves : Serves five server
server-Serves start end h k = refl

test_mismatch : file_of (download digest by_two server "abcd" order) ≡ none
unfolding program
test_mismatch = refl

download_verified_example :
    (s : Download) × (s.downloaded ≡ 5)
    × (download digest by_two server "c0de" order
        ≡ Outcome.returned (record s { file = some five }))
download_verified_example =
    download_verified digest by_two five server "c0de" order (omega arith) refl refl (omega arith)
      server-Serves order-Perm
