-- ===== src/Virtualization/Fetcher/Assembly.antt =====
-- virtualization/fetcher.py: ranges that are written in any order make up the file.
use mathlib.Core.Path.{subst}
use cpip.Common.{
  ℕ, zero, suc, ◌+◌, ◌-◌, ◌≤◌, ◌<◌, ◌≡◌, refl, ◌∙◌, sym, ap, true, List, [], ◌∷◌, ◌++◌, arith, leb,
  ltb, ◌&&◌, All, if◌then◌else◌, take, drop, length, get_elem?, ◌⊎◌, inl, inr,
}
use cpip.Virtualization.Fetcher.{Bytes, Remote, Download, write_at, fetch_chunk, fetch_all}
use cpip.Virtualization.Fetcher.Ranges.{Bounded, covers, bytes_of}

abbrev pub slice : ℕ → ℕ → Bytes → Bytes
slice start end content = take (end + 1 - start) (drop start content)

-- HTTP range requests (RFC 9110): the server sends exactly the bytes that are asked for.
abbrev pub Serves : Bytes → Remote → Type 0
Serves content r =
    (start end : ℕ)
    → start ≤ end
    → end < length content
    → r.get_range start end ≡ slice start end content

-- The file with `n` bytes from `start` on taken from the other list.
splice : ℕ → ℕ → Bytes → Bytes → Bytes
splice start n [] file = file
splice start n (c ∷ content) [] = []
splice zero zero (c ∷ content) (x ∷ file) = x ∷ file
splice zero (suc n) (c ∷ content) (x ∷ file) = c ∷ splice zero n content file
splice (suc start) n (c ∷ content) (x ∷ file) = x ∷ splice start n content file

add_suc : (a b : ℕ) → a + suc b ≡ suc (a + b)
add_suc a b = omega arith

suc_add : (a b : ℕ) → suc a + b ≡ suc (a + b)
suc_add a b = omega arith

write_at-eq-splice :
    (start n : ℕ) (content file : Bytes)
    → length file ≡ length content
    → start + n ≤ length content
    → write_at start (take n (drop start content)) file ≡ splice start n content file
unfolding write_at splice
write_at-eq-splice zero zero [] [] l h = refl
write_at-eq-splice zero (suc n) [] [] l h = absurd (omega arith)
write_at-eq-splice (suc start) n [] [] l h = absurd (omega arith)
write_at-eq-splice start n [] (x ∷ file) l h = absurd (omega arith)
write_at-eq-splice start n (c ∷ content) [] l h = absurd (omega arith)
write_at-eq-splice zero zero (c ∷ content) (x ∷ file) l h = refl
write_at-eq-splice zero (suc n) (c ∷ content) (x ∷ file) l h =
    ap (λ (k : ℕ). c ∷ (take n content ++ drop k (x ∷ file)))
      (add_suc zero (length (take n content)))
    ∙ ap (◌∷◌ c) (write_at-eq-splice zero n content file (omega arith) (omega arith))
write_at-eq-splice (suc start) n (c ∷ content) (x ∷ file) l h =
    ap (λ (k : ℕ). x ∷ (take start file ++ take n (drop start content) ++ drop k (x ∷ file)))
      (suc_add start (length (take n (drop start content))))
    ∙ ap (◌∷◌ x) (write_at-eq-splice start n content file (omega arith) (omega arith))

get_elem?-splice :
    (start n : ℕ) (content file : Bytes) (j : ℕ)
    → length file ≡ length content
    → get_elem? (splice start n content file) j
      ≡ (if leb start j && ltb j (start + n) then get_elem? content j else get_elem? file j)
unfolding splice
get_elem?-splice start n [] [] j l = ground arith
get_elem?-splice start n [] (x ∷ file) j l = absurd (omega arith)
get_elem?-splice start n (c ∷ content) [] j l = absurd (omega arith)
get_elem?-splice zero zero (c ∷ content) (x ∷ file) j l = ground arith
get_elem?-splice zero (suc n) (c ∷ content) (x ∷ file) zero l = ground arith
get_elem?-splice zero (suc n) (c ∷ content) (x ∷ file) (suc j) l =
    ground (arith, get_elem?-splice zero n content file j)
get_elem?-splice (suc start) n (c ∷ content) (x ∷ file) zero l = ground arith
get_elem?-splice (suc start) n (c ∷ content) (x ∷ file) (suc j) l =
    ground (arith, get_elem?-splice start n content file j)

length-splice :
    (start n : ℕ) (content file : Bytes)
    → length file ≡ length content
    → length (splice start n content file) ≡ length content
unfolding splice
length-splice start n [] file l = l
length-splice start n (c ∷ content) [] l = l
length-splice zero zero (c ∷ content) (x ∷ file) l = l
length-splice zero (suc n) (c ∷ content) (x ∷ file) l =
    omega (arith, length-splice zero n content file (omega arith))
length-splice (suc start) n (c ∷ content) (x ∷ file) l =
    omega (arith, length-splice start n content file (omega arith))

length-slice :
    (start n : ℕ) (content : Bytes)
    → start + n ≤ length content
    → length (take n (drop start content)) ≡ n
length-slice zero zero content h = refl
length-slice zero (suc n) [] h = absurd (omega arith)
length-slice zero (suc n) (c ∷ content) h = omega (arith, length-slice zero n content (omega arith))
length-slice (suc start) n [] h = absurd (omega arith)
length-slice (suc start) n (c ∷ content) h = length-slice start n content (omega arith)

-- The effect of a range on the file and on the count of bytes.
fetch_chunk_file :
    (content : Bytes) (r : Remote) (total chunk_size : ℕ) (range : ℕ × ℕ) (file : Bytes)
    (d : Download)
    → Serves content r
    → Bounded (length content) chunk_size range
    → length file ≡ length content
    → (fetch_chunk r total range (file, d)).0 ≡ splice range.0 (range.1 + 1 - range.0) content file
unfolding fetch_chunk
fetch_chunk_file content r total chunk_size (start, end) file d serves (a, b, c) l =
    ap (λ (bytes : Bytes). write_at start bytes file) (serves start end a b)
    ∙ write_at-eq-splice start (end + 1 - start) content file l (omega arith)

fetch_chunk_count :
    (content : Bytes) (r : Remote) (total chunk_size : ℕ) (range : ℕ × ℕ) (file : Bytes)
    (d : Download)
    → Serves content r
    → Bounded (length content) chunk_size range
    → (fetch_chunk r total range (file, d)).1.downloaded ≡ d.downloaded + (range.1 + 1 - range.0)
unfolding fetch_chunk
fetch_chunk_count content r total chunk_size (start, end) file d serves (a, b, c) =
    ap (λ (bytes : Bytes). d.downloaded + length bytes) (serves start end a b)
    ∙ ap (λ (n : ℕ). d.downloaded + n) (length-slice start (end + 1 - start) content (omega arith))

splice_progress :
    (content file : Bytes) (j : ℕ) (range : ℕ × ℕ) (order : List (ℕ × ℕ))
    → range.0 ≤ range.1
    → length file ≡ length content
    → (covers j (range ∷ order) ≡ true) ⊎ (get_elem? file j ≡ get_elem? content j)
    → (covers j order ≡ true)
      ⊎ (get_elem? (splice range.0 (range.1 + 1 - range.0) content file) j ≡ get_elem? content j)
splice_progress content file j (start, end) order b l h =
    ground (arith, h, get_elem?-splice start (end + 1 - start) content file j l)

-- Each byte is there already or comes with a range that is still to come.
pub fetch_all-byte :
    (content : Bytes) (r : Remote) (total chunk_size : ℕ) (order : List (ℕ × ℕ)) (file : Bytes)
    (d : Download) (j : ℕ)
    → Serves content r
    → All (Bounded (length content) chunk_size) order
    → length file ≡ length content
    → (covers j order ≡ true) ⊎ (get_elem? file j ≡ get_elem? content j)
    → get_elem? (fetch_all r total order (file, d)).0 j ≡ get_elem? content j
unfolding fetch_all
fetch_all-byte content r total chunk_size [] file d j serves b l (inl e) = absurd (cc e)
fetch_all-byte content r total chunk_size [] file d j serves b l (inr e) = e
fetch_all-byte content r total chunk_size (range ∷ order) file d j serves (b, bs) l h =
    fetch_all-byte content r total chunk_size order (fetch_chunk r total range (file, d)).0
      (fetch_chunk r total range (file, d)).1 j serves bs
      (ap length (fetch_chunk_file content r total chunk_size range file d serves b l)
        ∙ length-splice range.0 (range.1 + 1 - range.0) content file l)
      (subst (λ (f : Bytes). (covers j order ≡ true) ⊎ (get_elem? f j ≡ get_elem? content j))
        (sym (fetch_chunk_file content r total chunk_size range file d serves b l))
        (splice_progress content file j range order (b.0) l h))

pub fetch_all-length :
    (content : Bytes) (r : Remote) (total chunk_size : ℕ) (order : List (ℕ × ℕ)) (file : Bytes)
    (d : Download)
    → Serves content r
    → All (Bounded (length content) chunk_size) order
    → length file ≡ length content
    → length (fetch_all r total order (file, d)).0 ≡ length content
unfolding fetch_all
fetch_all-length content r total chunk_size [] file d serves b l = l
fetch_all-length content r total chunk_size (range ∷ order) file d serves (b, bs) l =
    fetch_all-length content r total chunk_size order (fetch_chunk r total range (file, d)).0
      (fetch_chunk r total range (file, d)).1 serves bs
      (ap length (fetch_chunk_file content r total chunk_size range file d serves b l)
        ∙ length-splice range.0 (range.1 + 1 - range.0) content file l)

pub fetch_all-count :
    (content : Bytes) (r : Remote) (total chunk_size : ℕ) (order : List (ℕ × ℕ)) (file : Bytes)
    (d : Download)
    → Serves content r
    → All (Bounded (length content) chunk_size) order
    → (fetch_all r total order (file, d)).1.downloaded ≡ d.downloaded + bytes_of order
unfolding fetch_all
fetch_all-count content r total chunk_size [] file d serves b = omega arith
fetch_all-count content r total chunk_size (range ∷ order) file d serves (b, bs) = omega (
  arith,
  fetch_all-count content r total chunk_size order (fetch_chunk r total range (file, d)).0
      (fetch_chunk r total range (file, d)).1 serves bs,
  fetch_chunk_count content r total chunk_size range file d serves b,
)
