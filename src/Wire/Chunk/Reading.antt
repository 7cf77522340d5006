-- ===== src/Wire/Chunk/Reading.antt =====
-- What `ReadChunk` (internal/wire/data.go) guarantees of any input, well formed or hostile.
use fsend.Base.{ℕ, zero, suc, ◌+◌, ◌*◌, ◌%◌, ◌^◌, ◌≤◌, ◌<◌, ◌≡◌, refl, sym, ap, subst, ◌∙◌, arith}
use fsend.Base.{Bool, true, false, List, [], ◌∷◌, ◌++◌, none, ◌⊎◌, inl, inr, if◌then◌else◌}
use fsend.Base.{length, length-append, get_or, All, All-append, All-split}
use fsend.Base.Bytes.{IsByte, get_u32, get_u16, get_u32-IsU32, get_u16-lt}
use fsend.Wire.{max_chunk_size, flag_compressed}
use fsend.Wire.Reader.{Result, ok, err, wrap, unless, ◌>>=◌, read_full}
use fsend.Wire.Reader.{read_full-ok, >>=-eq-ok, wrap-eq-ok, unless-eq-ok}
use fsend.Wire.Chunk.{Segment, Chunk, validate, has_flag, segment_of, fill_root}
use fsend.Wire.Chunk.{read_root, read_segment, read_segments, read_payload, read_body, read_chunk}
use fsend.Wire.Chunk.Valid.{IsSegment, IsChunk, total_len}

-- A read from bytes yields bytes, and leaves bytes.
read_full-IsByte :
    (n : ℕ) (src bs rest : List ℕ)
    → All IsByte src
    → read_full n src ≡ ok (bs, rest)
    → All IsByte bs × All IsByte rest
read_full-IsByte n src bs rest h e = All-split IsByte bs rest (rw (read_full-ok n src e).0 at h)

-- A segment as parsed from nine bytes is well formed but for its hash, which is still zero.
segment_of-fits :
    (seg : List ℕ) → All IsByte seg → validate (segment_of seg) ≡ none → IsSegment (segment_of seg)
unfolding segment_of
segment_of-fits seg h v = record {
  index_fits = get_u32-IsU32 seg 0 h;
  len_fits = get_u32-IsU32 seg 4 h;
  hash_size = refl;
  hash_unset = λ e. refl;
  is_valid = v;
}

with_root :
    (s : Segment) (root : List ℕ)
    → IsSegment s
    → s.at_eof ≡ true
    → length root ≡ 32
    → IsSegment (record s { root_hash = root })
unfolding validate
with_root s root h e l = record {
  index_fits = h.index_fits;
  len_fits = h.len_fits;
  hash_size = l;
  hash_unset = λ n. cc;
  is_valid = h.is_valid;
}

fill_root-ok :
    (s t : Segment) (r : Result (List ℕ × List ℕ)) (rest : List ℕ)
    → fill_root s r ≡ ok (t, rest)
    → (root : List ℕ) × (r ≡ ok (root, rest)) × (t ≡ record s { root_hash = root })
fill_root-ok s t (ok (root, r)) rest e = (root, cc, cc)
fill_root-ok s t (err x) rest e = cc

-- The two ways in which `read_root` can succeed.
root_cases :
    (b : Bool) (s t : Segment) (src rest : List ℕ)
    → (if b then fill_root s (read_full 32 src) else ok (s, src)) ≡ ok (t, rest)
    → ((root : List ℕ) × (b ≡ true)
        × (read_full 32 src ≡ ok (root, rest))
        × (t ≡ record s { root_hash = root }))
      ⊎ ((t ≡ s) × (src ≡ rest))
root_cases true s t src rest e =
    let (root, got, same) = fill_root-ok s t (read_full 32 src) rest e in
    inl (root, refl, got, same)
root_cases false s t src rest e = inr (cc, cc)

read_root-ok :
    (s t : Segment) (src rest : List ℕ)
    → IsSegment s
    → All IsByte src
    → read_root s src ≡ ok (t, rest)
    → IsSegment t × All IsByte rest × (t.len ≡ s.len)
unfolding read_root
read_root-ok s t src rest h b e = elim (root_cases s.at_eof s t src rest e) [
  | inl (root, p, got, same) ↦ (
    subst IsSegment (sym same) (with_root s root h p (read_full-ok 32 src got).1),
    (read_full-IsByte 32 src root rest b got).1,
    ap (λ (u : Segment). u.len) same,
  )
  | inr (same, left) ↦
      (subst IsSegment (sym same) h, subst (All IsByte) left b, ap (λ (u : Segment). u.len) same)
]

read_segment-ok :
    (src rest : List ℕ) (s : Segment)
    → All IsByte src
    → read_segment src ≡ ok (s, rest)
    → IsSegment s × All IsByte rest
unfolding read_segment
read_segment-ok src rest s b e =
    let ((seg, r), got, e') =
      >>=-eq-ok (wrap (read_full 9 src))
        (λ p. unless (validate (segment_of p.0)) (read_root (segment_of p.0) p.1)) e in
    let (bs, br) = read_full-IsByte 9 src seg r b (wrap-eq-ok (read_full 9 src) got) in
    let (v, e'') = unless-eq-ok (validate (segment_of seg)) (read_root (segment_of seg) r) e' in
    let (h, k, _) = read_root-ok (segment_of seg) s r rest (segment_of-fits seg bs v) br e'' in
    (h, k)

total_len-append : (ss ts : List Segment) → total_len (ss ++ ts) ≡ total_len ss + total_len ts
total_len-append [] ts = omega arith
total_len-append (s ∷ ss) ts = omega (arith, total_len-append ss ts)

read_segments-ok :
    (n : ℕ) (done ss : List Segment) (sum sum' : ℕ) (src rest : List ℕ)
    → All IsSegment done
    → All IsByte src
    → sum ≡ total_len done
    → sum + n * 2 ^ 32 ≤ 2 ^ 48
    → read_segments n done sum src ≡ ok (ss, sum', rest)
    → All IsSegment ss × All IsByte rest × (length ss ≡ length done + n) × (sum' ≡ total_len ss)
unfolding read_segments
read_segments-ok zero done ss sum sum' src rest hd b t le e =
    let same : ss ≡ done = cc in
    (
      subst (All IsSegment) (cc) hd,
      subst (All IsByte) (cc) b,
      omega (arith, ap length same),
      ground arith,
    )
read_segments-ok (suc n) done ss sum sum' src rest hd b t le e =
    let ((s, r), got, e') =
      >>=-eq-ok (read_segment src)
        (λ p. read_segments n (done ++ (p.0 ∷ [])) ((sum + p.0.len) % 2 ^ 64) p.1) e in
    let (h, br) = read_segment-ok src r s b got in
    let (a, c, l, u) =
      read_segments-ok n (done ++ (s ∷ [])) ss ((sum + s.len) % 2 ^ 64) sum' r rest
        (All-append IsSegment done (s ∷ []) hd (h, tt)) br
        (omega (arith, h.len_fits, total_len-append done (s ∷ []))) (omega (arith, h.len_fits))
        e' in
    (a, c, omega (arith, length-append done (s ∷ [])), u)

payload_cases :
    (z : Bool) (pl : ℕ) (segs : List Segment) (sum : ℕ) (src rest : List ℕ) (c : Chunk)
    → read_payload z pl segs sum src ≡ ok (c, rest)
    → (sum ≤ max_chunk_size)
      × (z ≡ false → sum ≡ pl)
      × (◌>>=◌ {B = Chunk × List ℕ}
            (wrap (read_full pl src))
            (λ p. ok (record { compressed = z; segments = segs; payload = p.0 }, p.1))
          ≡ ok (c, rest))
unfolding read_payload
payload_cases z pl segs sum src rest c e = (ground arith, λ f. ground arith, ground arith)

read_payload-ok :
    (z : Bool) (pl : ℕ) (segs : List Segment) (src rest : List ℕ) (c : Chunk)
    → All IsSegment segs
    → 1 ≤ length segs
    → length segs < 2 ^ 16
    → pl ≤ max_chunk_size
    → read_payload z pl segs (total_len segs) src ≡ ok (c, rest)
    → IsChunk c
read_payload-ok z pl segs src rest c hs some few fits e =
    let (le, eq, e') = payload_cases z pl segs (total_len segs) src rest c e in
    let ((bytes, r), got, e'') =
      >>=-eq-ok (wrap (read_full pl src))
        (λ p. ok (record { compressed = z; segments = segs; payload = p.0 }, p.1)) e' in
    let len = (read_full-ok pl src (wrap-eq-ok (read_full pl src) got)).1 in
    let chunk : Chunk = record { compressed = z; segments = segs; payload = bytes } in
    subst IsChunk {x = chunk} (cc) (record {
      segments_ok = hs;
      some_segment = some;
      few_segments = few;
      payload_fits = omega arith;
      total_fits = le;
      plain_total = λ n. eq n ∙ sym len;
    })

body_cases :
    (fixed src rest : List ℕ) (c : Chunk)
    → read_body fixed src ≡ ok (c, rest)
    → (get_u32 fixed 2 ≤ max_chunk_size)
      × (1 ≤ get_u16 fixed 6)
      × (◌>>=◌ {B = Chunk × List ℕ} (read_segments (get_u16 fixed 6) [] 0 src) (λ p.
            read_payload
              (has_flag (get_or fixed 1 0) flag_compressed)
              (get_u32 fixed 2)
              p.0
              p.1
              p.2)
          ≡ ok (c, rest))
unfolding read_body
body_cases fixed src rest c e = (ground arith, ground arith, ground arith)

read_body-ok :
    (fixed src rest : List ℕ) (c : Chunk)
    → All IsByte fixed
    → All IsByte src
    → read_body fixed src ≡ ok (c, rest)
    → IsChunk c
read_body-ok fixed src rest c bf bs e =
    let (fits, some, e') = body_cases fixed src rest c e in
    let few = get_u16-lt fixed 6 bf in
    let ((segs, sum, r), got, e'') =
      >>=-eq-ok (read_segments (get_u16 fixed 6) [] 0 src)
        (λ p.
          read_payload (has_flag (get_or fixed 1 0) flag_compressed) (get_u32 fixed 2) p.0 p.1 p.2)
        e' in
    let (hs, _, l, t) =
      read_segments-ok (get_u16 fixed 6) [] segs 0 sum src r tt bs refl (omega arith) got in
    read_payload-ok (has_flag (get_or fixed 1 0) flag_compressed) (get_u32 fixed 2) segs r rest c hs
      (omega arith) (omega arith) fits (rw (← t) e'')

-- Whatever bytes a peer sends, a chunk that `ReadChunk` returns is well formed: its segment flags
-- are honest, it has 1 to 65535 segments, its payload and the sum of its segment lengths are at
-- most 1 MiB each, and the two agree where the payload is not compressed.
pub read_chunk-IsChunk :
    (src rest : List ℕ) (c : Chunk) → All IsByte src → read_chunk src ≡ ok (c, rest) → IsChunk c
unfolding read_chunk
read_chunk-IsChunk src rest c b e =
    let ((fixed, r), got, e') = >>=-eq-ok (read_full 8 src) (λ p. read_body p.0 p.1) e in
    let (bf, br) = read_full-IsByte 8 src fixed r b got in read_body-ok fixed r rest c bf br e'
