-- ===== src/Wire/Chunk/RoundTrip.antt =====
-- A frame that `WriteChunk` (internal/wire/data.go) wrote is read back by `ReadChunk`.
use fsend.Base.{ℕ, ◌+◌, ◌%◌, ◌^◌, ◌<◌, ◌≡◌, refl, ap, arith}
use fsend.Base.{
  Bool, true, false, List, [], ◌∷◌, ◌++◌, some, none, append_assoc, append-nil, ◌^◌, ◌<◌,
}
use fsend.Base.{length, All, Bool-cases, inl, inr, if◌then◌else◌}
use fsend.Base.Bytes.{put_u16, put_u32, get-put_u32, get-put_u16}
use fsend.Wire.{
  type_chunk, flag_compressed, seg_flag_eof, seg_flag_skip, seg_flag_restart, seg_flag_changed,
}
use fsend.Wire.Reader.{ok, read_full_exact, read_full-append}
use fsend.Wire.Chunk.{Segment, Chunk, zero_hash, flags_of, has_flag, flags, validate}
use fsend.Wire.Chunk.{segment_bytes, segments_bytes, chunk_bytes, write_chunk}
use fsend.Wire.Chunk.{segment_of, read_root, read_segment, read_segments, read_payload}
use fsend.Wire.Chunk.{read_body, read_chunk}
use fsend.Wire.Chunk.Valid.{IsSegment, IsChunk, total_len}

flags_eof : (e s r c : Bool) → has_flag (flags_of e s r c) seg_flag_eof ≡ e
flags_eof e s r c = ground arith

flags_skip : (e s r c : Bool) → has_flag (flags_of e s r c) seg_flag_skip ≡ s
flags_skip e s r c = ground arith

flags_restart : (e s r c : Bool) → has_flag (flags_of e s r c) seg_flag_restart ≡ r
flags_restart e s r c = ground arith

flags_changed : (e s r c : Bool) → has_flag (flags_of e s r c) seg_flag_changed ≡ c
flags_changed e s r c = ground arith

abbrev bare : Segment → Segment
bare s = record s { root_hash = zero_hash }

segment_of-bytes :
    (s : Segment)
    → IsSegment s
    → segment_of (put_u32 s.file_index ++ (put_u32 s.len ++ (flags s ∷ []))) ≡ bare s
unfolding flags segment_of
segment_of-bytes s h = λ i. record {
  file_index = get-put_u32 s.file_index h.index_fits i;
  len = get-put_u32 s.len h.len_fits i;
  at_eof = flags_eof s.at_eof s.skip s.restart s.changed i;
  skip = flags_skip s.at_eof s.skip s.restart s.changed i;
  restart = flags_restart s.at_eof s.skip s.restart s.changed i;
  changed = flags_changed s.at_eof s.skip s.restart s.changed i;
  root_hash = zero_hash;
}

read_root-bytes :
    (s : Segment) (rest : List ℕ)
    → IsSegment s
    → read_root (bare s) ((if s.at_eof then s.root_hash else []) ++ rest) ≡ ok (s, rest)
unfolding read_root
read_root-bytes s rest h = elim (Bool-cases s.at_eof) [
  | inl e ↦ rw e (rw (read_full_exact 32 s.root_hash rest h.hash_size))
  | inr e ↦ rw e (rw (← h.hash_unset e))
]

validate-bare : (s : Segment) → IsSegment s → validate (bare s) ≡ none
unfolding validate
validate-bare s h = h.is_valid

read_segment-bytes :
    (s : Segment) (rest : List ℕ)
    → IsSegment s
    → read_segment (segment_bytes s ++ rest) ≡ ok (s, rest)
unfolding read_segment segment_bytes
read_segment-bytes s rest h =
    rw (segment_of-bytes s h, validate-bare s h) (read_root-bytes s rest h)

read_segments-bytes :
    (ss done : List Segment) (sum : ℕ) (rest : List ℕ)
    → All IsSegment ss
    → sum + total_len ss < 2 ^ 64
    → read_segments (length ss) done sum (segments_bytes ss ++ rest)
      ≡ ok (done ++ ss, sum + total_len ss, rest)
unfolding read_segments segments_bytes
read_segments-bytes [] done sum rest h b =
    rw append-nil (ap (λ (k : ℕ). ok (done, k, rest)) (omega arith))
read_segments-bytes (s ∷ ss) done sum rest h b =
    let next = read_segments-bytes ss (done ++ (s ∷ [])) ((sum + s.len) % 2 ^ 64) rest h.1 in
    rw
      (
        append_assoc (segment_bytes s) (segments_bytes ss) rest,
        read_segment-bytes s (segments_bytes ss ++ rest) h.0,
      )
      (ground (arith, next, append_assoc done (s ∷ []) ss))

flag_compressed-back : (b : Bool) → has_flag (if b then flag_compressed else 0) flag_compressed ≡ b
flag_compressed-back true = refl
flag_compressed-back false = refl

read_payload-bytes :
    (c : Chunk) (rest : List ℕ)
    → IsChunk c
    → read_payload c.compressed
        (length c.payload)
        c.segments
        (total_len c.segments)
        (c.payload ++ rest)
      ≡ ok (c, rest)
unfolding read_payload
read_payload-bytes c rest h = ground (arith, h.plain_total, read_full-append c.payload rest)

-- The fixed header's fields as `read_body` reads them back.
header : Chunk → List ℕ
header c =
    type_chunk
    ∷ ((if c.compressed then flag_compressed else 0)
        ∷ (put_u32 (length c.payload) ++ put_u16 (length c.segments)))

read_body-bytes :
    (c : Chunk) (rest : List ℕ)
    → IsChunk c
    → read_body (header c) (segments_bytes c.segments ++ (c.payload ++ rest)) ≡ ok (c, rest)
unfolding header read_body
read_body-bytes c rest h =
    rw
      (
        get-put_u32 (length c.payload) (omega (arith, h.payload_fits)),
        get-put_u16 (length c.segments) h.few_segments,
        flag_compressed-back c.compressed,
      )
      (ground (
        arith,
        read_segments-bytes c.segments [] 0 (c.payload ++ rest) h.segments_ok
            (omega (arith, h.total_fits)),
        read_payload-bytes c rest h,
        h.some_segment,
        h.payload_fits,
      ))

-- Reading what was written gives the chunk back and leaves what follows it: for every well-formed
-- chunk, `WriteChunk` succeeds with one write, and `ReadChunk` of those bytes, whatever follows
-- them, returns the same chunk and has read exactly those bytes.
pub read_chunk-write_chunk :
    (c : Chunk) (before rest : List ℕ)
    → IsChunk c
    → (frame : List ℕ) × (write_chunk (λ w bs. some (w ++ bs)) before c ≡ ok (before ++ frame))
      × (read_chunk (frame ++ rest) ≡ ok (c, rest))
unfolding write_chunk read_chunk chunk_bytes header
read_chunk-write_chunk c before rest h =
    (chunk_bytes c, ground (arith, h.some_segment, h.few_segments, h.payload_fits), read_back)
  where
    read_back : read_chunk (chunk_bytes c ++ rest) ≡ ok (c, rest)
    read_back =
        rw (append_assoc (segments_bytes c.segments) c.payload rest) (read_body-bytes c rest h)
