-- ===== src/Wire/Chunk.antt =====
-- internal/wire/data.go: the chunk frames of the data stream, as written and as read.
pub mod Valid
pub mod RoundTrip
pub mod Reading
pub mod EndOfInput
use fsend.Base.{ℕ, zero, suc, ◌+◌, ◌%◌, ◌^◌, ◌≤◌, ◌<◌, bit_and, bit_or, arith}
use fsend.Base.{Bool, true, false, not, ◌&&◌, ◌||◌, List, [], ◌∷◌, ◌++◌, Option, none, some}
use fsend.Base.{ltb, ◌==◌, if◌then◌else◌, length, replicate, get_or}
use fsend.Base.Bytes.{put_u16, put_u32, get_u16, get_u32}
use fsend.Wire.{max_chunk_size, type_chunk, flag_compressed}
use fsend.Wire.{seg_flag_eof, seg_flag_skip, seg_flag_restart, seg_flag_changed}
use fsend.Wire.Reader.{Error, Result, ok, err, wrap, unless, or_error, ◌>>=◌, read_full}
use fsend.Wire.Reader.{chunk_too_large, wrong_frame_type, malformed_chunk, write_failed, wrapped}

pub record Segment : Type 0 where
  pub file_index : ℕ  -- uint32
  pub len : ℕ  -- uint32, the field Length
  pub at_eof : Bool  -- the field EOF
  pub skip : Bool
  pub restart : Bool
  pub changed : Bool
  pub root_hash : List ℕ  -- [32]byte

pub record Chunk : Type 0 where
  pub compressed : Bool
  pub segments : List Segment
  pub payload : List ℕ

-- The zero value of `[32]byte`.
abbrev pub zero_hash : List ℕ
zero_hash = replicate 32 0

-- `if on { f |= bit }`
abbrev set_flag : Bool → ℕ → ℕ → ℕ
set_flag on bit f = if on then bit_or f bit else f

abbrev pub flags_of : Bool → Bool → Bool → Bool → ℕ
flags_of e s r c =
    set_flag c seg_flag_changed
      (set_flag r seg_flag_restart (set_flag s seg_flag_skip (set_flag e seg_flag_eof 0)))

unfoldable pub flags : Segment → ℕ
flags s = flags_of s.at_eof s.skip s.restart s.changed

-- `f&bit != 0`
abbrev pub has_flag : ℕ → ℕ → Bool
has_flag f bit = not (bit_and f bit == 0)

-- The bytes that `WriteChunk` appends to the header for one segment.
unfoldable pub segment_bytes : Segment → List ℕ
segment_bytes s =
    put_u32 s.file_index ++ (put_u32 s.len ++ (flags s ∷ (if s.at_eof then s.root_hash else [])))

unfoldable pub segments_bytes : List Segment → List ℕ
segments_bytes [] = []
segments_bytes (s ∷ ss) = segment_bytes s ++ segments_bytes ss

unfoldable pub chunk_bytes : Chunk → List ℕ
chunk_bytes c =
    type_chunk
    ∷ ((if c.compressed then flag_compressed else 0)
        ∷ (put_u32 (length c.payload)
            ++ (put_u16 (length c.segments) ++ (segments_bytes c.segments ++ c.payload))))

-- WriteChunk to a writer whose one `Write` takes the whole frame (`none`: it failed).
unfoldable pub write_chunk : {W : Type 0} → (W → List ℕ → Option W) → W → Chunk → Result W
write_chunk put w c =
    if ltb max_chunk_size (length c.payload)
    then err chunk_too_large
    else if length c.segments == 0 || ltb 0xFFFF (length c.segments)
    then err malformed_chunk
    else or_error (put w (chunk_bytes c)) (wrapped write_failed)

-- (*Segment).validate; `none` is a nil error.
unfoldable pub validate : Segment → Option Error
validate s =
    if s.skip && (s.at_eof || s.restart || s.changed || not (s.len == 0))
    then some malformed_chunk
    else if s.changed && not s.at_eof
    then some malformed_chunk
    else if s.restart && s.len == 0
    then some malformed_chunk
    else if s.len == 0 && not s.at_eof && not s.skip
    then some malformed_chunk
    else none

-- The segment that nine header bytes stand for, its root hash not read yet.
unfoldable pub segment_of : List ℕ → Segment
segment_of seg = record {
  file_index = get_u32 seg 0;
  len = get_u32 seg 4;
  at_eof = has_flag (get_or seg 8 0) seg_flag_eof;
  skip = has_flag (get_or seg 8 0) seg_flag_skip;
  restart = has_flag (get_or seg 8 0) seg_flag_restart;
  changed = has_flag (get_or seg 8 0) seg_flag_changed;
  root_hash = zero_hash;
}

-- The hash that a full read puts into `s.RootHash[:]`.
abbrev pub fill_root : Segment → Result (List ℕ × List ℕ) → Result (Segment × List ℕ)
fill_root s (ok (root, rest)) = ok (record s { root_hash = root }, rest)
fill_root s (err e) = err (wrapped e)

-- `if s.EOF { io.ReadFull(r, s.RootHash[:]) }`
unfoldable pub read_root : Segment → List ℕ → Result (Segment × List ℕ)
read_root s src = if s.at_eof then fill_root s (read_full 32 src) else ok (s, src)

unfoldable pub read_segment : List ℕ → Result (Segment × List ℕ)
read_segment src = do
  (seg, rest) ← wrap (read_full 9 src)
  unless (validate (segment_of seg)) (read_root (segment_of seg) rest)

-- The loop of `ReadChunkBuf` over the segments left: what it has appended, and `sum`, a uint64.
unfoldable pub read_segments : ℕ → List Segment → ℕ → List ℕ → Result (List Segment × ℕ × List ℕ)
read_segments zero done sum src = ok (done, sum, src)
read_segments (suc n) done sum src = do
  (s, rest) ← read_segment src
  read_segments n (done ++ (s ∷ [])) ((sum + s.len) % 2 ^ 64) rest

-- The checks behind the loop, and the payload.
unfoldable pub read_payload : Bool → ℕ → List Segment → ℕ → List ℕ → Result (Chunk × List ℕ)
read_payload compressed payload_len segs sum src =
    if ltb max_chunk_size sum
    then err chunk_too_large
    else if not compressed && not (sum == payload_len)
    then err malformed_chunk
    else (do
      (bytes, rest) ← wrap (read_full payload_len src)
      ok (record { compressed = compressed; segments = segs; payload = bytes }, rest))

-- ReadChunk after the eight bytes of the fixed header.
unfoldable pub read_body : List ℕ → List ℕ → Result (Chunk × List ℕ)
read_body fixed src =
    if not (get_or fixed 0 0 == type_chunk)
    then err wrong_frame_type
    else if ltb max_chunk_size (get_u32 fixed 2)
    then err chunk_too_large
    else if get_u16 fixed 6 == 0
    then err malformed_chunk
    else (do
      (segs, sum, rest) ← read_segments (get_u16 fixed 6) [] 0 src
      read_payload (has_flag (get_or fixed 1 0) flag_compressed) (get_u32 fixed 2) segs sum rest)

-- ReadChunk: the chunk and the bytes that the reader has left. A payload of length 0 reads nothing,
-- as `read_full 0` does; the reuse of the caller's buffer (ReadChunkBuf) is not modelled.
unfoldable pub read_chunk : List ℕ → Result (Chunk × List ℕ)
read_chunk src = do (fixed, rest) ← read_full 8 src; read_body fixed rest

-- (*Chunk).SegmentsSum, from the total so far.
unfoldable pub segments_sum : List Segment → ℕ → ℕ
segments_sum [] sum = sum
segments_sum (s ∷ ss) sum = segments_sum ss ((sum + s.len) % 2 ^ 64)
