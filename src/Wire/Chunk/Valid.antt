-- ===== src/Wire/Chunk/Valid.antt =====
-- The chunks that internal/wire/data.go lets through: what a reader may rely on, and the writer's
-- side of the same conditions.
use fsend.Base.{ℕ, ◌+◌, ◌^◌, ◌≤◌, ◌<◌, ◌≡◌, true, false, List, [], ◌∷◌, none, length, All}
use fsend.Base.{arith, ◌⊎◌, ◌%◌, ◌*◌, ◌∙◌}
use fsend.Base.Bytes.{IsU32}
use fsend.Wire.{max_chunk_size}
use fsend.Wire.Chunk.{Segment, Chunk, zero_hash, validate, segments_sum}

-- A segment as it can stand in a frame: machine-width fields, a 32-byte hash that is the zero value
-- but at the end of a file, and flags that `validate` accepts.
pub record IsSegment (s : Segment) : Type 0 where
  pub index_fits : IsU32 s.file_index
  pub len_fits : IsU32 s.len
  pub hash_size : length s.root_hash ≡ 32
  pub hash_unset : s.at_eof ≡ false → s.root_hash ≡ zero_hash
  pub is_valid : validate s ≡ none

-- The bytes that the segments describe, as a plain sum.
abbrev pub total_len : List Segment → ℕ
total_len [] = 0
total_len (s ∷ ss) = s.len + total_len ss

pub record IsChunk (c : Chunk) : Type 0 where
  pub segments_ok : All IsSegment c.segments
  pub some_segment : 1 ≤ length c.segments
  pub few_segments : length c.segments < 2 ^ 16
  pub payload_fits : length c.payload ≤ max_chunk_size
  pub total_fits : total_len c.segments ≤ max_chunk_size
  pub plain_total : c.compressed ≡ false → total_len c.segments ≡ length c.payload

-- What `validate` accepts, in words: a skip segment is bare, a changed segment ends its file, a
-- restart has bytes, and a segment without bytes ends or skips its file.
pub record IsHonest (s : Segment) : Type 0 where
  pub skip_bare :
      s.skip ≡ true → (s.at_eof ≡ false) × (s.restart ≡ false) × (s.changed ≡ false) × (s.len ≡ 0)
  pub changed_ends : s.changed ≡ true → s.at_eof ≡ true
  pub restart_full : s.restart ≡ true → 1 ≤ s.len
  pub empty_marks : s.len ≡ 0 → (s.at_eof ≡ true) ⊎ (s.skip ≡ true)

validate-IsHonest : (s : Segment) → validate s ≡ none → IsHonest s
unfolding validate
validate-IsHonest s h = record {
  skip_bare = λ e. ground arith;
  changed_ends = λ e. ground arith;
  restart_full = λ e. ground arith;
  empty_marks = λ e. ground arith;
}

validate_of_IsHonest : (s : Segment) → IsHonest s → validate s ≡ none
unfolding validate
validate_of_IsHonest s h = ground arith

-- `validate` accepts a segment exactly when it is honest.
pub validate_iff :
    (s : Segment) → (validate s ≡ none → IsHonest s) × (IsHonest s → validate s ≡ none)
validate_iff s = (validate-IsHonest s, validate_of_IsHonest s)

-- The 64-bit running sum does not wrap as long as the plain sum fits.
pub segments_sum-total :
    (ss : List Segment) (sum : ℕ)
    → sum + total_len ss < 2 ^ 64
    → segments_sum ss sum ≡ sum + total_len ss
unfolding segments_sum
segments_sum-total [] sum b = omega arith
segments_sum-total (s ∷ ss) sum b =
    segments_sum-total ss ((sum + s.len) % 2 ^ 64) (omega arith) ∙ omega arith

-- At most 2 ^ 16 segments of 32-bit lengths: the plain sum fits 64 bits.
pub total_len_lt : (ss : List Segment) → All IsSegment ss → total_len ss ≤ length ss * 2 ^ 32
total_len_lt [] h = omega arith
total_len_lt (s ∷ ss) h = omega (arith, total_len_lt ss h.1, h.0.len_fits)
