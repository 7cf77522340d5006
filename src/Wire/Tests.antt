-- ===== src/Wire/Tests.antt =====
-- Runs of the functions of internal/wire, and the theorems at concrete inputs.
use fsend.Base.{ℕ, ◌≤◌, ◌≡◌, ◌≢◌, refl, arith, true, false, List, [], ◌∷◌, ◌++◌, some, none}
use fsend.Base.{replicate}
use fsend.Wire.{negotiate, max_control_frame_size}
use fsend.Wire.Negotiation.{IsShared, negotiate_iff}
use fsend.Base.{◌↔◌}
use fsend.Wire.Reader.{ok, err, eof, unexpected_eof}
use fsend.Wire.Chunk.{Segment, Chunk, zero_hash, flags, validate, segment_bytes, segments_bytes}
use fsend.Wire.Chunk.{chunk_bytes, write_chunk, segment_of, read_root, read_segment, read_segments}
use fsend.Wire.Chunk.{read_payload, read_body, read_chunk}
use fsend.Wire.Chunk.Valid.{IsChunk, IsHonest, validate_iff}
use fsend.Wire.Chunk.RoundTrip.{read_chunk-write_chunk}
use fsend.Wire.Chunk.Reading.{read_chunk-IsChunk}
use fsend.Wire.Chunk.EndOfInput.{read_chunk-eof_iff}
use fsend.Wire.Control.{header_of, write_control, read_control, read_control_raw, read_raw_body}
use fsend.Wire.Control.RoundTrip.{append_to, read_control-write_control}
use fsend.Wire.Control.Reading.{read_control_raw-form}
use mathlib.Core.Logic.{◌↔◌}
use fsend.Base.{Option}

abbrev root : List ℕ
root = replicate 32 7

-- The end of file 5, two bytes long, and file 6, skipped.
abbrev two_segments : List Segment
two_segments =
    record {
      file_index = 5;
      len = 2;
      at_eof = true;
      skip = false;
      restart = false;
      changed = true;
      root_hash = root;
    }
    ∷ record {
      file_index = 6;
      len = 0;
      at_eof = false;
      skip = true;
      restart = false;
      changed = false;
      root_hash = zero_hash;
    }
    ∷ []

abbrev small_chunk : Chunk
small_chunk = record { compressed = false; segments = two_segments; payload = 10 ∷ 20 ∷ [] }

abbrev small_frame : List ℕ
small_frame =
    0x10
    ∷ 0
    ∷ 0
    ∷ 0
    ∷ 0
    ∷ 2
    ∷ 0
    ∷ 2
    ∷ 0
    ∷ 0
    ∷ 0
    ∷ 5
    ∷ 0
    ∷ 0
    ∷ 0
    ∷ 2
    ∷ 9
    ∷ (root ++ (0 ∷ 0 ∷ 0 ∷ 6 ∷ 0 ∷ 0 ∷ 0 ∷ 0 ∷ 2 ∷ 10 ∷ 20 ∷ []))

small_chunk_bytes : chunk_bytes small_chunk ≡ small_frame
unfolding chunk_bytes segments_bytes segment_bytes flags
small_chunk_bytes = refl

small_read : read_chunk (small_frame ++ (99 ∷ [])) ≡ ok (small_chunk, 99 ∷ [])
unfolding read_chunk read_body read_segments read_segment segment_of validate read_root read_payload
small_read = refl

cut_read : read_chunk (0x10 ∷ 0 ∷ []) ≡ err unexpected_eof
unfolding read_chunk
cut_read = refl

two_segments-IsChunk : IsChunk small_chunk
unfolding validate
two_segments-IsChunk = record {
  segments_ok = (
    record {
      index_fits = omega arith;
      len_fits = omega arith;
      hash_size = refl;
      hash_unset = λ e. cc;
      is_valid = refl;
    },
    (
      record {
        index_fits = omega arith;
        len_fits = omega arith;
        hash_size = refl;
        hash_unset = λ e. refl;
        is_valid = refl;
      },
      tt,
    ),
  );
  some_segment = omega arith;
  few_segments = omega arith;
  payload_fits = omega arith;
  total_fits = omega arith;
  plain_total = λ e. refl;
}

read_chunk-write_chunk_example :
    (frame : List ℕ) × (write_chunk (λ w bs. some (w ++ bs)) (1 ∷ []) small_chunk ≡ ok (1 ∷ frame))
    × (read_chunk (frame ++ (99 ∷ [])) ≡ ok (small_chunk, 99 ∷ []))
read_chunk-write_chunk_example =
    read_chunk-write_chunk small_chunk (1 ∷ []) (99 ∷ []) two_segments-IsChunk

read_chunk-IsChunk_example : IsChunk small_chunk
read_chunk-IsChunk_example =
    read_chunk-IsChunk (small_frame ++ (99 ∷ [])) (99 ∷ []) small_chunk (omega arith) small_read

read_chunk-eof_iff_example : (read_chunk (0x10 ∷ []) ≡ err eof) ↔ (◌≡◌ {A = List ℕ} (0x10 ∷ []) [])
read_chunk-eof_iff_example = read_chunk-eof_iff (0x10 ∷ [])

abbrev skip_segment : Segment
skip_segment = record {
  file_index = 6;
  len = 3;
  at_eof = false;
  skip = true;
  restart = false;
  changed = false;
  root_hash = zero_hash;
}

validate_iff_example :
    (validate skip_segment ≡ none → IsHonest skip_segment)
    × (IsHonest skip_segment → validate skip_segment ≡ none)
validate_iff_example = validate_iff skip_segment

negotiate_iff_example :
    (negotiate 1 7 ≡ some 3)
    ↔ ((◌≢◌ {A = ℕ} 1 0) × IsShared 1 7 3 × ((u : ℕ) → IsShared 1 7 u → u ≤ 3))
negotiate_iff_example = negotiate_iff 1 7 3

-- A codec that adds a marker byte in front.
abbrev mark : ℕ → Option (List ℕ)
mark p = some (0xA0 ∷ p ∷ [])

abbrev unmark : List ℕ → Option ℕ
unmark (m ∷ p ∷ []) = some p
unmark _ = none

read_control-write_control_example :
    (write_control mark append_to (1 ∷ []) 0x05 (some 42)
      ≡ ok (1 ∷ (header_of 0x05 (0xA0 ∷ 42 ∷ []) ++ (0xA0 ∷ 42 ∷ []))))
    × (read_control unmark 0 ((header_of 0x05 (0xA0 ∷ 42 ∷ []) ++ (0xA0 ∷ 42 ∷ [])) ++ (7 ∷ []))
        ≡ (0x05, ok (42, 7 ∷ [])))
read_control-write_control_example =
    read_control-write_control mark unmark 0 42 (1 ∷ []) (0xA0 ∷ 42 ∷ []) (7 ∷ []) 0x05 refl refl
      (omega arith) (omega arith)

raw_read : (read_control_raw (3 ∷ 5 ∷ 0 ∷ 0 ∷ 0 ∷ 1 ∷ 42 ∷ 7 ∷ [])).body ≡ ok (42 ∷ [], 7 ∷ [])
unfolding read_control_raw read_raw_body
raw_read = refl

read_control_raw-form_example :
    (◌≡◌ {A = List ℕ}
      (3 ∷ 5 ∷ 0 ∷ 0 ∷ 0 ∷ 1 ∷ 42 ∷ 7 ∷ [])
      (header_of 5 (42 ∷ []) ++ (42 ∷ 7 ∷ [])))
    × (1 ≤ max_control_frame_size)
unfolding read_control_raw
read_control_raw-form_example =
    read_control_raw-form (3 ∷ 5 ∷ 0 ∷ 0 ∷ 0 ∷ 1 ∷ 42 ∷ 7 ∷ []) (42 ∷ []) (7 ∷ []) (omega arith)
      raw_read
