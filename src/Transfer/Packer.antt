-- ===== src/Transfer/Packer.antt =====
-- chunkPacker (internal/transfer/pack.go). Chunks are handed to the writer's goroutine, whose first
-- error the packer looks up now and then: what its looks find is a stream of Booleans.
pub mod Segments
pub mod Valid
pub mod Appending
pub mod Runs
pub mod Content
pub mod Order
use fsend.Base.{ℕ, zero, suc, ◌+◌, ◌-◌, ◌%◌, ◌^◌, min, Bool, true, false, ◌&&◌, ◌||◌, not}
use fsend.Base.{List, [], ◌∷◌, ◌++◌, if◌then◌else◌, leb, ◌==◌, length, take, drop}
use fsend.Wire.{max_chunk_size}
use fsend.Wire.Chunk.{Segment, zero_hash}

-- packed: a chunk on its way to the writer.
pub record Packed : Type 0 where
  pub segs : List Segment  -- the newest first
  pub buf : List ℕ

pub record Packer : Type 0 where
  pub buf : List ℕ
  pub segs : List Segment  -- the newest first, so that the last one is the head
  pub restart : ℕ → Bool
  pub out : List Packed  -- what the channel was given, in order
  pub looks : ℕ  -- how often `failed` was called

-- newChunkPacker
abbrev pub new_packer : Packer
new_packer = record { buf = []; segs = []; restart = λ i. false; out = []; looks = 0 }

abbrev pub max_segments_per_chunk : ℕ
max_segments_per_chunk = 4096

-- needNewSegment, of the segments.
unfoldable pub need_new_segment : ℕ → List Segment → Bool
need_new_segment index [] = true
need_new_segment index (s ∷ ss) = not (s.file_index == index) || s.at_eof

unfoldable pub mark_restart : ℕ → Packer → Packer
mark_restart index p = record p { restart = λ i. if index == i then true else p.restart i }

abbrev pub new_segment : ℕ → Segment
new_segment index = record {
  file_index = index;
  len = 0;
  at_eof = false;
  skip = false;
  restart = false;
  changed = false;
  root_hash = zero_hash;
}

-- `p.segs[len(p.segs)-1].Length += uint32(take)`
unfoldable pub grow_last : ℕ → List Segment → List Segment
grow_last n [] = []
grow_last n (s ∷ ss) = record s { len = (s.len + n) % 2 ^ 32 } ∷ ss

-- Opening a segment for the file, if one is needed.
unfoldable pub open_segment : ℕ → Packer → Packer
open_segment index p =
    if need_new_segment index p.segs
    then (record p {
      segs = record (new_segment index) { restart = p.restart index } ∷ p.segs;
      restart = λ i. if index == i then false else p.restart i;
    })
    else p

-- The middle of appendBytes's loop: a piece that fits goes into the buffer.
unfoldable pub add_piece : ℕ → List ℕ → Packer → Packer
add_piece index piece p =
    let q = open_segment index p in
    record q { buf = q.buf ++ piece; segs = grow_last (length piece) q.segs }

-- `p.segs[n-1]` of the file, if it is open, ends the file.
unfoldable pub end_last : List ℕ → Bool → List Segment → List Segment
end_last root changed [] = []
end_last root changed (s ∷ ss) =
    record s { at_eof = true; root_hash = root; changed = changed } ∷ ss

module _ (fails : ℕ → Bool) where
  -- A look for the writer's error; `true` stands for a nil error.
  unfoldable pub look : Packer → Packer × Bool
  look p = (record p { looks = p.looks + 1 }, not (fails p.looks))

  unfoldable pub hand_over : Packer → Packer
  hand_over p = record p {
    out = p.out ++ (record { segs = p.segs; buf = p.buf } ∷ []);
    buf = [];
    segs = [];
  }

  unfoldable pub flush : Packer → Packer × Bool
  flush p = if length p.segs == 0 then look p else look (hand_over p)

  -- The flush at the start of the loop.
  unfoldable pub make_room : ℕ → Packer → Packer × Bool
  make_room index p =
      if (max_chunk_size - length p.buf == 0)
        || (need_new_segment index p.segs && leb max_segments_per_chunk (length p.segs))
      then flush p
      else (p, true)

  unfoldable pub flush_if_full : Packer → Packer × Bool
  flush_if_full p = if length p.buf == max_chunk_size then flush p else (p, true)

  -- The loop of appendBytes. Each round takes a byte or more, so the length of the data is fuel
  -- enough.
  unfoldable pub append_loop : ℕ → ℕ → List ℕ → Packer → Packer × Bool
  append_loop zero index bytes p = (p, true)
  append_loop (suc n) index [] p = (p, true)
  append_loop (suc n) index (b ∷ bs) p =
      let (roomy, ok1) = make_room index p in
      let fits = min (max_chunk_size - length roomy.buf) (length (b ∷ bs)) in
      let filled = add_piece index (take fits (b ∷ bs)) roomy in
      let (flushed, ok2) = flush_if_full filled in
      let rest = append_loop n index (drop fits (b ∷ bs)) flushed in
      if ok1 then if ok2 then rest else (flushed, false) else (roomy, false)

  unfoldable pub append_bytes : ℕ → List ℕ → Packer → Packer × Bool
  append_bytes index bytes p =
      let (q, ok) = look p in if ok then append_loop (length bytes) index bytes q else (q, false)

  -- The flush in addMarker.
  unfoldable pub room_for_marker : Packer → Packer × Bool
  room_for_marker p = if leb max_segments_per_chunk (length p.segs) then flush p else (p, true)

  unfoldable pub add_marker : Segment → Packer → Packer × Bool
  add_marker seg p =
      let (q, ok1) = look p in
      let (r, ok2) = room_for_marker q in
      if ok1
      then if ok2 then (record r { segs = seg ∷ r.segs }, true) else (r, false)
      else (q, false)

  unfoldable pub end_file : ℕ → List ℕ → Bool → Packer → Packer × Bool
  end_file index root changed p =
      if need_new_segment index p.segs
      then add_marker
          (record (new_segment index) { at_eof = true; root_hash = root; changed = changed }) p
      else (record p { segs = end_last root changed p.segs }, true)

  unfoldable pub skip_file : ℕ → Packer → Packer × Bool
  skip_file index p =
      add_marker (record (new_segment index) { skip = true })
        (record p { restart = λ i. if index == i then false else p.restart i })
