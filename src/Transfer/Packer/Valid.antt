-- ===== src/Transfer/Packer/Valid.antt =====
-- Every chunk that the packer hands over is well formed (internal/transfer/pack.go).
use fsend.Base.{ℕ, ◌+◌, ◌%◌, ◌^◌, ◌≤◌, ◌<◌, ◌≡◌, inl, inr, refl, ap, subst, arith}
use fsend.Base.{Bool, true, false, Bool-cases, List, [], ◌∷◌, ◌++◌, if◌then◌else◌, leb, ◌==◌}
use fsend.Base.{length, length-append, All, All-append}
use fsend.Wire.{max_chunk_size}
use fsend.Wire.Chunk.{Segment}
use fsend.Wire.Chunk.Valid.{IsSegment, total_len}
use fsend.Transfer.Packer.{Packed, Packer, new_packer, new_segment, max_segments_per_chunk}
use fsend.Transfer.Packer.{look, hand_over, flush}
use fsend.Transfer.Packer.{room_for_marker}
use fsend.Transfer.Packer.Segments.{grown-IsSegment, started-IsSegment, ended-IsSegment}

-- A chunk on its way that WriteChunk takes, with its segments in either order.
pub record IsPacked (c : Packed) : Type 0 where
  pub segments_ok : All IsSegment c.segs
  pub some_segment : 1 ≤ length c.segs
  pub few_segments : length c.segs ≤ max_segments_per_chunk
  pub buf_fits : length c.buf ≤ max_chunk_size
  pub total : total_len c.segs ≡ length c.buf

pub record Inv (p : Packer) : Type 0 where
  pub segments_ok : All IsSegment p.segs
  pub few_segments : length p.segs ≤ max_segments_per_chunk
  pub buf_fits : length p.buf ≤ max_chunk_size
  pub total : total_len p.segs ≡ length p.buf
  pub out_ok : All IsPacked p.out

pub new_packer-Inv : Inv new_packer
new_packer-Inv = record {
  segments_ok = tt;
  few_segments = omega arith;
  buf_fits = omega arith;
  total = refl;
  out_ok = tt;
}

pub Inv-if : (b : Bool) (x y : Packer × Bool) → Inv x.0 → Inv y.0 → Inv (if b then x else y).0
Inv-if true x y h k = h
Inv-if false x y h k = k

pub look-Inv : (fails : ℕ → Bool) (p : Packer) → Inv p → Inv (look fails p).0
unfolding look
look-Inv fails p v = record {
  segments_ok = v.segments_ok;
  few_segments = v.few_segments;
  buf_fits = v.buf_fits;
  total = v.total;
  out_ok = v.out_ok;
}

pub hand_over-Inv :
    (fails : ℕ → Bool) (p : Packer) → Inv p → 1 ≤ length p.segs → Inv (hand_over fails p)
unfolding hand_over
hand_over-Inv fails p v some = record {
  segments_ok = tt;
  few_segments = omega arith;
  buf_fits = omega arith;
  total = refl;
  out_ok = All-append IsPacked p.out _ v.out_ok (
    record {
      segments_ok = v.segments_ok;
      some_segment = some;
      few_segments = v.few_segments;
      buf_fits = v.buf_fits;
      total = v.total;
    },
    tt,
  );
}

pub flush-Inv : (fails : ℕ → Bool) (p : Packer) → Inv p → Inv (flush fails p).0
unfolding flush
flush-Inv fails p v = elim (Bool-cases (length p.segs == 0)) [
  | inl e ↦ rw e (look-Inv fails p v)
  | inr e ↦ rw e (look-Inv fails (hand_over fails p) (hand_over-Inv fails p v (ground arith)))
]

-- A flush leaves both buffers empty.
pub record IsEmptied (p : Packer) : Type 0 where
  pub no_bytes : length p.buf ≡ 0
  pub no_segs : p.segs ≡ []

pub no_segments : (segs : List Segment) → length segs ≡ 0 → segs ≡ []
no_segments [] e = refl
no_segments (s ∷ ss) e = absurd (omega arith)

pub flush-IsEmptied : (fails : ℕ → Bool) (p : Packer) → Inv p → IsEmptied (flush fails p).0
unfolding flush look hand_over
flush-IsEmptied fails p v = elim (Bool-cases (length p.segs == 0)) [
  | inl e ↦
      let none_there = no_segments p.segs (ground arith) in
      rw e (record {
        no_bytes = omega (arith, v.total, ap total_len none_there);
        no_segs = none_there;
      })
  | inr e ↦ rw e (record { no_bytes = refl; no_segs = refl })
]

-- A piece in a new segment, and in the file's open one.
pub new_piece-Inv :
    (index : ℕ) (piece : List ℕ) (r : Bool) (m : ℕ → Bool) (p : Packer)
    → Inv p
    → index < 2 ^ 32
    → length p.segs < max_segments_per_chunk
    → length p.buf + length piece ≤ max_chunk_size
    → 1 ≤ length piece
    → Inv (record p {
      buf = p.buf ++ piece;
      segs = record (new_segment index) { restart = r; len = (0 + length piece) % 2 ^ 32 } ∷ p.segs;
      restart = m;
    })
new_piece-Inv index piece r m p v i few fits one = record {
  segments_ok = (started-IsSegment index (length piece) r i (omega arith) one, v.segments_ok);
  few_segments = omega arith;
  buf_fits = omega (arith, length-append p.buf piece);
  total = omega (arith, length-append p.buf piece, v.total);
  out_ok = v.out_ok;
}

pub grown-Inv :
    (s : Segment) (ss : List Segment) (piece : List ℕ) (p : Packer)
    → Inv p
    → p.segs ≡ s ∷ ss
    → s.skip ≡ false
    → s.at_eof ≡ false
    → length p.buf + length piece ≤ max_chunk_size
    → 1 ≤ length piece
    → Inv (record p {
      buf = p.buf ++ piece;
      segs = record s { len = (s.len + length piece) % 2 ^ 32 } ∷ ss;
    })
grown-Inv s ss piece p v e k n fits one =
    let ok = subst (All IsSegment) e v.segments_ok in
    let few : length (s ∷ ss) ≤ max_segments_per_chunk =
      omega (arith, v.few_segments, ap length e) in
    let sum : s.len + total_len ss ≡ length p.buf = omega (arith, v.total, ap total_len e) in
    record {
      segments_ok = (grown-IsSegment s (length piece) ok.0 k n (omega arith) one, ok.1);
      few_segments = few;
      buf_fits = omega (arith, length-append p.buf piece);
      total = omega (arith, length-append p.buf piece);
      out_ok = v.out_ok;
    }

pub room_for_marker-Inv :
    (fails : ℕ → Bool) (p : Packer)
    → Inv p
    → Inv (room_for_marker fails p).0
      × (length (room_for_marker fails p).0.segs < max_segments_per_chunk)
unfolding room_for_marker
room_for_marker-Inv fails p v = elim (Bool-cases (leb max_segments_per_chunk (length p.segs))) [
  | inl e ↦ rw e (flush-Inv fails p v, omega (arith, ap length (flush-IsEmptied fails p v).no_segs))
  | inr e ↦ rw e (v, ground arith)
]

pub marked-Inv :
    (seg : Segment) (p : Packer)
    → Inv p
    → length p.segs < max_segments_per_chunk
    → IsSegment seg
    → seg.len ≡ 0
    → Inv (record p { segs = seg ∷ p.segs })
marked-Inv seg p v few h z = record {
  segments_ok = (h, v.segments_ok);
  few_segments = omega arith;
  buf_fits = v.buf_fits;
  total = omega (arith, v.total);
  out_ok = v.out_ok;
}

-- The end of a file in its open segment.
pub ended-Inv :
    (s : Segment) (ss : List Segment) (root : List ℕ) (changed : Bool) (p : Packer)
    → Inv p
    → p.segs ≡ s ∷ ss
    → s.skip ≡ false
    → length root ≡ 32
    → Inv (record p { segs = record s { at_eof = true; root_hash = root; changed = changed } ∷ ss })
ended-Inv s ss root changed p v e k l =
    let ok = subst (All IsSegment) e v.segments_ok in
    record {
      segments_ok = (ended-IsSegment s root changed ok.0 k l, ok.1);
      few_segments = omega (arith, v.few_segments, ap length e);
      buf_fits = v.buf_fits;
      total = omega (arith, v.total, ap total_len e);
      out_ok = v.out_ok;
    }

-- The table of files that start over is no part of the invariant.
pub restart-Inv : (m : ℕ → Bool) (p : Packer) → Inv p → Inv (record p { restart = m })
restart-Inv m p v = record {
  segments_ok = v.segments_ok;
  few_segments = v.few_segments;
  buf_fits = v.buf_fits;
  total = v.total;
  out_ok = v.out_ok;
}
