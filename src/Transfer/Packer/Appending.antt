-- ===== src/Transfer/Packer/Appending.antt =====
-- Bytes that are added keep the packer well formed (internal/transfer/pack.go: appendBytes).
use fsend.Base.{
  ℕ, zero, suc, ◌+◌, ◌-◌, ◌^◌, ◌≤◌, ◌<◌, ◌≡◌, min, inl, inr, refl, sym, ap, subst, ◌∙◌, arith,
}
use fsend.Base.{
  Bool, true, false, ◌&&◌, ◌||◌, Bool-cases, List, [], ◌∷◌, ◌++◌, if◌then◌else◌, leb, ◌==◌,
}
use fsend.Base.{length, take, drop, length-take}
use fsend.Wire.{max_chunk_size}
use fsend.Wire.Chunk.{Segment}
use fsend.Transfer.Packer.{Packer, max_segments_per_chunk, need_new_segment}
use fsend.Transfer.Packer.{grow_last, open_segment, add_piece, look, flush, make_room}
use fsend.Transfer.Packer.{flush_if_full, append_loop, append_bytes}
use fsend.Transfer.Packer.Valid.{
  Inv, look-Inv, flush-Inv, flush-IsEmptied, new_piece-Inv, grown-Inv,
}

-- If the newest segment is a skip marker, its file is one of those skipped.
abbrev pub Marks : (ℕ → Bool) → List Segment → Type 0
Marks skipped [] = Unit
Marks skipped (s ∷ ss) = s.skip ≡ true → skipped s.file_index ≡ true

pub unmarked :
    (skipped : ℕ → Bool) (index : ℕ) (s : Segment)
    → (s.skip ≡ true → skipped s.file_index ≡ true)
    → skipped index ≡ false
    → s.file_index ≡ index
    → s.skip ≡ false
unmarked skipped index s m free e = elim (Bool-cases s.skip) [
  | inl h ↦ absurd (true_is_not_false (sym (m h) ∙ ap skipped e ∙ free))
  | inr h ↦ h
]
  where
    true_is_not_false : true ≡ false → ⊥
    true_is_not_false z = cc

-- The invariant, and where the skip markers stand.
pub record Keeps (skipped : ℕ → Bool) (p : Packer) : Type 0 where
  pub inv : Inv p
  pub marks : Marks skipped p.segs

-- What make_room promises: a byte fits, and a segment if one is needed.
pub record IsRoomy (skipped : ℕ → Bool) (index : ℕ) (p : Packer) : Type 0 where
  pub keeps : Keeps skipped p
  pub byte_fits : length p.buf < max_chunk_size
  pub segment_fits : need_new_segment index p.segs ≡ true → length p.segs < max_segments_per_chunk

pub open_of_none : (index : ℕ) → need_new_segment index [] ≡ false → ⊥
unfolding need_new_segment
open_of_none index e = cc

pub open_of :
    (index : ℕ) (s : Segment) (ss : List Segment)
    → need_new_segment index (s ∷ ss) ≡ false
    → (s.file_index ≡ index) × (s.at_eof ≡ false)
unfolding need_new_segment
open_of index s ss e = ground arith

module _ (fails : ℕ → Bool) (skipped : ℕ → Bool) where
  pub Keeps-if :
      (b : Bool) (x y : Packer × Bool)
      → Keeps skipped x.0
      → Keeps skipped y.0
      → Keeps skipped (if b then x else y).0
  Keeps-if true x y h k = h
  Keeps-if false x y h k = k

  pub look-Keeps : (p : Packer) → Keeps skipped p → Keeps skipped (look fails p).0
  unfolding look
  look-Keeps p k = record { inv = look-Inv fails p k.inv; marks = k.marks }

  pub flush-Keeps : (p : Packer) → Inv p → Keeps skipped (flush fails p).0
  flush-Keeps p v = record {
    inv = flush-Inv fails p v;
    marks = subst (Marks skipped) (sym (flush-IsEmptied fails p v).no_segs) tt;
  }

  pub make_room-IsRoomy :
      (index : ℕ) (p : Packer) → Keeps skipped p → IsRoomy skipped index (make_room fails index p).0
  unfolding make_room
  make_room-IsRoomy index p k =
      let v = k.inv in
      elim (Bool-cases (
        (max_chunk_size - length p.buf == 0)
        || (need_new_segment index p.segs && leb max_segments_per_chunk (length p.segs)))) [
          | inl e ↦
              let emptied = flush-IsEmptied fails p v in
              rw e (record {
                keeps = flush-Keeps p v;
                byte_fits = omega (arith, emptied.no_bytes);
                segment_fits = λ z. rw (emptied.no_segs) (omega arith);
              })
          | inr e ↦ rw e (record {
            keeps = k;
            byte_fits = ground (arith, v.buf_fits);
            segment_fits = λ z. ground arith;
          })
        ]

  pub add_piece-Keeps :
      (index : ℕ) (piece : List ℕ) (p : Packer)
      → skipped index ≡ false
      → IsRoomy skipped index p
      → index < 2 ^ 32
      → length p.buf + length piece ≤ max_chunk_size
      → 1 ≤ length piece
      → Keeps skipped (add_piece index piece p)
  unfolding add_piece open_segment grow_last
  add_piece-Keeps index piece p free r i fits one =
      elim (Bool-cases (need_new_segment index p.segs)) [
        | inl e ↦ rw e (record {
          inv =
              new_piece-Inv index piece (p.restart index)
                (λ j. if index == j then false else p.restart j) p r.keeps.inv i (r.segment_fits e)
                fits one;
          marks = λ z. absurd cc;
        })
        | inr e ↦ rw e (by_segs p.segs refl e r.keeps.marks)
      ]
    where
      by_segs :
          (segs : List Segment)
          → p.segs ≡ segs
          → need_new_segment index segs ≡ false
          → Marks skipped segs
          → Keeps skipped (record p { buf = p.buf ++ piece; segs = grow_last (length piece) segs })
      by_segs [] q e m = absurd (open_of_none index e)
      by_segs (s ∷ ss) q e m =
          let (same_file, at_start) = open_of index s ss e in
          record {
            inv =
                grown-Inv s ss piece p r.keeps.inv q (unmarked skipped index s m free same_file)
                  at_start fits one;
            marks = m;
          }

  pub flush_if_full-Keeps : (p : Packer) → Keeps skipped p → Keeps skipped (flush_if_full fails p).0
  unfolding flush_if_full
  flush_if_full-Keeps p k =
      Keeps-if (length p.buf == max_chunk_size) (flush fails p) (p, true) (flush-Keeps p k.inv) k

  append_loop-Keeps :
      (n index : ℕ) (bytes : List ℕ) (p : Packer)
      → skipped index ≡ false
      → index < 2 ^ 32
      → Keeps skipped p
      → Keeps skipped (append_loop fails n index bytes p).0
  unfolding append_loop
  append_loop-Keeps zero index bytes p free i k = k
  append_loop-Keeps (suc n) index [] p free i k = k
  append_loop-Keeps (suc n) index (b ∷ bs) p free i k =
      let roomy = (make_room fails index p).0 in
      let r = make_room-IsRoomy index p k in
      let fits = min (max_chunk_size - length roomy.buf) (length (b ∷ bs)) in
      let piece = take fits (b ∷ bs) in
      let full = flush_if_full fails (add_piece index piece roomy) in
      let next = append_loop fails n index (drop fits (b ∷ bs)) full.0 in
      let flushed = flush_if_full-Keeps (add_piece index piece roomy) (
        add_piece-Keeps index piece roomy free r i
          (omega (arith, length-take fits (b ∷ bs), r.byte_fits))
          (omega (arith, length-take fits (b ∷ bs), r.byte_fits))) in
      let rest = append_loop-Keeps n index (drop fits (b ∷ bs)) full.0 free i flushed in
      Keeps-if (make_room fails index p).1 (if full.1 then next else (full.0, false)) (roomy, false)
        (Keeps-if full.1 next (full.0, false) rest flushed) r.keeps

  pub append_bytes-Keeps :
      (index : ℕ) (bytes : List ℕ) (p : Packer)
      → skipped index ≡ false
      → index < 2 ^ 32
      → Keeps skipped p
      → Keeps skipped (append_bytes fails index bytes p).0
  unfolding append_bytes
  append_bytes-Keeps index bytes p free i k =
      let looked = look-Keeps p k in
      let q = (look fails p).0 in
      Keeps-if (look fails p).1 (append_loop fails (length bytes) index bytes q) (q, false)
        (append_loop-Keeps (length bytes) index bytes q free i looked) looked
