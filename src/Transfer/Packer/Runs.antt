-- ===== src/Transfer/Packer/Runs.antt =====
-- The calls that send files, one after another (internal/transfer/pack.go: appendBytes, endFile,
-- skipFile, markRestart, flush).
use fsend.Base.{inl, inr, ℕ, ◌^◌, ◌<◌, ◌≡◌, refl, arith, Bool, true, false, ◌==◌, Bool-cases}
use fsend.Base.{List, [], ◌∷◌, if◌then◌else◌, leb, length, All}
use fsend.Wire.Chunk.{Segment}
use fsend.Wire.Chunk.Valid.{IsSegment}
use fsend.Transfer.Packer.{
  Packer, new_packer, new_segment, max_segments_per_chunk, need_new_segment,
}
use fsend.Transfer.Packer.{
  mark_restart, end_last, look, flush, append_bytes, room_for_marker, add_marker, end_file,
  skip_file,
}
use fsend.Transfer.Packer.Segments.{marker-IsSegment, skip-IsSegment}
use fsend.Transfer.Packer.Valid.{
  IsPacked, Inv, new_packer-Inv, Inv-if, room_for_marker-Inv, marked-Inv, ended-Inv, restart-Inv,
}
use fsend.Transfer.Packer.Appending.{
  Marks, Keeps, unmarked, open_of, open_of_none, Keeps-if, look-Keeps, flush-Keeps,
  append_bytes-Keeps,
}

pub data Op : Type 0 where
  restarted : (index : ℕ) → Op
  bytes : (index : ℕ) (data_bytes : List ℕ) → Op
  ended : (index : ℕ) (root : List ℕ) (changed : Bool) → Op
  skipped_file : (index : ℕ) → Op
  flushed : Op

unfoldable pub step : (ℕ → Bool) → Op → Packer → Packer × Bool
step fails (restarted index) p = (mark_restart index p, true)
step fails (bytes index bs) p = append_bytes fails index bs p
step fails (ended index root changed) p = end_file fails index root changed p
step fails (skipped_file index) p = skip_file fails index p
step fails flushed p = flush fails p

-- The sender's calls: the first error ends them.
unfoldable pub run : (ℕ → Bool) → List Op → Packer → Packer × Bool
run fails [] p = (p, true)
run fails (op ∷ ops) p =
    let (q, ok) = step fails op p in let rest = run fails ops q in if ok then rest else (q, false)

abbrev pub mark : ℕ → (ℕ → Bool) → ℕ → Bool
mark index skipped i = if index == i then true else skipped i

-- File indices are uint32 and roots have 32 bytes; nothing of a file is sent after it was skipped.
abbrev pub IsTidy : (ℕ → Bool) → List Op → Type 0
IsTidy skipped [] = Unit
IsTidy skipped (restarted index ∷ ops) = IsTidy skipped ops
IsTidy skipped (bytes index bs ∷ ops) =
    (skipped index ≡ false) × (index < 2 ^ 32) × IsTidy skipped ops
IsTidy skipped (ended index root changed ∷ ops) =
    (skipped index ≡ false) × (index < 2 ^ 32) × (length root ≡ 32) × IsTidy skipped ops
IsTidy skipped (skipped_file index ∷ ops) = (index < 2 ^ 32) × IsTidy (mark index skipped) ops
IsTidy skipped (flushed ∷ ops) = IsTidy skipped ops

module _ (fails : ℕ → Bool) (skipped : ℕ → Bool) where
  pub room_for_marker-Keeps :
      (p : Packer) → Keeps skipped p → Keeps skipped (room_for_marker fails p).0
  unfolding room_for_marker
  room_for_marker-Keeps p k =
      Keeps-if fails skipped (leb max_segments_per_chunk (length p.segs)) (flush fails p) (p, true)
        (flush-Keeps fails skipped p k.inv) k

  pub add_marker-Keeps :
      (seg : Segment) (p : Packer)
      → Keeps skipped p
      → IsSegment seg
      → seg.len ≡ 0
      → (seg.skip ≡ true → skipped seg.file_index ≡ true)
      → Keeps skipped (add_marker fails seg p).0
  unfolding add_marker
  add_marker-Keeps seg p k h z m =
      let q = (look fails p).0 in
      let looked = look-Keeps fails skipped p k in
      let room = room_for_marker fails q in
      let roomy = room_for_marker-Keeps q looked in
      let few = (room_for_marker-Inv fails q looked.inv).1 in
      let added : Keeps skipped (record room.0 { segs = seg ∷ room.0.segs }) = record {
        inv = marked-Inv seg room.0 roomy.inv few h z;
        marks = m;
      } in
      Keeps-if fails skipped (look fails p).1
        (if room.1 then (record room.0 { segs = seg ∷ room.0.segs }, true) else (room.0, false))
        (q, false)
        (Keeps-if fails skipped room.1 (record room.0 { segs = seg ∷ room.0.segs }, true)
          (room.0, false) added roomy)
        looked

  pub end_file-Keeps :
      (index : ℕ) (root : List ℕ) (changed : Bool) (p : Packer)
      → skipped index ≡ false
      → index < 2 ^ 32
      → length root ≡ 32
      → Keeps skipped p
      → Keeps skipped (end_file fails index root changed p).0
  unfolding end_file end_last
  end_file-Keeps index root changed p free i l k =
      elim (Bool-cases (need_new_segment index p.segs)) [
        | inl e ↦ rw e (
            add_marker-Keeps
              (record (new_segment index) { at_eof = true; root_hash = root; changed = changed }) p
              k (marker-IsSegment index root changed i l) refl (λ z. absurd cc))
        | inr e ↦ rw e (by_segs p.segs refl e k.marks)
      ]
    where
      by_segs :
          (segs : List Segment)
          → p.segs ≡ segs
          → need_new_segment index segs ≡ false
          → Marks skipped segs
          → Keeps skipped (record p { segs = end_last root changed segs })
      by_segs [] q e m = absurd (open_of_none index e)
      by_segs (s ∷ ss) q e m =
          let (same_file, at_start) = open_of index s ss e in
          record {
            inv =
                ended-Inv s ss root changed p k.inv q (unmarked skipped index s m free same_file) l;
            marks = m;
          }

-- A longer list of skipped files.
pub mark-Keeps :
    (skipped : ℕ → Bool) (index : ℕ) (m : ℕ → Bool) (p : Packer)
    → Keeps skipped p
    → Keeps (mark index skipped) (record p { restart = m })
mark-Keeps skipped index m p k = record {
  inv = restart-Inv m p k.inv;
  marks = by_segs p.segs k.marks;
}
  where
    by_segs : (segs : List Segment) → Marks skipped segs → Marks (mark index skipped) segs
    by_segs [] h = tt
    by_segs (s ∷ ss) h = λ z. ground (arith, h z)

pub restart-Keeps :
    (skipped : ℕ → Bool) (m : ℕ → Bool) (p : Packer)
    → Keeps skipped p
    → Keeps skipped (record p { restart = m })
restart-Keeps skipped m p k = record { inv = restart-Inv m p k.inv; marks = k.marks }

-- The calls from a packer as it should be on.
run-Inv :
    (fails : ℕ → Bool) (skipped : ℕ → Bool) (ops : List Op) (p : Packer)
    → IsTidy skipped ops
    → Keeps skipped p
    → Inv (run fails ops p).0
unfolding run step mark_restart skip_file
run-Inv fails skipped [] p t k = k.inv
run-Inv fails skipped (restarted index ∷ ops) p t k =
    run-Inv fails skipped ops _ t
      (restart-Keeps skipped (λ i. if index == i then true else p.restart i) p k)
run-Inv fails skipped (bytes index bs ∷ ops) p t k =
    let (free, i, rest) = t in
    let q = append_bytes fails index bs p in
    let kept = append_bytes-Keeps fails skipped index bs p free i k in
    Inv-if q.1 (run fails ops q.0) (q.0, false) (run-Inv fails skipped ops q.0 rest kept) kept.inv
run-Inv fails skipped (ended index root changed ∷ ops) p t k =
    let (free, i, l, rest) = t in
    let q = end_file fails index root changed p in
    let kept = end_file-Keeps fails skipped index root changed p free i l k in
    Inv-if q.1 (run fails ops q.0) (q.0, false) (run-Inv fails skipped ops q.0 rest kept) kept.inv
run-Inv fails skipped (skipped_file index ∷ ops) p t k =
    let cleared : Packer = record p { restart = λ i. if index == i then false else p.restart i } in
    let seg : Segment = record (new_segment index) { skip = true } in
    let q = add_marker fails seg cleared in
    let kept =
      add_marker-Keeps fails (mark index skipped) seg cleared
        (mark-Keeps skipped index (λ i. if index == i then false else p.restart i) p k)
        (skip-IsSegment index t.0) refl (λ z. ground arith) in
    Inv-if q.1 (run fails ops q.0) (q.0, false)
      (run-Inv fails (mark index skipped) ops q.0 t.1 kept) kept.inv
run-Inv fails skipped (flushed ∷ ops) p t k =
    let q = flush fails p in
    let kept = flush-Keeps fails skipped p k.inv in
    Inv-if q.1 (run fails ops q.0) (q.0, false) (run-Inv fails skipped ops q.0 t kept) kept.inv

-- What the calls hand over, from the new packer on.
pub run-IsPacked :
    (fails : ℕ → Bool) (ops : List Op)
    → IsTidy (λ i. false) ops
    → All IsPacked (run fails ops new_packer).0.out
run-IsPacked fails ops t =
    (run-Inv fails (λ i. false) ops new_packer t
      (record { inv = new_packer-Inv; marks = tt })).out_ok
