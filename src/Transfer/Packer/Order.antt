-- ===== src/Transfer/Packer/Order.antt =====
-- No byte is lost, moved or given to another file (internal/transfer/pack.go).
use fsend.Base.{ℕ, zero, suc, ◌+◌, ◌-◌, ◌^◌, ◌≤◌, ◌<◌, ◌≡◌, min, refl, sym, ap, ◌∙◌, arith}
use fsend.Base.{
  Bool, true, false, List, [], ◌∷◌, ◌++◌, append-nil, append_assoc, if◌then◌else◌, leb, ◌==◌,
}
use fsend.Base.{length, take, drop, length-take, length-drop, take-append-drop}
use fsend.Wire.{max_chunk_size}
use fsend.Wire.Chunk.{Segment}
use fsend.Transfer.Packer.{
  Packer, new_packer, new_segment, need_new_segment, add_piece, look, flush, make_room,
  max_segments_per_chunk,
}
use fsend.Transfer.Packer.{
  flush_if_full, append_loop, append_bytes, room_for_marker, add_marker, end_last, end_file,
  skip_file, mark_restart,
}
use fsend.Transfer.Packer.Segments.{skip-IsSegment}
use fsend.Transfer.Packer.Valid.{new_packer-Inv}
use fsend.Transfer.Packer.Appending.{
  Keeps, look-Keeps, flush-Keeps, make_room-IsRoomy, add_piece-Keeps, flush_if_full-Keeps,
  append_bytes-Keeps,
}
use fsend.Transfer.Packer.Runs.{
  Op, restarted, bytes, ended, skipped_file, flushed, step, run, IsTidy, mark, restart-Keeps,
  mark-Keeps, add_marker-Keeps, end_file-Keeps,
}
use fsend.Transfer.Packer.Content.{
  Byte, tagged, tagged-append, of_chunk, of_chunks, content, of_chunk-marker, add_piece-content,
  flush-content,
}

-- If the call succeeds, what was added stands behind what there was.
record Adds (p : Packer) (added : List Byte) (r : Packer × Bool) : Type 0 where
  adds : r.1 ≡ true → content r.0 ≡ content p ++ added

Adds-if :
    (p : Packer) (added : List Byte) (b : Bool) (x : Packer × Bool) (q : Packer)
    → Adds p added x
    → Adds p added (if b then x else (q, false))
Adds-if p added true x q h = h
Adds-if p added false x q h = record { adds = λ e. absurd cc }

-- Two calls after each other, the first of which only moves bytes.
Adds-after :
    (p q : Packer) (added : List Byte) (r : Packer × Bool)
    → content q ≡ content p
    → Adds q added r
    → Adds p added r
Adds-after p q added r e h = record { adds = λ z. h.adds z ∙ ap (λ t. t ++ added) e }

content_if :
    (p : Packer) (b : Bool) (x y : Packer × Bool)
    → content x.0 ≡ content p
    → content y.0 ≡ content p
    → content (if b then x else y).0 ≡ content p
content_if p true x y h k = h
content_if p false x y h k = k

look-content : (fails : ℕ → Bool) (p : Packer) → content (look fails p).0 ≡ content p
unfolding look content
look-content fails p = refl

module _ (fails : ℕ → Bool) (skipped : ℕ → Bool) where
  append_loop-Adds :
      (n index : ℕ) (bs : List ℕ) (p : Packer)
      → skipped index ≡ false
      → index < 2 ^ 32
      → Keeps skipped p
      → length bs ≤ n
      → Adds p (tagged index bs) (append_loop fails n index bs p)
  unfolding append_loop
  append_loop-Adds zero index [] p free i k le = record { adds = λ e. sym (append-nil (content p)) }
  append_loop-Adds zero index (b ∷ bs) p free i k le = absurd (omega arith)
  append_loop-Adds (suc n) index [] p free i k le = record {
    adds = λ e. sym (append-nil (content p));
  }
  append_loop-Adds (suc n) index (b ∷ bs) p free i k le =
      let room = make_room fails index p in
      let r = make_room-IsRoomy fails skipped index p k in
      let fits = min (max_chunk_size - length room.0.buf) (length (b ∷ bs)) in
      let piece = take fits (b ∷ bs) in
      let filled = add_piece index piece room.0 in
      let full = flush_if_full fails filled in
      let short : length room.0.buf + length piece ≤ max_chunk_size =
        omega (arith, length-take fits (b ∷ bs), r.byte_fits) in
      let one : 1 ≤ length piece = omega (arith, length-take fits (b ∷ bs), r.byte_fits) in
      let kept =
        flush_if_full-Keeps fails skipped filled
          (add_piece-Keeps fails skipped index piece room.0 free r i short one) in
      let rest =
        append_loop-Adds n index (drop fits (b ∷ bs)) full.0 free i kept
          (omega (arith, length-drop fits (b ∷ bs), r.byte_fits)) in
      let same_room : content room.0 ≡ content p =
        unfold make_room in content_if p _ (flush fails p) (p, true) (flush-content fails p) refl in
      let same_full : content full.0 ≡ content filled =
        unfold flush_if_full in
        content_if filled _ (flush fails filled) (filled, true) (flush-content fails filled) refl in
      let filled_with = add_piece-content index piece room.0 r.keeps.inv.total short in
      Adds-if p (tagged index (b ∷ bs)) room.1
        (if full.1 then append_loop fails n index (drop fits (b ∷ bs)) full.0 else (full.0, false))
        room.0
        (Adds-if p (tagged index (b ∷ bs)) full.1
          (append_loop fails n index (drop fits (b ∷ bs)) full.0) full.0
          (record {
            adds = λ e.
                rest.adds e
                ∙ ap (λ t. t ++ tagged index (drop fits (b ∷ bs)))
                    (same_full ∙ filled_with ∙ ap (λ t. t ++ tagged index piece) same_room)
                ∙ append_assoc (content p) (tagged index piece) (tagged index (drop fits (b ∷ bs)))
                ∙ ap (λ t. content p ++ t)
                    (sym (tagged-append index piece (drop fits (b ∷ bs)))
                      ∙ ap (tagged index) (take-append-drop fits (b ∷ bs)));
          }))

  append_bytes-Adds :
      (index : ℕ) (bs : List ℕ) (p : Packer)
      → skipped index ≡ false
      → index < 2 ^ 32
      → Keeps skipped p
      → Adds p (tagged index bs) (append_bytes fails index bs p)
  unfolding append_bytes
  append_bytes-Adds index bs p free i k =
      let q = (look fails p).0 in
      Adds-if p (tagged index bs) (look fails p).1 (append_loop fails (length bs) index bs q) q (
        Adds-after p q (tagged index bs) (append_loop fails (length bs) index bs q)
          (look-content fails p)
          (append_loop-Adds (length bs) index bs q free i (look-Keeps fails skipped p k)
            (omega arith)))

add_marker-content :
    (fails : ℕ → Bool) (seg : Segment) (p : Packer)
    → seg.len ≡ 0
    → content (add_marker fails seg p).0 ≡ content p
unfolding add_marker room_for_marker content
add_marker-content fails seg p z =
    let q = (look fails p).0 in
    let looked = look-content fails p in
    let room = room_for_marker fails q in
    let roomy : content room.0 ≡ content p =
      content_if q (leb max_segments_per_chunk (length q.segs)) (flush fails q) (q, true)
        (flush-content fails q) refl
      ∙ looked in
    let added : content (record room.0 { segs = seg ∷ room.0.segs }) ≡ content p =
      ap (λ t. of_chunks room.0.out ++ t) (of_chunk-marker seg room.0.segs room.0.buf z) ∙ roomy in
    content_if p (look fails p).1
      (if room.1 then (record room.0 { segs = seg ∷ room.0.segs }, true) else (room.0, false))
      (q, false)
      (content_if p room.1 (record room.0 { segs = seg ∷ room.0.segs }, true) (room.0, false) added
        roomy)
      looked

end_file-content :
    (fails : ℕ → Bool) (index : ℕ) (root : List ℕ) (changed : Bool) (p : Packer)
    → content (end_file fails index root changed p).0 ≡ content p
unfolding end_file end_last content of_chunk
end_file-content fails index root changed p =
    content_if p (need_new_segment index p.segs)
      (add_marker fails
        (record (new_segment index) { at_eof = true; root_hash = root; changed = changed }) p)
      (record p { segs = end_last root changed p.segs }, true)
      (add_marker-content fails
        (record (new_segment index) { at_eof = true; root_hash = root; changed = changed }) p refl)
      (by_segs p.segs)
  where
    by_segs :
        (segs : List Segment)
        → of_chunks p.out ++ of_chunk (end_last root changed segs) p.buf
          ≡ of_chunks p.out ++ of_chunk segs p.buf
    by_segs [] = refl
    by_segs (s ∷ ss) = refl

-- The bytes of the files that the calls send.
abbrev pub sent : List Op → List Byte
sent [] = []
sent (bytes index bs ∷ ops) = tagged index bs ++ sent ops
sent (_ ∷ ops) = sent ops

same-Adds : (p : Packer) (r : Packer × Bool) → content r.0 ≡ content p → Adds p [] r
same-Adds p r e = record { adds = λ z. e ∙ sym (append-nil (content p)) }

-- One call and then the others.
Adds-then :
    (fails : ℕ → Bool) (p : Packer) (added : List Byte) (q : Packer × Bool) (ops : List Op)
    → Adds p added q
    → Adds q.0 (sent ops) (run fails ops q.0)
    → Adds p (added ++ sent ops) (if q.1 then run fails ops q.0 else (q.0, false))
Adds-then fails p added q ops h k = record { adds = by_result q.1 refl }
  where
    by_result :
        (b : Bool)
        → q.1 ≡ b
        → (if b then run fails ops q.0 else (q.0, false)).1 ≡ true
        → content (if b then run fails ops q.0 else (q.0, false)).0
          ≡ content p ++ (added ++ sent ops)
    by_result true e z =
        k.adds z ∙ ap (λ t. t ++ sent ops) (h.adds e) ∙ append_assoc (content p) added (sent ops)
    by_result false e z = absurd cc

run-Adds :
    (fails : ℕ → Bool) (skipped : ℕ → Bool) (ops : List Op) (p : Packer)
    → IsTidy skipped ops
    → Keeps skipped p
    → Adds p (sent ops) (run fails ops p)
unfolding run step mark_restart skip_file content
run-Adds fails skipped [] p t k = same-Adds p (p, true) refl
run-Adds fails skipped (restarted index ∷ ops) p t k =
    let m = λ (i : ℕ). if index == i then true else p.restart i in
    let q : Packer = record p { restart = m } in
    Adds-then fails p [] (q, true) ops (same-Adds p (q, true) refl)
      (run-Adds fails skipped ops q t (restart-Keeps skipped m p k))
run-Adds fails skipped (bytes index bs ∷ ops) p t k =
    let (free, i, rest) = t in
    let q = append_bytes fails index bs p in
    Adds-then fails p (tagged index bs) q ops (append_bytes-Adds fails skipped index bs p free i k)
      (run-Adds fails skipped ops q.0 rest (append_bytes-Keeps fails skipped index bs p free i k))
run-Adds fails skipped (ended index root changed ∷ ops) p t k =
    let (free, i, l, rest) = t in
    let q = end_file fails index root changed p in
    Adds-then fails p [] q ops (same-Adds p q (end_file-content fails index root changed p)) (
      run-Adds fails skipped ops q.0 rest
        (end_file-Keeps fails skipped index root changed p free i l k))
run-Adds fails skipped (skipped_file index ∷ ops) p t k =
    let m = λ (i : ℕ). if index == i then false else p.restart i in
    let cleared : Packer = record p { restart = m } in
    let seg : Segment = record (new_segment index) { skip = true } in
    let q = add_marker fails seg cleared in
    Adds-then fails p [] q ops (same-Adds p q (add_marker-content fails seg cleared refl)) (
      run-Adds fails (mark index skipped) ops q.0 t.1 (
        add_marker-Keeps fails (mark index skipped) seg cleared (mark-Keeps skipped index m p k)
          (skip-IsSegment index t.0) refl (λ z. ground arith)))
run-Adds fails skipped (flushed ∷ ops) p t k =
    let q = flush fails p in
    Adds-then fails p [] q ops (same-Adds p q (flush-content fails p))
      (run-Adds fails skipped ops q.0 t (flush-Keeps fails skipped p k.inv))

-- After calls that all succeed, the chunks handed over and the buffer together hold exactly the
-- bytes that were sent, in the order in which they were sent, each in a segment of its own file, if
-- nothing is sent of a file that was skipped, file indices have 32 bits and roots have 32 bytes.
pub run-content :
    (fails : ℕ → Bool) (ops : List Op)
    → IsTidy (λ i. false) ops
    → (run fails ops new_packer).1 ≡ true
    → content (run fails ops new_packer).0 ≡ sent ops
unfolding content of_chunks of_chunk
run-content fails ops t e =
    (run-Adds fails (λ i. false) ops new_packer t
        (record { inv = new_packer-Inv; marks = tt })).adds
      e
