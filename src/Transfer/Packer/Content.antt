-- ===== src/Transfer/Packer/Content.antt =====
-- The bytes of the files and where they go (internal/transfer/pack.go: appendBytes, flush).
use fsend.Base.{ℕ, ◌+◌, ◌-◌, ◌%◌, ◌^◌, ◌≤◌, ◌≡◌, inl, inr, refl, sym, ap, ◌∙◌, arith}
use fsend.Base.{Bool, false, Bool-cases, List, [], ◌∷◌, ◌++◌, append-nil, append_assoc, ◌==◌}
use fsend.Base.{
  length, take, drop, length-append, take_all, drop_all, take_exact, drop_exact, take_within,
  drop_within,
}
use fsend.Wire.{max_chunk_size}
use fsend.Wire.Chunk.{Segment}
use fsend.Wire.Chunk.Valid.{total_len}
use fsend.Transfer.Packer.{
  Packed, Packer, new_segment, need_new_segment, grow_last, open_segment, add_piece, hand_over,
  flush, look,
}
use fsend.Transfer.Packer.Appending.{open_of, open_of_none}

-- A byte of a file.
abbrev pub Byte : Type 0
Byte = ℕ × ℕ

abbrev pub tagged : ℕ → List ℕ → List Byte
tagged index [] = []
tagged index (b ∷ bs) = (index, b) ∷ tagged index bs

-- The bytes of a chunk, each with the file that its segment names; the newest segment is the first.
unfoldable pub of_chunk : List Segment → List ℕ → List Byte
of_chunk [] buf = []
of_chunk (s ∷ ss) buf =
    let before = length buf - s.len in
    of_chunk ss (take before buf) ++ tagged s.file_index (drop before buf)

unfoldable pub of_chunks : List Packed → List Byte
of_chunks [] = []
of_chunks (c ∷ cs) = of_chunk c.segs c.buf ++ of_chunks cs

-- All that a packer was given: what it has handed over, and what it holds.
unfoldable pub content : Packer → List Byte
content p = of_chunks p.out ++ of_chunk p.segs p.buf

pub tagged-append :
    (index : ℕ) (xs ys : List ℕ) → tagged index (xs ++ ys) ≡ tagged index xs ++ tagged index ys
tagged-append index [] ys = refl
tagged-append index (x ∷ xs) ys = ap (λ t. (index, x) ∷ t) (tagged-append index xs ys)

of_chunks-append : (cs ds : List Packed) → of_chunks (cs ++ ds) ≡ of_chunks cs ++ of_chunks ds
unfolding of_chunks
of_chunks-append [] ds = refl
of_chunks-append (c ∷ cs) ds =
    ap (λ t. of_chunk c.segs c.buf ++ t) (of_chunks-append cs ds)
    ∙ sym (append_assoc (of_chunk c.segs c.buf) (of_chunks cs) (of_chunks ds))

-- A new segment, a grown segment and a marker.
of_chunk-new :
    (s : Segment) (ss : List Segment) (buf piece : List ℕ)
    → s.len ≡ length piece
    → of_chunk (s ∷ ss) (buf ++ piece) ≡ of_chunk ss buf ++ tagged s.file_index piece
unfolding of_chunk
of_chunk-new s ss buf piece h =
    let before : length (buf ++ piece) - s.len ≡ length buf =
      omega (arith, length-append buf piece) in
    rw (before, take_exact (length buf) buf piece refl, drop_exact (length buf) buf piece refl) refl

of_chunk-grown :
    (s : Segment) (ss : List Segment) (n : ℕ) (buf piece : List ℕ)
    → n ≡ s.len + length piece
    → s.len ≤ length buf
    → of_chunk (record s { len = n } ∷ ss) (buf ++ piece)
      ≡ of_chunk (s ∷ ss) buf ++ tagged s.file_index piece
unfolding of_chunk
of_chunk-grown s ss n buf piece h le =
    let k = length buf - s.len in
    let before : length (buf ++ piece) - n ≡ k = omega (arith, length-append buf piece) in
    rw
      (
        before,
        take_within k buf piece (omega arith),
        drop_within k buf piece (omega arith),
        tagged-append s.file_index (drop k buf) piece,
      )
      (sym (
        append_assoc (of_chunk ss (take k buf)) (tagged s.file_index (drop k buf))
          (tagged s.file_index piece)))

pub of_chunk-marker :
    (s : Segment) (ss : List Segment) (buf : List ℕ)
    → s.len ≡ 0
    → of_chunk (s ∷ ss) buf ≡ of_chunk ss buf
unfolding of_chunk
of_chunk-marker s ss buf h =
    let before : length buf - s.len ≡ length buf = omega arith in
    rw (before, take_all (length buf) buf (omega arith), drop_all (length buf) buf (omega arith))
      (append-nil (of_chunk ss buf))

behind :
    (cs : List Packed) (ys zs : List Byte) {xs : List Byte}
    → xs ≡ ys ++ zs
    → of_chunks cs ++ xs ≡ (of_chunks cs ++ ys) ++ zs
behind cs ys zs e = ap (λ t. of_chunks cs ++ t) e ∙ sym (append_assoc (of_chunks cs) ys zs)

pub add_piece-content :
    (index : ℕ) (piece : List ℕ) (p : Packer)
    → total_len p.segs ≡ length p.buf
    → length p.buf + length piece ≤ max_chunk_size
    → content (add_piece index piece p) ≡ content p ++ tagged index piece
unfolding add_piece open_segment grow_last content
add_piece-content index piece p t fits = elim (Bool-cases (need_new_segment index p.segs)) [
  | inl e ↦ rw e (
      behind p.out (of_chunk p.segs p.buf) (tagged index piece) (
        of_chunk-new
          (record (new_segment index) {
            restart = p.restart index;
            len = (0 + length piece) % 2 ^ 32;
          })
          p.segs p.buf piece (omega arith)))
  | inr e ↦ rw e (by_segs p.segs e t)
]
  where
    by_segs :
        (segs : List Segment)
        → need_new_segment index segs ≡ false
        → total_len segs ≡ length p.buf
        → of_chunks p.out ++ of_chunk (grow_last (length piece) segs) (p.buf ++ piece)
          ≡ (of_chunks p.out ++ of_chunk segs p.buf) ++ tagged index piece
    by_segs [] e h = absurd (open_of_none index e)
    by_segs (s ∷ ss) e h =
        let (same_file, _) = open_of index s ss e in
        behind p.out (of_chunk (s ∷ ss) p.buf) (tagged index piece) (
          of_chunk-grown s ss ((s.len + length piece) % 2 ^ 32) p.buf piece (omega arith)
            (omega arith)
          ∙ ap (λ i. of_chunk (s ∷ ss) p.buf ++ tagged i piece) same_file)

-- Handing over moves the bytes from one place to the other.
pub hand_over-content : (fails : ℕ → Bool) (p : Packer) → content (hand_over fails p) ≡ content p
unfolding hand_over content of_chunks of_chunk
hand_over-content fails p =
    append-nil (of_chunks (p.out ++ (record { segs = p.segs; buf = p.buf } ∷ [])))
    ∙ of_chunks-append p.out (record { segs = p.segs; buf = p.buf } ∷ [])
    ∙ ap (λ t. of_chunks p.out ++ t) (append-nil (of_chunk p.segs p.buf))

pub flush-content : (fails : ℕ → Bool) (p : Packer) → content (flush fails p).0 ≡ content p
unfolding flush look content
flush-content fails p = elim (Bool-cases (length p.segs == 0)) [
  | inl e ↦ rw e refl
  | inr e ↦ rw e (hand_over-content fails p)
]
