-- ===== src/Transfer/Compress.antt =====
-- The writer's goroutine (internal/transfer/pack.go: writeLoop): which chunks are compressed, and
-- what goes on the wire.
use fsend.Base.{
  ℕ, ◌+◌, ◌-◌, ◌*◌, ◌/◌, ◌≤◌, ◌≡◌, min, max, refl, arith, Bool, true, false, Bool-cases, inl, inr,
}
use fsend.Base.{
  List, [], ◌∷◌, ◌++◌, if◌then◌else◌, ltb, ltb→lt, ◌==◌, length, length-append, All, All-append,
  All-map,
}
use fsend.Wire.{max_chunk_size}
use fsend.Wire.Chunk.{Segment, Chunk}
use fsend.Wire.Chunk.Valid.{IsSegment, IsChunk, total_len}
use fsend.Transfer.Packer.{Packed, new_packer}
use fsend.Transfer.Packer.Valid.{IsPacked}
use fsend.Transfer.Packer.Runs.{Op, run, IsTidy, run-IsPacked}

-- `skip` and `backoff` of writeLoop.
pub record Pace : Type 0 where
  pub skip : ℕ
  pub backoff : ℕ

-- The segments in the order of the wire.
abbrev pub in_order : List Segment → List Segment
in_order [] = []
in_order (s ∷ ss) = in_order ss ++ (s ∷ [])

abbrev plain_chunk : Packed → Chunk
plain_chunk c = record { compressed = false; segments = in_order c.segs; payload = c.buf }

-- The body of writeLoop up to WriteChunk; `encode` is zstd's EncodeAll.
unfoldable pub next_chunk : (List ℕ → List ℕ) → Pace → Packed → Chunk × Pace
next_chunk encode pace c =
    if length c.buf == 0
    then (plain_chunk c, pace)
    else if ltb 0 pace.skip
    then (plain_chunk c, record pace { skip = pace.skip - 1 })
    else if ltb (length (encode c.buf) + length (encode c.buf) / 10) (length c.buf)
    then (
      record { compressed = true; segments = in_order c.segs; payload = encode c.buf },
      record pace { backoff = 0 },
    )
    else (let backoff = min (max 1 (pace.backoff * 2)) 64 in
        (plain_chunk c, record { skip = backoff; backoff = backoff }))

in_order-All : (P : Segment → Type 0) (ss : List Segment) → All P ss → All P (in_order ss)
in_order-All P [] h = tt
in_order-All P (s ∷ ss) h = All-append P (in_order ss) (s ∷ []) (in_order-All P ss h.1) (h.0, tt)

length-in_order : (ss : List Segment) → length (in_order ss) ≡ length ss
length-in_order [] = refl
length-in_order (s ∷ ss) = omega (arith, length-append (in_order ss) (s ∷ []), length-in_order ss)

total_len-append : (ss ts : List Segment) → total_len (ss ++ ts) ≡ total_len ss + total_len ts
total_len-append [] ts = omega arith
total_len-append (s ∷ ss) ts = omega (arith, total_len-append ss ts)

total_len-in_order : (ss : List Segment) → total_len (in_order ss) ≡ total_len ss
total_len-in_order [] = refl
total_len-in_order (s ∷ ss) =
    omega (arith, total_len-append (in_order ss) (s ∷ []), total_len-in_order ss)

IsChunk-of :
    (c : Packed) (compressed : Bool) (payload : List ℕ)
    → IsPacked c
    → length payload ≤ max_chunk_size
    → (compressed ≡ false → length payload ≡ length c.buf)
    → IsChunk (record { compressed = compressed; segments = in_order c.segs; payload = payload })
IsChunk-of c compressed payload h fits same = record {
  segments_ok = in_order-All IsSegment c.segs h.segments_ok;
  some_segment = omega (arith, length-in_order c.segs, h.some_segment);
  few_segments = omega (arith, length-in_order c.segs, h.few_segments);
  payload_fits = fits;
  total_fits = omega (arith, total_len-in_order c.segs, h.total, h.buf_fits);
  plain_total = λ e. omega (arith, total_len-in_order c.segs, h.total, same e);
}

next_chunk-IsChunk :
    (encode : List ℕ → List ℕ) (pace : Pace) (c : Packed)
    → IsPacked c
    → IsChunk (next_chunk encode pace c).0
unfolding next_chunk
next_chunk-IsChunk encode pace c h =
    let plain = IsChunk-of c false c.buf h h.buf_fits (λ z. refl) in
    let z = encode c.buf in
    elim (Bool-cases (length c.buf == 0)) [
      | inl e ↦ rw e plain
      | inr e ↦ elim (Bool-cases (ltb 0 pace.skip)) [
        | inl f ↦ rw (e, f) plain
        | inr f ↦ elim (Bool-cases (ltb (length z + length z / 10) (length c.buf))) [
          | inl g ↦
              rw (e, f, g)
                (IsChunk-of c true z h
                  (omega (arith, ltb→lt (length z + length z / 10) (length c.buf) g, h.buf_fits))
                  (λ y. absurd cc))
          | inr g ↦ rw (e, f, g) plain
        ]
      ]
    ]

-- Whatever is sent, at whatever moment the writer fails, whatever the encoder gives and whatever
-- the state of the back-off: every chunk that goes to WriteChunk is well formed, if nothing is sent
-- of a file that was skipped, file indices have 32 bits and roots have 32 bytes.
pub run-IsChunk :
    (fails : ℕ → Bool) (encode : List ℕ → List ℕ) (pace : Pace) (ops : List Op)
    → IsTidy (λ i. false) ops
    → All (λ c. IsChunk (next_chunk encode pace c).0) (run fails ops new_packer).0.out
run-IsChunk fails encode pace ops t =
    All-map {P = IsPacked} (run fails ops new_packer).0.out (next_chunk-IsChunk encode pace)
      (run-IsPacked fails ops t)
