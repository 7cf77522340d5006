-- ===== src/Transfer/Negotiation/Agreement.antt =====
-- The decisions that a receiver sends are those that the sender acts on (internal/transfer/
-- listing.go: sendDecisions; send.go: senderNegotiate).
use fsend.Base.{ℕ, zero, suc, ◌+◌, ◌≤◌, ◌<◌, ◌≡◌, ◌≢◌, refl, sym, ap, ◌∙◌, arith}
use fsend.Base.{false, Bool-cases, inl, inr, ◌==◌, ==_refl, Option, some}
use fsend.Base.{List, [], ◌∷◌, ◌++◌, append_assoc, ltb, length, All}
use fsend.Base.{length-append}
use fsend.Wire.Reader.{ok}
use fsend.Wire.Control.{header_of, write_control, read_control_raw, decode_body}
use fsend.Wire.Control.RoundTrip.{append_to, read_raw-frame, write_body-append}
use fsend.Transfer.Plan.{Decision}
use fsend.Transfer.Batches.{
  batches, joined, joined-batches, Survives, frames, frames_long, send_batches-frames,
}
use fsend.Transfer.Batches.{gob as body_of}
use fsend.Transfer.Negotiation.{
  type_classify_batch, type_classify_end, decision_budget, decision_bytes, send_decisions,
  drop_decision, put_decision, find_decision, put_all, SourcePath, Negotiating, decided, go_on,
  Codec, take_frame, take_raw, negotiate_loop, sender_negotiate,
}

find-drop :
    (i j : ℕ) (ds : List Decision)
    → i ≢ j
    → find_decision j (drop_decision i ds) ≡ find_decision j ds
unfolding find_decision drop_decision
find-drop i j [] h = refl
find-drop i j (d ∷ ds) h = elim (Bool-cases (d.index == i)) [
  | inl e ↦ let other : (d.index == j) ≡ false = ground arith in rw (e, other) (find-drop i j ds h)
  | inr e ↦ rw e (ground (arith, find-drop i j ds h))
]

length-drop_decision : (i : ℕ) (ds : List Decision) → length (drop_decision i ds) ≤ length ds
unfolding drop_decision
length-drop_decision i [] = omega arith
length-drop_decision i (d ∷ ds) = ground (arith, length-drop_decision i ds)

-- The decisions' indices count on from `k`.
abbrev pub IsCounted : ℕ → List Decision → Type 0
IsCounted k [] = Unit
IsCounted k (d ∷ ds) = (d.index ≡ k) × IsCounted (suc k) ds

find-put_all :
    (k j : ℕ) (ds out : List Decision)
    → IsCounted k ds
    → j < k
    → find_decision j (put_all ds out) ≡ find_decision j out
unfolding put_all put_decision find_decision
find-put_all k j [] out v h = refl
find-put_all k j (d ∷ ds) out v h =
    let other : (d.index == j) ≡ false = ground (arith, v.0) in
    find-put_all (suc k) j ds (put_decision d out) v.1 (omega arith)
    ∙ rw (other, find_decision) (find-drop d.index j out (λ e. omega (arith, e, v.0)))

put_all-holds :
    (k : ℕ) (ds out : List Decision)
    → IsCounted k ds
    → All (λ d. find_decision d.index (put_all ds out) ≡ some d) ds
unfolding put_all put_decision find_decision
put_all-holds k [] out v = tt
put_all-holds k (d ∷ ds) out v = (
  find-put_all (suc k) d.index ds (put_decision d out) v.1 (omega (arith, v.0))
      ∙ rw (==_refl d.index) refl,
  put_all-holds (suc k) ds (put_decision d out) v.1,
)

length-put_all : (ds out : List Decision) → length (put_all ds out) ≤ length ds + length out
unfolding put_all put_decision
length-put_all [] out = omega arith
length-put_all (d ∷ ds) out =
    omega (arith, length-put_all ds (put_decision d out), length-drop_decision d.index out)

put_all-append : (ds es out : List Decision) → put_all (ds ++ es) out ≡ put_all es (put_all ds out)
unfolding put_all
put_all-append [] es out = refl
put_all-append (d ∷ ds) es out = put_all-append ds es (put_decision d out)

abbrev end_frame : List ℕ
end_frame = header_of type_classify_end []

module _ {W : Type 0} (encode : List Decision → Option (List ℕ)) (gob : Codec)
    (put : W → List ℕ → Option W) (roots : ℕ → ℕ → Option (List ℕ))
    (sources : List SourcePath) where
  -- The state with these decisions taken in.
  abbrev pub with_out : List Decision → Negotiating W → Negotiating W
  with_out ds s = record s { out = put_all ds s.out }

  negotiate_loop-batch :
      (n : ℕ) (s : Negotiating W) (b : List Decision) (rest : List ℕ)
      → Survives encode gob.decode_decisions b
      → length b + length s.out ≤ length sources
      → negotiate_loop gob put roots sources (suc n) s (
          (header_of type_classify_batch (body_of encode gob.decode_decisions b)
            ++ body_of encode gob.decode_decisions b)
          ++ rest)
        ≡ negotiate_loop gob put roots sources n (with_out b s) rest
  unfolding negotiate_loop take_raw take_frame decode_body
  negotiate_loop-batch n s b rest h few =
      let body = body_of encode gob.decode_decisions b in
      let behind = append_assoc (header_of type_classify_batch body) body rest in
      let long : (length body == 0) ≡ false = ground (arith, h.not_empty) in
      let fits : ltb (length sources) (length (put_all b s.out)) ≡ false =
        ground (arith, length-put_all b s.out) in
      let takes : take_raw gob put roots sources
            (record { ft = type_classify_batch; body = ok (body, rest) }) s
          ≡ go_on (with_out b s) rest =
        rw (long, h.decoded, fits) refl in
      let reads =
        ap read_control_raw behind ∙ read_raw-frame type_classify_batch body rest h.fits in
      rw (ap (λ r. take_raw gob put roots sources r s) reads ∙ takes, negotiate_loop) refl

  negotiate_loop-end :
      (n : ℕ) (s : Negotiating W) (rest : List ℕ)
      → negotiate_loop gob put roots sources (suc n) s (end_frame ++ rest) ≡ (s, decided s.out rest)
  unfolding negotiate_loop take_raw take_frame
  negotiate_loop-end n s rest =
      let reads = read_raw-frame type_classify_end [] rest (omega arith) in
      rw (ap (λ r. take_raw gob put roots sources r s) reads, negotiate_loop) refl

  negotiate_loop-frames :
      (bs : List (List Decision)) (n : ℕ) (s : Negotiating W) (rest : List ℕ)
      → All (Survives encode gob.decode_decisions) bs
      → length (joined bs) + length s.out ≤ length sources
      → length bs < n
      → negotiate_loop gob put roots sources n s
          (frames encode gob.decode_decisions type_classify_batch bs ++ (end_frame ++ rest))
        ≡ (with_out (joined bs) s, decided (put_all (joined bs) s.out) rest)
  unfolding frames joined put_all
  negotiate_loop-frames bs zero s rest h few fuel = absurd (omega arith)
  negotiate_loop-frames [] (suc n) s rest h few fuel = negotiate_loop-end n s rest
  negotiate_loop-frames (b ∷ bs) (suc n) s rest h few fuel =
      let body = body_of encode gob.decode_decisions b in
      let first = header_of type_classify_batch body ++ body in
      let more = frames encode gob.decode_decisions type_classify_batch bs in
      let size = length-append b (joined bs) in
      ap (negotiate_loop gob put roots sources (suc n) s)
        (append_assoc first more (end_frame ++ rest))
      ∙ negotiate_loop-batch n s b (more ++ (end_frame ++ rest)) h.0 (omega (arith, size))
      ∙ negotiate_loop-frames bs n (with_out b s) rest h.1
          (omega (arith, size, length-put_all b s.out)) (omega arith)
      ∙ ap (λ o. (record s { out = o }, decided o rest)) (sym (put_all-append b (joined bs) s.out))

  -- Decisions numbered 0, 1, 2 and so on, at most one for each source, whose batches gob encodes in
  -- 1 to 64 KiB and decodes again: sending them succeeds, and from what was written, whatever
  -- follows, the sender negotiates a map in which each of these decisions stands under its index.
  pub sender_negotiate-send_decisions :
      (ds : List Decision) (w rest : List ℕ) (v : W)
      → IsCounted 0 ds
      → length ds ≤ length sources
      → All (Survives encode gob.decode_decisions) (batches decision_bytes decision_budget [] 0 ds)
      → (sent : List ℕ) × (send_decisions encode append_to w ds ≡ ok (w ++ sent))
        × ((out : List Decision) × ((sender_negotiate gob put roots sources v (sent ++ rest)).1
              ≡ decided out rest)
            × All (λ d. find_decision d.index out ≡ some d) ds)
  unfolding send_decisions write_control sender_negotiate
  sender_negotiate-send_decisions ds w rest v counted few h =
      let bs = batches decision_bytes decision_budget [] 0 ds in
      let front = frames encode gob.decode_decisions type_classify_batch bs in
      let whole = joined-batches decision_bytes decision_budget [] 0 ds in
      let behind = append_assoc front end_frame rest in
      let start : Negotiating W = record {
        out = [];
        hashed = [];
        verify_rounds = 0;
        opened = [];
        writer = v;
      } in
      let src = front ++ (end_frame ++ rest) in
      let runs =
        negotiate_loop-frames bs (suc (length src)) start rest h
          (omega (arith, few, ap length whole))
          (omega (
            arith,
            frames_long encode gob.decode_decisions type_classify_batch bs,
            length-append front (end_frame ++ rest),
          )) in
      (
        front ++ end_frame,
        rw
            (send_batches-frames encode gob.decode_decisions type_classify_batch decision_bytes
              decision_budget [] 0 ds w h)
            (write_body-append (w ++ front) type_classify_end [] (omega arith)
              ∙ ap ok (append_assoc w front end_frame)),
        (
          put_all ds [],
          ap (λ l. (negotiate_loop gob put roots sources (suc (length l)) start l).1) behind
              ∙ ap (λ x. x.1) runs
              ∙ ap (λ l. decided (put_all l []) rest) whole,
          put_all-holds 0 ds [] counted,
        ),
      )
