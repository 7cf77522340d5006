-- ===== src/Transfer/Listing/RoundTrip.antt =====
-- A listing that is sent is the one that is received (internal/transfer/listing.go).
use fsend.Base.{ℕ, zero, suc, ◌≤◌, ◌<◌, ◌≡◌, refl, sym, ap, ◌∙◌, arith}
use fsend.Base.{true, false, ◌==◌, Option}
use fsend.Base.{List, [], ◌∷◌, ◌++◌, append-nil, append_assoc, ltb, length, All, length-append}
use fsend.Wire.Reader.{ok}
use fsend.Wire.Control.{header_of, write_control, read_control_raw, decode_body}
use fsend.Wire.Control.RoundTrip.{append_to, read_raw-frame, write_body-append}
use fsend.Transfer.Plan.{ListingEntry}
use fsend.Transfer.Batches.{
  batches, joined, joined-batches, Survives, gob, frames, frames_long, send_batches-frames,
}
use fsend.Transfer.Listing.{
  type_listing_batch, type_listing_end, max_listing_entries, max_listing_batch_bytes, entry_bytes,
  send_listing, in_order, listed, go_on, stop, take_frame, take_raw, recv_loop, recv_listing,
}
use fsend.Transfer.Listing.Exchange.{IsNumbered, in_order-IsNumbered}

-- The frame behind a listing's batches.
abbrev end_frame : List ℕ
end_frame = header_of type_listing_end []

module _ (encode : List ListingEntry → Option (List ℕ))
    (decode : List ℕ → Option (List ListingEntry)) (peer_code : List ℕ → ℕ) where
  recv_loop-batch :
      (n : ℕ) (es b : List ListingEntry) (rest : List ℕ)
      → Survives encode decode b
      → length (es ++ b) ≤ max_listing_entries
      → recv_loop decode peer_code
          (suc n)
          es
          ((header_of type_listing_batch (gob encode decode b) ++ gob encode decode b) ++ rest)
        ≡ recv_loop decode peer_code n (es ++ b) rest
  unfolding recv_loop take_raw take_frame decode_body
  recv_loop-batch n es b rest h few =
      let body = gob encode decode b in
      let behind = append_assoc (header_of type_listing_batch body) body rest in
      let long : (length body == 0) ≡ false = ground (arith, h.not_empty) in
      let fits : ltb max_listing_entries (length (es ++ b)) ≡ false = ground arith in
      let takes : take_raw decode peer_code
            (record { ft = type_listing_batch; body = ok (body, rest) }) es
          ≡ go_on (es ++ b) rest =
        rw (long, h.decoded, fits) refl in
      let reads = ap read_control_raw behind ∙ read_raw-frame type_listing_batch body rest h.fits in
      rw (ap (λ r. take_raw decode peer_code r es) reads ∙ takes, recv_loop) refl

  recv_loop-end :
      (n : ℕ) (es : List ListingEntry) (rest : List ℕ)
      → in_order 0 es ≡ true
      → recv_loop decode peer_code (suc n) es (end_frame ++ rest) ≡ listed es rest
  unfolding recv_loop take_raw take_frame
  recv_loop-end n es rest h =
      let takes : take_raw decode peer_code (record { ft = type_listing_end; body = ok ([], rest) })
            es
          ≡ stop (listed es rest) =
        rw h refl in
      let reads = read_raw-frame type_listing_end [] rest (omega arith) in
      rw (ap (λ r. take_raw decode peer_code r es) reads ∙ takes, recv_loop) refl

  recv_loop-frames :
      (bs : List (List ListingEntry)) (n : ℕ) (es : List ListingEntry) (rest : List ℕ)
      → All (Survives encode decode) bs
      → length (es ++ joined bs) ≤ max_listing_entries
      → length bs < n
      → in_order 0 (es ++ joined bs) ≡ true
      → recv_loop decode peer_code n es
          (frames encode decode type_listing_batch bs ++ (end_frame ++ rest))
        ≡ listed (es ++ joined bs) rest
  unfolding frames joined
  recv_loop-frames bs zero es rest h few fuel order = absurd (omega arith)
  recv_loop-frames [] (suc n) es rest h few fuel order =
      recv_loop-end n es rest (ap (in_order 0) (sym (append-nil es)) ∙ order)
      ∙ ap (λ l. listed l rest) (sym (append-nil es))
  recv_loop-frames (b ∷ bs) (suc n) es rest h few fuel order =
      let body = gob encode decode b in
      let first = header_of type_listing_batch body ++ body in
      let more = frames encode decode type_listing_batch bs in
      let both = append_assoc es b (joined bs) in
      ap (recv_loop decode peer_code (suc n) es) (append_assoc first more (end_frame ++ rest))
      ∙ recv_loop-batch n es b (more ++ (end_frame ++ rest)) h.0
          (omega (arith, few, ap length both, length-append (es ++ b) (joined bs)))
      ∙ recv_loop-frames bs n (es ++ b) rest h.1 (omega (arith, few, ap length both)) (omega arith)
          (ap (in_order 0) both ∙ order)
      ∙ ap (λ l. listed l rest) both

  -- A listing of at most 4,000,000 entries, numbered 0, 1, 2 and so on, whose batches gob encodes
  -- in 1 to 64 KiB and decodes again: sending it succeeds, and reading what was written, whatever
  -- follows, yields the same entries and leaves what follows.
  pub recv_listing-send_listing :
      (entries : List ListingEntry) (w rest : List ℕ)
      → IsNumbered 0 entries
      → length entries ≤ max_listing_entries
      → All (Survives encode decode) (batches entry_bytes max_listing_batch_bytes [] 0 entries)
      → (sent : List ℕ) × (send_listing encode append_to w entries ≡ ok (w ++ sent))
        × (recv_listing decode peer_code (sent ++ rest) ≡ listed entries rest)
  unfolding send_listing write_control recv_listing
  recv_listing-send_listing entries w rest v few h =
      let bs = batches entry_bytes max_listing_batch_bytes [] 0 entries in
      let front = frames encode decode type_listing_batch bs in
      let whole = joined-batches entry_bytes max_listing_batch_bytes [] 0 entries in
      let behind = append_assoc front end_frame rest in
      (
        front ++ end_frame,
        rw
            (send_batches-frames encode decode type_listing_batch entry_bytes
              max_listing_batch_bytes [] 0 entries w h)
            (write_body-append (w ++ front) type_listing_end [] (omega arith)
              ∙ ap ok (append_assoc w front end_frame)),
        ap (λ l. recv_loop decode peer_code (suc (length l)) [] l) behind
            ∙ recv_loop-frames bs (suc (length (front ++ (end_frame ++ rest)))) [] rest h
                (rw whole few)
                (omega (
                  arith,
                  frames_long encode decode type_listing_batch bs,
                  length-append front (end_frame ++ rest),
                ))
                (rw whole ((in_order-IsNumbered 0 entries (omega arith)).1 v))
            ∙ ap (λ l. listed l rest) whole,
      )
