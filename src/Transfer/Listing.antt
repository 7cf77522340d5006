-- ===== src/Transfer/Listing.antt =====
-- The listing on the control stream (internal/transfer/listing.go: sendListing, recvListing,
-- validateListing).
pub mod Exchange
pub mod RoundTrip
use fsend.Base.{ℕ, zero, suc, ◌+◌, ◌*◌, ◌^◌, ◌%◌, Bool, true, ◌&&◌, Option, none}
use fsend.Base.{List, [], ◌∷◌, ◌++◌, if◌then◌else◌, ltb, ◌==◌, length}
use fsend.Base.Texts.{byte_length}
use fsend.Wire.{FrameType}
use fsend.Wire.Reader.{Error, Result, ok, err, ◌>>=◌}
use fsend.Wire.Control.{write_control, RawFrame, read_control_raw, decode_body}
use fsend.Transfer.Plan.{ListingEntry}
use fsend.Transfer.Faults.{Sentinel, map_peer_error}
use fsend.Transfer.Batches.{send_batches}

-- TypeListingBatch, TypeListingEnd and TypeError
abbrev pub type_listing_batch : FrameType
type_listing_batch = 0x05

abbrev pub type_listing_end : FrameType
type_listing_end = 0x06

abbrev pub type_error : FrameType
type_error = 0xFE

-- maxListingBatchBytes and maxListingEntries
abbrev pub max_listing_batch_bytes : ℕ
max_listing_batch_bytes = 56 * 1024

abbrev pub max_listing_entries : ℕ
max_listing_entries = 4000000

-- The estimated size of an entry in a frame.
unfoldable pub entry_bytes : ListingEntry → ℕ
entry_bytes e = byte_length e.relative_path + byte_length e.symlink_target + 48

unfoldable pub send_listing :
    {W : Type 0}
    → (List ListingEntry → Option (List ℕ))
    → (W → List ℕ → Option W)
    → W
    → List ListingEntry
    → Result W
send_listing encode put w entries = do
  w' ← send_batches entry_bytes max_listing_batch_bytes encode put type_listing_batch w [] 0 entries
  write_control encode put w' type_listing_end none

-- validateListing, of the entries at and behind position `i`.
unfoldable pub in_order : ℕ → List ListingEntry → Bool
in_order i [] = true
in_order i (e ∷ es) = (e.index == i % 2 ^ 32) && in_order (suc i) es

-- What recvListing returns; with the entries, what is left to read. `no_fuel` is no outcome of the
-- code.
pub data Listed : Type 0 where
  listed : List ListingEntry → List ℕ → Listed
  unreadable : Error → Listed
  too_many_entries : Listed
  out_of_order : Listed
  peer_failed : Sentinel → Listed
  unexpected : FrameType → Listed
  no_fuel : Listed

-- What a frame leads to: the loop goes on with more entries behind the frame, or ends.
pub data Progress : Type 0 where
  go_on : List ListingEntry → List ℕ → Progress
  stop : Listed → Progress

module _ (decode : List ℕ → Option (List ListingEntry)) (peer_code : List ℕ → ℕ) where
  abbrev pub add_batch : List ℕ → List ListingEntry → Result (List ListingEntry) → Progress
  add_batch rest es (err e) = stop (unreadable e)
  add_batch rest es (ok batch) =
      if ltb max_listing_entries (length (es ++ batch))
      then stop too_many_entries
      else go_on (es ++ batch) rest

  -- The switch on the frame's type. `peer_code` is the code that decoding leaves in an ErrorFrame.
  unfoldable pub take_frame : FrameType → List ℕ → List ℕ → List ListingEntry → Progress
  take_frame ft body rest es =
      if ft == type_listing_batch
      then add_batch rest es (decode_body decode [] body)
      else if ft == type_listing_end
      then if in_order 0 es then stop (listed es rest) else stop out_of_order
      else if ft == type_error
      then stop (peer_failed (map_peer_error (peer_code body)))
      else stop (unexpected ft)

  unfoldable pub take_raw : RawFrame → List ListingEntry → Progress
  take_raw raw es = elim raw.body [
    | err e ↦ stop (unreadable e)
    | ok got ↦ take_frame raw.ft got.0 got.1 es
  ]

  -- The loop. Each round reads a header of six bytes, so the bytes' number is fuel enough.
  unfoldable pub recv_loop : ℕ → List ListingEntry → List ℕ → Listed
  recv_loop zero es src = no_fuel
  recv_loop (suc n) es src = elim (take_raw (read_control_raw src) es) [
    | stop out ↦ out
    | go_on more rest ↦ recv_loop n more rest
  ]

  unfoldable pub recv_listing : List ℕ → Listed
  recv_listing src = recv_loop (suc (length src)) [] src
