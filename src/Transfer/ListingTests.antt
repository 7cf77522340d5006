-- ===== src/Transfer/ListingTests.antt =====
-- Runs of the listing's and the decisions' exchange (internal/transfer/listing.go, send.go).
use fsend.Base.{ℕ, ◌≡◌, ◌≢◌, refl, arith, true, false, Option, some}
use fsend.Base.{List, [], ◌∷◌, ◌++◌, length, All, replicate}
use fsend.Wire.Reader.{ok}
use fsend.Wire.Control.{
  header_of, decode_body, read_control_raw, read_raw_body, write_control, write_body,
}
use fsend.Base.Texts.{byte_length}
use fsend.Base.Bytes.{bytes_eq}
use fsend.Base.Maps.{same}
use fsend.Transfer.Negotiation
use fsend.Wire.Control.RoundTrip.{append_to}
use fsend.Transfer.Plan.{ListingEntry, file, dir, Decision, decision, send, skip}
use fsend.Transfer.Batches.{batches}
use fsend.Transfer.Listing.{
  entry_bytes, send_listing, recv_listing, listed, out_of_order, recv_loop, take_raw, take_frame,
  in_order, type_listing_batch, type_listing_end,
}
use fsend.Transfer.Listing.Exchange.{IsSound, recv_listing-IsSound}
use fsend.Transfer.Listing.RoundTrip.{recv_listing-send_listing}
use fsend.Transfer.Negotiation.{
  decision_budget, decision_bytes, send_decisions, SourcePath, FileHash, Codec, sender_negotiate,
  decided, no_fuel, find_decision, Negotiating, negotiate_loop, verify, reserve, hash_all, hash_one,
  hash_of, path_of, answers,
}
use fsend.Transfer.Negotiation.Agreement.{sender_negotiate-send_decisions}
use fsend.Transfer.Negotiation.Hashing.{IsOnce, sender_negotiate-IsOnce}

abbrev first : ListingEntry
first = record {
  index = 0;
  relative_path = "a";
  size = 0;
  mod_time_sec = 7;
  mode = 493;
  typ = dir;
  symlink_target = "";
}

abbrev second : ListingEntry
second = record {
  index = 1;
  relative_path = "a/b.txt";
  size = 5;
  mod_time_sec = 7;
  mode = 420;
  typ = file;
  symlink_target = "";
}

-- A batch is encoded by its length.
abbrev encode {ℓ} : {A : Type ℓ} → List A → Option (List ℕ)
encode xs = some (length xs ∷ [])

abbrev decode {ℓ} : {A : Type ℓ} → List A → List ℕ → Option (List A)
decode xs bytes = some xs

abbrev no_code : List ℕ → ℕ
no_code body = 0

abbrev entries : List ListingEntry
entries = first ∷ second ∷ []

recv_listing-send_listing_example :
    (sent : List ℕ) × (send_listing encode append_to (9 ∷ []) entries ≡ ok (9 ∷ sent))
    × (recv_listing (decode entries) no_code (sent ++ (1 ∷ 2 ∷ [])) ≡ listed entries (1 ∷ 2 ∷ []))
unfolding batches entry_bytes byte_length
recv_listing-send_listing_example =
    recv_listing-send_listing encode (decode entries) no_code entries (9 ∷ []) (1 ∷ 2 ∷ [])
      (refl, (refl, tt)) (omega arith)
      (record { encoded = refl; decoded = refl; not_empty = omega arith; fits = omega arith }, tt)

-- The frames of a listing of two entries.
abbrev listing_bytes : List ℕ
listing_bytes = (header_of type_listing_batch (2 ∷ []) ++ (2 ∷ [])) ++ header_of type_listing_end []

recv_listing-runs : recv_listing (decode entries) no_code listing_bytes ≡ listed entries []
unfolding recv_listing recv_loop take_raw take_frame decode_body in_order read_control_raw
    read_raw_body
recv_listing-runs = refl

-- The entries in the other order are refused.
recv_listing-out_of_order :
    recv_listing (decode (second ∷ first ∷ [])) no_code listing_bytes ≡ out_of_order
unfolding recv_listing recv_loop take_raw take_frame decode_body in_order read_control_raw
    read_raw_body
recv_listing-out_of_order = refl

recv_listing-IsSound_example :
    IsSound (decode entries) [] listing_bytes (recv_listing (decode entries) no_code listing_bytes)
recv_listing-IsSound_example =
    recv_listing-IsSound (decode entries) no_code listing_bytes (ground arith)

abbrev verdicts : List Decision
verdicts = decision 0 send false ∷ decision 1 skip true ∷ []

abbrev codec : Codec
codec = record {
  decode_decisions = decode verdicts;
  decode_request = λ body. some (1 ∷ 1 ∷ 7 ∷ []);
  encode_hashes = encode;
  peer_code = no_code;
}

abbrev sources : List SourcePath
sources = record { index = 0; path = "/s/a" } ∷ record { index = 1; path = "/s/a/b.txt" } ∷ []

abbrev roots : ℕ → ℕ → Option (List ℕ)
roots round i = some (replicate 32 i)

sender_negotiate-send_decisions_example :
    (sent : List ℕ) × (send_decisions encode append_to [] verdicts ≡ ok sent)
    × ((out : List Decision) × ((sender_negotiate codec append_to roots sources [] (sent ++ [])).1
          ≡ decided out [])
        × All (λ d. find_decision d.index out ≡ some d) verdicts)
unfolding batches decision_bytes
sender_negotiate-send_decisions_example =
    sender_negotiate-send_decisions encode codec append_to roots sources verdicts [] [] []
      (refl, (refl, tt)) (omega arith)
      (record { encoded = refl; decoded = refl; not_empty = omega arith; fits = omega arith }, tt)

-- A request for the second file twice and for one that is no source, and the end.
abbrev request_bytes : List ℕ
request_bytes = (header_of 0x0C (3 ∷ []) ++ (3 ∷ [])) ++ header_of 0x08 []

sender_negotiate-opens :
    (sender_negotiate codec append_to roots sources [] request_bytes).0.opened ≡ 1 ∷ []
unfolding sender_negotiate negotiate_loop Negotiation.take_raw Negotiation.take_frame verify reserve
    hash_all hash_of path_of same answers bytes_eq decode_body read_control_raw read_raw_body
    write_control write_body
sender_negotiate-opens = refl

sender_negotiate-IsOnce_example :
    IsOnce codec append_to roots sources
      (sender_negotiate codec append_to roots sources [] request_bytes).0
    × ((sender_negotiate codec append_to roots sources [] request_bytes).1 ≢ no_fuel)
sender_negotiate-IsOnce_example =
    sender_negotiate-IsOnce codec append_to roots sources [] request_bytes
