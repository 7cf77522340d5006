-- ===== src/Transfer/Negotiation.antt =====
-- How the decisions come back to the sender (internal/transfer/listing.go: sendDecisions;
-- internal/transfer/send.go: senderNegotiate, verifyHashes).
pub mod Agreement
pub mod Reserving
pub mod Hashing
use fsend.Base.{
  ℕ, zero, suc, ◌+◌, ◌-◌, ◌*◌, ◌/◌, Bool, true, false, not, ◌&&◌, ◌||◌, Option, none, some,
}
use fsend.Base.{List, [], ◌∷◌, ◌++◌, if◌then◌else◌, ltb, ◌==◌, length, replicate}
use fsend.Base.Bytes.{bytes_eq}
use fsend.Base.Maps.{String, same}
use fsend.Wire.{FrameType}
use fsend.Wire.Reader.{Error, Result, ok, err, ◌>>=◌}
use fsend.Wire.Control.{write_control, RawFrame, read_control_raw, decode_body}
use fsend.Transfer.Plan.{Decision}
use fsend.Transfer.Faults.{Sentinel, map_peer_error}
use fsend.Transfer.Batches.{send_batches}
use fsend.Transfer.Listing.{type_error, max_listing_entries}

-- TypeClassifyBatch, TypeClassifyEnd, TypeVerifyRequest and TypeVerifyResponse
abbrev pub type_classify_batch : FrameType
type_classify_batch = 0x07

abbrev pub type_classify_end : FrameType
type_classify_end = 0x08

abbrev pub type_verify_request : FrameType
type_verify_request = 0x0C

abbrev pub type_verify_response : FrameType
type_verify_response = 0x0D

-- The budget of a batch of decisions, and the estimated size of one.
abbrev pub decision_budget : ℕ
decision_budget = 48 * 1024

unfoldable pub decision_bytes : Decision → ℕ
decision_bytes d = 24 + length d.prefix_root * 2

unfoldable pub send_decisions :
    {W : Type 0}
    → (List Decision → Option (List ℕ))
    → (W → List ℕ → Option W)
    → W
    → List Decision
    → Result W
send_decisions encode put w ds = do
  w' ← send_batches decision_bytes decision_budget encode put type_classify_batch w [] 0 ds
  write_control encode put w' type_classify_end none

-- The map of decisions, with the index in the decision as its key: `out[d.Index] = d`.
unfoldable pub drop_decision : ℕ → List Decision → List Decision
drop_decision i [] = []
drop_decision i (d ∷ ds) = if d.index == i then drop_decision i ds else d ∷ drop_decision i ds

unfoldable pub put_decision : Decision → List Decision → List Decision
put_decision d ds = d ∷ drop_decision d.index ds

unfoldable pub find_decision : ℕ → List Decision → Option Decision
find_decision i [] = none
find_decision i (d ∷ ds) = if d.index == i then some d else find_decision i ds

unfoldable pub put_all : List Decision → List Decision → List Decision
put_all [] out = out
put_all (d ∷ ds) out = put_all ds (put_decision d out)

-- FileHash, and the index and the path of a source.
pub record FileHash : Type 0 where
  pub index : ℕ
  pub hash : List ℕ

pub record SourcePath : Type 0 where
  pub index : ℕ
  pub path : String

-- byIndex; a missing key is the empty path.
unfoldable pub path_of : ℕ → List SourcePath → String
path_of i [] = ""
path_of i (s ∷ ss) = if s.index == i then s.path else path_of i ss

abbrev pub no_hash : List ℕ
no_hash = replicate 32 0

-- `hashed`: the last hash that was stored for an index.
unfoldable pub hash_of : ℕ → List FileHash → Option (List ℕ)
hash_of i [] = none
hash_of i (h ∷ hs) = if h.index == i then some h.hash else hash_of i hs

abbrev pub is_known : Option (List ℕ) → Bool
is_known none = false
is_known (some h) = true

-- The first loop of verifyHashes: what is to be hashed, and `hashed` with these indices reserved.
unfoldable pub reserve : List SourcePath → List ℕ → List FileHash → List ℕ × List FileHash
reserve ss [] hs = ([], hs)
reserve ss (i ∷ is) hs =
    let fresh = not (is_known (hash_of i hs)) && not (same (path_of i ss) "") in
    let (todo, later) =
      reserve ss is (if fresh then record { index = i; hash = no_hash } ∷ hs else hs) in
    if fresh then (i ∷ todo, later) else (todo, later)

-- `hashed`, and the indices that hashFileRoot was called for, in their order.
pub record HashLog : Type 0 where
  pub hashed : List FileHash
  pub opened : List ℕ

-- A call of hashFileRoot, which opens the file; `root_of` is what it returns for an index's path.
abbrev pub hash_one : Option (List ℕ) → ℕ → HashLog → HashLog
hash_one none i t = record t { opened = t.opened ++ (i ∷ []) }
hash_one (some h) i t = record {
  hashed = record { index = i; hash = h } ∷ t.hashed;
  opened = t.opened ++ (i ∷ []);
}

-- hashFileRoot of every file to be hashed.
unfoldable pub hash_all : (ℕ → Option (List ℕ)) → List ℕ → HashLog → HashLog
hash_all root_of [] t = t
hash_all root_of (i ∷ is) t = hash_all root_of is (hash_one (root_of i) i t)

-- The last loop of verifyHashes.
abbrev answer_one : ℕ → Option (List ℕ) → List FileHash → List FileHash
answer_one i none rest = rest
answer_one i (some h) rest =
    if bytes_eq h no_hash then rest else record { index = i; hash = h } ∷ rest

unfoldable pub answers : List ℕ → List FileHash → List FileHash
answers [] hs = []
answers (i ∷ is) hs = answer_one i (hash_of i hs) (answers is hs)

-- maxVerifyRounds, with maxVerifyIDsPerFrame.
abbrev pub max_verify_ids_per_frame : ℕ
max_verify_ids_per_frame = 800

abbrev pub max_verify_rounds : ℕ
max_verify_rounds = max_listing_entries / max_verify_ids_per_frame + 1

-- The variables of senderNegotiate and its writer. `opened` are the indices that
-- hashFileRoot was called for.
pub record Negotiating (W : Type 0) : Type 0 where
  pub out : List Decision
  pub hashed : List FileHash
  pub verify_rounds : ℕ
  pub opened : List ℕ
  pub writer : W

-- What senderNegotiate returns, with what is left to read. `no_fuel` is no outcome of the code.
pub data Negotiated : Type 0 where
  decided : List Decision → List ℕ → Negotiated
  broken : Error → Negotiated
  too_many_requests : Negotiated
  too_many_decisions : Negotiated
  peer_failed : Sentinel → Negotiated
  unexpected : FrameType → Negotiated
  no_fuel : Negotiated

pub data Turn (W : Type 0) : Type 0 where
  go_on : Negotiating W → List ℕ → Turn W
  stop : Negotiating W → Negotiated → Turn W

-- The decoders of the frames' payloads, and the encoder of the hashes.
pub record Codec : Type 0 where
  pub decode_decisions : List ℕ → Option (List Decision)
  pub decode_request : List ℕ → Option (List ℕ)
  pub encode_hashes : List FileHash → Option (List ℕ)
  pub peer_code : List ℕ → ℕ

-- `roots` is what hashFileRoot returns, by the round and the index.
module _ {W : Type 0} (gob : Codec) (put : W → List ℕ → Option W) (roots : ℕ → ℕ → Option (List ℕ))
    (sources : List SourcePath) where
  abbrev pub respond : List ℕ → Negotiating W → Result W → Turn W
  respond rest s (err e) = stop s (broken e)
  respond rest s (ok w) = go_on (record s { writer = w }) rest

  -- verifyHashes and its answer.
  unfoldable pub verify : List ℕ → List ℕ → Negotiating W → Turn W
  verify idx rest s =
      let (todo, reserved) = reserve sources idx s.hashed in
      let done =
        hash_all (roots s.verify_rounds) todo (record { hashed = reserved; opened = s.opened }) in
      respond rest (record s { hashed = done.hashed; opened = done.opened })
        (write_control gob.encode_hashes put s.writer type_verify_response
          (some (answers idx done.hashed)))

  abbrev pub on_request : List ℕ → Negotiating W → Result (List ℕ) → Turn W
  on_request rest s (err e) = stop s (broken e)
  on_request rest s (ok idx) = verify idx rest s

  abbrev pub on_batch : List ℕ → Negotiating W → Result (List Decision) → Turn W
  on_batch rest s (err e) = stop s (broken e)
  on_batch rest s (ok batch) =
      let t = record s { out = put_all batch s.out } in
      if ltb (length sources) (length t.out) then stop t too_many_decisions else go_on t rest

  -- The switch on the frame's type.
  unfoldable pub take_frame : FrameType → List ℕ → List ℕ → Negotiating W → Turn W
  take_frame ft body rest s =
      let t = record s { verify_rounds = suc s.verify_rounds } in
      if ft == type_verify_request
      then if ltb max_verify_rounds t.verify_rounds
        then stop t too_many_requests
        else on_request rest t (decode_body gob.decode_request [] body)
      else if ft == type_classify_batch
      then on_batch rest s (decode_body gob.decode_decisions [] body)
      else if ft == type_classify_end
      then stop s (decided s.out rest)
      else if ft == type_error
      then stop s (peer_failed (map_peer_error (gob.peer_code body)))
      else stop s (unexpected ft)

  unfoldable pub take_raw : RawFrame → Negotiating W → Turn W
  take_raw raw s = elim raw.body [
    | err e ↦ stop s (broken e)
    | ok got ↦ take_frame raw.ft got.0 got.1 s
  ]

  -- The loop. Each round reads a header of six bytes, so the bytes' number is fuel enough.
  unfoldable pub negotiate_loop : ℕ → Negotiating W → List ℕ → Negotiating W × Negotiated
  negotiate_loop zero s src = (s, no_fuel)
  negotiate_loop (suc n) s src = elim (take_raw (read_control_raw src) s) [
    | stop t out ↦ (t, out)
    | go_on t rest ↦ negotiate_loop n t rest
  ]

  unfoldable pub sender_negotiate : W → List ℕ → Negotiating W × Negotiated
  sender_negotiate w src =
      negotiate_loop (suc (length src))
        (record { out = []; hashed = []; verify_rounds = 0; opened = []; writer = w }) src
