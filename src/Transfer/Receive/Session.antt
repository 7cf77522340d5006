-- ===== src/Transfer/Receive/Session.antt =====
-- receiveData's loop (internal/transfer/recv.go): which segments are taken, and what becomes of the
-- files. `plain` and `derive` are BLAKE3, in its plain form and in the one that derives a key.
pub mod Writing
pub mod Unchanged
pub mod Verified
pub mod Segments
pub mod Chunks
pub mod Saved
pub mod Reported
pub mod Delivery
pub mod Arrival
pub mod Streams
use fsend.Base.{ℕ, zero, suc, ◌+◌, ◌-◌, Bool, true, false, not, ◌&&◌, ◌||◌, Option, none, some}
use fsend.Base.{List, [], ◌∷◌, ◌++◌, if◌then◌else◌, ltb, ◌==◌, length, take, drop}
use fsend.Wire.Chunk.{Segment}
use fsend.Transfer.Plan.{EntryPlan, is_file, Decision, Action, send, skip, resumed}
use fsend.Transfer.Faults.{Fault, Sentinel, decline, Outcome, fine, fails, map_peer_error}
use fsend.Transfer.Faults.{code_listing_invalid, code_protocol_error, protocol_error, hash_mismatch}
use fsend.Transfer.Faults.{connect_failed, malformed_chunk, read_broken, cancelled}
use fsend.Transfer.Receive.{
  RecvFile, Answers, PendingFile, Receiver, Step, abandon, open_file, write_file, check_file,
}
use fsend.Transfer.Receive.Commit.{add}

-- byIndex of a listing, whose indices differ.
unfoldable pub by_index : ℕ → List EntryPlan → Option EntryPlan
by_index i [] = none
by_index i (p ∷ ps) = if p.entry.index == i then some p else by_index i ps

abbrev pub lets_in : Action → Bool
lets_in send = true
lets_in skip = false
lets_in resumed = true

-- A regular file that is not empty.
abbrev pub has_content : Option EntryPlan → Bool
has_content none = false
has_content (some p) = is_file p.entry.typ && ltb 0 p.entry.size

-- `allowed`
unfoldable pub allowed : List Decision → List EntryPlan → ℕ → Bool
allowed [] ps i = false
allowed (d ∷ ds) ps i =
    ((d.index == i) && (lets_in d.action && has_content (by_index i ps))) || allowed ds ps i

-- `expected`, as receiver.run counts it.
unfoldable pub expected_files : List EntryPlan → List Decision → ℕ
expected_files [] ds = 0
expected_files (p ∷ ps) [] = 0
expected_files (p ∷ ps) (d ∷ ds) =
    (if lets_in d.action && has_content (some p) then 1 else 0) + expected_files ps ds

-- The variables of receiveData, with the callbacks' files.
pub record Session : Type 0 where
  pub receiver : Receiver
  pub plans : List EntryPlan
  pub open_to : ℕ → Bool  -- `allowed`
  pub finished : ℕ → Bool  -- `done`
  pub expected : ℕ
  pub cur : Option RecvFile
  pub skipped : List ℕ  -- OnEntrySkipped
  pub changed : List ℕ  -- OnSourceChanged

abbrev pub SessionStep : Type 0
SessionStep = Session × Outcome (Unit {0})

abbrev pub start : List EntryPlan → List Decision → Session
start ps ds = record {
  receiver = record { pending = []; pending_bytes = 0; saved = []; kept = [] };
  plans = ps;
  open_to = allowed ds ps;
  finished = λ i. false;
  expected = expected_files ps ds;
  cur = none;
  skipped = [];
  changed = [];
}

-- abandon of the open file, if there is one.
unfoldable pub close_open : Bool → Session → Session
close_open keep s = elim s.cur [
  | none ↦ s
  | some rf ↦ record s { receiver = abandon keep rf s.receiver; cur = none }
]

abbrev pub is_other : Option RecvFile → ℕ → Bool
is_other none i = false
is_other (some rf) i = not (rf.plan.entry.index == i)

abbrev pub mark : ℕ → (ℕ → Bool) → ℕ → Bool
mark i done j = if i == j then true else done j

unfoldable pub skip_segment : ℕ → Session → Session
unfolding close_open
skip_segment i s =
    let t = close_open false s in
    record t {
      finished = mark i t.finished;
      expected = t.expected - 1;
      skipped = t.skipped ++ (i ∷ []);
    }

abbrev pub not_awaited : Session → SessionStep
not_awaited s = (close_open true s, fails (decline code_listing_invalid protocol_error))

abbrev pub after_segment : Outcome (Unit {0}) → Session → SessionStep → SessionStep
after_segment (fine _) s rest = rest
after_segment (fails f) s rest = (s, fails f)

module _ (plain derive : List ℕ → List ℕ) where
  -- What follows on a successful finalize.
  unfoldable pub after_commit : Segment → Session → Step (Unit {0}) → SessionStep
  after_commit seg s (r, fails f) = (record s { receiver = r }, fails f)
  after_commit seg s (r, fine _) = (
    record s {
      receiver = r;
      finished = mark seg.file_index s.finished;
      expected = s.expected - 1;
      changed = if seg.changed then s.changed ++ (seg.file_index ∷ []) else s.changed;
    },
    fine tt,
  )

  unfoldable pub after_check : Segment → Answers → Session → Step PendingFile → SessionStep
  after_check seg ans s (r, fails f) = (record s { receiver = r }, fails f)
  after_check seg ans s (r, fine pf) = after_commit seg s (add ans pf r)

  -- What follows on (*recvFile).write.
  unfoldable pub after_write_file : Segment → Answers → Session → Step RecvFile → SessionStep
  after_write_file seg ans s (r, fails f) = (record s { receiver = r; cur = none }, fails f)
  after_write_file seg ans s (r, fine rf) =
      if seg.at_eof
      then after_check seg ans (record s { receiver = r; cur = none })
          (check_file plain derive rf seg.root_hash ans r)
      else (record s { receiver = r; cur = some rf }, fine tt)

  unfoldable pub after_open : Segment → List ℕ → Answers → Session → Step RecvFile → SessionStep
  after_open seg bytes ans s (r, fails f) = (record s { receiver = r }, fails f)
  after_open seg bytes ans s (r, fine rf) = after_write_file seg ans s (write_file rf bytes ans r)

  -- A segment with content for a plan: `cur` is the open file.
  unfoldable pub fill_open :
      Segment → List ℕ → Answers → EntryPlan → Session → Option RecvFile → SessionStep
  fill_open seg bytes ans p s none =
      after_open seg bytes ans s (open_file p seg.restart ans s.receiver)
  fill_open seg bytes ans p s (some rf) =
      if seg.restart
      then (close_open true s, fails (decline code_protocol_error protocol_error))
      else after_write_file seg ans s (write_file rf bytes ans s.receiver)

  unfoldable pub fill_file : Segment → List ℕ → Answers → EntryPlan → Session → SessionStep
  unfolding fill_open
  fill_file seg bytes ans p s = fill_open seg bytes ans p s s.cur

  unfoldable pub take_segment :
      Segment → List ℕ → Answers → Session → Option EntryPlan → SessionStep
  take_segment seg bytes ans s none = not_awaited s
  take_segment seg bytes ans s (some p) =
      if seg.skip then (skip_segment seg.file_index s, fine tt) else fill_file seg bytes ans p s

  -- The body of the loop over a chunk's segments; what is allowed has a plan.
  unfoldable pub receive_segment : Segment → List ℕ → Answers → Session → SessionStep
  receive_segment seg bytes ans s =
      if not (s.open_to seg.file_index)
        || (s.finished seg.file_index || is_other s.cur seg.file_index)
      then not_awaited s
      else take_segment seg bytes ans s (by_index seg.file_index s.plans)

  -- The loop over a chunk's segments.
  unfoldable pub receive_segments : (ℕ → Answers) → List Segment → List ℕ → Session → SessionStep
  receive_segments ans [] bytes s = (s, fine tt)
  receive_segments ans (seg ∷ segs) bytes s =
      let (t, o) = receive_segment seg (take seg.len bytes) (ans 0) s in
      let rest = receive_segments (λ k. ans (suc k)) segs (drop seg.len bytes) t in
      after_segment o t rest

-- Why no further chunk can be read.
pub data ReadFault : Type 0 where
  at_end : Option ℕ → ReadFault  -- the end of the stream, with the code of an ERROR frame
  bad_frame : Sentinel → ReadFault  -- a protocol error, a malformed or a too large chunk
  other : ReadFault

-- What the loop waits for.
pub data Incoming : Type 0 where
  chunk : (ℕ → Answers) → List Segment → List ℕ → Incoming
  broken : ReadFault → Incoming
  interrupted : Incoming  -- ctx.Done

-- How the loop ends; `waiting` when the list of what comes in ends first.
pub data Ending : Type 0 where
  complete : Ending
  failed : Fault → Ending
  waiting : Ending

abbrev is_hash_mismatch : Sentinel → Bool
is_hash_mismatch hash_mismatch = true
is_hash_mismatch _ = false

-- The error path of the loop.
unfoldable pub read_fault : ReadFault → Session → Session × Fault
unfolding close_open
read_fault (at_end (some code)) s = (
  close_open (not (is_hash_mismatch (map_peer_error code))) s,
  record { told = none; shown = map_peer_error code },
)
read_fault (at_end none) s = (close_open true s, record { told = none; shown = connect_failed })
read_fault (bad_frame shown) s = (close_open true s, decline code_protocol_error shown)
read_fault other s = (close_open true s, record { told = none; shown = read_broken })

abbrev pub after_chunk : Outcome (Unit {0}) → Session → Session × Ending → Session × Ending
after_chunk (fine _) s rest = rest
after_chunk (fails f) s rest = (s, failed f)

module _ (plain derive : List ℕ → List ℕ) where
  unfoldable pub receive_data : List Incoming → Session → Session × Ending
  receive_data [] s = if s.expected == 0 then (s, complete) else (s, waiting)
  receive_data (broken f ∷ ins) s =
      let (t, e) = read_fault f s in if s.expected == 0 then (s, complete) else (t, failed e)
  receive_data (interrupted ∷ ins) s =
      if s.expected == 0
      then (s, complete)
      else (close_open true s, failed (record { told = none; shown = cancelled }))
  receive_data (chunk ans segs bytes ∷ ins) s =
      let (t, o) = receive_segments plain derive ans segs bytes s in
      let rest = receive_data ins t in
      if s.expected == 0 then (s, complete) else after_chunk o t rest
