-- ===== src/Transfer/Receive.antt =====
-- The data phase of a receive (internal/transfer/recv.go: receiveData with openFile, write, finalize
-- and abandon). What the system calls of a step return is an argument of the step.
pub mod Commit
pub mod Session
use fsend.Base.{ℕ, ◌+◌, ◌-◌, ◌%◌, ◌^◌, Bool, true, false, not, ◌&&◌, ◌||◌, Option, none, some}
use fsend.Base.{List, [], ◌∷◌, ◌++◌, if◌then◌else◌, ltb, leb, ◌==◌, length}
use fsend.Base.Bytes.{bytes_eq}
use fsend.Base.Maps.{String, insert, erase}
use fsend.Transfer.HashTree.{FileHasher, new_file_hasher, seed, write, sum}
use fsend.Transfer.Sparse.{truncate, Disk, DiskFault, SparseWrite, write_sparse}
use fsend.Transfer.Plan.{EntryPlan, Disposition, fresh, is_resume}
use fsend.Transfer.Faults.{Fault, decline, write_fail, Outcome, fine, fails}
use fsend.Transfer.Faults.{code_protocol_error, code_file_hash_mismatch}
use fsend.Transfer.Faults.{protocol_error, write_failed, hash_mismatch}

-- recvFile: the partial that is being written. The count of unsynced bytes only times a flush, and
-- the digest of the manifest is left out.
pub record RecvFile : Type 0 where
  pub plan : EntryPlan
  pub content : List ℕ
  pub hasher : FileHasher
  pub written : ℕ
  pub tail_hole : Bool

-- What lies in the slot of a target.
pub data Slot : Type 0 where
  free_or_file : Slot
  link : Slot
  empty_dir : Slot
  full_dir : Slot

-- What the system calls return while one segment is handled.
pub record Answers : Type 0 where
  pub is_regular : Bool  -- guardRegular of the partial
  pub opened : Bool  -- the opening or the creation of the partial
  pub partial : List ℕ  -- what an old partial holds
  pub resized : Bool  -- the Truncate to the resume offset
  pub disk : Disk
  pub extended : Bool  -- the Truncate to the full size
  pub synced : Bool
  pub slot : String → Slot  -- what lies in the target's slot
  pub moved : String → Bool  -- the making of the folder and the renaming
  pub no_space : Bool  -- whether an error of the calls but WriteAt says that the disk is full

-- pendingFile: the plan, and what the partial holds.
pub record PendingFile : Type 0 where
  pub plan : EntryPlan
  pub content : List ℕ

-- receiver and committer. `kept` are the partials that this run leaves in the state folder, `saved`
-- the files that are in place.
pub record Receiver : Type 0 where
  pub pending : List PendingFile
  pub pending_bytes : ℕ
  pub saved : List PendingFile
  pub kept : List (String × List ℕ)

-- A step of the receiver with its result.
abbrev pub Step : Type 0 → Type 0
Step A = Receiver × Outcome A

-- abandon
unfoldable pub abandon : Bool → RecvFile → Receiver → Receiver
abandon keep rf r =
    if keep
    then (record r { kept = insert rf.plan.rel rf.content r.kept })
    else (record r { kept = erase rf.plan.rel r.kept })

-- The file that openFile yields for a partial that is resumed.
abbrev pub resumed_file : EntryPlan → Answers → RecvFile
resumed_file p ans = record {
  plan = p;
  content = truncate p.resume_offset ans.partial;
  hasher = seed p.prefix_blocks new_file_hasher;
  written = p.resume_offset;
  tail_hole = false;
}

abbrev pub new_file : EntryPlan → RecvFile
new_file p = record {
  plan = p;
  content = [];
  hasher = new_file_hasher;
  written = 0;
  tail_hole = false;
}

unfoldable pub open_partial : EntryPlan → Answers → Receiver → Step RecvFile
open_partial p ans r =
    if not ans.is_regular
    then (r, fails (decline code_protocol_error write_failed))
    else if not ans.opened
    then (r, fails (write_fail ans.no_space))
    else if not ans.resized
    then (abandon false (resumed_file p ans) r, fails (write_fail ans.no_space))
    else (r, fine (resumed_file p ans))

unfoldable pub create_partial : EntryPlan → Answers → Receiver → Step RecvFile
create_partial p ans r =
    if ans.opened then (r, fine (new_file p)) else (r, fails (write_fail ans.no_space))

-- openFile
unfoldable pub open_file : EntryPlan → Bool → Answers → Receiver → Step RecvFile
open_file p restart ans r =
    if restart && not (is_resume p.disp)
    then (r, fails (decline code_protocol_error protocol_error))
    else if is_resume p.disp && not restart
    then open_partial p ans r
    else if restart
    then create_partial (record p { disp = fresh; prefix_blocks = [] }) ans r
    else create_partial p ans r

-- The end of (*recvFile).write, from what writeSparse did; an error leaves the file open, or deletes
-- it when the disk is full.
unfoldable pub after_write : RecvFile → List ℕ → SparseWrite → Receiver → Step (RecvFile)
after_write rf bytes w r = elim w.fault [
  | none ↦ (
    r,
    fine (record rf {
      content = w.content;
      hasher = write bytes rf.hasher;
      written = (rf.written + length bytes) % 2 ^ 64;
      tail_hole = w.tail_hole;
    }),
  )
  | some f ↦ (
    abandon (not f.no_space) (record rf { content = w.content }) r,
    fails (write_fail f.no_space),
  )
]

-- (*recvFile).write; on an error the deferred abandon of receiveData is part of the step.
unfoldable pub write_file : RecvFile → List ℕ → Answers → Receiver → Step RecvFile
write_file rf bytes ans r =
    if length bytes == 0
    then (r, fine rf)
    else if ltb rf.plan.entry.size ((rf.written + length bytes) % 2 ^ 64)
    then (abandon true rf r, fails (decline code_protocol_error protocol_error))
    else after_write rf bytes (write_sparse ans.disk rf.written bytes rf.tail_hole rf.content) r

-- finalize up to the commit: the file to be committed.
unfoldable pub check_file :
    (List ℕ → List ℕ)
    → (List ℕ → List ℕ)
    → RecvFile
    → List ℕ
    → Answers
    → Receiver
    → Step PendingFile
check_file plain derive rf root ans r =
    if not (rf.written == rf.plan.entry.size)
    then (abandon false rf r, fails (decline code_protocol_error protocol_error))
    else if not (bytes_eq (sum plain derive rf.hasher) root)
    then (abandon false rf r, fails (decline code_file_hash_mismatch hash_mismatch))
    else if rf.tail_hole
    then if ans.extended
      then (r, fine (record { plan = rf.plan; content = truncate rf.plan.entry.size rf.content }))
      else (abandon true rf r, fails (write_fail ans.no_space))
    else (r, fine (record { plan = rf.plan; content = rf.content }))
