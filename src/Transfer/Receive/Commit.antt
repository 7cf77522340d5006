-- ===== src/Transfer/Receive/Commit.antt =====
-- The committer: verified files are put in place in batches (internal/transfer/recv.go: committer,
-- place).
pub mod Placing
use fsend.Base.{ℕ, ◌+◌, ◌%◌, ◌^◌, Bool, true, false, not, ◌&&◌, ◌||◌, List, [], ◌∷◌, ◌++◌}
use fsend.Base.{if◌then◌else◌, leb, ◌==◌, length}
use fsend.Base.Maps.{String, insert, erase}
use fsend.Transfer.Plan.{EntryPlan, needs_consent}
use fsend.Transfer.Faults.{write_fail, Outcome, fine, fails}
use fsend.Transfer.Receive.{
  Slot, free_or_file, link, empty_dir, full_dir, Answers, PendingFile, Receiver, Step,
}

abbrev pub commit_max_files : ℕ
commit_max_files = 256

abbrev pub commit_max_bytes : ℕ
commit_max_bytes = 67108864

abbrev pub is_full_dir : Slot → Bool
is_full_dir full_dir = true
is_full_dir _ = false

-- What place does with one file: it is moved into place, refused because of a folder with files, or
-- stays in the state folder because of an error.
unfoldable pub place : Answers → PendingFile → Receiver → Receiver × Bool
place ans pf r =
    if needs_consent pf.plan && is_full_dir (ans.slot pf.plan.target)
    then (record r { kept = erase pf.plan.rel r.kept }, true)
    else if ans.moved pf.plan.target
    then (record r { saved = r.saved ++ (pf ∷ []); kept = erase pf.plan.rel r.kept }, true)
    else (record r { kept = insert pf.plan.rel pf.content r.kept }, false)

-- The loop of flush; the result says whether no file met an error.
unfoldable pub place_all : Answers → List PendingFile → Receiver → Receiver × Bool
place_all ans [] r = (r, true)
place_all ans (pf ∷ pfs) r =
    let (q, ok) = place ans pf r in let (s, oks) = place_all ans pfs q in (s, ok && oks)

-- Partials that are synced or not, and are not moved.
unfoldable pub keep_all : List PendingFile → Receiver → Receiver
keep_all [] r = r
keep_all (pf ∷ pfs) r = keep_all pfs (record r { kept = insert pf.plan.rel pf.content r.kept })

abbrev pub unless_failed : Answers → Receiver × Bool → Step (Unit {0})
unless_failed ans (r, ok) = if ok then (r, fine tt) else (r, fails (write_fail ans.no_space))

-- flush
unfoldable pub flush : Answers → Receiver → Step (Unit {0})
flush ans r =
    let emptied = record r { pending = []; pending_bytes = 0 } in
    if length r.pending == 0
    then (emptied, fine tt)
    else if not ans.synced
    then (keep_all r.pending emptied, fails (write_fail ans.no_space))
    else unless_failed ans (place_all ans r.pending emptied)

-- add
unfoldable pub add : Answers → PendingFile → Receiver → Step (Unit {0})
add ans pf r =
    let q = record r {
      pending = r.pending ++ (pf ∷ []);
      pending_bytes = (r.pending_bytes + pf.plan.entry.size) % 2 ^ 64;
    } in
    if leb commit_max_files (length q.pending) || leb commit_max_bytes q.pending_bytes
    then flush ans q
    else (q, fine tt)
