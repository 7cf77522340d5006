-- ===== src/Transfer/Receive/Commit/Placing.antt =====
-- What the committer does to the files it was given (internal/transfer/recv.go: committer, place).
use fsend.Base.{
  ℕ, ◌+◌, ◌%◌, ◌^◌, ◌≤◌, ◌≡◌, inl, inr, arith, Bool, true, false, not, ◌&&◌, ◌||◌, Bool-cases,
}
use fsend.Base.{List, [], ◌∷◌, ◌++◌, if◌then◌else◌, leb, ◌==◌, length, All, All-append}
use fsend.Base.Maps.{insert}
use fsend.Transfer.Faults.{fine, fails, write_fail}
use fsend.Transfer.Plan.{needs_consent}
use fsend.Transfer.Receive.{Answers, PendingFile, Receiver, Step}
use fsend.Transfer.Receive.Commit.{
  place, place_all, keep_all, flush, unless_failed, add, commit_max_files, commit_max_bytes,
  is_full_dir,
}

-- How often the entry's file is among the files.
abbrev pub times : ℕ → List PendingFile → ℕ
times i [] = 0
times i (pf ∷ pfs) = (if pf.plan.entry.index == i then 1 else 0) + times i pfs

times-append : (i : ℕ) (xs ys : List PendingFile) → times i (xs ++ ys) ≡ times i xs + times i ys
times-append i [] ys = omega arith
times-append i (x ∷ xs) ys = omega (arith, times-append i xs ys)

-- From `r` to `q` files only move on: what holds of the files still does, and none is there more
-- often.
pub record Moves (r q : Receiver) (more : List PendingFile) : Type 1 where
  pub still :
      (V : PendingFile → Type 0)
      → All V r.pending
      → All V r.saved
      → All V more
      → All V q.pending × All V q.saved
  pub no_more :
      (i : ℕ)
      → times i q.pending + times i q.saved ≤ times i r.pending + times i r.saved + times i more

place-Moves :
    (ans : Answers) (pf : PendingFile) (r : Receiver) → Moves r (place ans pf r).0 (pf ∷ [])
unfolding place
place-Moves ans pf r =
    elim (Bool-cases (needs_consent pf.plan && is_full_dir (ans.slot pf.plan.target))) [
      | inl e ↦ rw e (record { still = λ V a b c. (a, b); no_more = λ i. omega arith })
      | inr e ↦ elim (Bool-cases (ans.moved pf.plan.target)) [
        | inl g ↦
            rw (e, g)
              (record {
                still = λ V a b c. (a, All-append V r.saved (pf ∷ []) b c);
                no_more = λ i. omega (arith, times-append i r.saved (pf ∷ []));
              })
        | inr g ↦ rw (e, g) (record { still = λ V a b c. (a, b); no_more = λ i. omega arith })
      ]
    ]

place_all-Moves :
    (ans : Answers) (pfs : List PendingFile) (r : Receiver) → Moves r (place_all ans pfs r).0 pfs
unfolding place_all
place_all-Moves ans [] r = record { still = λ V a b c. (a, b); no_more = λ i. omega arith }
place_all-Moves ans (pf ∷ pfs) r =
    let q = (place ans pf r).0 in
    let one = place-Moves ans pf r in
    let rest = place_all-Moves ans pfs q in
    record {
      still = λ V a b c. let (x, y) = one.still V a b (c.0, tt) in rest.still V x y c.1;
      no_more = λ i. omega (arith, one.no_more i, rest.no_more i);
    }

keep_all-Moves : (pfs : List PendingFile) (r : Receiver) → Moves r (keep_all pfs r) []
unfolding keep_all
keep_all-Moves [] r = record { still = λ V a b c. (a, b); no_more = λ i. omega arith }
keep_all-Moves (pf ∷ pfs) r =
    let rest = keep_all-Moves pfs (record r { kept = insert pf.plan.rel pf.content r.kept }) in
    record { still = rest.still; no_more = rest.no_more }

Moves-if :
    (r : Receiver) (b : Bool) (x y : Step (Unit {0}))
    → Moves r x.0 []
    → Moves r y.0 []
    → Moves r (if b then x else y).0 []
Moves-if r true x y h k = h
Moves-if r false x y h k = k

unless_failed-Moves :
    (ans : Answers) (x : Receiver × Bool) (r : Receiver)
    → Moves r x.0 []
    → Moves r (unless_failed ans x).0 []
unless_failed-Moves ans (q, true) r h = h
unless_failed-Moves ans (q, false) r h = h

flush-Moves : (ans : Answers) (r : Receiver) → Moves r (flush ans r).0 []
unfolding flush
flush-Moves ans r =
    let emptied = record r { pending = []; pending_bytes = 0 } in
    let synced = place_all-Moves ans r.pending emptied in
    let unsynced = keep_all-Moves r.pending emptied in
    let placed : Moves r (place_all ans r.pending emptied).0 [] = record {
      still = λ V a b c. synced.still V tt b a;
      no_more = λ i. omega (arith, synced.no_more i);
    } in
    Moves-if r (length r.pending == 0) (emptied, fine tt)
      (if not ans.synced
        then (keep_all r.pending emptied, fails (write_fail ans.no_space))
        else unless_failed ans (place_all ans r.pending emptied))
      (record { still = λ V a b c. (tt, b); no_more = λ i. omega arith })
      (Moves-if r (not ans.synced) (keep_all r.pending emptied, fails (write_fail ans.no_space))
        (unless_failed ans (place_all ans r.pending emptied))
        (record {
          still = λ V a b c. unsynced.still V tt b tt;
          no_more = λ i. omega (arith, unsynced.no_more i);
        })
        (unless_failed-Moves ans (place_all ans r.pending emptied) r placed))

pub add-Moves :
    (ans : Answers) (pf : PendingFile) (r : Receiver) → Moves r (add ans pf r).0 (pf ∷ [])
unfolding add
add-Moves ans pf r =
    let q = record r {
      pending = r.pending ++ (pf ∷ []);
      pending_bytes = (r.pending_bytes + pf.plan.entry.size) % 2 ^ 64;
    } in
    let flushed = flush-Moves ans q in
    let more = λ (i : ℕ). times-append i r.pending (pf ∷ []) in
    let stays = λ (V : PendingFile → Type 0). All-append V r.pending (pf ∷ []) in
    elim (Bool-cases
      (leb commit_max_files (length q.pending) || leb commit_max_bytes q.pending_bytes)) [
        | inl e ↦ rw e (record {
          still = λ V a b c. flushed.still V (stays V a c) b tt;
          no_more = λ i. omega (arith, flushed.no_more i, more i);
        })
        | inr e ↦
            rw e
              (record { still = λ V a b c. (stays V a c, b); no_more = λ i. omega (arith, more i) })
      ]
