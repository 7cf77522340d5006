-- ===== src/Transfer/Receive/Session/Unchanged.antt =====
-- What the steps on one file leave as it is (internal/transfer/recv.go: openFile, write, finalize).
use fsend.Base.{ℕ, ◌≡◌, refl, arith}
use fsend.Base.{Bool, true, false}
use fsend.Base.{List}
use fsend.Transfer.Plan.{EntryPlan}
use fsend.Transfer.Receive.{
  abandon, RecvFile, Answers, Receiver, open_file, open_partial, create_partial, write_file,
  after_write, check_file,
}

-- The steps on one file leave the committer alone.
pub record Same (r q : Receiver) : Type 0 where
  pub pending : q.pending ≡ r.pending
  pub saved : q.saved ≡ r.saved

pub abandon-Same : (keep : Bool) (rf : RecvFile) (r : Receiver) → Same r (abandon keep rf r)
unfolding abandon
abandon-Same true rf r = record { pending = refl; saved = refl }
abandon-Same false rf r = record { pending = refl; saved = refl }

pub open_file-Same :
    (p : EntryPlan) (restart : Bool) (ans : Answers) (r : Receiver)
    → Same r (open_file p restart ans r).0
unfolding open_file open_partial create_partial abandon
open_file-Same p restart ans r = ground arith

pub write_file-Same :
    (rf : RecvFile) (bytes : List ℕ) (ans : Answers) (r : Receiver)
    → Same r (write_file rf bytes ans r).0
unfolding write_file after_write abandon
write_file-Same rf bytes ans r = ground arith

pub check_file-Same :
    (plain derive : List ℕ → List ℕ) (rf : RecvFile) (root : List ℕ) (ans : Answers) (r : Receiver)
    → Same r (check_file plain derive rf root ans r).0
unfolding check_file abandon
check_file-Same plain derive rf root ans r = ground arith
