-- ===== src/Transfer/Receive/Session/Verified.antt =====
-- What a receive puts in place (internal/transfer/recv.go: receiveData).
use fsend.Base.{ℕ, ◌+◌, ◌^◌, ◌≤◌, ◌<◌, ◌≡◌, refl, sym, ap, subst, ◌∙◌, inl, inr, arith}
use fsend.Base.{Bool, true, false, Bool-cases, Option, none, some}
use fsend.Base.{List, if◌then◌else◌, ◌==◌, length, All}
use fsend.Wire.Chunk.{Segment}
use fsend.Transfer.HashTree.{bytes_root}
use fsend.Transfer.Plan.{EntryPlan}
use fsend.Transfer.Faults.{fine, fails}
use fsend.Transfer.Receive.{RecvFile, Answers, PendingFile, Receiver, Step, abandon, check_file}
use fsend.Transfer.Receive.Commit.{add}
use fsend.Transfer.Receive.Commit.Placing.{times, add-Moves}
use fsend.Transfer.Receive.Session.{by_index, Session, SessionStep, close_open, mark}
use fsend.Transfer.Receive.Session.{after_commit, after_check, after_write_file}
use fsend.Transfer.Receive.Session.Writing.{Receiving, OnSuccess, OnSuccess-map, check_file-content}
use fsend.Transfer.Receive.Session.Unchanged.{Same, abandon-Same, check_file-Same}

pub close_open-cur : (keep : Bool) (s : Session) → (close_open keep s).cur ≡ none
unfolding close_open
close_open-cur keep s = ground arith

-- What a receive is about: BLAKE3, the roots that count as named, the plans, and the entries that are
-- let in.
pub record Terms : Type 1 where
  pub plain : List ℕ → List ℕ
  pub derive : List ℕ → List ℕ
  pub P : ℕ → List ℕ → Type 0
  pub plans : List EntryPlan
  pub open_to : ℕ → Bool

module _ (c : Terms) where
  open c use {plain, derive, P, plans, open_to}

  -- The plan is that of the entry, but for what a restart changes.
  abbrev pub IsPlanned : EntryPlan → Type 0
  IsPlanned q = (p : EntryPlan) × (by_index q.entry.index plans ≡ some p) × (q.entry ≡ p.entry)

  -- A file of an entry that is let in, of the declared size, with a root that `P` vouches for.
  pub record IsVerified (pf : PendingFile) : Type 0 where
    pub let_in : open_to pf.plan.entry.index ≡ true
    pub planned : IsPlanned pf.plan
    pub whole : length pf.content ≡ pf.plan.entry.size
    pub vouched : P pf.plan.entry.index (bytes_root plain derive pf.content)

  -- The open file.
  pub record Awaited (finished : ℕ → Bool) (rf : RecvFile) : Type 0 where
    pub received : List ℕ
    pub holds : Receiving plain received rf
    pub let_in : open_to rf.plan.entry.index ≡ true
    pub planned : IsPlanned rf.plan
    pub unfinished : finished rf.plan.entry.index ≡ false
    pub small : rf.plan.entry.size < 2 ^ 63

  abbrev pub AwaitedIf : (ℕ → Bool) → Option RecvFile → Type 0
  AwaitedIf finished none = Unit {0}
  AwaitedIf finished (some rf) = Awaited finished rf

  pub record Files (finished : ℕ → Bool) (r : Receiver) : Type 0 where
    pub pending_ok : All IsVerified r.pending
    pub saved_ok : All IsVerified r.saved
    pub once : (i : ℕ) → times i r.pending + times i r.saved ≤ (if finished i then 1 else 0)

  pub record Inv (s : Session) : Type 0 where
    pub same_plans : s.plans ≡ plans
    pub same_open : s.open_to ≡ open_to
    pub cur_ok : AwaitedIf s.finished s.cur
    pub files : Files s.finished s.receiver

  pub Same-Files :
      (finished : ℕ → Bool) (r q : Receiver) → Same r q → Files finished r → Files finished q
  Same-Files finished r q e f = record {
    pending_ok = subst (All IsVerified) (sym e.pending) f.pending_ok;
    saved_ok = subst (All IsVerified) (sym e.saved) f.saved_ok;
    once = λ i. rw (e.pending, e.saved) (f.once i);
  }

  -- More entries that are finished.
  pub mark-Files :
      (i : ℕ) (finished : ℕ → Bool) (r : Receiver) → Files finished r → Files (mark i finished) r
  mark-Files i finished r f = record {
    pending_ok = f.pending_ok;
    saved_ok = f.saved_ok;
    once = λ j. ground (arith, f.once j);
  }

  pub close_open-Inv : (keep : Bool) (s : Session) → Inv s → Inv (close_open keep s)
  unfolding close_open
  close_open-Inv keep s v = by_cur s.cur refl v.cur_ok
    where
      by_cur :
          (o : Option RecvFile)
          → s.cur ≡ o
          → AwaitedIf s.finished o
          → Inv (elim o [
            | none ↦ s
            | some rf ↦ record s { receiver = abandon keep rf s.receiver; cur = none }
          ])
      by_cur none e h = v
      by_cur (some rf) e h = record {
        same_plans = v.same_plans;
        same_open = v.same_open;
        cur_ok = tt;
        files =
            Same-Files s.finished s.receiver (abandon keep rf s.receiver)
              (abandon-Same keep rf s.receiver) v.files;
      }

  -- What holds of the committer's files in the end, whether or not an error ended it.
  pub record Settled (r : Receiver) : Type 0 where
    pub pending_ok : All IsVerified r.pending
    pub saved_ok : All IsVerified r.saved
    pub once : (i : ℕ) → times i r.pending + times i r.saved ≤ 1

  pub Files-Settled : (finished : ℕ → Bool) (r : Receiver) → Files finished r → Settled r
  Files-Settled finished r f = record {
    pending_ok = f.pending_ok;
    saved_ok = f.saved_ok;
    once = λ i. ground (arith, f.once i);
  }

  abbrev pub InvStep : SessionStep → Type 0
  InvStep (s, fine _) = Inv s
  InvStep (s, fails f) = Settled s.receiver

  pub InvStep-if :
      (b : Bool) (x y : SessionStep)
      → (b ≡ true → InvStep x)
      → (b ≡ false → InvStep y)
      → InvStep (if b then x else y)
  InvStep-if true x y h k = h refl
  InvStep-if false x y h k = k refl

  -- A session without an open file.
  pub record Between (s : Session) : Type 0 where
    pub same_plans : s.plans ≡ plans
    pub same_open : s.open_to ≡ open_to
    pub closed : s.cur ≡ none

  pub Between-Inv : (s : Session) → Between s → Files s.finished s.receiver → Inv s
  Between-Inv s b f = record {
    same_plans = b.same_plans;
    same_open = b.same_open;
    cur_ok = subst (AwaitedIf s.finished) (sym b.closed) tt;
    files = f;
  }

  after_commit-InvStep :
      (seg : Segment) (s : Session) (x : Step (Unit {0}))
      → Between s
      → Files (mark seg.file_index s.finished) x.0
      → InvStep (after_commit plain derive seg s x)
  unfolding after_commit
  after_commit-InvStep seg s (r, fails f) b h = Files-Settled (mark seg.file_index s.finished) r h
  after_commit-InvStep seg s (r, fine _) b h = record {
    same_plans = b.same_plans;
    same_open = b.same_open;
    cur_ok = subst (AwaitedIf (mark seg.file_index s.finished)) (sym b.closed) tt;
    files = h;
  }

  -- A verified file of an entry that was not finished is added.
  added-Files :
      (finished : ℕ → Bool) (ans : Answers) (pf : PendingFile) (r : Receiver)
      → Files finished r
      → finished pf.plan.entry.index ≡ false
      → IsVerified pf
      → Files (mark pf.plan.entry.index finished) (add ans pf r).0
  added-Files finished ans pf r f new v =
      let m = add-Moves ans pf r in
      let kept = m.still IsVerified f.pending_ok f.saved_ok (v, tt) in
      record {
        pending_ok = kept.0;
        saved_ok = kept.1;
        once = λ i. elim (Bool-cases (pf.plan.entry.index == i)) [
          | inl e ↦
              let same : pf.plan.entry.index ≡ i = ground arith in
              let none_yet : finished i ≡ false = subst (λ j. finished j ≡ false) same new in
              ground (arith, m.no_more i, f.once i)
          | inr e ↦ ground (arith, m.no_more i, f.once i)
        ];
      }

  after_check-InvStep :
      (seg : Segment) (ans : Answers) (s : Session) (x : Step PendingFile)
      → Between s
      → Files s.finished x.0
      → s.finished seg.file_index ≡ false
      → OnSuccess (λ pf. IsVerified pf × (pf.plan.entry.index ≡ seg.file_index)) x.1
      → InvStep (after_check plain derive seg ans s x)
  unfolding after_check
  after_check-InvStep seg ans s (r, fails f) b h new v = Files-Settled s.finished r h
  after_check-InvStep seg ans s (r, fine pf) b h new v =
      after_commit-InvStep seg s (add ans pf r) b (
        subst (λ i. Files (mark i s.finished) (add ans pf r).0) v.1
          (added-Files s.finished ans pf r h (rw v.1 new) v.0))

  -- What finalize has checked.
  checked :
      (rf : RecvFile) (root received : List ℕ) (pf : PendingFile)
      → open_to rf.plan.entry.index ≡ true
      → IsPlanned rf.plan
      → P rf.plan.entry.index root
      → (pf.content ≡ received)
        × (pf.plan ≡ rf.plan)
        × (length received ≡ rf.plan.entry.size)
        × (bytes_root plain derive received ≡ root)
      → IsVerified pf
  checked rf root received pf let_in planned named (same, plan, size, sum) = record {
    let_in = rw plan let_in;
    planned = subst IsPlanned (sym plan) planned;
    whole = rw (same, plan) size;
    vouched =
        subst (λ i. P i (bytes_root plain derive pf.content)) (ap (λ q. q.entry.index) (sym plan))
          (subst (P rf.plan.entry.index) (sym (ap (bytes_root plain derive) same ∙ sum)) named);
  }

  -- A write to the open file `rf`.
  pub after_write_file-InvStep :
      (seg : Segment) (ans : Answers) (s : Session) (x : Step RecvFile)
      → Between (record s { cur = none })
      → Files s.finished x.0
      → s.finished seg.file_index ≡ false
      → (seg.at_eof ≡ true → P seg.file_index seg.root_hash)
      → OnSuccess (λ rf. Awaited s.finished rf × (rf.plan.entry.index ≡ seg.file_index)) x.1
      → InvStep (after_write_file plain derive seg ans s x)
  unfolding after_write_file
  after_write_file-InvStep seg ans s (r, fails f) b h new named v = Files-Settled s.finished r h
  after_write_file-InvStep seg ans s (r, fine rf) b h new named v =
      let t : Session = record s { receiver = r; cur = none } in
      InvStep-if seg.at_eof
        (after_check plain derive seg ans t (check_file plain derive rf seg.root_hash ans r))
        (record s { receiver = r; cur = some rf }, fine tt)
        (λ e.
          after_check-InvStep seg ans t (check_file plain derive rf seg.root_hash ans r)
            (record { same_plans = b.same_plans; same_open = b.same_open; closed = refl })
            (Same-Files s.finished r _ (check_file-Same plain derive rf seg.root_hash ans r) h) new
            (OnSuccess-map
              (λ pf.
                (pf.content ≡ v.0.received)
                × (pf.plan ≡ rf.plan)
                × (length v.0.received ≡ rf.plan.entry.size)
                × (bytes_root plain derive v.0.received ≡ seg.root_hash))
              (λ pf. IsVerified pf × (pf.plan.entry.index ≡ seg.file_index))
              (check_file plain derive rf seg.root_hash ans r).1
              (λ pf c. (
                checked rf seg.root_hash v.0.received pf v.0.let_in v.0.planned
                    (subst (λ i. P i seg.root_hash) (sym v.1) (named e)) c,
                ap (λ q. q.entry.index) c.1 ∙ v.1,
              ))
              (check_file-content plain derive rf seg.root_hash v.0.received ans r v.0.holds)))
        (λ e. record {
          same_plans = b.same_plans;
          same_open = b.same_open;
          cur_ok = v.0;
          files = h;
        })
