-- ===== src/Transfer/Receive/Session/Reported.antt =====
-- What the two sides report when a segment ends a transfer (internal/transfer/recv.go: receiveData,
-- declineTransfer, mapPeerError).
use fsend.Base.{
  ℕ, suc, ◌≡◌, ◌⊎◌, refl, inl, inr, Bool, true, false, not, ◌&&◌, ◌||◌, Option, none, some,
  Option-cases, arith,
}
use fsend.Base.{
  List, [], ◌∷◌, if◌then◌else◌, ltb, leb, ◌==◌, length, take, drop, ◌++◌, ◌+◌, ◌%◌, ◌^◌,
}
use fsend.Base.Bytes.{bytes_eq}
use fsend.Wire.Chunk.{Segment}
use fsend.Transfer.HashTree.{sum}
use fsend.Transfer.Sparse.{truncate, SparseWrite, write_sparse}
use fsend.Transfer.Plan.{EntryPlan, is_resume, fresh}
use fsend.Transfer.Faults.{
  Fault, Outcome, fine, fails, decline, write_fail, map_peer_error, code_protocol_error,
  code_listing_invalid, code_file_hash_mismatch, protocol_error, write_failed, hash_mismatch,
}
use fsend.Transfer.Receive.{
  RecvFile, Answers, PendingFile, Receiver, Step, abandon, open_file, open_partial, create_partial,
  resumed_file, new_file, write_file, after_write, check_file,
}
use fsend.Transfer.Receive.Commit.{
  add, flush, unless_failed, place_all, keep_all, commit_max_files, commit_max_bytes,
}
use fsend.Transfer.Receive.Session.{
  by_index, Session, SessionStep, close_open, not_awaited, after_segment,
}
use fsend.Transfer.Receive.Session.{
  after_commit, after_check, after_write_file, after_open, fill_file, fill_open, take_segment,
  receive_segment, receive_segments,
}

module _ (Irregular : Type 0) where
  -- The sender is told a code, and what it makes of it is what the receiver shows; only where a partial
  -- is no regular file, which `Irregular` says, it may be told of a protocol error where the receiver
  -- shows a failed write.
  pub record IsReported (f : Fault) : Type 0 where
    pub code : ℕ
    pub told : f.told ≡ some code
    pub agreed :
        (map_peer_error code ≡ f.shown)
        ⊎ (Irregular × (code ≡ code_protocol_error) × (f.shown ≡ write_failed))

  abbrev pub Reported : {A : Type 0} → Outcome A → Type 0
  Reported (fine a) = Unit {0}
  Reported (fails f) = IsReported f

  if-Reported :
      {A B : Type 0} (b : Bool) (x y : B × Outcome A)
      → Reported x.1
      → Reported y.1
      → Reported (if b then x else y).1
  if-Reported true x y h k = h
  if-Reported false x y h k = k

  if-when :
      {A B : Type 0} (b : Bool) (x y : B × Outcome A)
      → (b ≡ true → Reported x.1)
      → Reported y.1
      → Reported (if b then x else y).1
  if-when true x y h k = h refl
  if-when false x y h k = k

  protocol-IsReported : IsReported (decline code_protocol_error protocol_error)
  unfolding map_peer_error
  protocol-IsReported = record { code = code_protocol_error; told = refl; agreed = inl refl }

  listing-IsReported : IsReported (decline code_listing_invalid protocol_error)
  unfolding map_peer_error
  listing-IsReported = record { code = code_listing_invalid; told = refl; agreed = inl refl }

  hash-IsReported : IsReported (decline code_file_hash_mismatch hash_mismatch)
  unfolding map_peer_error
  hash-IsReported = record { code = code_file_hash_mismatch; told = refl; agreed = inl refl }

  irregular-IsReported : Irregular → IsReported (decline code_protocol_error write_failed)
  irregular-IsReported x = record {
    code = code_protocol_error;
    told = refl;
    agreed = inr (x, refl, refl);
  }

  write_fail-IsReported : (no_space : Bool) → IsReported (write_fail no_space)
  unfolding write_fail map_peer_error
  write_fail-IsReported true = record { code = 19; told = refl; agreed = inl refl }
  write_fail-IsReported false = record { code = 13; told = refl; agreed = inl refl }

  open_file-Reported :
      (p : EntryPlan) (restart : Bool) (ans : Answers) (r : Receiver)
      → (ans.is_regular ≡ false → Irregular)
      → Reported (open_file p restart ans r).1
  unfolding open_file open_partial create_partial
  open_file-Reported p restart ans r odd =
      let failed = write_fail-IsReported ans.no_space in
      let created = λ (q : EntryPlan).
        if-Reported ans.opened (r, fine (new_file q)) (r, fails (write_fail ans.no_space)) tt
          failed in
      if-Reported (restart && not (is_resume p.disp)) _ _ protocol-IsReported (
        if-Reported (is_resume p.disp && not restart) _ _
          (if-when (not ans.is_regular) _ _ (λ e. irregular-IsReported (odd (ground arith)))
            (if-Reported (not ans.opened) _ _ failed
              (if-Reported (not ans.resized) _ (r, fine (resumed_file p ans)) failed tt)))
          (if-Reported restart _ _ (created (record p { disp = fresh; prefix_blocks = [] }))
            (created p)))

  after_write-Reported :
      (rf : RecvFile) (bytes : List ℕ) (w : SparseWrite) (r : Receiver)
      → Reported (after_write rf bytes w r).1
  unfolding after_write
  after_write-Reported rf bytes w r = elim (Option-cases w.fault) [
    | inl e ↦ rw e tt
    | inr (f, e) ↦ rw e (write_fail-IsReported f.no_space)
  ]

  write_file-Reported :
      (rf : RecvFile) (bytes : List ℕ) (ans : Answers) (r : Receiver)
      → Reported (write_file rf bytes ans r).1
  unfolding write_file
  write_file-Reported rf bytes ans r =
      let w = write_sparse ans.disk rf.written bytes rf.tail_hole rf.content in
      if-Reported (length bytes == 0) (r, fine rf) _ tt
        (if-Reported (ltb rf.plan.entry.size ((rf.written + length bytes) % 2 ^ 64))
          (abandon true rf r, fails (decline code_protocol_error protocol_error))
          (after_write rf bytes w r) protocol-IsReported (after_write-Reported rf bytes w r))

  check_file-Reported :
      (plain derive : List ℕ → List ℕ) (rf : RecvFile) (root : List ℕ) (ans : Answers)
      (r : Receiver)
      → Reported (check_file plain derive rf root ans r).1
  unfolding check_file
  check_file-Reported plain derive rf root ans r =
      if-Reported (not (rf.written == rf.plan.entry.size)) _ _ protocol-IsReported (
        if-Reported (not (bytes_eq (sum plain derive rf.hasher) root)) _ _ hash-IsReported (
          if-Reported rf.tail_hole _ (r, fine (record { plan = rf.plan; content = rf.content }))
            (if-Reported ans.extended
              (
                r,
                fine (record { plan = rf.plan; content = truncate rf.plan.entry.size rf.content }),
              )
              _ tt (write_fail-IsReported ans.no_space))
            tt))

  unless_failed-Reported : (ans : Answers) (x : Receiver × Bool) → Reported (unless_failed ans x).1
  unless_failed-Reported ans (r, true) = tt
  unless_failed-Reported ans (r, false) = write_fail-IsReported ans.no_space

  flush-Reported : (ans : Answers) (r : Receiver) → Reported (flush ans r).1
  unfolding flush
  flush-Reported ans r =
      let emptied : Receiver = record r { pending = []; pending_bytes = 0 } in
      if-Reported (length r.pending == 0) (emptied, fine tt) _ tt
        (if-Reported (not ans.synced) (keep_all r.pending emptied, fails (write_fail ans.no_space))
          (unless_failed ans (place_all ans r.pending emptied)) (write_fail-IsReported ans.no_space)
          (unless_failed-Reported ans (place_all ans r.pending emptied)))

  add-Reported : (ans : Answers) (pf : PendingFile) (r : Receiver) → Reported (add ans pf r).1
  unfolding add
  add-Reported ans pf r =
      let q : Receiver = record r {
        pending = r.pending ++ (pf ∷ []);
        pending_bytes = (r.pending_bytes + pf.plan.entry.size) % 2 ^ 64;
      } in
      if-Reported (leb commit_max_files (length q.pending) || leb commit_max_bytes q.pending_bytes)
        (flush ans q) (q, fine tt) (flush-Reported ans q) tt

  module _ (plain derive : List ℕ → List ℕ) where
    after_check-Reported :
        (seg : Segment) (ans : Answers) (s : Session) (x : Step PendingFile)
        → Reported x.1
        → Reported (after_check plain derive seg ans s x).1
    unfolding after_check
    after_check-Reported seg ans s (r, fails f) h = h
    after_check-Reported seg ans s (r, fine pf) h = by_add (add ans pf r) (add-Reported ans pf r)
      where
        by_add :
            (y : Step (Unit {0})) → Reported y.1 → Reported (after_commit plain derive seg s y).1
        by_add (q, fails f) k = unfold after_commit in k
        by_add (q, fine u) k = unfold after_commit in tt

    after_write_file-Reported :
        (seg : Segment) (ans : Answers) (s : Session) (x : Step RecvFile)
        → Reported x.1
        → Reported (after_write_file plain derive seg ans s x).1
    unfolding after_write_file
    after_write_file-Reported seg ans s (r, fails f) h = h
    after_write_file-Reported seg ans s (r, fine rf) h =
        if-Reported seg.at_eof _ (record s { receiver = r; cur = some rf }, fine tt)
          (after_check-Reported seg ans (record s { receiver = r; cur = none })
            (check_file plain derive rf seg.root_hash ans r)
            (check_file-Reported plain derive rf seg.root_hash ans r))
          tt

    after_open-Reported :
        (seg : Segment) (bytes : List ℕ) (ans : Answers) (s : Session) (x : Step RecvFile)
        → Reported x.1
        → Reported (after_open plain derive seg bytes ans s x).1
    unfolding after_open
    after_open-Reported seg bytes ans s (r, fails f) h = h
    after_open-Reported seg bytes ans s (r, fine rf) h =
        after_write_file-Reported seg ans s (write_file rf bytes ans r)
          (write_file-Reported rf bytes ans r)

    fill_open-Reported :
        (seg : Segment) (bytes : List ℕ) (ans : Answers) (p : EntryPlan) (s : Session)
        (o : Option RecvFile)
        → (ans.is_regular ≡ false → Irregular)
        → Reported (fill_open plain derive seg bytes ans p s o).1
    unfolding fill_open
    fill_open-Reported seg bytes ans p s none odd =
        after_open-Reported seg bytes ans s (open_file p seg.restart ans s.receiver)
          (open_file-Reported p seg.restart ans s.receiver odd)
    fill_open-Reported seg bytes ans p s (some rf) odd =
        if-Reported seg.restart (close_open true s, _) _ protocol-IsReported
          (after_write_file-Reported seg ans s (write_file rf bytes ans s.receiver)
            (write_file-Reported rf bytes ans s.receiver))

    take_segment-Reported :
        (seg : Segment) (bytes : List ℕ) (ans : Answers) (s : Session) (o : Option EntryPlan)
        → (ans.is_regular ≡ false → Irregular)
        → Reported (take_segment plain derive seg bytes ans s o).1
    unfolding take_segment fill_file
    take_segment-Reported seg bytes ans s none odd = listing-IsReported
    take_segment-Reported seg bytes ans s (some p) odd =
        if-Reported seg.skip _ _ tt (fill_open-Reported seg bytes ans p s s.cur odd)

    receive_segment-Reported :
        (seg : Segment) (bytes : List ℕ) (ans : Answers) (s : Session)
        → (ans.is_regular ≡ false → Irregular)
        → Reported (receive_segment plain derive seg bytes ans s).1
    unfolding receive_segment
    receive_segment-Reported seg bytes ans s odd =
        if-Reported _ (not_awaited s) _ listing-IsReported
          (take_segment-Reported seg bytes ans s (by_index seg.file_index s.plans) odd)

    segments-Reported :
        (ans : ℕ → Answers) (segs : List Segment) (bytes : List ℕ) (s : Session)
        → ((k : ℕ) → (ans k).is_regular ≡ false → Irregular)
        → Reported (receive_segments plain derive ans segs bytes s).1
    unfolding receive_segments
    segments-Reported ans [] bytes s odd = tt
    segments-Reported ans (seg ∷ segs) bytes s odd =
        by_result (receive_segment plain derive seg (take seg.len bytes) (ans 0) s)
          (receive_segment-Reported seg (take seg.len bytes) (ans 0) s (odd 0))
          (λ t. segments-Reported (λ k. ans (suc k)) segs (drop seg.len bytes) t (λ k. odd (suc k)))
      where
        by_result :
            (x : SessionStep)
            → Reported x.1
            → ((t : Session)
                → Reported
                    (receive_segments plain derive
                      (λ k. ans (suc k))
                      segs
                      (drop seg.len bytes)
                      t).1)
            → Reported
                (after_segment x.1 x.0 (
                  receive_segments plain derive (λ k. ans (suc k)) segs (drop seg.len bytes) x.0)).1
        by_result (t, fine u) h rest = rest t
        by_result (t, fails f) h rest = h

-- Whatever a chunk holds and whatever the system calls return: when its segments end the
-- transfer, the sender is told a code that it turns into the very error that the receiver shows;
-- or a partial is found to be no regular file, the sender is told of a protocol error, and the
-- receiver shows a failed write.
pub receive_segments-Reported :
    (plain derive : List ℕ → List ℕ) (ans : ℕ → Answers) (segs : List Segment) (bytes : List ℕ)
    (s : Session)
    → Reported
        ((k : ℕ) × ((ans k).is_regular ≡ false))
        (receive_segments plain derive ans segs bytes s).1
receive_segments-Reported plain derive ans segs bytes s =
    segments-Reported ((k : ℕ) × ((ans k).is_regular ≡ false)) plain derive ans segs bytes s
      (λ k e. (k, e))
