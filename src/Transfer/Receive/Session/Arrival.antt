-- ===== src/Transfer/Receive/Session/Arrival.antt =====
-- One segment of a file that is sent whole (internal/transfer/recv.go: receiveData).
use fsend.Base.{ℕ, ◌+◌, ◌-◌, ◌^◌, ◌≤◌, ◌<◌, ◌≡◌, ◌⊎◌, refl, sym, ap, subst, ◌∙◌, inl, inr, arith}
use fsend.Base.{Bool, true, false, not, none, some}
use fsend.Base.{List, [], ◌∷◌, ◌++◌, if◌then◌else◌, ==_refl, ◌==◌, length, length-append}
use fsend.Wire.Chunk.{Segment}
use fsend.Transfer.HashTree.{bytes_root}
use fsend.Transfer.Plan.{EntryPlan, is_resume}
use fsend.Transfer.Faults.{fine}
use fsend.Transfer.Receive.{
  RecvFile, Answers, PendingFile, Receiver, new_file, open_file, create_partial,
}
use fsend.Transfer.Receive.Session.{by_index, Session, is_other, mark}
use fsend.Transfer.Receive.Session.{
  after_commit, after_check, after_write_file, after_open, fill_open, fill_file, take_segment,
  receive_segment,
}
use fsend.Transfer.Receive.Session.Writing.{Receiving, new_file-Receiving}
use fsend.Transfer.Receive.Session.Delivery.{
  Works, write_file-fine, check_file-fine, held, add-fine,
}

same_pending :
    (pf : PendingFile) (q : EntryPlan) (c : List ℕ)
    → pf.plan ≡ q
    → pf.content ≡ c
    → pf ≡ record { plan = q; content = c }
same_pending pf q c e f = λ i. record { plan = e i; content = f i }

module _ (p : EntryPlan) where
  -- A segment of the entry's file with content.
  pub record Carries (seg : Segment) : Type 0 where
    pub file : seg.file_index ≡ p.entry.index
    pub not_skipped : seg.skip ≡ false
    pub not_restarted : seg.restart ≡ false

module _ (plain derive : List ℕ → List ℕ) (p : EntryPlan) where
  -- The session has received these bytes of the entry's file, and waits for more.
  pub record Ready (received : List ℕ) (s : Session) : Type 0 where
    pub let_in : s.open_to p.entry.index ≡ true
    pub unfinished : s.finished p.entry.index ≡ false
    pub listed : by_index p.entry.index s.plans ≡ some p
    pub under_way :
        ((s.cur ≡ none) × (received ≡ []))
        ⊎ ((rf : RecvFile) × (s.cur ≡ some rf) × Receiving plain received rf × (rf.plan ≡ p))

  module _ (new : is_resume p.disp ≡ false) (small : p.entry.size < 2 ^ 63) where
    open_new :
        (restart : Bool) (ans : Answers) (r : Receiver)
        → restart ≡ false
        → Works ans
        → open_file p restart ans r ≡ (r, fine (new_file p))
    unfolding open_file create_partial
    open_new restart ans r e w = ground (arith, w.opened)

    arrives :
        (seg : Segment) (bytes : List ℕ) (ans : Answers) (s : Session)
        → Carries p seg
        → s.open_to p.entry.index ≡ true
        → s.finished p.entry.index ≡ false
        → by_index p.entry.index s.plans ≡ some p
        → is_other s.cur p.entry.index ≡ false
        → receive_segment plain derive seg bytes ans s
          ≡ fill_open plain derive seg bytes ans p s s.cur
    unfolding receive_segment take_segment fill_file
    arrives seg bytes ans s c let_in unfinished listed same =
        let i = p.entry.index in
        rw (c.file, listed, c.not_skipped) (ground (arith, let_in, unfinished, same))

    same_file : (q : EntryPlan) → q ≡ p → not (q.entry.index == p.entry.index) ≡ false
    same_file q e = rw e (ap not (==_refl p.entry.index))

    -- A segment writes to the file.
    writes :
        (seg : Segment) (bytes received : List ℕ) (ans : Answers) (s : Session)
        → Carries p seg
        → Works ans
        → Ready received s
        → length received + length bytes ≤ p.entry.size
        → (g : RecvFile) × (receive_segment plain derive seg bytes ans s
            ≡ after_write_file plain derive seg ans s (s.receiver, fine g))
          × Receiving plain (received ++ bytes) g
          × (g.plan ≡ p)
    unfolding fill_open after_open
    writes seg bytes received ans s c w v fits = elim v.under_way [
      | inl (shut, start) ↦
          let fresh = new_file-Receiving plain p in
          let (g, e, (k, q)) =
            write_file-fine plain derive (new_file p) bytes [] ans s.receiver w small (omega arith)
              fresh in
          let opened = open_new seg.restart ans s.receiver c.not_restarted w in
          (
            g,
            arrives seg bytes ans s c v.let_in v.unfinished v.listed (rw shut refl)
                ∙ ap (fill_open plain derive seg bytes ans p s) shut
                ∙ ap (after_open plain derive seg bytes ans s) opened
                ∙ ap (after_write_file plain derive seg ans s) e,
            subst (λ x. Receiving plain (x ++ bytes) g) (sym start) k,
            q,
          )
      | inr (rf, opened, holds, plan) ↦
          let (g, e, (k, q)) =
            write_file-fine plain derive rf bytes received ans s.receiver w (rw plan small)
              (rw plan fits) holds in
          (
            g,
            arrives seg bytes ans s c v.let_in v.unfinished v.listed
                  (ap (λ o. is_other o p.entry.index) opened ∙ same_file rf.plan plan)
                ∙ ap (fill_open plain derive seg bytes ans p s) opened
                ∙ (rw c.not_restarted refl)
                ∙ ap (after_write_file plain derive seg ans s) e,
            k,
            q ∙ plan,
          )
    ]

    -- A segment that does not end the file.
    pub middle :
        (seg : Segment) (bytes received : List ℕ) (ans : Answers) (s : Session)
        → Carries p seg
        → seg.at_eof ≡ false
        → Works ans
        → Ready received s
        → length received + length bytes ≤ p.entry.size
        → (g : RecvFile) × (receive_segment plain derive seg bytes ans s
            ≡ (record s { cur = some g }, fine tt))
          × Ready (received ++ bytes) (record s { cur = some g })
    unfolding after_write_file
    middle seg bytes received ans s c e w v fits =
        let (g, runs, k, q) = writes seg bytes received ans s c w v fits in
        (
          g,
          runs ∙ (rw e refl),
          record {
            let_in = v.let_in;
            unfinished = v.unfinished;
            listed = v.listed;
            under_way = inr (g, refl, k, q);
          },
        )

    -- The session after the end of the file; `q` is its receiver.
    abbrev pub ended : Segment → Receiver → Session → Session
    ended seg q s = record s {
      receiver = q;
      cur = none;
      finished = mark seg.file_index s.finished;
      expected = s.expected - 1;
      changed = if seg.changed then s.changed ++ (seg.file_index ∷ []) else s.changed;
    }

    pub last :
        (seg : Segment) (bytes received : List ℕ) (ans : Answers) (s : Session)
        → Carries p seg
        → seg.at_eof ≡ true
        → Works ans
        → Ready received s
        → length (received ++ bytes) ≡ p.entry.size
        → bytes_root plain derive (received ++ bytes) ≡ seg.root_hash
        → (q : Receiver) × (receive_segment plain derive seg bytes ans s ≡ (ended seg q s, fine tt))
          × (held q ≡ held s.receiver ++ (record { plan = p; content = received ++ bytes } ∷ []))
    unfolding after_write_file after_check after_commit
    last seg bytes received ans s c e w v size root =
        let (g, runs, k, plan) =
          writes seg bytes received ans s c w v (omega (arith, length-append received bytes)) in
        let (pf, checks, (content, same)) =
          check_file-fine plain derive g seg.root_hash (received ++ bytes) ans s.receiver w
            (rw plan size) root k in
        let (q, adds, holds) = add-fine ans pf s.receiver w in
        let whole : pf ≡ record { plan = p; content = received ++ bytes } =
          same_pending pf p (received ++ bytes) (same ∙ plan) content in
        (q, runs ∙ (rw (e, checks, adds) refl), rw (← whole) holds)
