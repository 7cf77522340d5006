-- ===== src/Transfer/Receive/Session/Segments.antt =====
-- A segment keeps the invariant of a receive (internal/transfer/recv.go: receiveData).
use fsend.Base.{ℕ, ◌^◌, ◌<◌, ◌≡◌, refl, sym, ap, subst, ◌∙◌, inl, inr, arith}
use fsend.Base.{
  Bool, true, false, not, ◌||◌, Bool-cases, Option, none, some, none_is_not_some, some_inj,
}
use fsend.Base.{List, [], ◌∷◌, ◌++◌, ◌==◌, length, All}
use fsend.Wire.Chunk.{Segment}
use fsend.Transfer.Plan.{EntryPlan, is_resume}
use fsend.Transfer.Faults.{Fault, fine, fails}
use fsend.Transfer.Receive.{RecvFile, Answers, Receiver, Step, open_file, write_file}
use fsend.Transfer.Receive.Session.{by_index, Session, close_open, is_other, mark, skip_segment}
use fsend.Transfer.Receive.Session.{
  after_write_file, after_open, fill_open, fill_file, not_awaited, take_segment, receive_segment,
}
use fsend.Transfer.Receive.Session.Writing.{
  Receiving, IsPrefix, OnSuccess, OnSuccess-map, Opened, open_file-Opened, write_file-Receiving,
}
use fsend.Transfer.Receive.Session.Unchanged.{open_file-Same, write_file-Same}
use fsend.Transfer.Receive.Session.Verified.{
  Terms, IsPlanned, Awaited, AwaitedIf, Files, Inv, Same-Files, mark-Files, close_open-Inv,
  close_open-cur, Files-Settled, InvStep, InvStep-if, Between, after_write_file-InvStep,
}
use fsend.Transfer.Faults.{decline, code_protocol_error, code_listing_invalid, protocol_error}

module _ (c : Terms) where
  open c use {plain, derive, P, plans, open_to}

  -- What a segment brings, at what the system calls return.
  pub record Fair (ans : Answers) : Type 0 where
    pub prefixes : All (λ p. is_resume p.disp ≡ true → IsPrefix plain p ans.partial) plans

  pub record Brings (seg : Segment) (bytes : List ℕ) : Type 0 where
    pub few : length bytes < 2 ^ 63
    pub named : seg.at_eof ≡ true → P seg.file_index seg.root_hash

  -- Writing to a file that is awaited.
  write-Awaited :
      (finished : ℕ → Bool) (rf : RecvFile) (i : ℕ) (bytes : List ℕ) (ans : Answers) (r : Receiver)
      → length bytes < 2 ^ 63
      → rf.plan.entry.index ≡ i
      → Awaited c finished rf
      → OnSuccess
          (λ g. Awaited c finished g × (g.plan.entry.index ≡ i))
          (write_file rf bytes ans r).1
  write-Awaited finished rf i bytes ans r few e v =
      OnSuccess-map (λ g. Receiving plain (v.received ++ bytes) g × (g.plan ≡ rf.plan))
        (λ g. Awaited c finished g × (g.plan.entry.index ≡ i)) (write_file rf bytes ans r).1
        (λ g h. (
          record {
            received = v.received ++ bytes;
            holds = h.0;
            let_in = rw h.1 v.let_in;
            planned = subst (IsPlanned c) (sym h.1) v.planned;
            unfinished = rw h.1 v.unfinished;
            small = rw h.1 v.small;
          },
          ap (λ q. q.entry.index) h.1 ∙ e,
        ))
        (write_file-Receiving plain rf bytes v.received ans r v.small few v.holds)

  after_open-InvStep :
      (seg : Segment) (bytes : List ℕ) (ans : Answers) (s : Session) (x : Step RecvFile)
      → Between c (record s { cur = none })
      → Files c s.finished x.0
      → s.finished seg.file_index ≡ false
      → Brings seg bytes
      → s.cur ≡ none
      → OnSuccess (λ rf. Awaited c s.finished rf × (rf.plan.entry.index ≡ seg.file_index)) x.1
      → InvStep c (after_open plain derive seg bytes ans s x)
  unfolding after_open
  after_open-InvStep seg bytes ans s (r, fails f) b h new g shut v = Files-Settled c s.finished r h
  after_open-InvStep seg bytes ans s (r, fine rf) b h new g shut v =
      after_write_file-InvStep c seg ans s (write_file rf bytes ans r) b
        (Same-Files c s.finished r (write_file rf bytes ans r).0 (write_file-Same rf bytes ans r) h)
        new g.named (write-Awaited s.finished rf seg.file_index bytes ans r g.few v.1 v.0)

  -- The plan of an entry.
  by_index-at :
      (i : ℕ) (ps : List EntryPlan) (p : EntryPlan) → by_index i ps ≡ some p → p.entry.index ≡ i
  unfolding by_index
  by_index-at i [] p e = absurd (none_is_not_some e)
  by_index-at i (q ∷ ps) p e = elim (Bool-cases (q.entry.index == i)) [
    | inl h ↦ subst (λ u. u.entry.index ≡ i) (some_inj (rw h at e)) (ground arith)
    | inr h ↦ by_index-at i ps p (rw h at e)
  ]

  by_index-All :
      (V : EntryPlan → Type 0) (i : ℕ) (ps : List EntryPlan) (p : EntryPlan)
      → by_index i ps ≡ some p
      → All V ps
      → V p
  unfolding by_index
  by_index-All V i [] p e h = absurd (none_is_not_some e)
  by_index-All V i (q ∷ ps) p e h = elim (Bool-cases (q.entry.index == i)) [
    | inl z ↦ subst V (some_inj (rw z at e)) h.0
    | inr z ↦ by_index-All V i ps p (rw z at e) h.1
  ]

  pub closed-InvStep : (s : Session) (f : Fault) → Inv c s → InvStep c (close_open true s, fails f)
  closed-InvStep s f v =
      let k = close_open-Inv c true s v in
      Files-Settled c (close_open true s).finished (close_open true s).receiver k.files

  module _ (small : All (λ p. p.entry.size < 2 ^ 63) plans) where
    open-Awaited :
        (finished : ℕ → Bool) (p : EntryPlan) (i : ℕ) (restart : Bool) (ans : Answers)
        (r : Receiver)
        → by_index i plans ≡ some p
        → open_to i ≡ true
        → finished i ≡ false
        → Fair ans
        → OnSuccess
            (λ rf. Awaited c finished rf × (rf.plan.entry.index ≡ i))
            (open_file p restart ans r).1
    open-Awaited finished p i restart ans r found let_in new fair =
        let at = by_index-at i plans p found in
        OnSuccess-map (Opened plain p) (λ rf. Awaited c finished rf × (rf.plan.entry.index ≡ i))
          (open_file p restart ans r).1
          (λ rf o.
            (let same : rf.plan.entry.index ≡ i = ap (λ e. e.index) o.2 ∙ at in
              (
                record {
                  received = o.0;
                  holds = o.1;
                  let_in = rw same let_in;
                  planned = (p, ap (λ j. by_index j plans) same ∙ found, o.2);
                  unfinished = rw same new;
                  small = rw o.2 (by_index-All (λ p. p.entry.size < 2 ^ 63) i plans p found small);
                },
                same,
              )))
          (open_file-Opened plain p restart ans r (
            by_index-All (λ q. is_resume q.disp ≡ true → IsPrefix plain q ans.partial) i plans p
              found fair.prefixes))

    fill_file-InvStep :
        (seg : Segment) (bytes : List ℕ) (ans : Answers) (p : EntryPlan) (s : Session)
        → Inv c s
        → by_index seg.file_index plans ≡ some p
        → open_to seg.file_index ≡ true
        → s.finished seg.file_index ≡ false
        → is_other s.cur seg.file_index ≡ false
        → Fair ans
        → Brings seg bytes
        → InvStep c (fill_file plain derive seg bytes ans p s)
    unfolding fill_file
    fill_file-InvStep seg bytes ans p s v found let_in new same fair g =
        by_cur s.cur refl v.cur_ok same
      where
        by_cur :
            (o : Option RecvFile)
            → s.cur ≡ o
            → AwaitedIf c s.finished o
            → is_other o seg.file_index ≡ false
            → InvStep c (fill_open plain derive seg bytes ans p s o)
        by_cur none e h o =
            after_open-InvStep seg bytes ans s (open_file p seg.restart ans s.receiver)
              (record { same_plans = v.same_plans; same_open = v.same_open; closed = refl })
              (Same-Files c s.finished s.receiver _ (open_file-Same p seg.restart ans s.receiver)
                v.files)
              new g e
              (open-Awaited s.finished p seg.file_index seg.restart ans s.receiver found let_in new
                fair)
        by_cur (some rf) e h o =
            InvStep-if c seg.restart
              (close_open true s, fails (decline code_protocol_error protocol_error))
              (after_write_file plain derive seg ans s (write_file rf bytes ans s.receiver))
              (λ z. closed-InvStep s (decline code_protocol_error protocol_error) v)
              (λ z.
                after_write_file-InvStep c seg ans s (write_file rf bytes ans s.receiver)
                  (record { same_plans = v.same_plans; same_open = v.same_open; closed = refl })
                  (Same-Files c s.finished s.receiver _ (write_file-Same rf bytes ans s.receiver)
                    v.files)
                  new g.named
                  (write-Awaited s.finished rf seg.file_index bytes ans s.receiver g.few
                    (ground arith) h))

    skip_segment-Inv : (i : ℕ) (s : Session) → Inv c s → Inv c (skip_segment i s)
    unfolding skip_segment
    skip_segment-Inv i s v =
        let k = close_open-Inv c false s v in
        record {
          same_plans = k.same_plans;
          same_open = k.same_open;
          cur_ok =
              subst (AwaitedIf c (mark i (close_open false s).finished))
                (sym (close_open-cur false s)) tt;
          files =
              mark-Files c i (close_open false s).finished (close_open false s).receiver k.files;
        }

    pub receive_segment-InvStep :
        (seg : Segment) (bytes : List ℕ) (ans : Answers) (s : Session)
        → Inv c s
        → Fair ans
        → Brings seg bytes
        → InvStep c (receive_segment plain derive seg bytes ans s)
    unfolding receive_segment take_segment
    receive_segment-InvStep seg bytes ans s v fair g =
        let i = seg.file_index in
        InvStep-if c (not (s.open_to i) || (s.finished i || is_other s.cur i)) (not_awaited s)
          (take_segment plain derive seg bytes ans s (by_index i s.plans))
          (λ e. closed-InvStep s (decline code_listing_invalid protocol_error) v)
          (λ e. by_plan (by_index i s.plans) refl (ground arith) (ground arith) (ground arith))
      where
        by_plan :
            (o : Option EntryPlan)
            → by_index seg.file_index s.plans ≡ o
            → s.open_to seg.file_index ≡ true
            → s.finished seg.file_index ≡ false
            → is_other s.cur seg.file_index ≡ false
            → InvStep c (take_segment plain derive seg bytes ans s o)
        by_plan none e let_in new same =
            closed-InvStep s (decline code_listing_invalid protocol_error) v
        by_plan (some p) e let_in new same =
            InvStep-if c seg.skip (skip_segment seg.file_index s, fine tt)
              (fill_file plain derive seg bytes ans p s) (λ z. skip_segment-Inv seg.file_index s v)
              (λ z.
                fill_file-InvStep seg bytes ans p s v (rw (← v.same_plans) e)
                  (rw (← v.same_open) let_in) new same fair g)
