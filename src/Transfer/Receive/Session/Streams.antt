-- ===== src/Transfer/Receive/Session/Streams.antt =====
-- A file that is sent whole is received (internal/transfer/recv.go: receiveData).
use fsend.Base.{ℕ, suc, ◌-◌, ◌^◌, ◌<◌, ◌≡◌, ◌≢◌, refl, sym, ap, subst, ◌∙◌, arith}
use fsend.Base.{true, false, Option, none, some, length-append}
use fsend.Base.{List, [], ◌∷◌, ◌++◌, append_assoc, if◌then◌else◌, ◌==◌, length, take, drop}
use fsend.Wire.Chunk.{Segment}
use fsend.Transfer.HashTree.{bytes_root}
use fsend.Transfer.Plan.{EntryPlan, is_resume}
use fsend.Transfer.Receive.{RecvFile, Answers}
use fsend.Transfer.Receive.Session.{Session}
use fsend.Transfer.Receive.Session.{
  after_chunk, receive_segments, Incoming, chunk, Ending, receive_data,
}
use fsend.Transfer.Receive.Session.Delivery.{Works, held}
use fsend.Transfer.Receive.Session.Arrival.{Carries, Ready, middle, ended, last}

-- A place in the stream: the segments and bytes that are left of a chunk, with what the system
-- answers to them, and the chunks behind.
pub data Place : Type 0 where
  in_stream : (ℕ → Answers) → List Segment → List ℕ → List Incoming → Place

-- The rest of the session from a place on.
abbrev pub receive_from : (List ℕ → List ℕ) → (List ℕ → List ℕ) → Place → Session → Session × Ending
receive_from plain derive (in_stream ans segs bytes ins) s =
    let (t, o) = receive_segments plain derive ans segs bytes s in
    after_chunk o t (receive_data plain derive ins t)

module _ (p : EntryPlan) where
  -- Between two places of the stream a file is sent, with this content and this root hash: in
  -- segments and chunks cut anywhere, where segments of other files stand before and behind it in
  -- the chunks in which it starts and ends. No system call fails at its segments.
  pub data Sent (root : List ℕ) : List ℕ → Place → Place → Type 0 where
    piece :
        (seg : Segment) (later : List ℕ) {content bytes : List ℕ} {ans : ℕ → Answers}
        {segs : List Segment} {ins : List Incoming} {to : Place}
        → Carries p seg
        → seg.at_eof ≡ false
        → Works (ans 0)
        → content ≡ take seg.len bytes ++ later
        → Sent root later (in_stream (λ k. ans (suc k)) segs (drop seg.len bytes) ins) to
        → Sent root content (in_stream ans (seg ∷ segs) bytes ins) to
    end :
        (seg : Segment) {content bytes : List ℕ} {ans : ℕ → Answers} {segs : List Segment}
        {ins : List Incoming} {to : Place}
        → Carries p seg
        → seg.at_eof ≡ true
        → Works (ans 0)
        → content ≡ take seg.len bytes
        → seg.root_hash ≡ root
        → to ≡ in_stream (λ k. ans (suc k)) segs (drop seg.len bytes) ins
        → Sent root content (in_stream ans (seg ∷ segs) bytes ins) to
    on_chunk :
        {content bytes left : List ℕ} {ans before : ℕ → Answers} {segs : List Segment}
        {ins : List Incoming} {to : Place}
        → Sent root content (in_stream ans segs bytes ins) to
        → Sent root content (in_stream before [] left (chunk ans segs bytes ∷ ins)) to

  -- From the session `s` to `t` the file is received with this content: it is committed behind those
  -- before it, it is finished and no other file is, and one file less is expected.
  pub record IsReceived (content : List ℕ) (s t : Session) : Type 0 where
    pub committed :
        held t.receiver ≡ held s.receiver ++ (record { plan = p; content = content } ∷ [])
    pub one_less : t.expected ≡ s.expected - 1
    pub shut : t.cur ≡ none
    pub marked : (i : ℕ) → t.finished i ≡ (if p.entry.index == i then true else s.finished i)
    pub same_plans : t.plans ≡ s.plans
    pub same_open : t.open_to ≡ s.open_to

  -- The same from a session of which only the open file differs.
  IsReceived-cur :
      (content : List ℕ) (s t : Session) {o : Option RecvFile}
      → IsReceived content (record s { cur = o }) t
      → IsReceived content s t
  IsReceived-cur content s t got = record {
    committed = got.committed;
    one_less = got.one_less;
    shut = got.shut;
    marked = got.marked;
    same_plans = got.same_plans;
    same_open = got.same_open;
  }

module _ (plain derive : List ℕ → List ℕ) (p : EntryPlan) where
  module _ (new : is_resume p.disp ≡ false) (small : p.entry.size < 2 ^ 63) where
    delivers :
        (root content received : List ℕ) (from to : Place) (s : Session)
        → Sent p root content from to
        → Ready plain derive p received s
        → s.expected ≢ 0
        → length (received ++ content) ≡ p.entry.size
        → bytes_root plain derive (received ++ content) ≡ root
        → (t : Session) × (receive_from plain derive from s ≡ receive_from plain derive to t)
          × IsReceived p (received ++ content) s t
    unfolding receive_segments receive_data
    delivers root content received from to s (on_chunk later) v more size hash =
        let wait : (s.expected == 0) ≡ false = ground arith in
        let (t, runs, got) = delivers root content received _ to s later v more size hash in
        (t, rw wait runs, got)
    delivers root content received from to s
          (piece seg later {bytes = bytes} {ans = ans} c e w cut sent) v more size hash =
        let cuts : received ++ content ≡ (received ++ take seg.len bytes) ++ later =
          ap (λ l. received ++ l) cut ∙ sym (append_assoc received (take seg.len bytes) later) in
        let (g, runs, ready) =
          middle plain derive p new small seg (take seg.len bytes) received (ans 0) s c e w v (
            omega (
              arith,
              size,
              ap length cuts,
              length-append (received ++ take seg.len bytes) later,
              length-append received (take seg.len bytes),
            )) in
        let (t, rest, got) =
          delivers root later (received ++ take seg.len bytes) _ to (record s { cur = some g }) sent
            ready more (sym (ap length cuts) ∙ size)
            (sym (ap (bytes_root plain derive) cuts) ∙ hash) in
        (t, rw runs rest, subst (λ b. IsReceived p b s t) (sym cuts) (IsReceived-cur p _ s t got))
    delivers root content received from to s
          (end seg {bytes = bytes} {ans = ans} {segs = segs} {ins = ins} c e w cut same at) v more
          size hash =
        let (q, runs, holds) =
          last plain derive p new small seg (take seg.len bytes) received (ans 0) s c e w v
            (ap (λ l. length (received ++ l)) (sym cut) ∙ size)
            (ap (λ l. bytes_root plain derive (received ++ l)) (sym cut) ∙ hash ∙ sym same) in
        (
          ended plain derive p new small seg q s,
          rw (at, runs) refl,
          record {
            committed = rw cut holds;
            one_less = refl;
            shut = refl;
            marked = λ i. ap (λ (j : ℕ). if j == i then true else s.finished i) c.file;
            same_plans = refl;
            same_open = refl;
          },
        )

    -- A new file that is sent whole, in segments and chunks cut anywhere, also where it shares
    -- its first and last chunk with other files, is received whole where at its segments no
    -- system call fails and no folder with files stands at a target that is tried: it is
    -- committed behind those before it, with exactly the bytes that were sent, it alone becomes
    -- finished, one file less is expected, and the session goes on with no file open at the
    -- segment behind the file's last one. Before it no byte of it was received and no file is
    -- open, and it is listed, let in and not finished; its size is below 2^63 and that of the
    -- bytes sent, and the root hash of the last segment is that of these bytes.
    pub receive_data-held :
        (root content : List ℕ) (from to : Place) (s : Session)
        → Sent p root content from to
        → Ready plain derive p [] s
        → s.expected ≢ 0
        → length content ≡ p.entry.size
        → bytes_root plain derive content ≡ root
        → (t : Session) × (receive_from plain derive from s ≡ receive_from plain derive to t)
          × IsReceived p content s t
    receive_data-held root content = delivers root content []
