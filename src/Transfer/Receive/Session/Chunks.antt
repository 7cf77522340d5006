-- ===== src/Transfer/Receive/Session/Chunks.antt =====
-- Chunks keep the invariant of a receive (internal/transfer/recv.go: receiveData).
use fsend.Base.{ℕ, suc, ◌^◌, ◌<◌, ◌≡◌, inl, inr, arith}
use fsend.Base.{Bool, true, false, not, Bool-cases, none, some}
use fsend.Base.{
  List, [], ◌∷◌, if◌then◌else◌, ◌==◌, length, take, drop, All, length-take, length-drop,
}
use fsend.Wire.Chunk.{Segment}
use fsend.Transfer.Faults.{Fault, fine, fails}
use fsend.Transfer.Receive.{Answers}
use fsend.Transfer.Receive.Session.{Session, SessionStep, close_open}
use fsend.Transfer.Receive.Session.{receive_segment, receive_segments, after_segment}
use fsend.Transfer.Receive.Session.{
  Incoming, chunk, broken, interrupted, Ending, ReadFault, at_end, bad_frame, other, read_fault,
  receive_data, after_chunk, complete, failed, is_hash_mismatch,
}
use fsend.Transfer.Receive.Session.Verified.{
  Terms, Inv, close_open-Inv, Settled, Files-Settled, InvStep,
}
use fsend.Transfer.Faults.{cancelled, map_peer_error}
use fsend.Transfer.Receive.Session.Segments.{Fair, closed-InvStep, receive_segment-InvStep}

-- An end that is not looked at.
abbrev no_fault : Fault
no_fault = record { told = none; shown = cancelled }

module _ (c : Terms) where
  open c use {plain, derive, P, plans, open_to}

  module _ (small : All (λ p. p.entry.size < 2 ^ 63) plans) where
    -- The segments of a chunk with the bytes that they bring.
    receive_segments-InvStep :
        (ans : ℕ → Answers) (segs : List Segment) (bytes : List ℕ) (s : Session)
        → Inv c s
        → ((k : ℕ) → Fair c (ans k))
        → length bytes < 2 ^ 63
        → All (λ seg. seg.at_eof ≡ true → P seg.file_index seg.root_hash) segs
        → InvStep c (receive_segments plain derive ans segs bytes s)
    unfolding receive_segments
    receive_segments-InvStep ans [] bytes s v fair few named = v
    receive_segments-InvStep ans (seg ∷ segs) bytes s v fair few named =
        by_result (receive_segment plain derive seg (take seg.len bytes) (ans 0) s)
          (receive_segment-InvStep c small seg (take seg.len bytes) (ans 0) s v (fair 0)
            (record { few = omega (arith, length-take seg.len bytes); named = named.0 }))
          (λ t w.
            receive_segments-InvStep (λ k. ans (suc k)) segs (drop seg.len bytes) t w
              (λ k. fair (suc k)) (omega (arith, length-drop seg.len bytes)) named.1)
      where
        by_result :
            (x : SessionStep)
            → InvStep c x
            → ((t : Session)
                → Inv c t
                → InvStep c
                    (receive_segments plain derive (λ k. ans (suc k)) segs (drop seg.len bytes) t))
            → InvStep c (
                after_segment x.1 x.0
                  (receive_segments plain derive (λ k. ans (suc k)) segs (drop seg.len bytes) x.0))
        by_result (t, fine _) h rest = rest t h
        by_result (t, fails f) h rest = h

    read_fault-Settled :
        (f : ReadFault) (s : Session) → Inv c s → Settled c (read_fault f s).0.receiver
    unfolding read_fault
    read_fault-Settled (at_end none) s v = closed-InvStep c s no_fault v
    read_fault-Settled (at_end (some code)) s v =
        let k = close_open-Inv c (not (is_hash_mismatch (map_peer_error code))) s v in
        Files-Settled c _ _ k.files
    read_fault-Settled (bad_frame shown) s v = closed-InvStep c s no_fault v
    read_fault-Settled other s v = closed-InvStep c s no_fault v

    abbrev pub FairIn : Incoming → Type 0
    FairIn (chunk ans segs bytes) =
        ((k : ℕ) → Fair c (ans k))
        × (length bytes < 2 ^ 63)
        × All (λ seg. seg.at_eof ≡ true → P seg.file_index seg.root_hash) segs
    FairIn (broken f) = Unit {0}
    FairIn interrupted = Unit {0}

    Settled-if :
        (b : Bool) (s : Session) (x : Session × Ending)
        → Settled c s.receiver
        → Settled c x.0.receiver
        → Settled c (if b then (s, complete) else x).0.receiver
    Settled-if true s x h k = h
    Settled-if false s x h k = k

    pub receive_data-Settled :
        (ins : List Incoming) (s : Session)
        → Inv c s
        → All FairIn ins
        → Settled c (receive_data plain derive ins s).0.receiver
    unfolding receive_data
    receive_data-Settled [] s v h = elim (Bool-cases (s.expected == 0)) [
      | inl e ↦ rw e (Files-Settled c s.finished s.receiver v.files)
      | inr e ↦ rw e (Files-Settled c s.finished s.receiver v.files)
    ]
    receive_data-Settled (broken f ∷ ins) s v h =
        Settled-if (s.expected == 0) s ((read_fault f s).0, failed (read_fault f s).1)
          (Files-Settled c s.finished s.receiver v.files) (read_fault-Settled f s v)
    receive_data-Settled (interrupted ∷ ins) s v h =
        Settled-if (s.expected == 0) s
          (close_open true s, failed (record { told = none; shown = cancelled }))
          (Files-Settled c s.finished s.receiver v.files) (closed-InvStep c s no_fault v)
    receive_data-Settled (chunk ans segs bytes ∷ ins) s v h =
        let x = receive_segments plain derive ans segs bytes s in
        Settled-if (s.expected == 0) s (after_chunk x.1 x.0 (receive_data plain derive ins x.0))
          (Files-Settled c s.finished s.receiver v.files)
          (by_result x (receive_segments-InvStep ans segs bytes s v h.0.0 h.0.1 h.0.2)
            (λ t w. receive_data-Settled ins t w h.1))
      where
        by_result :
            (x : SessionStep)
            → InvStep c x
            → ((t : Session) → Inv c t → Settled c (receive_data plain derive ins t).0.receiver)
            → Settled c (after_chunk x.1 x.0 (receive_data plain derive ins x.0)).0.receiver
        by_result (t, fine _) k rest = rest t k
        by_result (t, fails f) k rest = k
