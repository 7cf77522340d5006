-- ===== src/Transfer/ReceiveTests.antt =====
-- A small receive of internal/transfer, and the theorems on it at concrete inputs.
use fsend.Base.{
  ℕ, ◌≡◌, ◌≤◌, refl, inl, arith, Bool, true, false, none, some, List, [], ◌∷◌, if◌then◌else◌,
}
use fsend.Wire.Chunk.{Segment, zero_hash}
use fsend.Transfer.HashTree.{bytes_root}
use fsend.Transfer.Sparse.{write_sparse, extend}
use fsend.Transfer.Sparse.Writing.{Stands, write_sparse-Stands}
use fsend.Transfer.Plan.{
  needs_consent, apply_replace, refuse_full_dir, plan_to_decision, decide, ListingEntry, file,
  EntryPlan, plan_of, fresh, differs, decisions, decision, send,
}
use fsend.Transfer.Plan.Summary.{
  go_ahead, summarize, tally, tally_disp, count_differing, conflicts, under_any, fits,
}
use fsend.Transfer.Plan.Space.{moved, go_ahead-moved}
use fsend.Transfer.Receive.{Answers, free_or_file}
use fsend.Transfer.Receive.Session.{
  allowed, by_index, expected_files, Incoming, chunk, Session, start, receive_segments,
}
use fsend.Transfer.Receive.Session.Reported.{Reported, receive_segments-Reported}
use fsend.Transfer.Receive.Session.Delivery.{Works, write_sparse-fine}
use fsend.Transfer.Receive.Session.Arrival.{Carries, Ready}
use fsend.Transfer.Receive.Session.Streams.{
  Place, in_stream, receive_from, Sent, piece, end, on_chunk, IsReceived, receive_data-held,
}

abbrev same_bytes : List ℕ → List ℕ
same_bytes b = b

abbrev works : Answers
works = record {
  is_regular = true;
  opened = true;
  partial = [];
  resized = true;
  disk = λ n. none;
  extended = true;
  synced = true;
  slot = λ t. free_or_file;
  moved = λ t. true;
  no_space = false;
}

works-Works : Works works
works-Works = record {
  opened = refl;
  disk = λ n. refl;
  extended = refl;
  synced = refl;
  slot = λ t. refl;
  moved = λ t. refl;
}

abbrev entry : ListingEntry
entry = record {
  index = 0;
  relative_path = "a.txt";
  size = 5;
  mod_time_sec = 7;
  mode = 420;
  typ = file;
  symlink_target = "";
}

abbrev plan : EntryPlan
plan = plan_of entry "a.txt" "/in/a.txt" fresh

abbrev bytes : List ℕ
bytes = 1 ∷ 2 ∷ 3 ∷ 4 ∷ 5 ∷ []

abbrev root : List ℕ
root = bytes_root same_bytes same_bytes bytes

abbrev segment : ℕ → Bool → Segment
segment len at_eof = record {
  file_index = 0;
  len = len;
  at_eof = at_eof;
  skip = false;
  restart = false;
  changed = false;
  root_hash = if at_eof then root else zero_hash;
}

abbrev first : Incoming
first = chunk (λ k. works) (segment 2 false ∷ []) (1 ∷ 2 ∷ [])

abbrev second : Incoming
second = chunk (λ k. works) (segment 1 false ∷ segment 2 true ∷ []) (3 ∷ 4 ∷ 5 ∷ [])

abbrev begun : Session
begun = start (plan ∷ []) (decisions same_bytes false (plan ∷ []))

carries : (at_eof : Bool) (len : ℕ) → Carries plan (segment len at_eof)
carries at_eof len = record { file = refl; not_skipped = refl; not_restarted = refl }

ready : Ready same_bytes same_bytes plan [] begun
unfolding allowed by_index decisions plan_to_decision decide
ready = record { let_in = refl; unfinished = refl; listed = refl; under_way = inl (refl, refl) }

one_expected : begun.expected ≡ 1
unfolding expected_files decisions plan_to_decision decide
one_expected = refl

-- The file's last segments, with the first byte of another file behind them.
abbrev shared : Incoming
shared =
    chunk (λ k. works)
      (segment 1 false ∷ segment 2 true ∷ record (segment 1 false) { file_index = 1 } ∷ [])
      (3 ∷ 4 ∷ 5 ∷ 6 ∷ [])

abbrev at_first : Place
at_first = in_stream (λ k. works) [] [] (first ∷ shared ∷ [])

abbrev at_other : Place
at_other = in_stream (λ k. works) (record (segment 1 false) { file_index = 1 } ∷ []) (6 ∷ []) []

sent : Sent plan root bytes at_first at_other
sent = on_chunk (
    piece (segment 2 false) (3 ∷ 4 ∷ 5 ∷ []) (carries false 2) refl works-Works refl (
      on_chunk (
        piece (segment 1 false) (4 ∷ 5 ∷ []) (carries false 1) refl works-Works refl
          (end (segment 2 true) (carries true 2) refl works-Works refl refl refl))))

receive_data-held_example :
    (t : Session) × (receive_from same_bytes same_bytes at_first begun
      ≡ receive_from same_bytes same_bytes at_other t)
    × IsReceived plan bytes begun t
receive_data-held_example =
    receive_data-held same_bytes same_bytes plan refl (omega arith) root bytes at_first at_other
      begun sent ready (λ z. absurd (omega (arith, one_expected))) refl refl

receive_segments-Reported_example :
    Reported
      ((k : ℕ) × (works.is_regular ≡ false))
      (receive_segments same_bytes same_bytes
        (λ k. works)
        (segment 9 true ∷ [])
        (1 ∷ 2 ∷ 3 ∷ 4 ∷ 5 ∷ 6 ∷ 7 ∷ 8 ∷ 9 ∷ [])
        begun).1
receive_segments-Reported_example =
    receive_segments-Reported same_bytes same_bytes (λ k. works) (segment 9 true ∷ [])
      (1 ∷ 2 ∷ 3 ∷ 4 ∷ 5 ∷ 6 ∷ 7 ∷ 8 ∷ 9 ∷ []) begun

write_sparse-Stands_example :
    Stands
      (9 ∷ 8 ∷ 7 ∷ [])
      (write_sparse (λ n. none) 1 (8 ∷ 7 ∷ []) false (9 ∷ [])).content
      (write_sparse (λ n. none) 1 (8 ∷ 7 ∷ []) false (9 ∷ [])).tail_hole
write_sparse-Stands_example =
    write_sparse-Stands (λ n. none) (9 ∷ []) (8 ∷ 7 ∷ []) (9 ∷ []) false
      (record { short = omega arith; read = unfold extend in refl; exact = λ z. refl })
      (write_sparse-fine (λ n. none) 1 (8 ∷ 7 ∷ []) false (9 ∷ []) (λ n. refl))

abbrev other : EntryPlan
other = record (plan_of (record entry { index = 1; size = 3 }) "b.txt" "/in/b.txt" differs) {
  non_empty_dir = false;
}

goes_ahead :
    go_ahead same_bytes (some 8) true (plan ∷ other ∷ [])
    ≡ some (plan ∷ other ∷ [], decision 0 send false ∷ decision 1 send false ∷ [])
unfolding go_ahead summarize tally tally_disp count_differing conflicts under_any fits needs_consent
    apply_replace refuse_full_dir decisions plan_to_decision decide
goes_ahead = refl

go_ahead-moved_example :
    moved (plan ∷ other ∷ []) (decision 0 send false ∷ decision 1 send false ∷ []) ≤ 8
go_ahead-moved_example =
    go_ahead-moved same_bytes 8 true (plan ∷ other ∷ []) (plan ∷ other ∷ [])
      (decision 0 send false ∷ decision 1 send false ∷ []) (omega arith) (λ z. cc, (λ z. cc, tt))
      goes_ahead
