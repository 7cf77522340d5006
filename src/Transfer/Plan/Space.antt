-- ===== src/Transfer/Plan/Space.antt =====
-- The space that is checked and the bytes that are let in (internal/transfer/recv.go: checkSpace,
-- receiver.run).
use fsend.Base.{ℕ, ◌+◌, ◌-◌, ◌%◌, ◌^◌, ◌≤◌, ◌<◌, ◌≡◌, ◌≢◌, refl, subst, inl, inr, arith}
use fsend.Base.{
  Bool, true, false, not, ◌&&◌, ◌||◌, Bool-cases, some, none_is_not_some, some_inj, List, [], ◌∷◌,
  if◌then◌else◌, leb, leb→le, ◌==◌, length, All,
}
use fsend.Transfer.Plan.{
  Disposition, fresh, identical, differs, conflict, resume, verify, refused, Action, send, skip,
  resumed,
}
use fsend.Transfer.Plan.{
  EntryPlan, EntryType, file, dir, symlink, is_dir, is_file, needs_consent, disagrees,
  refuse_full_dir, apply_replace,
}
use fsend.Transfer.Plan.{Decision, decide, plan_to_decision, decisions}
use fsend.Transfer.Plan.Summary.{
  Summary, no_summary, count_differing, tally_disp, tally, summarize, conflicts, under_any, fits,
  go_ahead,
}

abbrev pub moved_by : EntryPlan → Action → ℕ
moved_by p send = if is_file p.entry.typ then p.entry.size else 0
moved_by p skip = 0
moved_by p resumed = p.entry.size - p.resume_offset

-- The bytes of files that the decisions let in.
abbrev pub moved : List EntryPlan → List Decision → ℕ
moved [] ds = 0
moved (p ∷ ps) [] = 0
moved (p ∷ ps) (d ∷ ds) = moved_by p d.action + moved ps ds

abbrev pub total_size : List EntryPlan → ℕ
total_size [] = 0
total_size (p ∷ ps) = p.entry.size + total_size ps

-- What a plan adds to the two sums.
abbrev to_recv : EntryPlan → Disposition → ℕ
to_recv p fresh = p.entry.size
to_recv p identical = 0
to_recv p differs = 0
to_recv p conflict = 0
to_recv p resume = p.entry.size - p.resume_offset
to_recv p verify = 0
to_recv p refused = 0

abbrev if_differing : EntryPlan → Disposition → ℕ
if_differing p d = if disagrees d then if is_dir p.entry.typ then 0 else p.entry.size else 0

abbrev all_to_recv : List EntryPlan → ℕ
all_to_recv [] = 0
all_to_recv (p ∷ ps) = to_recv p p.disp + all_to_recv ps

abbrev all_differing : List EntryPlan → ℕ
all_differing [] = 0
all_differing (p ∷ ps) = if_differing p p.disp + all_differing ps

tally_disp-sums :
    (p : EntryPlan) (d : Disposition) (s : Summary)
    → s.bytes_to_recv + p.entry.size < 2 ^ 64
    → s.differing_bytes + p.entry.size < 2 ^ 64
    → ((tally_disp p d s).bytes_to_recv ≡ s.bytes_to_recv + to_recv p d)
      × ((tally_disp p d s).differing_bytes ≡ s.differing_bytes + if_differing p d)
      × (to_recv p d + if_differing p d ≤ p.entry.size)
unfolding tally_disp count_differing
tally_disp-sums p fresh s h k = (ground arith, ground arith, ground arith)
tally_disp-sums p identical s h k = (ground arith, ground arith, ground arith)
tally_disp-sums p differs s h k = (ground arith, ground arith, ground arith)
tally_disp-sums p conflict s h k = (ground arith, ground arith, ground arith)
tally_disp-sums p resume s h k = (ground arith, ground arith, ground arith)
tally_disp-sums p verify s h k = (ground arith, ground arith, ground arith)
tally_disp-sums p refused s h k = (ground arith, ground arith, ground arith)

summarize-sums :
    (ps : List EntryPlan) (s : Summary)
    → s.bytes_to_recv + s.differing_bytes + total_size ps < 2 ^ 64
    → ((summarize ps s).bytes_to_recv ≡ s.bytes_to_recv + all_to_recv ps)
      × ((summarize ps s).differing_bytes ≡ s.differing_bytes + all_differing ps)
      × (all_to_recv ps + all_differing ps ≤ total_size ps)
unfolding summarize tally
summarize-sums [] s h = (omega arith, omega arith, omega arith)
summarize-sums (p ∷ ps) s h =
    let (a, b, c) =
      tally_disp-sums p p.disp
        (record s { offered_bytes = (s.offered_bytes + p.entry.size) % 2 ^ 64 }) (omega arith)
        (omega arith) in
    let (x, y, z) = summarize-sums ps (tally p s) (omega (arith, a, b, c)) in
    (omega (arith, a, x), omega (arith, b, y), omega (arith, c, z))

file_or_dir : (t : EntryType) (n : ℕ) → (if is_file t then n else 0) ≤ (if is_dir t then 0 else n)
file_or_dir file n = omega arith
file_or_dir dir n = omega arith
file_or_dir symlink n = omega arith

file_part : (t : EntryType) (n : ℕ) → (if is_file t then n else 0) ≤ n
file_part file n = omega arith
file_part dir n = omega arith
file_part symlink n = omega arith

-- One plan's decision.
decide-moved :
    (derive : List ℕ → List ℕ) (approve : Bool) (p : EntryPlan) (d : Disposition)
    → d ≢ verify
    → moved_by p (decide derive approve p d).0.action
      ≤ to_recv p d + (if approve then if_differing p d else 0)
unfolding decide
decide-moved derive approve p fresh n = omega (arith, file_part p.entry.typ p.entry.size)
decide-moved derive approve p identical n = omega arith
decide-moved derive true p differs n = omega (arith, file_or_dir p.entry.typ p.entry.size)
decide-moved derive false p differs n = omega arith
decide-moved derive true p conflict n = omega (arith, file_or_dir p.entry.typ p.entry.size)
decide-moved derive false p conflict n = omega arith
decide-moved derive approve p resume n = omega arith
decide-moved derive approve p verify n = absurd (n refl)
decide-moved derive approve p refused n = omega arith

plan-moved :
    (derive : List ℕ → List ℕ) (approve : Bool) (p : EntryPlan)
    → p.disp ≢ verify
    → moved_by p (plan_to_decision derive approve p).0.action
      ≤ to_recv p p.disp + (if approve then if_differing p p.disp else 0)
unfolding plan_to_decision
plan-moved derive approve p n = elim (Bool-cases p.blocked_ancestor) [
  | inl e ↦ rw e (omega arith)
  | inr e ↦ ground (arith, decide-moved derive approve p p.disp n)
]

decisions-moved :
    (derive : List ℕ → List ℕ) (ps : List EntryPlan)
    → All (λ p. p.disp ≢ verify) ps
    → moved ps (decisions derive false ps) ≤ all_to_recv ps
unfolding decisions
decisions-moved derive [] h = omega arith
decisions-moved derive (p ∷ ps) h =
    omega (arith, plan-moved derive false p h.0, decisions-moved derive ps h.1)

-- A replacement, where a full folder in the way is refused.
replace-moved :
    (derive : List ℕ → List ℕ) (p : EntryPlan)
    → p.disp ≢ verify
    → moved_by (refuse_full_dir p) (plan_to_decision derive true (refuse_full_dir p)).0.action
      ≤ to_recv p p.disp + if_differing p p.disp
unfolding refuse_full_dir
replace-moved derive p n = elim (Bool-cases (needs_consent p && p.non_empty_dir)) [
  | inl e ↦ rw e (
      omega (
        arith,
        plan-moved derive true
            (record p {
              disp = refused;
              skip_reason =
                  "a folder with files is in the way (fsend never deletes a folder's contents)";
            })
            (λ z. cc),
      ))
  | inr e ↦ rw e (plan-moved derive true p n)
]

apply_replace-moved :
    (derive : List ℕ → List ℕ) (ps : List EntryPlan)
    → All (λ p. p.disp ≢ verify) ps
    → moved (apply_replace ps) (decisions derive true (apply_replace ps))
      ≤ all_to_recv ps + all_differing ps
unfolding decisions apply_replace
apply_replace-moved derive [] h = omega arith
apply_replace-moved derive (p ∷ ps) h =
    omega (arith, replace-moved derive p h.0, apply_replace-moved derive ps h.1)

-- With no conflict to ask about, consent decides nothing.
unasked-moved :
    (derive : List ℕ → List ℕ) (approve : Bool) (p : EntryPlan)
    → p.disp ≢ verify
    → (not (needs_consent p) || (p.blocked_ancestor || false)) ≡ true
    → moved_by p (plan_to_decision derive approve p).0.action ≤ to_recv p p.disp
unfolding plan_to_decision needs_consent
unasked-moved derive approve p n e = elim (Bool-cases p.blocked_ancestor) [
  | inl b ↦ rw b (omega arith)
  | inr b ↦
      let calm : disagrees p.disp ≡ false = ground arith in
      rw b (ground (arith, decide-moved derive approve p p.disp n))
]

conflicts-moved :
    (derive : List ℕ → List ℕ) (approve : Bool) (ps : List EntryPlan)
    → All (λ p. p.disp ≢ verify) ps
    → length (conflicts [] ps) ≡ 0
    → moved ps (decisions derive approve ps) ≤ all_to_recv ps
unfolding decisions conflicts under_any
conflicts-moved derive approve [] h e = omega arith
conflicts-moved derive approve (p ∷ ps) h e =
    elim (Bool-cases (not (needs_consent p) || (p.blocked_ancestor || false))) [
      | inl b ↦ omega (
        arith,
        unasked-moved derive approve p h.0 b,
        conflicts-moved derive approve ps h.1 (rw b at e),
      )
      | inr b ↦ absurd (omega (arith, rw b at e))
    ]

as_they_are-moved :
    (derive : List ℕ → List ℕ) (replacing : Bool) (ps : List EntryPlan)
    → All (λ p. p.disp ≢ verify) ps
    → (length (conflicts [] ps) == 0 || not replacing) ≡ true
    → moved ps (decisions derive replacing ps) ≤ all_to_recv ps
as_they_are-moved derive replacing ps h e = elim (Bool-cases replacing) [
  | inl r ↦ conflicts-moved derive replacing ps h (ground arith)
  | inr r ↦ rw r (decisions-moved derive ps h)
]

-- When the receiver goes ahead, keeping or replacing what differs, the bytes of files that its
-- decisions let in fit in the space that is free, if the sizes in the listing together stay below
-- 2^64 and no entry still waits for its content to be compared.
pub go_ahead-moved :
    (derive : List ℕ → List ℕ) (free : ℕ) (replacing : Bool) (ps qs : List EntryPlan)
    (ds : List Decision)
    → total_size ps < 2 ^ 64
    → All (λ p. p.disp ≢ verify) ps
    → go_ahead derive (some free) replacing ps ≡ some (qs, ds)
    → moved qs ds ≤ free
unfolding go_ahead fits
go_ahead-moved derive free replacing ps qs ds small ready e =
    let s = summarize ps no_summary in
    let (a, b, c) = summarize-sums ps no_summary (omega arith) in
    elim (Bool-cases (leb s.bytes_to_recv free)) [
      | inr x ↦ absurd (none_is_not_some (rw x at e))
      | inl x ↦ elim (Bool-cases (length (conflicts [] ps) == 0 || not replacing)) [
        | inl y ↦
            subst (λ r. moved r.0 r.1 ≤ free) (some_inj (rw (x, y) at e))
              (ground (arith, a, as_they_are-moved derive replacing ps ready y))
        | inr y ↦ elim (Bool-cases (leb ((s.bytes_to_recv + s.differing_bytes) % 2 ^ 64) free)) [
          | inr z ↦ absurd (none_is_not_some (rw (x, y, z) at e))
          | inl z ↦
              subst (λ r. moved r.0 r.1 ≤ free) (some_inj (rw (x, y, z) at e))
                (omega (
                  arith,
                  a,
                  b,
                  c,
                  apply_replace-moved derive ps ready,
                  leb→le ((s.bytes_to_recv + s.differing_bytes) % 2 ^ 64) free z,
                ))
        ]
      ]
    ]
