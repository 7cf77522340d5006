-- ===== src/Transfer/Plan/Summary.antt =====
-- What the plans amount to, and whether the receiver goes ahead (internal/transfer/classify.go:
-- summarize, conflicts, underAny; recv.go: checkSpace, and receiver.run from the summary to the
-- decisions).
use fsend.Base.{ℕ, ◌+◌, ◌-◌, ◌%◌, ◌^◌, Bool, true, false, not, ◌&&◌, ◌||◌, Option, none, some}
use fsend.Base.{List, [], ◌∷◌, ◌++◌, if◌then◌else◌, ltb, leb, ◌==◌, length}
use fsend.Base.Maps.{String}
use fsend.Base.Texts.{codes}
use fsend.Transfer.Plan.{Disposition, fresh, identical, differs, conflict, resume, verify, refused}
use fsend.Transfer.Plan.{EntryPlan, is_dir, needs_consent}
use fsend.Transfer.Plan.{Decision, apply_replace, decisions}

-- classifySummary: its counts and sums, which are uint64.
pub record Summary : Type 0 where
  pub new_items : ℕ
  pub identical_items : ℕ
  pub differing : ℕ
  pub refused_items : ℕ
  pub bytes_to_recv : ℕ
  pub offered_bytes : ℕ
  pub differing_bytes : ℕ

abbrev pub no_summary : Summary
no_summary = record {
  new_items = 0;
  identical_items = 0;
  differing = 0;
  refused_items = 0;
  bytes_to_recv = 0;
  offered_bytes = 0;
  differing_bytes = 0;
}

unfoldable pub count_differing : EntryPlan → Summary → Summary
count_differing p s = if is_dir p.entry.typ then s else (record s {
  differing = s.differing + 1;
  differing_bytes = (s.differing_bytes + p.entry.size) % 2 ^ 64;
})

-- The switch in summarize's loop.
unfoldable pub tally_disp : EntryPlan → Disposition → Summary → Summary
tally_disp p fresh s = record s {
  new_items = s.new_items + 1;
  bytes_to_recv = (s.bytes_to_recv + p.entry.size) % 2 ^ 64;
}
tally_disp p identical s = record s { identical_items = s.identical_items + 1 }
tally_disp p resume s = record s {
  new_items = s.new_items + 1;
  bytes_to_recv =
      if ltb p.resume_offset p.entry.size
      then (s.bytes_to_recv + (p.entry.size - p.resume_offset)) % 2 ^ 64
      else s.bytes_to_recv;
}
tally_disp p refused s =
    if is_dir p.entry.typ then s else (record s { refused_items = s.refused_items + 1 })
tally_disp p differs s = count_differing p s
tally_disp p conflict s = count_differing p s
tally_disp p verify s = s

unfoldable pub tally : EntryPlan → Summary → Summary
tally p s =
    tally_disp p p.disp (record s { offered_bytes = (s.offered_bytes + p.entry.size) % 2 ^ 64 })

-- summarize, from the sums so far on.
unfoldable pub summarize : List EntryPlan → Summary → Summary
summarize [] s = s
summarize (p ∷ ps) s = summarize ps (tally p s)

-- strings.HasPrefix
unfoldable pub has_prefix : List ℕ → List ℕ → Bool
has_prefix xs [] = true
has_prefix [] (y ∷ ys) = false
has_prefix (x ∷ xs) (y ∷ ys) = (x == y) && has_prefix xs ys

-- underAny, with the separator of Unix.
unfoldable pub under_any : String → List String → Bool
under_any rel [] = false
under_any rel (d ∷ ds) = has_prefix (codes rel) (codes d ++ (b'/' ∷ [])) || under_any rel ds

-- conflicts: the paths of its rows.
unfoldable pub conflicts : List String → List EntryPlan → List String
conflicts dirs [] = []
conflicts dirs (p ∷ ps) =
    let left_out = not (needs_consent p) || (p.blocked_ancestor || under_any p.rel dirs) in
    let rest =
      conflicts
        (if left_out then dirs else if is_dir p.entry.typ then dirs ++ (p.rel ∷ []) else dirs) ps in
    if left_out then rest else p.entry.relative_path ∷ rest

-- checkSpace; `none` is a file system that does not tell how much is free.
unfoldable pub fits : Option ℕ → ℕ → Bool
fits none need = true
fits (some free) need = leb need free

-- The plans and decisions with which the receiver goes ahead, or `none` when the space does not do;
-- `replacing` is whether the user chose to replace what differs, and not to keep it. For keeping both
-- copies the plans are renamed, which is no case of this function.
unfoldable pub go_ahead :
    (List ℕ → List ℕ) → Option ℕ → Bool → List EntryPlan → Option (List EntryPlan × List Decision)
go_ahead derive free replacing ps =
    let s = summarize ps no_summary in
    let as_they_are = some (ps, decisions derive replacing ps) in
    let replaced = some (apply_replace ps, decisions derive true (apply_replace ps)) in
    if not (fits free s.bytes_to_recv)
    then none
    else if length (conflicts [] ps) == 0 || not replacing
    then as_they_are
    else if fits free ((s.bytes_to_recv + s.differing_bytes) % 2 ^ 64)
    then replaced
    else none
