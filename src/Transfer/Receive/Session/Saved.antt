-- ===== src/Transfer/Receive/Session/Saved.antt =====
-- The files that a receive puts in place, and the consent to them (internal/transfer/recv.go:
-- planToDecision, receiveData).
use fsend.Base.{ℕ, ◌^◌, ◌<◌, ◌≡◌, ◌≢◌}
use fsend.Base.{Bool, true, false, some}
use fsend.Base.{List, [], ◌∷◌, length, All}
use fsend.Transfer.HashTree.{bytes_root}
use fsend.Transfer.Plan.{
  EntryPlan, Disposition, identical, refused, is_resume, needs_consent, disagrees,
}
use fsend.Transfer.Receive.{PendingFile}
use fsend.Transfer.Receive.Session.{by_index, Incoming, chunk, broken, interrupted}
use fsend.Transfer.Receive.Session.Writing.{IsPrefix}

-- No entry has the index.
abbrev pub Lacks : ℕ → List EntryPlan → Type 0
Lacks i ps = All (λ p. p.entry.index ≢ i) ps

-- The indices of a listing differ.
abbrev pub Distinct : List EntryPlan → Type 0
Distinct [] = Unit {0}
Distinct (p ∷ ps) = Lacks p.entry.index ps × Distinct ps

-- A plan whose entry may be written: it is reached through no link, its local copy is not known to be
-- the same, it is not refused, and it replaces something only with consent.
pub record IsConsented (approve : Bool) (p : EntryPlan) : Type 0 where
  pub reached : p.blocked_ancestor ≡ false
  pub wanted : p.disp ≢ identical
  pub not_refused : p.disp ≢ refused
  pub agreed : approve ≡ false → needs_consent p ≡ false

abbrev IsAgreed : Bool → Disposition → Type 0
IsAgreed approve d = (d ≢ identical) × (d ≢ refused) × (approve ≡ false → disagrees d ≡ false)

-- What comes in from the peer and the system: the roots that end files are named, the payloads have
-- a size, and a partial that is resumed is the one whose blocks were hashed.
abbrev pub IsComing : (List ℕ → List ℕ) → (ℕ → List ℕ → Type 0) → List EntryPlan → Incoming → Type 0
IsComing plain Named ps (chunk ans segs bytes) =
    ((k : ℕ) → All (λ p. is_resume p.disp ≡ true → IsPrefix plain p (ans k).partial) ps)
    × (length bytes < 2 ^ 63)
    × All (λ seg. seg.at_eof ≡ true → Named seg.file_index seg.root_hash) segs
IsComing plain Named ps (broken f) = Unit {0}
IsComing plain Named ps interrupted = Unit {0}

-- A saved file: its entry is in the listing, was consented to, has the size of the file, and a root
-- that an end of that file named.
pub record IsSound (plain derive : List ℕ → List ℕ) (Named : ℕ → List ℕ → Type 0) (approve : Bool)
    (ps : List EntryPlan) (pf : PendingFile) : Type 0 where
  pub plan : EntryPlan
  pub listed : by_index pf.plan.entry.index ps ≡ some plan
  pub consented : IsConsented approve plan
  pub whole : length pf.content ≡ plan.entry.size
  pub vouched : Named pf.plan.entry.index (bytes_root plain derive pf.content)
