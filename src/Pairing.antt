-- ===== src/Pairing.antt =====
-- internal/code: the salt epochs of a pairing code's slot (slot.go: Epoch, EpochsFor); Codes models
-- the codes that users type (code.go).
pub mod Overlap
pub mod Codes
mod Tests
use fsend.Base.{ℕ, ◌+◌, ◌-◌, ◌*◌, ◌/◌, ◌%◌, List, [], ◌∷◌, if◌then◌else◌, ltb, leb}

-- The seconds of a day, and EpochGrace in seconds.
abbrev pub day : ℕ
day = 86400

abbrev pub epoch_grace : ℕ
epoch_grace = 3600

-- Epoch, of a time in Unix seconds.
unfoldable pub epoch : ℕ → ℕ
epoch t = t / day

-- EpochsFor, of a time on the second day of 1970 or later, which has a day before it.
unfoldable pub epochs_for : ℕ → List ℕ
epochs_for t =
    let e = epoch t in
    let secs = t % day in
    if ltb secs epoch_grace
    then e ∷ (e - 1) ∷ []
    else if leb (day - epoch_grace) secs
    then e ∷ (e + 1) ∷ []
    else e ∷ []
