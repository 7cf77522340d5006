-- ===== src/Relay/Budget/Cap.antt =====
-- What the budget lets through in a day (internal/relay/budget.go: charge).
use fsend.Base.{ℕ, ◌+◌, ◌-◌, ◌^◌, ◌≤◌, ◌<◌, ◌≡◌, ◌≢◌, refl, sym, subst, arith}
use fsend.Base.{Bool, List, [], ◌∷◌, if◌then◌else◌, ltb, ◌==◌}
use fsend.Relay.Budget.{DayBudget, day_of, roll, charge}

-- A datagram: when it comes and its size.
abbrev pub Event : Type 0
Event = ℕ × ℕ

-- The datagrams that a sequence of charges lets through.
unfoldable pub passed : DayBudget → List Event → List Event
passed b [] = []
passed b ((now, n) ∷ es) =
    let (b', over) = charge b now n in
    let rest = passed b' es in if over then rest else (now, n) ∷ rest

abbrev pub total : List Event → ℕ
total [] = 0
total ((now, n) ∷ es) = n + total es

-- The bytes of one day.
abbrev pub bytes_on : ℕ → List Event → ℕ
bytes_on day [] = 0
bytes_on day ((now, n) ∷ es) = (if day_of now == day then n else 0) + bytes_on day es

-- No datagram comes on an earlier day than the one before it.
abbrev pub InDays : ℕ → List Event → Type 0
InDays day [] = Unit
InDays day ((now, n) ∷ es) = (day ≤ day_of now) × InDays (day_of now) es

-- What is left of the limit.
abbrev room : DayBudget → ℕ → ℕ
room b day = if day == b.day then b.limit - b.used else b.limit

gone_by :
    (b : DayBudget) (day : ℕ) (es : List Event) (later : ℕ)
    → InDays later es
    → day < later
    → bytes_on day (passed b es) ≡ 0
unfolding passed
gone_by b day [] later o h = refl
gone_by b day ((now, n) ∷ es) later o h =
    ground (arith, gone_by (charge b now n).0 day es (day_of now) o.1 (omega arith))

-- What was used of the day of `now` before.
abbrev used_before : DayBudget → ℕ → ℕ
used_before b now = if day_of now == b.day then b.used else 0

record Charged (b : DayBudget) (now n : ℕ) (r : DayBudget × Bool) : Type 0 where
  same_limit : r.0.limit ≡ b.limit
  new_day : r.0.day ≡ day_of now
  counted : r.0.used ≡ used_before b now + n
  verdict : r.1 ≡ ltb b.limit (used_before b now + n)

charge-Charged :
    (b : DayBudget) (now n : ℕ)
    → b.limit ≢ 0
    → b.used + n < 2 ^ 64
    → Charged b now n (charge b now n)
unfolding charge roll
charge-Charged b now n l fits = record {
  same_limit = ground arith;
  new_day = ground arith;
  counted = ground arith;
  verdict = ground arith;
}

passed-room :
    (b : DayBudget) (day : ℕ) (es : List Event)
    → b.limit ≢ 0
    → InDays b.day es
    → b.used + total es < 2 ^ 64
    → bytes_on day (passed b es) ≤ room b day
unfolding passed
passed-room b day [] l o fits = omega arith
passed-room b day ((now, n) ∷ es) l o fits =
    let c = charge-Charged b now n l (omega arith) in
    let rest =
      passed-room (charge b now n).0 day es (λ z. l (omega (arith, c.same_limit)))
        (subst (λ d. InDays d es) (sym c.new_day) o.1) (ground (arith, c.counted)) in
    ground (
      arith,
      c.same_limit,
      c.new_day,
      c.counted,
      c.verdict,
      rest,
      gone_by (charge b now n).0 day es (day_of now) o.1,
    )

-- Of the datagrams that a limited budget lets through, those of any one day have at most the
-- limit's bytes together, if no datagram comes on an earlier day than the one before it, and all of
-- them have less than 2^64 bytes with what was used before.
pub passed-limit :
    (b : DayBudget) (day : ℕ) (es : List Event)
    → b.limit ≢ 0
    → InDays b.day es
    → b.used + total es < 2 ^ 64
    → bytes_on day (passed b es) ≤ b.limit
passed-limit b day es l o fits = ground (arith, passed-room b day es l o fits)
