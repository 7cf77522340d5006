-- ===== src/Relay/Budget.antt =====
-- The relay's daily byte budget (internal/relay/budget.go). Times are nanoseconds since 1970.
pub mod Cap
use fsend.Base.{ℕ, ◌+◌, ◌/◌, ◌%◌, ◌^◌, ◌*◌, Bool, true, false, not}
use fsend.Base.{List, [], ◌∷◌, if◌then◌else◌, ltb, leb, ◌==◌}

-- dayBudget; a limit of 0 is no limit.
pub record DayBudget : Type 0 where
  pub limit : ℕ
  pub day : ℕ
  pub used : ℕ

-- `now.UTC().Truncate(24 * time.Hour).Unix()`
abbrev pub day_of : ℕ → ℕ
day_of now = now / 86400000000000 * 86400

unfoldable pub roll : DayBudget → ℕ → DayBudget
roll b now = if day_of now == b.day then b else record b { day = day_of now; used = 0 }

-- charge: the budget after it, and whether the datagram is over the budget. `used` is a uint64.
unfoldable pub charge : DayBudget → ℕ → ℕ → DayBudget × Bool
charge b now n =
    if b.limit == 0
    then (b, false)
    else (let rolled = roll b now in
        let total = (rolled.used + n) % 2 ^ 64 in
        (record rolled { used = total }, ltb b.limit total))

unfoldable pub exhausted : DayBudget → ℕ → DayBudget × Bool
exhausted b now =
    if b.limit == 0
    then (b, false)
    else (let rolled = roll b now in (rolled, leb b.limit rolled.used))

-- usedToday
unfoldable pub used_today : DayBudget → ℕ → DayBudget × ℕ
used_today b now = let rolled = roll b now in (rolled, rolled.used)
