-- ===== src/Retry/Tests.antt =====
-- Runs of WithBackoff (internal/retry/retry.go).
use fsend.Base.{ℕ, ◌-◌, ◌≡◌, refl, arith, Bool, none, some}
use fsend.Base.{[], ◌∷◌, if◌then◌else◌, ltb}
use fsend.Retry.{
  Options, with_defaults, jitter, next_wait, succeeded, exhausted, World, retry_loop, with_backoff,
}
use fsend.Retry.Backoff.{IsRun, with_backoff-IsRun}

-- Every error is transient but 0.
abbrev is_transient : ℕ → Bool
is_transient e = ltb 0 e

-- op fails with error 5 until the third attempt.
abbrev world : World ℕ
world = record {
  op = λ i. if ltb i 3 then some 5 else none;
  stopped = λ i. none;
  woken = λ i. none;
  drawn = λ i n. n - 1;
}

abbrev options : Options
options = record { attempts = 0; base = 10; max = 20 }

runs :
    with_backoff is_transient world options
    ≡ record { tries = 1 ∷ 2 ∷ 3 ∷ []; sleeps = 10 ∷ 20 ∷ []; ending = succeeded }
unfolding with_backoff with_defaults retry_loop jitter next_wait
runs = refl

-- Two attempts are too few.
gives_up :
    with_backoff is_transient world (record { attempts = 2; base = 10; max = 20 })
    ≡ record { tries = 1 ∷ 2 ∷ []; sleeps = 10 ∷ []; ending = exhausted 5 }
unfolding with_backoff with_defaults retry_loop jitter next_wait
gives_up = refl

with_backoff-IsRun_example :
    IsRun is_transient world 20 1 3 10 (with_backoff is_transient world options)
unfolding with_defaults
with_backoff-IsRun_example =
    with_backoff-IsRun is_transient world options (λ i n h. omega arith) (omega arith) (omega arith)
      (omega arith)
