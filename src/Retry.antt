-- ===== src/Retry.antt =====
-- internal/retry/retry.go: WithBackoff with its jitter. An int and a time.Duration are their 64-bit
-- patterns: those from 2^63 on are negative.
pub mod Backoff
mod Tests
use fsend.Base.{
  ℕ, zero, suc, ◌+◌, ◌*◌, ◌/◌, ◌%◌, ◌^◌, Bool, true, false, not, ◌||◌, Option, none, some,
}
use fsend.Base.{List, [], ◌∷◌, if◌then◌else◌, ltb, leb, ◌==◌}

abbrev pub is_negative : ℕ → Bool
is_negative n = leb (2 ^ 63) n

-- `a < b` of signed integers.
abbrev pub signed_lt : ℕ → ℕ → Bool
signed_lt a b = ltb ((a + 2 ^ 63) % 2 ^ 64) ((b + 2 ^ 63) % 2 ^ 64)

-- Options, but for the hook OnRetry.
pub record Options : Type 0 where
  pub attempts : ℕ
  pub base : ℕ
  pub max : ℕ

-- DefaultAttempts and defaultOptions, in nanoseconds.
abbrev pub default_options : Options
default_options = record { attempts = 3; base = 1000000000; max = 30000000000 }

-- The options with the defaults where they are zero.
unfoldable pub with_defaults : Options → Options
with_defaults o = record {
  attempts = if o.attempts == 0 then default_options.attempts else o.attempts;
  base = if o.base == 0 then default_options.base else o.base;
  max = if o.max == 0 then default_options.max else o.max;
}

-- jitter; `drawn` is what rand.Int64N draws below the bound that it is given.
unfoldable pub jitter : ℕ → (ℕ → ℕ) → ℕ
jitter d drawn =
    if (d == 0) || is_negative d then d else (let half = d / 2 in half + drawn (half + 1))

-- The growth of the nominal wait.
unfoldable pub next_wait : ℕ → ℕ → ℕ
next_wait max wait =
    let tripled = wait * 3 % 2 ^ 64 in if signed_lt max tripled then max else tripled

-- What WithBackoff returns: nil, an error of op or of the context as it is, the last error as
-- ErrTransientFailure, or the complaint about a negative number of attempts.
pub data Ending (E : Type 0) : Type 0 where
  succeeded : Ending E
  failed : E → Ending E
  exhausted : E → Ending E
  invalid_attempts : Ending E

-- What it did: the attempts of op, and the sleeps that it began.
pub record Run (E : Type 0) : Type 0 where
  pub tries : List ℕ
  pub sleeps : List ℕ
  pub ending : Ending E

-- What op, the context in front of an attempt and in the sleep behind it, and rand do, by the number
-- of the attempt.
pub record World (E : Type 0) : Type 0 where
  pub op : ℕ → Option E
  pub stopped : ℕ → Option E
  pub woken : ℕ → Option E
  pub drawn : ℕ → ℕ → ℕ

module _ {E : Type 0} (is_transient : E → Bool) (world : World E) (attempts max : ℕ) where
  abbrev ends : List ℕ → List ℕ → Ending E → Run E
  ends tries sleeps e = record { tries = tries; sleeps = sleeps; ending = e }

  -- An attempt with its sleep in front of the rest.
  abbrev tried : ℕ → ℕ → Option E → Run E → Run E
  tried attempt sleep none rest = record {
    tries = attempt ∷ rest.tries;
    sleeps = sleep ∷ rest.sleeps;
    ending = rest.ending;
  }
  tried attempt sleep (some e) rest = ends (attempt ∷ []) (sleep ∷ []) (failed e)

  -- What follows on an attempt.
  abbrev pub after_try : ℕ → ℕ → Option E → Run E → Run E
  after_try attempt wait none rest = ends (attempt ∷ []) [] succeeded
  after_try attempt wait (some e) rest =
      if not (is_transient e)
      then ends (attempt ∷ []) [] (failed e)
      else if attempt == attempts
      then ends (attempt ∷ []) [] (exhausted e)
      else tried attempt (jitter wait (world.drawn attempt)) (world.woken attempt) rest

  abbrev pub attempt_now : ℕ → ℕ → Option E → Run E → Run E
  attempt_now attempt wait none rest = after_try attempt wait (world.op attempt) rest
  attempt_now attempt wait (some e) rest = ends [] [] (failed e)

  -- The loop; `left` counts the attempts that are left.
  unfoldable pub retry_loop : ℕ → ℕ → ℕ → Run E
  retry_loop zero attempt wait = ends [] [] succeeded
  retry_loop (suc left) attempt wait =
      attempt_now attempt wait (world.stopped attempt)
        (retry_loop left (suc attempt) (next_wait max wait))

unfoldable pub with_backoff : {E : Type 0} → (E → Bool) → World E → Options → Run E
with_backoff is_transient world given =
    let o = with_defaults given in
    if is_negative o.attempts
    then (record { tries = []; sleeps = []; ending = invalid_attempts })
    else retry_loop is_transient world o.attempts o.max o.attempts 1 o.base
