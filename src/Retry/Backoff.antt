-- ===== src/Retry/Backoff.antt =====
-- How often and how long WithBackoff tries (internal/retry/retry.go).
use fsend.Base.{
  ℕ, zero, suc, ◌+◌, ◌-◌, ◌*◌, ◌/◌, ◌^◌, ◌≤◌, ◌<◌, ◌≡◌, ◌⊎◌, inl, inr, refl, ap, subst, ◌∙◌, arith,
}
use fsend.Base.{min, Bool, true, false, Bool-cases, Option, none, some, Option-cases, ◌==◌}
use fsend.Base.{List, [], ◌∷◌, length, leb}
use fsend.Retry.{
  Options, with_defaults, jitter, next_wait, Ending, succeeded, failed, exhausted, invalid_attempts,
  Run, World, after_try, attempt_now, retry_loop, with_backoff,
}

-- The numbers count on from `i`.
abbrev pub AreCounted : ℕ → List ℕ → Type 0
AreCounted i [] = Unit
AreCounted i (x ∷ xs) = (x ≡ i) × AreCounted (suc i) xs

-- Each sleep lies between the half of the nominal wait and the whole; the nominal wait triples, up to
-- the maximum.
abbrev pub AreWaits : ℕ → ℕ → List ℕ → Type 0
AreWaits max wait [] = Unit
AreWaits max wait (x ∷ xs) = (wait / 2 ≤ x) × (x ≤ wait) × AreWaits max (min (wait * 3) max) xs

-- rand.Int64N draws below its bound.
abbrev pub IsFair : {E : Type 0} → World E → Type 0
IsFair w = (i n : ℕ) → 0 < n → w.drawn i n < n

module _ {E : Type 0} (is_transient : E → Bool) (world : World E) (max : ℕ) where
  -- The error of the attempt `i` that lets the loop go on.
  abbrev pub FailedOver : ℕ → Type 0
  FailedOver i = (e : E) × (world.op i ≡ some e) × (is_transient e ≡ true)

  -- How the loop may end, with `last` the number of the last of `count` attempts, of `left` at most.
  abbrev pub EndsWell : (last count left : ℕ) → Ending E → Type 0
  EndsWell last count left succeeded = (1 ≤ count) × (world.op last ≡ none)
  EndsWell last count left (exhausted e) =
      (count ≡ left) × (world.op last ≡ some e) × (is_transient e ≡ true)
  EndsWell last count left (failed e) =
      ((world.op last ≡ some e) × (is_transient e ≡ false))
      ⊎ ((i : ℕ) × ((world.stopped i ≡ some e) ⊎ (world.woken i ≡ some e)))
  EndsWell last count left invalid_attempts = ⊥

  -- A run of at most `left` attempts from the one of this number on.
  pub record IsRun (attempt left wait : ℕ) (r : Run E) : Type 0 where
    pub counted : AreCounted attempt r.tries
    pub few : length r.tries ≤ left
    pub waits : AreWaits max wait r.sleeps
    pub between : length r.sleeps ≤ length r.tries
    pub fewer : length r.sleeps < left
    pub backed_off : length r.tries ≤ suc (length r.sleeps)
    pub retried : (i : ℕ) → attempt ≤ i → suc i < attempt + length r.tries → FailedOver i
    pub ended : EndsWell (attempt + length r.tries - 1) (length r.tries) left r.ending

  one-IsRun :
      (attempt left wait : ℕ) (sleeps : List ℕ) (e : Ending E)
      → AreWaits max wait sleeps
      → length sleeps ≤ 1
      → length sleeps < left
      → EndsWell (attempt + 1 - 1) 1 left e
      → IsRun attempt left wait (record { tries = attempt ∷ []; sleeps = sleeps; ending = e })
  one-IsRun attempt left wait sleeps e w short fewer v = record {
    counted = (refl, tt);
    few = omega arith;
    waits = w;
    between = short;
    fewer = fewer;
    backed_off = omega arith;
    retried = λ i lo hi. absurd (omega arith);
    ended = v;
  }

  jitter-between :
      (d : ℕ) (drawn : ℕ → ℕ)
      → d < 2 ^ 63
      → ((n : ℕ) → 0 < n → drawn n < n)
      → (d / 2 ≤ jitter d drawn) × (jitter d drawn ≤ d)
  unfolding jitter
  jitter-between d drawn h fair =
      (ground (arith, fair (d / 2 + 1)), ground (arith, fair (d / 2 + 1)))

  next_wait-min :
      (wait : ℕ) → wait * 3 < 2 ^ 63 → max < 2 ^ 63 → next_wait max wait ≡ min (wait * 3) max
  unfolding next_wait
  next_wait-min wait h k = ground arith

  EndsWell-later :
      (attempt n k : ℕ) (e : Ending E)
      → EndsWell (suc attempt + n - 1) n k e
      → EndsWell (attempt + suc n - 1) (suc n) (suc k) e
  EndsWell-later attempt n k e v = subst (λ l. EndsWell l (suc n) (suc k) e) same (counted_on e v)
    where
      same : suc attempt + n - 1 ≡ attempt + suc n - 1
      same = omega arith

      counted_on :
          (f : Ending E)
          → EndsWell (suc attempt + n - 1) n k f
          → EndsWell (suc attempt + n - 1) (suc n) (suc k) f
      counted_on succeeded w = (omega arith, w.1)
      counted_on (exhausted x) w = (omega (arith, w.0), w.1, w.2)
      counted_on (failed x) w = w
      counted_on invalid_attempts w = w

  -- An attempt whose error lets the loop go on, with its sleep, in front of a run.
  later-IsRun :
      (attempt k wait sleep : ℕ) (rest : Run E)
      → FailedOver attempt
      → wait / 2 ≤ sleep
      → sleep ≤ wait
      → IsRun (suc attempt) k (min (wait * 3) max) rest
      → IsRun attempt (suc k) wait (record {
        tries = attempt ∷ rest.tries;
        sleeps = sleep ∷ rest.sleeps;
        ending = rest.ending;
      })
  later-IsRun attempt k wait sleep rest over lo hi v = record {
    counted = (refl, v.counted);
    few = omega (arith, v.few);
    waits = (lo, hi, v.waits);
    between = omega (arith, v.between);
    fewer = omega (arith, v.fewer);
    backed_off = omega (arith, v.backed_off);
    retried = λ i from to. elim (Bool-cases (i == attempt)) [
      | inl e ↦ let at : attempt ≡ i = ground arith in subst FailedOver at over
      | inr e ↦ v.retried i (ground arith) (omega arith)
    ];
    ended = EndsWell-later attempt (length rest.tries) k rest.ending v.ended;
  }

  module _ (attempts : ℕ) (fair : IsFair world) (small : max * 3 < 2 ^ 63) where
    -- What may stand behind an attempt: nothing after the last one.
    abbrev Rest : ℕ → ℕ → ℕ → Run E → Type 0
    Rest attempt k wait rest =
        (attempt ≡ attempts) ⊎ IsRun (suc attempt) k (min (wait * 3) max) rest

    after_try-IsRun :
        (attempt k wait : ℕ) (o : Option E) (rest : Run E)
        → world.op attempt ≡ o
        → attempt + k ≡ attempts
        → wait * 3 < 2 ^ 63
        → Rest attempt k wait rest
        → IsRun attempt (suc k) wait (after_try is_transient world attempts max attempt wait o rest)
    after_try-IsRun attempt k wait none rest op count bound v =
        one-IsRun attempt (suc k) wait [] succeeded tt (omega arith) (omega arith)
          (omega arith, ap world.op back ∙ op)
      where
        back : attempt + 1 - 1 ≡ attempt
        back = omega arith
    after_try-IsRun attempt k wait (some e) rest op count bound v =
        let back : attempt + 1 - 1 ≡ attempt = omega arith in
        let here = ap world.op back ∙ op in
        elim (Bool-cases (is_transient e)) [
          | inr t ↦ rw t (
              one-IsRun attempt (suc k) wait [] (failed e) tt (omega arith) (omega arith)
                (inl (here, t)))
          | inl t ↦ elim (Bool-cases (attempt == attempts)) [
            | inl l ↦
                rw (t, l)
                  (one-IsRun attempt (suc k) wait [] (exhausted e) tt (omega arith) (omega arith)
                    (ground arith, here, t))
            | inr l ↦
                let (lo, hi) =
                  jitter-between wait (world.drawn attempt) (omega arith) (fair attempt) in
                elim (Option-cases (world.woken attempt)) [
                  | inl w ↦ elim v [
                    | inl last ↦ absurd (ground arith)
                    | inr run ↦
                        rw (t, l, w)
                          (later-IsRun attempt k wait (jitter wait (world.drawn attempt)) rest
                            (e, op, t) lo hi run)
                  ]
                  | inr (x, w) ↦
                      rw (t, l, w)
                        (one-IsRun attempt (suc k) wait (jitter wait (world.drawn attempt) ∷ [])
                          (failed x) (lo, hi, tt) (omega arith) (ground arith)
                          (inr (attempt, inr w)))
                ]
          ]
        ]

    attempt_now-IsRun :
        (attempt k wait : ℕ) (o : Option E) (rest : Run E)
        → world.stopped attempt ≡ o
        → attempt + k ≡ attempts
        → wait * 3 < 2 ^ 63
        → Rest attempt k wait rest
        → IsRun attempt
            (suc k)
            wait
            (attempt_now is_transient world attempts max attempt wait o rest)
    attempt_now-IsRun attempt k wait none rest stop count bound v =
        after_try-IsRun attempt k wait (world.op attempt) rest refl count bound v
    attempt_now-IsRun attempt k wait (some e) rest stop count bound v = record {
      counted = tt;
      few = omega arith;
      waits = tt;
      between = omega arith;
      fewer = omega arith;
      backed_off = omega arith;
      retried = λ i lo hi. absurd (omega arith);
      ended = inr (attempt, inl stop);
    }

    retry_loop-IsRun :
        (k attempt wait : ℕ)
        → attempt + k ≡ attempts
        → wait * 3 < 2 ^ 63
        → IsRun attempt
            (suc k)
            wait
            (retry_loop is_transient world attempts max (suc k) attempt wait)
    unfolding retry_loop
    retry_loop-IsRun zero attempt wait count bound =
        attempt_now-IsRun attempt zero wait (world.stopped attempt)
          (retry_loop is_transient world attempts max zero (suc attempt) (next_wait max wait)) refl
          count bound (inl (omega arith))
    retry_loop-IsRun (suc k) attempt wait count bound =
        let grown = next_wait-min wait bound (omega arith) in
        let rest =
          retry_loop is_transient world attempts max (suc k) (suc attempt) (next_wait max wait) in
        let run =
          retry_loop-IsRun k (suc attempt) (next_wait max wait) (omega arith)
            (rw grown (omega arith)) in
        attempt_now-IsRun attempt (suc k) wait (world.stopped attempt) rest refl count bound
          (inr (subst (λ w. IsRun (suc attempt) (suc k) w rest) grown run))

-- For a number of attempts that is not negative, and a base and a maximum whose triples are below
-- 2^63 nanoseconds: op is tried with 1, 2 and so on, at most as often as the options say; every
-- attempt but the last failed with a transient error; the outcome is success only if the last
-- attempt succeeded, exhaustion only behind the last attempt that the options allow, and any
-- other error is the last attempt's own, which is not transient, or the context's; there is a
-- sleep for every attempt but the last, and at most one more, but fewer than the attempts that
-- are allowed; and each lies between the half of the nominal wait and the whole, which starts at
-- the base and triples up to the maximum.
pub with_backoff-IsRun :
    {E : Type 0} (is_transient : E → Bool) (world : World E) (given : Options)
    → IsFair world
    → (with_defaults given).attempts < 2 ^ 63
    → (with_defaults given).base * 3 < 2 ^ 63
    → (with_defaults given).max * 3 < 2 ^ 63
    → IsRun is_transient world
        (with_defaults given).max
        1
        (with_defaults given).attempts
        (with_defaults given).base
        (with_backoff is_transient world given)
unfolding with_backoff with_defaults
with_backoff-IsRun is_transient world given fair count base small =
    let o = with_defaults given in
    let many : 1 ≤ o.attempts = ground arith in
    let run =
      retry_loop-IsRun is_transient world o.max o.attempts fair small (o.attempts - 1) 1 o.base
        (omega arith) base in
    let whole : suc (o.attempts - 1) ≡ o.attempts = omega arith in
    let sign : leb (2 ^ 63) o.attempts ≡ false = ground arith in
    rw sign (
      subst
        (λ n.
          IsRun is_transient world o.max 1 n o.base
            (retry_loop is_transient world o.attempts o.max n 1 o.base))
        whole run)
