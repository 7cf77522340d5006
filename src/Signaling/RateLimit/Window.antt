-- ===== src/Signaling/RateLimit/Window.antt =====
-- What the token bucket promises (internal/server/server.go: rateBucket.allow).
use fsend.Base.{ℕ, ◌≤◌, ◌<◌, ◌≡◌, refl, sym, ap, ◌∙◌, arith}
use fsend.Base.{
  List, [], ◌∷◌, ◌++◌, if◌then◌else◌, leb, length, length-append, Bool-cases, inl, inr,
}
use fsend.Signaling.RateLimit.{keep_after, allow}

-- Events in order of time: none is earlier than the one before it, the first not before `last`.
abbrev pub InOrder : ℕ → List ℕ → Type 0
InOrder last [] = Unit
InOrder last (t ∷ ts) = (last ≤ t) × InOrder t ts

abbrev pub last_of : ℕ → List ℕ → ℕ
last_of last [] = last
last_of last (t ∷ ts) = last_of t ts

-- The events of one bucket, as `allow` decides them: the stamps kept, and all events that passed.
unfoldable pub decide : ℕ → ℕ → List ℕ → List ℕ → List ℕ → List ℕ × List ℕ
decide limit window stamps passed [] = (stamps, passed)
decide limit window stamps passed (now ∷ later) =
    let (stamps', pass) = allow stamps now limit window in
    decide limit window stamps' (if pass then passed ++ (now ∷ []) else passed) later

keep_after-append :
    (now window : ℕ) (xs ys : List ℕ)
    → keep_after now window (xs ++ ys) ≡ keep_after now window xs ++ keep_after now window ys
unfolding keep_after
keep_after-append now window [] ys = refl
keep_after-append now window (x ∷ xs) ys = ground (arith, keep_after-append now window xs ys)

-- A later cut of what an earlier cut left is the later cut.
keep_after_twice :
    (early late window : ℕ) (xs : List ℕ)
    → early ≤ late
    → keep_after late window (keep_after early window xs) ≡ keep_after late window xs
unfolding keep_after
keep_after_twice early late window [] h = refl
keep_after_twice early late window (x ∷ xs) h =
    ground (arith, keep_after_twice early late window xs h)

length-keep_after : (now window : ℕ) (xs : List ℕ) → length (keep_after now window xs) ≤ length xs
unfolding keep_after
length-keep_after now window [] = omega arith
length-keep_after now window (x ∷ xs) = ground (arith, length-keep_after now window xs)

-- What ties the bucket to the history: at most `limit` stamps, and from `last` on the stamps and
-- all passed events look alike to a cut.
record Tracks (limit window last : ℕ) (stamps passed : List ℕ) : Type 0 where
  few : length stamps ≤ limit
  alike : (now : ℕ) → last ≤ now → keep_after now window stamps ≡ keep_after now window passed

Tracks-pass :
    (limit window last now : ℕ) (stamps passed : List ℕ)
    → last ≤ now
    → Tracks limit window last stamps passed
    → length (keep_after now window stamps) < limit
    → Tracks limit window now (keep_after now window stamps ++ (now ∷ [])) (passed ++ (now ∷ []))
Tracks-pass limit window last now stamps passed le t lt = record {
  few = omega (arith, length-append (keep_after now window stamps) (now ∷ []));
  alike = λ later h.
      keep_after-append later window (keep_after now window stamps) (now ∷ [])
      ∙ ap (λ (k : List ℕ). k ++ keep_after later window (now ∷ []))
          (keep_after_twice now later window stamps h ∙ t.alike later (omega arith))
      ∙ sym (keep_after-append later window passed (now ∷ []));
}

Tracks-stop :
    (limit window last now : ℕ) (stamps passed : List ℕ)
    → last ≤ now
    → Tracks limit window last stamps passed
    → Tracks limit window now (keep_after now window stamps) passed
Tracks-stop limit window last now stamps passed le t = record {
  few = omega (arith, t.few, length-keep_after now window stamps);
  alike = λ later h. keep_after_twice now later window stamps h ∙ t.alike later (omega arith);
}

decide-Tracks :
    (limit window last : ℕ) (stamps passed later : List ℕ)
    → InOrder last later
    → Tracks limit window last stamps passed
    → Tracks limit window
        (last_of last later)
        (decide limit window stamps passed later).0
        (decide limit window stamps passed later).1
unfolding decide allow
decide-Tracks limit window last stamps passed [] o t = t
decide-Tracks limit window last stamps passed (now ∷ later) o t =
    elim (Bool-cases (leb limit (length (keep_after now window stamps)))) [
      | inl e ↦
          rw (e, decide)
            (decide-Tracks limit window now (keep_after now window stamps) passed later o.1
              (Tracks-stop limit window last now stamps passed o.0 t))
      | inr e ↦
          rw (e, decide)
            (decide-Tracks limit window now (keep_after now window stamps ++ (now ∷ []))
              (passed ++ (now ∷ [])) later o.1
              (Tracks-pass limit window last now stamps passed o.0 t (ground arith)))
    ]

-- Of all events that a bucket ever let pass, at most `limit` lie in one window: whatever the events
-- were, in order of time, at any moment from the last of them on, at most `limit` of those that
-- passed are younger than `window`.
pub decide-window :
    (limit window now : ℕ) (events : List ℕ)
    → InOrder 0 events
    → last_of 0 events ≤ now
    → length (keep_after now window (decide limit window [] [] events).1) ≤ limit
decide-window limit window now events o le =
    let t =
      decide-Tracks limit window 0 [] [] events o
        (record { few = omega arith; alike = λ later h. refl }) in
    rw (← t.alike now le)
      (omega (arith, t.few, length-keep_after now window (decide limit window [] [] events).0))
