-- ===== src/Relay/Machine/SessionCap/Runs.antt =====
-- No transfer sends more than the cap (internal/relay/server.go: MaxBytesPerSession).
use fsend.Base.{ℕ, ◌+◌, ◌*◌, ◌^◌, ◌≤◌, ◌<◌, ◌≡◌, inl, inr, refl, sym, ap, subst, ◌∙◌, arith}
use fsend.Base.{Bool, true, false, Bool-cases, Option, none, some}
use fsend.Base.{List, [], ◌∷◌, All, if◌then◌else◌, ltb, suc, length}
use fsend.Relay.Framing.{Token, max_datagram}
use fsend.Base.Bytes.{bytes_eq}
use fsend.Base.Bytes.{bytes_eq_iff}
use fsend.Relay.Budget.{DayBudget, exhausted}
use fsend.Relay.Server.{udp, ws, Allocation, Server, put, allocate, allocate_at}
use fsend.Relay.Server.{fresh_allocation, sweep, drain, is_idle, Allocate}
use fsend.Relay.Server.Put.{put_hit, put_miss}
use fsend.Relay.Reply.{Outside, Sent}
use fsend.Relay.Handle.{receive, receive_ws}
use fsend.Relay.Machine.{
  Event, datagram, message, allocation, sweeping, draining, apply, or_ended, new_server,
}
use fsend.Relay.Machine.SessionCap.{
  carried, carried_in, event_bytes, Within, IsRead, draws, draw_of, is_draw,
}
use fsend.Relay.Machine.SessionCap.Steps.{Keeps, Keeps-same, carried_nothing}
use fsend.Relay.Machine.SessionCap.Handling.{IsCapped, handle-Keeps}

receive-Keeps :
    (tok : Token) (out : Outside) (s : Server) (d ip : List ℕ) (port now : ℕ)
    → IsCapped s
    → Keeps tok s d (receive out s d ip port now)
unfolding receive
receive-Keeps tok out s d ip port now c = elim (Bool-cases (ltb max_datagram (length d))) [
  | inl h ↦ rw h (
      Keeps-same tok s d (record s { oversize = s.oversize + 1 }) [] refl refl
        (carried_nothing tok d))
  | inr h ↦ rw h (handle-Keeps tok out s d (udp ip port) now c (ground arith))
]

ended_if :
    (tok : Token) (s : Server) (d : List ℕ) (b : Bool) (x y : Option (Server × List Sent))
    → Keeps tok s d (or_ended s x)
    → Keeps tok s d (or_ended s y)
    → Keeps tok s d (or_ended s (if b then x else y))
ended_if tok s d true x y h k = h
ended_if tok s d false x y h k = k

receive_ws-Keeps :
    (tok : Token) (out : Outside) (s : Server) (t : Token) (link : ℕ) (binary : Bool) (d : List ℕ)
    (now : ℕ)
    → IsCapped s
    → length d ≤ max_datagram
    → Keeps tok s d (or_ended s (receive_ws out s t link binary d now))
unfolding receive_ws
receive_ws-Keeps tok out s t link binary d now c short =
    let h = handle-Keeps tok out s d (ws link) now c short in
    let same = Keeps-same tok s d s [] refl refl (carried_nothing tok d) in
    search (ended_if, same, h) depth 5

Within-later :
    (cap sum k n : ℕ) (o : Option Allocation) → Within cap sum k o → Within cap (sum + 0) (n + k) o
Within-later cap sum k n none w =
    let split : cap * (n + k) ≡ cap * n + cap * k = grind arith in omega (arith, split)
Within-later cap sum k n (some a) (j, kj, low, bound) =
    let split : cap * (n + j) ≡ cap * n + cap * j = grind arith in
    (n + j, omega arith, low, omega (arith, split))

-- What an allocation does to the table.
data Allocating (s : Server) (draw : Option Token) (m : Token → Option Allocation) : Type 0 where
  nothing : m ≡ s.allocs → Allocating s draw m
  fresh :
      (t : Token) (now : ℕ)
      → draw ≡ some t
      → s.allocs t ≡ none
      → m ≡ put t (some (fresh_allocation now)) s.allocs
      → Allocating s draw m

allocating_if :
    (s : Server) (draw : Option Token) (b : Bool) (x y : Server × Allocate)
    → Allocating s draw x.0.allocs
    → Allocating s draw y.0.allocs
    → Allocating s draw (if b then x else y).0.allocs
allocating_if s draw true x y h k = h
allocating_if s draw false x y h k = k

allocate_at-Allocating :
    (s : Server) (b : DayBudget) (t : Token) (now : ℕ) (o : Option Allocation)
    → s.allocs t ≡ o
    → Allocating s (some t) (allocate_at (record s { budget = b }) t now o).0.allocs
allocate_at-Allocating s b t now none e = fresh t now refl e refl
allocate_at-Allocating s b t now (some a) e = nothing refl

allocate-Allocating :
    (s : Server) (draw : Option Token) (now : ℕ) → Allocating s draw (allocate s draw now).0.allocs
unfolding allocate
allocate-Allocating s none now =
    let same : Allocating s none s.allocs = nothing refl in search (allocating_if, same) depth 5
allocate-Allocating s (some t) now =
    let same : Allocating s (some t) s.allocs = nothing refl in
    let drawn = allocate_at-Allocating s (exhausted s.budget now).0 t now (s.allocs t) refl in
    search (allocating_if, same, drawn) depth 5

Within-allocated :
    (cap sum k : ℕ) (tok : Token) (s : Server) (draw : Option Token) (m : Token → Option Allocation)
    → Allocating s draw m
    → Within cap sum k (s.allocs tok)
    → Within cap (sum + 0) ((if is_draw tok draw then 1 else 0) + k) (m tok)
Within-allocated cap sum k tok s draw m (nothing e) w =
    rw (ap (λ f. f tok) e)
      (Within-later cap sum k (if is_draw tok draw then 1 else 0) (s.allocs tok) w)
Within-allocated cap sum k tok s draw m (fresh t now e f g) w = elim (Bool-cases (bytes_eq t tok)) [
  | inl h ↦
      let dead = subst (Within cap sum k) (ap s.allocs (sym ((bytes_eq_iff t tok).0 h)) ∙ f) w in
      rw (ap (λ u. u tok) g ∙ put_hit t tok (some (fresh_allocation now)) s.allocs h, e, h)
        ((k, omega arith, omega arith, omega (arith, dead)))
  | inr h ↦
      rw (ap (λ u. u tok) g ∙ put_miss t tok (some (fresh_allocation now)) s.allocs h)
        (Within-later cap sum k (if is_draw tok draw then 1 else 0) (s.allocs tok) w)
]

-- One event: the cap stays, and so does the account.
record Step (tok : Token) (s : Server) (e : Event) (r : Server × List Sent) : Type 0 where
  same_cap : r.0.max_bytes_per_session ≡ s.max_bytes_per_session
  within :
      (sum k : ℕ)
      → Within s.max_bytes_per_session sum k (s.allocs tok)
      → Within s.max_bytes_per_session
          (sum + carried tok (event_bytes e) r.1)
          ((if is_draw tok (draw_of e) then 1 else 0) + k)
          (r.0.allocs tok)

allocate-cap :
    (s : Server) (draw : Option Token) (now : ℕ)
    → (allocate s draw now).0.max_bytes_per_session ≡ s.max_bytes_per_session
unfolding allocate
allocate-cap s none now = ground arith
allocate-cap s (some t) now = ground arith

Within-swept :
    (cap sum k now : ℕ) (o : Option Allocation)
    → Within cap sum k o
    → Within cap (sum + 0) k (if is_idle now o then none else o)
Within-swept cap sum k now none w = omega (arith, w)
Within-swept cap sum k now (some a) (j, kj, low, bound) =
    let split : cap * suc j ≡ cap + cap * j = grind arith in
    let more : sum + 0 ≤ cap * k = rw kj (omega (arith, split)) in
    elim (Bool-cases (is_idle now (some a))) [
      | inl h ↦ rw h more
      | inr h ↦ rw h (j, kj, low, omega arith)
    ]

no_draw : (cap sum k : ℕ) (o : Option Allocation) → Within cap sum k o → Within cap sum (0 + k) o
no_draw cap sum k o w = subst (λ i. Within cap sum i o) (omega arith) w

apply-Step :
    (tok : Token) (out : Outside) (s : Server) (e : Event)
    → IsCapped s
    → IsRead e
    → Step tok s e (apply out s e)
unfolding apply sweep drain
apply-Step tok out s (datagram d ip port now) c r =
    let k = receive-Keeps tok out s d ip port now c in
    record { same_cap = k.same_cap; within = λ sum i w. no_draw _ _ i _ (k.within sum i w) }
apply-Step tok out s (message t link binary d now) c r =
    let k = receive_ws-Keeps tok out s t link binary d now c r in
    record { same_cap = k.same_cap; within = λ sum i w. no_draw _ _ i _ (k.within sum i w) }
apply-Step tok out s (allocation draw now) c r = record {
  same_cap = allocate-cap s draw now;
  within = λ sum k w.
      Within-allocated s.max_bytes_per_session sum k tok s draw (allocate s draw now).0.allocs
        (allocate-Allocating s draw now) w;
}
apply-Step tok out s (sweeping now) c r = record {
  same_cap = refl;
  within =
      λ sum k w. no_draw _ _ k _ (Within-swept s.max_bytes_per_session sum k now (s.allocs tok) w);
}
apply-Step tok out s draining c r = record {
  same_cap = refl;
  within = λ sum k w. Within-later s.max_bytes_per_session sum k 0 (s.allocs tok) w;
}

Within-bound : (cap sum k : ℕ) (o : Option Allocation) → Within cap sum k o → sum ≤ cap * k
Within-bound cap sum k none w = w
Within-bound cap sum k (some a) (j, kj, low, bound) =
    let split : cap * suc j ≡ cap + cap * j = grind arith in rw kj (omega (arith, split))

the_count : (m n k : ℕ) → m + (n + k) ≡ n + m + k
the_count m n k = omega arith

carried_in-bound :
    (tok : Token) (out : Outside) (s : Server) (es : List Event) (sum k : ℕ)
    → IsCapped s
    → All IsRead es
    → Within s.max_bytes_per_session sum k (s.allocs tok)
    → sum + carried_in out tok s es ≤ s.max_bytes_per_session * (draws tok es + k)
unfolding carried_in
carried_in-bound tok out s [] sum k c r w =
    omega (arith, Within-bound s.max_bytes_per_session sum k (s.allocs tok) w)
carried_in-bound tok out s (e ∷ es) sum k c r w =
    let step = apply-Step tok out s e c r.0 in
    let s' = (apply out s e).0 in
    let now_sent = carried tok (event_bytes e) (apply out s e).1 in
    let drawn : ℕ = if is_draw tok (draw_of e) then 1 else 0 in
    let capped : IsCapped s' = record {
      positive = omega (arith, c.positive, step.same_cap);
      no_wrap = omega (arith, c.no_wrap, step.same_cap);
    } in
    let rest = carried_in-bound tok out s' es (sum + now_sent) (drawn + k) capped r.1 (
      subst (λ m. Within m (sum + now_sent) (drawn + k) (s'.allocs tok)) (sym step.same_cap)
        (step.within sum k w)) in
    let total = sum + now_sent + carried_in out tok s' es in
    let bound =
      subst (λ i. total ≤ s.max_bytes_per_session * i) (the_count (draws tok es) drawn k)
        (subst (λ m. total ≤ m * (draws tok es + (drawn + k))) step.same_cap rest) in
    omega (arith, bound)

-- On a relay with a cap per session, for which the count of bytes does not wrap, all the bytes of
-- a transfer that any sequence of events makes it send, are at most the cap, times how often the
-- transfer's token is drawn (a token of 16 random bytes: once).
pub run-cap :
    (tok : Token) (out : Outside) (cap day_limit : ℕ) (disabled : Bool) (es : List Event)
    → 0 < cap
    → cap + max_datagram < 2 ^ 64
    → All IsRead es
    → carried_in out tok (new_server cap day_limit disabled) es ≤ cap * draws tok es
unfolding new_server
run-cap tok out cap day_limit disabled es p n r =
    let b =
      carried_in-bound tok out (new_server cap day_limit disabled) es 0 0
        (record { positive = p; no_wrap = n }) r (omega arith) in
    let none_before : draws tok es + 0 ≡ draws tok es = omega arith in
    let sent = carried_in out tok (new_server cap day_limit disabled) es in
    let bound = subst (λ i. 0 + sent ≤ cap * i) none_before b in omega (arith, bound)
