-- ===== src/Relay/Machine/SessionCap/Handling.antt =====
-- A datagram keeps the account of every transfer (internal/relay/server.go: handle).
use fsend.Base.{ℕ, ◌+◌, ◌%◌, ◌^◌, ◌≤◌, ◌<◌, ◌≡◌, inl, inr, refl, sym, subst, arith}
use fsend.Base.{Bool, true, false, ◌&&◌, Bool-cases, Option, none, some}
use fsend.Base.{List, [], ◌∷◌, if◌then◌else◌, ltb, ◌==◌, ==_iff, length, take, replicate}
use fsend.Relay.Framing.{
  Token, PeerId, ControlFrame, parse, parse_control, max_datagram, header_size,
}
use fsend.Base.Bytes.{bytes_eq}
use fsend.Relay.Framing.{data_version, control_version}
use fsend.Relay.Budget.{charge}
use fsend.Relay.Server.{Endpoint, udp, ws, Peer, Allocation, Server, put, evict}
use fsend.Relay.Server.Registration.{Outcome, accepted, register-Outcome}
use fsend.Relay.Reply.{Outside, Sent, challenge, handle_stun}
use fsend.Relay.Reply.Untouched.{challenge-IsUntouched, handle_stun-IsUntouched}
use fsend.Relay.Handle.{
  handle, handle_data, data_for, directed, carry, nudge, Direction, unknown, toward,
}
use fsend.Relay.Handle.{
  direction, handle_control, control_for, control_from, registered, handle_other,
}
use fsend.Relay.Machine.SessionCap.{is_data, carried}
use fsend.Relay.Machine.SessionCap.Steps.{Keeps, Keeps-if, Keeps-same, Keeps-put, Keeps-evicted}
use fsend.Relay.Machine.SessionCap.Steps.{Keeps-forwarded, carried_nothing, carried_answer}

-- What the cap needs: there is one, and the count of bytes does not wrap.
pub record IsCapped (s : Server) : Type 0 where
  pub positive : 0 < s.max_bytes_per_session
  pub no_wrap : s.max_bytes_per_session + max_datagram < 2 ^ 64

carry-Keeps :
    (tok : Token) (s : Server) (d : List ℕ) (t : Token) (a : Allocation) (q : Peer) (now : ℕ)
    → IsCapped s
    → length d ≤ max_datagram
    → s.allocs t ≡ some a
    → is_data tok d ≡ bytes_eq t tok
    → Keeps tok s d (carry s d t a q now)
unfolding carry evict
carry-Keeps tok s d t a q now c short f i =
    let sum = (a.bytes + length d) % 2 ^ 64 in
    let b : Allocation = record a { last_activity = now; bytes = sum } in
    let b' : Allocation = record a { last_activity = now; bytes = sum; data_counted = true } in
    elim (Bool-cases (ltb 0 s.max_bytes_per_session && ltb s.max_bytes_per_session sum)) [
      | inl h ↦ rw h (Keeps-evicted tok s d _ t a b refl refl f)
      | inr h ↦ rw h (
          Keeps-if tok s d (charge s.budget now (length d)).1 _ _
            (Keeps-evicted tok s d _ t a b refl refl f)
            (Keeps-forwarded tok s d _ t a b' q.ep refl refl f i
              (λ low. (omega (arith, c.no_wrap), ground (arith, c.no_wrap, c.positive)))))
    ]

carried_if :
    (tok : Token) (d : List ℕ) (b : Bool) (x y : Server × List Sent)
    → carried tok d x.1 ≡ 0
    → carried tok d y.1 ≡ 0
    → carried tok d (if b then x else y).1 ≡ 0
carried_if tok d true x y h k = h
carried_if tok d false x y h k = k

carried-challenge :
    (tok : Token) (d : List ℕ) (out : Outside) (s : Server) (t : Token) (id : PeerId) (ip : List ℕ)
    (port now : ℕ)
    → carried tok d (challenge out s t id ip port now).1 ≡ 0
unfolding challenge
carried-challenge tok d out s t id ip port now =
    search (carried_if, carried_nothing, carried_answer) depth 5

nudge-Keeps :
    (tok : Token) (out : Outside) (s : Server) (d : List ℕ) (t : Token) (a : Allocation)
    (src : Endpoint) (now : ℕ)
    → s.allocs t ≡ some a
    → Keeps tok s d (nudge out s d t a src now)
unfolding nudge
nudge-Keeps tok out s d t a (ws link) now f =
    Keeps-same tok s d s [] refl refl (carried_nothing tok d)
nudge-Keeps tok out s d t a (udp ip port) now f =
    let b : Allocation = record a { last_nudge = now } in
    let touched : Server = record s { allocs = put t (some b) s.allocs } in
    let u = challenge-IsUntouched out touched t (replicate 8 0) ip port now in
    Keeps-if tok s d _ _ _
      (Keeps-put tok s d (challenge out touched t (replicate 8 0) ip port now).0
        (challenge out touched t (replicate 8 0) ip port now).1 t a b u.cap u.allocs f refl
        (carried-challenge tok d out touched t (replicate 8 0) ip port now))
      (Keeps-same tok s d s [] refl refl (carried_nothing tok d))

data_for-Keeps :
    (tok : Token) (out : Outside) (s : Server) (d : List ℕ) (t : Token) (o : Option Allocation)
    (src : Endpoint) (now : ℕ)
    → IsCapped s
    → length d ≤ max_datagram
    → s.allocs t ≡ o
    → is_data tok d ≡ bytes_eq t tok
    → Keeps tok s d (data_for out s d t o src now)
unfolding data_for directed
data_for-Keeps tok out s d t none src now c short f i =
    Keeps-same tok s d s [] refl refl (carried_nothing tok d)
data_for-Keeps tok out s d t (some a) src now c short f i = by_way (direction a src)
  where
    by_way : (w : Direction) → Keeps tok s d (directed out s d t a src now w)
    by_way unknown = nudge-Keeps tok out s d t a src now f
    by_way (toward none) =
        Keeps-put tok s d _ [] t a (record a { last_activity = now }) refl refl f refl
          (carried_nothing tok d)
    by_way (toward (some q)) = carry-Keeps tok s d t a q now c short f i

handle_data-Keeps :
    (tok : Token) (out : Outside) (s : Server) (vs : List ℕ) (src : Endpoint) (now : ℕ)
    → IsCapped s
    → length (1 ∷ vs) ≤ max_datagram
    → Keeps tok s (1 ∷ vs) (handle_data out s (1 ∷ vs) (parse (1 ∷ vs)) src now)
unfolding handle_data parse
handle_data-Keeps tok out s vs src now c short =
    elim (Bool-cases (ltb (length (1 ∷ vs)) header_size)) [
      | inl e ↦ rw e (Keeps-same tok s (1 ∷ vs) s [] refl refl (carried_nothing tok (1 ∷ vs)))
      | inr e ↦ rw e (
          data_for-Keeps tok out s (1 ∷ vs) (take 16 vs) (s.allocs (take 16 vs)) src now c short
            refl refl)
    ]

-- What is sent for a datagram that is no relay data.
carried_other :
    (tok : Token) (v : ℕ) (vs : List ℕ) (sent : List Sent)
    → (v == 1) ≡ false
    → carried tok (v ∷ vs) sent ≡ 0
carried_other tok v vs sent h = rw h refl

registered-Keeps :
    (tok : Token) (s : Server) (v : ℕ) (vs : List ℕ) (f : ControlFrame) (src : Endpoint) (now : ℕ)
    (a : Allocation) (o : Option Allocation)
    → (v == 1) ≡ false
    → s.allocs f.token ≡ some a
    → Outcome a (record { id = f.id; ep = src }) o
    → Keeps tok s (v ∷ vs) (registered s f src now o)
unfolding registered
registered-Keeps tok s v vs f src now a none h g k =
    Keeps-same tok s (v ∷ vs) s [] refl refl (carried_nothing tok (v ∷ vs))
registered-Keeps tok s v vs f src now a (some b) h g (accepted _ k) =
    Keeps-put tok s (v ∷ vs) _ _ f.token a (record b { last_activity = now }) refl refl g
      k.bytes_stay (carried_other tok v vs (registered s f src now (some b)).1 h)

control_from-Keeps :
    (tok : Token) (out : Outside) (s : Server) (v : ℕ) (vs : List ℕ) (f : ControlFrame)
    (a : Allocation) (src : Endpoint) (now : ℕ)
    → (v == 1) ≡ false
    → s.allocs f.token ≡ some a
    → Keeps tok s (v ∷ vs) (control_from out s f a src now)
unfolding control_from
control_from-Keeps tok out s v vs f a (ws link) now h g =
    let d = v ∷ vs in
    Keeps-if tok s d _ _ _
      (registered-Keeps tok s v vs f (ws link) now a _ h g (register-Outcome a f.id (ws link)))
      (Keeps-same tok s d s [] refl refl (carried_nothing tok d))
control_from-Keeps tok out s v vs f a (udp ip port) now h g =
    let d = v ∷ vs in
    let u = challenge-IsUntouched out s f.token f.id ip port now in
    Keeps-if tok s d _ _ _
      (Keeps-same tok s d (challenge out s f.token f.id ip port now).0
        (challenge out s f.token f.id ip port now).1 u.cap u.allocs
        (carried_other tok v vs (challenge out s f.token f.id ip port now).1 h))
      (Keeps-if tok s d _ _ _
        (registered-Keeps tok s v vs f (udp ip port) now a _ h g
          (register-Outcome a f.id (udp ip port)))
        (Keeps-same tok s d s [] refl refl (carried_nothing tok d)))

handle_control-Keeps :
    (tok : Token) (out : Outside) (s : Server) (v : ℕ) (vs : List ℕ) (o : Option ControlFrame)
    (src : Endpoint) (now : ℕ)
    → (v == 1) ≡ false
    → Keeps tok s (v ∷ vs) (handle_control out s o src now)
unfolding handle_control control_for
handle_control-Keeps tok out s v vs none src now h =
    Keeps-same tok s (v ∷ vs) s [] refl refl (carried_nothing tok (v ∷ vs))
handle_control-Keeps tok out s v vs (some f) src now h = by_alloc (s.allocs f.token) refl
  where
    by_alloc :
        (o : Option Allocation)
        → s.allocs f.token ≡ o
        → Keeps tok s (v ∷ vs) (control_for out s f o src now)
    by_alloc none g = Keeps-same tok s (v ∷ vs) s [] refl refl (carried_nothing tok (v ∷ vs))
    by_alloc (some a) g = control_from-Keeps tok out s v vs f a src now h g

handle_other-Keeps :
    (tok : Token) (out : Outside) (s : Server) (v : ℕ) (vs : List ℕ) (src : Endpoint) (now : ℕ)
    → (v == 1) ≡ false
    → Keeps tok s (v ∷ vs) (handle_other out s (v ∷ vs) src now)
unfolding handle_other
handle_other-Keeps tok out s v vs (ws link) now h =
    Keeps-same tok s (v ∷ vs) s [] refl refl (carried_nothing tok (v ∷ vs))
handle_other-Keeps tok out s v vs (udp ip port) now h =
    let u = handle_stun-IsUntouched out s (v ∷ vs) ip port now in
    Keeps-same tok s (v ∷ vs) (handle_stun out s (v ∷ vs) ip port now).0
      (handle_stun out s (v ∷ vs) ip port now).1 u.cap u.allocs
      (carried_other tok v vs (handle_stun out s (v ∷ vs) ip port now).1 h)

pub handle-Keeps :
    (tok : Token) (out : Outside) (s : Server) (d : List ℕ) (src : Endpoint) (now : ℕ)
    → IsCapped s
    → length d ≤ max_datagram
    → Keeps tok s d (handle out s d src now)
unfolding handle
handle-Keeps tok out s [] src now c short = Keeps-same tok s [] s [] refl refl refl
handle-Keeps tok out s (v ∷ vs) src now c short =
    let same = Keeps-same tok s (v ∷ vs) s [] refl refl (carried_nothing tok (v ∷ vs)) in
    let either = Keeps-if tok s (v ∷ vs) in
    elim (Bool-cases (v == data_version)) [
      | inl h ↦ rw h (
          either s.disable_forwarding _ _ same (
            subst (λ w. Keeps tok s (w ∷ vs) (handle_data out s (w ∷ vs) (parse (w ∷ vs)) src now))
              (sym ((==_iff v 1).0 h)) (handle_data-Keeps tok out s vs src now c short)))
      | inr h ↦ rw h (
          either (v == control_version) _ _
            (either s.disable_forwarding _ _ same
              (handle_control-Keeps tok out s v vs (parse_control (v ∷ vs)) src now h))
            (handle_other-Keeps tok out s v vs src now h))
    ]
