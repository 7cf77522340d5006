-- ===== src/Relay/Handle/Reaction.antt =====
-- Where the relay's datagrams go (internal/relay/server.go: handle, handleControl).
use fsend.Base.{ℕ, ◌≤◌, ◌≡◌, ◌⊎◌, inl, inr, refl, sym, subst, arith, Bool, true, false, Bool-cases}
use fsend.Base.{
  some_inj, Option, none, some, leb, leb→le, List, [], ◌∷◌, ◌++◌, if◌then◌else◌, ltb, length, take,
  drop, replicate,
}
use fsend.Base.{length-append, length-take}
use fsend.Relay.Framing.{Token, PeerId, parse, parse_control, ControlFrame, frame_control}
use fsend.Relay.Framing.RoundTrip.{parse_control_iff, IsSized, parse_control-length}
use fsend.Relay.Server.{Endpoint, udp, ws, is_endpoint, Peer, Allocation, Server, register}
use fsend.Relay.Reply.{
  Outside, Sent, challenge, allow_reply, cookie, cookie_epoch, cookie_message, nudge_due,
}
use fsend.Relay.Handle.{
  handle, handle_data, data_for, directed, carry, nudge, Direction, unknown, toward,
}
use fsend.Relay.Handle.{direction, sits_at, handle_control, control_for, control_from, registered}
use fsend.Relay.Framing.{msg_challenge, msg_registered, data_version, control_version, header_size}

-- What the relay sends for one datagram: nothing; one answer to the datagram's source that is no
-- longer than it; or the datagram itself, to the other peer of a live allocation of which the
-- source is a registered peer.
pub data Reaction (s : Server) (datagram : List ℕ) (src : Endpoint) (sent : List Sent)
    : Type 0 where
  silent : sent ≡ [] → Reaction s datagram src sent
  answered :
      (reply : List ℕ)
      → sent ≡ (src, reply) ∷ []
      → length reply ≤ length datagram
      → Reaction s datagram src sent
  forwarded :
      (tok : Token) (a : Allocation) (p q : Peer)
      → s.allocs tok ≡ some a
      → ((a.first ≡ some p) × (a.second ≡ some q)) ⊎ ((a.first ≡ some q) × (a.second ≡ some p))
      → is_endpoint p.ep src ≡ true
      → sent ≡ (q.ep, datagram) ∷ []
      → Reaction s datagram src sent

length-frame_control :
    (tok : Token) (typ : ℕ) (id : PeerId) (c : Option (List ℕ))
    → length tok ≤ 16
    → length id ≤ 8
    → ((k : List ℕ) → c ≡ some k → length k ≤ 16)
    → length (frame_control tok typ id c) ≤ 42
unfolding frame_control
length-frame_control tok typ id none h k l =
    omega (arith, length-append tok (typ ∷ id ++ replicate 16 0), length-append id (replicate 16 0))
length-frame_control tok typ id (some c) h k l =
    omega (arith, length-append tok (typ ∷ id ++ c), length-append id c, l c refl)

Reaction-if :
    (s : Server) (d : List ℕ) (src : Endpoint) (b : Bool) (x y : Server × List Sent)
    → Reaction s d src x.1
    → Reaction s d src y.1
    → Reaction s d src (if b then x else y).1
Reaction-if s d src true x y h k = h
Reaction-if s d src false x y h k = k

silent_here : (s : Server) (d : List ℕ) (src : Endpoint) → Reaction s d src []
silent_here s d src = silent refl

cookie-length :
    (out : Outside) (tok : Token) (ip : List ℕ) (port epoch : ℕ)
    → length (cookie out tok ip port epoch) ≤ 16
unfolding cookie
cookie-length out tok ip port epoch =
    omega (arith, length-take 16 (out.mac (cookie_message tok ip port epoch)))

-- The state before is any: only its allocations matter, and to no answer.
challenge-Reaction :
    (out : Outside) (s0 s : Server) (d : List ℕ) (tok : Token) (id : PeerId) (ip : List ℕ)
    (port now : ℕ)
    → length tok ≤ 16
    → length id ≤ 8
    → 42 ≤ length d
    → Reaction s0 d (udp ip port) (challenge out s tok id ip port now).1
unfolding challenge
challenge-Reaction out s0 s d tok id ip port now h k l =
    let reply =
      frame_control tok msg_challenge id (some (cookie out tok ip port (cookie_epoch now))) in
    Reaction-if s0 d (udp ip port) (allow_reply out s now ip).1 _ _
      (answered reply refl (
        omega (
          arith,
          length-frame_control tok msg_challenge id
              (some (cookie out tok ip port (cookie_epoch now))) h k
              (λ c e.
                subst (λ z. length z ≤ 16) (some_inj e)
                  (cookie-length out tok ip port (cookie_epoch now))),
        )))
      (silent refl)

carry-Reaction :
    (s : Server) (d : List ℕ) (tok : Token) (a : Allocation) (p q : Peer) (src : Endpoint) (now : ℕ)
    → s.allocs tok ≡ some a
    → ((a.first ≡ some p) × (a.second ≡ some q)) ⊎ ((a.first ≡ some q) × (a.second ≡ some p))
    → is_endpoint p.ep src ≡ true
    → Reaction s d src (carry s d tok a q now).1
unfolding carry
carry-Reaction s d tok a p q src now f sides at =
    let across : Reaction s d src ((q.ep, d) ∷ []) = forwarded tok a p q f sides at refl in
    search (Reaction-if, silent_here, across) depth 6

toward_inj : {o p : Option Peer} → toward o ≡ toward p → o ≡ p
toward_inj e = cc

-- Both sides of an allocation, and where a datagram of the first goes.
data Way (a : Allocation) (src : Endpoint) (w : Direction) : Type 0 where
  lost : w ≡ unknown → Way a src w
  waits : w ≡ toward none → Way a src w
  across :
      (p q : Peer)
      → w ≡ toward (some q)
      → ((a.first ≡ some p) × (a.second ≡ some q)) ⊎ ((a.first ≡ some q) × (a.second ≡ some p))
      → is_endpoint p.ep src ≡ true
      → Way a src w

direction-Way : (a : Allocation) (src : Endpoint) → Way a src (direction a src)
unfolding direction
direction-Way a src = by_peers a.first a.second refl refl
  where
    by_peers :
        (o r : Option Peer)
        → a.first ≡ o
        → a.second ≡ r
        → Way a src
            (if sits_at o src then toward r else if sits_at r src then toward o else unknown)
    by_peers none none e f = lost refl
    by_peers none (some q) e f = elim (Bool-cases (is_endpoint q.ep src)) [
      | inl h ↦ rw h (waits refl)
      | inr h ↦ rw h (lost refl)
    ]
    by_peers (some p) none e f = elim (Bool-cases (is_endpoint p.ep src)) [
      | inl h ↦ rw h (waits refl)
      | inr h ↦ rw h (lost refl)
    ]
    by_peers (some p) (some q) e f = elim (Bool-cases (is_endpoint p.ep src)) [
      | inl h ↦ rw h (across p q refl (inl (e, f)) h)
      | inr h ↦ rw h (elim (Bool-cases (is_endpoint q.ep src)) [
        | inl k ↦ rw k (across q p refl (inr (e, f)) k)
        | inr k ↦ rw k (lost refl)
      ])
    ]

nudge-Reaction :
    (out : Outside) (s : Server) (d : List ℕ) (tok : Token) (a : Allocation) (src : Endpoint)
    (now : ℕ)
    → length tok ≤ 16
    → Reaction s d src (nudge out s d tok a src now).1
unfolding nudge
nudge-Reaction out s d tok a (ws link) now h = silent refl
nudge-Reaction out s d tok a (udp ip port) now h = elim (Bool-cases (leb 42 (length d))) [
  | inl e ↦ rw e (
      Reaction-if s d (udp ip port) (nudge_due a now) _ _
        (challenge-Reaction out s _ d tok (replicate 8 0) ip port now h (omega arith)
          (leb→le 42 (length d) e))
        (silent refl))
  | inr e ↦ rw e (silent refl)
]

data_for-Reaction :
    (out : Outside) (s : Server) (d : List ℕ) (tok : Token) (o : Option Allocation) (src : Endpoint)
    (now : ℕ)
    → s.allocs tok ≡ o
    → length tok ≤ 16
    → Reaction s d src (data_for out s d tok o src now).1
unfolding data_for directed
data_for-Reaction out s d tok none src now f h = silent refl
data_for-Reaction out s d tok (some a) src now f h = by_way (direction a src) (direction-Way a src)
  where
    by_way : (w : Direction) → Way a src w → Reaction s d src (directed out s d tok a src now w).1
    by_way unknown v = nudge-Reaction out s d tok a src now h
    by_way (toward none) v = silent refl
    by_way (toward (some q)) (lost e) = absurd cc
    by_way (toward (some q)) (waits e) = absurd cc
    by_way (toward (some q)) (across p r e sides at) =
        carry-Reaction s d tok a p q src now f
          (subst
            (λ x.
              ((a.first ≡ some p) × (a.second ≡ some x))
              ⊎ ((a.first ≡ some x) × (a.second ≡ some p)))
            (some_inj (sym (toward_inj e))) sides)
          at

registered-Reaction :
    (s : Server) (d : List ℕ) (f : ControlFrame) (src : Endpoint) (now : ℕ) (o : Option Allocation)
    → IsSized f
    → length d ≡ 42
    → Reaction s d src (registered s f src now o).1
unfolding registered
registered-Reaction s d f src now none z h = silent refl
registered-Reaction s d f src now (some a) z h =
    answered (frame_control f.token msg_registered f.id none) refl (
      omega (
        arith,
        z.token_length,
        z.id_length,
        length-frame_control f.token msg_registered f.id none (omega (arith, z.token_length))
            (omega (arith, z.id_length)) (λ k e. absurd cc),
      ))

control_from-Reaction :
    (out : Outside) (s : Server) (d : List ℕ) (f : ControlFrame) (a : Allocation) (src : Endpoint)
    (now : ℕ)
    → IsSized f
    → length d ≡ 42
    → Reaction s d src (control_from out s f a src now).1
unfolding control_from
control_from-Reaction out s d f a (udp ip port) now z h =
    let c =
      challenge-Reaction out s s d f.token f.id ip port now (omega (arith, z.token_length))
        (omega (arith, z.id_length)) (omega arith) in
    let r = registered-Reaction s d f (udp ip port) now (register a f.id (udp ip port)) z h in
    search (Reaction-if, silent_here, c, r) depth 6
control_from-Reaction out s d f a (ws link) now z h =
    let r = registered-Reaction s d f (ws link) now (register a f.id (ws link)) z h in
    search (Reaction-if, silent_here, r) depth 6

handle_control-Reaction :
    (out : Outside) (s : Server) (d : List ℕ) (o : Option ControlFrame) (src : Endpoint) (now : ℕ)
    → parse_control d ≡ o
    → Reaction s d src (handle_control out s o src now).1
unfolding handle_control control_for
handle_control-Reaction out s d none src now e = silent refl
handle_control-Reaction out s d (some f) src now e = by_alloc (s.allocs f.token)
  where
    by_alloc : (o : Option Allocation) → Reaction s d src (control_for out s f o src now).1
    by_alloc none = silent refl
    by_alloc (some a) =
        let (z, made) = (parse_control_iff d f).0 e in
        control_from-Reaction out s d f a src now z (parse_control-length d f e)

handle_data-Reaction :
    (out : Outside) (s : Server) (d : List ℕ) (src : Endpoint) (now : ℕ)
    → Reaction s d src (handle_data out s d (parse d) src now).1
unfolding handle_data parse
handle_data-Reaction out s d src now = elim (Bool-cases (ltb (length d) header_size)) [
  | inl e ↦ rw e (silent refl)
  | inr e ↦ rw e (
      data_for-Reaction out s d (take 16 (drop 1 d)) (s.allocs (take 16 (drop 1 d))) src now refl
        (omega (arith, length-take 16 (drop 1 d))))
]

-- For relay data and for control frames, whatever their bytes and whoever sent them, the relay
-- stays silent, or answers the source with no more bytes than it got, or forwards the datagram as
-- it is to the other peer of a live allocation, of which the source is a registered peer.
pub handle-Reaction :
    (out : Outside) (s : Server) (v : ℕ) (vs : List ℕ) (src : Endpoint) (now : ℕ)
    → (v ≡ data_version) ⊎ (v ≡ control_version)
    → Reaction s (v ∷ vs) src (handle out s (v ∷ vs) src now).1
unfolding handle
handle-Reaction out s v vs src now (inl e) =
    let d = handle_data-Reaction out s (1 ∷ vs) src now in
    rw e (
      Reaction-if s (1 ∷ vs) src s.disable_forwarding (s, [])
        (handle_data out s (1 ∷ vs) (parse (1 ∷ vs)) src now) (silent refl) d)
handle-Reaction out s v vs src now (inr e) =
    let c = handle_control-Reaction out s (2 ∷ vs) (parse_control (2 ∷ vs)) src now refl in
    rw e (
      Reaction-if s (2 ∷ vs) src s.disable_forwarding (s, [])
        (handle_control out s (parse_control (2 ∷ vs)) src now) (silent refl) c)
