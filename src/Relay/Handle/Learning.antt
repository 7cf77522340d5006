-- ===== src/Relay/Handle/Learning.antt =====
-- What a registration rests on (internal/relay/server.go: handleControl, register).
use fsend.Base.{ℕ, ◌≡◌, inl, inr, refl, sym, subst, ◌∙◌, arith, Bool, true, false, Bool-cases, ◌&&◌}
use fsend.Base.{
  Option, none, some, some_inj, none_is_not_some, List, [], ◌∷◌, if◌then◌else◌, ◌==◌, replicate,
}
use fsend.Relay.Framing.{Token, parse, Datagram, parse_control, ControlFrame}
use fsend.Relay.Framing.{msg_hello, msg_register, data_version, control_version}
use fsend.Relay.Server.{Endpoint, udp, ws, Peer, Allocation, Server, put, register, evict}
use fsend.Relay.Server.Put.{put-eq-some}
use fsend.Relay.Server.Registration.{IsPeerOf, Accepted, Outcome, accepted, register-Outcome}
use fsend.Relay.Reply.Untouched.{challenge-IsUntouched, handle_stun-IsUntouched}
use fsend.Relay.Reply.{Outside, Sent, challenge, cookie_valid}
use fsend.Relay.Handle.{
  handle, handle_data, data_for, directed, carry, nudge, Direction, unknown, toward,
}
use fsend.Relay.Handle.{
  direction, handle_control, control_for, control_from, registered, handle_other,
}

-- A UDP source has sent a REGISTER with a cookie that is valid for it; a WebSocket needs none.
abbrev pub IsProven : Outside → ControlFrame → Endpoint → ℕ → Type 0
IsProven out f (udp ip port) now =
    (f.typ ≡ msg_register) × (cookie_valid out f.cookie f.token ip port now ≡ true)
IsProven out f (ws link) now = Unit

-- Where a peer of an allocation comes from: it was one before, or the datagram is a control frame
-- for the allocation that proves the source, and the source is recorded under the frame's ID.
pub data Origin (out : Outside) (s : Server) (d : List ℕ) (src : Endpoint) (now : ℕ) (tok : Token)
    (p : Peer) : Type 0 where
  kept : (a : Allocation) → s.allocs tok ≡ some a → IsPeerOf p a → Origin out s d src now tok p
  learned :
      (f : ControlFrame)
      → parse_control d ≡ some f
      → f.token ≡ tok
      → p ≡ record { id = f.id; ep = src }
      → IsProven out f src now
      → Origin out s d src now tok p

module _ (out : Outside) (s : Server) (d : List ℕ) (src : Endpoint) (now : ℕ) where
  -- All peers of the allocations `m` have an origin.
  record Learns (m : Token → Option Allocation) : Type 0 where
    origin :
        (tok : Token) (a : Allocation) (p : Peer)
        → m tok ≡ some a
        → IsPeerOf p a
        → Origin out s d src now tok p

  Learns-same : Learns s.allocs
  Learns-same = record { origin = λ tok a p e i. kept a e i }

  Learns-put :
      (t : Token) (b : Allocation) (m : Token → Option Allocation)
      → Learns m
      → ((p : Peer) → IsPeerOf p b → Origin out s d src now t p)
      → Learns (put t (some b) m)
  Learns-put t b m l h = record {
    origin = λ tok c p e i. elim (put-eq-some t tok (some b) m {v = c} e) [
      | inl (k, g) ↦
          subst (λ u. Origin out s d src now u p) k (h p (subst (IsPeerOf p) (sym (some_inj g)) i))
      | inr g ↦ l.origin tok c p g i
    ];
  }

  -- An allocation whose peers stay.
  Learns-kept :
      (t : Token) (a b : Allocation)
      → s.allocs t ≡ some a
      → b.first ≡ a.first
      → b.second ≡ a.second
      → Learns (put t (some b) s.allocs)
  Learns-kept t a b f x y =
      Learns-put t b s.allocs Learns-same
        (λ p i. kept a f (elim i [ inl z ↦ inl (sym x ∙ z) | inr z ↦ inr (sym y ∙ z) ]))

  Learns-gone : (t : Token) (m : Token → Option Allocation) → Learns m → Learns (put t none m)
  Learns-gone t m l = record {
    origin = λ tok c p e i. elim (put-eq-some t tok none m {v = c} e) [
      | inl (k, g) ↦ absurd (none_is_not_some g)
      | inr g ↦ l.origin tok c p g i
    ];
  }

  Learns-if :
      (b : Bool) (x y : Server × List Sent)
      → Learns x.0.allocs
      → Learns y.0.allocs
      → Learns (if b then x else y).0.allocs
  Learns-if true x y h k = h
  Learns-if false x y h k = k

  Learns-path : {m m' : Token → Option Allocation} → m' ≡ m → Learns m → Learns m'
  Learns-path e l = subst Learns (sym e) l

  carry-Learns :
      (t : Token) (a : Allocation) (q : Peer)
      → s.allocs t ≡ some a
      → Learns (carry s d t a q now).0.allocs
  unfolding carry evict
  carry-Learns t a q f = search (Learns-if, Learns-gone, Learns-kept, f) depth 9

  nudge-Learns :
      (t : Token) (a : Allocation) (w : Endpoint)
      → s.allocs t ≡ some a
      → Learns (nudge out s d t a w now).0.allocs
  unfolding nudge
  nudge-Learns t a (ws link) f = Learns-same
  nudge-Learns t a (udp ip port) f =
      let touched : Server = record s {
        allocs = put t (some (record a { last_nudge = now })) s.allocs;
      } in
      let c : Learns (challenge out touched t (replicate 8 0) ip port now).0.allocs =
        Learns-path ((challenge-IsUntouched out touched t (replicate 8 0) ip port now).allocs)
          (Learns-kept t a (record a { last_nudge = now }) f refl refl) in
      Learns-if _ _ _ c Learns-same

  directed-Learns :
      (t : Token) (a : Allocation) (w : Direction)
      → s.allocs t ≡ some a
      → Learns (directed out s d t a src now w).0.allocs
  unfolding directed
  directed-Learns t a unknown f = nudge-Learns t a src f
  directed-Learns t a (toward none) f =
      Learns-kept t a (record a { last_activity = now }) f refl refl
  directed-Learns t a (toward (some q)) f = carry-Learns t a q f

  data_for-Learns :
      (t : Token) (o : Option Allocation)
      → s.allocs t ≡ o
      → Learns (data_for out s d t o src now).0.allocs
  unfolding data_for
  data_for-Learns t none f = Learns-same
  data_for-Learns t (some a) f = directed-Learns t a (direction a src) f

  handle_data-Learns : (o : Option Datagram) → Learns (handle_data out s d o src now).0.allocs
  unfolding handle_data
  handle_data-Learns none = Learns-same
  handle_data-Learns (some p) = data_for-Learns p.token (s.allocs p.token) refl

  learn-Accepted :
      (f : ControlFrame) (a b : Allocation)
      → parse_control d ≡ some f
      → s.allocs f.token ≡ some a
      → IsProven out f src now
      → Accepted a (record { id = f.id; ep = src }) b
      → Learns (put f.token (some (record b { last_activity = now })) s.allocs)
  learn-Accepted f a b e g h k =
      Learns-put f.token (record b { last_activity = now }) s.allocs Learns-same
        (λ p i. elim (k.no_others p i) [ inl z ↦ learned f e refl z h | inr z ↦ kept a g z ])

  registered-Learns :
      (f : ControlFrame) (a : Allocation) (o : Option Allocation)
      → parse_control d ≡ some f
      → s.allocs f.token ≡ some a
      → IsProven out f src now
      → Outcome a (record { id = f.id; ep = src }) o
      → Learns (registered s f src now o).0.allocs
  unfolding registered
  registered-Learns f a none e g h k = Learns-same
  registered-Learns f a (some _) e g h (accepted b k) = learn-Accepted f a b e g h k

control_from-Learns :
    (out : Outside) (s : Server) (d : List ℕ) (src : Endpoint) (now : ℕ) (f : ControlFrame)
    (a : Allocation)
    → parse_control d ≡ some f
    → s.allocs f.token ≡ some a
    → Learns out s d src now (control_from out s f a src now).0.allocs
unfolding control_from
control_from-Learns out s d (ws link) now f a e g =
    let r =
      registered-Learns out s d (ws link) now f a (register a f.id (ws link)) e g tt
        (register-Outcome a f.id (ws link)) in
    Learns-if out s d (ws link) now _ _ _ r (Learns-same out s d (ws link) now)
control_from-Learns out s d (udp ip port) now f a e g =
    let c =
      Learns-path out s d (udp ip port) now
        ((challenge-IsUntouched out s f.token f.id ip port now).allocs)
        (Learns-same out s d (udp ip port) now) in
    Learns-if out s d (udp ip port) now (f.typ == msg_hello) _ _ c
      (elim (Bool-cases
        ((f.typ == msg_register) && cookie_valid out f.cookie f.token ip port now)) [
          | inl h ↦ rw h (
              registered-Learns out s d (udp ip port) now f a (register a f.id (udp ip port)) e g
                (ground arith) (register-Outcome a f.id (udp ip port)))
          | inr h ↦ rw h (Learns-same out s d (udp ip port) now)
        ])

handle_control-Learns :
    (out : Outside) (s : Server) (d : List ℕ) (src : Endpoint) (now : ℕ) (o : Option ControlFrame)
    → parse_control d ≡ o
    → Learns out s d src now (handle_control out s o src now).0.allocs
unfolding handle_control control_for
handle_control-Learns out s d src now none e = Learns-same out s d src now
handle_control-Learns out s d src now (some f) e = by_alloc (s.allocs f.token) refl
  where
    by_alloc :
        (o : Option Allocation)
        → s.allocs f.token ≡ o
        → Learns out s d src now (control_for out s f o src now).0.allocs
    by_alloc none g = Learns-same out s d src now
    by_alloc (some a) g = control_from-Learns out s d src now f a e g

handle_other-Learns :
    (out : Outside) (s : Server) (d e : List ℕ) (src : Endpoint) (now : ℕ)
    → Learns out s d src now (handle_other out s e src now).0.allocs
unfolding handle_other
handle_other-Learns out s d e (udp ip port) now =
    Learns-path out s d (udp ip port) now ((handle_stun-IsUntouched out s e ip port now).allocs)
      (Learns-same out s d (udp ip port) now)
handle_other-Learns out s d e (ws link) now = Learns-same out s d (ws link) now

handle-Learns :
    (out : Outside) (s : Server) (d : List ℕ) (src : Endpoint) (now : ℕ)
    → Learns out s d src now (handle out s d src now).0.allocs
unfolding handle
handle-Learns out s [] src now = Learns-same out s [] src now
handle-Learns out s (v ∷ vs) src now =
    let d = v ∷ vs in
    let same = Learns-same out s d src now in
    let either = Learns-if out s d src now in
    either (v == data_version) _ _
      (either s.disable_forwarding _ _ same (handle_data-Learns out s d src now (parse d)))
      (either (v == control_version) _ _
        (either s.disable_forwarding _ _ same
          (handle_control-Learns out s d src now (parse_control d) refl))
        (handle_other-Learns out s d d src now))

-- Whatever datagram the relay handles, a peer of an allocation after it was one before, or is the
-- datagram's source, recorded by a control frame with the allocation's token under the ID that the
-- frame names; and if that source is a UDP address, the frame is a REGISTER with a cookie that is
-- valid for the token and the address at this time.
pub handle-Origin :
    (out : Outside) (s : Server) (d : List ℕ) (src : Endpoint) (now : ℕ) (tok : Token)
    (a : Allocation) (p : Peer)
    → (handle out s d src now).0.allocs tok ≡ some a
    → IsPeerOf p a
    → Origin out s d src now tok p
handle-Origin out s d src now tok a p e i = (handle-Learns out s d src now).origin tok a p e i
