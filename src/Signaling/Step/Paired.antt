-- ===== src/Signaling/Step/Paired.antt =====
-- A session that is paired stays so (internal/server/server.go), over runs of calls and sweeps.
use fsend.Base.{ℕ, ◌≡◌, refl, sym, subst, ◌∙◌, inl, inr}
use fsend.Base.{Bool, true, false, Option, none, some, List, [], ◌∷◌, ◌++◌, All}
use fsend.Base.{Bool-cases, if◌then◌else◌}
use fsend.Base.Maps.{String, same, same_iff}
use fsend.Signaling.Session.{
  IceCreds, paired, Session, Server, Side, sender, receiver, find, store, find_slot, side_for_token,
}
use fsend.Signaling.Tables.{Distinct, All-find, All-drop_id, All-store, find-none_ne}
use fsend.Signaling.RateLimit.{Addresses, allow_new_session}
use fsend.Signaling.Pairing
use fsend.Signaling.Pairing.{Reply, failed, joined, Client, Draw, join_session}
use fsend.Signaling.Endpoints
use fsend.Signaling.Endpoints.{Allocated}
use fsend.Signaling.Janitor
use fsend.Signaling.Once.{Outcome, refused, paired_up}
use fsend.Signaling.Step.Meeting.{find_slot-id}

module _ (id : String) where
  -- A session with the ID is paired.
  abbrev pub IsSpent : Session → Type 0
  IsSpent t = same id t.id ≡ true → t.state ≡ paired

  pub data Stays (r : Server × Reply) : Type 0 where
    stays : All IsSpent r.0.by_id → Stays r

  pub Stays-as_is : (s : Server) (r : Reply) → All IsSpent s.by_id → Stays (s, r)
  Stays-as_is s r a = stays a

  pub Stays-if : (b : Bool) (x y : Server × Reply) → Stays x → Stays y → Stays (if b then x else y)
  Stays-if true x y h k = h
  Stays-if false x y h k = k

  ruleset staying = (Stays-as_is, Stays-if)

  pub spent : {r : Server × Reply} → Stays r → All IsSpent r.0.by_id
  spent (stays a) = a

  -- The object behind a pointer is changed, but not its ID or state.
  store-kept :
      (s : Server) (t u : Session)
      → All IsSpent s.by_id
      → find t.id s.by_id ≡ some t
      → (IsSpent t → IsSpent u)
      → All IsSpent (store u s.by_id)
  store-kept s t u a f same_one =
      All-store IsSpent u s.by_id a (same_one (All-find IsSpent t.id s.by_id a f))

  -- The session that was paired is the only one with its ID.
  pub paired-IsSpent :
      (u : Session) (ss : List Session)
      → Distinct ss
      → u.state ≡ paired
      → u.id ≡ id
      → All IsSpent (store u ss)
  unfolding store
  paired-IsSpent u [] d p e = tt
  paired-IsSpent u (s ∷ ss) d p e = elim (Bool-cases (same u.id s.id)) [
    | inl c ↦ rw c (
      (λ z. p),
      others ss (
          subst (λ j. All (λ t. same j t.id ≡ false) ss) ((sym ((same_iff u.id s.id).0 c)) ∙ e)
            (find-none_ne s.id ss d.0)),
    )
    | inr c ↦
        rw c
          ((λ z. absurd (cc (subst (λ j. same j s.id ≡ false) e c))), paired-IsSpent u ss d.1 p e)
  ]
    where
      others : (ts : List Session) → All (λ t. same id t.id ≡ false) ts → All IsSpent ts
      others [] n = tt
      others (t ∷ ts) n = ((λ z. absurd (cc (n.0))), others ts n.1)

  mint-Stays :
      (s : Server) (slot ip key : String) (now : ℕ) (sid : String) (tok : Option String)
      (ice : Option IceCreds)
      → same id sid ≡ false
      → All IsSpent s.by_id
      → Stays (Pairing.mint s slot ip key now sid tok ice)
  unfolding Pairing.mint Pairing.new_session Pairing.add_session
  mint-Stays s slot ip key now sid none ice f a = stays a
  mint-Stays s slot ip key now sid (some tok) none f a = stays a
  mint-Stays s slot ip key now sid (some tok) (some ice) f a =
      stays ((λ z. absurd (cc f)), All-drop_id IsSpent sid s.by_id a)

  pub create-Stays :
      (net : Addresses) (s : Server) (c : Client) (slot : Option String) (now : ℕ) (draw : Draw)
      → same id draw.session_id ≡ false
      → All IsSpent s.by_id
      → Stays (Pairing.create_session net s c slot now draw)
  unfolding Pairing.create_session
  create-Stays net s c none now draw f a = search staying
  create-Stays net s c (some slot) now draw f a =
      let buckets = (allow_new_session net s c.ip now).0 in
      let minted =
        mint-Stays (record s { ip_bucket = buckets }) slot c.ip (net.rate_limit_key c.ip) now
          draw.session_id draw.role_token draw.ice f a in
      search (staying, a, minted) depth 9

  pub join-Stays :
      (s : Server) (slot : String) (r : Server × Reply)
      → All IsSpent s.by_id
      → Outcome s slot r
      → All IsSpent r.0.by_id
  join-Stays s slot r a (refused n e i l) = rw i a
  join-Stays s slot r a (paired_up t u f w p same_id ids slots e) =
      rw ids (All-store IsSpent u s.by_id a (λ z. p))

  heartbeat-IsSpent :
      (s : Server) (t : Session) (ip key : String) (now : ℕ)
      → All IsSpent s.by_id
      → find t.id s.by_id ≡ some t
      → All IsSpent (Pairing.heartbeat s t ip key now).by_id
  unfolding Pairing.heartbeat Pairing.store_and_retain
  heartbeat-IsSpent s t ip key now a f = elim (Bool-cases (same t.sender_rate_key "")) [
    | inl e ↦
        let u = record t { last_seen = now; sender_addr = ip; sender_rate_key = key } in
        rw e (store-kept s t u a f (λ h. h))
    | inr e ↦ rw e (store-kept s t (record t { last_seen = now }) a f (λ h. h))
  ]

  wait_found-Stays :
      (s : Server) (o : Option Session) (tok ip key : String) (now : ℕ)
      → All IsSpent s.by_id
      → ((t : Session) → o ≡ some t → find t.id s.by_id ≡ some t)
      → Stays (Pairing.wait_found s o tok ip key now)
  unfolding Pairing.wait_found
  wait_found-Stays s none tok ip key now a f = stays a
  wait_found-Stays s (some t) tok ip key now a f =
      search (staying, a, heartbeat-IsSpent s t ip key now a (f t refl))

  pub wait-Stays :
      (net : Addresses) (s : Server) (ip slot tok : String) (now : ℕ)
      → All IsSpent s.by_id
      → Stays (Pairing.wait_session net s ip slot tok now)
  unfolding Pairing.wait_session
  wait-Stays net s ip slot tok now a =
      let s' : Server = record s { ip_bucket = (allow_new_session net s ip now).0 } in
      let found =
        wait_found-Stays s' (find_slot slot s') tok ip (net.rate_limit_key ip) now a
          (find_slot-id slot s') in
      search (staying, a, found)

  pub authorized-Stays :
      (s : Server) (o : Option Session) (tok : String) (run : Session → Side → Server × Reply)
      → All IsSpent s.by_id
      → ((t : Session) (side : Side) → o ≡ some t → Stays (run t side))
      → Stays (Endpoints.authorized s o tok run)
  unfolding Endpoints.authorized
  authorized-Stays s none tok run a h = stays a
  authorized-Stays s (some t) tok run a h = go (side_for_token t tok)
    where
      go : (side : Option Side) → Stays (Endpoints.on_side s side (run t))
      go none = stays a
      go (some side) = h t side refl

  pub push_to-Stays :
      (s : Server) (cs : List String) (t : Session) (side : Side)
      → All IsSpent s.by_id
      → find t.id s.by_id ≡ some t
      → Stays (Endpoints.push_to s cs t side)
  unfolding Endpoints.push_to
  push_to-Stays s cs t sender a f =
      let kept =
        store-kept s t (record t { sender_candidates = t.sender_candidates ++ cs }) a f (λ h. h) in
      search (staying, a, kept)
  push_to-Stays s cs t receiver a f =
      let kept =
        store-kept s t (record t { receiver_candidates = t.receiver_candidates ++ cs }) a f
          (λ h. h) in
      search (staying, a, kept)

  pub pull_from-Stays :
      (s : Server) (since : ℕ) (t : Session) (side : Side)
      → All IsSpent s.by_id
      → Stays (Endpoints.pull_from s since t side)
  unfolding Endpoints.pull_from
  pull_from-Stays s since t side a = search (staying, a)

  pub relay_for-Stays :
      (s : Server) (t : Session) (o : Option String) (answer : Allocated)
      → All IsSpent s.by_id
      → find t.id s.by_id ≡ some t
      → Stays (Endpoints.relay_for s t o answer)
  relay_for-Stays s t (some tok) answer a f = stays a
  relay_for-Stays s t none (Allocated.slot tok) a f =
      stays (store-kept s t (record t { relay_token = some tok }) a f (λ h. h))
  relay_for-Stays s t none Allocated.budget_spent a f = stays a
  relay_for-Stays s t none Allocated.draining a f = stays a
  relay_for-Stays s t none Allocated.alloc_failed a f = stays a

  pub end_session-Stays :
      (s : Server) (j : String) (consumed : Bool) (now : ℕ) (t : Session) (side : Side)
      → All IsSpent s.by_id
      → Stays (Endpoints.end_session s j consumed now t side)
  unfolding Endpoints.end_session
  end_session-Stays s j consumed now t side a = stays (All-drop_id IsSpent j s.by_id a)

  either-IsSpent :
      (b : Bool) (s s' : Server)
      → All IsSpent s.by_id
      → All IsSpent s'.by_id
      → All IsSpent (if b then s else s').by_id
  either-IsSpent true s s' a a' = a
  either-IsSpent false s s' a a' = a'

  pub evict_sessions-IsSpent :
      (now : ℕ) (todo : List Session) (s : Server)
      → All IsSpent s.by_id
      → All IsSpent (Janitor.evict_sessions now todo s).by_id
  unfolding Janitor.evict_sessions Janitor.evict_one
  evict_sessions-IsSpent now [] s a = a
  evict_sessions-IsSpent now (t ∷ todo) s a = evict_sessions-IsSpent now todo _ (
      either-IsSpent (Janitor.is_overdue s now t) (Janitor.evict_one t s) s
        (All-drop_id IsSpent t.id s.by_id a) a)
