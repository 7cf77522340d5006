-- ===== src/Relay/Machine/SessionCap/Steps.antt =====
-- One step keeps the account of a transfer (internal/relay/server.go: handle).
use fsend.Base.{ℕ, ◌+◌, ◌*◌, ◌≤◌, ◌≡◌, ◌⊎◌, inl, inr, refl, sym, ap, subst, ◌∙◌, arith}
use fsend.Base.{Bool, true, false, Bool-cases, Option, none, some}
use fsend.Base.{List, [], ◌∷◌, if◌then◌else◌, suc, length}
use fsend.Relay.Framing.{Token, PeerId, frame_control}
use fsend.Base.Bytes.{bytes_eq}
use fsend.Base.Bytes.{bytes_eq_iff}
use fsend.Relay.Server.{Endpoint, Allocation, Server, put}
use fsend.Relay.Server.Put.{put_hit, put_miss}
use fsend.Relay.Reply.{Sent}
use fsend.Relay.Machine.SessionCap.{is_data, carried, Within}

pub carried_nothing : (tok : Token) (d : List ℕ) → carried tok d [] ≡ 0
carried_nothing tok d = ground arith

-- A control frame is no relay data.
pub carried_answer :
    (tok : Token) (d : List ℕ) (ep : Endpoint) (t : Token) (typ : ℕ) (id : PeerId)
    (c : Option (List ℕ))
    → carried tok d ((ep, frame_control t typ id c) ∷ []) ≡ 0
unfolding frame_control
carried_answer tok d ep t typ id c = ground arith

module _ (tok : Token) (s : Server) (d : List ℕ) where
  pub record Keeps (r : Server × List Sent) : Type 0 where
    pub same_cap : r.0.max_bytes_per_session ≡ s.max_bytes_per_session
    pub within :
        (sum k : ℕ)
        → Within s.max_bytes_per_session sum k (s.allocs tok)
        → Within s.max_bytes_per_session (sum + carried tok d r.1) k (r.0.allocs tok)

  pub Keeps-if :
      (b : Bool) (x y : Server × List Sent) → Keeps x → Keeps y → Keeps (if b then x else y)
  Keeps-if true x y h k = h
  Keeps-if false x y h k = k

  -- The account of an allocation whose bytes stay.
  Within-same :
      (o r : Option Allocation) (sum k n cap : ℕ)
      → n ≡ 0
      → ((o ≡ r)
          ⊎ ((a : Allocation) × (b : Allocation) × (o ≡ some a)
              × (r ≡ some b)
              × (b.bytes ≡ a.bytes)))
      → Within cap sum k o
      → Within cap (sum + n) k r
  Within-same o r sum k n cap z (inl e) w =
      subst (λ m. Within cap m k r) (omega arith) (subst (Within cap sum k) e w)
  Within-same o r sum k n cap z (inr (a, b, e, f, g)) w =
      let (j, kj, low, bound) = subst (Within cap sum k) e w in
      subst (Within cap (sum + n) k) (sym f) (j, kj, omega arith, omega arith)

  pub Keeps-same :
      (s' : Server) (sent : List Sent)
      → s'.max_bytes_per_session ≡ s.max_bytes_per_session
      → s'.allocs ≡ s.allocs
      → carried tok d sent ≡ 0
      → Keeps (s', sent)
  Keeps-same s' sent c m z = record {
    same_cap = c;
    within = λ sum k.
        Within-same (s.allocs tok) (s'.allocs tok) sum k (carried tok d sent) _ z
          (inl (ap (λ f. f tok) (sym m)));
  }

  pub Keeps-put :
      (s' : Server) (sent : List Sent) (t : Token) (a b : Allocation)
      → s'.max_bytes_per_session ≡ s.max_bytes_per_session
      → s'.allocs ≡ put t (some b) s.allocs
      → s.allocs t ≡ some a
      → b.bytes ≡ a.bytes
      → carried tok d sent ≡ 0
      → Keeps (s', sent)
  Keeps-put s' sent t a b c m f g z = record {
    same_cap = c;
    within = λ sum k.
        Within-same (s.allocs tok) (s'.allocs tok) sum k (carried tok d sent) _ z
          (elim (Bool-cases (bytes_eq t tok)) [
            | inl h ↦ inr (
              a,
              b,
              subst (λ u. s.allocs u ≡ some a) ((bytes_eq_iff t tok).0 h) f,
              ap (λ f. f tok) m ∙ put_hit t tok (some b) s.allocs h,
              g,
            )
            | inr h ↦ inl (sym (ap (λ f. f tok) m ∙ put_miss t tok (some b) s.allocs h))
          ]);
  }

  -- An allocation that is evicted has sent no more than its count.
  Within-gone :
      (a : Allocation) (o : Option Allocation) (sum k n cap : ℕ)
      → n ≡ 0
      → o ≡ some a
      → Within cap sum k o
      → Within cap (sum + n) k none
  Within-gone a o sum k n cap z e w =
      let (j, kj, low, bound) = subst (Within cap sum k) e w in
      let split : cap * suc j ≡ cap + cap * j = grind arith in
      let more : sum ≤ cap * suc j = omega (arith, split) in
      subst (λ i. sum + n ≤ cap * i) (sym kj) (omega (arith, more))

  pub Keeps-evicted :
      (s' : Server) (t : Token) (a b : Allocation)
      → s'.max_bytes_per_session ≡ s.max_bytes_per_session
      → s'.allocs ≡ put t none (put t (some b) s.allocs)
      → s.allocs t ≡ some a
      → Keeps (s', [])
  Keeps-evicted s' t a b c m f = record {
    same_cap = c;
    within = λ sum k w. elim (Bool-cases (bytes_eq t tok)) [
      | inl h ↦
          subst (Within s.max_bytes_per_session (sum + carried tok d []) k)
            (sym (ap (λ g. g tok) m ∙ put_hit t tok none (put t (some b) s.allocs) h))
            (Within-gone a (s.allocs tok) sum k (carried tok d []) s.max_bytes_per_session
              (carried_nothing tok d)
              (subst (λ u. s.allocs u ≡ some a) ((bytes_eq_iff t tok).0 h) f) w)
      | inr h ↦
          Within-same (s.allocs tok) (s'.allocs tok) sum k (carried tok d [])
            s.max_bytes_per_session (carried_nothing tok d)
            (inl (
              sym (
                ap (λ g. g tok) m
                ∙ put_miss t tok none (put t (some b) s.allocs) h
                ∙ put_miss t tok (some b) s.allocs h)))
            w
    ];
  }

  Within-more :
      (a b : Allocation) (o : Option Allocation) (sum k n cap : ℕ)
      → o ≡ some a
      → b.bytes ≡ a.bytes + n
      → b.bytes ≤ cap
      → Within cap sum k o
      → Within cap (sum + n) k (some b)
  Within-more a b o sum k n cap e more low w =
      let (j, kj, _, bound) = subst (Within cap sum k) e w in (j, kj, low, omega arith)

  pub Keeps-forwarded :
      (s' : Server) (t : Token) (a b : Allocation) (ep : Endpoint)
      → s'.max_bytes_per_session ≡ s.max_bytes_per_session
      → s'.allocs ≡ put t (some b) s.allocs
      → s.allocs t ≡ some a
      → is_data tok d ≡ bytes_eq t tok
      → ((a.bytes ≤ s.max_bytes_per_session)
          → (b.bytes ≡ a.bytes + length d) × (b.bytes ≤ s.max_bytes_per_session))
      → Keeps (s', (ep, d) ∷ [])
  Keeps-forwarded s' t a b ep c m f i counted = record {
    same_cap = c;
    within = λ sum k w. elim (Bool-cases (bytes_eq t tok)) [
      | inl h ↦
          let known = subst (λ u. s.allocs u ≡ some a) ((bytes_eq_iff t tok).0 h) f in
          let (j, kj, low, bound) = subst (Within s.max_bytes_per_session sum k) known w in
          let (more, fits) = counted low in
          let all_of_it : carried tok d ((ep, d) ∷ []) ≡ length d = rw (i ∙ h) (omega arith) in
          subst (Within s.max_bytes_per_session (sum + carried tok d ((ep, d) ∷ [])) k)
            (sym (ap (λ g. g tok) m ∙ put_hit t tok (some b) s.allocs h))
            (Within-more a b (s.allocs tok) sum k (carried tok d ((ep, d) ∷ []))
              s.max_bytes_per_session known (omega arith) fits w)
      | inr h ↦
          Within-same (s.allocs tok) (s'.allocs tok) sum k (carried tok d ((ep, d) ∷ []))
            s.max_bytes_per_session (rw (i ∙ h) refl)
            (inl (sym (ap (λ g. g tok) m ∙ put_miss t tok (some b) s.allocs h))) w
    ];
  }
