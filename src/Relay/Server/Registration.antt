-- ===== src/Relay/Server/Registration.antt =====
-- An allocation is 1↔1 (internal/relay/server.go: register).
use fsend.Base.{
  ◌≡◌, ◌≢◌, ◌⊎◌, inl, inr, refl, sym, ap, subst, ◌∙◌, true, false, Bool-cases, Option-cases, Option,
  none, some, some_inj, none_is_not_some, if◌then◌else◌,
}
use fsend.Relay.Framing.{PeerId}
use fsend.Base.Bytes.{bytes_eq_iff}
use fsend.Relay.Server.{Endpoint, Peer, Allocation, register, has_id, is_free}

abbrev pub IsPeerOf : Peer → Allocation → Type 0
IsPeerOf p a = (a.first ≡ some p) ⊎ (a.second ≡ some p)

-- The two peers of an allocation have different IDs.
abbrev pub IsPair : Allocation → Type 0
IsPair a = (p q : Peer) → a.first ≡ some p → a.second ≡ some q → p.id ≢ q.id

-- The allocation `b` comes from `a` by a registration of the peer `np`.
pub record Accepted (a : Allocation) (np : Peer) (b : Allocation) : Type 0 where
  pub recorded : IsPeerOf np b
  pub others_stay : (p : Peer) → p.id ≢ np.id → IsPeerOf p a → IsPeerOf p b
  pub no_others : (p : Peer) → IsPeerOf p b → (p ≡ np) ⊎ IsPeerOf p a
  pub pair : IsPair a → IsPair b
  pub bytes_stay : b.bytes ≡ a.bytes

pub data Outcome (a : Allocation) (np : Peer) : Option Allocation → Type 0 where
  refused :
      (p q : Peer)
      → a.first ≡ some p
      → a.second ≡ some q
      → p.id ≢ np.id
      → q.id ≢ np.id
      → Outcome a np none
  accepted : (b : Allocation) → Accepted a np b → Outcome a np (some b)

into_first :
    (a : Allocation) (np : Peer)
    → ((p : Peer) → a.first ≡ some p → p.id ≡ np.id)
    → ((q : Peer) → a.second ≡ some q → (a.first ≡ none) → q.id ≢ np.id)
    → Accepted a np (record a { first = some np })
into_first a np old other = record {
  recorded = inl refl;
  bytes_stay = refl;
  others_stay = λ p n i. elim i [ inl e ↦ absurd (n (old p e)) | inr e ↦ inr e ];
  no_others = λ p i. elim i [ inl e ↦ inl (sym (some_inj e)) | inr e ↦ inr (inr e) ];
  pair = λ two p q e f g.
      let same_peer = some_inj e in
      elim (Option-cases a.first) [
        | inl z ↦ other q f z (sym g ∙ sym (ap (λ u. u.id) same_peer))
        | inr (p0, z) ↦ two p0 q z f (old p0 z ∙ ap (λ u. u.id) same_peer ∙ g)
      ];
}

into_second :
    (a : Allocation) (np : Peer)
    → ((p : Peer) → a.second ≡ some p → p.id ≡ np.id)
    → ((q : Peer) → a.first ≡ some q → q.id ≢ np.id)
    → Accepted a np (record a { second = some np })
into_second a np old other = record {
  recorded = inr refl;
  bytes_stay = refl;
  others_stay = λ p n i. elim i [ inl e ↦ inl e | inr e ↦ absurd (n (old p e)) ];
  no_others = λ p i. elim i [ inl e ↦ inr (inl e) | inr e ↦ inl (sym (some_inj e)) ];
  pair = λ two p q e f g. other p e (g ∙ sym (ap (λ u. u.id) (some_inj f)));
}

-- What the test of a slot tells.
owns : (o : Option Peer) (id : PeerId) → has_id o id ≡ true → (p : Peer) → o ≡ some p → p.id ≡ id
owns none id h p e = absurd cc
owns (some q) id h p e = (bytes_eq_iff p.id id).0 (subst (λ u. has_id u id ≡ true) e h)

true_is_not_false : true ≡ false → ⊥
true_is_not_false e = cc

owns_not :
    (o : Option Peer) (id : PeerId) → has_id o id ≡ false → (p : Peer) → o ≡ some p → p.id ≢ id
owns_not o id h p e g =
    true_is_not_false (sym ((bytes_eq_iff p.id id).1 g) ∙ subst (λ u. has_id u id ≡ false) e h)

none_owns : (o : Option Peer) (id : PeerId) → has_id o id ≡ true → o ≡ none → ⊥
none_owns none id h e = cc
none_owns (some p) id h e = cc

-- The second loop: no slot has the ID.
free :
    (a : Allocation) (id : PeerId) (ep : Endpoint)
    → has_id a.first id ≡ false
    → has_id a.second id ≡ false
    → (o r : Option Peer) → a.first ≡ o
    → a.second ≡ r
    → let np : Peer = record { id = id; ep = ep } in
      Outcome a np (
        if is_free o
        then some (record a { first = some np })
        else if is_free r
        then some (record a { second = some np })
        else none)
free a id ep h k none r e f = accepted _ (
    into_first a _ (λ p z. absurd (none_is_not_some (sym e ∙ z)))
      (λ q z _. owns_not a.second id k q z))
free a id ep h k (some p) none e f =
    accepted _
      (into_second a _ (λ q z. absurd (none_is_not_some (sym f ∙ z))) (owns_not a.first id h))
free a id ep h k (some p) (some q) e f =
    refused p q e f (owns_not a.first id h p e) (owns_not a.second id k q f)

-- A registration is refused exactly if the two slots belong to other peers; otherwise the peer is
-- recorded, no other peer is moved or lost, none is added, and the two IDs stay different.
pub register-Outcome :
    (a : Allocation) (id : PeerId) (ep : Endpoint)
    → Outcome a (record { id = id; ep = ep }) (register a id ep)
unfolding register
register-Outcome a id ep =
    let np : Peer = record { id = id; ep = ep } in
    elim (Bool-cases (has_id a.first id)) [
      | inl h ↦ rw h (
          accepted _
            (into_first a np (owns a.first id h) (λ q e z. absurd (none_owns a.first id h z))))
      | inr h ↦ elim (Bool-cases (has_id a.second id)) [
        | inl k ↦
            rw (h, k) (accepted _ (into_second a np (owns a.second id k) (owns_not a.first id h)))
        | inr k ↦ rw (h, k) (free a id ep h k a.first a.second refl refl)
      ]
    ]
