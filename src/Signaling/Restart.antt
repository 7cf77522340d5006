-- ===== src/Signaling/Restart.antt =====
-- The sessions that a restart brings back (internal/server/state.go: LoadState).
use fsend.Base.{
  ℕ, ◌+◌, ◌≡◌, refl, arith, false, Bool-cases, inl, inr, Option, none, some, List, [], ◌∷◌, length,
}
use fsend.Base.{true, subst, All}
use fsend.Base.Maps.{String, same, same_iff, same_refl, same_sym, lookup, lookup-insert}
use fsend.Signaling.Session.{waiting, Session, Server, find}
use fsend.Signaling.Pairing.{is_slot, is_taken}
use fsend.Signaling.Tables.{drop_id_fresh, All-drop_id, held}
use fsend.Signaling.Janitor.{older, Saved, restored, is_dropped, is_found, restore_one, load_state}
use fsend.Signaling.Step.Invariant.{Alone, Inv}

not_found : (o : Option Session) → is_found o ≡ false → o ≡ none
not_found none e = refl
not_found (some t) e = cc

not_taken : (o : Option String) → is_taken o ≡ false → o ≡ none
not_taken none e = refl
not_taken (some i) e = cc

fresh_if_kept :
    (s : Server) (v : Saved) (now : ℕ) → is_dropped s v now ≡ false → find v.id s.by_id ≡ none
unfolding is_dropped
fresh_if_kept s v now e = not_found (find v.id s.by_id) (ground arith)

restore_one-Inv :
    (s : Server) (v : Saved) (now : ℕ)
    → Inv s
    → find v.id s.by_id ≡ none
    → Inv (restore_one s v now) × (length (restore_one s v now).by_id ≡ length s.by_id + 1)
unfolding restore_one restored held
restore_one-Inv s v now i f = (
  record {
    distinct = rw (drop_id_fresh v.id s.by_id f) (f, i.distinct);
    alone = (
      record { no_receiver = λ z. refl; no_token = λ z. refl; gate = λ z. refl },
      All-drop_id Alone v.id s.by_id i.alone,
    );
    counts = λ k n. rw (drop_id_fresh v.id s.by_id f) (ground (arith, i.counts k n));
  },
  rw (drop_id_fresh v.id s.by_id f) (omega arith),
)

-- A session that the restored server can serve: its slot leads to its ID, it has a slot, an ID and
-- a sender token of the accepted forms, and, while it waits, it is not past the time that an
-- unpaired session has.
abbrev pub IsServed : Server → ℕ → Session → Type 0
IsServed s now t =
    (lookup t.slot s.by_slot ≡ some t.id)
    × (is_slot t.slot ≡ true)
    × (same t.id "" ≡ false)
    × (same t.sender_token "" ≡ false)
    × (t.state ≡ waiting → older now t.created_at s.cfg.unpaired_ttl ≡ false)

-- A session that is restored under a free slot takes none from the others.
stays-IsServed :
    (s : Server) (v : Saved) (now : ℕ)
    → lookup v.slot s.by_slot ≡ none
    → (ss : List Session) → All (IsServed s now) ss
    → All (IsServed (restore_one s v now) now) ss
unfolding restore_one
stays-IsServed s v now free [] a = tt
stays-IsServed s v now free (t ∷ ts) a =
    let other : same t.slot v.slot ≡ false = elim (Bool-cases (same t.slot v.slot)) [
      | inr e ↦ e
      | inl e ↦
          let taken : lookup v.slot s.by_slot ≡ some t.id =
            subst (λ k. lookup k s.by_slot ≡ some t.id) ((same_iff t.slot v.slot).0 e) a.0.0 in
          absurd cc
    ] in
    (
      (
        rw (lookup-insert v.slot t.slot v.id s.by_slot, same_sym v.slot t.slot, other) a.0.0,
        a.0.1,
        a.0.2,
        a.0.3,
        a.0.4,
      ),
      stays-IsServed s v now free ts a.1,
    )

restore_one-IsServed :
    (s : Server) (v : Saved) (now : ℕ)
    → is_dropped s v now ≡ false
    → All (IsServed s now) s.by_id
    → All (IsServed (restore_one s v now) now) (restore_one s v now).by_id
unfolding is_dropped restore_one restored
restore_one-IsServed s v now e a =
    let free = not_taken (lookup v.slot s.by_slot) (ground arith) in
    let all = stays-IsServed s v now free s.by_id a in
    (
      (
        rw (lookup-insert v.slot v.slot v.id s.by_slot, same_refl v.slot) refl,
        ground arith,
        ground arith,
        ground arith,
        λ z. ground arith,
      ),
      rw (drop_id_fresh v.id s.by_id (fresh_if_kept s v now e)) all,
    )

-- Whatever snapshot is loaded, even one with sessions that clash: a server with consistent
-- tables, each of whose sessions is reached by its slot, has a slot, an ID and a sender token of
-- the accepted forms and, while it waits, is not past the time that an unpaired session has, has
-- such tables and sessions afterwards, and the number of restored sessions that is reported is
-- that by which the table grew.
pub load_state-Inv :
    (vs : List Saved) (now n : ℕ) (s : Server)
    → Inv s
    → All (IsServed s now) s.by_id
    → Inv (load_state vs now n s).0
      × All (IsServed (load_state vs now n s).0 now) (load_state vs now n s).0.by_id
      × ((load_state vs now n s).1 + length s.by_id ≡ n + length (load_state vs now n s).0.by_id)
unfolding load_state
load_state-Inv [] now n s i a = (i, a, refl)
load_state-Inv (v ∷ vs) now n s i a = elim (Bool-cases (is_dropped s v now)) [
  | inl e ↦ rw (e, load_state) (load_state-Inv vs now n s i a)
  | inr e ↦
      let (kept, one_more) = restore_one-Inv s v now i (fresh_if_kept s v now e) in
      let (rest, served, count) =
        load_state-Inv vs now (n + 1) (restore_one s v now) kept
          (restore_one-IsServed s v now e a) in
      rw (e, load_state) (rest, served, omega (arith, count, one_more))
]
