-- ===== src/Transfer/Negotiation/Hashing.antt =====
-- Which files a peer can have hashed (internal/transfer/send.go: senderNegotiate, verifyHashes).
use fsend.Base.{ℕ, zero, suc, ◌<◌, ◌≡◌, ◌≢◌, refl, ap, sym, subst, arith}
use fsend.Base.{Bool-cases, inl, inr, ◌==◌, Option, some}
use fsend.Base.{List, [], ltb, length, All}
use fsend.Base.{length-append, All-map, All-append}
use fsend.Wire.Reader.{Result, ok, err, Result-cases}
use fsend.Wire.{FrameType}
use fsend.Wire.Control.{write_control, read_control_raw, decode_body}
use fsend.Wire.Control.Reading.{read_control_raw-ok}
use fsend.Transfer.Plan.{Decision}
use fsend.Transfer.Negotiation.{
  type_classify_batch, type_classify_end, SourcePath, reserve, hash_all, HashLog, answers,
  max_verify_rounds, put_all, Negotiating, Negotiated, no_fuel, Turn, go_on, stop, Codec, respond,
  verify, on_request, on_batch, take_frame, take_raw, negotiate_loop, sender_negotiate,
}
use fsend.Transfer.Negotiation.Reserving.{
  AreDistinct, append-AreDistinct, IsKnown, known_differs, IsListed, reserve-Reserved,
  hash_all-Grows, hash_all-opened,
}

module _ {W : Type 0} (gob : Codec) (put : W → List ℕ → Option W) (roots : ℕ → ℕ → Option (List ℕ))
    (sources : List SourcePath) where
  -- No file was hashed twice, and every one is a source.
  pub record IsOnce (s : Negotiating W) : Type 0 where
    pub distinct : AreDistinct s.opened
    pub listed : All (IsListed sources) s.opened
    pub known : All (IsKnown s.hashed) s.opened

  -- What a frame leads to.
  abbrev Kept : List ℕ → Turn W → Type 0
  Kept rest (go_on s left) = IsOnce s × (left ≡ rest)
  Kept rest (stop s out) = IsOnce s × (out ≢ no_fuel)

  respond-Kept :
      (rest : List ℕ) (s : Negotiating W) (r : Result W)
      → IsOnce s
      → Kept rest (respond gob put roots sources rest s r)
  respond-Kept rest s (err e) v = (v, λ x. cc)
  respond-Kept rest s (ok w) v =
      (record { distinct = v.distinct; listed = v.listed; known = v.known }, refl)

  verify-Kept :
      (idx rest : List ℕ) (s : Negotiating W)
      → IsOnce s
      → Kept rest (verify gob put roots sources idx rest s)
  unfolding verify
  verify-Kept idx rest s v =
      let r = reserve-Reserved sources idx s.hashed in
      let todo = (reserve sources idx s.hashed).0 in
      let reserved = (reserve sources idx s.hashed).1 in
      let begun : HashLog = record { hashed = reserved; opened = s.opened } in
      let done = hash_all (roots s.verify_rounds) todo begun in
      let grown = hash_all-Grows (roots s.verify_rounds) todo begun in
      let opened = sym (hash_all-opened (roots s.verify_rounds) todo begun) in
      let t : Negotiating W = record s { hashed = done.hashed; opened = done.opened } in
      respond-Kept rest t
        (write_control gob.encode_hashes put s.writer 0x0D (some (answers idx done.hashed)))
        (record {
          distinct = subst AreDistinct opened (
              append-AreDistinct s.opened todo v.distinct r.distinct (
                All-map s.opened (λ i k. All-map todo (λ j n. known_differs s.hashed i j k n) r.new)
                  v.known));
          listed =
              subst (All (IsListed sources)) opened
                (All-append (IsListed sources) s.opened todo v.listed r.listed);
          known = subst (All (IsKnown done.hashed)) opened (
              All-append (IsKnown done.hashed) s.opened todo
                (All-map s.opened (λ i k. grown i (r.grows i k)) v.known)
                (All-map todo grown r.known));
        })

  on_request-Kept :
      (rest : List ℕ) (s : Negotiating W) (r : Result (List ℕ))
      → IsOnce s
      → Kept rest (on_request gob put roots sources rest s r)
  on_request-Kept rest s (err e) v = (v, λ x. cc)
  on_request-Kept rest s (ok idx) v = verify-Kept idx rest s v

  on_batch-Kept :
      (rest : List ℕ) (s : Negotiating W) (r : Result (List Decision))
      → IsOnce s
      → Kept rest (on_batch gob put roots sources rest s r)
  on_batch-Kept rest s (err e) v = (v, λ x. cc)
  on_batch-Kept rest s (ok batch) v =
      let w : IsOnce (record s { out = put_all batch s.out }) = record {
        distinct = v.distinct;
        listed = v.listed;
        known = v.known;
      } in
      elim (Bool-cases (ltb (length sources) (length (put_all batch s.out)))) [
        | inl c ↦ rw c (w, λ x. cc)
        | inr c ↦ rw c (w, refl)
      ]

  take_frame-Kept :
      (ft : FrameType) (body rest : List ℕ) (s : Negotiating W)
      → IsOnce s
      → Kept rest (take_frame gob put roots sources ft body rest s)
  unfolding take_frame
  take_frame-Kept ft body rest s v =
      let t : Negotiating W = record s { verify_rounds = suc s.verify_rounds } in
      let w : IsOnce t = record { distinct = v.distinct; listed = v.listed; known = v.known } in
      elim (Bool-cases (ft == 0x0C)) [
        | inl a ↦ elim (Bool-cases (ltb max_verify_rounds (suc s.verify_rounds))) [
          | inl b ↦ rw (a, b) (w, λ x. cc)
          | inr b ↦ rw (a, b) (on_request-Kept rest t (decode_body gob.decode_request [] body) w)
        ]
        | inr a ↦ elim (Bool-cases (ft == type_classify_batch)) [
          | inl b ↦ rw (a, b) (on_batch-Kept rest s (decode_body gob.decode_decisions [] body) v)
          | inr b ↦ elim (Bool-cases (ft == type_classify_end)) [
            | inl c ↦ rw (a, b, c) (v, λ x. cc)
            | inr c ↦ elim (Bool-cases (ft == 0xFE)) [
              | inl d ↦ rw (a, b, c, d) (v, λ x. cc)
              | inr d ↦ rw (a, b, c, d) (v, λ x. cc)
            ]
          ]
        ]
      ]

  -- The same, with less left to read than `src`.
  abbrev Shrinks : List ℕ → Turn W → Type 0
  Shrinks src (go_on s left) = IsOnce s × (length left < length src)
  Shrinks src (stop s out) = IsOnce s × (out ≢ no_fuel)

  Kept-Shrinks :
      (src rest : List ℕ) (turn : Turn W)
      → length rest < length src
      → Kept rest turn
      → Shrinks src turn
  Kept-Shrinks src rest (go_on s left) h (v, e) = (v, omega (arith, ap length e))
  Kept-Shrinks src rest (stop s out) h v = v

  take_raw-Shrinks :
      (src : List ℕ) (s : Negotiating W)
      → IsOnce s
      → Shrinks src (take_raw gob put roots sources (read_control_raw src) s)
  unfolding take_raw
  take_raw-Shrinks src s v =
      let raw = read_control_raw src in
      elim (Result-cases raw.body) [
        | inr (e, bad) ↦ rw bad (v, λ x. cc)
        | inl ((body, rest), got) ↦
            let (used, whole, six) = read_control_raw-ok src body rest got in
            rw got (
              Kept-Shrinks src rest (take_frame gob put roots sources raw.ft body rest s)
                (omega (arith, ap length whole, length-append used rest, six))
                (take_frame-Kept raw.ft body rest s v))
      ]

  negotiate_loop-IsOnce :
      (n : ℕ) (s : Negotiating W) (src : List ℕ)
      → IsOnce s
      → length src < n
      → IsOnce (negotiate_loop gob put roots sources n s src).0
        × ((negotiate_loop gob put roots sources n s src).1 ≢ no_fuel)
  unfolding negotiate_loop
  negotiate_loop-IsOnce zero s src v fuel = absurd (omega arith)
  negotiate_loop-IsOnce (suc n) s src v fuel =
      follow (take_raw gob put roots sources (read_control_raw src) s) (take_raw-Shrinks src s v)
        (λ t left w less. negotiate_loop-IsOnce n t left w (omega arith))
    where
      follow :
          (turn : Turn W)
          → Shrinks src turn
          → ((t : Negotiating W) (left : List ℕ)
              → IsOnce t
              → length left < length src
              → IsOnce (negotiate_loop gob put roots sources n t left).0
                × ((negotiate_loop gob put roots sources n t left).1 ≢ no_fuel))
          → let x : Negotiating W × Negotiated = elim turn [
            | stop t out ↦ (t, out)
            | go_on t left ↦ negotiate_loop gob put roots sources n t left
          ] in
            IsOnce x.0 × (x.1 ≢ no_fuel)
      follow (stop t out) kept on = kept
      follow (go_on t left) (w, less) on = on t left w less

  -- Whatever the receiver sends, in whatever order, and whatever reading the files gives: over
  -- all its rounds the sender calls hashFileRoot at most once for an index, and only for indices
  -- of sources with a path, and its loop ends.
  pub sender_negotiate-IsOnce :
      (w : W) (src : List ℕ)
      → IsOnce (sender_negotiate gob put roots sources w src).0
        × ((sender_negotiate gob put roots sources w src).1 ≢ no_fuel)
  unfolding sender_negotiate
  sender_negotiate-IsOnce w src =
      negotiate_loop-IsOnce (suc (length src))
        (record { out = []; hashed = []; verify_rounds = 0; opened = []; writer = w }) src
        (record { distinct = tt; listed = tt; known = tt }) (omega arith)
