-- ===== src/Transfer/Batches.antt =====
-- How a list goes over the control stream in frames of bounded size (internal/transfer/listing.go:
-- the loops of sendListing and sendDecisions). `encode` and `decode` are encoding/gob.
use fsend.Base.{ℕ, ◌+◌, ◌≤◌, ◌≡◌, refl, sym, ap, ◌∙◌, arith, Bool, ◌&&◌, Option, none, some}
use fsend.Base.{Bool-cases, inl, inr}
use fsend.Base.{
  List, [], ◌∷◌, ◌++◌, append-nil, append_assoc, if◌then◌else◌, ltb, length, All, length-append,
}
use fsend.Wire.{FrameType, max_control_frame_size}
use fsend.Wire.Reader.{Result, ok, ◌>>=◌}
use fsend.Wire.Control.{header_of, write_control}
use fsend.Wire.Control.RoundTrip.{append_to, write_body-append}

module _ {P W : Type 0} (encode : List P → Option (List ℕ)) (put : W → List ℕ → Option W)
    (ft : FrameType) where
  -- The flush of a batch.
  unfoldable pub send_batch : W → List P → Result W
  send_batch w [] = ok w
  send_batch w (x ∷ xs) = write_control encode put w ft (some (x ∷ xs))

module _ {P : Type 0} (est : P → ℕ) (budget : ℕ) where
  -- Whether an item opens a new batch.
  abbrev pub opens : List P → ℕ → P → Bool
  opens batch size x = ltb 0 (length batch) && ltb budget (size + est x)

  module _ {W : Type 0} (encode : List P → Option (List ℕ)) (put : W → List ℕ → Option W)
      (ft : FrameType) where
    -- One round: the writer, the batch and its estimated size.
    unfoldable pub add_item : W → List P → ℕ → P → Result (W × List P × ℕ)
    add_item w batch size x =
        if opens batch size x
        then (do w' ← send_batch encode put ft w batch; ok (w', x ∷ [], est x))
        else ok (w, batch ++ (x ∷ []), size + est x)

    unfoldable pub send_batches : W → List P → ℕ → List P → Result W
    send_batches w batch size [] = send_batch encode put ft w batch
    send_batches w batch size (x ∷ xs) = do
      (w', grown, total) ← add_item w batch size x
      send_batches w' grown total xs

  -- The batches that a list falls into.
  abbrev last_batch : List P → List (List P)
  last_batch [] = []
  last_batch (x ∷ xs) = (x ∷ xs) ∷ []

  unfoldable pub batches : List P → ℕ → List P → List (List P)
  batches batch size [] = last_batch batch
  batches batch size (x ∷ xs) =
      let cut = opens batch size x in
      let rest =
        batches (if cut then x ∷ [] else batch ++ (x ∷ [])) (if cut then est x else size + est x)
          xs in
      if cut then batch ∷ rest else rest

unfoldable pub joined {ℓ} : {A : Type ℓ} → List (List A) → List A
joined [] = []
joined (xs ∷ xss) = xs ++ joined xss

module _ {P : Type 0} (est : P → ℕ) (budget : ℕ) where
  pub joined-batches :
      (batch : List P) (size : ℕ) (xs : List P)
      → joined (batches est budget batch size xs) ≡ batch ++ xs
  unfolding batches joined
  joined-batches [] size [] = refl
  joined-batches (b ∷ bs) size [] = refl
  joined-batches batch size (x ∷ xs) = elim (Bool-cases (opens est budget batch size x)) [
    | inl cut ↦ rw (cut, joined-batches (x ∷ []) (est x) xs) refl
    | inr on ↦
        rw (on, joined-batches (batch ++ (x ∷ [])) (size + est x) xs)
          (append_assoc batch (x ∷ []) xs)
  ]

module _ {P : Type 0} (encode : List P → Option (List ℕ)) (decode : List ℕ → Option (List P)) where
  -- The body of a batch's frame.
  abbrev pub gob : List P → List ℕ
  gob batch = elim (encode batch) [ none ↦ [] | some body ↦ body ]

  -- The batch has an encoding that fits in a frame and is decoded to it.
  pub record Survives (batch : List P) : Type 0 where
    pub encoded : encode batch ≡ some (gob batch)
    pub decoded : decode (gob batch) ≡ some batch
    pub not_empty : 1 ≤ length (gob batch)
    pub fits : length (gob batch) ≤ max_control_frame_size

  module _ (ft : FrameType) where
    unfoldable pub frames : List (List P) → List ℕ
    frames [] = []
    frames (b ∷ bs) = (header_of ft (gob b) ++ gob b) ++ frames bs

    -- Every frame takes more than a byte.
    pub frames_long : (bs : List (List P)) → length bs ≤ length (frames bs)
    unfolding frames
    frames_long [] = omega arith
    frames_long (b ∷ bs) =
        omega (arith, frames_long bs, length-append (header_of ft (gob b) ++ gob b) (frames bs))

    send_batch-append :
        (x : P) (xs : List P) (w : List ℕ)
        → Survives (x ∷ xs)
        → send_batch encode append_to ft w (x ∷ xs)
          ≡ ok (w ++ (header_of ft (gob (x ∷ xs)) ++ gob (x ∷ xs)))
    unfolding send_batch write_control
    send_batch-append x xs w h = rw (h.encoded) (write_body-append w ft (gob (x ∷ xs)) h.fits)

    module _ (est : P → ℕ) (budget : ℕ) where
      pub send_batches-frames :
          (batch : List P) (size : ℕ) (xs : List P) (w : List ℕ)
          → All Survives (batches est budget batch size xs)
          → send_batches est budget encode append_to ft w batch size xs
            ≡ ok (w ++ frames (batches est budget batch size xs))
      unfolding send_batches add_item batches frames send_batch
      send_batches-frames [] size [] w h = ap ok (sym (append-nil w))
      send_batches-frames (b ∷ bs) size [] w h =
          send_batch-append b bs w h.0
          ∙ ap (λ l. ok (w ++ l)) (sym (append-nil (header_of ft (gob (b ∷ bs)) ++ gob (b ∷ bs))))
      send_batches-frames [] size (x ∷ xs) w h = send_batches-frames (x ∷ []) (size + est x) xs w h
      send_batches-frames (b ∷ bs) size (x ∷ xs) w h =
          let cut = opens est budget (b ∷ bs) size x in
          elim (Bool-cases cut) [
            | inr on ↦
                rw on (send_batches-frames ((b ∷ bs) ++ (x ∷ [])) (size + est x) xs w (rw on at h))
            | inl c ↦
                let k = rw c at h in
                let frame = header_of ft (gob (b ∷ bs)) ++ gob (b ∷ bs) in
                rw (c, send_batch-append b bs w k.0)
                  (send_batches-frames (x ∷ []) (est x) xs (w ++ frame) k.1
                    ∙ ap ok
                        (append_assoc w frame (frames (batches est budget (x ∷ []) (est x) xs))))
          ]
