-- ===== src/Wire/Control/RoundTrip.antt =====
-- Control frames (internal/wire/control.go) written and read back, and the reader's guards.
use fsend.Base.{ℕ, ◌≤◌, ◌≡◌, refl, arith, append_assoc}
use fsend.Base.{List, [], ◌∷◌, ◌++◌, Option, some, length}
use fsend.Base.Bytes.{get-put_u32}
use fsend.Wire.{FrameType, max_control_frame_size, protocol_version}
use fsend.Wire.Reader.{ok, read_full-append}
use fsend.Wire.Control.{header_of, write_body, write_control, read_raw_body}
use fsend.Wire.Control.{read_control_raw, decode_body, read_control}

-- The appending writer, which never fails.
abbrev pub append_to : List ℕ → List ℕ → Option (List ℕ)
append_to w bs = some (w ++ bs)

read_raw_body-append :
    (body rest : List ℕ)
    → length body ≤ max_control_frame_size
    → read_raw_body protocol_version (length body) (body ++ rest) ≡ ok (body, rest)
unfolding read_raw_body
read_raw_body-append [] rest h = refl
read_raw_body-append (b ∷ bs) rest h = ground (arith, read_full-append (b ∷ bs) rest)

pub read_raw-frame :
    (ft : FrameType) (body rest : List ℕ)
    → length body ≤ max_control_frame_size
    → read_control_raw (header_of ft body ++ (body ++ rest))
      ≡ record { ft = ft; body = ok (body, rest) }
unfolding read_control_raw
read_raw-frame ft body rest h =
    rw (get-put_u32 (length body) (omega arith)) (rw (read_raw_body-append body rest h))

pub write_body-append :
    (w : List ℕ) (ft : FrameType) (body : List ℕ)
    → length body ≤ max_control_frame_size
    → write_body append_to w ft body ≡ ok (w ++ (header_of ft body ++ body))
unfolding write_body
write_body-append w ft [] h = refl
write_body-append w ft (b ∷ bs) h = ground (arith, append_assoc w (header_of ft (b ∷ bs)) (b ∷ bs))

-- A payload that the encoder takes to 1 to 64 KiB, and the decoder back, survives the frame: the
-- write succeeds, and reading the written bytes, whatever follows them, returns the frame type, the
-- payload and the bytes that follow.
pub read_control-write_control :
    {P : Type 0} (encode : P → Option (List ℕ)) (decode : List ℕ → Option P) (zero_value p : P)
    (w body rest : List ℕ) (ft : FrameType)
    → encode p ≡ some body
    → decode body ≡ some p
    → 1 ≤ length body
    → length body ≤ max_control_frame_size
    → (write_control encode append_to w ft (some p) ≡ ok (w ++ (header_of ft body ++ body)))
      × (read_control decode zero_value ((header_of ft body ++ body) ++ rest) ≡ (ft, ok (p, rest)))
unfolding write_control read_control decode_body
read_control-write_control encode decode z p w body rest ft enc dec lo hi =
    (rw enc (write_body-append w ft body hi), read_back)
  where
    frame : ((header_of ft body ++ body) ++ rest) ≡ header_of ft body ++ (body ++ rest)
    frame = append_assoc (header_of ft body) body rest

    read_back : read_control decode z ((header_of ft body ++ body) ++ rest) ≡ (ft, ok (p, rest))
    read_back = rw (frame, read_raw-frame ft body rest hi) (ground arith)
