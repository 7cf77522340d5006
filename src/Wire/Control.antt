-- ===== src/Wire/Control.antt =====
-- internal/wire/control.go: control frames, a six-byte header and a gob body. The encoder and the
-- decoder of encoding/gob are parameters: `encode` of a payload, `decode` of a body (`none`: error).
pub mod RoundTrip
pub mod Reading
use fsend.Base.{ℕ, zero, suc, ◌||◌, List, [], ◌∷◌, ◌++◌, Option, none, some}
use fsend.Base.{ltb, ◌==◌, if◌then◌else◌, length, get_or}
use fsend.Base.Bytes.{put_u32, get_u32}
use fsend.Wire.{FrameType, protocol_version, min_protocol_version, max_control_frame_size}
use fsend.Wire.Reader.{Error, Result, ok, err, wrap, or_error, ◌>>=◌, read_full}
use fsend.Wire.Reader.{unsupported_version, frame_too_large, write_failed, encode_failed}
use fsend.Wire.Reader.{decode_failed, wrapped}

-- `if _, err := w.Write(bs); err != nil { return fmt.Errorf("…: %w", err) }`
abbrev pub put_or_fail : {W : Type 0} → (W → List ℕ → Option W) → W → List ℕ → Result W
put_or_fail put w bs = or_error (put w bs) (wrapped write_failed)

-- The body of a payload; a nil payload has the empty body.
abbrev pub body_of : {P : Type 0} → (P → Option (List ℕ)) → Option P → Result (List ℕ)
body_of encode none = ok []
body_of encode (some p) = or_error (encode p) (wrapped encode_failed)

abbrev pub header_of : FrameType → List ℕ → List ℕ
header_of ft body = protocol_version ∷ (ft ∷ put_u32 (length body))

-- WriteControl behind the encoder: the header and then the body, if there is one.
unfoldable pub write_body :
    {W : Type 0} → (W → List ℕ → Option W) → W → FrameType → List ℕ → Result W
write_body put w ft body =
    if ltb max_control_frame_size (length body) then err frame_too_large else (do
      w' ← put_or_fail put w (header_of ft body)
      if length body == 0 then ok w' else put_or_fail put w' body)

unfoldable pub write_control :
    {W P : Type 0}
    → (P → Option (List ℕ))
    → (W → List ℕ → Option W)
    → W
    → FrameType
    → Option P
    → Result W
write_control encode put w ft payload = do body ← body_of encode payload; write_body put w ft body

-- What ReadControlRaw returns: the frame type is there on errors too, once the header is read. The
-- body comes with the bytes that the reader has left.
pub record RawFrame : Type 0 where
  pub ft : FrameType
  pub body : Result (List ℕ × List ℕ)

-- The checks of the header's fields, and the body.
unfoldable pub read_raw_body : ℕ → ℕ → List ℕ → Result (List ℕ × List ℕ)
read_raw_body ver len src =
    if ltb ver min_protocol_version || ltb protocol_version ver
    then err unsupported_version
    else if ltb max_control_frame_size len
    then err frame_too_large
    else if len == 0
    then ok ([], src)
    else wrap (read_full len src)

abbrev raw_frame : Result (List ℕ × List ℕ) → RawFrame
raw_frame (err e) = record { ft = 0; body = err e }
raw_frame (ok (header, rest)) = record {
  ft = get_or header 1 0;
  body = read_raw_body (get_or header 0 0) (get_u32 header 2) rest;
}

unfoldable pub read_control_raw : List ℕ → RawFrame
read_control_raw src = raw_frame (read_full 6 src)

-- Decode into a payload of type `P`. An empty body leaves the target at its zero value.
unfoldable pub decode_body : {P : Type 0} → (List ℕ → Option P) → P → List ℕ → Result P
decode_body decode zero_value body =
    if length body == 0 then ok zero_value else or_error (decode body) (wrapped decode_failed)

-- ReadControl with a payload pointer: the frame type, and the payload with the bytes left.
unfoldable pub read_control :
    {P : Type 0} → (List ℕ → Option P) → P → List ℕ → FrameType × Result (P × List ℕ)
read_control decode zero_value src =
    let raw = read_control_raw src in
    (raw.ft, do (body, rest) ← raw.body; p ← decode_body decode zero_value body; ok (p, rest))
