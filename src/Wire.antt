-- ===== src/Wire.antt =====
-- internal/wire/wire.go: the protocol's constants and version negotiation. The children model the
-- control frames (control.go) and the chunk frames (data.go).
pub mod Reader
pub mod Control
pub mod Chunk
pub mod Negotiation
mod Tests
use fsend.Base.{ℕ, ◌^◌, ◌*◌, min, max, Bool, ◌||◌, Option, none, some, ◌==◌, ltb, if◌then◌else◌}

-- ProtocolVersion and MinProtocolVersion.
abbrev pub protocol_version : ℕ
protocol_version = 0x03

abbrev pub min_protocol_version : ℕ
min_protocol_version = 0x03

-- A `uint8` version range; `none` is Go's `(0, false)`.
unfoldable pub negotiate : ℕ → ℕ → Option ℕ
negotiate peer_min peer_max =
    let hi = min peer_max protocol_version in
    let lo = max peer_min min_protocol_version in
    if peer_min == 0 || ltb hi lo then none else some hi

-- MaxControlFrameSize and MaxChunkSize.
abbrev pub max_control_frame_size : ℕ
max_control_frame_size = 64 * 1024

abbrev pub max_chunk_size : ℕ
max_chunk_size = 1024 * 1024

-- FrameType is a byte on the wire, and any byte may arrive.
abbrev pub FrameType : Type 0
FrameType = ℕ

abbrev pub type_chunk : FrameType
type_chunk = 0x10

-- FlagCompressed, and the segment flags SegFlagEOF, SegFlagSkip, SegFlagRestart, SegFlagChanged.
abbrev pub flag_compressed : ℕ
flag_compressed = 1

abbrev pub seg_flag_eof : ℕ
seg_flag_eof = 1

abbrev pub seg_flag_skip : ℕ
seg_flag_skip = 2

abbrev pub seg_flag_restart : ℕ
seg_flag_restart = 4

abbrev pub seg_flag_changed : ℕ
seg_flag_changed = 8
