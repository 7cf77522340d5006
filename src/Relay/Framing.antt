-- ===== src/Relay/Framing.antt =====
-- The relay's datagrams (internal/relay/framing.go). An array [n]byte is a list of n bytes.
pub mod RoundTrip
use fsend.Base.{ℕ, ◌+◌, Bool, true, false, ◌&&◌, ◌||◌, not, Option, none, some}
use fsend.Base.{
  List, [], ◌∷◌, ◌++◌, if◌then◌else◌, ltb, ◌==◌, length, get_or, take, drop, replicate,
}

abbrev pub Token : Type 0
Token = List ℕ

abbrev pub PeerId : Type 0
PeerId = List ℕ

abbrev pub header_size : ℕ
header_size = 17

-- ProtocolVersion of relay data; ControlVersion of control frames.
abbrev pub data_version : ℕ
data_version = 1

abbrev pub control_version : ℕ
control_version = 2

abbrev pub token_size : ℕ
token_size = 16

abbrev pub peer_id_size : ℕ
peer_id_size = 8

abbrev pub cookie_size : ℕ
cookie_size = 16

abbrev pub control_size : ℕ
control_size = header_size + 1 + peer_id_size + cookie_size

abbrev pub max_datagram : ℕ
max_datagram = 2048

abbrev pub msg_hello : ℕ
msg_hello = 1

abbrev pub msg_challenge : ℕ
msg_challenge = 2

abbrev pub msg_register : ℕ
msg_register = 3

abbrev pub msg_registered : ℕ
msg_registered = 4

-- Frame: what it writes to `out`.
unfoldable pub frame : Token → List ℕ → List ℕ
frame token payload = data_version ∷ token ++ payload

-- What Parse yields.
pub record Datagram : Type 0 where
  pub version : ℕ
  pub token : Token
  pub payload : List ℕ

unfoldable pub parse : List ℕ → Option Datagram
parse datagram =
    if ltb (length datagram) header_size
    then none
    else some (record {
      version = get_or datagram 0 0;
      token = take token_size (drop 1 datagram);
      payload = drop header_size datagram;
    })

abbrev cookie_or_zero : Option (List ℕ) → List ℕ
cookie_or_zero none = replicate cookie_size 0
cookie_or_zero (some cookie) = cookie

-- frameControl
unfoldable pub frame_control : Token → ℕ → PeerId → Option (List ℕ) → List ℕ
frame_control token typ id cookie = control_version ∷ token ++ (typ ∷ id ++ cookie_or_zero cookie)

-- What parseControl yields.
pub record ControlFrame : Type 0 where
  pub token : Token
  pub typ : ℕ
  pub id : PeerId
  pub cookie : List ℕ

-- parseControl
unfoldable pub parse_control : List ℕ → Option ControlFrame
parse_control b =
    if not (length b == control_size) || not (get_or b 0 0 == control_version)
    then none
    else some (record {
      token = take token_size (drop 1 b);
      typ = get_or b header_size 0;
      id = take peer_id_size (drop (header_size + 1) b);
      cookie = drop (header_size + 1 + peer_id_size) b;
    })
