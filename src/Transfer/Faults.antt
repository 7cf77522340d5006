-- ===== src/Transfer/Faults.antt =====
-- What a side reports when a transfer fails (internal/wire/wire.go: ErrorCode; internal/transfer/
-- recv.go: mapPeerError, writeFail, classifyWriteErr, declineTransfer). Messages are left out.
use fsend.Base.{ℕ, Bool, Option, some, if◌then◌else◌, ◌==◌}

-- ErrorCode
abbrev pub code_wrong_password : ℕ
code_wrong_password = 2

abbrev pub code_file_hash_mismatch : ℕ
code_file_hash_mismatch = 8

abbrev pub code_protocol_error : ℕ
code_protocol_error = 10

abbrev pub code_partial_mismatch : ℕ
code_partial_mismatch = 11

abbrev pub code_target_exists : ℕ
code_target_exists = 12

abbrev pub code_write_failed : ℕ
code_write_failed = 13

abbrev pub code_password_required : ℕ
code_password_required = 14

abbrev pub code_cancelled : ℕ
code_cancelled = 15

abbrev pub code_listing_invalid : ℕ
code_listing_invalid = 16

abbrev pub code_declined : ℕ
code_declined = 17

abbrev pub code_read_failed : ℕ
code_read_failed = 18

abbrev pub code_disk_full : ℕ
code_disk_full = 19

abbrev pub code_too_many_entries : ℕ
code_too_many_entries = 20

-- The errors of fserrors that a transfer ends with, and those that carry no such sentinel.
pub data Sentinel : Type 0 where
  wrong_password : Sentinel
  password_required : Sentinel
  hash_mismatch : Sentinel
  partial_mismatch : Sentinel
  target_exists : Sentinel
  protocol_error : Sentinel
  receiver_declined : Sentinel
  write_failed : Sentinel
  read_failed : Sentinel
  disk_full : Sentinel
  too_many_entries : Sentinel
  peer_cancelled : Sentinel
  connect_failed : Sentinel
  malformed_chunk : Sentinel
  read_broken : Sentinel
  cancelled : Sentinel

unfoldable pub map_peer_error : ℕ → Sentinel
map_peer_error code =
    if code == code_wrong_password
    then wrong_password
    else if code == code_password_required
    then password_required
    else if code == code_file_hash_mismatch
    then hash_mismatch
    else if code == code_partial_mismatch
    then partial_mismatch
    else if code == code_target_exists
    then target_exists
    else if code == code_listing_invalid
    then protocol_error
    else if code == code_declined
    then receiver_declined
    else if code == code_write_failed
    then write_failed
    else if code == code_read_failed
    then read_failed
    else if code == code_disk_full
    then disk_full
    else if code == code_too_many_entries
    then too_many_entries
    else if code == code_cancelled
    then peer_cancelled
    else protocol_error

-- The end of a transfer: the code of the ERROR frame that declineTransfer posts, if it is called, and
-- the error that is returned.
pub record Fault : Type 0 where
  pub told : Option ℕ
  pub shown : Sentinel

abbrev pub decline : ℕ → Sentinel → Fault
decline code shown = record { told = some code; shown = shown }

-- writeFail with classifyWriteErr, of an error that says whether the disk is full.
unfoldable pub write_fail : Bool → Fault
write_fail no_space =
    if no_space then decline code_disk_full disk_full else decline code_write_failed write_failed

-- A step that may end the transfer.
pub data Outcome {ℓ} (A : Type ℓ) : Type ℓ where
  fine : A → Outcome A
  fails : Fault → Outcome A
