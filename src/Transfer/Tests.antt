-- ===== src/Transfer/Tests.antt =====
-- Runs of the chunk packer of internal/transfer, and the theorems at concrete inputs.
use fsend.Base.{ℕ, ◌≡◌, refl, arith, Bool, true, false, List, [], ◌∷◌, replicate, All}
use fsend.Wire.Chunk.Valid.{IsChunk}
use fsend.Transfer.Packer.{
  new_packer, look, hand_over, flush, need_new_segment, make_room, open_segment, grow_last,
  add_piece, flush_if_full, append_loop, append_bytes, end_last, end_file, add_marker,
  room_for_marker, skip_file,
}
use fsend.Transfer.Packer.Runs.{Op, bytes, ended, skipped_file, flushed, step, run}
use fsend.Transfer.Packer.Content.{content}
use fsend.Transfer.Packer.Order.{run-content}
use fsend.Transfer.HashTree.{sum, write_all, new_file_hasher, bytes_root}
use fsend.Transfer.HashTree.Splitting.{sum-write_all}
use fsend.Transfer.Compress.{next_chunk, run-IsChunk}

abbrev never : ℕ → Bool
never n = false

abbrev halve : List ℕ → List ℕ
halve bs = []

abbrev root : List ℕ
root = replicate 32 9

abbrev calls : List Op
calls =
    bytes 0 (1 ∷ 2 ∷ 3 ∷ []) ∷ ended 0 root false ∷ bytes 1 (4 ∷ []) ∷ skipped_file 1 ∷ flushed ∷ []

all_succeed : (run never calls new_packer).1 ≡ true
unfolding run step append_bytes look append_loop make_room need_new_segment add_piece open_segment
    grow_last flush_if_full end_file end_last skip_file add_marker room_for_marker flush hand_over
all_succeed = refl

run-content_example :
    content (run never calls new_packer).0 ≡ (0, 1) ∷ (0, 2) ∷ (0, 3) ∷ (1, 4) ∷ []
run-content_example =
    run-content never calls
      (refl, omega arith, (refl, omega arith, refl, (refl, omega arith, (omega arith, tt))))
      all_succeed

run-IsChunk_example :
    All
      (λ c. IsChunk (next_chunk halve (record { skip = 0; backoff = 0 }) c).0)
      (run never calls new_packer).0.out
run-IsChunk_example =
    run-IsChunk never halve (record { skip = 0; backoff = 0 }) calls
      (refl, omega arith, (refl, omega arith, refl, (refl, omega arith, (omega arith, tt))))

sum-write_all_example :
    sum (λ b. b) (λ b. b) (write_all ((1 ∷ []) ∷ [] ∷ (2 ∷ 3 ∷ []) ∷ []) new_file_hasher)
    ≡ bytes_root (λ b. b) (λ b. b) (1 ∷ 2 ∷ 3 ∷ [])
sum-write_all_example = sum-write_all (λ b. b) (λ b. b) ((1 ∷ []) ∷ [] ∷ (2 ∷ 3 ∷ []) ∷ [])
