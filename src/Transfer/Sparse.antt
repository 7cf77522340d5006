-- ===== src/Transfer/Sparse.antt =====
-- Files as byte lists, and the writing of a received piece that leaves aligned zero blocks as holes
-- (internal/transfer/recv.go: writeSparse).
pub mod Writing
use fsend.Base.{ℕ, zero, suc, ◌+◌, ◌-◌, ◌%◌, min, Bool, true, false, Option, none, some}
use fsend.Base.{
  List, [], ◌∷◌, ◌++◌, if◌then◌else◌, ltb, leb, ◌==◌, length, take, drop, replicate, all,
}

-- sparseBlock
abbrev pub sparse_block : ℕ
sparse_block = 65536

-- A file of `n` bytes or more: zeros behind its last byte.
unfoldable pub extend : ℕ → List ℕ → List ℕ
extend n c = c ++ replicate (n - length c) 0

-- (*os.File).Truncate
unfoldable pub truncate : ℕ → List ℕ → List ℕ
truncate n c = take n (extend n c)

-- (*os.File).WriteAt: a gap before the offset reads as zeros; no bytes change nothing.
unfoldable pub write_at : ℕ → List ℕ → List ℕ → List ℕ
write_at off [] c = c
write_at off (d ∷ ds) c = take off (extend off c) ++ ((d ∷ ds) ++ drop (off + length (d ∷ ds)) c)

-- A WriteAt that fails: how many bytes it wrote, and whether the disk was full.
pub record DiskFault : Type 0 where
  pub put : ℕ
  pub no_space : Bool

-- What the WriteAt at each offset returns.
abbrev pub Disk : Type 0
Disk = ℕ → Option DiskFault

-- The file after a write, and the error.
pub record Written : Type 0 where
  pub content : List ℕ
  pub fault : Option DiskFault

unfoldable pub write_answered : Option DiskFault → ℕ → List ℕ → List ℕ → Written
write_answered none off d c = record { content = write_at off d c; fault = none }
write_answered (some f) off d c = record { content = write_at off (take f.put d) c; fault = some f }

-- flush in writeSparse: the bytes from `start` to `end` of the data, which lies at `pos`.
unfoldable pub flush_run : Disk → ℕ → List ℕ → ℕ → ℕ → List ℕ → Written
flush_run disk pos bytes start end c =
    if ltb start end
    then write_answered (disk (pos + start)) (pos + start) (take (end - start) (drop start bytes)) c
    else record { content = c; fault = none }

-- How far the scan for zero blocks came.
pub record Scan : Type 0 where
  pub start : ℕ
  pub content : List ℕ
  pub fault : Option DiskFault

abbrev pub scan_after : Written → ℕ → Scan → Scan
scan_after w start rest = elim w.fault [
  | none ↦ rest
  | some f ↦ record { start = start; content = w.content; fault = some f }
]

-- writeSparse's loop. Each round moves a block on, so the length of the data is fuel enough.
unfoldable pub scan : ℕ → ℕ → Disk → ℕ → List ℕ → ℕ → ℕ → List ℕ → Scan
scan block zero disk pos bytes start i c = record { start = start; content = c; fault = none }
scan block (suc k) disk pos bytes start i c =
    let w = flush_run disk pos bytes start i c in
    let hole = scan block k disk pos bytes (i + block) (i + block) w.content in
    let filled = scan block k disk pos bytes start (i + block) c in
    if leb (i + block) (length bytes)
    then if all (λ b. b == 0) (take block (drop i bytes)) then scan_after w start hole else filled
    else record { start = start; content = c; fault = none }

-- writeSparse: the file, the error, and `tailHole`.
pub record SparseWrite : Type 0 where
  pub content : List ℕ
  pub fault : Option DiskFault
  pub tail_hole : Bool

-- The first block boundary at or behind `pos`, within the data.
unfoldable pub lead_of : ℕ → ℕ → ℕ → ℕ
lead_of block pos len =
    let lead = (block - pos % block) % block in if ltb 0 lead then min lead len else 0

abbrev hole_after : Option DiskFault → Bool → Bool → Bool
hole_after none now before = now
hole_after (some f) now before = before

abbrev pub write_rest : Disk → ℕ → List ℕ → Bool → Scan → SparseWrite
write_rest disk pos bytes tail s = elim s.fault [
  | some f ↦ record { content = s.content; fault = some f; tail_hole = tail }
  | none ↦
      let w = flush_run disk pos bytes s.start (length bytes) s.content in
      record {
        content = w.content;
        fault = w.fault;
        tail_hole = hole_after w.fault (s.start == length bytes) tail;
      }
]

-- `tail` is the old tailHole, which an error leaves as it is.
unfoldable pub write_sparse : Disk → ℕ → List ℕ → Bool → List ℕ → SparseWrite
write_sparse disk pos bytes tail c =
    write_rest disk pos bytes tail (
      scan sparse_block (length bytes) disk pos bytes 0 (lead_of sparse_block pos (length bytes)) c)
