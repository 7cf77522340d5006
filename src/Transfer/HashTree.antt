-- ===== src/Transfer/HashTree.antt =====
-- The hash tree of a file (internal/transfer/filehash.go). BLAKE3 is a parameter, in its plain form
-- and in the form that derives a key for the root.
pub mod Splitting
use fsend.Base.{
  ℕ, zero, suc, ◌+◌, ◌-◌, ◌*◌, ◌/◌, ◌%◌, ◌^◌, min, Bool, List, [], ◌∷◌, ◌++◌, map, if◌then◌else◌,
  ◌==◌, Option, none, some,
}
use fsend.Base.{length, take, drop}
use fsend.Wire.{max_chunk_size}

-- hashBlockSize
abbrev pub hash_block_size : ℕ
hash_block_size = max_chunk_size

-- fileHasher: the hashes that it was seeded with, the blocks that were dispatched since, in order,
-- the block being filled (empty for nil), and the count of bytes, a uint64. When a block is hashed
-- does not matter to what its hash is.
pub record FileHasher : Type 0 where
  pub seeds : List (List ℕ)
  pub dispatched : List (List ℕ)
  pub cur : List ℕ
  pub n : ℕ

abbrev pub new_file_hasher : FileHasher
new_file_hasher = record { seeds = []; dispatched = []; cur = []; n = 0 }

-- seed, of a hasher that is new.
unfoldable pub seed : List (List ℕ) → FileHasher → FileHasher
seed blocks h = record h { seeds = h.seeds ++ blocks; n = length blocks * hash_block_size % 2 ^ 64 }

-- addBlock; `none` is its panic.
unfoldable pub add_block : List ℕ → FileHasher → Option FileHasher
add_block b h =
    if length h.cur == 0
    then some (record h { dispatched = h.dispatched ++ (b ∷ []); n = (h.n + length b) % 2 ^ 64 })
    else none

-- The end of a round of Write's loop: a full block is dispatched.
unfoldable pub dispatch_if_full : FileHasher → FileHasher
dispatch_if_full h =
    if length h.cur == hash_block_size
    then (record h { dispatched = h.dispatched ++ (h.cur ∷ []); cur = [] })
    else h

-- Write's loop. Each round takes a byte or more, so the length of the bytes is fuel enough.
unfoldable pub write_loop : ℕ → List ℕ → FileHasher → FileHasher
write_loop zero bytes h = h
write_loop (suc k) [] h = h
write_loop (suc k) (b ∷ bs) h =
    let fits = min (length (b ∷ bs)) (hash_block_size - length h.cur) in
    write_loop k (drop fits (b ∷ bs))
      (dispatch_if_full (record h { cur = h.cur ++ take fits (b ∷ bs); n = (h.n + fits) % 2 ^ 64 }))

unfoldable pub write : List ℕ → FileHasher → FileHasher
write bytes h = write_loop (length bytes) bytes h

-- The blocks that `blocks` hashes: those dispatched, and a trailing partial one.
unfoldable pub all_blocks : FileHasher → List (List ℕ)
all_blocks h = if length h.cur == 0 then h.dispatched else h.dispatched ++ (h.cur ∷ [])

-- binary.LittleEndian.PutUint64
abbrev pub put_u64_le : ℕ → List ℕ
put_u64_le n =
    (n % 256)
    ∷ (n / 2 ^ 8 % 256)
    ∷ (n / 2 ^ 16 % 256)
    ∷ (n / 2 ^ 24 % 256)
    ∷ (n / 2 ^ 32 % 256)
    ∷ (n / 2 ^ 40 % 256)
    ∷ (n / 2 ^ 48 % 256)
    ∷ (n / 2 ^ 56 % 256)
    ∷ []

abbrev pub joined : List (List ℕ) → List ℕ
joined [] = []
joined (b ∷ bs) = b ++ joined bs

-- foldRoot
unfoldable pub fold_root : (List ℕ → List ℕ) → List (List ℕ) → ℕ → List ℕ
fold_root derive hashes size = derive (joined hashes ++ put_u64_le size)

-- Sum
unfoldable pub sum : (List ℕ → List ℕ) → (List ℕ → List ℕ) → FileHasher → List ℕ
sum plain derive h = fold_root derive (h.seeds ++ map plain (all_blocks h)) h.n

-- bytesRoot
unfoldable pub bytes_root : (List ℕ → List ℕ) → (List ℕ → List ℕ) → List ℕ → List ℕ
bytes_root plain derive bytes = sum plain derive (write bytes new_file_hasher)

-- A writer's calls, one after another.
unfoldable pub write_all : List (List ℕ) → FileHasher → FileHasher
write_all [] h = h
write_all (p ∷ ps) h = write_all ps (write p h)
