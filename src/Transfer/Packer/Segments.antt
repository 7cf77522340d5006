-- ===== src/Transfer/Packer/Segments.antt =====
-- The segments that the packer makes are ones that the reader accepts (internal/transfer/pack.go).
use fsend.Base.{ℕ, ◌+◌, ◌%◌, ◌^◌, ◌≤◌, ◌<◌, ◌≡◌, inl, inr, refl, arith}
use fsend.Base.{Bool, true, false, List}
use fsend.Base.{length}
use fsend.Wire.{max_chunk_size}
use fsend.Wire.Chunk.{Segment}
use fsend.Wire.Chunk.Valid.{IsSegment, validate_iff}
use fsend.Transfer.Packer.{new_segment}

pub grown-IsSegment :
    (s : Segment) (n : ℕ)
    → IsSegment s
    → s.skip ≡ false
    → s.at_eof ≡ false
    → s.len + n ≤ max_chunk_size
    → 1 ≤ n
    → IsSegment (record s { len = (s.len + n) % 2 ^ 32 })
grown-IsSegment s n h k e le one =
    let old = (validate_iff s).0 h.is_valid in
    record {
      index_fits = h.index_fits;
      len_fits = omega arith;
      hash_size = h.hash_size;
      hash_unset = h.hash_unset;
      is_valid = (validate_iff (record s { len = (s.len + n) % 2 ^ 32 })).1 (record {
        skip_bare = λ z. absurd cc;
        changed_ends = old.changed_ends;
        restart_full = λ z. omega arith;
        empty_marks = λ z. absurd (omega arith);
      });
    }

pub ended-IsSegment :
    (s : Segment) (root : List ℕ) (changed : Bool)
    → IsSegment s
    → s.skip ≡ false
    → length root ≡ 32
    → IsSegment (record s { at_eof = true; root_hash = root; changed = changed })
ended-IsSegment s root changed h k l =
    let old = (validate_iff s).0 h.is_valid in
    record {
      index_fits = h.index_fits;
      len_fits = h.len_fits;
      hash_size = l;
      hash_unset = λ z. absurd cc;
      is_valid =
          (validate_iff (record s { at_eof = true; root_hash = root; changed = changed })).1
            (record {
              skip_bare = λ z. absurd cc;
              changed_ends = λ z. refl;
              restart_full = old.restart_full;
              empty_marks = λ z. inl refl;
            });
    }

pub started-IsSegment :
    (index n : ℕ) (r : Bool)
    → index < 2 ^ 32
    → n ≤ max_chunk_size
    → 1 ≤ n
    → IsSegment (record (new_segment index) { restart = r; len = (0 + n) % 2 ^ 32 })
started-IsSegment index n r i le one = record {
  index_fits = i;
  len_fits = omega arith;
  hash_size = refl;
  hash_unset = λ z. refl;
  is_valid =
      (validate_iff (record (new_segment index) { restart = r; len = (0 + n) % 2 ^ 32 })).1
        (record {
          skip_bare = λ z. absurd cc;
          changed_ends = λ z. absurd cc;
          restart_full = λ z. omega arith;
          empty_marks = λ z. absurd (omega arith);
        });
}

pub marker-IsSegment :
    (index : ℕ) (root : List ℕ) (changed : Bool)
    → index < 2 ^ 32
    → length root ≡ 32
    → IsSegment (record (new_segment index) { at_eof = true; root_hash = root; changed = changed })
marker-IsSegment index root changed i l = record {
  index_fits = i;
  len_fits = omega arith;
  hash_size = l;
  hash_unset = λ z. absurd cc;
  is_valid =
      (validate_iff
          (record (new_segment index) { at_eof = true; root_hash = root; changed = changed })).1
        (record {
          skip_bare = λ z. absurd cc;
          changed_ends = λ z. refl;
          restart_full = λ z. absurd cc;
          empty_marks = λ z. inl refl;
        });
}

pub skip-IsSegment :
    (index : ℕ) → index < 2 ^ 32 → IsSegment (record (new_segment index) { skip = true })
skip-IsSegment index i = record {
  index_fits = i;
  len_fits = omega arith;
  hash_size = refl;
  hash_unset = λ z. refl;
  is_valid = (validate_iff (record (new_segment index) { skip = true })).1 (record {
    skip_bare = λ z. (refl, refl, refl, refl);
    changed_ends = λ z. absurd cc;
    restart_full = λ z. absurd cc;
    empty_marks = λ z. inr refl;
  });
}
