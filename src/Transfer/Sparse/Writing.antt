-- ===== src/Transfer/Sparse/Writing.antt =====
-- A sparse write and a plain one: the file reads the same (internal/transfer/recv.go: writeSparse).
use fsend.Base.{ℕ, zero, suc, ◌+◌, ◌-◌, ◌≤◌, ◌<◌, ◌≡◌, inl, inr, refl, sym, ap, subst, ◌∙◌, arith}
use fsend.Base.{Bool, true, false, Bool-cases, none, Option-cases, none_is_not_some}
use fsend.Base.{
  List, [], ◌∷◌, ◌++◌, append-nil, append_assoc, ltb, leb, ◌==◌, length, take, drop, replicate, all,
}
use fsend.Base.{length-append, length-take, length-drop, length-replicate, take_all, drop_all}
use fsend.Transfer.Sparse.{sparse_block, extend, write_at, Disk, write_answered, flush_run}
use fsend.Transfer.Sparse.{Scan, scan, write_rest, write_sparse, lead_of}

pub length-extend : (n : ℕ) (c : List ℕ) → length c ≤ n → length (extend n c) ≡ n
unfolding extend
length-extend n c h =
    omega (
      arith,
      length-append c (replicate (n - length c) 0),
      length-replicate {A = ℕ} (n - length c) 0,
    )

pub extend_whole : (n : ℕ) (c : List ℕ) → n ≤ length c → extend n c ≡ c
unfolding extend
extend_whole n c h = let z : n - length c ≡ 0 = omega arith in rw z (append-nil c)

replicate-add : (m n : ℕ) → replicate {A = ℕ} (m + n) 0 ≡ replicate m 0 ++ replicate n 0
replicate-add zero n = ap (λ k. replicate {A = ℕ} k 0) (omega arith)
replicate-add (suc m) n =
    let e : suc m + n ≡ suc (m + n) = omega arith in rw e (ap (λ t. 0 ∷ t) (replicate-add m n))

extend_more : (n k : ℕ) (c : List ℕ) → length c ≤ n → extend (n + k) c ≡ extend n c ++ replicate k 0
unfolding extend
extend_more n k c h =
    let e : n + k - length c ≡ n - length c + k = omega arith in
    ap (λ t. c ++ replicate t 0) e
    ∙ ap (λ t. c ++ t) (replicate-add (n - length c) k)
    ∙ sym (append_assoc c (replicate (n - length c) 0) (replicate k 0))

-- A write behind the end of a file.
pub write_at_end :
    (off : ℕ) (d c : List ℕ) → length c ≤ off → 1 ≤ length d → write_at off d c ≡ extend off c ++ d
unfolding write_at
write_at_end off [] c h one = absurd (omega arith)
write_at_end off (x ∷ xs) c h one =
    rw
      (
        take_all off (extend off c) (omega (arith, length-extend off c h)),
        drop_all (off + length (x ∷ xs)) c (omega arith),
      )
      (ap (λ t. extend off c ++ t) (append-nil (x ∷ xs)))

take-add : (i k : ℕ) (xs : List ℕ) → take (i + k) xs ≡ take i xs ++ take k (drop i xs)
take-add zero k xs = ap (λ j. take j xs) (omega arith)
take-add (suc i) zero [] = let e : suc i + 0 ≡ suc i = omega arith in rw e refl
take-add (suc i) (suc k) [] = let e : suc i + suc k ≡ suc (i + suc k) = omega arith in rw e refl
take-add (suc i) k (x ∷ xs) =
    let e : suc i + k ≡ suc (i + k) = omega arith in rw e (ap (λ t. x ∷ t) (take-add i k xs))

zeros : (xs : List ℕ) → all (λ b. b == 0) xs ≡ true → xs ≡ replicate (length xs) 0
zeros [] h = refl
zeros (x ∷ xs) h = ground (arith, zeros xs)

module _ (c₀ : List ℕ) (pos : ℕ) (bytes : List ℕ) where
  -- The file reads as the old one with the first `start` bytes of the data behind it.
  record Reads (start : ℕ) (c : List ℕ) : Type 0 where
    short : length c ≤ pos + start
    read : extend (pos + start) c ≡ extend pos c₀ ++ take start bytes

  written-Reads :
      (start end : ℕ) (c : List ℕ)
      → start < end
      → end ≤ length bytes
      → Reads start c
      → Reads end (write_at (pos + start) (take (end - start) (drop start bytes)) c)
        × (length (write_at (pos + start) (take (end - start) (drop start bytes)) c) ≡ pos + end)
  written-Reads start end c le lim r =
      let d = take (end - start) (drop start bytes) in
      let x = extend (pos + start) c in
      let len : length d ≡ end - start =
        omega (arith, length-take (end - start) (drop start bytes), length-drop start bytes) in
      let size : length (x ++ d) ≡ pos + end =
        omega (arith, length-append x d, length-extend (pos + start) c r.short) in
      let sum : start + (end - start) ≡ end = omega arith in
      rw (write_at_end (pos + start) d c r.short (omega (arith, len))) (
        record {
          short = omega arith;
          read =
              extend_whole (pos + end) (x ++ d) (omega arith)
              ∙ ap (λ t. t ++ d) r.read
              ∙ append_assoc (extend pos c₀) (take start bytes) d
              ∙ ap (λ t. extend pos c₀ ++ t)
                  (sym (take-add start (end - start) bytes) ∙ ap (λ n. take n bytes) sum);
        },
        size,
      )

  flush_run-Reads :
      (disk : Disk) (start end : ℕ) (c : List ℕ)
      → start ≤ end
      → end ≤ length bytes
      → Reads start c
      → (flush_run disk pos bytes start end c).fault ≡ none
      → Reads end (flush_run disk pos bytes start end c).content
        × (start < end → length (flush_run disk pos bytes start end c).content ≡ pos + end)
  unfolding flush_run write_answered
  flush_run-Reads disk start end c le lim r ok = elim (Bool-cases (ltb start end)) [
    | inr e ↦
        let same : start ≡ end = ground arith in
        rw e (subst (λ n. Reads n c) same r, λ h. absurd (omega arith))
    | inl e ↦ elim (Option-cases (disk (pos + start))) [
      | inr (f, g) ↦ absurd (none_is_not_some (sym (rw (e, g) at ok)))
      | inl g ↦ let w = written-Reads start end c (ground arith) lim r in rw (e, g) (w.0, λ h. w.1)
    ]
  ]

  -- A zero block is left out.
  hole-Reads :
      (block i : ℕ) (c : List ℕ)
      → i + block ≤ length bytes
      → all (λ b. b == 0) (take block (drop i bytes)) ≡ true
      → Reads i c
      → Reads (i + block) c
  hole-Reads block i c lim z r =
      let len : length (take block (drop i bytes)) ≡ block =
        omega (arith, length-take block (drop i bytes), length-drop i bytes) in
      let more : pos + (i + block) ≡ pos + i + block = omega arith in
      record {
        short = omega (arith, r.short);
        read =
            rw more (extend_more (pos + i) block c r.short)
            ∙ ap (λ t. t ++ replicate block 0) r.read
            ∙ append_assoc (extend pos c₀) (take i bytes) (replicate block 0)
            ∙ ap (λ t. extend pos c₀ ++ t)
                (ap (λ n. take i bytes ++ replicate {A = ℕ} n 0) (sym len)
                  ∙ ap (λ t. take i bytes ++ t) (sym (zeros (take block (drop i bytes)) z))
                  ∙ sym (take-add i block bytes));
      }

  scan-Reads :
      (block k : ℕ) (disk : Disk) (start i : ℕ) (c : List ℕ)
      → start ≤ i
      → i ≤ length bytes
      → Reads start c
      → (scan block k disk pos bytes start i c).fault ≡ none
      → Reads
          (scan block k disk pos bytes start i c).start
          (scan block k disk pos bytes start i c).content
        × ((scan block k disk pos bytes start i c).start ≤ length bytes)
  unfolding scan
  scan-Reads block zero disk start i c le lim r ok = (r, omega arith)
  scan-Reads block (suc k) disk start i c le lim r ok =
      elim (Bool-cases (leb (i + block) (length bytes))) [
        | inr e ↦ rw e (r, omega arith)
        | inl e ↦ elim (Bool-cases (all (λ b. b == 0) (take block (drop i bytes)))) [
          | inr g ↦
              rw (e, g)
                (scan-Reads block k disk start (i + block) c (omega arith) (ground arith) r
                  (rw (e, g) at ok))
          | inl g ↦ elim (Option-cases (flush_run disk pos bytes start i c).fault) [
            | inr (f, h) ↦ absurd (none_is_not_some (sym (rw (e, g, h) at ok)))
            | inl h ↦
                let (kept, _) = flush_run-Reads disk start i c le lim r h in
                let w = (flush_run disk pos bytes start i c).content in
                rw (e, g, h)
                  (scan-Reads block k disk (i + block) (i + block) w (omega arith) (ground arith)
                    (hole-Reads block i w (ground arith) g kept) (rw (e, g, h) at ok))
          ]
        ]
      ]

-- A file that reads as the bytes received, with zeros for what lies behind its end; it ends where
-- they end, unless the last write left a hole there.
pub record Stands (received c : List ℕ) (tail : Bool) : Type 0 where
  pub short : length c ≤ length received
  pub read : extend (length received) c ≡ received
  pub exact : tail ≡ false → length c ≡ length received

lead_of-le : (block pos len : ℕ) → lead_of block pos len ≤ len
unfolding lead_of
lead_of-le block pos len = ground arith

rest-Stands :
    (disk : Disk) (received bytes c : List ℕ) (tail : Bool) (s : Scan)
    → s.fault ≡ none
    → s.start ≤ length bytes
    → extend (length received) c ≡ received
    → Reads c (length received) bytes s.start s.content
    → (write_rest disk (length received) bytes tail s).fault ≡ none
    → Stands
        (received ++ bytes)
        (write_rest disk (length received) bytes tail s).content
        (write_rest disk (length received) bytes tail s).tail_hole
rest-Stands disk received bytes c tail s e le old r ok =
    let w = flush_run disk (length received) bytes s.start (length bytes) s.content in
    let fine : w.fault ≡ none = rw e at ok in
    let (last, filled) =
      flush_run-Reads c (length received) bytes disk s.start (length bytes) s.content le
        (omega arith) r fine in
    let size = length-append received bytes in
    rw (e, fine)
      (record {
        short = omega (arith, last.short, size);
        read = rw size (
            last.read
            ∙ ap (λ t. t ++ take (length bytes) bytes) old
            ∙ ap (λ t. received ++ t) (take_all (length bytes) bytes (omega arith)));
        exact = λ z. ground (arith, filled, size);
      })

-- A write that fails nowhere: the file reads as what it read before, with the data behind it.
pub write_sparse-Stands :
    (disk : Disk) (received bytes c : List ℕ) (tail : Bool)
    → Stands received c tail
    → (write_sparse disk (length received) bytes tail c).fault ≡ none
    → Stands
        (received ++ bytes)
        (write_sparse disk (length received) bytes tail c).content
        (write_sparse disk (length received) bytes tail c).tail_hole
unfolding write_sparse
write_sparse-Stands disk received bytes c tail v ok =
    let n = length bytes in
    let pos = length received in
    let i = lead_of sparse_block pos n in
    let s = scan sparse_block n disk pos bytes 0 i c in
    let start : Reads c pos bytes 0 c = record {
      short = omega (arith, v.short);
      read = let z : pos + 0 ≡ pos = omega arith in rw z (sym (append-nil (extend pos c)));
    } in
    elim (Option-cases s.fault) [
      | inr (f, h) ↦ absurd (none_is_not_some (sym (rw h at ok)))
      | inl h ↦
          let (kept, le) =
            scan-Reads c pos bytes sparse_block n disk 0 i c (omega arith)
              (lead_of-le sparse_block pos n) start h in
          rest-Stands disk received bytes c tail s h le v.read kept ok
    ]
