-- ===== src/Transfer/Receive/Session/Writing.antt =====
-- The file being received: what it reads as, and what its hasher was given (internal/transfer/
-- recv.go: openFile, write, finalize).
use fsend.Base.{
  ℕ, suc, ◌+◌, ◌*◌, ◌%◌, ◌^◌, ◌≤◌, ◌<◌, ◌≡◌, refl, sym, ap, subst, ◌∙◌, inl, inr, arith,
}
use fsend.Base.{Bool, true, false, Bool-cases, Option-cases}
use fsend.Base.{List, [], ◌∷◌, ◌++◌, map, append-nil, ltb, ◌==◌, length, take, All}
use fsend.Base.{length-append, length-take, take_all}
use fsend.Base.Bytes.{bytes_eq, bytes_eq_iff}
use fsend.Transfer.HashTree.{seed, sum, joined, bytes_root, hash_block_size}
use fsend.Transfer.HashTree.Splitting.{Holds, new_file_hasher-Holds, write-Holds, Holds-root}
use fsend.Transfer.Sparse.{truncate, extend, write_sparse}
use fsend.Transfer.Sparse.Writing.{Stands, write_sparse-Stands, extend_whole}
use fsend.Transfer.Plan.{EntryPlan, is_resume, fresh}
use fsend.Transfer.Faults.{Outcome, fine, fails}
use fsend.Transfer.Receive.{
  RecvFile, Answers, Receiver, open_file, open_partial, create_partial, resumed_file, new_file,
  write_file, after_write, check_file,
}

-- The file holds the bytes received so far, and the hasher was given them.
pub record Receiving (plain : List ℕ → List ℕ) (received : List ℕ) (rf : RecvFile) : Type 0 where
  pub stands : Stands received rf.content rf.tail_hole
  pub hashed : Holds plain received rf.hasher
  pub counted : rf.written ≡ length received
  pub within : rf.written ≤ rf.plan.entry.size

-- The blocks that were hashed for the resume offset are those of the partial as it is opened.
pub record IsPrefix (plain : List ℕ → List ℕ) (p : EntryPlan) (partial : List ℕ) : Type 0 where
  pub blocks : List (List ℕ)
  pub full : All (λ b. length b ≡ hash_block_size) blocks
  pub hashes : p.prefix_blocks ≡ map plain blocks
  pub size : length (joined blocks) ≡ p.resume_offset
  pub bytes : take p.resume_offset partial ≡ joined blocks
  pub within : p.resume_offset ≤ p.entry.size

-- A step's success hands on a value for which `P` holds.
abbrev pub OnSuccess : {A : Type 0} → (A → Type 0) → Outcome A → Type 0
OnSuccess P (fine a) = P a
OnSuccess P (fails f) = Unit {0}

pub OnSuccess-map :
    {A : Type 0} (P Q : A → Type 0) (o : Outcome A)
    → ((a : A) → P a → Q a)
    → OnSuccess P o
    → OnSuccess Q o
OnSuccess-map P Q (fine a) f h = f a h
OnSuccess-map P Q (fails e) f h = tt

length-joined :
    (bs : List (List ℕ))
    → All (λ b. length b ≡ hash_block_size) bs
    → length (joined bs) ≡ length bs * hash_block_size
length-joined [] h = omega arith
length-joined (b ∷ bs) h = omega (arith, length-append b (joined bs), h.0, length-joined bs h.1)

empty : (bs : List ℕ) → length bs ≡ 0 → [] ≡ bs
empty [] h = refl
empty (b ∷ bs) h = absurd (omega arith)

length-map : (f : List ℕ → List ℕ) (bs : List (List ℕ)) → length (map f bs) ≡ length bs
length-map f [] = refl
length-map f (b ∷ bs) = ap suc (length-map f bs)

-- Bytes that are all there.
Stands-whole : (received : List ℕ) → Stands received received false
Stands-whole received = record {
  short = omega arith;
  read = extend_whole (length received) received (omega arith);
  exact = λ z. refl;
}

exact_content :
    (received c : List ℕ) (tail : Bool) → tail ≡ false → Stands received c tail → c ≡ received
exact_content received c tail e v =
    sym (extend_whole (length received) c (omega (arith, v.exact e))) ∙ v.read

truncated_content :
    (received c : List ℕ) (tail : Bool) (size : ℕ)
    → length received ≡ size
    → Stands received c tail
    → truncate size c ≡ received
unfolding truncate
truncated_content received c tail size e v =
    ap (λ n. take n (extend n c)) (sym e)
    ∙ ap (take (length received)) v.read
    ∙ take_all (length received) received (omega arith)

module _ (plain : List ℕ → List ℕ) where
  resumed-Receiving :
      (p : EntryPlan) (ans : Answers)
      → (v : IsPrefix plain p ans.partial) → Receiving plain (joined v.blocks) (resumed_file p ans)
  unfolding seed truncate
  resumed-Receiving p ans v =
      let long : p.resume_offset ≤ length ans.partial =
        omega (arith, length-take p.resume_offset ans.partial, ap length v.bytes, v.size) in
      let same : truncate p.resume_offset ans.partial ≡ joined v.blocks =
        rw (extend_whole p.resume_offset ans.partial long) v.bytes in
      record {
        stands = rw same (Stands-whole (joined v.blocks));
        hashed = record {
          prefix = v.blocks;
          seeded = v.hashes;
          full = subst (All (λ b. length b ≡ hash_block_size)) (sym (append-nil v.blocks)) v.full;
          short = omega arith;
          all_of_it = append-nil (joined (v.blocks ++ [])) ∙ ap joined (append-nil v.blocks);
          counted =
              omega (
                arith,
                ap length v.hashes,
                length-map plain v.blocks,
                length-joined v.blocks v.full,
              );
        };
        counted = sym v.size;
        within = v.within;
      }

  pub new_file-Receiving : (p : EntryPlan) → Receiving plain [] (new_file p)
  new_file-Receiving p = record {
    stands = Stands-whole [];
    hashed = new_file_hasher-Holds plain;
    counted = refl;
    within = omega arith;
  }

  -- An opened file of the entry.
  abbrev pub Opened : EntryPlan → RecvFile → Type 0
  Opened p rf = (received : List ℕ) × Receiving plain received rf × (rf.plan.entry ≡ p.entry)

  create_partial-Opened :
      (p q : EntryPlan) (ans : Answers) (r : Receiver)
      → q.entry ≡ p.entry
      → OnSuccess (Opened p) (create_partial q ans r).1
  unfolding create_partial
  create_partial-Opened p q ans r e = elim (Bool-cases ans.opened) [
    | inl o ↦ rw o ([], new_file-Receiving q, e)
    | inr o ↦ rw o tt
  ]

  open_partial-Opened :
      (p : EntryPlan) (ans : Answers) (r : Receiver)
      → IsPrefix plain p ans.partial
      → OnSuccess (Opened p) (open_partial p ans r).1
  unfolding open_partial
  open_partial-Opened p ans r v = elim (Bool-cases ans.is_regular) [
    | inr a ↦ rw a tt
    | inl a ↦ elim (Bool-cases ans.opened) [
      | inr b ↦ rw (a, b) tt
      | inl b ↦ elim (Bool-cases ans.resized) [
        | inr c ↦ rw (a, b, c) tt
        | inl c ↦ rw (a, b, c) (joined v.blocks, resumed-Receiving p ans v, refl)
      ]
    ]
  ]

  pub open_file-Opened :
      (p : EntryPlan) (restart : Bool) (ans : Answers) (r : Receiver)
      → (is_resume p.disp ≡ true → IsPrefix plain p ans.partial)
      → OnSuccess (Opened p) (open_file p restart ans r).1
  unfolding open_file
  open_file-Opened p true ans r pre = elim (Bool-cases (is_resume p.disp)) [
    | inl e ↦
        rw e (create_partial-Opened p (record p { disp = fresh; prefix_blocks = [] }) ans r refl)
    | inr e ↦ rw e tt
  ]
  open_file-Opened p false ans r pre = elim (Bool-cases (is_resume p.disp)) [
    | inl e ↦ rw e (open_partial-Opened p ans r (pre e))
    | inr e ↦ rw e (create_partial-Opened p p ans r refl)
  ]

  written :
      (rf : RecvFile) (bytes received : List ℕ) (ans : Answers) (r : Receiver)
      → Receiving plain received rf
      → rf.written + length bytes < 2 ^ 64
      → rf.written + length bytes ≤ rf.plan.entry.size
      → OnSuccess
          (λ g. Receiving plain (received ++ bytes) g × (g.plan ≡ rf.plan))
          (after_write rf bytes
            (write_sparse ans.disk rf.written bytes rf.tail_hole rf.content)
            r).1
  unfolding after_write
  written rf bytes received ans r v small fits =
      let at = λ (n : ℕ). write_sparse ans.disk n bytes rf.tail_hole rf.content in
      let w = at rf.written in
      let same : w ≡ at (length received) = ap at v.counted in
      elim (Option-cases w.fault) [
        | inr (f, e) ↦ rw e tt
        | inl e ↦ rw e (
          record {
            stands =
                subst (λ u. Stands (received ++ bytes) u.content u.tail_hole) (sym same)
                  (write_sparse-Stands ans.disk received bytes rf.content rf.tail_hole v.stands
                    (ap (λ u. u.fault) (sym same) ∙ e));
            hashed = write-Holds plain received bytes rf.hasher v.hashed;
            counted = omega (arith, v.counted, length-append received bytes);
            within = omega arith;
          },
          refl,
        )
      ]

  pub write_file-Receiving :
      (rf : RecvFile) (bytes received : List ℕ) (ans : Answers) (r : Receiver)
      → rf.plan.entry.size < 2 ^ 63
      → length bytes < 2 ^ 63
      → Receiving plain received rf
      → OnSuccess
          (λ g. Receiving plain (received ++ bytes) g × (g.plan ≡ rf.plan))
          (write_file rf bytes ans r).1
  unfolding write_file after_write
  write_file-Receiving rf bytes received ans r small few v = elim (Bool-cases (length bytes == 0)) [
    | inl z ↦ rw z (
      subst (λ b. Receiving plain b rf)
          (sym (append-nil received) ∙ ap (λ b. received ++ b) (empty bytes (ground arith))) v,
      refl,
    )
    | inr z ↦ elim (Bool-cases (ltb rf.plan.entry.size ((rf.written + length bytes) % 2 ^ 64))) [
      | inl y ↦ rw (z, y) tt
      | inr y ↦ rw (z, y) (written rf bytes received ans r v (omega arith) (ground arith))
    ]
  ]

  pub check_file-content :
      (derive : List ℕ → List ℕ) (rf : RecvFile) (root received : List ℕ) (ans : Answers)
      (r : Receiver)
      → Receiving plain received rf
      → OnSuccess
          (λ pf.
            (pf.content ≡ received)
            × (pf.plan ≡ rf.plan)
            × (length received ≡ rf.plan.entry.size)
            × (bytes_root plain derive received ≡ root))
          (check_file plain derive rf root ans r).1
  unfolding check_file
  check_file-content derive rf root received ans r v =
      elim (Bool-cases (rf.written == rf.plan.entry.size)) [
        | inr a ↦ rw a tt
        | inl a ↦ elim (Bool-cases (bytes_eq (sum plain derive rf.hasher) root)) [
          | inr b ↦ rw (a, b) tt
          | inl b ↦
              let size : length received ≡ rf.plan.entry.size = ground (arith, v.counted) in
              let same : bytes_root plain derive received ≡ root =
                sym (Holds-root plain derive received rf.hasher v.hashed)
                ∙ (bytes_eq_iff (sum plain derive rf.hasher) root).0 b in
              elim (Bool-cases rf.tail_hole) [
                | inr c ↦
                    rw (a, b, c)
                      (exact_content received rf.content rf.tail_hole c v.stands, refl, size, same)
                | inl c ↦ elim (Bool-cases ans.extended) [
                  | inr d ↦ rw (a, b, c, d) tt
                  | inl d ↦
                      rw (a, b, c, d)
                        (
                          truncated_content received rf.content rf.tail_hole rf.plan.entry.size size
                              v.stands,
                          refl,
                          size,
                          same,
                        )
                ]
              ]
        ]
      ]
