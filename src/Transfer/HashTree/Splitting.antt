-- ===== src/Transfer/HashTree/Splitting.antt =====
-- A file's root does not depend on how its bytes are split into writes
-- (internal/transfer/filehash.go: Write, blocks, Sum).
use fsend.Base.{
  ℕ, zero, suc, ◌+◌, ◌-◌, ◌%◌, ◌^◌, ◌≤◌, ◌<◌, ◌≡◌, min, inl, inr, refl, sym, ap, subst, ◌∙◌, arith,
}
use fsend.Base.{
  Bool-cases, List, [], ◌∷◌, ◌++◌, map, if◌then◌else◌, append-nil, append_assoc, ◌==◌, length, take,
  drop, All, All-append,
}
use fsend.Base.{append_inj, length-append, length-take, length-drop, take-append-drop}
use mathlib.Core.List.{map-append}
use fsend.Transfer.HashTree.{
  FileHasher, new_file_hasher, dispatch_if_full, write_loop, write, write_all, joined, sum,
  all_blocks, bytes_root, hash_block_size,
}

-- A hasher that was given `bytes`: full blocks, some of them by their hashes, then a shorter one.
pub record Holds (plain : List ℕ → List ℕ) (bytes : List ℕ) (h : FileHasher) : Type 0 where
  pub prefix : List (List ℕ)
  pub seeded : h.seeds ≡ map plain prefix
  pub full : All (λ b. length b ≡ hash_block_size) (prefix ++ h.dispatched)
  pub short : length h.cur < hash_block_size
  pub all_of_it : joined (prefix ++ h.dispatched) ++ h.cur ≡ bytes
  pub counted : h.n ≡ length bytes % 2 ^ 64

pub joined-append : (bs cs : List (List ℕ)) → joined (bs ++ cs) ≡ joined bs ++ joined cs
joined-append [] cs = refl
joined-append (b ∷ bs) cs =
    ap (λ t. b ++ t) (joined-append bs cs) ∙ sym (append_assoc b (joined bs) (joined cs))

module _ (plain : List ℕ → List ℕ) where
  filled-Holds :
      (bytes piece : List ℕ) (h : FileHasher) (n : ℕ)
      → Holds plain bytes h
      → length h.cur + length piece ≤ hash_block_size
      → n ≡ length piece
      → Holds plain
          (bytes ++ piece)
          (dispatch_if_full (record h { cur = h.cur ++ piece; n = (h.n + n) % 2 ^ 64 }))
  unfolding dispatch_if_full
  filled-Holds bytes piece h n k fits e =
      let longer = length-append h.cur piece in
      let blocks = k.prefix ++ h.dispatched in
      let count : (h.n + n) % 2 ^ 64 ≡ length (bytes ++ piece) % 2 ^ 64 =
        omega (arith, k.counted, length-append bytes piece) in
      let content : joined blocks ++ (h.cur ++ piece) ≡ bytes ++ piece =
        sym (append_assoc (joined blocks) h.cur piece) ∙ ap (λ t. t ++ piece) k.all_of_it in
      let one_more = append_assoc k.prefix h.dispatched ((h.cur ++ piece) ∷ []) in
      elim (Bool-cases (length (h.cur ++ piece) == hash_block_size)) [
        | inl f ↦ rw f (record {
          prefix = k.prefix;
          seeded = k.seeded;
          full = subst (All (λ b. length b ≡ hash_block_size)) one_more (
              All-append (λ b. length b ≡ hash_block_size) blocks ((h.cur ++ piece) ∷ []) k.full
                (ground arith, tt));
          short = omega arith;
          all_of_it =
              append-nil (joined (k.prefix ++ (h.dispatched ++ ((h.cur ++ piece) ∷ []))))
              ∙ ap joined (sym one_more)
              ∙ joined-append blocks ((h.cur ++ piece) ∷ [])
              ∙ ap (λ t. joined blocks ++ t) (append-nil (h.cur ++ piece))
              ∙ content;
          counted = count;
        })
        | inr f ↦ rw f (record {
          prefix = k.prefix;
          seeded = k.seeded;
          full = k.full;
          short = ground (arith, longer);
          all_of_it = content;
          counted = count;
        })
      ]

  write_loop-Holds :
      (k : ℕ) (bytes more : List ℕ) (h : FileHasher)
      → Holds plain bytes h
      → length more ≤ k
      → Holds plain (bytes ++ more) (write_loop k more h)
  unfolding write_loop
  write_loop-Holds zero bytes [] h v le = subst (λ b. Holds plain b h) (sym (append-nil bytes)) v
  write_loop-Holds zero bytes (b ∷ bs) h v le = absurd (omega arith)
  write_loop-Holds (suc k) bytes [] h v le = subst (λ b. Holds plain b h) (sym (append-nil bytes)) v
  write_loop-Holds (suc k) bytes (b ∷ bs) h v le =
      let fits = min (length (b ∷ bs)) (hash_block_size - length h.cur) in
      let piece = take fits (b ∷ bs) in
      let size : fits ≡ length piece = omega (arith, length-take fits (b ∷ bs), v.short) in
      let filled = filled-Holds bytes piece h fits v (omega (arith, size, v.short)) size in
      subst (λ t. Holds plain t (write_loop (suc k) (b ∷ bs) h))
        (append_assoc bytes piece (drop fits (b ∷ bs))
          ∙ ap (λ t. bytes ++ t) (take-append-drop fits (b ∷ bs)))
        (write_loop-Holds k (bytes ++ piece) (drop fits (b ∷ bs)) _ filled
          (omega (arith, length-drop fits (b ∷ bs), v.short)))

  pub write-Holds :
      (bytes more : List ℕ) (h : FileHasher)
      → Holds plain bytes h
      → Holds plain (bytes ++ more) (write more h)
  unfolding write
  write-Holds bytes more h v = write_loop-Holds (length more) bytes more h v (omega arith)

  write_all-Holds :
      (bytes : List ℕ) (ps : List (List ℕ)) (h : FileHasher)
      → Holds plain bytes h
      → Holds plain (bytes ++ joined ps) (write_all ps h)
  unfolding write_all
  write_all-Holds bytes [] h v = subst (λ b. Holds plain b h) (sym (append-nil bytes)) v
  write_all-Holds bytes (p ∷ ps) h v =
      subst (λ b. Holds plain b (write_all (p ∷ ps) h)) (append_assoc bytes p (joined ps))
        (write_all-Holds (bytes ++ p) ps (write p h) (write-Holds bytes p h v))

  pub new_file_hasher-Holds : Holds plain [] new_file_hasher
  new_file_hasher-Holds = record {
    prefix = [];
    seeded = refl;
    full = tt;
    short = omega arith;
    all_of_it = refl;
    counted = refl;
  }

-- Full blocks and a shorter one: bytes are split in one way only.
split_unique :
    (ds es : List (List ℕ)) (c d : List ℕ)
    → All (λ b. length b ≡ hash_block_size) ds
    → All (λ b. length b ≡ hash_block_size) es
    → length c < hash_block_size
    → length d < hash_block_size
    → joined ds ++ c ≡ joined es ++ d
    → (ds ≡ es) × (c ≡ d)
split_unique [] [] c d f g h k e = (refl, e)
split_unique [] (b ∷ es) c d f g h k e =
    absurd (
      omega
        (arith, g.0, ap length e, length-append (b ++ joined es) d, length-append b (joined es)))
split_unique (b ∷ ds) [] c d f g h k e =
    absurd (
      omega
        (arith, f.0, ap length e, length-append (b ++ joined ds) c, length-append b (joined ds)))
split_unique (a ∷ ds) (b ∷ es) c d f g h k e =
    let (same, rest) =
      append_inj a b (joined ds ++ c) (joined es ++ d) (f.0 ∙ sym g.0)
        (sym (append_assoc a (joined ds) c) ∙ e ∙ append_assoc b (joined es) d) in
    let (blocks, last) = split_unique ds es c d f.1 g.1 h k rest in
    (rw same (ap (λ t. b ∷ t) blocks), last)

-- What is hashed at the end: the blocks of the bytes.
hashed_blocks :
    (plain : List ℕ → List ℕ) (bytes : List ℕ) (h : FileHasher) (v : Holds plain bytes h)
    → h.seeds ++ map plain (all_blocks h)
      ≡ map plain (
          if length h.cur == 0
          then v.prefix ++ h.dispatched
          else (v.prefix ++ h.dispatched) ++ (h.cur ∷ []))
unfolding all_blocks
hashed_blocks plain bytes h v = elim (Bool-cases (length h.cur == 0)) [
  | inl e ↦ rw (e, v.seeded) (sym (map-append plain v.prefix h.dispatched))
  | inr e ↦
      rw (e, v.seeded)
        (sym (map-append plain v.prefix (h.dispatched ++ (h.cur ∷ [])))
          ∙ ap (map plain) (sym (append_assoc v.prefix h.dispatched (h.cur ∷ []))))
]

pub Holds-unique :
    (plain derive : List ℕ → List ℕ) (bytes : List ℕ) (h g : FileHasher)
    → Holds plain bytes h
    → Holds plain bytes g
    → sum plain derive h ≡ sum plain derive g
unfolding sum
Holds-unique plain derive bytes h g v w =
    let (blocks, last) =
      split_unique (v.prefix ++ h.dispatched) (w.prefix ++ g.dispatched) h.cur g.cur v.full w.full
        v.short w.short (v.all_of_it ∙ sym w.all_of_it) in
    rw (hashed_blocks plain bytes h v, hashed_blocks plain bytes g w)
      (rw (blocks, last, v.counted ∙ sym w.counted) refl)

-- The root of a hasher that was given `bytes`, in whatever pieces and with whatever blocks at the
-- start given by their hashes.
pub Holds-root :
    (plain derive : List ℕ → List ℕ) (bytes : List ℕ) (h : FileHasher)
    → Holds plain bytes h
    → sum plain derive h ≡ bytes_root plain derive bytes
unfolding bytes_root
Holds-root plain derive bytes h v =
    Holds-unique plain derive bytes h (write bytes new_file_hasher) v
      (write-Holds plain [] bytes new_file_hasher (new_file_hasher-Holds plain))

-- However a file's bytes are split into writes, the root is that of all the bytes in one write.
pub sum-write_all :
    (plain derive : List ℕ → List ℕ) (ps : List (List ℕ))
    → sum plain derive (write_all ps new_file_hasher) ≡ bytes_root plain derive (joined ps)
sum-write_all plain derive ps =
    Holds-root plain derive (joined ps) (write_all ps new_file_hasher)
      (write_all-Holds plain [] ps new_file_hasher (new_file_hasher-Holds plain))
