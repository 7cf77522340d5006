-- ===== src/Transfer/Receive/Session/Delivery.antt =====
-- One file where no system call fails (internal/transfer/recv.go: write, finalize, committer).
use fsend.Base.{
  ℕ, zero, suc, ◌+◌, ◌%◌, ◌^◌, ◌≤◌, ◌<◌, ◌≡◌, refl, sym, ap, subst, ◌∙◌, inl, inr, arith,
}
use fsend.Base.{Bool, true, false, ◌&&◌, ◌||◌, Bool-cases, none}
use fsend.Base.{
  List, [], ◌∷◌, ◌++◌, append-nil, append_assoc, ltb, leb, ◌==◌, length, take, drop, all,
}
use fsend.Base.Bytes.{bytes_eq, bytes_eq_iff}
use fsend.Base.Maps.{String, erase}
use fsend.Transfer.HashTree.{write, sum, bytes_root}
use fsend.Transfer.HashTree.Splitting.{Holds-root}
use fsend.Transfer.Sparse.{
  sparse_block, truncate, write_sparse, Disk, flush_run, write_answered, scan, lead_of,
}
use fsend.Transfer.Plan.{needs_consent}
use fsend.Transfer.Faults.{fine}
use fsend.Transfer.Receive.{
  RecvFile, Answers, PendingFile, Receiver, Step, write_file, after_write, check_file,
}
use fsend.Transfer.Receive.Commit.{
  place, place_all, flush, add, is_full_dir, commit_max_files, commit_max_bytes,
}
use fsend.Transfer.Receive.Session.Writing.{
  Receiving, OnSuccess, write_file-Receiving, check_file-content,
}

-- No system call fails, and no folder with files is in the way.
pub record Works (ans : Answers) : Type 0 where
  pub opened : ans.opened ≡ true
  pub disk : (n : ℕ) → ans.disk n ≡ none
  pub extended : ans.extended ≡ true
  pub synced : ans.synced ≡ true
  pub slot : (t : String) → is_full_dir (ans.slot t) ≡ false
  pub moved : (t : String) → ans.moved t ≡ true

flush_run-fine :
    (disk : Disk) (pos : ℕ) (bytes : List ℕ) (start end : ℕ) (c : List ℕ)
    → ((n : ℕ) → disk n ≡ none)
    → (flush_run disk pos bytes start end c).fault ≡ none
unfolding flush_run write_answered
flush_run-fine disk pos bytes start end c h = ground (arith, h (pos + start))

scan-fine :
    (block k : ℕ) (disk : Disk) (pos : ℕ) (bytes : List ℕ) (start i : ℕ) (c : List ℕ)
    → ((n : ℕ) → disk n ≡ none)
    → (scan block k disk pos bytes start i c).fault ≡ none
unfolding scan
scan-fine block zero disk pos bytes start i c h = refl
scan-fine block (suc k) disk pos bytes start i c h =
    elim (Bool-cases (leb (i + block) (length bytes))) [
      | inr e ↦ rw e refl
      | inl e ↦ elim (Bool-cases (all (λ b. b == 0) (take block (drop i bytes)))) [
        | inr g ↦ rw (e, g) (scan-fine block k disk pos bytes start (i + block) c h)
        | inl g ↦
            rw (e, g, flush_run-fine disk pos bytes start i c h)
              (scan-fine block k disk pos bytes (i + block) (i + block)
                (flush_run disk pos bytes start i c).content h)
      ]
    ]

pub write_sparse-fine :
    (disk : Disk) (pos : ℕ) (bytes : List ℕ) (tail : Bool) (c : List ℕ)
    → ((n : ℕ) → disk n ≡ none)
    → (write_sparse disk pos bytes tail c).fault ≡ none
unfolding write_sparse
write_sparse-fine disk pos bytes tail c h =
    let s =
      scan sparse_block (length bytes) disk pos bytes 0 (lead_of sparse_block pos (length bytes))
        c in
    rw
      (scan-fine sparse_block (length bytes) disk pos bytes 0
        (lead_of sparse_block pos (length bytes)) c h)
      (flush_run-fine disk pos bytes s.start (length bytes) s.content h)

-- A step that leaves the receiver as it is and succeeds with a value for which `Q` holds.
abbrev pub Gives : {A : Type 0} → (A → Type 0) → Receiver → Step A → Type 0
Gives {A} Q r x = (a : A) × (x ≡ (r, fine a)) × Q a

module _ (plain derive : List ℕ → List ℕ) where
  pub write_file-fine :
      (rf : RecvFile) (bytes received : List ℕ) (ans : Answers) (r : Receiver)
      → Works ans
      → rf.plan.entry.size < 2 ^ 63
      → length received + length bytes ≤ rf.plan.entry.size
      → Receiving plain received rf
      → Gives
          (λ g. Receiving plain (received ++ bytes) g × (g.plan ≡ rf.plan))
          r
          (write_file rf bytes ans r)
  unfolding write_file after_write
  write_file-fine rf bytes received ans r w small fits v =
      let u = write_sparse ans.disk rf.written bytes rf.tail_hole rf.content in
      let g : RecvFile = record rf {
        content = u.content;
        hasher = write bytes rf.hasher;
        written = (rf.written + length bytes) % 2 ^ 64;
        tail_hole = u.tail_hole;
      } in
      let P = λ (h : RecvFile). Receiving plain (received ++ bytes) h × (h.plan ≡ rf.plan) in
      let ok = write_file-Receiving plain rf bytes received ans r small (omega arith) v in
      elim (Bool-cases (length bytes == 0)) [
        | inl z ↦ (rf, rw z refl, rw z at ok)
        | inr z ↦
            let room : ltb rf.plan.entry.size ((rf.written + length bytes) % 2 ^ 64) ≡ false =
              ground (arith, v.counted) in
            let still =
              write_sparse-fine ans.disk rf.written bytes rf.tail_hole rf.content w.disk in
            (g, rw (z, room, still) refl, rw (z, room, still) at ok)
      ]

  pub check_file-fine :
      (rf : RecvFile) (root received : List ℕ) (ans : Answers) (r : Receiver)
      → Works ans
      → length received ≡ rf.plan.entry.size
      → bytes_root plain derive received ≡ root
      → Receiving plain received rf
      → Gives
          (λ pf. (pf.content ≡ received) × (pf.plan ≡ rf.plan))
          r
          (check_file plain derive rf root ans r)
  unfolding check_file
  check_file-fine rf root received ans r w size same v =
      let ok = check_file-content plain derive rf root received ans r v in
      let whole : (rf.written == rf.plan.entry.size) ≡ true = ground (arith, v.counted, size) in
      let equal : bytes_eq (sum plain derive rf.hasher) root ≡ true =
        (bytes_eq_iff (sum plain derive rf.hasher) root).1
          (Holds-root plain derive received rf.hasher v.hashed ∙ same) in
      let extended = w.extended in
      let P = λ (pf : PendingFile).
        (pf.content ≡ received)
        × (pf.plan ≡ rf.plan)
        × (length received ≡ rf.plan.entry.size)
        × (bytes_root plain derive received ≡ root) in
      let gives : (pf : PendingFile)
          → check_file plain derive rf root ans r ≡ (r, fine pf)
          → (pf.content ≡ received) × (pf.plan ≡ rf.plan) =
        λ pf e. let k = subst (λ (x : Step PendingFile). OnSuccess P x.1) e ok in (k.0, k.1) in
      elim (Bool-cases rf.tail_hole) [
        | inl t ↦
            let pf : PendingFile = record {
              plan = rf.plan;
              content = truncate rf.plan.entry.size rf.content;
            } in
            let e : check_file plain derive rf root ans r ≡ (r, fine pf) = ground arith in
            (pf, e, gives pf e)
        | inr t ↦
            let pf : PendingFile = record { plan = rf.plan; content = rf.content } in
            let e : check_file plain derive rf root ans r ≡ (r, fine pf) = ground arith in
            (pf, e, gives pf e)
      ]

-- The files in place and those that wait for their batch, in the order in which they were received.
abbrev pub held : Receiver → List PendingFile
held r = r.saved ++ r.pending

place_all-fine :
    (ans : Answers) (pfs : List PendingFile) (r : Receiver)
    → Works ans
    → ((place_all ans pfs r).1 ≡ true)
      × ((place_all ans pfs r).0.saved ≡ r.saved ++ pfs)
      × ((place_all ans pfs r).0.pending ≡ r.pending)
unfolding place_all place
place_all-fine ans [] r w = (refl, sym (append-nil r.saved), refl)
place_all-fine ans (pf ∷ pfs) r w =
    let full : (needs_consent pf.plan && is_full_dir (ans.slot pf.plan.target)) ≡ false =
      ground (arith, w.slot pf.plan.target) in
    let q : Receiver = record r { saved = r.saved ++ (pf ∷ []); kept = erase pf.plan.rel r.kept } in
    let (ok, saved, pending) = place_all-fine ans pfs q w in
    rw (full, w.moved pf.plan.target)
      (ground (arith, ok), saved ∙ append_assoc r.saved (pf ∷ []) pfs, pending)

flush-fine :
    (ans : Answers) (r : Receiver)
    → Works ans
    → (q : Receiver) × (flush ans r ≡ (q, fine tt)) × (held q ≡ held r)
unfolding flush
flush-fine ans r w =
    let emptied : Receiver = record r { pending = []; pending_bytes = 0 } in
    let (ok, saved, pending) = place_all-fine ans r.pending emptied w in
    elim (Bool-cases (length r.pending == 0)) [
      | inl e ↦ (emptied, rw e refl, ap (λ l. r.saved ++ l) (none_left r.pending (ground arith)))
      | inr e ↦ (
        (place_all ans r.pending emptied).0,
        ground (arith, ok, w.synced),
        ap (λ l. (place_all ans r.pending emptied).0.saved ++ l) pending
            ∙ append-nil (place_all ans r.pending emptied).0.saved
            ∙ saved,
      )
    ]
  where
    none_left : (l : List PendingFile) → length l ≡ 0 → [] ≡ l
    none_left [] h = refl
    none_left (x ∷ xs) h = absurd (omega arith)

pub add-fine :
    (ans : Answers) (pf : PendingFile) (r : Receiver)
    → Works ans
    → (q : Receiver) × (add ans pf r ≡ (q, fine tt)) × (held q ≡ held r ++ (pf ∷ []))
unfolding add
add-fine ans pf r w =
    let q : Receiver = record r {
      pending = r.pending ++ (pf ∷ []);
      pending_bytes = (r.pending_bytes + pf.plan.entry.size) % 2 ^ 64;
    } in
    let behind = sym (append_assoc r.saved r.pending (pf ∷ [])) in
    let (p, e, h) = flush-fine ans q w in
    elim (Bool-cases
      (leb commit_max_files (length q.pending) || leb commit_max_bytes q.pending_bytes)) [
        | inl z ↦ (p, rw z e, h ∙ behind)
        | inr z ↦ (q, rw z refl, behind)
      ]
