-- ===== src/Transfer/Plan.antt =====
-- What the receiver means to do with each entry of the listing (internal/transfer/classify.go and
-- recv.go: planToDecision, manifestStatus).
pub mod Summary
pub mod Space
use fsend.Base.{
  ℕ, zero, suc, ◌+◌, ◌-◌, ◌*◌, ◌/◌, ◌%◌, ◌^◌, ◌<◌, min, Bool, true, false, not, ◌&&◌, ◌||◌,
}
use fsend.Base.{Option, none, some, List, [], ◌∷◌, if◌then◌else◌, ltb, ◌==◌}
use fsend.Base.Maps.{String, same}
use fsend.Transfer.HashTree.{fold_root, hash_block_size}

-- wire.EntryType
pub data EntryType : Type 0 where
  file : EntryType
  dir : EntryType
  symlink : EntryType

-- wire.ListingEntry. The modification time is an int64, kept as its bit pattern.
pub record ListingEntry : Type 0 where
  pub index : ℕ
  pub relative_path : String
  pub size : ℕ
  pub mod_time_sec : ℕ
  pub mode : ℕ
  pub typ : EntryType
  pub symlink_target : String

-- disposition
pub data Disposition : Type 0 where
  fresh : Disposition
  identical : Disposition
  differs : Disposition
  conflict : Disposition
  resume : Disposition
  verify : Disposition
  refused : Disposition

-- entryPlan, but for the digest of the manifest.
pub record EntryPlan : Type 0 where
  pub entry : ListingEntry
  pub rel : String
  pub target : String
  pub disp : Disposition
  pub resume_offset : ℕ
  pub prefix_blocks : List (List ℕ)
  pub partial : String
  pub blocked_ancestor : Bool
  pub non_empty_dir : Bool
  pub renamed : Bool
  pub skip_reason : String

-- A new entryPlan.
abbrev pub plan_of : ListingEntry → String → String → Disposition → EntryPlan
plan_of e rel target disp = record {
  entry = e;
  rel = rel;
  target = target;
  disp = disp;
  resume_offset = 0;
  prefix_blocks = [];
  partial = "";
  blocked_ancestor = false;
  non_empty_dir = false;
  renamed = false;
  skip_reason = "";
}

abbrev pub is_dir : EntryType → Bool
is_dir file = false
is_dir dir = true
is_dir symlink = false

abbrev pub is_file : EntryType → Bool
is_file file = true
is_file dir = false
is_file symlink = false

abbrev pub is_resume : Disposition → Bool
is_resume resume = true
is_resume _ = false

-- A differing or a conflicting entry.
abbrev pub disagrees : Disposition → Bool
disagrees fresh = false
disagrees identical = false
disagrees differs = true
disagrees conflict = true
disagrees resume = false
disagrees verify = false
disagrees refused = false

unfoldable pub needs_consent : EntryPlan → Bool
needs_consent p = disagrees p.disp

-- What os.Lstat of the target finds.
pub data Found : Type 0 where
  absent : Found
  regular : (size mod_time : ℕ) → Found
  folder : (has_entries : Bool) → Found
  link : Found
  special : Found

-- resumeCandidate; `partial` is what the partial store's lookup yields.
unfoldable pub resume_candidate : Option (String × ℕ) → EntryPlan → EntryPlan
resume_candidate none p = p
resume_candidate (some (path, size)) p =
    let limit = min size (p.entry.size - 1) in
    let aligned = limit / hash_block_size * hash_block_size in
    if p.entry.size == 0
    then p
    else if aligned == 0
    then p
    else (record p { disp = resume; resume_offset = aligned; partial = path })

abbrev if_new : Disposition → EntryPlan → EntryPlan → EntryPlan
if_new resume resumed other = resumed
if_new _ resumed other = other

-- The case of EntryDir in classifyOne; `blocked` is ancestorBlocked.
unfoldable pub classify_dir : Found → Bool → EntryPlan → EntryPlan
classify_dir absent blocked p = if blocked then (record p { disp = conflict }) else p
classify_dir (folder has_entries) blocked p = record p { disp = identical }
classify_dir (regular size mod_time) blocked p = record p { disp = conflict }
classify_dir link blocked p = record p { disp = conflict }
classify_dir special blocked p = record p { disp = conflict }

-- The default case of classifyOne.
unfoldable pub classify_file :
    (ℕ → ℕ → Bool) → Bool → Found → Bool → Option (String × ℕ) → EntryPlan → EntryPlan
classify_file same_mtime checksum absent blocked partial p =
    let q = resume_candidate partial p in
    if is_resume q.disp
    then q
    else if blocked
    then (record q { disp = conflict })
    else (record q { disp = fresh })
classify_file same_mtime checksum (regular size mod_time) blocked partial p =
    if (size == p.entry.size) && checksum
    then (record p { disp = verify })
    else if (size == p.entry.size) && same_mtime mod_time p.entry.mod_time_sec
    then (record p { disp = identical })
    else (record p { disp = differs })
classify_file same_mtime checksum (folder has_entries) blocked partial p = record p {
  disp = conflict;
  non_empty_dir = has_entries;
}
classify_file same_mtime checksum link blocked partial p = record p { disp = conflict }
classify_file same_mtime checksum special blocked partial p = record p { disp = differs }

-- classifyOne, of a plan that is new.
unfoldable pub classify_one :
    (ℕ → ℕ → Bool) → Bool → Found → Bool → Option (String × ℕ) → EntryPlan → EntryPlan
classify_one same_mtime checksum found blocked partial p =
    if is_dir p.entry.typ
    then classify_dir found blocked p
    else classify_file same_mtime checksum found blocked partial p

-- applyPolicy with ConflictReplace.
unfoldable pub refuse_full_dir : EntryPlan → EntryPlan
unfolding needs_consent
refuse_full_dir p =
    if needs_consent p && p.non_empty_dir
    then (record p {
      disp = refused;
      skip_reason = "a folder with files is in the way (fsend never deletes a folder's contents)";
    })
    else p

unfoldable pub apply_replace : List EntryPlan → List EntryPlan
apply_replace [] = []
apply_replace (p ∷ ps) = refuse_full_dir p ∷ apply_replace ps

-- wire.DecisionAction
pub data Action : Type 0 where
  send : Action
  skip : Action
  resumed : Action

pub record Decision : Type 0 where
  pub index : ℕ
  pub action : Action
  pub resume_offset : ℕ
  pub prefix_root : List ℕ
  pub kept : Bool

abbrev pub decision : ℕ → Action → Bool → Decision
decision index action kept = record {
  index = index;
  action = action;
  resume_offset = 0;
  prefix_root = [];
  kept = kept;
}

-- What the receiver's user is told.
pub data Notice : Type 0 where
  unchanged : ℕ → Notice  -- OnSkip
  kept_here : String → Notice  -- OnConflictKept
  not_saved : String → String → Notice  -- OnEntrySkipped
  silent : Notice

abbrev unless_dir : EntryType → Notice → Notice
unless_dir t n = if is_dir t then silent else n

-- The switch of planToDecision.
unfoldable pub decide : (List ℕ → List ℕ) → Bool → EntryPlan → Disposition → Decision × Notice
decide derive approve p fresh = (decision p.entry.index send false, silent)
decide derive approve p identical =
    (decision p.entry.index skip false, unless_dir p.entry.typ (unchanged p.entry.index))
decide derive approve p resume = (
  record {
    index = p.entry.index;
    action = resumed;
    resume_offset = p.resume_offset;
    prefix_root = fold_root derive p.prefix_blocks p.resume_offset;
    kept = false;
  },
  silent,
)
decide derive approve p refused = (decision p.entry.index skip true, not_saved p.rel p.skip_reason)
decide derive approve p verify = (decision p.entry.index send false, silent)
decide derive approve p differs = if approve then (decision p.entry.index send false, silent) else (
  decision p.entry.index skip true,
  unless_dir p.entry.typ (kept_here p.entry.relative_path),
)
decide derive approve p conflict =
    if approve then (decision p.entry.index send false, silent) else (
      decision p.entry.index skip true,
      unless_dir p.entry.typ (kept_here p.entry.relative_path),
    )

-- planToDecision
unfoldable pub plan_to_decision : (List ℕ → List ℕ) → Bool → EntryPlan → Decision × Notice
plan_to_decision derive approve p =
    if p.blocked_ancestor
    then (
      decision p.entry.index skip true,
      unless_dir p.entry.typ (kept_here p.entry.relative_path),
    )
    else decide derive approve p p.disp

unfoldable pub decisions : (List ℕ → List ℕ) → Bool → List EntryPlan → List Decision
decisions derive approve [] = []
decisions derive approve (p ∷ ps) =
    (plan_to_decision derive approve p).0 ∷ decisions derive approve ps
