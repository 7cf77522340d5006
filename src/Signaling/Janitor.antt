-- ===== src/Signaling/Janitor.antt =====
-- The janitor's sweep (internal/server/server.go: evict) and the restart snapshot
-- (internal/server/state.go).
use fsend.Base.{ℕ, ◌+◌, ◌-◌, Bool, true, false, ◌||◌, not, Option, none, some}
use fsend.Base.{List, [], ◌∷◌, if◌then◌else◌, ltb}
use fsend.Base.Maps.{String, same, lookup, insert, erase}
use fsend.Signaling.Session.{
  IceCreds, State, waiting, paired, open_gate, Session, Server, find, drop_id,
}
use fsend.Signaling.Session.{release_ip}
use fsend.Signaling.RateLimit.{keep_after, minute}
use fsend.Signaling.Pairing.{is_slot, is_taken, is_waiting}

-- `now.Sub(t) > ttl`
abbrev pub older : ℕ → ℕ → ℕ → Bool
older now t ttl = ltb ttl (now - t)

abbrev overdue : State → Server → ℕ → Session → Bool
overdue waiting s now t =
    older now t.created_at s.cfg.unpaired_ttl || older now t.last_seen s.cfg.abandoned_ttl
overdue paired s now t = older now t.paired_at s.cfg.paired_ttl

unfoldable pub is_overdue : Server → ℕ → Session → Bool
is_overdue s now t = overdue t.state s now t

abbrev pub release_sides : State → Session → (String → ℕ) → String → ℕ
release_sides waiting t counts = release_ip t.sender_rate_key counts
release_sides paired t counts = release_ip t.receiver_rate_key (release_ip t.sender_rate_key counts)

-- What evict does to one session that is overdue.
unfoldable pub evict_one : Session → Server → Server
evict_one t s = record s {
  by_id = drop_id t.id s.by_id;
  by_slot = erase t.slot s.by_slot;
  ip_counts = release_sides t.state t s.ip_counts;
}

-- The loop over the sessions; `todo` is what the iteration has not reached.
unfoldable pub evict_sessions : ℕ → List Session → Server → Server
evict_sessions now [] s = s
evict_sessions now (t ∷ todo) s =
    evict_sessions now todo (if is_overdue s now t then evict_one t s else s)

-- `now.After(exp)`: the tombstone goes.
unfoldable pub sweep_consumed : ℕ → List (String × ℕ) → List (String × ℕ)
sweep_consumed now [] = []
sweep_consumed now ((slot, exp) ∷ m) =
    let rest = sweep_consumed now m in if ltb exp now then rest else (slot, exp) ∷ rest

abbrev keep_bucket : String → List ℕ → List (String × List ℕ) → List (String × List ℕ)
keep_bucket key [] m = m
keep_bucket key (t ∷ ts) m = (key, t ∷ ts) ∷ m

unfoldable pub sweep_buckets : ℕ → List (String × List ℕ) → List (String × List ℕ)
sweep_buckets now [] = []
sweep_buckets now ((key, stamps) ∷ m) =
    keep_bucket key (keep_after now minute stamps) (sweep_buckets now m)

unfoldable pub evict : Server → ℕ → Server
evict s now =
    let s' = evict_sessions now s.by_id s in
    record s' {
      consumed = sweep_consumed now s'.consumed;
      ip_bucket = sweep_buckets now s'.ip_bucket;
    }

-- savedSession
pub record Saved : Type 0 where
  pub id : String
  pub slot : String
  pub sender_token : String
  pub sender_ice : IceCreds
  pub created_at : ℕ

-- The sessions that SaveState writes.
unfoldable pub save_state : List Session → List Saved
save_state [] = []
save_state (t ∷ ts) =
    let rest = save_state ts in
    if is_waiting t.state
    then (record {
      id = t.id;
      slot = t.slot;
      sender_token = t.sender_token;
      sender_ice = t.sender_ice;
      created_at = t.created_at;
    }
        ∷ rest)
    else rest

unfoldable pub restored : Saved → ℕ → Session
restored v now = record {
  id = v.id;
  slot = v.slot;
  sender_addr = "";
  sender_rate_key = "";
  sender_ice = v.sender_ice;
  sender_token = v.sender_token;
  receiver_addr = "";
  receiver_rate_key = "";
  receiver_ice = record { ufrag = ""; pwd = "" };
  receiver_token = "";
  state = waiting;
  created_at = v.created_at;
  paired_at = 0;
  last_seen = now;
  sender_candidates = [];
  receiver_candidates = [];
  relay_token = none;
  waiters = open_gate;
}

abbrev pub is_found : Option Session → Bool
is_found none = false
is_found (some t) = true

-- The saved sessions that LoadState drops.
unfoldable pub is_dropped : Server → Saved → ℕ → Bool
is_dropped s v now =
    older now v.created_at s.cfg.unpaired_ttl
    || (not (is_slot v.slot)
        || (same v.id ""
            || (same v.sender_token ""
                || (is_taken (lookup v.slot s.by_slot) || is_found (find v.id s.by_id)))))

unfoldable pub restore_one : Server → Saved → ℕ → Server
restore_one s v now = record s {
  by_slot = insert v.slot v.id s.by_slot;
  by_id = restored v now ∷ drop_id v.id s.by_id;
}

-- LoadState of a snapshot that could be read, with how many sessions were restored.
unfoldable pub load_state : List Saved → ℕ → ℕ → Server → Server × ℕ
load_state [] now n s = (s, n)
load_state (v ∷ vs) now n s =
    let dropped = is_dropped s v now in
    load_state vs now (if dropped then n else n + 1) (if dropped then s else restore_one s v now)
