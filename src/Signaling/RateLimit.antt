-- ===== src/Signaling/RateLimit.antt =====
-- The new-session rate limiter (internal/server/server.go: rateBucket, allowNewSession).
pub mod Window
use fsend.Base.{ℕ, ◌+◌, ◌*◌, Bool, true, false, Option, none, some}
use fsend.Base.{List, [], ◌∷◌, ◌++◌, if◌then◌else◌, leb, ltb, length}
use fsend.Base.Maps.{String, same, lookup, insert}
use fsend.Signaling.Session.{Server}

-- `t.After(now.Add(-window))`, the stamps that stay.
unfoldable pub keep_after : ℕ → ℕ → List ℕ → List ℕ
keep_after now window [] = []
keep_after now window (t ∷ ts) =
    let rest = keep_after now window ts in if ltb now (t + window) then t ∷ rest else rest

-- (*rateBucket).allow: the new stamps, and whether the event passes.
unfoldable pub allow : List ℕ → ℕ → ℕ → ℕ → List ℕ × Bool
allow stamps now limit window =
    let kept = keep_after now window stamps in
    if leb limit (length kept) then (kept, false) else (kept ++ (now ∷ []), true)

-- time.Minute
abbrev pub minute : ℕ
minute = 60000000000

abbrev pub v6_site_factor : ℕ
v6_site_factor = 4

abbrev or_empty : Option (List ℕ) → List ℕ
or_empty none = []
or_empty (some stamps) = stamps

-- `s.bucket(key).allow(...)`: a missing bucket is made.
unfoldable pub bucket_allow :
    List (String × List ℕ) → String → ℕ → ℕ → List (String × List ℕ) × Bool
bucket_allow buckets key now limit =
    let (stamps, pass) = allow (or_empty (lookup key buckets)) now limit minute in
    (insert key stamps buckets, pass)

-- The two identities of a client IP: rateLimitKey, and v6SiteKey ("" for none). They rest on the
-- net package's parser.
pub record Addresses : Type 0 where
  pub rate_limit_key : String → String
  pub v6_site_key : String → String

-- allowNewSession.
unfoldable pub allow_new_session : Addresses → Server → String → ℕ → List (String × List ℕ) × Bool
allow_new_session net s ip now =
    let limit = s.cfg.max_new_sessions_per_min in
    if leb limit 0
    then (s.ip_bucket, true)
    else (let (buckets, pass) = bucket_allow s.ip_bucket (net.rate_limit_key ip) now limit in
        if pass
        then (if same (net.v6_site_key ip) ""
            then (buckets, true)
            else bucket_allow buckets (net.v6_site_key ip) now (limit * v6_site_factor))
        else (buckets, false))
