-- ===== src/Relay/Reply/Cap.antt =====
-- The cap on replies to sources that are not verified (internal/relay/server.go: allowReply).
use fsend.Base.{ℕ, ◌+◌, ◌-◌, ◌≤◌, ◌<◌, arith}
use fsend.Base.{List, [], ◌∷◌, All, if◌then◌else◌, ◌==◌}
use fsend.Relay.Server.{Server}
use fsend.Relay.Reply.{Outside, second, allow_reply, open_window, stun_prefix, bump}

-- A request for a reply: when, and to which IP.
abbrev pub Request : Type 0
Request = ℕ × List ℕ

-- How many requests of a sequence are granted.
pub granted : Outside → Server → List Request → ℕ
granted out s [] = 0
granted out s ((now, ip) ∷ rs) =
    let (s', pass) = allow_reply out s now ip in (if pass then 1 else 0) + granted out s' rs

-- How many requests from the prefixes of one slot are granted.
pub granted_to : Outside → ℕ → Server → List Request → ℕ
granted_to out k s [] = 0
granted_to out k s ((now, ip) ∷ rs) =
    let (s', pass) = allow_reply out s now ip in
    (if pass then (if out.prefix_slot (stun_prefix ip) == k then 1 else 0) else 0)
    + granted_to out k s' rs

-- The request comes in the second that starts at `start`.
abbrev pub IsIn : ℕ → Request → Type 0
IsIn start (now, ip) = (start ≤ now) × (now < start + second)

-- In one window.
window-granted :
    (out : Outside) (s : Server) (rs : List Request) (start : ℕ)
    → All (IsIn start) rs
    → start + second ≤ s.stun_window + second
    → granted out s rs ≤ 4000 - s.stun_count
unfolding granted allow_reply open_window
window-granted out s [] start i w = omega arith
window-granted out s ((now, ip) ∷ rs) start i w =
    ground (arith, window-granted out (allow_reply out s now ip).0 rs start i.1)

-- In one window and at most one more.
windows-granted :
    (out : Outside) (s : Server) (rs : List Request) (start : ℕ)
    → All (IsIn start) rs
    → granted out s rs ≤ (4000 - s.stun_count) + 4000
unfolding granted allow_reply open_window
windows-granted out s [] start i = omega arith
windows-granted out s ((now, ip) ∷ rs) start i = ground (
  arith,
  windows-granted out (allow_reply out s now ip).0 rs start i.1,
  window-granted out (allow_reply out s now ip).0 rs start i.1,
)

window-granted_to :
    (out : Outside) (k : ℕ) (s : Server) (rs : List Request) (start : ℕ)
    → All (IsIn start) rs
    → start + second ≤ s.stun_window + second
    → granted_to out k s rs ≤ 100 - s.stun_per_slot k
unfolding granted_to allow_reply open_window bump
window-granted_to out k s [] start i w = omega arith
window-granted_to out k s ((now, ip) ∷ rs) start i w =
    ground (arith, window-granted_to out k (allow_reply out s now ip).0 rs start i.1)

windows-granted_to :
    (out : Outside) (k : ℕ) (s : Server) (rs : List Request) (start : ℕ)
    → All (IsIn start) rs
    → granted_to out k s rs ≤ (100 - s.stun_per_slot k) + 100
unfolding granted_to allow_reply open_window bump
windows-granted_to out k s [] start i = omega arith
windows-granted_to out k s ((now, ip) ∷ rs) start i = ground (
  arith,
  windows-granted_to out k (allow_reply out s now ip).0 rs start i.1,
  window-granted_to out k (allow_reply out s now ip).0 rs start i.1,
)

-- In any second, however the requests in it are spread and wherever its start lies in a window, at
-- most 8000 requests are granted, and at most 200 of them to the prefixes of any one slot.
pub second-granted :
    (out : Outside) (k : ℕ) (s : Server) (rs : List Request) (start : ℕ)
    → All (IsIn start) rs
    → (granted out s rs ≤ 8000) × (granted_to out k s rs ≤ 200)
second-granted out k s rs start i = (
  omega (arith, windows-granted out s rs start i),
  omega (arith, windows-granted_to out k s rs start i),
)
