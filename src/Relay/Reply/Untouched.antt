-- ===== src/Relay/Reply/Untouched.antt =====
-- A reply leaves the allocations and the caps as they are (internal/relay/server.go: allowReply,
-- challenge).
use fsend.Base.{ℕ, ◌+◌, ◌≡◌, refl, Bool, true, false, List, if◌then◌else◌, leb}
use fsend.Relay.Framing.{Token, PeerId}
use fsend.Relay.Server.{Server}
use fsend.Relay.Reply.{Outside, second, allow_reply, open_window, challenge, handle_stun}

pub record IsUntouched (s s' : Server) : Type 0 where
  pub allocs : s'.allocs ≡ s.allocs
  pub cap : s'.max_bytes_per_session ≡ s.max_bytes_per_session
  pub budget : s'.budget ≡ s.budget

IsUntouched-if :
    {X : Type 0} (s : Server) (b : Bool) (x y : Server × X)
    → IsUntouched s x.0
    → IsUntouched s y.0
    → IsUntouched s (if b then x else y).0
IsUntouched-if s true x y h k = h
IsUntouched-if s false x y h k = k

IsUntouched-here : (s : Server) → IsUntouched s s
IsUntouched-here s = record { allocs = refl; cap = refl; budget = refl }

IsUntouched-counts :
    (s s' : Server) (n : ℕ) (m : ℕ → ℕ)
    → IsUntouched s s'
    → IsUntouched s (record s' { stun_count = n; stun_per_slot = m })
IsUntouched-counts s s' n m u = record { allocs = u.allocs; cap = u.cap; budget = u.budget }

open_window-IsUntouched : (s : Server) (now : ℕ) → IsUntouched s (open_window s now)
unfolding open_window
open_window-IsUntouched s now = by_test (leb (s.stun_window + second) now)
  where
    by_test :
        (b : Bool)
        → IsUntouched s (
            if b
            then (record s { stun_window = now; stun_count = 0; stun_per_slot = λ k. 0 })
            else s)
    by_test true = record { allocs = refl; cap = refl; budget = refl }
    by_test false = IsUntouched-here s

pub allow_reply-IsUntouched :
    (out : Outside) (s : Server) (now : ℕ) (ip : List ℕ)
    → IsUntouched s (allow_reply out s now ip).0
unfolding allow_reply
allow_reply-IsUntouched out s now ip =
    let w = open_window-IsUntouched s now in search (IsUntouched-if, IsUntouched-counts, w) depth 5

pub challenge-IsUntouched :
    (out : Outside) (s : Server) (tok : Token) (id : PeerId) (ip : List ℕ) (port now : ℕ)
    → IsUntouched s (challenge out s tok id ip port now).0
unfolding challenge
challenge-IsUntouched out s tok id ip port now =
    let a = allow_reply-IsUntouched out s now ip in search (IsUntouched-if, a) depth 5

pub handle_stun-IsUntouched :
    (out : Outside) (s : Server) (d ip : List ℕ) (port now : ℕ)
    → IsUntouched s (handle_stun out s d ip port now).0
unfolding handle_stun
handle_stun-IsUntouched out s d ip port now =
    let a = allow_reply-IsUntouched out s now ip in
    let h = IsUntouched-here s in search (IsUntouched-if, a, h) depth 5
