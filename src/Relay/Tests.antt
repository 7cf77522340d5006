-- ===== src/Relay/Tests.antt =====
-- Runs of the relay of internal/relay, and the theorems at concrete inputs.
use fsend.Base.{
  ℕ, ◌≤◌, ◌≡◌, ◌↔◌, inl, refl, arith, false, none, some, List, [], ◌∷◌, ◌++◌, replicate,
}
use fsend.Relay.Framing.{Token, frame, frame_control, parse_control}
use fsend.Base.Bytes.{bytes_eq}
use fsend.Relay.Framing.RoundTrip.{IsSized, parse_control_iff}
use fsend.Relay.Budget.{charge, exhausted, roll}
use fsend.Relay.Budget.Cap.{bytes_on, passed, passed-limit}
use fsend.Relay.Server.{udp, ws, Allocation, Server, register, put, allocate}
use fsend.Relay.Server.Registration.{Outcome, register-Outcome}
use fsend.Relay.Reply.{Outside, cookie, cookie_valid}
use fsend.Relay.Reply.Cap.{granted, granted_to, second-granted}
use fsend.Relay.Reply.CookieMessage.{cookie_message_inj}
use fsend.Relay.Handle
use fsend.Relay.Handle.{handle}
use fsend.Relay.Handle.Reaction.{Reaction, handle-Reaction}
use fsend.Relay.Handle.Learning.{Origin, handle-Origin}
use fsend.Relay.Machine.{datagram, allocation, new_server}
use fsend.Relay.Machine.SessionCap.{carried_in}
use fsend.Relay.Machine.SessionCap.Runs.{run-cap}

-- A key under which every message has the same code.
abbrev outside : Outside
outside = record {
  mac = λ m. replicate 32 7;
  prefix_slot = λ p. 0;
  is_stun = λ d. false;
  stun_answer = λ d ip port. none;
}

abbrev tok : Token
tok = replicate 16 5

abbrev ip_a : List ℕ
ip_a = replicate 10 0 ++ (255 ∷ 255 ∷ 192 ∷ 0 ∷ 2 ∷ 1 ∷ [])

abbrev id_a : List ℕ
id_a = replicate 8 1

abbrev now : ℕ
now = 90000000000

abbrev opened : Server
opened = (allocate (new_server 100 0 false) (some tok) now).0

abbrev register_a : List ℕ
register_a = frame_control tok 3 id_a (some (replicate 16 7))

abbrev with_a : Server
with_a = (handle outside opened register_a (udp ip_a 4000) now).0

parse_control_iff_example :
    (parse_control register_a
      ≡ some (record { token = tok; typ = 3; id = id_a; cookie = replicate 16 7 }))
    ↔ (IsSized (record { token = tok; typ = 3; id = id_a; cookie = replicate 16 7 })
        × (register_a ≡ frame_control tok 3 id_a (some (replicate 16 7))))
parse_control_iff_example =
    parse_control_iff register_a
      (record { token = tok; typ = 3; id = id_a; cookie = replicate 16 7 })

passed-limit_example :
    bytes_on 0
      (passed (record { limit = 100; day = 0; used = 0 }) ((5, 60) ∷ (6, 30) ∷ (7, 20) ∷ []))
    ≤ 100
passed-limit_example =
    passed-limit (record { limit = 100; day = 0; used = 0 }) 0 ((5, 60) ∷ (6, 30) ∷ (7, 20) ∷ [])
      (λ e. absurd (omega arith)) (omega arith, (omega arith, (omega arith, tt))) (omega arith)

passed_run :
    passed (record { limit = 100; day = 0; used = 0 }) ((5, 60) ∷ (6, 30) ∷ (7, 20) ∷ [])
    ≡ (5, 60) ∷ (6, 30) ∷ []
unfolding passed charge roll
passed_run = refl

abbrev one_peer : Allocation
one_peer = record {
  first = some (record { id = id_a; ep = udp ip_a 4000 });
  second = none;
  bytes = 0;
  last_activity = 0;
  last_nudge = 0;
  data_counted = false;
}

register-Outcome_example :
    Outcome one_peer
      (record { id = replicate 8 2; ep = ws 1 })
      (register one_peer (replicate 8 2) (ws 1))
register-Outcome_example = register-Outcome one_peer (replicate 8 2) (ws 1)

handle-Reaction_example :
    Reaction with_a
      (frame tok (1 ∷ 2 ∷ []))
      (udp ip_a 4000)
      (handle outside with_a (frame tok (1 ∷ 2 ∷ [])) (udp ip_a 4000) now).1
unfolding frame
handle-Reaction_example =
    handle-Reaction outside with_a 1 (tok ++ (1 ∷ 2 ∷ [])) (udp ip_a 4000) now (inl refl)

a_is_registered :
    with_a.allocs tok
    ≡ some (record {
      first = some (record { id = id_a; ep = udp ip_a 4000 });
      second = none;
      bytes = 0;
      last_activity = now;
      last_nudge = 0;
      data_counted = false;
    })
unfolding handle frame_control allocate new_server exhausted Handle.handle_control parse_control
    Handle.control_for put bytes_eq Handle.control_from cookie_valid cookie Handle.registered
    register
a_is_registered = refl

handle-Origin_example :
    Origin outside opened register_a
      (udp ip_a 4000)
      now
      tok
      (record { id = id_a; ep = udp ip_a 4000 })
handle-Origin_example =
    handle-Origin outside opened register_a (udp ip_a 4000) now tok
      (record {
        first = some (record { id = id_a; ep = udp ip_a 4000 });
        second = none;
        bytes = 0;
        last_activity = now;
        last_nudge = 0;
        data_counted = false;
      })
      (record { id = id_a; ep = udp ip_a 4000 }) a_is_registered (inl refl)

run-cap_example :
    carried_in outside tok
      (new_server 100 0 false)
      (allocation (some tok) now ∷ datagram register_a ip_a 4000 now ∷ [])
    ≤ 100
unfolding bytes_eq
run-cap_example =
    run-cap tok outside 100 0 false
      (allocation (some tok) now ∷ datagram register_a ip_a 4000 now ∷ []) (omega arith)
      (omega arith) (tt, (tt, tt))

second-granted_example :
    (granted outside opened ((now, ip_a) ∷ (now, ip_a) ∷ []) ≤ 8000)
    × (granted_to outside 0 opened ((now, ip_a) ∷ (now, ip_a) ∷ []) ≤ 200)
second-granted_example =
    second-granted outside 0 opened ((now, ip_a) ∷ (now, ip_a) ∷ []) now
      ((omega arith, omega arith), ((omega arith, omega arith), tt))

cookie_message_inj_example :
    (tok ≡ tok) × (ip_a ≡ ip_a) × (◌≡◌ {A = ℕ} 4000 4000) × (◌≡◌ {A = ℕ} 3 3)
cookie_message_inj_example =
    cookie_message_inj tok tok ip_a ip_a 4000 4000 3 3 refl refl (omega arith) (omega arith)
      (omega arith) (omega arith) refl
