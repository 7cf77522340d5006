-- ===== src/Signaling/Tests.antt =====
-- Runs of the signaling server of internal/server, and the theorems at concrete inputs.
use fsend.Base.{
  All, ℕ, ◌≤◌, ◌≡◌, ◌≢◌, ◌↔◌, ◌∙◌, refl, sym, subst, arith, true, none, some, some_inj,
}
use fsend.Base.{[], ◌∷◌, length}
use fsend.Base.Maps.{String, same, lookup, insert, erase}
use fsend.Signaling.Session.{Session, Server, Config, find, store, drop_id}
use fsend.Signaling.Session.{find_slot, retain_ip, side_for_token, at_capacity}
use fsend.Signaling.Session.{Side, sender, receiver}
use fsend.Signaling.Tables.{held}
use fsend.Signaling.RateLimit.{Addresses, allow_new_session, bucket_allow, allow, keep_after}
use fsend.Signaling.RateLimit.Window.{decide, decide-window}
use fsend.Signaling.Pairing.{Reply, failed, joined, relay_slot, Client, Draw, create_session}
use fsend.Signaling.Pairing.{
  join_session, join_found, admit, pair_up, store_and_retain, mint, new_session,
}
use fsend.Signaling.Pairing.{add_session, client_allowed, newer, is_slot, is_consumed}
use fsend.Signaling.Endpoints.{authorized, pull_candidates, pull_from, allocate_relay, Allocated}
use fsend.Signaling.Step.{create, delete, pull, apply, Run, here, next, new_server}
use fsend.Signaling.Step.Invariant.{Inv}
use fsend.Signaling.Step.Counts.{new_server-Inv, Run-counts}
use fsend.Signaling.Access.{side_for_token_iff, IsRefused, apply-IsRefused}
use fsend.Signaling.RelaySlot.{allocate_relay_stable}
use fsend.Signaling.Step.JoinedOnce.{Later, just_now, then_call, join_session_once}
use fsend.Signaling.Janitor.{Saved, load_state}
use fsend.Signaling.Restart.{IsServed, load_state-Inv}
use fsend.Base.{◌+◌}

-- Addresses as they are, with no IPv6 sites.
abbrev plain : Addresses
plain = record { rate_limit_key = λ ip. ip; v6_site_key = λ ip. "" }

abbrev cfg : Config
cfg = record {
  unpaired_ttl = 3600000000000;
  abandoned_ttl = 300000000000;
  paired_ttl = 600000000000;
  max_sessions_per_ip = 2;
  max_new_sessions_per_min = 3;
  min_client_version = none;
}

abbrev alice : Client
alice = record { ip = "192.0.2.1"; protocol = some 3; version = none }

abbrev bob : Client
bob = record { ip = "192.0.2.2"; protocol = some 3; version = none }

abbrev slot : String
slot = "0123456789abcdef0123456789abcdef"

abbrev first_draw : Draw
first_draw = record {
  session_id = "S1";
  role_token = some "TA";
  ice = some (record { ufrag = "ua"; pwd = "pa" });
}

abbrev second_draw : Draw
second_draw = record {
  session_id = "S2";
  role_token = some "TB";
  ice = some (record { ufrag = "ub"; pwd = "pb" });
}

abbrev fresh : Server
fresh = new_server cfg

abbrev waiting_server : Server
waiting_server = (create_session plain fresh alice (some slot) 1000 first_draw).0

abbrev paired_server : Server
paired_server = (join_session plain waiting_server bob slot 2000 second_draw).0

-- What the runs compute with.
abbrev pairing_run : Reply
pairing_run = (join_session plain waiting_server bob slot 2000 second_draw).1

bob_joins :
    pairing_run
    ≡ joined "S1" "192.0.2.1"
        (record { ufrag = "ua"; pwd = "pa" })
        (record { ufrag = "ub"; pwd = "pb" })
        "TB"
unfolding create_session join_session join_found admit pair_up store_and_retain mint new_session
    add_session client_allowed newer is_slot is_consumed find_slot find store drop_id retain_ip
    at_capacity allow_new_session bucket_allow allow keep_after lookup insert erase same new_server
bob_joins = refl

Run-example : Run plain fresh waiting_server
unfolding apply new_server find
Run-example = next (create alice (some slot) 1000 first_draw) here refl

Run-counts_example : waiting_server.ip_counts "192.0.2.1" ≡ held "192.0.2.1" waiting_server.by_id
Run-counts_example = Run-counts plain cfg Run-example "192.0.2.1" (unfold same in refl)

side_for_token_iff_example :
    ((side_for_token (new_session "S1" slot "a" "a" "TA" (record { ufrag = "u"; pwd = "p" }) 5) "TA"
        ≡ some sender)
      ↔ ((◌≢◌ {A = String} "TA" "") × (◌≡◌ {A = String} "TA" "TA")))
    × ((side_for_token
            (new_session "S1" slot "a" "a" "TA" (record { ufrag = "u"; pwd = "p" }) 5)
            "TA"
          ≡ some receiver)
        ↔ ((◌≢◌ {A = String} "TA" "") × (◌≢◌ {A = String} "TA" "TA") × (◌≡◌ {A = String} "" "TA")))
unfolding new_session
side_for_token_iff_example =
    side_for_token_iff (new_session "S1" slot "a" "a" "TA" (record { ufrag = "u"; pwd = "p" }) 5)
      "TA"

-- The session S1 of the server in which alice waits.
abbrev waiting_session : Session
waiting_session =
    new_session "S1" slot "192.0.2.1" "192.0.2.1" "TA" (record { ufrag = "ua"; pwd = "pa" }) 1000

found : find "S1" waiting_server.by_id ≡ some waiting_session
unfolding create_session mint new_session add_session client_allowed newer is_slot is_consumed find
    drop_id retain_ip at_capacity allow_new_session bucket_allow allow keep_after lookup insert
    erase same new_server
found = refl

stranger : side_for_token waiting_session "XX" ≡ none
unfolding side_for_token new_session same
stranger = refl

foreign : (t : Session) → find "S1" waiting_server.by_id ≡ some t → side_for_token t "XX" ≡ none
foreign t e = subst (λ u. side_for_token u "XX" ≡ none) (some_inj (sym found ∙ e)) stranger

apply-IsRefused_example :
    IsRefused waiting_server (apply plain waiting_server (delete "S1" "XX" true 5000))
apply-IsRefused_example = apply-IsRefused plain waiting_server (delete "S1" "XX" true 5000) foreign

decide-window_example :
    length (keep_after 130 100 (decide 2 100 [] [] (10 ∷ 50 ∷ 60 ∷ 120 ∷ 130 ∷ [])).1) ≤ 2
decide-window_example =
    decide-window 2 100 130 (10 ∷ 50 ∷ 60 ∷ 120 ∷ 130 ∷ []) (omega arith) (omega arith)

decide_run : (decide 2 100 [] [] (10 ∷ 50 ∷ 60 ∷ 120 ∷ 130 ∷ [])).1 ≡ 10 ∷ 50 ∷ 120 ∷ []
unfolding decide allow keep_after
decide_run = refl

abbrev paired_session : Session
paired_session =
    pair_up waiting_session "192.0.2.2" "192.0.2.2" "TB" (record { ufrag = "ub"; pwd = "pb" }) 2000

found_paired : find "S1" paired_server.by_id ≡ some paired_session
unfolding create_session join_session join_found admit pair_up store_and_retain mint new_session
    add_session client_allowed newer is_slot is_consumed find_slot find store drop_id retain_ip
    at_capacity allow_new_session bucket_allow allow keep_after lookup insert erase same new_server
found_paired = refl

known : side_for_token paired_session "TB" ≡ some receiver
unfolding side_for_token pair_up new_session same
known = refl

-- After the join the sender asks for its peer's candidates.
abbrev asked_server : Server
asked_server = (apply plain paired_server (pull "S1" "TA" 0)).0

asked_slot : find_slot slot asked_server ≡ some paired_session
unfolding create_session join_session join_found admit pair_up store_and_retain mint new_session
    add_session client_allowed newer is_slot is_consumed find_slot find store drop_id retain_ip
    at_capacity allow_new_session bucket_allow allow keep_after lookup insert erase same new_server
    apply pull_candidates authorized side_for_token pull_from
asked_slot = refl

asked : Later plain "S1" paired_server asked_server
asked = then_call (pull "S1" "TA" 0) just_now tt

join_session_once_example :
    let r = join_session plain asked_server bob slot 3000 second_draw in
    (n : ℕ) × (r.1 ≡ failed n)
    × (r.0.by_id ≡ asked_server.by_id)
    × (r.0.by_slot ≡ asked_server.by_slot)
join_session_once_example =
    join_session_once plain cfg waiting_server asked_server bob bob slot slot 2000 3000 second_draw
      second_draw paired_session Run-example bob_joins asked asked_slot
      (unfold pair_up new_session in refl)

slot_given : (allocate_relay paired_server "S1" "TA" (Allocated.slot "R")).1 ≡ relay_slot "R"
unfolding allocate_relay authorized side_for_token create_session join_session join_found admit
    pair_up store_and_retain mint new_session add_session client_allowed newer is_slot is_consumed
    find_slot find store drop_id retain_ip at_capacity allow_new_session bucket_allow allow
    keep_after lookup insert erase same new_server
slot_given = refl

receiver_known :
    (t : Session) → find "S1" paired_server.by_id ≡ some t → side_for_token t "TB" ≢ none
receiver_known t e z = some_is_not_none (
    sym known ∙ subst (λ u. side_for_token u "TB" ≡ none) (sym (some_inj (sym found_paired ∙ e))) z)
  where
    some_is_not_none : {x : Side} → ¬ (some x ≡ none)
    some_is_not_none e = cc

allocate_relay_stable_example :
    (allocate_relay
      (allocate_relay paired_server "S1" "TA" (Allocated.slot "R")).0
      "S1"
      "TB"
      Allocated.draining).1
    ≡ relay_slot "R"
allocate_relay_stable_example =
    allocate_relay_stable paired_server "S1" "TA" "TB" "R" (Allocated.slot "R") Allocated.draining
      slot_given receiver_known

abbrev saved : Saved
saved = record {
  id = "S1";
  slot = slot;
  sender_token = "TA";
  sender_ice = record { ufrag = "ua"; pwd = "pa" };
  created_at = 1000;
}

load_state-Inv_example :
    Inv (load_state (saved ∷ saved ∷ []) 2000 0 fresh).0
    × All
        (IsServed (load_state (saved ∷ saved ∷ []) 2000 0 fresh).0 2000)
        (load_state (saved ∷ saved ∷ []) 2000 0 fresh).0.by_id
    × ((load_state (saved ∷ saved ∷ []) 2000 0 fresh).1 + length fresh.by_id
        ≡ 0 + length (load_state (saved ∷ saved ∷ []) 2000 0 fresh).0.by_id)
unfolding new_server
load_state-Inv_example = load_state-Inv (saved ∷ saved ∷ []) 2000 0 fresh (new_server-Inv cfg) tt
