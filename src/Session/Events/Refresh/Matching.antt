-- ===== src/Session/Events/Refresh/Matching.antt =====
-- connection-session.ts: the operations that match services anew, and the snapshot loop.
use herdr_connect.Common.{
  ℕ, ◌==◌, refl, Bool, true, false, ◌&&◌, ◌||◌, not, ltb, Option, none, some, is_some, List, [],
  ◌∷◌, arith,
}
use herdr_connect.Errors.{connect_failed, Thrown}
use herdr_connect.Discovery.{has_unknown_candidate, select_candidates, DiscoveredService}
use herdr_connect.Session.{Session, ConnectionState, Env, is_connected}
use herdr_connect.Session.Loop.{stop_snapshot_loop, set_state}
use herdr_connect.Session.Probe.{
  next_candidate, connect, candidates_for, failure_from, or_connect_failed,
}
use herdr_connect.Session.Events.{
  or_services, is_empty_list, stage_code, connect_any, rematch, pinned_key, is_among, give_up,
  DiscoveryStage, begin, refresh_snapshot, handle_services, handle_discovery_failure,
  discovery_timeout,
}
use herdr_connect.Session.Events.Refresh.{
  IsConsistent, stop_snapshot_loop-IsConsistent, set_state-IsConsistent, tick-IsConsistent, if_lem,
}

pub next_candidate-IsConsistent :
    (id : ℕ) (cs : List DiscoveredService) (attempts wrong : ℕ) (last : Option Thrown) (s : Session)
    → IsConsistent s
    → IsConsistent (next_candidate id cs attempts wrong last s)
unfolding next_candidate
next_candidate-IsConsistent id [] attempts wrong last s h =
    if_lem ((wrong == attempts) && ltb 0 attempts) _ _
      (set_state-IsConsistent ConnectionState.not_found _ refl (record { fresh = h.fresh }))
      (set_state-IsConsistent (failure_from (or_connect_failed last) connect_failed) _ refl
        (record { fresh = h.fresh }))
next_candidate-IsConsistent id (c ∷ cs) attempts wrong last s h = record {
  fresh = ground (arith, h.fresh);
}

pub connect-IsConsistent :
    (cs : List DiscoveredService) (s : Session) → IsConsistent s → IsConsistent (connect cs s)
unfolding connect
connect-IsConsistent cs s h =
    next_candidate-IsConsistent s.next_run cs 0 0 none _ (record { fresh = h.fresh })

pub connect_any-IsConsistent :
    (cs : List DiscoveredService) (s : Session) → IsConsistent s → IsConsistent (connect_any cs s)
connect_any-IsConsistent [] s h = h
connect_any-IsConsistent (c ∷ cs) s h = connect-IsConsistent (c ∷ cs) s h

pub restart-IsConsistent :
    (cs : List DiscoveredService) (timer : Bool) (s : Session)
    → IsConsistent (
        connect_any cs (record (set_state ConnectionState.discovering (stop_snapshot_loop s)) {
          discovery_timer = timer;
        }))
restart-IsConsistent cs timer s = connect_any-IsConsistent cs _ (record {
  fresh =
      (set_state-IsConsistent ConnectionState.discovering (stop_snapshot_loop s) refl
        (stop_snapshot_loop-IsConsistent s)).fresh;
})

pub begin-IsConsistent :
    (initial : Option (List DiscoveredService)) (foreground : Bool) (s : Session)
    → IsConsistent s
    → IsConsistent (begin initial foreground s)
unfolding begin
begin-IsConsistent initial foreground s h =
    let reset = record s {
      services = or_services initial s.services;
      foreground = foreground;
      live_run = none;
      connect_in_flight_key = none;
      in_flight_candidate_keys = none;
      selected_key = none;
      discovery_timer = false;
    } in
    let waiting = record (set_state ConnectionState.discovering (stop_snapshot_loop reset)) {
      discovery_timer = true;
    } in
    if_lem s.stopped s _ h
      (restart-IsConsistent (candidates_for waiting.services waiting) true reset)

pub refresh_snapshot-IsConsistent :
    (s : Session) → IsConsistent s → IsConsistent (refresh_snapshot s)
unfolding refresh_snapshot
refresh_snapshot-IsConsistent s h = if_lem s.stopped _ _ h (
    if_lem (is_connected s.state) _ _ (tick-IsConsistent s h)
      (begin-IsConsistent none s.foreground s h))

pub rematch-IsConsistent :
    (busy : Bool) (cs : List DiscoveredService) (s : Session)
    → IsConsistent s
    → IsConsistent (rematch busy cs s)
rematch-IsConsistent busy [] s h =
    if_lem busy _ _ (set_state-IsConsistent ConnectionState.not_found _ refl h) h
rematch-IsConsistent busy (c ∷ cs) s h = connect-IsConsistent (c ∷ cs) s h

pub handle_services-IsConsistent :
    (services : List DiscoveredService) (s : Session)
    → IsConsistent s
    → IsConsistent (handle_services services s)
unfolding handle_services
handle_services-IsConsistent services s h =
    let told = record s { services = services } in
    let candidates = candidates_for services told in
    let freed = record told {
      live_run = none;
      selected_key = none;
      connect_in_flight_key = none;
    } in
    let same : IsConsistent told = record { fresh = h.fresh } in
    let restarted = connect-IsConsistent candidates freed (record { fresh = h.fresh }) in
    let rematched =
      rematch-IsConsistent (is_some s.selected_key || is_some s.connect_in_flight_key) candidates
        (record freed { in_flight_candidate_keys = none }) (record { fresh = h.fresh }) in
    if_lem s.stopped s _ h (
      if_lem (is_connected s.state && pinned_key s.selected_key s) told _ same (
        if_lem (is_among s.selected_key services) told _ same (
          if_lem (pinned_key s.connect_in_flight_key s) _ _
            (if_lem (has_unknown_candidate candidates s.in_flight_candidate_keys) _ told restarted
              same)
            (if_lem (is_among s.connect_in_flight_key services) told _ same rematched))))

pub handle_discovery_failure-IsConsistent :
    (stage : DiscoveryStage) (code : ℕ) (s : Session)
    → IsConsistent s
    → IsConsistent (handle_discovery_failure stage code s)
unfolding handle_discovery_failure
handle_discovery_failure-IsConsistent stage code s h = if_lem s.stopped _ _ h (
    if_lem (is_connected s.state && pinned_key s.selected_key s) _ _ h (
      if_lem (pinned_key s.connect_in_flight_key s) _ _ h (
        set_state-IsConsistent (ConnectionState.failed (stage_code stage) (some code)) _ refl
          (record { fresh = h.fresh }))))

pub give_up-IsConsistent :
    (fallback : Option DiscoveredService) (s : Session)
    → IsConsistent s
    → IsConsistent (give_up fallback s)
give_up-IsConsistent none s h = set_state-IsConsistent ConnectionState.not_found s refl h
give_up-IsConsistent (some c) s h = connect-IsConsistent (c ∷ []) s h

pub discovery_timeout-IsConsistent :
    (env : Env) (s : Session) → IsConsistent s → IsConsistent (discovery_timeout env s)
unfolding discovery_timeout
discovery_timeout-IsConsistent env s h =
    let fired = record s { discovery_timer = false } in
    let same : IsConsistent fired = record { fresh = h.fresh } in
    let known = select_candidates s.services s.credentials.fingerprint s.associations in
    if_lem (not s.discovery_timer) s _ h (
      if_lem (s.stopped || is_some s.connect_in_flight_key) fired _ same (
        if_lem (is_empty_list known) _ fired (give_up-IsConsistent env.dev_fallback fired same)
          same))
