-- ===== src/Node/Monitor/Quiet.antt =====
-- SpeedChecker of node/task.go over the life of a controller: what becomes of the traffic record that
-- the dynamic speed limit is read from.
use v2sp.Prelude.{
  if◌then◌else◌, Option-cases, nat_eq, option_or, ℤ, int_eq, is_empty, Map, delete, Text, text_eq,
  ℕ, ◌≡◌, refl, ◌⊎◌, inl, inr, Option, none, some, List, [], ◌∷◌, arith,
}
use v2sp.Panel.{NodeInfo, UserInfo}
use v2sp.Conf.{Options}
use v2sp.Core.{Core}
use v2sp.Task.{done}
use v2sp.Limiter.{Limiter}
use v2sp.Limiter.Registry.{add_limiter}
use v2sp.Limiter.Rules.{update_rule}
use v2sp.Node.Cert.{CertTools}
use v2sp.Node.Controller.{
  Answer, ok, err, Controller, PanelApi, Shared, build_node_tag, new_controller, started,
  start_tasks, start_with,
}
use v2sp.Node.Monitor.{
  World, on_limiter, set_alive, switch_tag, clear_traffic, clear_deleted, delete_phase, add_phase,
  apply_users, apply_limits, commit_users, users_round, users_changed, change_intervals,
  install_node, node_changed, node_info_monitor, report_user_traffic_task, speed_checker,
  check_speeds,
}

-- No user has an entry in the traffic record.
abbrev pub IsQuiet : Controller → Type 0
IsQuiet c = option_or c.traffic [] ≡ []

clear_traffic-IsQuiet :
    (us : List UserInfo) (t : Option (Map Text ℤ))
    → option_or t [] ≡ []
    → option_or (clear_traffic us t) [] ≡ []
unfolding clear_traffic delete
clear_traffic-IsQuiet [] t h = h
clear_traffic-IsQuiet (u ∷ us) none h = clear_traffic-IsQuiet us none h
clear_traffic-IsQuiet (u ∷ us) (some m) h =
    clear_traffic-IsQuiet us (some (delete u.uuid m)) (rw h refl)

start_tasks-IsQuiet :
    (node : NodeInfo) (c c' : Controller) → start_tasks node c ≡ done c' → IsQuiet c → IsQuiet c'
unfolding start_tasks
start_tasks-IsQuiet node c c' e h = ground arith

new-IsQuiet :
    (options : Options) (tag : Text) (p : ℕ) (users : List UserInfo) (alive : Map ℤ ℤ)
    (node : NodeInfo)
    → IsQuiet (new_controller options tag p users alive node)
unfolding new_controller
new-IsQuiet options tag p users alive node = refl

Answer-cases : {A : Type 0} (a : Answer A) → ((e : Text) × (a ≡ err e)) ⊎ ((x : A) × (a ≡ ok x))
Answer-cases (err e) = inl (e, refl)
Answer-cases (ok x) = inr (x, refl)

module _ {C P Regexp Bucket : Type 0} where
  abbrev with_api : P → World C P Regexp Bucket → World C P Regexp Bucket
  with_api api w = record w { s = record w.s { api = api } }

  speed_checker_quiet :
      (now : ℤ) (w : World C P Regexp Bucket) → IsQuiet w.c → speed_checker now w ≡ done (w, none)
  unfolding speed_checker check_speeds
  speed_checker_quiet now w h = rw h refl

  set_alive-c :
      (alive : Option (Map ℤ ℤ)) (w : World C P Regexp Bucket) → (set_alive alive w).c ≡ w.c
  unfolding set_alive on_limiter
  set_alive-c none w = refl
  set_alive-c (some a) w = refl

  on_limiter-c :
      (f : Limiter Regexp Bucket → Limiter Regexp Bucket) (w : World C P Regexp Bucket)
      → (on_limiter f w).c ≡ w.c
  unfolding on_limiter
  on_limiter-c f w = refl

  switch_tag-traffic :
      (panel : PanelApi P) (node : NodeInfo) (alive : Option (Map ℤ ℤ))
      (w : World C P Regexp Bucket)
      → (switch_tag panel node alive w).c.traffic ≡ w.c.traffic
  unfolding switch_tag
  switch_tag-traffic panel node alive w = ground arith

  apply_users-IsQuiet :
      (added deleted : List UserInfo) (w : World C P Regexp Bucket)
      → IsQuiet w.c
      → IsQuiet (apply_users added deleted w).c
  unfolding apply_users on_limiter clear_deleted
  apply_users-IsQuiet added deleted w h =
      ground (arith, clear_traffic-IsQuiet deleted w.c.traffic h)

  apply_limits-c :
      (updated : List UserInfo) (w : World C P Regexp Bucket) → (apply_limits updated w).c ≡ w.c
  unfolding apply_limits on_limiter
  apply_limits-c updated w = ground arith

  module _ (core : Core C) where
    same_c :
        (us : List UserInfo) (w : World C P Regexp Bucket)
        → ((delete_phase core us w).0.c ≡ w.c) × ((add_phase core us w).0.c ≡ w.c)
    unfolding delete_phase add_phase
    same_c us w = ground arith

    commit_users-IsQuiet :
        (new deleted added updated : List UserInfo) (w : World C P Regexp Bucket)
        → IsQuiet w.c
        → IsQuiet (commit_users new deleted added updated w).c
    unfolding commit_users
    commit_users-IsQuiet new deleted added updated w h =
        rw (apply_limits-c updated (apply_users added deleted w))
          (apply_users-IsQuiet added deleted w h)

    users_round-IsQuiet :
        (new deleted added updated : List UserInfo) (w : World C P Regexp Bucket)
        → IsQuiet w.c
        → IsQuiet (users_round core new deleted added updated w).c
    unfolding users_round
    users_round-IsQuiet new deleted added updated w h =
        let w1 = (delete_phase core deleted w).0 in
        let h1 : IsQuiet w1.c = rw ((same_c deleted w).0) h in
        let w2 = (add_phase core added w1).0 in
        let h2 : IsQuiet w2.c = rw ((same_c added w1).1) h1 in
        ground (arith, h1, h2, commit_users-IsQuiet new deleted added updated w2 h2)

    users_changed-IsQuiet :
        (users : Option (List UserInfo)) (alive : Option (Map ℤ ℤ)) (w : World C P Regexp Bucket)
        → IsQuiet w.c
        → IsQuiet (users_changed core users alive w).c
    unfolding users_changed
    users_changed-IsQuiet none alive w h = rw (set_alive-c alive w) h
    users_changed-IsQuiet (some []) alive w h = rw (set_alive-c alive w) h
    users_changed-IsQuiet (some (u ∷ us)) alive w h =
        users_round-IsQuiet _ _ _ _ (set_alive alive w) (rw (set_alive-c alive w) h)

  module _ (core : Core C) (panel : PanelApi P) (tools : CertTools)
      (compile : Text → Option Regexp) where
    start_with-IsQuiet :
        (options : Options) (node : NodeInfo) (users : List UserInfo) (alive : Map ℤ ℤ)
        (s s' : Shared C P Regexp Bucket) (c : Controller)
        → start_with core panel tools compile options node users alive s ≡ done (s', started c)
        → IsQuiet c
    unfolding start_with
    start_with-IsQuiet options node users alive s s' c e =
        let tag =
          if is_empty options.name
          then build_node_tag (panel.api_host s.api) node
          else options.name in
        let p = (add_limiter tag options.limit_config.speed_limit users alive s.registry).1 in
        let c0 = new_controller options tag p users alive node in
        ground (arith, start_tasks-IsQuiet node c0 c, new-IsQuiet options tag p users alive node)

    change_intervals-traffic :
        (node : NodeInfo) (w w' : World C P Regexp Bucket)
        → change_intervals core panel tools compile node w ≡ done w'
        → w'.c.traffic ≡ w.c.traffic
    unfolding change_intervals
    change_intervals-traffic node w w' e = ground arith

    install_node-traffic :
        (node : NodeInfo) (w w' : World C P Regexp Bucket)
        → install_node core panel tools compile node w ≡ done w'
        → w'.c.traffic ≡ w.c.traffic
    unfolding install_node
    install_node-traffic node w w' e =
        let w1 : World C P Regexp Bucket = record w {
          s = record w.s { server = (core.add_node w.c.tag node w.c.options w.s.server).0 };
        } in
        let w2 : World C P Regexp Bucket = record w1 {
          s = record w1.s { server = (core.add_users w1.c.tag w1.c.user_list node w1.s.server).0 };
        } in
        ground (arith, change_intervals-traffic node w2 w')

    node_changed-IsQuiet :
        (node : NodeInfo) (users : Option (List UserInfo)) (alive : Option (Map ℤ ℤ))
        (w w' : World C P Regexp Bucket)
        → node_changed core panel tools compile node users alive w ≡ done w'
        → IsQuiet w'.c
    unfolding node_changed
    node_changed-IsQuiet node users alive w w' e =
        let w1 : World C P Regexp Bucket = record {
          c = record w.c {
            info = node;
            user_list = option_or users w.c.user_list;
            traffic = if w.c.options.limit_config.enable_dynamic_speed_limit then some [] else none;
          };
          s = record w.s { server = (core.del_node w.c.tag w.s.server).0 };
        } in
        let w2 = set_alive alive (switch_tag panel node alive w1) in
        ground (
          arith,
          install_node-traffic node (on_limiter (update_rule compile node.rules) w2) w',
          on_limiter-c (update_rule compile node.rules) w2,
          set_alive-c alive (switch_tag panel node alive w1),
          switch_tag-traffic panel node alive w1,
        )

    node_info_monitor-IsQuiet :
        (w w' : World C P Regexp Bucket) (e : Option Text)
        → node_info_monitor core panel tools compile w ≡ done (w', e)
        → IsQuiet w.c
        → IsQuiet w'.c
    unfolding node_info_monitor
    node_info_monitor-IsQuiet w w' e run h = elim (Answer-cases (panel.get_node_info w.s.api).1) [
      | inl (t, a1) ↦ ground arith
      | inr (node, a1) ↦
          let w1 = with_api (panel.get_node_info w.s.api).0 w in
          elim (Answer-cases (panel.get_user_list w1.s.api).1) [
            | inl (t, a2) ↦ ground arith
            | inr (users, a2) ↦
                let w2 = with_api (panel.get_user_list w1.s.api).0 w1 in
                elim (Answer-cases (panel.get_user_alive w2.s.api).1) [
                  | inl (t, a3) ↦ ground arith
                  | inr (alive, a3) ↦
                      let w3 = with_api (panel.get_user_alive w2.s.api).0 w2 in
                      elim (Option-cases node) [
                        | inl same ↦
                            ground (arith, same, users_changed-IsQuiet core users alive w3 h)
                        | inr (n, changed) ↦
                            ground (arith, changed, node_changed-IsQuiet n users alive w3 w')
                      ]
                ]
          ]
    ]

    -- What happens to a started controller: its three tasks, and whatever others do to the limiters,
    -- the core and the panel meanwhile.
    pub data Step (w : World C P Regexp Bucket) : World C P Regexp Bucket → Type 0 where
      monitor :
          {w' : World C P Regexp Bucket} {e : Option Text}
          → node_info_monitor core panel tools compile w ≡ done (w', e)
          → Step w w'
      report : Step w (report_user_traffic_task core panel tools compile w).0
      check :
          (now : ℤ) {w' : World C P Regexp Bucket} {e : Option Text}
          → speed_checker now w ≡ done (w', e)
          → Step w w'
      others : (s : Shared C P Regexp Bucket) → Step w (record w { s = s })

    pub data Reach (w : World C P Regexp Bucket) : World C P Regexp Bucket → Type 0 where
      here : Reach w w
      next : {v u : World C P Regexp Bucket} → Reach w v → Step v u → Reach w u

    report-c :
        (w : World C P Regexp Bucket)
        → (report_user_traffic_task core panel tools compile w).0.c ≡ w.c
    unfolding report_user_traffic_task
    report-c w = ground arith

    Step-IsQuiet : {w w' : World C P Regexp Bucket} → Step w w' → IsQuiet w.c → IsQuiet w'.c
    Step-IsQuiet {w} {w'} (monitor {e = e} run) h = node_info_monitor-IsQuiet w w' e run h
    Step-IsQuiet {w} report h = rw (report-c w) h
    Step-IsQuiet {w} {w'} (check now {e = e} run) h = ground (arith, speed_checker_quiet now w h)
    Step-IsQuiet (others s) h = h

    Reach-IsQuiet : {w w' : World C P Regexp Bucket} → Reach w w' → IsQuiet w.c → IsQuiet w'.c
    Reach-IsQuiet here h = h
    Reach-IsQuiet (next r st) h = Step-IsQuiet st (Reach-IsQuiet r h)

    -- The bug: a controller that has started never finds a user to slow down. In every state that its
    -- tasks and the others lead to, `SpeedChecker` returns and changes nothing, whatever the users' traffic.
    pub speed_checker_idle :
        (options : Options) (node : NodeInfo) (users : List UserInfo) (alive : Map ℤ ℤ)
        (s s' : Shared C P Regexp Bucket) (c : Controller) (w : World C P Regexp Bucket) (now : ℤ)
        → start_with core panel tools compile options node users alive s ≡ done (s', started c)
        → Reach (record { c = c; s = s' }) w
        → speed_checker now w ≡ done (w, none)
    speed_checker_idle options node users alive s s' c w now e r =
        speed_checker_quiet now w
          (Reach-IsQuiet r (start_with-IsQuiet options node users alive s s' c e))
