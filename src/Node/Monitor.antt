-- ===== src/Node/Monitor.antt =====
-- The periodic work of a node controller: nodeInfoMonitor and SpeedChecker of node/task.go, and
-- reportUserTrafficTask of node/user.go. Every round ends without an error: what fails is logged.
pub mod Synced
pub mod Reload
pub mod Deadlock
pub mod Quiet
use v2sp.Prelude.{
  ltb, leb, nat_beq, if◌then◌else◌, ltb→lt, leb→le, nat_beq_iff, Bool-cases, Option-cases, Eq, ◌==◌,
  nat_eq, eq_refl, is_some, option_or, ℤ, pos_part, neg_part, sub_ℕ, ◌+ℤ◌, ◌-ℤ◌, ◌*ℤ◌, quot, ◌≤ℤ◌,
  ◌<ℤ◌, ltb_ℤ, leb_ℤ, int_beq, int_beq_iff, int_eq, wrap64, IsInt64, wrap64_fits, wrap64-IsInt64,
  pos, negsuc, length, is_empty, get_elem?, set, length-append, get_elem?-set_self,
  get_elem?-set_ne, get_elem?-lt, All, contains, contains-append, Map, lookup, insert, delete,
  Distinct, lookup-insert, lookup-delete, lookup-insert_self, lookup-delete_self, length-insert,
  insert-Distinct, delete-Distinct, delete_absent, length-delete, Text, codes, text_beq,
  text_beq_iff, text_eq, starts_with, drop, size, trim_prefix, ends_with, contains_byte, lower_byte,
  to_lower, digits_from, itoa, ℕ, zero, suc, ◌+◌, ◌-◌, ◌*◌, ◌/◌, ◌%◌, ◌^◌, ◌≤◌, ◌<◌, ◌≡◌, refl, sym,
  ap, ◌∙◌, ◌≢◌, ◌↔◌, ◌⊎◌, inl, inr, Bool, true, false, not, ◌&&◌, ◌||◌, Option, none, some, List,
  [], ◌∷◌, ◌++◌, map, arith,
}
use v2sp.Panel.{NodeInfo, UserInfo, UserTraffic, OnlineUser, tls_security}
use v2sp.Conf.{Options}
use v2sp.Core.{Core}
use v2sp.Task.{Task, Outcome, done, blocked, panicked, ◌>>=◌}
use v2sp.Task
use v2sp.Limiter.{
  Limiter, update_user, update_user_limits, update_dynamic_speed_limit, get_online_device,
}
use v2sp.Limiter.Registry.{Registry, add_limiter, delete_limiter, modify, deref}
use v2sp.Limiter.Rules.{update_rule}
use v2sp.Node.Users.{compare_user_list}
use v2sp.Node.Report.{online_data}
use v2sp.Node.Cert.{CertTools, request_cert}
use v2sp.Node.Controller.{
  Answer, ok, err, PanelApi, Controller, Shared, build_node_tag, close_task, start_task, new_task,
}

-- A controller with what it shares.
pub record World (C P Regexp Bucket : Type 0) : Type 0 where
  pub c : Controller
  pub s : Shared C P Regexp Bucket

-- A new interval: set, `Close`, `Start(false)`. The code reads the task's interval first, which
-- panics where there is no task.
unfoldable pub change_interval : ℤ → Option Task → Outcome (Option Task)
change_interval interval none = panicked
change_interval interval (some t) =
    if not (t.interval == interval) && not (interval == pos 0)
    then (close_task (some (record t { interval = interval })) >>= λ closed. elim closed [
      | none ↦ done none
      | some t1 ↦ start_task t1 >>= λ t2. done (some t2)
    ])
    else done (some t)

-- `delete` on the traffic record, which does nothing where the map is nil.
unfoldable pub clear_traffic : List UserInfo → Option (Map Text ℤ) → Option (Map Text ℤ)
clear_traffic [] traffic = traffic
clear_traffic (u ∷ us) none = clear_traffic us none
clear_traffic (u ∷ us) (some m) = clear_traffic us (some (delete u.uuid m))

unfoldable pub clear_deleted : List UserInfo → Controller → Controller
clear_deleted deleted c =
    if c.options.limit_config.enable_dynamic_speed_limit
    then record c { traffic = clear_traffic deleted c.traffic }
    else c

module _ {C P Regexp Bucket : Type 0} where
  -- Writing to the limiter that the controller points to.
  unfoldable pub on_limiter :
      (Limiter Regexp Bucket → Limiter Regexp Bucket)
      → World C P Regexp Bucket
      → World C P Regexp Bucket
  on_limiter f w = record w { s = record w.s { registry = modify w.c.limiter f w.s.registry } }

  unfoldable pub set_alive : Option (Map ℤ ℤ) → World C P Regexp Bucket → World C P Regexp Bucket
  unfolding on_limiter
  set_alive none w = w
  set_alive (some alive) w = on_limiter (λ l. record l { alive_list = alive }) w

  module _ (panel : PanelApi P) where
    -- Where the node has no configured name, its tag follows the node, and a new limiter is made.
    unfoldable pub switch_tag :
        NodeInfo → Option (Map ℤ ℤ) → World C P Regexp Bucket → World C P Regexp Bucket
    switch_tag new_node alive w =
        if is_empty w.c.options.name
        then (let old_tag = w.c.tag in
            let new_tag = build_node_tag (panel.api_host w.s.api) new_node in
            let registry1 =
              if new_tag == old_tag then w.s.registry else delete_limiter old_tag w.s.registry in
            let (registry2, p) =
              add_limiter new_tag w.c.options.limit_config.speed_limit w.c.user_list
                (option_or alive []) registry1 in
            record {
              c = record w.c { tag = new_tag; limiter = p };
              s = record w.s { registry = registry2 };
            })
        else w

  -- `UpdateUser` on the limiter and the traffic record, where users were added or deleted.
  unfoldable pub apply_users :
      List UserInfo → List UserInfo → World C P Regexp Bucket → World C P Regexp Bucket
  unfolding on_limiter clear_deleted
  apply_users added deleted w =
      let w' = on_limiter (update_user w.c.tag added deleted) w in
      if is_empty added && is_empty deleted then w else record w' { c = clear_deleted deleted w'.c }

  -- `UpdateUserLimits` on the limiter, where limits were changed.
  unfoldable pub apply_limits : List UserInfo → World C P Regexp Bucket → World C P Regexp Bucket
  unfolding on_limiter
  apply_limits updated w =
      if is_empty updated then w else on_limiter (update_user_limits w.c.tag updated) w

  -- The end of such a round: the limiter, the traffic record and the user list.
  unfoldable pub commit_users :
      List UserInfo
      → List UserInfo
      → List UserInfo
      → List UserInfo
      → World C P Regexp Bucket
      → World C P Regexp Bucket
  unfolding apply_users apply_limits
  commit_users new_users deleted added updated w =
      let w' = apply_limits updated (apply_users added deleted w) in
      record w' { c = record w'.c { user_list = new_users } }

  module _ (core : Core C) where
    -- `DelUsers` and `AddUsers`, each where there is somebody to delete or add.
    unfoldable pub delete_phase :
        List UserInfo → World C P Regexp Bucket → World C P Regexp Bucket × Option Text
    delete_phase deleted w =
        if is_empty deleted
        then (w, none)
        else (let (server1, e) = core.del_users deleted w.c.tag w.c.info w.s.server in
            (record w { s = record w.s { server = server1 } }, e))

    unfoldable pub add_phase :
        List UserInfo → World C P Regexp Bucket → World C P Regexp Bucket × Option Text
    add_phase added w =
        if is_empty added
        then (w, none)
        else (let (server1, _, e) = core.add_users w.c.tag added w.c.info w.s.server in
            (record w { s = record w.s { server = server1 } }, e))

    -- The part of a round in which the node itself has not changed: a refusal of the core ends it.
    unfoldable pub users_round :
        List UserInfo
        → List UserInfo
        → List UserInfo
        → List UserInfo
        → World C P Regexp Bucket
        → World C P Regexp Bucket
    users_round new_users deleted added updated w =
        let (w1, delete_error) = delete_phase deleted w in
        elim delete_error [
          | some e ↦ w1
          | none ↦
              let (w2, add_error) = add_phase added w1 in
              elim add_error [
                | some e ↦ w2
                | none ↦ commit_users new_users deleted added updated w2
              ]
        ]

    unfoldable pub users_changed :
        Option (List UserInfo)
        → Option (Map ℤ ℤ)
        → World C P Regexp Bucket
        → World C P Regexp Bucket
    unfolding set_alive
    users_changed new_users alive w =
        let w1 = set_alive alive w in
        elim (option_or new_users []) [
          | [] ↦ w1
          | u ∷ us ↦
              let (deleted, added, updated) = compare_user_list w1.c.user_list (u ∷ us) in
              users_round (u ∷ us) deleted added updated w1
        ]

  module _ (core : Core C) (panel : PanelApi P) (tools : CertTools)
      (compile : Text → Option Regexp) where
    -- The end of a round in which the node has changed: the new intervals of the two tasks.
    unfoldable pub change_intervals :
        NodeInfo → World C P Regexp Bucket → Outcome (World C P Regexp Bucket)
    change_intervals node w =
        change_interval node.pull_interval w.c.node_info_monitor_periodic >>= λ t1.
        change_interval node.push_interval w.c.user_report_periodic >>= λ t2.
        done (record w {
          c = record w.c { node_info_monitor_periodic = t1; user_report_periodic = t2 };
        })

    -- From the rules on: the certificate, the new node, its users.
    unfoldable pub install_node :
        NodeInfo → World C P Regexp Bucket → Outcome (World C P Regexp Bucket)
    install_node node w =
        let cert =
          if node.security == tls_security
          then request_cert tools w.c.options.cert_config
          else none in
        elim cert [
          | some e ↦ done w
          | none ↦
              let (server1, add_error) = core.add_node w.c.tag node w.c.options w.s.server in
              let w1 = record w { s = record w.s { server = server1 } } in
              elim add_error [
                | some e ↦ done w1
                | none ↦
                    let (server2, _, users_error) =
                      core.add_users w1.c.tag w1.c.user_list node w1.s.server in
                    let w2 = record w1 { s = record w1.s { server = server2 } } in
                    elim users_error [ some e ↦ done w2 | none ↦ change_intervals node w2 ]
              ]
        ]

    -- The part of a round in which the node has changed.
    unfoldable pub node_changed :
        NodeInfo
        → Option (List UserInfo)
        → Option (Map ℤ ℤ)
        → World C P Regexp Bucket
        → Outcome (World C P Regexp Bucket)
    unfolding on_limiter set_alive switch_tag
    node_changed node users alive w =
        let w1 = record w {
          c = record w.c {
            info = node;
            user_list = option_or users w.c.user_list;
            traffic = if w.c.options.limit_config.enable_dynamic_speed_limit then some [] else none;
          };
        } in
        let (server1, del_error) = core.del_node w1.c.tag w1.s.server in
        let w2 = record w1 { s = record w1.s { server = server1 } } in
        elim del_error [
          | some e ↦ done w2
          | none ↦ install_node node (
              on_limiter (update_rule compile node.rules)
                (set_alive alive (switch_tag panel node alive w2)))
        ]

    -- `nodeInfoMonitor`
    unfoldable pub node_info_monitor :
        World C P Regexp Bucket → Outcome (World C P Regexp Bucket × Option Text)
    node_info_monitor w =
        let (api1, answer1) = panel.get_node_info w.s.api in
        let w1 = record w { s = record w.s { api = api1 } } in
        elim answer1 [
          | err e ↦ done (w1, none)
          | ok new_node ↦
              let (api2, answer2) = panel.get_user_list w1.s.api in
              let w2 = record w1 { s = record w1.s { api = api2 } } in
              elim answer2 [
                | err e ↦ done (w2, none)
                | ok users ↦
                    let (api3, answer3) = panel.get_user_alive w2.s.api in
                    let w3 = record w2 { s = record w2.s { api = api3 } } in
                    elim answer3 [
                      | err e ↦ done (w3, none)
                      | ok alive ↦ elim new_node [
                        | some node ↦ node_changed node users alive w3 >>= λ w4. done (w4, none)
                        | none ↦ done (users_changed core users alive w3, none)
                      ]
                    ]
              ]
        ]

    -- `reportUserTrafficTask`
    unfoldable pub report_user_traffic_task :
        World C P Regexp Bucket → World C P Regexp Bucket × Option Text
    report_user_traffic_task w =
        let (server1, traffic, _) = core.get_user_traffic_slice w.c.tag true w.s.server in
        let api1 =
          if is_empty traffic then w.s.api else (panel.report_user_traffic traffic w.s.api).0 in
        elim (deref w.c.limiter w.s.registry) [
          | none ↦ (record w { s = record w.s { server = server1; api = api1 } }, none)
          | some l ↦
              let (l', online) = get_online_device l in
              let api2 =
                if is_empty online
                then api1
                else (panel.report_node_online_users
                    (online_data w.c.options.device_online_min_traffic traffic online) api1).0 in
              (
                record w {
                  s = record {
                    server = server1;
                    api = api2;
                    registry = modify w.c.limiter (λ _. l') w.s.registry;
                  };
                },
                none,
              )
        ]

  -- The loop of `SpeedChecker` over the traffic record; `now` is an instant. The configuration is a
  -- pointer that is followed for each user.
  unfoldable pub check_speeds :
      ℤ → Map Text ℤ → World C P Regexp Bucket → Outcome (World C P Regexp Bucket)
  unfolding on_limiter
  check_speeds now [] w = done w
  check_speeds now ((uuid, t) ∷ rest) w = elim w.c.options.limit_config.dynamic_speed_limit_config [
    | none ↦ panicked
    | some config ↦
        let expire = now +ℤ wrap64 (config.expire_time *ℤ pos (60 * 10 ^ 9)) in
        let w1 =
          on_limiter (λ l. (update_dynamic_speed_limit w.c.tag uuid config.speed_limit expire l).0)
            w in
        let forgotten : Option (Map Text ℤ) = elim w1.c.traffic [
          | none ↦ none
          | some m ↦ some (delete uuid m)
        ] in
        check_speeds now rest (
          if leb_ℤ config.traffic t
          then record w1 { c = record w1.c { traffic = forgotten } }
          else w)
  ]

  -- `SpeedChecker`
  unfoldable pub speed_checker :
      ℤ → World C P Regexp Bucket → Outcome (World C P Regexp Bucket × Option Text)
  speed_checker now w = check_speeds now (option_or w.c.traffic []) w >>= λ w'. done (w', none)
