-- ===== src/Node/Monitor/Deadlock.antt =====
-- nodeInfoMonitor of node/task.go where the panel delivers another pull interval: the monitor changes
-- its own task from inside the task's function.
use v2sp.Prelude.{
  if◌then◌else◌, ◌==◌, nat_eq, option_or, ℤ, int_beq_iff, int_eq, pos, Map, Text, text_eq, ◌≡◌,
  refl, ◌≢◌, true, false, Option, none, some, List, arith,
}
use v2sp.Panel.{NodeInfo, UserInfo, tls_security}
use v2sp.Conf.{Options}
use v2sp.Core.{Core}
use v2sp.Task.{Task, Outcome, done, blocked, ◌>>=◌, Lens, fire, execute_locked}
use v2sp.Task
use v2sp.Task.Laws.{IsLens, fire_running}
use v2sp.Limiter.Rules.{update_rule}
use v2sp.Node.Cert.{CertTools, request_cert}
use v2sp.Node.Controller.{PanelApi, ok, close_task, new_task}
use v2sp.Node.Monitor.{
  World, on_limiter, set_alive, switch_tag, change_interval, change_intervals, install_node,
  node_changed, node_info_monitor,
}

change_interval_held :
    (interval : ℤ) (t : Task)
    → t.locked ≡ true
    → t.interval ≢ interval
    → interval ≢ pos 0
    → change_interval interval (some t) ≡ blocked
unfolding change_interval close_task Task.close Task.lock
change_interval_held interval t held new positive =
    ground (arith, int_beq_iff t.interval interval, int_beq_iff interval (pos 0))

-- The core grants what it is asked.
abbrev pub Grants : {C : Type 0} → Core C → Type 0
Grants {C} core =
    ((tag : Text) (c : C) → (core.del_node tag c).1 ≡ none)
    × ((tag : Text) (node : NodeInfo) (options : Options) (c : C)
        → (core.add_node tag node options c).1 ≡ none)
    × ((tag : Text) (users : List UserInfo) (node : NodeInfo) (c : C)
        → (core.add_users tag users node c).2 ≡ none)

module _ {C P Regexp Bucket : Type 0} (core : Core C) (panel : PanelApi P) (tools : CertTools)
    (compile : Text → Option Regexp) where
  -- The place of the monitor's own task in the world.
  abbrev pub monitor_task : Lens (World C P Regexp Bucket)
  monitor_task = record {
    get = λ w. option_or w.c.node_info_monitor_periodic (new_task (pos 0));
    put = λ t w. record w { c = record w.c { node_info_monitor_periodic = some t } };
  }

  monitor_task-IsLens : IsLens monitor_task
  monitor_task-IsLens = record { get-put = λ t w. refl; put-put = λ s t w. refl }

  abbrev pub run_monitor : World C P Regexp Bucket → Outcome (World C P Regexp Bucket × Option Text)
  run_monitor = node_info_monitor core panel tools compile

  prepared_periodic :
      (node : NodeInfo) (alive : Option (Map ℤ ℤ)) (w : World C P Regexp Bucket)
      → (on_limiter
          (update_rule compile node.rules)
          (set_alive alive (switch_tag panel node alive w))).c.node_info_monitor_periodic
        ≡ w.c.node_info_monitor_periodic
  unfolding on_limiter set_alive switch_tag
  prepared_periodic node none w = ground arith
  prepared_periodic node (some a) w = ground arith

  -- The round, with every answer of the panel and of the core a success, up to the intervals.
  install_blocks :
      (node : NodeInfo) (t : Task) (w : World C P Regexp Bucket)
      → w.c.node_info_monitor_periodic ≡ some t
      → t.locked ≡ true
      → t.interval ≢ node.pull_interval
      → node.pull_interval ≢ pos 0
      → (if node.security == tls_security then request_cert tools w.c.options.cert_config else none)
        ≡ none
      → (core.add_node w.c.tag node w.c.options w.s.server).1 ≡ none
      → (core.add_users w.c.tag w.c.user_list node
          (core.add_node w.c.tag node w.c.options w.s.server).0).2
        ≡ none
      → install_node core panel tools compile node w ≡ blocked
  unfolding install_node change_intervals
  install_blocks node t w periodic held new positive cert added imported =
      ground (arith, change_interval_held node.pull_interval t held new positive)

  changed_blocks :
      (node : NodeInfo) (users : Option (List UserInfo)) (alive : Option (Map ℤ ℤ)) (t : Task)
      (w : World C P Regexp Bucket)
      → w.c.node_info_monitor_periodic ≡ some t
      → t.locked ≡ true
      → t.interval ≢ node.pull_interval
      → node.pull_interval ≢ pos 0
      → (node.security == tls_security) ≡ false
      → Grants core
      → node_changed core panel tools compile node users alive w ≡ blocked
  unfolding node_changed
  changed_blocks node users alive t w periodic held new positive no_tls (deletes, adds, imports) =
      rw (deletes w.c.tag w.s.server, node_changed)
        (install_blocks node t _ (rw (prepared_periodic node alive _) periodic) held new positive
          (rw no_tls refl) (adds _ _ _ _) (imports _ _ _ _))

  monitor_changed :
      (node : NodeInfo) (users : Option (List UserInfo)) (alive : Option (Map ℤ ℤ))
      (api1 api2 api3 : P) (w : World C P Regexp Bucket)
      → panel.get_node_info w.s.api ≡ (api1, ok (some node))
      → panel.get_user_list api1 ≡ (api2, ok users)
      → panel.get_user_alive api2 ≡ (api3, ok alive)
      → node_changed core panel tools compile node users alive
          (record w { s = record w.s { api = api3 } })
        ≡ blocked
      → run_monitor w ≡ blocked
  unfolding node_info_monitor
  monitor_changed node users alive api1 api2 api3 w a1 a2 a3 e = ground arith

  -- The bug: when a running monitor's timer fires and the panel delivers a node without TLS and with
  -- another pull interval, which is not zero, and the core grants all it is asked, the monitor waits
  -- for ever for the lock that it holds itself.
  pub interval_change_deadlocks :
      (node : NodeInfo) (users : Option (List UserInfo)) (alive : Option (Map ℤ ℤ)) (t : Task)
      (api1 api2 api3 : P) (w : World C P Regexp Bucket)
      → w.c.node_info_monitor_periodic ≡ some t
      → t.locked ≡ false
      → t.running ≡ true
      → panel.get_node_info w.s.api ≡ (api1, ok (some node))
      → panel.get_user_list api1 ≡ (api2, ok users)
      → panel.get_user_alive api2 ≡ (api3, ok alive)
      → t.interval ≢ node.pull_interval
      → node.pull_interval ≢ pos 0
      → (node.security == tls_security) ≡ false
      → Grants core
      → fire monitor_task (λ v. v) run_monitor w ≡ blocked
  unfolding execute_locked
  interval_change_deadlocks node users alive t api1 api2 api3 w periodic free runs a1 a2 a3 new
        positive no_tls grants =
      let busy = record t { timer = none; locked = true } in
      let e : option_or w.c.node_info_monitor_periodic (new_task (pos 0)) ≡ t = rw periodic refl in
      let w1 : World C P Regexp Bucket = record w {
        c = record w.c { node_info_monitor_periodic = some busy };
      } in
      let stuck =
        changed_blocks node users alive busy (record w1 { s = record w1.s { api = api3 } }) refl
          refl new positive no_tls grants in
      rw
        (
          fire_running monitor_task monitor_task-IsLens (λ v. v) run_monitor w (rw e free)
              (rw e runs) refl,
          e,
        )
        (rw (monitor_changed node users alive api1 api2 api3 w1 a1 a2 a3 stuck) refl)
