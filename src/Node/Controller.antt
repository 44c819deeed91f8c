-- ===== src/Node/Controller.antt =====
-- node/controller.go: one node's controller, its start and its end. The core, the panel client and
-- the certificate tools are interfaces; the registry of limiters is shared by all the controllers.
use v2sp.Prelude.{
  ltb, if◌then◌else◌, ◌==◌, nat_eq, option_or, ℤ, ◌*ℤ◌, int_eq, wrap64, pos, length, is_empty, Map,
  Text, codes, text_eq, itoa, ℕ, ◌*◌, ◌^◌, Bool, true, false, not, ◌&&◌, ◌||◌, Option, none, some,
  List, [], ◌∷◌, ◌++◌,
}
use v2sp.Panel.{NodeInfo, UserInfo, UserTraffic, tls_security, reality_security}
use v2sp.Conf.{Options}
use v2sp.Core.{Core}
use v2sp.Task.{Task, Outcome, done, blocked, panicked, ◌>>=◌, Lens}
use v2sp.Task
use v2sp.Limiter.Registry.{Registry, add_limiter, delete_limiter, modify}
use v2sp.Limiter.Rules.{update_rule}
use v2sp.Node.Cert.{CertTools, request_cert}

-- The result of a call of the panel: what it delivers, or the error.
pub data Answer (A : Type 0) : Type 0 where
  ok : A → Answer A
  err : Text → Answer A

-- api/panel: what the controller calls of the panel client. `none` is Go's nil: the panel answered
-- that nothing has changed.
pub record PanelApi (P : Type 0) : Type 0 where
  pub api_host : P → Text
  pub get_node_info : P → P × Answer (Option NodeInfo)
  pub get_user_list : P → P × Answer (Option (List UserInfo))
  pub get_user_alive : P → P × Answer (Option (Map ℤ ℤ))
  pub report_user_traffic : List UserTraffic → P → P × Option Text
  pub report_node_online_users : Map ℤ (List Text) → P → P × Option Text

-- A controller that has been started. `limiter` is the pointer that `AddLimiter` returned; `traffic`
-- is nil where dynamic speed limits are off.
pub record Controller : Type 0 where
  pub options : Options
  pub tag : Text
  pub limiter : ℕ
  pub traffic : Option (Map Text ℤ)
  pub user_list : List UserInfo
  pub alive_map : Map ℤ ℤ
  pub info : NodeInfo
  pub node_info_monitor_periodic : Option Task
  pub user_report_periodic : Option Task
  pub renew_cert_periodic : Option Task
  pub dynamic_speed_limit_periodic : Option Task
  pub online_ip_report_periodic : Option Task

-- What the controllers share.
pub record Shared (C P Regexp Bucket : Type 0) : Type 0 where
  pub server : C
  pub api : P
  pub registry : Registry Regexp Bucket

pub data Started : Type 0 where
  started : Controller → Started
  failed : Text → Started

-- `&task.Task{Interval: …}`
unfoldable pub new_task : ℤ → Task
new_task interval = record { interval = interval; locked = false; timer = none; running = false }

-- A task by itself, for the calls that do not run its function.
abbrev pub itself : Lens Task
itself = record { get = λ t. t; put = λ t _. t }

-- `Start(false)` of a task: the function is not called.
unfoldable pub start_task : Task → Outcome Task
start_task t = Task.start itself (λ w. w) (λ w. done (w, none)) false t >>= λ (t', _). done t'

-- `Start(true)` of a task whose function leaves the task alone and returns no error, as
-- `renewCertTask` does, which logs its errors.
unfoldable pub start_task_now : Task → Outcome Task
start_task_now t = Task.start itself (λ w. w) (λ w. done (w, none)) true t >>= λ (t', _). done t'

-- The end of one of the tasks, where there is one.
unfoldable pub close_task : Option Task → Outcome (Option Task)
close_task none = done none
close_task (some t) = Task.close itself t >>= λ t'. done (some t')

abbrev pub renews_cert : Text → Bool
renews_cert mode =
    not (mode == codes "none" || (mode == [] || (mode == codes "file" || mode == codes "self")))

-- `time.Hour * 24`, in nanoseconds.
abbrev pub day : ℤ
day = pos (24 * 3600 * 10 ^ 9)

-- startTasks of node/task.go.
unfoldable pub start_tasks : NodeInfo → Controller → Outcome Controller
start_tasks node c = start_task (new_task node.pull_interval) >>= λ monitor.
    start_task (new_task node.push_interval) >>= λ report.
    let c1 : Controller = record c {
      node_info_monitor_periodic = some monitor;
      user_report_periodic = some report;
    } in
    (if node.security == tls_security && renews_cert c.options.cert_config.cert_mode
      then (start_task_now (new_task day) >>= λ t.
          done (record c1 { renew_cert_periodic = some t }))
      else done c1)
    >>= λ c2.
        if c.options.limit_config.enable_dynamic_speed_limit
        then elim c.options.limit_config.dynamic_speed_limit_config [
          | none ↦ panicked
          | some config ↦ start_task (new_task (wrap64 (config.periodic *ℤ pos (10 ^ 9)))) >>= λ t.
              done (record c2 { traffic = some []; dynamic_speed_limit_periodic = some t })
        ]
        else done c2

-- The checks of `Start` on the node that the panel delivers.
unfoldable pub check_node : NodeInfo → Option Text
check_node node =
    if not (node.type == codes "vless")
    then some (codes "unsupported node_type: " ++ node.type ++ codes " (supported: vless)")
    else if not (node.security == reality_security)
    then some
        (codes "unsupported tls mode: " ++ itoa node.security ++ codes " (supported: reality)")
    else elim node.vallss [
      | none ↦ some (codes "invalid vless config: missing VAllss payload")
      | some v ↦
          if not (v.network == codes "tcp") && not (v.network == codes "grpc")
          then some
              (codes "unsupported vless network: " ++ v.network ++ codes " (supported: tcp, grpc)")
          else none
    ]

unfoldable pub build_node_tag : Text → NodeInfo → Text
build_node_tag host node = b'[' ∷ host ++ codes "]-" ++ node.type ++ codes ":" ++ itoa node.id

-- A controller as `Start` leaves it before its tasks are started.
unfoldable pub new_controller : Options → Text → ℕ → List UserInfo → Map ℤ ℤ → NodeInfo → Controller
new_controller options tag p users alive node = record {
  options = options;
  tag = tag;
  limiter = p;
  traffic = none;
  user_list = users;
  alive_map = alive;
  info = node;
  node_info_monitor_periodic = none;
  user_report_periodic = none;
  renew_cert_periodic = none;
  dynamic_speed_limit_periodic = none;
  online_ip_report_periodic = none;
}

module _ {C P Regexp Bucket : Type 0} (core : Core C) (panel : PanelApi P) (tools : CertTools)
    (compile : Text → Option Regexp) where
  -- `Start` from the limiter on, once the node, the users and the alive list are there. Above 10000
  -- users the import runs in the background, and its error is only logged.
  unfoldable pub start_with :
      Options
      → NodeInfo
      → List UserInfo
      → Map ℤ ℤ
      → Shared C P Regexp Bucket
      → Outcome (Shared C P Regexp Bucket × Started)
  start_with options node users alive s =
      let tag =
        if is_empty options.name
        then build_node_tag (panel.api_host s.api) node
        else options.name in
      let (registry1, p) =
        add_limiter tag options.limit_config.speed_limit users alive s.registry in
      let s1 = record s { registry = modify p (update_rule compile node.rules) registry1 } in
      let cert =
        if node.security == tls_security then request_cert tools options.cert_config else none in
      elim cert [
        | some e ↦ done (s1, failed (codes "request cert error: " ++ e))
        | none ↦
            let (server1, added_node) = core.add_node tag node options s1.server in
            let s2 = record s1 { server = server1 } in
            elim added_node [
              | some e ↦ done (s2, failed (codes "add new node error: " ++ e))
              | none ↦
                  let (server2, _, import_error) = core.add_users tag users node s2.server in
                  let s3 = record s2 { server = server2 } in
                  let c = new_controller options tag p users alive node in
                  let run = start_tasks node c >>= λ c'. done (s3, started c') in
                  if ltb 10000 (length users) then run else elim import_error [
                    | some e ↦ done (s3, failed (codes "add users error: " ++ e))
                    | none ↦ run
                  ]
            ]
      ]

  unfoldable pub start :
      Options → Shared C P Regexp Bucket → Outcome (Shared C P Regexp Bucket × Started)
  start options s =
      let (api1, answer1) = panel.get_node_info s.api in
      let s1 = record s { api = api1 } in
      elim answer1 [
        | err e ↦ done (s1, failed (codes "get node info error: " ++ e))
        | ok none ↦ done (s1, failed (codes "get node info error: empty response"))
        | ok (some node) ↦ elim (check_node node) [
          | some e ↦ done (s1, failed e)
          | none ↦
              let (api2, answer2) = panel.get_user_list s1.api in
              let s2 = record s1 { api = api2 } in
              elim answer2 [
                | err e ↦ done (s2, failed (codes "get user list error: " ++ e))
                | ok users ↦
                    let (api3, answer3) = panel.get_user_alive s2.api in
                    let s3 = record s2 { api = api3 } in
                    elim answer3 [
                      | err e ↦ done (s3, failed (codes "failed to get user alive list: " ++ e))
                      | ok alive ↦
                          start_with options node (option_or users []) (option_or alive []) s3
                    ]
              ]
        ]
      ]

  unfoldable pub close :
      Controller
      → Shared C P Regexp Bucket
      → Outcome (Shared C P Regexp Bucket × Controller × Option Text)
  close c s = close_task c.node_info_monitor_periodic >>= λ t1.
      close_task c.user_report_periodic >>= λ t2. close_task c.renew_cert_periodic >>= λ t3.
      close_task c.dynamic_speed_limit_periodic >>= λ t4.
      close_task c.online_ip_report_periodic >>= λ t5.
      let (server1, error) = core.del_node c.tag s.server in
      done (
        record s { server = server1; registry = delete_limiter c.tag s.registry },
        record c {
          node_info_monitor_periodic = t1;
          user_report_periodic = t2;
          renew_cert_periodic = t3;
          dynamic_speed_limit_periodic = t4;
          online_ip_report_periodic = t5;
        },
        elim error [ none ↦ none | some e ↦ some (codes "del node error: " ++ e) ],
      )
