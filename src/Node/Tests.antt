-- ===== src/Node/Tests.antt =====
-- The theorems on a node controller at a concrete node, panel and core.
use v2sp.Prelude.{
  nat_eq, is_some, option_or, ℤ, ◌+ℤ◌, ◌*ℤ◌, int_eq, wrap64, pos, length, lookup, Text, codes,
  text_beq, text_eq, ℕ, suc, ◌<◌, ◌≡◌, refl, Bool, true, false, Option, none, some, [], ◌∷◌, arith,
  insert,
}
use v2sp.Panel.{UserInfo, NodeInfo}
use v2sp.Conf.{Options, new_cert_config, new_xray_options}
use v2sp.Core.{Core}
use v2sp.Task.{
  Outcome, done, blocked, panicked, fire, lock, unlock, start, has_closed, set_running,
  checked_execute, execute_locked,
}
use v2sp.Limiter.{Limiter, user_tag, check_limit, new_limit_info}
use v2sp.Limiter.Registry.{get_limiter, deref}
use v2sp.Limiter.Users.{latest}
use v2sp.Limiter.Sync.{IsSynced}
use v2sp.Node.Users.{
  compare_user_list, limits_changed, users_of, compare_loop, compare_step, index_users,
}
use v2sp.Node.Users.Laws.{compare_user_list_lem}
use v2sp.Node.Report.{online_data, is_idle, online_threshold, online_data_lem}
use v2sp.Node.Set.{NodeSet, close_nodes}
use v2sp.Node.Set.Laws.{has_tag, close_nodes_lem}
use v2sp.Node.Cert.{CertTools}
use v2sp.Node.Controller.{
  PanelApi, Shared, Started, started, failed, ok, new_task, new_controller, start_with, start_tasks,
  start_task,
}
use v2sp.Node.Monitor.{
  World, users_changed, node_changed, speed_checker, install_node, change_intervals,
  change_interval, switch_tag, set_alive, on_limiter, check_speeds,
}
use v2sp.Node.Monitor.Synced.{IsInStep, limiter_of, users_changed-IsInStep}
use v2sp.Node.Monitor.Deadlock.{monitor_task, run_monitor, interval_change_deadlocks}
use v2sp.Node.Monitor.Reload.{named_node_refuses_new_users, unnamed_node-IsInStep}
use v2sp.Node.Monitor.Quiet.{here, next, check, speed_checker_idle}

abbrev alice : UserInfo
alice = record { id = pos 1; uuid = codes "a"; speed_limit = pos 8; device_limit = pos 1 }

abbrev faster : UserInfo
faster = record alice { speed_limit = pos 16 }

abbrev bob : UserInfo
bob = record { id = pos 2; uuid = codes "b"; speed_limit = pos 0; device_limit = pos 0 }

compare_example :
    let (deleted, added, updated) = compare_user_list (alice ∷ []) (bob ∷ faster ∷ []) in
    (is_some (latest (codes "a") deleted) ≡ false)
    × (latest (codes "a") added ≡ none)
    × (latest (codes "a") updated ≡ some faster)
unfolding latest codes text_beq limits_changed
compare_example =
    compare_user_list_lem (alice ∷ []) (bob ∷ faster ∷ []) (codes "a") (refl, (refl, tt))

online_data_example :
    option_or
      (lookup (pos 1) (
        online_data
          (pos 1)
          (record { uid = pos 1; upload = pos 10; download = pos 2 } ∷ [])
          (record { uid = pos 1; ip = codes "1.1.1.1" } ∷ [])))
      []
    ≡ []
unfolding is_idle online_threshold wrap64 ◌*ℤ◌ ◌+ℤ◌
online_data_example =
    online_data_lem (pos 1) (pos 1) (record { uid = pos 1; upload = pos 10; download = pos 2 } ∷ [])
      (record { uid = pos 1; ip = codes "1.1.1.1" } ∷ [])

abbrev node : NodeInfo
node = record {
  id = pos 7;
  type = codes "vless";
  security = pos 2;
  push_interval = pos 60;
  pull_interval = pos 30;
  raw_dns = record { dns_map = []; dns_json = [] };
  rules = record { regexp = []; protocol = [] };
  vallss = none;
  shadowsocks = none;
  trojan = none;
  common = none;
}

abbrev options : Text → Options
options name = record {
  name = name;
  core = codes "xray";
  core_name = [];
  listen_ip = [];
  send_ip = [];
  device_online_min_traffic = pos 0;
  report_min_traffic = pos 0;
  limit_config = record {
    enable_realtime = false;
    speed_limit = pos 0;
    ip_limit = pos 0;
    enable_ip_recorder = false;
    enable_dynamic_speed_limit = true;
    dynamic_speed_limit_config = some (record {
      periodic = pos 60;
      traffic = pos 1000;
      speed_limit = pos 1;
      expire_time = pos 10;
    });
  };
  xray_options = new_xray_options;
  cert_config = new_cert_config;
}

-- A core that grants everything and counts its calls.
abbrev core : Core ℕ
core = record {
  start = λ n. (suc n, none);
  close = λ n. (suc n, none);
  add_node = λ tag info o n. (suc n, none);
  del_node = λ tag n. (suc n, none);
  add_users = λ tag users info n. (suc n, length users, none);
  get_user_traffic_slice = λ tag reset n. (suc n, [], none);
  del_users = λ users tag info n. (suc n, none);
  protocols = λ n. codes "vless" ∷ [];
  type = λ n. codes "xray";
}

-- A panel that always delivers the node above and the two users.
abbrev panel : PanelApi ℕ
panel = record {
  api_host = λ n. codes "h";
  get_node_info = λ n. (suc n, ok (some node));
  get_user_list = λ n. (suc n, ok (some (alice ∷ bob ∷ [])));
  get_user_alive = λ n. (suc n, ok (some []));
  report_user_traffic = λ traffic n. (suc n, none);
  report_node_online_users = λ sent n. (suc n, none);
}

abbrev tools : CertTools
tools = record {
  file_exists = λ path. true;
  new_lego = λ c. none;
  create_cert = λ c. none;
  generate_self = λ domain cert key. none;
}

abbrev compile : Text → Option Text
compile pattern = some pattern

abbrev known : Limiter Text ℤ
known = record {
  domain_rules = [];
  protocol_rules = [];
  speed_limit = pos 0;
  user_online_ip = [];
  old_user_online = [];
  uuid_to_uid = [];
  user_limit_info = (user_tag (codes "n") (codes "a"), new_limit_info alice) ∷ [];
  speed_limiter = [];
  alive_list = [];
}

abbrev shared : Shared ℕ ℕ Text ℤ
shared = record {
  server = 0;
  api = 0;
  registry = record { heap = known ∷ []; limiter = (codes "n", 0) ∷ [] };
}

-- A controller of one known user, whose monitor runs every 60 ns; `name` is its configured name.
abbrev world : Text → World ℕ ℕ Text ℤ
world name = record {
  c = record (new_controller (options name) (codes "n") 0 (alice ∷ []) [] node) {
    node_info_monitor_periodic =
        some (record { interval = pos 60; locked = false; timer = some (pos 60); running = true });
    user_report_periodic =
        some (record { interval = pos 60; locked = false; timer = some (pos 60); running = true });
  };
  s = shared;
}

known-IsSynced : IsSynced (codes "n") (alice ∷ []) known
unfolding codes user_tag lookup text_beq latest new_limit_info
known-IsSynced uuid = ground arith

users_changed_example :
    let w' = users_changed core (some (bob ∷ [])) none (world (codes "n")) in
    IsInStep w' × (w'.c.user_list ≡ bob ∷ [])
unfolding latest codes text_beq deref new_controller compare_user_list users_of compare_loop
    compare_step lookup index_users set_alive insert
users_changed_example =
    users_changed-IsInStep core (some (bob ∷ [])) none (world (codes "n")) (refl, tt)
      (known, refl, known-IsSynced)

interval_change_example :
    fire
      (monitor_task core panel tools compile)
      (λ v. v)
      (run_monitor core panel tools compile)
      (world (codes "n"))
    ≡ blocked
interval_change_example =
    interval_change_deadlocks core panel tools compile node (some (alice ∷ bob ∷ [])) (some [])
      (record { interval = pos 60; locked = false; timer = some (pos 60); running = true }) 1 2 3
      (world (codes "n")) refl refl refl refl refl refl (λ e. ground arith) (λ e. ground arith) refl
      ((λ tag c. refl), (λ tag n o c. refl), (λ tag users n c. refl))

-- The world whose two tasks have the intervals of the node, and what a changed node makes of it.
abbrev still : Text → World ℕ ℕ Text ℤ
still name = record (world name) {
  c = record (world name).c {
    node_info_monitor_periodic = some (new_task node.pull_interval);
    user_report_periodic = some (new_task node.push_interval);
  };
}

abbrev after : Text → World ℕ ℕ Text ℤ
after name =
    elim (node_changed core panel tools compile node (some (alice ∷ bob ∷ [])) none (still name)) [
      | done w ↦ w
      | blocked ↦ still name
      | panicked ↦ still name
    ]

named_node_example :
    ((after (codes "n")).c.user_list ≡ alice ∷ bob ∷ [])
    × ((l' : Limiter Text ℤ) × (limiter_of (after (codes "n")) ≡ some l')
        × ((new_bucket : ℤ → ℤ → ℤ → ℤ) (ip : Text) (is_tcp no_ssudp : Bool) (now : ℤ)
            → (check_limit new_bucket
                (user_tag (after (codes "n")).c.tag (codes "b"))
                ip
                is_tcp
                no_ssudp
                now
                l').2
              ≡ true))
unfolding node_changed install_node change_intervals change_interval switch_tag set_alive on_limiter
    lookup codes user_tag text_beq deref new_controller new_task
named_node_example =
    named_node_refuses_new_users core panel tools compile node (alice ∷ bob ∷ []) none
      (still (codes "n")) (after (codes "n")) known (codes "b") refl refl refl refl refl

shared-IsSound : (t : Text) (p : ℕ) → lookup t shared.registry.limiter ≡ some p → p < 1
unfolding lookup
shared-IsSound t p e = ground arith

unnamed_node_example : ((after []).c.user_list ≡ alice ∷ bob ∷ []) × IsInStep (after [])
unfolding node_changed install_node change_intervals change_interval switch_tag set_alive on_limiter
    lookup codes text_beq new_controller new_task
unnamed_node_example =
    unnamed_node-IsInStep core panel tools compile node (some (alice ∷ bob ∷ [])) none (still [])
      (after []) refl shared-IsSound refl

abbrev run_start : Outcome (Shared ℕ ℕ Text ℤ × Started)
run_start = start_with core panel tools compile (options (codes "n")) node (alice ∷ []) [] shared

abbrev first_world : World ℕ ℕ Text ℤ
first_world = elim run_start [
  | blocked ↦ still []
  | panicked ↦ still []
  | done (s, started c) ↦ record { c = c; s = s }
  | done (s, failed e) ↦ still []
]

speed_checker_example : speed_checker (pos 9) first_world ≡ done (first_world, none)
unfolding start_with start_tasks start_task new_controller start lock unlock codes text_beq new_task
    checked_execute has_closed set_running execute_locked speed_checker check_speeds
speed_checker_example =
    speed_checker_idle core panel tools compile (options (codes "n")) node (alice ∷ []) [] shared
      first_world.s first_world.c first_world (pos 9) refl (next here (check (pos 5) refl))

abbrev one_node : NodeSet ℕ ℕ Text ℤ
one_node = record {
  controllers = ((world (codes "n")).c, 0) ∷ [];
  server = 0;
  registry = shared.registry;
}

close_nodes_example :
    (n' : NodeSet ℕ ℕ Text ℤ) × (close_nodes core panel tools compile one_node ≡ done n')
    × (n'.controllers ≡ [])
    × (get_limiter (codes "n") n'.registry ≡ none)
unfolding has_tag codes text_beq new_controller
close_nodes_example =
    close_nodes_lem core panel tools compile one_node (codes "n") ((refl, refl, tt, tt, tt), tt)
