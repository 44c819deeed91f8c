-- ===== src/Core/Tests.antt =====
-- The theorems on the selector at two concrete cores.
use v2sp.Prelude.{
  nat_eq, int_eq, pos, length, lookup, codes, text_beq, text_eq, ℕ, suc, ◌≡◌, refl, false, none,
  some, [], ◌∷◌,
}
use v2sp.Panel.{NodeInfo}
use v2sp.Conf.{Options, new_cert_config, new_xray_options}
use v2sp.Core.{Core}
use v2sp.Core.Selector.{Selector, store, select_core, pick_core, is_eligible, add_node, add_users}
use v2sp.Core.Selector.Routing.{add_users-add_node}

-- A core that counts its calls.
abbrev core : Core ℕ
core = record {
  start = λ n. (suc n, none);
  close = λ n. (suc n, none);
  add_node = λ tag info o n. (suc n, none);
  del_node = λ tag n. (suc n, none);
  add_users = λ tag users info n. (suc n, length users, none);
  get_user_traffic_slice = λ tag reset n. (suc n, [], none);
  del_users = λ users tag info n. (suc n, none);
  protocols = λ n. codes "vless" ∷ [];
  type = λ n. codes "xray";
}

abbrev node : NodeInfo
node = record {
  id = pos 7;
  type = codes "vless";
  security = pos 2;
  push_interval = pos 60;
  pull_interval = pos 30;
  raw_dns = record { dns_map = []; dns_json = [] };
  rules = record { regexp = []; protocol = [] };
  vallss = none;
  shadowsocks = none;
  trojan = none;
  common = none;
}

abbrev option : Options
option = record {
  name = [];
  core = codes "xray";
  core_name = [];
  listen_ip = [];
  send_ip = [];
  device_online_min_traffic = pos 0;
  report_min_traffic = pos 0;
  limit_config = record {
    enable_realtime = false;
    speed_limit = pos 0;
    ip_limit = pos 0;
    enable_ip_recorder = false;
    enable_dynamic_speed_limit = false;
    dynamic_speed_limit_config =
        some
          (record { periodic = pos 0; traffic = pos 0; speed_limit = pos 0; expire_time = pos 0 });
  };
  xray_options = new_xray_options;
  cert_config = new_cert_config;
}

abbrev two_cores : Selector ℕ
two_cores = record {
  cores = (codes "x", 0) ∷ (codes "y", 10) ∷ [];
  nodes = (codes "o", codes "x") ∷ [];
}

add_users-add_node_example :
    let s' = (add_node core (codes "n") node option two_cores).0 in
    (add_users core (codes "n") [] node s' ≡ (store (codes "y") 12 s', 0, none))
    × (lookup (codes "o") s'.nodes ≡ some (codes "x"))
unfolding select_core pick_core is_eligible codes text_beq lookup
add_users-add_node_example =
    add_users-add_node core (codes "n") (codes "o") node option [] two_cores (codes "y") 10 refl
      refl
