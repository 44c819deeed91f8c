-- ===== src/Xray/Nodes/Tests.antt =====
-- The theorems on the inbound, the DNS file and the handlers of a node, at a vmess node.
use v2sp.Prelude.{
  ◌≢◌, ◌↔◌, lookup, delete, delete_absent, eq_refl, Option-cases, if◌then◌else◌, ◌==◌, nat_eq,
  is_some, int_eq, to_unsigned, pos, Map, Text, codes, text_beq, text_eq, ◌≡◌, refl, inl, inr, true,
  false, not, ◌||◌, none, some, [], ◌∷◌, arith,
}
use v2sp.Panel.{NodeInfo, VAllssNode, CommonNode, RawDns}
use v2sp.Conf.{Options, CertConfig, new_cert_config, new_xray_options}
use v2sp.Xray.Inbound.{Made, made, failed, panicked, InboundDetour, Codecs, vmess_settings}
use v2sp.Xray.Inbound.Build.{detour_of, build_inbound}
use v2sp.Xray.Inbound.Laws.{build_inbound-without_network_settings, detour_of-made}
use v2sp.Xray.Dns.{DnsSystem, update_dns_config, IsUpdateError, update_dns_config-map}
use v2sp.Xray.Nodes.{Manager, XrayCore, Handlers, ok, add_node, del_node}
use v2sp.Xray.Nodes.RoundTrip.{del_node-add_node, add_node-leaves_inbound}

abbrev node_tag : Text
node_tag = codes "n"

abbrev common : CommonNode
common = record {
  host = [];
  server_port = pos 443;
  server_name = [];
  routes = [];
  base_config = none;
}

abbrev vallss : Text → VAllssNode
vallss settings = record {
  common = common;
  tls = pos 0;
  tls_settings = record {
    server_name = [];
    dest = [];
    server_port = [];
    short_id = [];
    private_key = [];
    mldsa65_seed = [];
    xver = 0;
  };
  tls_settings_back = none;
  network = codes "tcp";
  network_settings = settings;
  network_settings_back = [];
  encryption = [];
  encryption_settings = record { mode = []; ticket = []; server_padding = []; private_key = [] };
  server_name = [];
  flow = [];
  reality_config = record {
    xver = 0;
    min_client_ver = [];
    max_client_ver = [];
    max_time_diff = [];
  };
}

abbrev vmess : Text → NodeInfo
vmess settings = record {
  id = pos 1;
  type = codes "vmess";
  security = pos 0;
  push_interval = pos 60;
  pull_interval = pos 60;
  raw_dns = record {
    dns_map = (codes "a", record { address = codes "x:1"; domains = [] }) ∷ [];
    dns_json = [];
  };
  rules = record { regexp = []; protocol = [] };
  vallss = some (vallss settings);
  shadowsocks = none;
  trojan = none;
  common = some common;
}

abbrev options : Options
options = record {
  name = [];
  core = codes "xray";
  core_name = [];
  listen_ip = codes "0.0.0.0";
  send_ip = [];
  device_online_min_traffic = pos 0;
  report_min_traffic = pos 0;
  limit_config = record {
    enable_realtime = false;
    speed_limit = pos 0;
    ip_limit = pos 0;
    enable_ip_recorder = false;
    enable_dynamic_speed_limit = false;
    dynamic_speed_limit_config =
        some
          (record { periodic = pos 0; traffic = pos 0; speed_limit = pos 0; expire_time = pos 0 });
  };
  xray_options = new_xray_options;
  cert_config = new_cert_config;
}

abbrev codecs : Codecs Text
codecs = record {
  unmarshal = λ json. some (some (record { sent = some json; accept_proxy_protocol = false }));
  random_hex = some (codes "ab");
  base64 = λ s. s;
  parse_duration = λ s. pos 0;
}

build_inbound-without_network_settings_example :
    build_inbound codecs made options none (vmess []) node_tag ≡ panicked
unfolding text_beq codes new_xray_options
build_inbound-without_network_settings_example =
    build_inbound-without_network_settings codecs made options none (vmess []) node_tag (vallss [])
      refl refl refl refl refl

abbrev inbound : InboundDetour Text
inbound = record {
  protocol = codes "vmess";
  settings = vmess_settings;
  stream_setting = some (record {
    network = codes "tcp";
    tcp_settings = some (record { sent = some (codes "{}"); accept_proxy_protocol = false });
    ws_settings = none;
    grpc_settings = none;
    httpupgrade_settings = none;
    socket_settings = none;
    security = [];
    tls_settings = none;
    reality_settings = none;
  });
  port_from = 443;
  port_to = 443;
  listen_on = codes "0.0.0.0";
  sniffing_enabled = true;
  tag = node_tag;
}

is_built : detour_of codecs options none (vmess (codes "{}")) node_tag ≡ made inbound
unfolding detour_of text_beq codes new_xray_options to_unsigned
is_built = refl

detour_of-made_example :
    (inbound.port_from ≡ 443)
    × (inbound.port_to ≡ 443)
    × (inbound.tag ≡ node_tag)
    × ((not ((vmess (codes "{}")).security == pos 1) || is_some {A = CertConfig} none) ≡ true)
detour_of-made_example =
    detour_of-made codecs options none (vmess (codes "{}")) node_tag inbound common 443 is_built
      refl refl (omega arith)

-- A file that takes no write, and a host that does not split.
abbrev system : DnsSystem Text
system = record {
  read_file = λ f. inr f;
  truncate = λ f. (f, none);
  write_file = λ dns f. (dns, none);
  unmarshal = λ dns. none;
  build = λ dns. none;
  indent = λ json. inr json;
  marshal = λ servers. inr (codes "dns");
  split_host_port =
      λ address. if address == codes "x:1" then inr (codes "x", codes "1") else inl (codes "bad");
  parse_port = λ port. some 1;
}

abbrev bad_dns : RawDns
bad_dns = record {
  dns_map = (codes "a", record { address = codes "::"; domains = [] }) ∷ [];
  dns_json = [];
}

update_dns_config-map_example :
    ((update_dns_config system bad_dns []).1 ≡ some (codes "bad"))
    ↔ IsUpdateError system bad_dns [] (codes "bad")
update_dns_config-map_example = update_dns_config-map system bad_dns [] (codes "bad")

-- A manager keeps the handlers by tag: it refuses a tag that it has, and one that it has not.
abbrev manager : Manager Text (Map Text Text)
manager = record {
  add_handler = λ handler m. elim (lookup handler m) [
    | none ↦ ((handler, handler) ∷ m, none)
    | some _ ↦ (m, some (codes "existing tag found"))
  ];
  remove_handler = λ tag m. elim (lookup tag m) [
    | none ↦ (m, some (codes "not found"))
    | some _ ↦ (delete tag m, none)
  ];
}

manager_removes :
    (handler : Text) (m : Map Text Text)
    → (manager.add_handler handler m).1 ≡ none
    → manager.remove_handler handler (manager.add_handler handler m).0 ≡ (m, none)
unfolding lookup delete
manager_removes handler m added = elim (Option-cases (lookup handler m)) [
  | inl absent ↦ ground (arith, absent, eq_refl handler, delete_absent handler m absent)
  | inr (_, known) ↦ ground (arith, known)
]

manager_refuses :
    (handler : Text) (m : Map Text Text)
    → (manager.add_handler handler (manager.add_handler handler m).0).1 ≢ none
unfolding lookup
manager_refuses handler m = elim (Option-cases (lookup handler m)) [
  | inl absent ↦ ground (arith, absent, eq_refl handler)
  | inr (_, known) ↦ ground (arith, known)
]

abbrev handlers : (Text → Made Text) → Handlers Text Text Text (Map Text Text) (Map Text Text) Text
handlers create = record {
  codecs = codecs;
  dns = system;
  build_in = λ d. made d.tag;
  create_in = made;
  build_out = λ d. made d.tag;
  create_out = create;
  inbounds = manager;
  outbounds = manager;
}

abbrev empty_core : XrayCore (Map Text Text) (Map Text Text) Text
empty_core = record { node_report_min_traffic_bytes = []; ihm = []; ohm = []; dns_file = [] }

del_node-add_node_example :
    let r =
      del_node
        (handlers made)
        node_tag
        (add_node (handlers made) node_tag (vmess (codes "{}")) options none empty_core).0 in
    (r.1 ≡ ok) × (r.0.ihm ≡ []) × (r.0.ohm ≡ [])
unfolding add_node update_dns_config codes text_beq build_inbound lookup
del_node-add_node_example =
    del_node-add_node (handlers made) (λ t. t) (λ t. t) node_tag (vmess (codes "{}")) options none
      empty_core (λ d i handler b e. ground arith) (λ d o handler b e. ground arith) manager_removes
      manager_removes refl

-- A core that cannot create the outbound.
add_node-leaves_inbound_example :
    let h = handlers (λ o. failed (codes "no")) in
    let c = (add_node h node_tag (vmess (codes "{}")) options none empty_core).0 in
    (c.ihm ≡ ((node_tag, node_tag) ∷ []))
    × ((add_node h node_tag (vmess (codes "{}")) options none c).1 ≢ ok)
unfolding update_dns_config codes text_beq build_inbound lookup
add_node-leaves_inbound_example =
    add_node-leaves_inbound (handlers (λ o. failed (codes "no"))) node_tag (vmess (codes "{}"))
      options none empty_core node_tag node_tag refl refl refl refl (manager_refuses node_tag)
