-- ===== src/Panel/Client.antt =====
-- The panel client: api/panel/panel.go, utils.go, user.go and GetNodeInfo of node.go. What the HTTP
-- client (github.com/go-resty/resty) brings back is an argument of each call; decoding JSON and the
-- decoded values are parameters.
pub mod Answers
use v2sp.Prelude.{
  leb, if◌then◌else◌, ◌==◌, nat_eq, option_or, ℤ, ◌*ℤ◌, ltb_ℤ, int_eq, wrap64, pos, is_empty, Map,
  insert, Text, codes, text_eq, ends_with, contains_byte, to_lower, ℕ, ◌*◌, ◌^◌, not, ◌&&◌, ◌||◌,
  Option, none, some, List, [], ◌∷◌, ◌++◌,
}
use v2sp.Panel.{
  NodeInfo, CommonNode, BaseConfig, Route, VAllssNode, TlsSettings, ShadowsocksNode, TrojanNode,
  UserInfo, UserTraffic, none_security, tls_security, RawDns, Rules,
}
use v2sp.Panel.Routes.{Parsed, parse_routes}

pub record Client : Type 0 where
  pub api_host : Text
  pub node_type : Text
  pub node_id : ℤ
  pub node_etag : Text
  pub user_etag : Text

pub record Response : Type 0 where
  pub status : ℕ
  pub etag : Text
  pub body : Text

-- What a call of the client comes to. A panic of the program is a result of its own.
pub data Fetched (A : Type 0) : Type 0 where
  unchanged : Fetched A
  fetched : A → Fetched A
  failed : Text → Fetched A
  panicked : Fetched A

-- `New`: the type of the node as the client keeps it; an empty one is found out later.
unfoldable pub normal_node_type : Text → Option Text
normal_node_type raw =
    let node_type = to_lower raw in
    if node_type == codes "v2ray"
    then some (codes "vmess")
    else if node_type == []
        || (node_type == codes "vmess"
            || (node_type == codes "trojan"
                || (node_type == codes "shadowsocks" || node_type == codes "vless")))
    then some node_type
    else none

unfoldable pub new_client : Text → Text → ℤ → Fetched Client
new_client api_host raw_type node_id = elim (normal_node_type raw_type) [
  | none ↦ failed (codes "unsupported Node type: " ++ raw_type)
  | some node_type ↦ fetched (record {
    api_host = api_host;
    node_type = node_type;
    node_id = node_id;
    node_etag = [];
    user_etag = [];
  })
]

unfoldable pub separator : Text → Text
separator host =
    let last = ends_with (b'?' ∷ []) host || ends_with (b'&' ∷ []) host in
    if contains_byte b'?' host && not last then b'&' ∷ [] else if last then [] else b'?' ∷ []

unfoldable pub assemble_url : Text → Text → Text
assemble_url host action =
    if is_empty action then host else host ++ separator host ++ codes "action=" ++ action

-- `checkResponse`: the error, if any. `err` is the transport's.
unfoldable pub check_response : Client → Response → Text → Option Text → Option Text
check_response c res action (some err) =
    some (codes "request " ++ assemble_url c.api_host action ++ codes " failed: " ++ err)
check_response c res action none =
    if leb 400 res.status
    then some (codes "request " ++ assemble_url c.api_host action ++ codes " failed: " ++ res.body)
    else none

pub record Decoders : Type 0 where
  pub node_type : Text → Option Text
  pub vallss : Text → Option VAllssNode
  pub shadowsocks : Text → Option ShadowsocksNode
  pub trojan : Text → Option TrojanNode
  pub users : Text → Option (List UserInfo)
  pub alive : Text → Option (Option (Map ℤ ℤ))

-- One interval of the base configuration, in nanoseconds; 60 seconds where it is not positive.
unfoldable pub interval_of : ℤ → ℤ
interval_of n = if ltb_ℤ (pos 0) n then wrap64 (n *ℤ pos (10 ^ 9)) else pos (60 * 10 ^ 9)

unfoldable pub push_interval_of : Option BaseConfig → ℤ
push_interval_of none = pos (60 * 10 ^ 9)
push_interval_of (some b) = interval_of b.push_interval

unfoldable pub pull_interval_of : Option BaseConfig → ℤ
pull_interval_of none = pos (60 * 10 ^ 9)
pull_interval_of (some b) = interval_of b.pull_interval

-- The node with its protocol's part and the common part of that, before the routes are read.
pub record Decoded : Type 0 where
  pub security : ℤ
  pub vallss : Option VAllssNode
  pub shadowsocks : Option ShadowsocksNode
  pub trojan : Option TrojanNode
  pub common : CommonNode

-- The `Back` fields, where they are set, take the place of the others.
unfoldable pub merge_back : VAllssNode → VAllssNode
merge_back v =
    let v1 =
      if is_empty v.network_settings_back
      then v
      else record v { network_settings = v.network_settings_back; network_settings_back = [] } in
    elim v1.tls_settings_back [
      | none ↦ v1
      | some t ↦ record v1 { tls_settings = t; tls_settings_back = none }
    ]

module _ (d : Decoders) where
  -- The switch over the node's type.
  unfoldable pub decode_node : Text → Text → Fetched Decoded
  unfolding merge_back
  decode_node node_type body =
      if node_type == codes "vmess" || node_type == codes "vless"
      then elim (d.vallss body) [
        | none ↦ failed (codes "decode v2ray params error")
        | some rsp ↦
            let v = merge_back rsp in
            fetched (record {
              security = v.tls;
              vallss = some v;
              shadowsocks = none;
              trojan = none;
              common = v.common;
            })
      ]
      else if node_type == codes "shadowsocks"
      then elim (d.shadowsocks body) [
        | none ↦ failed (codes "decode shadowsocks params error")
        | some rsp ↦ fetched (record {
          security = none_security;
          vallss = none;
          shadowsocks = some rsp;
          trojan = none;
          common = rsp.common;
        })
      ]
      else if node_type == codes "trojan"
      then elim (d.trojan body) [
        | none ↦ failed (codes "decode trojan params error")
        | some rsp ↦ fetched (record {
          security = tls_security;
          vallss = none;
          shadowsocks = none;
          trojan = some rsp;
          common = rsp.common;
        })
      ]
      else failed (codes "unsupported node type: " ++ node_type)

  -- The routes and the intervals; the routes and the base configuration are then cleared.
  unfoldable pub finish_node : ℤ → Text → Decoded → Fetched NodeInfo
  finish_node id node_type n =
      let start : Parsed = record {
        rules = record { regexp = []; protocol = [] };
        raw_dns = record { dns_map = []; dns_json = [] };
      } in
      elim (parse_routes 0 n.common.routes start) [
        | none ↦ panicked
        | some p ↦ fetched (record {
          id = id;
          type = node_type;
          security = n.security;
          push_interval = push_interval_of n.common.base_config;
          pull_interval = pull_interval_of n.common.base_config;
          raw_dns = p.raw_dns;
          rules = p.rules;
          vallss = n.vallss;
          shadowsocks = n.shadowsocks;
          trojan = n.trojan;
          common = some (record n.common { routes = []; base_config = none });
        })
      ]

  -- The type that the client knows, or the one that the answer names.
  unfoldable pub detect_type : Client → Text → Fetched Text
  detect_type c body =
      if is_empty c.node_type
      then elim (d.node_type body) [
        | none ↦ failed (codes "failed to detect node_type")
        | some t ↦
            let lowered = to_lower t in
            if is_empty lowered
            then failed (codes "node_type not found in API response")
            else fetched lowered
      ]
      else fetched c.node_type

  unfoldable pub get_node_info : Response → Option Text → Client → Client × Fetched NodeInfo
  unfolding decode_node finish_node detect_type check_response
  get_node_info r err c =
      let c1 = record c { node_etag = r.etag } in
      let answer : Client × Fetched NodeInfo = elim (check_response c1 r (codes "config") err) [
        | some e ↦ (c1, failed e)
        | none ↦ elim (detect_type c1 r.body) [
          | unchanged ↦ (c1, unchanged)
          | panicked ↦ (c1, panicked)
          | failed e ↦ (c1, failed e)
          | fetched node_type ↦
              let c2 = record c1 { node_type = node_type } in
              elim (decode_node node_type r.body) [
                | unchanged ↦ (c2, unchanged)
                | panicked ↦ (c2, panicked)
                | failed e ↦ (c2, failed e)
                | fetched n ↦ (c2, finish_node c2.node_id node_type n)
              ]
        ]
      ] in
      if r.status == 304 then (c, unchanged) else answer

  unfoldable pub get_user_list : Response → Option Text → Client → Client × Fetched (List UserInfo)
  unfolding check_response
  get_user_list r (some err) c = (c, failed (codes "request failed: " ++ err))
  get_user_list r none c =
      if r.status == 304 then (c, unchanged) else elim (check_response c r (codes "user") none) [
        | some e ↦ (c, failed e)
        | none ↦ elim (d.users r.body) [
          | none ↦ (c, failed (codes "decode user list error"))
          | some users ↦ (record c { user_etag = r.etag }, fetched users)
        ]
      ]

  -- It never fails: what cannot be had is an empty map.
  unfoldable pub get_user_alive : Response → Option Text → Option (Map ℤ ℤ)
  get_user_alive r (some err) = some []
  get_user_alive r none = if leb 399 r.status then some [] else option_or (d.alive r.body) (some [])

-- The body that `ReportUserTraffic` posts: the last entry of each uid.
unfoldable pub traffic_data : List UserTraffic → Map ℤ (List ℤ) → Map ℤ (List ℤ)
traffic_data [] m = m
traffic_data (t ∷ ts) m = traffic_data ts (insert t.uid (t.upload ∷ t.download ∷ []) m)
