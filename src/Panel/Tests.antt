-- ===== src/Panel/Tests.antt =====
-- The theorems on the panel client at concrete answers.
use v2sp.Prelude.{
  nat_eq, is_some, int_eq, pos, codes, text_beq, text_eq, lower_byte, to_lower, ◌*◌, ◌^◌, ◌≡◌, refl,
  false, none, some, [], ◌∷◌,
}
use v2sp.Panel.{NodeInfo, Route, CommonNode}
use v2sp.Panel.Routes.{Parsed, parse_routes, is_bad_dns, any_bad_dns, parse_routes-panics}
use v2sp.Panel.Client.{
  Client, Response, Decoders, get_node_info, decode_node, finish_node, detect_type, check_response,
  push_interval_of, pull_interval_of,
}
use v2sp.Panel.Client.Answers.{HasParts, get_node_info-parts}

abbrev block_route : Route
block_route = record {
  id = pos 1;
  matches = codes "protocol:bt" ∷ codes "regexp:x" ∷ [];
  action = codes "block";
  action_value = [];
}

abbrev bad_route : Route
bad_route = record { id = pos 2; matches = []; action = codes "dns"; action_value = [] }

abbrev nothing : Parsed
nothing = record {
  rules = record { regexp = []; protocol = [] };
  raw_dns = record { dns_map = []; dns_json = [] };
}

abbrev blocking : Parsed
blocking = record nothing { rules = record { regexp = codes "x" ∷ []; protocol = codes "bt" ∷ [] } }

parse_routes_panics_example :
    is_some (parse_routes 0 (block_route ∷ bad_route ∷ []) nothing) ≡ false
unfolding any_bad_dns is_bad_dns codes text_beq
parse_routes_panics_example = parse_routes-panics 0 (block_route ∷ bad_route ∷ []) nothing

abbrev common : CommonNode
common = record {
  host = [];
  server_port = pos 443;
  server_name = [];
  routes = [];
  base_config = none;
}

abbrev decoders : Decoders
decoders = record {
  node_type = λ body. some (codes "trojan");
  vallss = λ body. none;
  shadowsocks = λ body. none;
  trojan = λ body. some (record { common = common; network = []; network_settings = [] });
  users = λ body. none;
  alive = λ body. none;
}

abbrev client : Client
client = record {
  api_host = codes "h";
  node_type = [];
  node_id = pos 7;
  node_etag = [];
  user_etag = [];
}

abbrev answer : Response
answer = record { status = 200; etag = codes "e"; body = [] }

abbrev trojan_node : NodeInfo
trojan_node = record {
  id = pos 7;
  type = codes "trojan";
  security = pos 1;
  push_interval = pos (60 * 10 ^ 9);
  pull_interval = pos (60 * 10 ^ 9);
  raw_dns = nothing.raw_dns;
  rules = nothing.rules;
  vallss = none;
  shadowsocks = none;
  trojan = some (record { common = common; network = []; network_settings = [] });
  common = some common;
}

get_node_info_parts_example :
    (pos 7 ≡ pos 7)
    × (codes "trojan" ≡ (get_node_info decoders answer none client).0.node_type)
    × (codes "trojan" ≡ codes "trojan")
    × HasParts (codes "trojan") trojan_node
unfolding get_node_info detect_type decode_node finish_node parse_routes codes text_beq to_lower
    lower_byte check_response push_interval_of pull_interval_of
get_node_info_parts_example = get_node_info-parts decoders answer none client trojan_node refl
