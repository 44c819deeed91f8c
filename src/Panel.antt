-- ===== src/Panel.antt =====
-- What the panel's API delivers and what is reported to it: the types of api/panel/node.go and
-- api/panel/user.go. A duration is an `int64` of nanoseconds; raw JSON is its bytes.
pub mod Routes
pub mod Client
mod Tests
use v2sp.Prelude.{nat_eq, ℤ, int_eq, pos, Map, Text, text_eq, ℕ, Option, List}

-- api/panel/user.go
pub record OnlineUser : Type 0 where
  pub uid : ℤ
  pub ip : Text

pub record UserInfo : Type 0 where
  pub id : ℤ
  pub uuid : Text
  pub speed_limit : ℤ
  pub device_limit : ℤ

pub record UserTraffic : Type 0 where
  pub uid : ℤ
  pub upload : ℤ
  pub download : ℤ

-- api/panel/node.go: the security modes.
abbrev pub none_security : ℤ
none_security = pos 0

abbrev pub tls_security : ℤ
tls_security = pos 1

abbrev pub reality_security : ℤ
reality_security = pos 2

pub record Route : Type 0 where
  pub id : ℤ
  pub matches : List Text
  pub action : Text
  pub action_value : Text

pub record BaseConfig : Type 0 where
  pub push_interval : ℤ
  pub pull_interval : ℤ

pub record CommonNode : Type 0 where
  pub host : Text
  pub server_port : ℤ
  pub server_name : Text
  pub routes : List Route
  pub base_config : Option BaseConfig

pub record TlsSettings : Type 0 where
  pub server_name : Text
  pub dest : Text
  pub server_port : Text
  pub short_id : Text
  pub private_key : Text
  pub mldsa65_seed : Text
  pub xver : ℕ

pub record EncSettings : Type 0 where
  pub mode : Text
  pub ticket : Text
  pub server_padding : Text
  pub private_key : Text

pub record RealityConfig : Type 0 where
  pub xver : ℕ
  pub min_client_ver : Text
  pub max_client_ver : Text
  pub max_time_diff : Text

pub record VAllssNode : Type 0 where
  pub common : CommonNode
  pub tls : ℤ
  pub tls_settings : TlsSettings
  pub tls_settings_back : Option TlsSettings
  pub network : Text
  pub network_settings : Text
  pub network_settings_back : Text
  pub encryption : Text
  pub encryption_settings : EncSettings
  pub server_name : Text
  pub flow : Text
  pub reality_config : RealityConfig

pub record ShadowsocksNode : Type 0 where
  pub common : CommonNode
  pub cipher : Text
  pub server_key : Text

pub record TrojanNode : Type 0 where
  pub common : CommonNode
  pub network : Text
  pub network_settings : Text

-- One entry of `RawDNS.DNSMap`: the keys "address" and "domains".
pub record DnsServer : Type 0 where
  pub address : Text
  pub domains : List Text

pub record RawDns : Type 0 where
  pub dns_map : Map Text DnsServer
  pub dns_json : Text

pub record Rules : Type 0 where
  pub regexp : List Text
  pub protocol : List Text

pub record NodeInfo : Type 0 where
  pub id : ℤ
  pub type : Text
  pub security : ℤ
  pub push_interval : ℤ
  pub pull_interval : ℤ
  pub raw_dns : RawDns
  pub rules : Rules
  pub vallss : Option VAllssNode
  pub shadowsocks : Option ShadowsocksNode
  pub trojan : Option TrojanNode
  pub common : Option CommonNode
