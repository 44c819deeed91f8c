-- ===== src/Conf.antt =====
-- conf/node.go, conf/limit.go, conf/cert.go and conf/xray.go: the options of a node that the program
-- reads.
use v2sp.Prelude.{
  nat_eq, ℤ, int_eq, Map, Text, codes, text_eq, ℕ, Bool, false, Option, none, List, [],
}

pub record DynamicSpeedLimitConfig : Type 0 where
  pub periodic : ℤ
  pub traffic : ℤ
  pub speed_limit : ℤ
  pub expire_time : ℤ

pub record LimitConfig : Type 0 where
  pub enable_realtime : Bool
  pub speed_limit : ℤ
  pub ip_limit : ℤ
  pub enable_ip_recorder : Bool
  pub enable_dynamic_speed_limit : Bool
  -- `none` is a nil pointer.
  pub dynamic_speed_limit_config : Option DynamicSpeedLimitConfig

pub record CertConfig : Type 0 where
  pub cert_mode : Text
  pub reject_unknown_sni : Bool
  pub cert_domain : Text
  pub cert_file : Text
  pub key_file : Text
  pub provider : Text
  pub email : Text
  pub dns_env : Map Text Text

pub record FallBackConfigForXray : Type 0 where
  pub sni : Text
  pub alpn : Text
  pub path : Text
  pub dest : Text
  pub proxy_protocol_ver : ℕ

pub record XrayOptions : Type 0 where
  pub enable_proxy_protocol : Bool
  pub enable_dns : Bool
  pub dns_type : Text
  pub enable_uot : Bool
  pub enable_tfo : Bool
  pub disable_iv_check : Bool
  pub disable_sniffing : Bool
  pub enable_fallback : Bool
  -- `none` is a nil slice.
  pub fall_back_configs : Option (List FallBackConfigForXray)

-- The pointers to the last two are set when the options are decoded: UnmarshalJSON stores
-- NewXrayOptions, and the node's decoding starts from NewCertConfig. A configuration that says null
-- for the certificate is left out; AddNode takes its certificate configuration as an `Option`.
pub record Options : Type 0 where
  pub name : Text
  pub core : Text
  pub core_name : Text
  pub listen_ip : Text
  pub send_ip : Text
  pub device_online_min_traffic : ℤ
  pub report_min_traffic : ℤ
  pub limit_config : LimitConfig
  pub xray_options : XrayOptions
  pub cert_config : CertConfig

-- conf.NewCertConfig and conf.NewXrayOptions
unfoldable pub new_cert_config : CertConfig
new_cert_config = record {
  cert_mode = codes "none";
  reject_unknown_sni = false;
  cert_domain = [];
  cert_file = [];
  key_file = [];
  provider = [];
  email = [];
  dns_env = [];
}

unfoldable pub new_xray_options : XrayOptions
new_xray_options = record {
  enable_proxy_protocol = false;
  enable_dns = false;
  dns_type = codes "AsIs";
  enable_uot = false;
  enable_tfo = false;
  disable_iv_check = false;
  disable_sniffing = false;
  enable_fallback = false;
  fall_back_configs = none;
}
