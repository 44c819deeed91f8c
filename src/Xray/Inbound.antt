-- ===== src/Xray/Inbound.antt =====
-- core/xray/inbound.go: the inbound of a node. The structures of xray-core's configuration are
-- records with the fields that are filled here; decoding the panel's transport settings, random bytes,
-- base64, parsing a duration and xray-core's own `Build` are parameters. Encoding these structures
-- does not fail.
pub mod Build
pub mod Laws
use v2sp.Prelude.{
  ltb, leb, nat_beq, if◌then◌else◌, ltb→lt, leb→le, nat_beq_iff, Bool-cases, Option-cases, Eq, ◌==◌,
  nat_eq, eq_refl, is_some, option_or, ℤ, pos_part, neg_part, sub_ℕ, ◌+ℤ◌, ◌-ℤ◌, ◌*ℤ◌, quot, ◌≤ℤ◌,
  ◌<ℤ◌, ltb_ℤ, leb_ℤ, int_beq, int_beq_iff, int_eq, wrap64, IsInt64, wrap64_fits, wrap64-IsInt64,
  to_unsigned, pos, negsuc, length, is_empty, get_elem?, set, length-append, get_elem?-set_self,
  get_elem?-set_ne, get_elem?-lt, get_elem?-append_end, get_elem?-append_lt, get_elem?-end,
  set-same, get_elem?-of_lt, All, contains, contains-append, Map, lookup, insert, delete, Distinct,
  lookup-insert, lookup-delete, lookup-insert_self, lookup-delete_self, length-insert,
  insert-Distinct, delete-Distinct, delete_absent, length-delete, Text, codes, text_beq,
  text_beq_iff, text_eq, starts_with, drop, size, trim_prefix, ends_with, contains_byte, lower_byte,
  to_lower, digits_from, itoa, ℕ, zero, suc, ◌+◌, ◌-◌, ◌*◌, ◌/◌, ◌%◌, ◌^◌, ◌≤◌, ◌<◌, ◌≡◌, refl, sym,
  ap, ◌∙◌, ◌≢◌, ◌↔◌, ◌⊎◌, inl, inr, Bool, true, false, not, ◌&&◌, ◌||◌, Option, none, some, List,
  [], ◌∷◌, ◌++◌, map, arith,
}
use v2sp.Panel.{
  NodeInfo, VAllssNode, TrojanNode, ShadowsocksNode, CommonNode, tls_security, reality_security,
}
use v2sp.Panel
use v2sp.Conf.{Options, XrayOptions, CertConfig, FallBackConfigForXray}

-- A result, an error, or a nil pointer that is followed.
pub data Made (A : Type 0) : Type 0 where
  made : A → Made A
  failed : Text → Made A
  panicked : Made A

infixl 5 ◌>>=◌
abbrev pub ◌>>=◌ : {A B : Type 0} → Made A → (A → Made B) → Made B
made a >>= f = f a
failed e >>= f = failed e
panicked >>= f = panicked

-- A pointer that is followed without a test.
abbrev pub follow : {A : Type 0} → Option A → Made A
follow none = panicked
follow (some a) = made a

pub record Fallback : Type 0 where
  pub name : Text
  pub alpn : Text
  pub path : Text
  pub dest : Text
  pub xver : ℕ

pub data InboundSettings : Type 0 where
  no_settings : InboundSettings
  vless_settings : Text → List Fallback → InboundSettings
  vmess_settings : InboundSettings
  -- Without fallbacks the settings are an empty object.
  trojan_settings : List Fallback → InboundSettings
  -- The cipher, the password, the cipher and the password of the default user, and the IV check.
  shadowsocks_settings : Text → Text → Text → Text → Bool → InboundSettings

-- The settings of a transport: what the panel sent, if anything, and the field that is set here.
pub record Transport (S : Type 0) : Type 0 where
  pub sent : Option S
  pub accept_proxy_protocol : Bool

pub record TlsConfig : Type 0 where
  pub cert_file : Text
  pub key_file : Text
  pub reject_unknown_sni : Bool

pub record RealityConfig : Type 0 where
  pub dest : Text
  pub xver : ℕ
  pub server_name : Text
  pub private_key : Text
  pub min_client_ver : Text
  pub max_client_ver : Text
  pub max_time_diff : ℕ
  pub short_id : Text
  pub mldsa65_seed : Text

pub record StreamConfig (S : Type 0) : Type 0 where
  pub network : Text
  pub tcp_settings : Option (Transport S)
  pub ws_settings : Option (Transport S)
  pub grpc_settings : Option (Transport S)
  pub httpupgrade_settings : Option (Transport S)
  -- The proxy protocol and TFO.
  pub socket_settings : Option (Bool × Bool)
  pub security : Text
  pub tls_settings : Option TlsConfig
  pub reality_settings : Option RealityConfig

pub record InboundDetour (S : Type 0) : Type 0 where
  pub protocol : Text
  pub settings : InboundSettings
  pub stream_setting : Option (StreamConfig S)
  pub port_from : ℕ
  pub port_to : ℕ
  pub listen_on : Text
  pub sniffing_enabled : Bool
  pub tag : Text

-- `unmarshal`: none is an error, `some none` the JSON null. `random_hex`: 32 random bytes in hex, none
-- for an error.
pub record Codecs (S : Type 0) : Type 0 where
  pub unmarshal : Text → Option (Option (Transport S))
  pub random_hex : Option Text
  pub base64 : Text → Text
  pub parse_duration : Text → ℤ

-- The loop that both builders of fallbacks have.
unfoldable pub fallbacks_of : List FallBackConfigForXray → Made (List Fallback)
fallbacks_of [] = made []
fallbacks_of (c ∷ rest) =
    if is_empty c.dest then failed (codes "dest is required for fallback fialed") else (do
      later ← fallbacks_of rest
      made (
          record {
            name = c.sni;
            alpn = c.alpn;
            path = c.path;
            dest = c.dest;
            xver = c.proxy_protocol_ver;
          }
          ∷ later))

unfoldable pub build_vless_fallbacks : Option (List FallBackConfigForXray) → Made (List Fallback)
unfolding fallbacks_of
build_vless_fallbacks none = failed (codes "you must provide FallBackConfigs")
build_vless_fallbacks (some configs) = fallbacks_of configs

unfoldable pub build_trojan_fallbacks : Option (List FallBackConfigForXray) → Made (List Fallback)
unfolding fallbacks_of
build_trojan_fallbacks none = failed (codes "you must provide FallBackConfigs")
build_trojan_fallbacks (some configs) = fallbacks_of configs

unfoldable pub join_dots : List Text → Text
join_dots [] = []
join_dots (part ∷ []) = part
join_dots (part ∷ next ∷ rest) = part ++ (b'.' ∷ join_dots (next ∷ rest))

-- The decryption of a vless node.
unfoldable pub vless_decryption : VAllssNode → Made Text
unfolding join_dots
vless_decryption v =
    let e = v.encryption in
    let settings = v.encryption_settings in
    if is_empty e
    then made (codes "none")
    else if e == codes "none" || e == codes "aes-128-gcm" || e == codes "chacha20-poly1305"
    then made e
    else if e == codes "mlkem768x25519plus"
    then made (
        join_dots (
          (codes "mlkem768x25519plus" ∷ settings.mode ∷ settings.ticket ∷ [])
          ++ (if is_empty settings.server_padding then [] else settings.server_padding ∷ [])
          ++ (settings.private_key ∷ [])))
    else failed (codes "vless decryption method " ++ e ++ codes " is not support")

module _ {S : Type 0} where
  unfoldable pub new_stream : Text → StreamConfig S
  new_stream network = record {
    network = network;
    tcp_settings = none;
    ws_settings = none;
    grpc_settings = none;
    httpupgrade_settings = none;
    socket_settings = none;
    security = [];
    tls_settings = none;
    reality_settings = none;
  }

  unfoldable pub new_inbound : InboundDetour S
  new_inbound = record {
    protocol = [];
    settings = no_settings;
    stream_setting = none;
    port_from = 0;
    port_to = 0;
    listen_on = [];
    sniffing_enabled = false;
    tag = [];
  }

  module _ (k : Codecs S) where
    -- `json.Unmarshal` into one of the transports.
    unfoldable pub decode_transport : Text → Text → Made (Option (Transport S))
    decode_transport name json = elim (k.unmarshal json) [
      | none ↦ failed (codes "unmarshal " ++ name ++ codes " settings error: ")
      | some settings ↦ made settings
    ]

    -- The switch over the network of `buildTrojan`; `buildV2ray` has one case more.
    unfoldable pub read_transport : Bool → Text → Text → Made (StreamConfig S)
    unfolding decode_transport new_stream
    read_transport has_httpupgrade network json =
        let stream : StreamConfig S = new_stream network in
        if network == codes "tcp"
        then (do t ← decode_transport network json; made (record stream { tcp_settings = t }))
        else if network == codes "ws"
        then (do t ← decode_transport network json; made (record stream { ws_settings = t }))
        else if network == codes "grpc"
        then (do t ← decode_transport network json; made (record stream { grpc_settings = t }))
        else if has_httpupgrade && network == codes "httpupgrade"
        then (do
          t ← decode_transport network json
          made (record stream { httpupgrade_settings = t }))
        else failed (codes "the network type is not vail")
