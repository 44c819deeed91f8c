-- ===== src/Xray/Inbound/Build.antt =====
-- core/xray/inbound.go: `buildV2ray`, `buildTrojan`, `buildShadowsocks` and `buildInbound`. The
-- address to listen on is kept as its text; the protocols to override are always http and tls.
use v2sp.Prelude.{
  nat_beq, if◌then◌else◌, ◌==◌, nat_eq, quot, int_eq, to_unsigned, is_empty, Text, codes, text_eq,
  Bool, true, false, not, ◌||◌, Option, none, some, [], ◌∷◌, ◌++◌,
}
use v2sp.Panel.{NodeInfo, VAllssNode, TrojanNode, ShadowsocksNode, tls_security, reality_security}
use v2sp.Conf.{Options, XrayOptions, CertConfig}
use v2sp.Xray.Inbound.{
  Made, made, failed, ◌>>=◌, follow, vless_settings, vmess_settings, trojan_settings,
  shadowsocks_settings, Transport, RealityConfig, StreamConfig, InboundDetour, Codecs,
  build_vless_fallbacks, build_trojan_fallbacks, vless_decryption, new_stream, new_inbound,
  read_transport,
}

module _ {S : Type 0} (k : Codecs S) where
  -- The part of `buildV2ray` before the transport.
  unfoldable pub v2ray_protocol : XrayOptions → NodeInfo → VAllssNode → Made (InboundDetour S)
  unfolding build_vless_fallbacks vless_decryption new_inbound
  v2ray_protocol options info v =
      let inbound : InboundDetour S = new_inbound in
      if info.type == codes "vless"
      then if options.enable_fallback
        then (do
          fallbacks ← build_vless_fallbacks options.fall_back_configs
          made (record inbound {
            protocol = codes "vless";
            settings = vless_settings (codes "none") fallbacks;
          }))
        else (do
          decryption ← vless_decryption v
          made (record inbound {
            protocol = codes "vless";
            settings = vless_settings decryption [];
          }))
      else made (record inbound { protocol = codes "vmess"; settings = vmess_settings })

  unfoldable pub build_v2ray : XrayOptions → NodeInfo → VAllssNode → Made (InboundDetour S)
  unfolding v2ray_protocol read_transport
  build_v2ray options info v = do
    inbound ← v2ray_protocol options info v
    if is_empty v.network_settings then made inbound else (do
      stream ← read_transport k true v.network v.network_settings
      made (record inbound { stream_setting = some stream }))

  unfoldable pub trojan_network : TrojanNode → Text
  trojan_network v = if is_empty v.network then codes "tcp" else v.network

  unfoldable pub build_trojan : XrayOptions → TrojanNode → Made (InboundDetour S)
  unfolding build_trojan_fallbacks new_inbound trojan_network read_transport
  build_trojan options v = do
    fallbacks ←
        if options.enable_fallback
        then build_trojan_fallbacks options.fall_back_configs
        else made []
    stream ← read_transport k false (trojan_network v) v.network_settings
    let inbound : InboundDetour S = new_inbound in
        made (record inbound {
          protocol = codes "trojan";
          settings = trojan_settings fallbacks;
          stream_setting = some stream;
        })

  unfoldable pub build_shadowsocks : XrayOptions → ShadowsocksNode → Made (InboundDetour S)
  unfolding new_inbound new_stream
  build_shadowsocks options s = elim k.random_hex [
    | none ↦ failed (codes "generate random password error: ")
    | some password ↦
        let inbound : InboundDetour S = new_inbound in
        let keyed = not (is_empty s.server_key) in
        made (record inbound {
          protocol = codes "shadowsocks";
          settings =
              shadowsocks_settings s.cipher s.server_key (if keyed then [] else s.cipher)
                (if keyed then k.base64 password else password) (not options.disable_iv_check);
          stream_setting = some (new_stream (codes "tcp"));
        })
  ]

  -- The switch over the type of the node: the inbound and its network.
  unfoldable pub build_protocol : XrayOptions → NodeInfo → Made (InboundDetour S × Text)
  unfolding build_v2ray build_trojan build_shadowsocks trojan_network
  build_protocol options info =
      if info.type == codes "vmess" || info.type == codes "vless"
      then (do
        v ← follow info.vallss
        inbound ← build_v2ray options info v
        made (inbound, v.network))
      else if info.type == codes "trojan"
      then (do
        v ← follow info.trojan
        inbound ← build_trojan options v
        made (inbound, trojan_network v))
      else if info.type == codes "shadowsocks"
      then (do
        s ← follow info.shadowsocks
        inbound ← build_shadowsocks options s
        made (inbound, codes "tcp"))
      else failed (
          codes "unsupported node type: "
          ++ info.type
          ++ codes ", Only support: V2ray, Trojan, Shadowsocks")

  -- A pointer to a transport's settings, with the proxy protocol set.
  unfoldable pub accepting : Bool → Option (Transport S) → Option (Transport S)
  accepting accept none = some (record { sent = none; accept_proxy_protocol = accept })
  accepting accept (some t) = some (record t { accept_proxy_protocol = accept })

  -- The switch over the network in `buildInbound`.
  unfoldable pub set_socket : XrayOptions → Text → StreamConfig S → StreamConfig S
  unfolding accepting
  set_socket options network stream =
      if network == codes "tcp"
      then record stream {
        tcp_settings = accepting options.enable_proxy_protocol stream.tcp_settings;
      }
      else if network == codes "ws"
      then record stream {
        ws_settings = accepting options.enable_proxy_protocol stream.ws_settings;
      }
      else record stream {
        socket_settings = some (options.enable_proxy_protocol, options.enable_tfo);
      }

  -- The reality settings.
  unfoldable pub reality_config : VAllssNode → RealityConfig
  reality_config v =
      let tls = v.tls_settings in
      let reality = v.reality_config in
      let dest = if is_empty tls.dest then tls.server_name else tls.dest in
      record {
        dest = dest ++ (b':' ∷ tls.server_port);
        xver = if nat_beq tls.xver 0 then reality.xver else tls.xver;
        server_name = tls.server_name;
        private_key = tls.private_key;
        min_client_ver = reality.min_client_ver;
        max_client_ver = reality.max_client_ver;
        max_time_diff = to_unsigned 64 (quot (k.parse_duration reality.max_time_diff) 1000);
        short_id = tls.short_id;
        mldsa65_seed = tls.mldsa65_seed;
      }

  -- The switch over the security; `cert_config` is `option.CertConfig`, which may be nil.
  unfoldable pub set_security :
      Option CertConfig → NodeInfo → StreamConfig S → Made (StreamConfig S)
  unfolding reality_config
  set_security cert_config info stream =
      if info.security == tls_security
      then elim cert_config [
        | none ↦ failed (codes "the CertConfig is not vail")
        | some cert ↦
            if cert.cert_mode == codes "none" || is_empty cert.cert_mode
            then made stream
            else made (record stream {
              security = codes "tls";
              tls_settings = some (record {
                cert_file = cert.cert_file;
                key_file = cert.key_file;
                reject_unknown_sni = cert.reject_unknown_sni;
              });
            })
      ]
      else if info.security == reality_security
      then (do
        v ← follow info.vallss
        made (record stream {
          security = codes "reality";
          reality_settings = some (reality_config v);
        }))
      else made stream

  -- `buildInbound` up to `in.Build()`.
  unfoldable pub detour_of : Options → Option CertConfig → NodeInfo → Text → Made (InboundDetour S)
  unfolding build_protocol set_socket set_security
  detour_of option cert_config info tag = do
    (inbound, network) ← build_protocol option.xray_options info
    common ← follow info.common
    stream ← follow inbound.stream_setting
    stream' ← set_security cert_config info (set_socket option.xray_options network stream)
    made (record inbound {
      port_from = to_unsigned 32 common.server_port;
      port_to = to_unsigned 32 common.server_port;
      listen_on = option.listen_ip;
      sniffing_enabled = not option.xray_options.disable_sniffing;
      stream_setting = some stream';
      tag = tag;
    })

  -- `buildInbound`; `build` is the method of xray-core.
  unfoldable pub build_inbound :
      {I : Type 0}
      → (InboundDetour S → Made I)
      → Options
      → Option CertConfig
      → NodeInfo
      → Text
      → Made I
  unfolding detour_of
  build_inbound build option cert_config info tag = do
    inbound ← detour_of option cert_config info tag
    build inbound
