-- ===== src/Xray/Inbound/Laws.antt =====
-- What an inbound is built with, and the nodes that core/xray/inbound.go panics on.
use v2sp.Prelude.{
  if◌then◌else◌, Bool-cases, Option-cases, ◌==◌, nat_eq, is_some, int_eq, to_unsigned, pos,
  is_empty, Text, codes, text_eq, ℕ, ◌^◌, ◌<◌, ◌≡◌, refl, inl, inr, Bool, true, false, not, ◌&&◌,
  ◌||◌, Option, none, some, List, [], ◌∷◌, map, arith,
}
use v2sp.Panel.{NodeInfo, VAllssNode, CommonNode, tls_security}
use v2sp.Conf.{Options, XrayOptions, CertConfig, FallBackConfigForXray}
use v2sp.Xray.Inbound.{
  vless_settings, vmess_settings, vless_decryption, Made, made, failed, panicked, ◌>>=◌, follow,
  Fallback, StreamConfig, InboundDetour, Codecs, fallbacks_of, build_vless_fallbacks,
  build_trojan_fallbacks, new_inbound,
}
use v2sp.Xray.Inbound.Build.{
  v2ray_protocol, build_v2ray, build_protocol, set_security, detour_of, build_inbound,
}

abbrev pub fallback_of : FallBackConfigForXray → Fallback
fallback_of c = record {
  name = c.sni;
  alpn = c.alpn;
  path = c.path;
  dest = c.dest;
  xver = c.proxy_protocol_ver;
}

abbrev pub have_dest : List FallBackConfigForXray → Bool
have_dest [] = true
have_dest (c ∷ rest) = not (is_empty c.dest) && have_dest rest

fallbacks_of_lem :
    (configs : List FallBackConfigForXray)
    → fallbacks_of configs ≡ (
        if have_dest configs
        then made (map fallback_of configs)
        else failed (codes "dest is required for fallback fialed"))
unfolding fallbacks_of
fallbacks_of_lem [] = refl
fallbacks_of_lem (c ∷ rest) = elim (Bool-cases (is_empty c.dest)) [
  | inl h ↦ rw (h)
  | inr h ↦ rw (h, fallbacks_of_lem rest) (ground arith)
]

-- The fallbacks of a vless and of a trojan inbound: one for each configured, in order and field by
-- field, if there is a list and each of them has a destination, and an error otherwise.
pub build_fallbacks_lem :
    (configs : Option (List FallBackConfigForXray))
    → (build_vless_fallbacks configs ≡ elim configs [
      | none ↦ failed (codes "you must provide FallBackConfigs")
      | some cs ↦
          if have_dest cs
          then made (map fallback_of cs)
          else failed (codes "dest is required for fallback fialed")
    ])
      × (build_trojan_fallbacks configs ≡ build_vless_fallbacks configs)
unfolding build_vless_fallbacks build_trojan_fallbacks
build_fallbacks_lem none = (refl, refl)
build_fallbacks_lem (some cs) = (fallbacks_of_lem cs, refl)

module _ {S : Type 0} (k : Codecs S) where
  v2ray_protocol-unset :
      (options : XrayOptions) (info : NodeInfo) (v : VAllssNode)
      → options.enable_fallback ≡ false
      → v.encryption ≡ []
      → (i : InboundDetour S) × (v2ray_protocol k options info v ≡ made i)
        × (i.stream_setting ≡ none)
  unfolding v2ray_protocol new_inbound vless_decryption
  v2ray_protocol-unset options info v fallback encryption =
      elim (Bool-cases (info.type == codes "vless")) [
        | inl h ↦ (
          record (new_inbound {S = S}) {
            protocol = codes "vless";
            settings = vless_settings (codes "none") [];
          },
          rw (v2ray_protocol, h, fallback, vless_decryption, encryption),
          refl,
        )
        | inr h ↦ (
          record (new_inbound {S = S}) { protocol = codes "vmess"; settings = vmess_settings },
          rw (v2ray_protocol, h),
          refl,
        )
      ]

  detour_of-unset :
      (option : Options) (cert_config : Option CertConfig) (info : NodeInfo) (tag : Text)
      (i : InboundDetour S) (network : Text)
      → build_protocol k option.xray_options info ≡ made (i, network)
      → i.stream_setting ≡ none
      → detour_of k option cert_config info tag ≡ panicked
  unfolding detour_of
  detour_of-unset option cert_config info tag i network h unset = elim (Option-cases info.common) [
    | inl none_common ↦ rw (detour_of, h, none_common)
    | inr (c, some_common) ↦ rw (detour_of, h, some_common, unset)
  ]

  build_protocol-unset :
      (options : XrayOptions) (info : NodeInfo) (v : VAllssNode) (i : InboundDetour S)
      → (info.type == codes "vmess" || info.type == codes "vless") ≡ true
      → info.vallss ≡ some v
      → is_empty v.network_settings ≡ true
      → v2ray_protocol k options info v ≡ made i
      → build_protocol k options info ≡ made (i, v.network)
  unfolding build_protocol build_v2ray
  build_protocol-unset options info v i type vallss settings h =
      simp (build_protocol, type, vallss, build_v2ray, h, settings)

  -- The bug: a vmess or vless node for which the panel sends no transport settings has no stream
  -- settings, and the pointer to them is followed: without fallbacks and without an encryption the
  -- call panics, whatever xray-core would build.
  pub build_inbound-without_network_settings :
      {I : Type 0} (build : InboundDetour S → Made I) (option : Options)
      (cert_config : Option CertConfig) (info : NodeInfo) (tag : Text) (v : VAllssNode)
      → (info.type == codes "vmess" || info.type == codes "vless") ≡ true
      → info.vallss ≡ some v
      → v.network_settings ≡ []
      → option.xray_options.enable_fallback ≡ false
      → v.encryption ≡ []
      → build_inbound k build option cert_config info tag ≡ panicked
  unfolding build_inbound build_protocol build_v2ray
  build_inbound-without_network_settings build option cert_config info tag v type vallss settings
        fallback encryption =
      let (i, h, unset) = v2ray_protocol-unset option.xray_options info v fallback encryption in
      let built = build_protocol-unset option.xray_options info v i type vallss (rw settings) h in
      rw (build_inbound, detour_of-unset option cert_config info tag i v.network built unset)

  bind-made :
      {A B : Type 0} (m : Made A) (f : A → Made B) (b : B)
      → (m >>= f) ≡ made b
      → (a : A) × (m ≡ made a) × (f a ≡ made b)
  bind-made (made a) f b h = (a, refl, h)
  bind-made (failed e) f b h = ground arith
  bind-made panicked f b h = ground arith

  set_security-cert :
      (cert_config : Option CertConfig) (info : NodeInfo) (s s' : StreamConfig S)
      → set_security k cert_config info s ≡ made s'
      → (not (info.security == tls_security) || is_some cert_config) ≡ true
  unfolding set_security
  set_security-cert cert_config info s s' h = ground arith

  -- The last step of `buildInbound` before `Build`.
  finished :
      (i d : InboundDetour S) (s : StreamConfig S) (option : Options) (tag : Text) (n port : ℕ)
      → made (record i {
        port_from = n;
        port_to = n;
        listen_on = option.listen_ip;
        sniffing_enabled = not option.xray_options.disable_sniffing;
        stream_setting = some s;
        tag = tag;
      })
        ≡ made d
      → n ≡ port
      → (d.port_from ≡ port) × (d.port_to ≡ port) × (d.tag ≡ tag)
  finished i d s option tag n port h e = ground arith

  follow-common :
      (info : NodeInfo) (c c' : CommonNode) (port : ℕ)
      → info.common ≡ some c
      → follow info.common ≡ made c'
      → c.server_port ≡ pos port
      → port < 2 ^ 32
      → to_unsigned 32 c'.server_port ≡ port
  unfolding to_unsigned
  follow-common info c c' port common h number fits = ground arith

  -- An inbound that is built listens on the node's port alone, which is kept if it fits 32 bits, and
  -- carries the tag of the node; a node with TLS is only built with a certificate configuration.
  pub detour_of-made :
      (option : Options) (cert_config : Option CertConfig) (info : NodeInfo) (tag : Text)
      (d : InboundDetour S) (c : CommonNode) (port : ℕ)
      → detour_of k option cert_config info tag ≡ made d
      → info.common ≡ some c
      → c.server_port ≡ pos port
      → port < 2 ^ 32
      → (d.port_from ≡ port)
        × (d.port_to ≡ port)
        × (d.tag ≡ tag)
        × ((not (info.security == tls_security) || is_some cert_config) ≡ true)
  unfolding detour_of
  detour_of-made option cert_config info tag d c port h common number fits =
      let (i, h1, h2) = bind-made (build_protocol k option.xray_options info) _ d h in
      let (c', h3, h4) = bind-made (follow info.common) _ d h2 in
      let (s, h5, h6) = bind-made (follow i.0.stream_setting) _ d h4 in
      let (s', h7, h8) = bind-made (set_security k cert_config info _) _ d h6 in
      let (from, to, named) =
        finished i.0 d s' option tag (to_unsigned 32 c'.server_port) port h8
          (follow-common info c c' port common h3 number fits) in
      (from, to, named, set_security-cert cert_config info _ s' h7)

  -- What is built from an inbound carries the tag of the node.
  pub build_inbound-tag :
      {I : Type 0} (build : InboundDetour S → Made I) (option : Options)
      (cert_config : Option CertConfig) (info : NodeInfo) (tag : Text) (i : I)
      → build_inbound k build option cert_config info tag ≡ made i
      → (d : InboundDetour S) × (build d ≡ made i) × (d.tag ≡ tag)
  unfolding build_inbound detour_of
  build_inbound-tag build option cert_config info tag i h =
      let (d, made_d, built) = bind-made (detour_of k option cert_config info tag) build i h in
      let (i, h1, h2) = bind-made (build_protocol k option.xray_options info) _ d made_d in
      let (c', h3, h4) = bind-made (follow info.common) _ d h2 in
      let (s, h5, h6) = bind-made (follow i.0.stream_setting) _ d h4 in
      let (s', h7, h8) = bind-made (set_security k cert_config info _) _ d h6 in
      let n = to_unsigned 32 c'.server_port in
      let (from, to, named) = finished i.0 d s' option tag n n h8 refl in (d, built, named)
