-- ===== src/Xray/Nodes.antt =====
-- core/xray/node.go and outbound.go: a node is an inbound and an outbound of the xray core. The managers
-- of the handlers, `CreateObject` and the builders of xray-core are parameters: `I` and `O` are
-- the handlers, `N` and `U` the states of the two managers.
pub mod RoundTrip
mod Tests
use v2sp.Prelude.{
  ltb, leb, nat_beq, if◌then◌else◌, ltb→lt, leb→le, nat_beq_iff, Bool-cases, Option-cases, Eq, ◌==◌,
  nat_eq, eq_refl, is_some, option_or, ℤ, pos_part, neg_part, sub_ℕ, ◌+ℤ◌, ◌-ℤ◌, ◌*ℤ◌, quot, ◌≤ℤ◌,
  ◌<ℤ◌, ltb_ℤ, leb_ℤ, int_beq, int_beq_iff, int_eq, wrap64, IsInt64, wrap64_fits, wrap64-IsInt64,
  to_unsigned, pos, negsuc, length, is_empty, get_elem?, set, length-append, get_elem?-set_self,
  get_elem?-set_ne, get_elem?-lt, get_elem?-append_end, get_elem?-append_lt, get_elem?-end,
  set-same, get_elem?-of_lt, All, contains, contains-append, Map, lookup, insert, delete, Distinct,
  lookup-insert, lookup-delete, lookup-insert_self, lookup-delete_self, length-insert,
  insert-Distinct, delete-Distinct, delete_absent, length-delete, Text, codes, text_beq,
  text_beq_iff, text_eq, starts_with, drop, size, trim_prefix, ends_with, contains_byte, lower_byte,
  to_lower, digits_from, itoa, ℕ, zero, suc, ◌+◌, ◌-◌, ◌*◌, ◌/◌, ◌%◌, ◌^◌, ◌≤◌, ◌<◌, ◌≡◌, refl, sym,
  ap, ◌∙◌, ◌≢◌, ◌↔◌, ◌⊎◌, inl, inr, Bool, true, false, not, ◌&&◌, ◌||◌, Option, none, some, List,
  [], ◌∷◌, ◌++◌, map, arith,
}
use v2sp.Panel.{NodeInfo}
use v2sp.Panel
use v2sp.Conf.{Options, XrayOptions, CertConfig}
use v2sp.Xray.Inbound.{Made, made, failed, panicked, InboundDetour, Codecs}
use v2sp.Xray.Inbound.Build.{build_inbound}
use v2sp.Xray.Dns.{DnsSystem, update_dns_config}

-- `ihm` and `ohm`: adding a handler, and removing the one of a tag. An error is its text.
pub record Manager (A M : Type 0) : Type 0 where
  pub add_handler : A → M → M × Option Text
  pub remove_handler : Text → M → M × Option Text

-- What is set of an outbound's configuration; the protocol is "freedom".
pub record OutboundDetour : Type 0 where
  pub tag : Text
  pub send_through : Option Text
  pub domain_strategy : Text

unfoldable pub build_outbound : Options → Text → OutboundDetour
build_outbound config tag =
    let x = config.xray_options in
    record {
      tag = tag;
      send_through = if is_empty config.send_ip then none else some config.send_ip;
      domain_strategy =
          if x.enable_dns
          then if is_empty x.dns_type then codes "UseIP" else x.dns_type
          else codes "Asis";
    }

pub record XrayCore (N U F : Type 0) : Type 0 where
  pub node_report_min_traffic_bytes : Map Text ℤ
  pub ihm : N
  pub ohm : U
  pub dns_file : F

-- `make_inbound` and `make_outbound` are `Build` and then `CreateObject` of xray-core.
pub record Handlers (S I O N U F : Type 0) : Type 0 where
  pub codecs : Codecs S
  pub dns : DnsSystem F
  pub build_in : InboundDetour S → Made I
  pub create_in : I → Made I
  pub build_out : OutboundDetour → Made O
  pub create_out : O → Made O
  pub inbounds : Manager I N
  pub outbounds : Manager O U

-- How a call ends: the error is its text.
pub data Ended : Type 0 where
  ok : Ended
  error : Text → Ended
  crashed : Ended

module _ {S I O N U F : Type 0} (h : Handlers S I O N U F) where
  unfoldable pub add_inbound : I → N → N × Ended
  add_inbound config ihm = elim (h.create_in config) [
    | panicked ↦ (ihm, crashed)
    | failed e ↦ (ihm, error e)
    | made handler ↦
        let (ihm', err) = h.inbounds.add_handler handler ihm in
        (ihm', elim err [ none ↦ ok | some e ↦ error e ])
  ]

  unfoldable pub add_outbound : O → U → U × Ended
  add_outbound config ohm = elim (h.create_out config) [
    | panicked ↦ (ohm, crashed)
    | failed e ↦ (ohm, error e)
    | made handler ↦
        let (ohm', err) = h.outbounds.add_handler handler ohm in
        (ohm', elim err [ none ↦ ok | some e ↦ error e ])
  ]

  -- The second half of `AddNode`.
  unfoldable pub add_node_out : Text → Options → XrayCore N U F → XrayCore N U F × Ended
  unfolding add_outbound build_outbound
  add_node_out tag config c = elim (h.build_out (build_outbound config tag)) [
    | panicked ↦ (c, crashed)
    | failed e ↦ (c, error (codes "build outbound error: " ++ e))
    | made out ↦
        let (ohm, ended) = add_outbound out c.ohm in
        (
          record c { ohm = ohm },
          elim ended [
            | ok ↦ ok
            | error e ↦ error (codes "add outbound error: " ++ e)
            | crashed ↦ crashed
          ],
        )
  ]

  -- The middle of `AddNode`, with `option.CertConfig`, which may be nil.
  unfoldable pub add_node_in :
      Text → NodeInfo → Options → Option CertConfig → XrayCore N U F → XrayCore N U F × Ended
  unfolding add_inbound add_node_out
  add_node_in tag info config cert c =
      elim (build_inbound h.codecs h.build_in config cert info tag) [
        | panicked ↦ (c, crashed)
        | failed e ↦ (c, error (codes "build inbound error: " ++ e))
        | made inbound ↦
            let (ihm, ended) = add_inbound inbound c.ihm in
            let c' = record c { ihm = ihm } in
            elim ended [
              | ok ↦ add_node_out tag config c'
              | error e ↦ (c', error (codes "add inbound error: " ++ e))
              | crashed ↦ (c', crashed)
            ]
      ]

  unfoldable pub add_node :
      Text → NodeInfo → Options → Option CertConfig → XrayCore N U F → XrayCore N U F × Ended
  unfolding add_node_in
  add_node tag info config cert c =
      let (file, err) = update_dns_config h.dns info.raw_dns c.dns_file in
      let c' = record c {
        dns_file = file;
        node_report_min_traffic_bytes =
            insert tag (wrap64 (config.report_min_traffic *ℤ pos 1024))
              c.node_report_min_traffic_bytes;
      } in
      elim err [
        | some e ↦ (c', error (codes "build dns error: " ++ e))
        | none ↦ add_node_in tag info config cert c'
      ]

  unfoldable pub del_node : Text → XrayCore N U F → XrayCore N U F × Ended
  del_node tag c =
      let (ihm, err) = h.inbounds.remove_handler tag c.ihm in
      let c1 = record c { ihm = ihm } in
      elim err [
        | some e ↦ (c1, error (codes "remove in error: " ++ e))
        | none ↦
            let (ohm, err') = h.outbounds.remove_handler tag c1.ohm in
            (
              record c1 { ohm = ohm },
              elim err' [ none ↦ ok | some e ↦ error (codes "remove out error: " ++ e) ],
            )
      ]
