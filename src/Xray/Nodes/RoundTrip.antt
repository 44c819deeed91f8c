-- ===== src/Xray/Nodes/RoundTrip.antt =====
-- Adding a node to the xray core and deleting it again: core/xray/node.go.
use v2sp.Prelude.{
  ◌≢◌, nat_eq, ◌*ℤ◌, int_eq, wrap64, pos, insert, Text, text_eq, ◌≡◌, refl, sym, ap, ◌∙◌, Option,
  none, some, arith,
}
use v2sp.Panel.{NodeInfo}
use v2sp.Conf.{Options, CertConfig}
use v2sp.Xray.Inbound.Laws.{build_inbound-tag}
use v2sp.Xray.Inbound.{InboundDetour, Made, made, failed, panicked}
use v2sp.Xray.Inbound.Build.{build_inbound}
use v2sp.Xray.Dns.{update_dns_config}
use v2sp.Xray.Nodes.{
  OutboundDetour, build_outbound, XrayCore, Handlers, Ended, ok, error, crashed, add_inbound,
  add_outbound, add_node_out, add_node_in, add_node, del_node,
}

made-injective : {A : Type 0} {a b : A} → made a ≡ made b → a ≡ b
made-injective h = cc

module _ {S I O N U F : Type 0} (h : Handlers S I O N U F) where
  -- A call that ends well has added a handler that was made for the node.
  abbrev pub IsAddedIn : Text → NodeInfo → Options → Option CertConfig → N → N → Type 0
  IsAddedIn tag info config cert m m' =
      (i : I) × (handler : I) × (build_inbound h.codecs h.build_in config cert info tag ≡ made i)
      × (h.create_in i ≡ made handler)
      × ((h.inbounds.add_handler handler m).1 ≡ none)
      × (m' ≡ (h.inbounds.add_handler handler m).0)

  abbrev pub IsAddedOut : Text → Options → U → U → Type 0
  IsAddedOut tag config m m' =
      (o : O) × (handler : O) × (h.build_out (build_outbound config tag) ≡ made o)
      × (h.create_out o ≡ made handler)
      × ((h.outbounds.add_handler handler m).1 ≡ none)
      × (m' ≡ (h.outbounds.add_handler handler m).0)

  add_inbound-ok :
      (i : I) (m : N) (r : Made I)
      → h.create_in i ≡ r
      → (add_inbound h i m).1 ≡ ok
      → (handler : I) × (h.create_in i ≡ made handler)
        × ((h.inbounds.add_handler handler m).1 ≡ none)
        × ((add_inbound h i m).0 ≡ (h.inbounds.add_handler handler m).0)
  unfolding add_inbound
  add_inbound-ok i m (made handler) e ended = (handler, e, ground arith, ground arith)
  add_inbound-ok i m (failed err) e ended = ground arith
  add_inbound-ok i m panicked e ended = ground arith

  add_outbound-ok :
      (o : O) (m : U) (r : Made O)
      → h.create_out o ≡ r
      → (add_outbound h o m).1 ≡ ok
      → (handler : O) × (h.create_out o ≡ made handler)
        × ((h.outbounds.add_handler handler m).1 ≡ none)
        × ((add_outbound h o m).0 ≡ (h.outbounds.add_handler handler m).0)
  unfolding add_outbound
  add_outbound-ok o m (made handler) e ended = (handler, e, ground arith, ground arith)
  add_outbound-ok o m (failed err) e ended = ground arith
  add_outbound-ok o m panicked e ended = ground arith

  add_node_out-ok :
      (tag : Text) (config : Options) (c : XrayCore N U F) (r : Made O)
      → h.build_out (build_outbound config tag) ≡ r
      → (add_node_out h tag config c).1 ≡ ok
      → IsAddedOut tag config c.ohm (add_node_out h tag config c).0.ohm
        × ((add_node_out h tag config c).0.ihm ≡ c.ihm)
  unfolding add_node_out
  add_node_out-ok tag config c (failed err) e ended = ground arith
  add_node_out-ok tag config c panicked e ended = ground arith
  add_node_out-ok tag config c (made o) e ended =
      let (handler, made_handler, added, same) =
        add_outbound-ok o c.ohm (h.create_out o) refl (ground arith) in
      ((o, handler, e, made_handler, added, rw (add_node_out, e, same)), rw (add_node_out, e))

  -- The second half, after an inbound that was added.
  add_node_in-out :
      (tag : Text) (info : NodeInfo) (config : Options) (cert : Option CertConfig)
      (c : XrayCore N U F) (i : I)
      → build_inbound h.codecs h.build_in config cert info tag ≡ made i
      → (add_inbound h i c.ihm).1 ≡ ok
      → add_node_in h tag info config cert c
        ≡ add_node_out h tag config (record c { ihm = (add_inbound h i c.ihm).0 })
  unfolding add_node_in
  add_node_in-out tag info config cert c i e ended = rw (add_node_in, e, ended)

  add_node_in-ended :
      (tag : Text) (info : NodeInfo) (config : Options) (cert : Option CertConfig)
      (c : XrayCore N U F) (i : I) (r : Ended)
      → build_inbound h.codecs h.build_in config cert info tag ≡ made i
      → (add_inbound h i c.ihm).1 ≡ r
      → (add_node_in h tag info config cert c).1 ≡ ok
      → (add_inbound h i c.ihm).1 ≡ ok
  unfolding add_node_in
  add_node_in-ended tag info config cert c i ok e er ended = er
  add_node_in-ended tag info config cert c i (error err) e er ended = ground arith
  add_node_in-ended tag info config cert c i crashed e er ended = ground arith

  add_node_in-ok :
      (tag : Text) (info : NodeInfo) (config : Options) (cert : Option CertConfig)
      (c : XrayCore N U F) (r : Made I)
      → build_inbound h.codecs h.build_in config cert info tag ≡ r
      → (add_node_in h tag info config cert c).1 ≡ ok
      → IsAddedIn tag info config cert c.ihm (add_node_in h tag info config cert c).0.ihm
        × IsAddedOut tag config c.ohm (add_node_in h tag info config cert c).0.ohm
  unfolding add_node_in
  add_node_in-ok tag info config cert c (failed err) e ended = ground arith
  add_node_in-ok tag info config cert c panicked e ended = ground arith
  add_node_in-ok tag info config cert c (made i) e ended =
      let in_ok =
        add_node_in-ended tag info config cert c i (add_inbound h i c.ihm).1 e refl ended in
      let c' : XrayCore N U F = record c { ihm = (add_inbound h i c.ihm).0 } in
      let step = add_node_in-out tag info config cert c i e in_ok in
      let (handler, made_handler, added, same) =
        add_inbound-ok i c.ihm (h.create_in i) refl in_ok in
      let (out, ihm) =
        add_node_out-ok tag config c' (h.build_out (build_outbound config tag)) refl
          (ap (λ r. r.1) (sym step) ∙ ended) in
      ((i, handler, e, made_handler, added, ap (λ r. r.0.ihm) step ∙ ihm ∙ same), rw step out)

  add_node-in :
      (tag : Text) (info : NodeInfo) (config : Options) (cert : Option CertConfig)
      (c : XrayCore N U F) (r : Option Text)
      → (update_dns_config h.dns info.raw_dns c.dns_file).1 ≡ r
      → (add_node h tag info config cert c).1 ≡ ok
      → (c' : XrayCore N U F) × (c'.ihm ≡ c.ihm)
        × (c'.ohm ≡ c.ohm)
        × (add_node h tag info config cert c ≡ add_node_in h tag info config cert c')
  unfolding add_node
  add_node-in tag info config cert c (some err) e ended = ground arith
  add_node-in tag info config cert c none e ended = (
    record c {
      dns_file = (update_dns_config h.dns info.raw_dns c.dns_file).0;
      node_report_min_traffic_bytes =
          insert tag (wrap64 (config.report_min_traffic *ℤ pos 1024))
            c.node_report_min_traffic_bytes;
    },
    refl,
    refl,
    rw (add_node, e),
  )

  del_node-removed :
      (tag : Text) (c : XrayCore N U F) (n : N) (u : U)
      → h.inbounds.remove_handler tag c.ihm ≡ (n, none)
      → h.outbounds.remove_handler tag c.ohm ≡ (u, none)
      → ((del_node h tag c).1 ≡ ok)
        × ((del_node h tag c).0.ihm ≡ n)
        × ((del_node h tag c).0.ohm ≡ u)
  unfolding del_node
  del_node-removed tag c n u e f =
      (rw (del_node, e, f), rw (del_node, e) (ap (λ r. r.0) e), rw (del_node, e, f))

  -- A node that was added and is deleted leaves both managers as they were, when, as in xray-core,
  -- a handler has the tag of the configuration that it was made from, and a manager removes by a tag
  -- the handler of this tag that was added last.
  pub del_node-add_node :
      (in_tag : I → Text) (out_tag : O → Text) (tag : Text) (info : NodeInfo) (config : Options)
      (cert : Option CertConfig) (c : XrayCore N U F)
      → ((d : InboundDetour S) (i handler : I)
          → h.build_in d ≡ made i
          → h.create_in i ≡ made handler
          → in_tag handler ≡ d.tag)
      → ((d : OutboundDetour) (o handler : O)
          → h.build_out d ≡ made o
          → h.create_out o ≡ made handler
          → out_tag handler ≡ d.tag)
      → ((handler : I) (m : N)
          → (h.inbounds.add_handler handler m).1 ≡ none
          → h.inbounds.remove_handler (in_tag handler) (h.inbounds.add_handler handler m).0
            ≡ (m, none))
      → ((handler : O) (m : U)
          → (h.outbounds.add_handler handler m).1 ≡ none
          → h.outbounds.remove_handler (out_tag handler) (h.outbounds.add_handler handler m).0
            ≡ (m, none))
      → (add_node h tag info config cert c).1 ≡ ok
      → let r = del_node h tag (add_node h tag info config cert c).0 in
        (r.1 ≡ ok) × (r.0.ihm ≡ c.ihm) × (r.0.ohm ≡ c.ohm)
  unfolding build_outbound
  del_node-add_node in_tag out_tag tag info config cert c in_tagged out_tagged in_law out_law
        ended =
      let (c', same_in, same_out, step) =
        add_node-in tag info config cert c (update_dns_config h.dns info.raw_dns c.dns_file).1 refl
          ended in
      let ((i, handler, e1, e2, e3, e4), (o, handler', f1, f2, f3, f4)) =
        add_node_in-ok tag info config cert c'
          (build_inbound h.codecs h.build_in config cert info tag) refl
          (ap (λ r. r.1) (sym step) ∙ ended) in
      let (d, built, named) = build_inbound-tag h.codecs h.build_in config cert info tag i e1 in
      let of_in : in_tag handler ≡ tag = in_tagged d i handler built e2 ∙ named in
      let of_out : out_tag handler' ≡ tag =
        out_tagged (build_outbound config tag) o handler' f1 f2 in
      del_node-removed tag (add_node h tag info config cert c).0 c.ihm c.ohm
        (ap (h.inbounds.remove_handler tag) (ap (λ r. r.0.ihm) step ∙ e4)
          ∙ ap (λ t. h.inbounds.remove_handler t (h.inbounds.add_handler handler c'.ihm).0)
              (sym of_in)
          ∙ in_law handler c'.ihm e3
          ∙ ap (λ m. (m, none)) same_in)
        (ap (h.outbounds.remove_handler tag) (ap (λ r. r.0.ohm) step ∙ f4)
          ∙ ap (λ t. h.outbounds.remove_handler t (h.outbounds.add_handler handler' c'.ohm).0)
              (sym of_out)
          ∙ out_law handler' c'.ohm f3
          ∙ ap (λ m. (m, none)) same_out)

  add_node_out-ihm :
      (tag : Text) (config : Options) (c : XrayCore N U F) (r : Made O)
      → h.build_out (build_outbound config tag) ≡ r
      → (add_node_out h tag config c).0.ihm ≡ c.ihm
  unfolding add_node_out
  add_node_out-ihm tag config c (made o) e = rw (add_node_out, e)
  add_node_out-ihm tag config c (failed err) e = rw (add_node_out, e)
  add_node_out-ihm tag config c panicked e = rw (add_node_out, e)

  add_inbound-added :
      (i handler : I) (m : N)
      → h.create_in i ≡ made handler
      → (h.inbounds.add_handler handler m).1 ≡ none
      → add_inbound h i m ≡ ((h.inbounds.add_handler handler m).0, ok)
  unfolding add_inbound
  add_inbound-added i handler m e added = rw (add_inbound, e, added)

  add_node-ihm :
      (tag : Text) (info : NodeInfo) (config : Options) (cert : Option CertConfig)
      (c : XrayCore N U F) (i handler : I)
      → (update_dns_config h.dns info.raw_dns c.dns_file).1 ≡ none
      → build_inbound h.codecs h.build_in config cert info tag ≡ made i
      → h.create_in i ≡ made handler
      → (h.inbounds.add_handler handler c.ihm).1 ≡ none
      → (add_node h tag info config cert c).0.ihm ≡ (h.inbounds.add_handler handler c.ihm).0
  unfolding add_node
  add_node-ihm tag info config cert c i handler dns built created added =
      let c1 : XrayCore N U F = record c {
        dns_file = (update_dns_config h.dns info.raw_dns c.dns_file).0;
        node_report_min_traffic_bytes =
            insert tag (wrap64 (config.report_min_traffic *ℤ pos 1024))
              c.node_report_min_traffic_bytes;
      } in
      let in_ok = add_inbound-added i handler c.ihm created added in
      rw (add_node, dns)
        (ap (λ r. r.0.ihm) (add_node_in-out tag info config cert c1 i built (ap (λ r. r.1) in_ok))
          ∙ add_node_out-ihm tag config _ (h.build_out (build_outbound config tag)) refl
          ∙ ap (λ r. r.0) in_ok)

  -- The bug: once the inbound of a node has been added it stays with its manager, however the part
  -- of the call ends that builds, creates and adds the outbound. Where the manager, as that of
  -- xray-core does, refuses a handler that it has, the node cannot be added again.
  pub add_node-leaves_inbound :
      (tag : Text) (info : NodeInfo) (config : Options) (cert : Option CertConfig)
      (c : XrayCore N U F) (i handler : I)
      → (update_dns_config h.dns info.raw_dns c.dns_file).1 ≡ none
      → build_inbound h.codecs h.build_in config cert info tag ≡ made i
      → h.create_in i ≡ made handler
      → (h.inbounds.add_handler handler c.ihm).1 ≡ none
      → ((m : N) → (h.inbounds.add_handler handler (h.inbounds.add_handler handler m).0).1 ≢ none)
      → let c' = (add_node h tag info config cert c).0 in
        (c'.ihm ≡ (h.inbounds.add_handler handler c.ihm).0)
        × ((add_node h tag info config cert c').1 ≢ ok)
  add_node-leaves_inbound tag info config cert c i handler dns built created added refuses =
      let c' = (add_node h tag info config cert c).0 in
      let stays = add_node-ihm tag info config cert c i handler dns built created added in
      (
        stays,
        λ ended.
            let (c2, same_in, same_out, step) =
              add_node-in tag info config cert c'
                (update_dns_config h.dns info.raw_dns c'.dns_file).1 refl ended in
            let ((i', handler', e1, e2, e3, e4), out) =
              add_node_in-ok tag info config cert c2
                (build_inbound h.codecs h.build_in config cert info tag) refl
                (ap (λ r. r.1) (sym step) ∙ ended) in
            let same_i : i ≡ i' = made-injective (sym built ∙ e1) in
            let same_h : handler ≡ handler' =
              made-injective (sym created ∙ ap h.create_in same_i ∙ e2) in
            refuses c.ihm (
              ap (λ m. (h.inbounds.add_handler handler m).1) (sym (same_in ∙ stays))
              ∙ ap (λ x. (h.inbounds.add_handler x c2.ihm).1) same_h
              ∙ e3),
      )
