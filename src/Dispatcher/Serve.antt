-- ===== src/Dispatcher/Serve.antt =====
-- `Dispatch` and `DispatchLink` of core/xray/app/mydispatcher/default.go: admission, sniffing and
-- routing of one connection. `Dispatch` returns the inbound's link at once; the rest of its body runs
-- in a goroutine of its own, `serve`.
use v2sp.Prelude.{
  if◌then◌else◌, nat_eq, option_or, ℤ, int_eq, Text, text_eq, ℕ, Bool, true, false, not, Option,
  none, some, List, [],
}
use v2sp.Limiter.Registry.{Registry}
use v2sp.Sniffers.{
  Destination, protocol_of, Sniffed, found, nothing, panicked, ContentSniffers, FakeDnsEngine,
  new_sniffer,
}
use v2sp.Dispatcher.{cached_reader, Link, Dispatcher, Effects}
use v2sp.Dispatcher.Admission.{
  SessionInbound, invalid_destination, refused, linked, wrapped, Opened, get_link, wrap_link,
}
use v2sp.Dispatcher.Override.{SniffingRequest, Outbound, Matching, redirect}
use v2sp.Dispatcher.Sniffing.{CachedReader, Round, sniff_connection}
use v2sp.Dispatcher.Routed.{
  OutboundManager, RoutingContext, RoutedResult, panics, dropped, handed, routed_dispatch,
}

-- The code of other packages that a connection meets.
pub record Features (Regexp Bucket H : Type 0) : Type 0 where
  pub new_bucket : ℤ → ℤ → ℤ → Bucket
  pub matches : Regexp → Text → Bool
  pub matching : Matching Regexp
  pub content_sniffers : ContentSniffers
  pub fake_dns_engine : Option FakeDnsEngine
  pub is_valid : Destination → Bool
  pub manager : OutboundManager H
  -- What routing is told depends on the outbound and on the protocol that was sniffed.
  pub routing : Outbound → Text → RoutingContext
  -- The capacity of the buffer that `sniffer` makes.
  pub capacity : ℕ

-- What the context of a connection says; `rounds` and `reads` are what the sniffing will meet.
pub record Connection : Type 0 where
  pub session : Option SessionInbound
  pub destination : Destination
  pub outbound : Option Outbound
  pub sniffing : SniffingRequest
  -- `content.Protocol` before the sniffing.
  pub protocol : Text
  pub rounds : List Round
  pub reads : List (Option Text)

pub record Served (H Bucket : Type 0) : Type 0 where
  pub result : RoutedResult H
  pub effects : Effects Bucket
  pub outbound : Outbound
  pub protocol : Text
  pub reader : CachedReader

-- `ob.Tag = handler.Tag()`
unfoldable pub tagged : {H : Type 0} → OutboundManager H → RoutedResult H → Outbound → Outbound
tagged m panics ob = ob
tagged m (dropped refusal) ob = ob
tagged m (handed h detour) ob = record ob { tag = m.handler_tag h }

-- The last outbound of the context, or a new one, with the destination as its targets.
unfoldable pub outbound_of : Connection → Outbound
outbound_of c =
    let ob : Outbound =
      option_or c.outbound
        (record { original_target = none; target = none; route_target = none; tag = [] }) in
    record ob { original_target = some c.destination; target = some c.destination }

module _ {H Bucket : Type 0} where
  -- The methods of a nil result are called.
  unfoldable pub crashed : Outbound → CachedReader → Served H Bucket
  crashed ob reader = record {
    result = panics;
    effects = [];
    outbound = ob;
    protocol = [];
    reader = reader;
  }

module _ {Regexp Bucket H : Type 0} (f : Features Regexp Bucket H) where
  -- The sniffing of a connection, when it is enabled: the destination, the outbound and the protocol
  -- that are routed. `checks_family` tells `Dispatch` from `DispatchLink`.
  unfoldable pub after_sniffing : Bool → Connection → Sniffed → Destination × Outbound × Text
  unfolding outbound_of redirect
  after_sniffing checks_family c (found r) =
      let (destination, ob) =
        redirect f.matching checks_family r c.sniffing c.destination (outbound_of c) in
      (destination, ob, protocol_of r)
  after_sniffing checks_family c other = (c.destination, outbound_of c, c.protocol)

  -- The rest of both bodies; none while the sniffing goes on.
  unfoldable pub serve :
      Bool
      → Connection
      → Registry Regexp Bucket
      → Option SessionInbound
      → Link Bucket
      → Option ℕ
      → Option (Served H Bucket)
  unfolding outbound_of after_sniffing routed_dispatch sniff_connection tagged crashed
  serve checks_family c registry session link l =
      let reader : CachedReader = record { source = c.reads; cached = none } in
      let ob = outbound_of c in
      if not c.sniffing.enabled
      then (let (result, effects) =
            routed_dispatch f.matches f.manager registry session (f.routing ob []) link
              c.destination.address l [] in
          some (record {
            result = result;
            effects = effects;
            outbound = tagged f.manager result ob;
            protocol = [];
            reader = reader;
          }))
      else (let (reader', sniffed) =
            sniff_connection (record { target = c.destination; wants_range = false })
              c.destination.network f.capacity c.sniffing.metadata_only c.rounds
              (new_sniffer f.content_sniffers f.fake_dns_engine) reader in
          elim sniffed [
            | none ↦ none
            | some panicked ↦ some (crashed ob reader')
            | some nothing ↦ some (crashed ob reader')
            | some s ↦
                let (destination, ob', protocol) = after_sniffing checks_family c s in
                let (result, effects) =
                  routed_dispatch f.matches f.manager registry session (f.routing ob' protocol)
                    (record link { reader = cached_reader link.reader }) destination.address l
                    protocol in
                some (record {
                  result = result;
                  effects = effects;
                  outbound = tagged f.manager result ob';
                  protocol = protocol;
                  reader = reader';
                })
          ])

  -- `Dispatch`: what `getLink` leaves, and what the goroutine comes to if one is started.
  unfoldable pub dispatch :
      Connection
      → ℤ
      → ℕ
      → ℕ
      → Registry Regexp Bucket
      → Dispatcher Bucket
      → Opened Regexp Bucket × Option (Served H Bucket)
  unfolding serve
  dispatch c now uplink downlink registry d =
      let o =
        get_link f.new_bucket c.session c.destination.network now uplink downlink registry d in
      if not (f.is_valid c.destination)
      then (
        record {
          registry = registry;
          dispatcher = d;
          session = c.session;
          result = refused invalid_destination;
          effects = [];
        },
        none,
      )
      else elim o.result [
        | linked inbound outbound l ↦ (o, serve true c o.registry o.session outbound l)
        | _ ↦ (o, none)
      ]

  -- `DispatchLink`, which is given the link.
  unfoldable pub dispatch_link :
      Connection
      → ℤ
      → Link Bucket
      → Registry Regexp Bucket
      → Dispatcher Bucket
      → Opened Regexp Bucket × Option (Served H Bucket)
  unfolding serve
  dispatch_link c now outbound registry d =
      let o = wrap_link f.new_bucket c.session c.destination.network now outbound registry d in
      if not (f.is_valid c.destination)
      then (
        record {
          registry = registry;
          dispatcher = d;
          session = c.session;
          result = refused invalid_destination;
          effects = [];
        },
        none,
      )
      else elim o.result [
        | wrapped link l ↦ (o, serve false c o.registry o.session link l)
        | _ ↦ (o, none)
      ]
