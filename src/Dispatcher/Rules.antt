-- ===== src/Dispatcher/Rules.antt =====
-- The audit rules of a node on the connections that pass the dispatcher.
use v2sp.Prelude.{
  nat_eq, is_some, ℤ, int_eq, is_empty, Text, text_eq, ℕ, ◌≡◌, refl, ap, Bool, true, false, not,
  ◌||◌, Option, none, some, List, [], ◌∷◌, arith,
}
use v2sp.Limiter.{Limiter}
use v2sp.Limiter.Rules.{
  match_any, check_protocol_rule, compile_all, some_pattern_matches, compile_all-matches,
}
use v2sp.Limiter.Registry.{Registry, deref}
use v2sp.Sniffers.{
  Network, Address, Destination, SniffResult, protocol_of, domain_of, found, new_sniffer,
}
use v2sp.Dispatcher.Links.{close, interrupt}
use v2sp.Dispatcher.{pipe_reader, pipe_writer, cached_reader, Link, Dispatcher, Effects}
use v2sp.Dispatcher.Admission.{SessionInbound, limited_user, linked, get_link}
use v2sp.Dispatcher.Override.{SniffingRequest, Outbound, should_override, redirect, Matching}
use v2sp.Dispatcher.Sniffing.{sniff_connection}
use v2sp.Dispatcher.Routed.{
  OutboundManager, RoutingContext, Refusal, rejected_domain, RoutedResult, panics, dropped, handed,
  destination_text, check_rules, apply_rules, close_link, routed_dispatch,
}
use v2sp.Dispatcher.Serve.{
  Features, Connection, Served, outbound_of, after_sniffing, serve, dispatch,
}

-- How a connection that is served ends, and what that does to its link.
abbrev pub answer_of :
    {H Bucket : Type 0} → Option (Served H Bucket) → Option (RoutedResult H × Effects Bucket)
answer_of none = none
answer_of (some s) = some (s.result, s.effects)

module _ {Regexp Bucket H : Type 0} (matches : Regexp → Text → Bool) (m : OutboundManager H) where
  -- A connection of a user is handed to an outbound handler only if no rule of the limiter matches
  -- its destination and its protocol, if known, is not forbidden; its link is left open then.
  pub routed_dispatch-handed :
      (registry : Registry Regexp Bucket) (inbound : SessionInbound) (r : RoutingContext)
      (link : Link Bucket) (address : Address) (p : ℕ) (protocol : Text) (l : Limiter Regexp Bucket)
      (h : H) (text : Option Text)
      → is_some inbound.user ≡ true
      → deref p registry ≡ some l
      → (routed_dispatch matches m registry (some inbound) r link address (some p) protocol).0
        ≡ handed h text
      → (match_any matches l.domain_rules (destination_text address) ≡ false)
        × ((is_empty protocol || not (check_protocol_rule l protocol)) ≡ true)
        × ((routed_dispatch matches m registry (some inbound) r link address (some p) protocol).1
            ≡ [])
  unfolding routed_dispatch apply_rules check_rules
  routed_dispatch-handed registry inbound r link address p protocol l h text user place passes =
      ground arith

module _ {Regexp Bucket : Type 0} (matches : Regexp → Text → Bool) where
  apply_rules-hit :
      (compile : Text → Option Regexp) (patterns : List Text) (registry : Registry Regexp Bucket)
      (inbound : SessionInbound) (p : ℕ) (l : Limiter Regexp Bucket) (address : Address)
      (protocol : Text)
      → is_some inbound.user ≡ true
      → deref p registry ≡ some l
      → l.domain_rules ≡ compile_all compile patterns
      → some_pattern_matches compile matches patterns (destination_text address) ≡ true
      → apply_rules matches registry inbound (some p) address protocol
        ≡ some (rejected_domain (destination_text address))
  unfolding apply_rules check_rules
  apply_rules-hit compile patterns registry inbound p l address protocol user place rules hit = rw (
    apply_rules,
    user,
    place,
    check_rules,
    rules,
    compile_all-matches compile matches patterns (destination_text address),
    hit,
  )

routed_dispatch-dropped :
    {Regexp Bucket H : Type 0} (matches : Regexp → Text → Bool) (m : OutboundManager H)
    (registry : Registry Regexp Bucket) (inbound : SessionInbound) (r : RoutingContext)
    (link : Link Bucket) (address : Address) (l : Option ℕ) (protocol : Text) (refusal : Refusal)
    → apply_rules matches registry inbound l address protocol ≡ some refusal
    → routed_dispatch matches m registry (some inbound) r link address l protocol
      ≡ (dropped refusal, close link.writer ∷ interrupt link.reader ∷ [])
unfolding routed_dispatch close_link
routed_dispatch-dropped matches m registry inbound r link address l protocol refusal h =
    rw (routed_dispatch, h)

get_link-without_inbound :
    {Regexp Bucket : Type 0} (new_bucket : ℤ → ℤ → ℤ → Bucket) (session : Option SessionInbound)
    (network : Network) (now : ℤ) (uplink downlink : ℕ) (registry : Registry Regexp Bucket)
    (d : Dispatcher Bucket)
    → session ≡ none
    → get_link new_bucket session network now uplink downlink registry d ≡ (record {
      registry = registry;
      dispatcher = d;
      session = none;
      result =
          linked
            (record { reader = pipe_reader downlink; writer = pipe_writer uplink })
            (record { reader = pipe_reader uplink; writer = pipe_writer downlink })
            none;
      effects = [];
    })
unfolding get_link limited_user
get_link-without_inbound new_bucket session network now uplink downlink registry d h = rw h refl

redirect-address :
    {Regexp : Type 0} (k : Matching Regexp) (checks_family : Bool) (r : SniffResult)
    (request : SniffingRequest) (destination : Destination) (ob : Outbound)
    → should_override k r request destination ≡ true
    → (redirect k checks_family r request destination ob).0
      ≡ record destination { address = k.parse_address (domain_of r) }
unfolding redirect
redirect-address k checks_family r request destination ob h = rw (redirect, h)

module _ {Regexp Bucket H : Type 0} (f : Features Regexp Bucket H) where
  -- A connection of a session with a user, whose sniffing is enabled and whose sniffed domain
  -- overrides its destination, is dropped, and its link closed, if some pattern of the domain rules
  -- of its limiter compiles and matches the domain: the rules see the domain also when it is used for
  -- routing only.
  pub serve-sniffed_domain :
      (compile : Text → Option Regexp) (patterns : List Text) (checks_family : Bool)
      (c : Connection) (registry : Registry Regexp Bucket) (inbound : SessionInbound)
      (link : Link Bucket) (p : ℕ) (l : Limiter Regexp Bucket) (r : SniffResult)
      → c.sniffing.enabled ≡ true
      → (sniff_connection
          (record { target = c.destination; wants_range = false })
          c.destination.network
          f.capacity
          c.sniffing.metadata_only
          c.rounds
          (new_sniffer f.content_sniffers f.fake_dns_engine)
          (record { source = c.reads; cached = none })).1
        ≡ some (found r)
      → should_override f.matching r c.sniffing c.destination ≡ true
      → is_some inbound.user ≡ true
      → deref p registry ≡ some l
      → l.domain_rules ≡ compile_all compile patterns
      → some_pattern_matches compile f.matches patterns
          (destination_text (f.matching.parse_address (domain_of r)))
        ≡ true
      → answer_of (serve f checks_family c registry (some inbound) link (some p))
        ≡ some (
          dropped (rejected_domain (destination_text (f.matching.parse_address (domain_of r)))),
          close link.writer ∷ interrupt (cached_reader link.reader) ∷ [],
        )
  unfolding serve after_sniffing routed_dispatch close_link
  serve-sniffed_domain compile patterns checks_family c registry inbound link p l r enabled sniffed
        overrides user place rules hit =
      let address = f.matching.parse_address (domain_of r) in
      let moved =
        redirect-address f.matching checks_family r c.sniffing c.destination (outbound_of c)
          overrides in
      let refusal =
        apply_rules-hit f.matches compile patterns registry inbound p l address (protocol_of r) user
          place rules hit in
      rw (serve, enabled, sniffed, moved)
        (ap (λ a. some (a.0, a.1))
          (routed_dispatch-dropped f.matches f.manager registry inbound
            (f.routing (after_sniffing f checks_family c (found r)).1
              (after_sniffing f checks_family c (found r)).2)
            (record link { reader = cached_reader link.reader }) address (some p) (protocol_of r)
            (rejected_domain (destination_text address)) refusal))

  -- The bug: a connection without an inbound in its context is given a link, and the goroutine that
  -- is to serve it dereferences the missing inbound, a panic, when it is not sniffed.
  pub dispatch-without_inbound :
      (c : Connection) (now : ℤ) (uplink downlink : ℕ) (registry : Registry Regexp Bucket)
      (d : Dispatcher Bucket)
      → f.is_valid c.destination ≡ true
      → c.session ≡ none
      → c.sniffing.enabled ≡ false
      → ((dispatch f c now uplink downlink registry d).0.dispatcher ≡ d)
        × (answer_of (dispatch f c now uplink downlink registry d).1 ≡ some (panics, []))
  unfolding dispatch serve get_link routed_dispatch limited_user
  dispatch-without_inbound c now uplink downlink registry d valid session plain =
      let gone =
        get_link-without_inbound f.new_bucket c.session c.destination.network now uplink downlink
          registry d session in
      (rw (dispatch, valid, gone, gone), rw (dispatch, valid, gone, serve, plain, gone))
