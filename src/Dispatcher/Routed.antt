-- ===== src/Dispatcher/Routed.antt =====
-- `routedDispatch` of core/xray/app/mydispatcher/default.go: the audit rules of the node, and the
-- outbound handler of a connection. The outbound manager and the router of
-- github.com/xtls/xray-core are parameters, and so is what a regular expression matches.
use v2sp.Prelude.{
  if◌then◌else◌, nat_eq, is_some, int_eq, is_empty, Text, codes, text_eq, ℕ, ◌⊎◌, inl, inr, Bool,
  not, ◌&&◌, Option, none, some, [], ◌∷◌, ◌++◌,
}
use v2sp.Limiter.{Limiter}
use v2sp.Limiter.Rules.{match_any, check_protocol_rule}
use v2sp.Limiter.Registry.{Registry, get_limiter, deref}
use v2sp.Sniffers.{Address, ip_address, domain_address}
use v2sp.Dispatcher.Links.{close, interrupt}
use v2sp.Dispatcher.{Link, Effects}
use v2sp.Dispatcher.Admission.{SessionInbound}

pub record Route : Type 0 where
  pub outbound_tag : Text
  pub rule_tag : Text

pub record OutboundManager (H : Type 0) : Type 0 where
  pub get_handler : Text → Option H
  pub get_default_handler : Option H
  pub handler_tag : H → Text

-- What routing is asked about one connection: the tag of its inbound, the tag that the context
-- forces (empty for none), and what the router picks: none without a router, `some none` for an error.
pub record RoutingContext : Type 0 where
  pub in_tag : Text
  pub forced_outbound_tag : Text
  pub pick_route : Option (Option Route)

-- `isPickRoute`.
pub data Picked : Type 0 where
  by_default forced by_rule : Picked

pub data Refusal : Type 0 where
  rejected_domain : Text → Refusal
  rejected_protocol : Text → Refusal
  missing_forced_tag : Text → Refusal
  missing_outbound_tag : Text → Refusal
  no_default_handler : Refusal

-- A session without an inbound is dereferenced, a panic.
pub data RoutedResult (H : Type 0) : Type 0 where
  panics : RoutedResult H
  dropped : Refusal → RoutedResult H
  -- The handler, and the detour of the access message, if it is set.
  handed : H → Option Text → RoutedResult H

unfoldable pub destination_text : Address → Text
destination_text (ip_address ip) = ip
destination_text (domain_address domain) = domain

-- The detour of the access message.
unfoldable pub detour : Picked → Text → Text → Option Text
detour picked in_tag tag =
    if is_empty tag
    then none
    else if is_empty in_tag
    then some tag
    else some (
        in_tag
        ++ elim picked [
          | forced ↦ codes " ==> "
          | by_rule ↦ codes " -> "
          | by_default ↦ codes " >> "
        ]
        ++ tag)

-- `common.Close(link.Writer)` and `common.Interrupt(link.Reader)`.
module _ {Bucket : Type 0} where
  unfoldable pub close_link : Link Bucket → Effects Bucket
  close_link link = close link.writer ∷ interrupt link.reader ∷ []

module _ {H : Type 0} (m : OutboundManager H) where
  -- The choice of the handler.
  unfoldable pub pick_default : Refusal ⊎ (H × Picked)
  pick_default = elim m.get_default_handler [
    | none ↦ inl no_default_handler
    | some h ↦ inr (h, by_default)
  ]

  unfoldable pub pick_handler : RoutingContext → Refusal ⊎ (H × Picked)
  unfolding pick_default
  pick_handler r =
      if not (is_empty r.forced_outbound_tag)
      then elim (m.get_handler r.forced_outbound_tag) [
        | none ↦ inl (missing_forced_tag r.forced_outbound_tag)
        | some h ↦ inr (h, forced)
      ]
      else elim r.pick_route [
        | none ↦ pick_default
        | some none ↦ pick_default
        | some (some route) ↦ elim (m.get_handler route.outbound_tag) [
          | none ↦ inl (missing_outbound_tag route.outbound_tag)
          | some h ↦ inr (h, by_rule)
        ]
      ]

module _ {Regexp Bucket : Type 0} (matches : Regexp → Text → Bool) where
  -- The rules of a limiter on one connection; an empty protocol is not checked.
  unfoldable pub check_rules : Limiter Regexp Bucket → Text → Text → Option Refusal
  unfolding match_any check_protocol_rule
  check_rules l destination protocol =
      if match_any matches l.domain_rules destination
      then some (rejected_domain destination)
      else if not (is_empty protocol) && check_protocol_rule l protocol
      then some (rejected_protocol protocol)
      else none

  -- The first part of `routedDispatch`, for an inbound: `l` is the limiter that `getLink` found.
  unfoldable pub apply_rules :
      Registry Regexp Bucket → SessionInbound → Option ℕ → Address → Text → Option Refusal
  unfolding check_rules destination_text
  apply_rules registry inbound l address protocol =
      let found : Option ℕ = elim l [ some p ↦ some p | none ↦ get_limiter inbound.tag registry ] in
      if is_some inbound.user
      then elim found [
        | none ↦ none
        | some p ↦ elim (deref p registry) [
          | none ↦ none
          | some limiter ↦ check_rules limiter (destination_text address) protocol
        ]
      ]
      else none

  unfoldable pub routed_dispatch :
      {H : Type 0}
      → OutboundManager H
      → Registry Regexp Bucket
      → Option SessionInbound
      → RoutingContext
      → Link Bucket
      → Address
      → Option ℕ
      → Text
      → RoutedResult H × Effects Bucket
  unfolding apply_rules pick_handler close_link detour
  routed_dispatch m registry none r link address l protocol = (panics, [])
  routed_dispatch m registry (some inbound) r link address l protocol =
      elim (apply_rules registry inbound l address protocol) [
        | some refusal ↦ (dropped refusal, close_link link)
        | none ↦ elim (pick_handler m r) [
          | inl refusal ↦ (dropped refusal, close_link link)
          | inr (h, picked) ↦ (handed h (detour picked r.in_tag (m.handler_tag h)), [])
        ]
      ]
