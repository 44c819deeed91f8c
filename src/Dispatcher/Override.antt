-- ===== src/Dispatcher/Override.antt =====
-- `shouldOverride` of core/xray/app/mydispatcher/default.go, and what `Dispatch` does with its answer:
-- which target and which protocol a sniffed connection has. `regexp`, the fake DNS pool and
-- `net.ParseAddress` are parameters.
use v2sp.Prelude.{
  if◌then◌else◌, ◌==◌, nat_eq, int_eq, is_empty, Text, codes, text_eq, starts_with, drop, to_lower,
  Bool, true, false, not, ◌&&◌, ◌||◌, Option, none, some, List, [], ◌∷◌,
}
use v2sp.Sniffers.{
  Address, ip_address, domain_address, Destination, SniffResult, domain_of, protocol_for_domain,
  is_proto_subset_of,
}

-- `session.SniffingRequest`.
pub record SniffingRequest : Type 0 where
  pub exclude_for_domain : List Text
  pub override_destination_for_protocol : List Text
  pub enabled : Bool
  pub metadata_only : Bool
  pub route_only : Bool

-- `session.Outbound`, as far as it is written here.
pub record Outbound : Type 0 where
  pub original_target : Option Destination
  pub target : Option Destination
  pub route_target : Option Destination
  pub tag : Text

-- `Compile`, `MatchString`, the pool of a fake DNS engine that has one, and `ParseAddress`.
pub record Matching (Regexp : Type 0) : Type 0 where
  pub compile : Text → Option Regexp
  pub match_string : Regexp → Text → Bool
  pub is_ip_in_ip_pool : Option (Address → Bool)
  pub parse_address : Text → Address

unfoldable pub is_ip : Address → Bool
is_ip (ip_address ip) = true
is_ip (domain_address domain) = false

module _ {Regexp : Type 0} (k : Matching Regexp) where
  -- Does one entry of `ExcludeForDomain` exclude the domain?
  unfoldable pub excludes : Text → Text → Bool
  unfolding starts_with drop to_lower
  excludes domain entry =
      if starts_with (codes "regexp:") entry
      then elim (k.compile (drop 7 entry)) [ none ↦ false | some re ↦ k.match_string re domain ]
      else to_lower domain == entry

  unfoldable pub is_excluded : Text → List Text → Bool
  unfolding excludes
  is_excluded domain [] = false
  is_excluded domain (entry ∷ rest) = excludes domain entry || is_excluded domain rest

  -- `fkr0.IsIPInIPPool(address)`, where the engine has a pool.
  unfoldable pub in_pool : Address → Bool
  in_pool address = elim k.is_ip_in_ip_pool [ none ↦ false | some pool ↦ pool address ]

  -- One entry of `OverrideDestinationForProtocol`.
  unfoldable pub overrides : SniffResult → Text → Address → Text → Bool
  unfolding starts_with in_pool is_ip
  overrides result protocol_string address p =
      (starts_with p protocol_string || starts_with protocol_string p)
      || (not (protocol_string == codes "bittorrent")
          && (p == codes "fakedns")
          && is_ip address
          && in_pool address)
      || is_proto_subset_of result p

  unfoldable pub any_overrides : SniffResult → Text → Address → List Text → Bool
  unfolding overrides
  any_overrides result protocol_string address [] = false
  any_overrides result protocol_string address (p ∷ rest) =
      overrides result protocol_string address p
      || any_overrides result protocol_string address rest

  unfoldable pub should_override : SniffResult → SniffingRequest → Destination → Bool
  unfolding is_excluded any_overrides
  should_override result request destination =
      let domain = domain_of result in
      if is_empty domain
      then false
      else if is_excluded domain request.exclude_for_domain
      then false
      else any_overrides result (protocol_for_domain result) destination.address
          request.override_destination_for_protocol

  -- The part of `Dispatch` and of `DispatchLink` after the sniffing: the destination that is routed,
  -- and the outbound. `checks_family` is the test of the target's family that `Dispatch` makes.
  unfoldable pub redirect :
      Bool → SniffResult → SniffingRequest → Destination → Outbound → Destination × Outbound
  unfolding should_override in_pool is_ip
  redirect checks_family result request destination ob =
      let destination' = record destination { address = k.parse_address (domain_of result) } in
      let protocol = protocol_for_domain result in
      let is_fake_ip : Bool = elim ob.target [
        | none ↦ false
        | some target ↦ (not checks_family || is_ip target.address) && in_pool target.address
      ] in
      let routes_only =
        request.route_only
        && not (protocol == codes "fakedns")
        && not (protocol == codes "fakedns+others")
        && not is_fake_ip in
      if should_override result request destination
      then (
        destination',
        if routes_only
            then record ob { route_target = some destination' }
            else record ob { target = some destination' },
      )
      else (destination, ob)
