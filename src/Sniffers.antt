-- ===== src/Sniffers.antt =====
-- core/xray/app/mydispatcher/sniffer.go and fakednssniffer.go: what the content and the target of a
-- connection say about its protocol and its domain. The sniffers of github.com/xtls/xray-core and
-- its fake DNS engine are parameters.
pub mod Order
pub mod FakeDns
mod Tests
use v2sp.Prelude.{
  ltb, leb, nat_beq, if◌then◌else◌, ltb→lt, leb→le, nat_beq_iff, Bool-cases, Option-cases, Eq, ◌==◌,
  nat_eq, eq_refl, is_some, option_or, ℤ, pos_part, neg_part, sub_ℕ, ◌+ℤ◌, ◌-ℤ◌, ◌*ℤ◌, quot, ◌≤ℤ◌,
  ◌<ℤ◌, ltb_ℤ, leb_ℤ, int_beq, int_beq_iff, int_eq, wrap64, IsInt64, wrap64_fits, wrap64-IsInt64,
  pos, negsuc, length, is_empty, get_elem?, set, length-append, get_elem?-set_self,
  get_elem?-set_ne, get_elem?-lt, All, contains, contains-append, Map, lookup, insert, delete,
  Distinct, lookup-insert, lookup-delete, lookup-insert_self, lookup-delete_self, length-insert,
  insert-Distinct, delete-Distinct, delete_absent, length-delete, Text, codes, text_beq,
  text_beq_iff, text_eq, starts_with, drop, size, trim_prefix, ends_with, contains_byte, lower_byte,
  to_lower, digits_from, itoa, ℕ, zero, suc, ◌+◌, ◌-◌, ◌*◌, ◌/◌, ◌%◌, ◌^◌, ◌≤◌, ◌<◌, ◌≡◌, refl, sym,
  ap, ◌∙◌, ◌≢◌, ◌↔◌, ◌⊎◌, inl, inr, Bool, true, false, not, ◌&&◌, ◌||◌, Option, none, some, List,
  [], ◌∷◌, ◌++◌, map, arith,
}

pub data Network : Type 0 where
  unknown tcp udp unix_socket : Network

unfoldable pub network_beq : Network → Network → Bool
network_beq unknown unknown = true
network_beq tcp tcp = true
network_beq udp udp = true
network_beq unix_socket unix_socket = true
network_beq m n = false

-- An address of github.com/xtls/xray-core, by its `Family`.
pub data Address : Type 0 where
  ip_address : Text → Address
  domain_address : Text → Address

pub record Destination : Type 0 where
  pub address : Address
  pub port : ℕ
  pub network : Network

-- `reported` is a result of a sniffer that is not of this repository.
pub data SniffResult : Type 0 where
  reported : Text → Text → SniffResult
  fake_dns : Text → SniffResult
  dns_then_others : Text → Text → SniffResult
  composite : SniffResult → SniffResult → SniffResult

-- `Protocol()`.
unfoldable pub protocol_of : SniffResult → Text
protocol_of (reported protocol domain) = protocol
protocol_of (fake_dns domain) = codes "fakedns"
protocol_of (dns_then_others domain original) = codes "fakedns+others"
protocol_of (composite domain_result protocol_result) = protocol_of protocol_result

-- `Domain()`.
unfoldable pub domain_of : SniffResult → Text
domain_of (reported protocol domain) = domain
domain_of (fake_dns domain) = domain
domain_of (dns_then_others domain original) = domain
domain_of (composite domain_result protocol_result) = domain_of domain_result

-- `ProtocolForDomainResult()` of a composite, and `Protocol()` of any other result.
unfoldable pub protocol_for_domain : SniffResult → Text
unfolding protocol_of
protocol_for_domain (reported protocol domain) = protocol_of (reported protocol domain)
protocol_for_domain (fake_dns domain) = protocol_of (fake_dns domain)
protocol_for_domain (dns_then_others domain original) =
    protocol_of (dns_then_others domain original)
protocol_for_domain (composite domain_result protocol_result) = protocol_of domain_result

-- The type assertion to `SnifferIsProtoSubsetOf`, and the test where it holds.
unfoldable pub is_proto_subset_of : SniffResult → Text → Bool
unfolding starts_with
is_proto_subset_of (reported protocol domain) name = false
is_proto_subset_of (fake_dns domain) name = false
is_proto_subset_of (dns_then_others domain original) name = starts_with original name
is_proto_subset_of (composite domain_result protocol_result) name = false

unfoldable pub composite_result : SniffResult → SniffResult → SniffResult
composite_result domain_result protocol_result = composite domain_result protocol_result

-- The errors that the code tells apart; `other_error` is any other.
pub data SniffError : Type 0 where
  no_clue need_more_data sniffing_timeout unknown_content context_done other_error : SniffError

-- A `(SniffResult, error)`: `nothing` is a nil result with a nil error.
pub data Sniffed : Type 0 where
  found : SniffResult → Sniffed
  nothing : Sniffed
  failed : SniffError → Sniffed
  panicked : Sniffed

-- The context that a sniffer reads: the target, and whether it holds the `ipAddressInRange` option.
pub record SniffContext : Type 0 where
  pub target : Destination
  pub wants_range : Bool

-- The payload is nil in a metadata sniffing. The second result is what the sniffer stores in the
-- option of the context.
abbrev pub ProtocolSniffer : Type 0
ProtocolSniffer = SniffContext → Option Text → Sniffed × Option Bool

pub record SnifferEntry : Type 0 where
  pub protocol_sniffer : ProtocolSniffer
  pub metadata_sniffer : Bool
  pub network : Network

abbrev pub Sniffer : Type 0
Sniffer = List SnifferEntry

-- `err == common.ErrNoClue`
unfoldable pub is_no_clue : Sniffed → Bool
is_no_clue (failed no_clue) = true
is_no_clue result = false

-- The end of both loops.
unfoldable pub give_up : Sniffer → Sniffer → Sniffer × Sniffed
give_up pending s =
    if is_empty pending then (s, failed unknown_content) else (pending, failed no_clue)

-- The loop of `Sniff` over the entries that are left, with those found pending so far.
unfoldable pub sniff_loop :
    SniffContext → Text → Network → List SnifferEntry → Sniffer → Sniffer → Sniffer × Sniffed
unfolding give_up network_beq is_no_clue
sniff_loop c payload network [] pending s = give_up pending s
sniff_loop c payload network (si ∷ rest) pending s =
    let skipped = si.metadata_sniffer || not (network_beq si.network network) in
    let result = (si.protocol_sniffer c (some payload)).0 in
    let pending' = if not skipped && is_no_clue result then pending ++ (si ∷ []) else pending in
    let later = sniff_loop c payload network rest pending' s in
    if skipped
    then later
    else elim result [ found r ↦ (s, found r) | panicked ↦ (s, panicked) | _ ↦ later ]

unfoldable pub sniff : SniffContext → Text → Network → Sniffer → Sniffer × Sniffed
unfolding sniff_loop
sniff c payload network s = sniff_loop c payload network s [] s

-- The loop of `SniffMetadata`.
unfoldable pub sniff_metadata_loop :
    SniffContext → List SnifferEntry → Sniffer → Sniffer → Sniffer × Sniffed
unfolding give_up is_no_clue
sniff_metadata_loop c [] pending s = give_up pending s
sniff_metadata_loop c (si ∷ rest) pending s =
    let result = (si.protocol_sniffer c none).0 in
    let pending' =
      if not si.metadata_sniffer || is_no_clue result then pending ++ (si ∷ []) else pending in
    let later = sniff_metadata_loop c rest pending' s in
    if si.metadata_sniffer
    then elim result [ found r ↦ (s, found r) | panicked ↦ (s, panicked) | _ ↦ later ]
    else later

unfoldable pub sniff_metadata : SniffContext → Sniffer → Sniffer × Sniffed
unfolding sniff_metadata_loop
sniff_metadata c s = sniff_metadata_loop c s [] s

-- The fake DNS engine: the domain of an address, and the pool test of an engine that has one.
pub record FakeDnsEngine : Type 0 where
  pub get_domain_from_fake_dns : Address → Text
  pub is_ip_in_ip_pool : Option (Address → Bool)

-- The sniffer that `newFakeDNSSniffer` makes.
unfoldable pub fake_dns_sniffer : FakeDnsEngine → ProtocolSniffer
unfolding network_beq
fake_dns_sniffer engine c bytes =
    let domain = engine.get_domain_from_fake_dns c.target.address in
    if (network_beq c.target.network tcp || network_beq c.target.network udp)
      && not (is_empty domain)
    then (found (fake_dns domain), none)
    else (
      failed no_clue,
      if c.wants_range
          then elim engine.is_ip_in_ip_pool [
            | none ↦ none
            | some in_pool ↦ some (in_pool c.target.address)
          ]
          else none,
    )

unfoldable pub new_fake_dns_sniffer : FakeDnsEngine → SnifferEntry
unfolding fake_dns_sniffer
new_fake_dns_sniffer engine = record {
  protocol_sniffer = fake_dns_sniffer engine;
  metadata_sniffer = true;
  network = unknown;
}

-- The loop of `newFakeDNSThenOthers` over the other sniffers. The methods of a nil result with a nil
-- error are called too, a panic.
unfoldable pub try_others : List SnifferEntry → SniffContext → Option Text → Sniffed
unfolding protocol_of domain_of
try_others [] c bytes = failed no_clue
try_others (v ∷ rest) c bytes =
    let later = try_others rest c bytes in
    if v.metadata_sniffer || is_some bytes
    then elim (v.protocol_sniffer c bytes).0 [
      | found r ↦ found (dns_then_others (domain_of r) (protocol_of r))
      | nothing ↦ panicked
      | failed e ↦ later
      | panicked ↦ panicked
    ]
    else later

-- The sniffer that `newFakeDNSThenOthers` makes.
unfoldable pub then_others : ProtocolSniffer → List SnifferEntry → ProtocolSniffer
unfolding try_others
then_others fake others c0 bytes =
    let c = record c0 { wants_range = true } in
    let (result, in_range) = fake c bytes in
    elim result [
      | found r ↦ (found r, none)
      | nothing ↦ (nothing, none)
      | panicked ↦ (panicked, none)
      | failed e ↦ elim in_range [
        | none ↦ (failed no_clue, none)
        | some inside ↦ if inside then (try_others others c bytes, none) else (failed no_clue, none)
      ]
    ]

unfoldable pub new_fake_dns_then_others : SnifferEntry → List SnifferEntry → SnifferEntry
unfolding then_others
new_fake_dns_then_others fake others = record {
  protocol_sniffer = then_others fake.protocol_sniffer others;
  metadata_sniffer = false;
  network = unknown;
}

-- The sniffers of github.com/xtls/xray-core.
pub record ContentSniffers : Type 0 where
  pub sniff_http : ProtocolSniffer
  pub sniff_tls : ProtocolSniffer
  pub sniff_bittorrent : ProtocolSniffer
  pub sniff_quic : ProtocolSniffer
  pub sniff_utp : ProtocolSniffer

abbrev pub content_entry : ProtocolSniffer → Network → SnifferEntry
content_entry sniffer network = record {
  protocol_sniffer = sniffer;
  metadata_sniffer = false;
  network = network;
}

-- The first part of `NewSniffer`.
unfoldable pub content_entries : ContentSniffers → Sniffer
content_entries k =
    content_entry k.sniff_http tcp
    ∷ content_entry k.sniff_tls tcp
    ∷ content_entry k.sniff_bittorrent tcp
    ∷ content_entry k.sniff_quic udp
    ∷ content_entry k.sniff_utp udp
    ∷ []

-- `NewSniffer`; the engine is the feature of the core, when it has one.
unfoldable pub new_sniffer : ContentSniffers → Option FakeDnsEngine → Sniffer
unfolding content_entries new_fake_dns_sniffer new_fake_dns_then_others
new_sniffer k none = content_entries k
new_sniffer k (some engine) =
    new_fake_dns_then_others (new_fake_dns_sniffer engine) (content_entries k) ∷ content_entries k
    ++ (new_fake_dns_sniffer engine ∷ [])
