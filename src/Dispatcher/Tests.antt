-- ===== src/Dispatcher/Tests.antt =====
-- The theorems on the dispatcher at concrete connections.
use v2sp.Prelude.{
  inl, ltb, ltb→lt, nat_eq, is_some, ℤ, ◌+ℤ◌, ◌≤ℤ◌, int_eq, pos, length, is_empty, contains, lookup,
  insert, Distinct, Text, codes, text_beq, text_eq, ℕ, zero, suc, ◌*◌, ◌^◌, ◌≡◌, refl, true, false,
  not, ◌||◌, none, some, List, [], ◌∷◌, arith,
}
use v2sp.Limiter.{Limiter, UserLimitInfo}
use v2sp.Limiter
use v2sp.Limiter.Registry.{Registry, get_limiter, deref, empty_limiter}
use v2sp.Limiter.Rules.{compile_all, some_pattern_matches, match_any, check_protocol_rule}
use v2sp.Sniffers.{
  tcp, ip_address, domain_address, Destination, reported, ProtocolSniffer, found, failed,
  other_error, ContentSniffers, new_sniffer, sniff, sniff_metadata, protocol_for_domain,
}
use v2sp.Dispatcher.Links.{close, interrupt, LinkEntry}
use v2sp.Dispatcher.{
  pipe_writer, pipe_reader, cached_reader, Writer, Reader, Link, Dispatcher, user_cleanup,
  mark_user_active, get_link_manager,
}
use v2sp.Dispatcher.Admission.{SessionInbound, limited_user, admit, get_link}
use v2sp.Dispatcher.Granted.{IsApart}
use v2sp.Dispatcher.Linking.{IsDecided, get_link_lem}
use v2sp.Dispatcher.Cleanup.{IsSpared, user_cleanup-spares}
use v2sp.Dispatcher.Override.{should_override}
use v2sp.Dispatcher.Sniffing.{CachedReader, Round, sniff_connection}
use v2sp.Dispatcher.Bytes.{bytes_left, drain, drain-sniff_connection}
use v2sp.Dispatcher.Rounds.{total_time, sniff_connection-ends}
use v2sp.Dispatcher.Routed.{
  OutboundManager, dropped, rejected_domain, panics, routed_dispatch, destination_text,
}
use v2sp.Dispatcher.Serve.{Features, Connection, serve, dispatch}
use v2sp.Dispatcher.Rules.{
  answer_of, routed_dispatch-handed, serve-sniffed_domain, dispatch-without_inbound,
}

abbrev node_tag : Text
node_tag = codes "n"

abbrev alice : Text
alice = codes "n|a"

-- A rule is the text that it matches; a bucket is its rate.
abbrev node_limiter : Limiter Text ℤ
node_limiter = record (empty_limiter (pos 0) []) {
  user_limit_info =
      (
        alice,
        record {
          uid = pos 1;
          speed_limit = pos 8;
          device_limit = pos 0;
          dynamic_speed_limit = pos 0;
          expire_time = pos 0;
          over_limit = false;
        },
      )
      ∷ [];
  domain_rules = codes "bad.com" ∷ [];
}

abbrev limiters : Registry Text ℤ
limiters = record { heap = node_limiter ∷ []; limiter = (node_tag, 0) ∷ [] }

abbrev from : Text → SessionInbound
from email = record {
  user = some email;
  tag = node_tag;
  source_ip = codes "1.1.1.1";
  source_network = tcp;
  can_splice_copy = 0;
}

abbrev bucket : ℤ → ℤ → ℤ → ℤ
bucket interval capacity rate = rate

abbrev idle : Dispatcher ℤ
idle = record { counter = []; link_managers = []; conn_states = []; managers = []; next_writer = 0 }

idle-IsApart : IsApart idle
unfolding lookup
idle-IsApart = (λ email p h. ground arith, λ email other p h k. ground arith)

get_link_example :
    IsDecided bucket
      (some (from alice))
      tcp
      (pos 5)
      1
      2
      limiters
      idle
      (from alice)
      alice
      (admit bucket (from alice) alice tcp (pos 5) limiters).1
unfolding limited_user codes
get_link_example =
    get_link_lem bucket (some (from alice)) tcp (pos 5) 1 2 limiters idle (from alice) alice
      idle-IsApart refl

-- A user with a connection, active a moment ago.
abbrev kept_link : LinkEntry (Writer ℤ) Reader
kept_link = record {
  id = 0;
  managed = record { writer = pipe_writer 1; create_time = pos 5 };
  reader = pipe_reader 1;
}

abbrev busy : Dispatcher ℤ
busy = record {
  counter = [];
  link_managers = (alice, 0) ∷ [];
  conn_states = (alice, record { tag = node_tag; last_active = pos 5 }) ∷ [];
  managers =
      record {
        links = (0, kept_link) ∷ [];
        index = (0, kept_link) ∷ [];
        element = (0, 0) ∷ [];
        next_element = 1;
      }
      ∷ [];
  next_writer = 1;
}

busy-Distinct : Distinct busy.link_managers
unfolding get_link codes get_limiter lookup text_beq deref Limiter.check_limit Limiter.check_device
    Limiter.user_speed Limiter.unix empty_limiter mark_user_active get_link_manager insert
busy-Distinct = (refl, tt)

busy-IsSpared :
    (p : ℕ) → lookup alice busy.link_managers ≡ some p → IsSpared (pos (10 ^ 15)) alice p busy
unfolding lookup text_beq codes
busy-IsSpared zero h = inl (_, refl, omega arith)
busy-IsSpared (suc p) h = absurd (ground arith)

user_cleanup-spares_example :
    ((user_cleanup (pos (10 ^ 15)) busy).1 ≡ [])
    × (lookup alice (user_cleanup (pos (10 ^ 15)) busy).0.link_managers
        ≡ lookup alice busy.link_managers)
    × (lookup alice (user_cleanup (pos (10 ^ 15)) busy).0.conn_states
        ≡ lookup alice busy.conn_states)
user_cleanup-spares_example =
    user_cleanup-spares (pos (10 ^ 15)) busy alice busy-Distinct busy-IsSpared

abbrev web : Destination
web = record { address = ip_address (codes "9.9.9.9"); port = 443; network = tcp }

abbrev finds_bad : ProtocolSniffer
finds_bad c payload = (found (reported (codes "tls") (codes "bad.com")), none)

abbrev finds_nothing : ProtocolSniffer
finds_nothing c payload = (failed other_error, none)

abbrev contents : ContentSniffers
contents = record {
  sniff_http = finds_nothing;
  sniff_tls = finds_bad;
  sniff_bittorrent = finds_nothing;
  sniff_quic = finds_nothing;
  sniff_utp = finds_nothing;
}

abbrev one_round : List Round
one_round = record { is_done = false; elapsed = pos (200 * 10 ^ 6) } ∷ []

abbrev hello : CachedReader
hello = record { source = some (codes "hi") ∷ none ∷ some (codes "you") ∷ []; cached = none }

abbrev outbounds : OutboundManager Text
outbounds = record {
  get_handler = λ tag. some tag;
  get_default_handler = some (codes "direct");
  handler_tag = λ h. h;
}

abbrev features : Features Text ℤ Text
features = record {
  new_bucket = bucket;
  matches = text_beq;
  matching = record {
    compile = some;
    match_string = text_beq;
    is_ip_in_ip_pool = none;
    parse_address = domain_address;
  };
  content_sniffers = contents;
  fake_dns_engine = none;
  is_valid = λ destination. true;
  manager = outbounds;
  routing =
      λ ob protocol. record { in_tag = node_tag; forced_outbound_tag = []; pick_route = none };
  capacity = 32768;
}

few_reads :
    ltb
      (length
        (sniff_connection
          (record { target = web; wants_range = false })
          tcp
          32768
          false
          one_round
          (new_sniffer contents none)
          hello).0.source)
      3
    ≡ true
unfolding sniff_connection codes sniff sniff_metadata new_sniffer
few_reads = refl

drain-sniff_connection_example :
    drain 3
      (sniff_connection
        (record { target = web; wants_range = false })
        tcp
        32768
        false
        one_round
        (new_sniffer contents none)
        hello).0
    ≡ bytes_left hello
drain-sniff_connection_example =
    drain-sniff_connection (record { target = web; wants_range = false }) tcp 32768 false one_round
      (new_sniffer contents none) hello 3 (ltb→lt _ _ few_reads)

enough_time : pos (200 * 10 ^ 6) ≤ℤ total_time one_round
unfolding total_time ◌+ℤ◌
enough_time = omega arith

sniff_connection-ends_example :
    is_some
      (sniff_connection
        (record { target = web; wants_range = false })
        tcp
        32768
        false
        one_round
        (new_sniffer contents none)
        hello).1
    ≡ true
sniff_connection-ends_example =
    sniff_connection-ends (record { target = web; wants_range = false }) tcp 32768 false one_round
      (new_sniffer contents none) hello enough_time

abbrev sniffed_connection : Connection
sniffed_connection = record {
  session = some (from alice);
  destination = web;
  outbound = none;
  sniffing = record {
    exclude_for_domain = [];
    override_destination_for_protocol = codes "tls" ∷ [];
    enabled = true;
    metadata_only = false;
    route_only = true;
  };
  protocol = [];
  rounds = one_round;
  reads = some (codes "hi") ∷ [];
}

abbrev link : Link ℤ
link = record { reader = pipe_reader 1; writer = pipe_writer 2 }

serve-sniffed_domain_example :
    answer_of (serve features true sniffed_connection limiters (some (from alice)) link (some 0))
    ≡ some (
      dropped (rejected_domain (codes "bad.com")),
      close (pipe_writer 2) ∷ interrupt (cached_reader (pipe_reader 1)) ∷ [],
    )
unfolding sniff_connection codes sniff sniff_metadata new_sniffer should_override
    protocol_for_domain deref compile_all some_pattern_matches text_beq destination_text
serve-sniffed_domain_example =
    serve-sniffed_domain features some (codes "bad.com" ∷ []) true sniffed_connection limiters
      (from alice) link 0 node_limiter (reported (codes "tls") (codes "bad.com")) refl refl refl
      refl refl refl refl

routed_dispatch-handed_example :
    (match_any text_beq node_limiter.domain_rules (codes "9.9.9.9") ≡ false)
    × ((is_empty (codes "tls") || not (check_protocol_rule node_limiter (codes "tls"))) ≡ true)
    × ((routed_dispatch text_beq outbounds limiters
          (some (from alice))
          (record { in_tag = node_tag; forced_outbound_tag = []; pick_route = none })
          link
          (ip_address (codes "9.9.9.9"))
          (some 0)
          (codes "tls")).1
        ≡ [])
unfolding deref routed_dispatch text_beq codes contains empty_limiter
routed_dispatch-handed_example =
    routed_dispatch-handed text_beq outbounds limiters (from alice)
      (record { in_tag = node_tag; forced_outbound_tag = []; pick_route = none }) link
      (ip_address (codes "9.9.9.9")) 0 (codes "tls") node_limiter (codes "direct")
      (some (codes "n >> direct")) refl refl refl

dispatch-without_inbound_example :
    let c = record sniffed_connection {
      session = none;
      sniffing = record sniffed_connection.sniffing { enabled = false };
    } in
    ((dispatch features c (pos 5) 1 2 limiters idle).0.dispatcher ≡ idle)
    × (answer_of (dispatch features c (pos 5) 1 2 limiters idle).1 ≡ some (panics, []))
dispatch-without_inbound_example =
    dispatch-without_inbound features
      (record sniffed_connection {
        session = none;
        sniffing = record sniffed_connection.sniffing { enabled = false };
      })
      (pos 5) 1 2 limiters idle refl refl refl
