-- ===== src/Sniffers/Tests.antt =====
-- The theorems on the sniffers at concrete payloads.
use v2sp.Prelude.{nat_eq, int_eq, codes, text_eq, ◌≡◌, ◌≢◌, true, false, none, some, [], ◌∷◌, arith}
use v2sp.Sniffers.{
  unknown, tcp, ip_address, reported, SniffContext, ProtocolSniffer, Sniffer, found, failed,
  no_clue, other_error, sniff, FakeDnsEngine, ContentSniffers, content_entry, new_sniffer,
  network_beq, is_no_clue,
}
use v2sp.Sniffers.Order.{sniff_lem}
use v2sp.Sniffers.FakeDns.{sniff-new_sniffer}

abbrev target : SniffContext
target = record {
  target = record { address = ip_address (codes "198.18.0.1"); port = 443; network = tcp };
  wants_range = false;
}

abbrev silent : ProtocolSniffer
silent c payload = (failed no_clue, none)

abbrev deaf : ProtocolSniffer
deaf c payload = (failed other_error, none)

abbrev finds_tls : ProtocolSniffer
finds_tls c payload = (found (reported (codes "tls") (codes "example.com")), none)

abbrev sniffers : Sniffer
sniffers = content_entry silent tcp ∷ content_entry deaf tcp ∷ content_entry silent tcp ∷ []

sniff_example :
    sniff target (codes "hi") tcp sniffers
    ≡ (content_entry silent tcp ∷ content_entry silent tcp ∷ [], failed no_clue)
unfolding network_beq is_no_clue
sniff_example = sniff_lem target (codes "hi") tcp sniffers

abbrev contents : ContentSniffers
contents = record {
  sniff_http = silent;
  sniff_tls = finds_tls;
  sniff_bittorrent = deaf;
  sniff_quic = deaf;
  sniff_utp = deaf;
}

abbrev pool : FakeDnsEngine
pool = record {
  get_domain_from_fake_dns = λ address. [];
  is_ip_in_ip_pool = some (λ address. true);
}

tcp_known : tcp ≢ unknown
tcp_known e = ground arith

sniff-new_sniffer_example :
    (sniff target (codes "hi") tcp (new_sniffer contents (some pool))).1
    ≡ (sniff target (codes "hi") tcp (new_sniffer contents none)).1
sniff-new_sniffer_example = sniff-new_sniffer contents pool target (codes "hi") tcp tcp_known
