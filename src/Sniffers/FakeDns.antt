-- ===== src/Sniffers/FakeDns.antt =====
-- The sniffers of a core with a fake DNS engine.
use v2sp.Prelude.{
  if◌then◌else◌, nat_eq, int_eq, is_empty, Text, text_eq, ◌≡◌, refl, sym, ap, ◌∙◌, ◌≢◌, not, ◌&&◌,
  ◌||◌, none, some, arith,
}
use v2sp.Sniffers.{
  Network, network_beq, unknown, tcp, udp, unix_socket, fake_dns, SniffContext, found, failed,
  no_clue, is_no_clue, give_up, sniff, sniff_metadata_loop, sniff_metadata, FakeDnsEngine,
  fake_dns_sniffer, new_fake_dns_sniffer, new_fake_dns_then_others, ContentSniffers,
  content_entries, new_sniffer,
}
use v2sp.Sniffers.Order.{entries_of, answer, sniff-answer}

entries_of-new_sniffer :
    (k : ContentSniffers) (engine : FakeDnsEngine) (network : Network)
    → network ≢ unknown
    → entries_of network (new_sniffer k (some engine)) ≡ entries_of network (new_sniffer k none)
unfolding new_sniffer content_entries new_fake_dns_sniffer new_fake_dns_then_others network_beq
entries_of-new_sniffer k engine unknown h = absurd (h refl)
entries_of-new_sniffer k engine tcp h = refl
entries_of-new_sniffer k engine udp h = refl
entries_of-new_sniffer k engine unix_socket h = refl

-- The bug: the sniffer that combines fake DNS with the content sniffers is registered for no
-- network, so a payload of a known network is sniffed with the same result with the engine and
-- without it, whatever the sniffers are.
pub sniff-new_sniffer :
    (k : ContentSniffers) (engine : FakeDnsEngine) (c : SniffContext) (payload : Text)
    (network : Network)
    → network ≢ unknown
    → (sniff c payload network (new_sniffer k (some engine))).1
      ≡ (sniff c payload network (new_sniffer k none)).1
sniff-new_sniffer k engine c payload network h =
    sniff-answer c payload network (new_sniffer k (some engine))
    ∙ ap (answer c payload network) (entries_of-new_sniffer k engine network h)
    ∙ sym (sniff-answer c payload network (new_sniffer k none))

-- The metadata sniffing of a core with an engine finds the domain of a fake address of a TCP or UDP
-- target; in any other case it has no clue. The sniffers are left as they are.
pub sniff_metadata-new_sniffer :
    (k : ContentSniffers) (engine : FakeDnsEngine) (c : SniffContext)
    → let domain = engine.get_domain_from_fake_dns c.target.address in
      let known = network_beq c.target.network tcp || network_beq c.target.network udp in
      sniff_metadata c (new_sniffer k (some engine)) ≡ (
        new_sniffer k (some engine),
        if known && not (is_empty domain) then found (fake_dns domain) else failed no_clue,
      )
unfolding new_sniffer content_entries new_fake_dns_sniffer new_fake_dns_then_others sniff_metadata
    sniff_metadata_loop give_up is_no_clue fake_dns_sniffer
sniff_metadata-new_sniffer k engine c = ground arith
