-- ===== src/Xray/Tests.antt =====
-- The theorems on the users of the xray core at concrete users and traffic.
use v2sp.Prelude.{
  nat_eq, ◌+ℤ◌, int_eq, wrap64, pos, lookup, Text, codes, text_beq, text_eq, ℕ, ◌≡◌, refl, true,
  none, some, List, [], ◌∷◌,
}
use v2sp.Panel.{NodeInfo, UserInfo}
use v2sp.Counter.{TrafficCounter, add64}
use v2sp.Limiter.{user_tag}
use v2sp.Limiter.Users.{latest}
use v2sp.Xray.{Xray, Inbounds, add_users, del_users, remove_loop}
use v2sp.Xray.Traffic.{
  get_user_traffic_slice, report_of, is_due, counts_of, get_user_traffic_slice_lem,
}
use v2sp.Xray.Removal.{counted_for, del_users_lem}

abbrev tag : Text
tag = codes "n"

abbrev alice : UserInfo
alice = record { id = pos 1; uuid = codes "a"; speed_limit = pos 0; device_limit = pos 0 }

-- Handlers that keep the emails of their users.
abbrev inbounds : Inbounds (List Text)
inbounds = record {
  get_user_manager = λ t m. none;
  to_memory_user = λ u. none;
  add_user = λ t u m. (u.email ∷ m, none);
  remove_user = λ t email m. ([], none);
}

abbrev counted : TrafficCounter
counted = record {
  counters = (user_tag tag (codes "a"), record { up_counter = pos 5; down_counter = pos 6 }) ∷ [];
  count = pos 1;
}

abbrev xray : Xray (List Text) ℕ
xray = record {
  uid_map = (user_tag tag (codes "a"), pos 1) ∷ [];
  node_report_min_traffic_bytes = (tag, pos 10) ∷ [];
  counter = (tag, counted) ∷ [];
  link_managers = (user_tag tag (codes "a"), 9) ∷ [];
  closed = [];
  inbounds = user_tag tag (codes "a") ∷ [];
}

get_user_traffic_slice_example :
    let (x', slice) = get_user_traffic_slice tag true xray in
    (slice ≡ record { uid = pos 1; upload = pos 5; download = pos 6 } ∷ [])
    × ((c' : TrafficCounter) × (lookup tag x'.counter ≡ some c')
        × (counts_of (lookup (user_tag tag (codes "a")) c'.counters) ≡ (pos 0, pos 0)))
unfolding report_of is_due add64 wrap64 ◌+ℤ◌ lookup codes text_beq user_tag
get_user_traffic_slice_example =
    get_user_traffic_slice_lem tag (user_tag tag (codes "a")) xray counted refl (refl, tt)

del_users_example :
    (lookup (user_tag tag (codes "a")) (del_users inbounds (alice ∷ []) tag xray).0.uid_map ≡ none)
    × (counted_for tag (user_tag tag (codes "a")) (del_users inbounds (alice ∷ []) tag xray).0
        ≡ none)
    × (lookup (user_tag tag (codes "a")) (del_users inbounds (alice ∷ []) tag xray).0.link_managers
        ≡ none)
unfolding del_users remove_loop latest codes text_beq
del_users_example =
    del_users_lem inbounds (alice ∷ []) tag (codes "a") xray
      (del_users inbounds (alice ∷ []) tag xray).0 refl

abbrev trojan_node : NodeInfo
trojan_node = record {
  id = pos 7;
  type = codes "trojan";
  security = pos 1;
  push_interval = pos 60;
  pull_interval = pos 60;
  raw_dns = record { dns_map = []; dns_json = [] };
  rules = record { regexp = []; protocol = [] };
  vallss = none;
  shadowsocks = none;
  trojan = none;
  common = none;
}

abbrev base64 : Text → Text
base64 key = key

abbrev imported : Xray (List Text) ℕ
imported = (add_users base64 inbounds tag (alice ∷ []) trojan_node xray).0
