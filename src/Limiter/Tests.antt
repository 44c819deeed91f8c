-- ===== src/Limiter/Tests.antt =====
-- The theorems on the limiter at concrete nodes and users.
use v2sp.Prelude.{
  ◌==◌, nat_eq, ℤ, ◌*ℤ◌, quot, int_eq, wrap64, pos, contains, lookup, Text, codes, text_beq,
  text_eq, trim_prefix, ◌*◌, ◌^◌, ◌≡◌, refl, Bool, true, false, Option, none, some, [], ◌∷◌, arith,
}
use v2sp.Panel.{UserInfo, OnlineUser}
use v2sp.Panel
use v2sp.Limiter.{
  Limiter, UserLimitInfo, user_tag, update_user, update_user_limits, determine_speed_limit,
  byte_rate, pick_bucket, check_limit, get_online_device, unix, collect_users, collect_ips,
  new_limit_info,
}
use v2sp.Limiter.Registry.{Registry}
use v2sp.Limiter.Users.{latest, update_user-info, update_user_limits-info}
use v2sp.Limiter.Reject.{is_recorded, is_carried, is_full, check_limit-reject}
use v2sp.Limiter.Accept.{pick_bucket_shared, expired_user_locked_out}
use v2sp.Limiter.Online.{devices, devices_of, has_ip, get_online_device_lem, reported_device_passes}
use v2sp.Limiter.Sync.{IsSynced, round-IsSynced}
use v2sp.Node.Users.{compare_user_list}

abbrev tag : Text
tag = codes "n"

abbrev alice : UserInfo
alice = record { id = pos 1; uuid = codes "a"; speed_limit = pos 8; device_limit = pos 1 }

abbrev bob : UserInfo
bob = record { id = pos 2; uuid = codes "b"; speed_limit = pos 0; device_limit = pos 0 }

abbrev faster : UserInfo
faster = record alice { speed_limit = pos 16 }

abbrev home : Text
home = codes "1.1.1.1"

abbrev away : Text
away = codes "2.2.2.2"

abbrev alice_info : UserLimitInfo
alice_info = record {
  uid = pos 1;
  speed_limit = pos 8;
  device_limit = pos 1;
  dynamic_speed_limit = pos 0;
  expire_time = pos 0;
  over_limit = false;
}

-- Slowed down to 1 megabit until second 10.
abbrev slowed_info : UserLimitInfo
slowed_info = record {
  uid = pos 2;
  speed_limit = pos 0;
  device_limit = pos 0;
  dynamic_speed_limit = pos 1;
  expire_time = pos 10;
  over_limit = false;
}

abbrev sample : Limiter Text ℤ
sample = record {
  domain_rules = [];
  protocol_rules = [];
  speed_limit = pos 0;
  user_online_ip = (user_tag tag (codes "a"), (home, pos 1) ∷ []) ∷ [];
  old_user_online = [];
  uuid_to_uid = [];
  user_limit_info =
      (user_tag tag (codes "a"), alice_info) ∷ (user_tag tag (codes "b"), slowed_info) ∷ [];
  speed_limiter = [];
  alive_list = (pos 1, pos 1) ∷ [];
}

abbrev new_bucket : ℤ → ℤ → ℤ → ℤ
new_bucket interval quantum capacity = quantum

update_user_example :
    lookup
      (user_tag tag (codes "b"))
      (update_user tag (bob ∷ []) (alice ∷ []) sample).user_limit_info
    ≡ some (new_limit_info bob)
unfolding latest codes text_beq
update_user_example = update_user-info tag (codes "b") (bob ∷ []) (alice ∷ []) sample

update_user_limits_example :
    lookup (user_tag tag (codes "a")) (update_user_limits tag (faster ∷ []) sample).user_limit_info
    ≡ some (record alice_info { speed_limit = pos 16 })
unfolding latest codes text_beq lookup user_tag
update_user_limits_example = update_user_limits-info tag (codes "a") (faster ∷ []) sample

round-IsSynced_example :
    let (deleted, added, updated) = compare_user_list [] (alice ∷ bob ∷ []) in
    IsSynced tag (alice ∷ bob ∷ []) (
      update_user_limits tag updated
        (update_user tag added deleted (record sample { user_limit_info = [] })))
unfolding lookup latest codes text_beq contains
round-IsSynced_example =
    round-IsSynced tag [] (alice ∷ bob ∷ []) (record sample { user_limit_info = [] })
      (refl, (refl, tt)) (λ uuid. refl)

check_limit_reject_example :
    (check_limit new_bucket (user_tag tag (codes "a")) away true true (pos 0) sample).2 ≡ true
unfolding is_recorded is_carried is_full codes text_beq user_tag lookup trim_prefix
check_limit_reject_example =
    check_limit-reject new_bucket (user_tag tag (codes "a")) away true true (pos 0) sample

pick_bucket_shared_example :
    let (l', got) = pick_bucket new_bucket (user_tag tag (codes "a")) (pos 8) sample in
    (b : ℤ) × (got ≡ some b)
    × (b ≡ pos 1000000)
    × (lookup (user_tag tag (codes "a")) l'.speed_limiter ≡ some b)
    × (pick_bucket new_bucket (user_tag tag (codes "a")) (pos 8) l' ≡ (l', some b))
unfolding byte_rate determine_speed_limit wrap64 quot ◌*ℤ◌ lookup
pick_bucket_shared_example = pick_bucket_shared new_bucket (user_tag tag (codes "a")) (pos 8) sample

expired_user_example :
    (check_limit new_bucket
      (user_tag tag (codes "b"))
      home
      true
      true
      (pos 0)
      (check_limit new_bucket
        (user_tag tag (codes "b"))
        home
        true
        true
        (pos (12 * 10 ^ 9))
        sample).0).2
    ≡ true
unfolding lookup codes text_beq user_tag unix
expired_user_example =
    expired_user_locked_out new_bucket (user_tag tag (codes "b")) home home true true true true
      (pos (12 * 10 ^ 9)) (pos 0) slowed_info sample refl refl (λ e. ground arith) (omega arith)

get_online_device_example :
    let (l', reported) = get_online_device sample in
    (reported ≡ record { uid = pos 1; ip = home } ∷ [])
    × ((k : Text) → lookup k l'.user_online_ip ≡ none)
    × ((ip : Text) → is_carried l' ip ≡ has_ip reported ip)
    × (l'.user_limit_info ≡ sample.user_limit_info)
unfolding devices devices_of
get_online_device_example = get_online_device_lem sample

reported_device_example :
    (check_limit new_bucket
      (user_tag tag (codes "a"))
      home
      true
      true
      (pos 0)
      (get_online_device sample).0).2
    ≡ false
unfolding lookup codes text_beq user_tag has_ip get_online_device collect_users collect_ips
    trim_prefix
reported_device_example =
    reported_device_passes new_bucket (user_tag tag (codes "a")) home true true (pos 0) sample refl
      refl

abbrev compile : Text → Option Text
compile [] = none
compile (c ∷ cs) = some (c ∷ cs)

abbrev matches : Text → Text → Bool
matches re destination = re == destination

abbrev rules : Panel.Rules
rules = record { regexp = [] ∷ home ∷ []; protocol = codes "bittorrent" ∷ [] }

abbrev one_limiter : Registry Text ℤ
one_limiter = record { heap = sample ∷ []; limiter = (tag, 0) ∷ [] }
