-- ===== src/Limiter.antt =====
-- limiter/limiter.go, limiter/dynamic.go and common/format/user.go: the limits of one node's users,
-- the check that every new connection passes, and the devices seen online. A call is atomic; the
-- time is an argument. The token bucket (github.com/juju/ratelimit) is a parameter.
pub mod Tags
pub mod Speed
pub mod Reject
pub mod Users
pub mod Accept
pub mod Online
pub mod Rules
pub mod Registry
pub mod Sync
mod Tests
use v2sp.Prelude.{
  if◌then◌else◌, ◌==◌, nat_eq, is_some, option_or, ℤ, ◌+ℤ◌, ◌*ℤ◌, quot, ltb_ℤ, leb_ℤ, int_eq,
  wrap64, pos, negsuc, Map, lookup, insert, delete, Text, codes, text_eq, trim_prefix, ◌/◌, ◌^◌,
  Bool, true, false, not, ◌&&◌, ◌||◌, Option, none, some, List, [], ◌∷◌, ◌++◌,
}
use v2sp.Panel.{UserInfo, OnlineUser}

-- format.UserTag: the tag, a bar, the uuid.
unfoldable pub user_tag : Text → Text → Text
user_tag tag uuid = tag ++ (b'|' ∷ uuid)

pub record UserLimitInfo : Type 0 where
  pub uid : ℤ
  pub speed_limit : ℤ
  pub device_limit : ℤ
  pub dynamic_speed_limit : ℤ
  pub expire_time : ℤ
  pub over_limit : Bool

pub record Limiter (Regexp Bucket : Type 0) : Type 0 where
  pub domain_rules : List Regexp
  pub protocol_rules : List Text
  pub speed_limit : ℤ
  pub user_online_ip : Map Text (Map Text ℤ)
  pub old_user_online : Map Text ℤ
  pub uuid_to_uid : Map Text ℤ
  pub user_limit_info : Map Text UserLimitInfo
  pub speed_limiter : Map Text Bucket
  pub alive_list : Map ℤ ℤ

-- The smaller of two limits, where 0 stands for no limit.
unfoldable pub determine_speed_limit : ℤ → ℤ → ℤ
determine_speed_limit limit1 limit2 =
    if limit1 == pos 0
    then limit2
    else if limit2 == pos 0
    then limit1
    else if ltb_ℤ limit1 limit2
    then limit1
    else limit2

-- A fresh `UserLimitInfo` with the limits of a panel user; a limit of 0 is the field's zero value.
unfoldable pub new_limit_info : UserInfo → UserLimitInfo
new_limit_info u = record {
  uid = u.id;
  speed_limit = u.speed_limit;
  device_limit = u.device_limit;
  dynamic_speed_limit = pos 0;
  expire_time = pos 0;
  over_limit = false;
}

-- Seconds since the epoch of an instant in nanoseconds: `Time.Unix` rounds down.
unfoldable pub unix : ℤ → ℤ
unix (pos n) = pos (n / 10 ^ 9)
unix (negsuc n) = negsuc (n / 10 ^ 9)

-- `time.Duration(n) * time.Second`, an `int64` of nanoseconds.
unfoldable pub seconds : ℤ → ℤ
seconds n = wrap64 (n *ℤ pos (10 ^ 9))

-- The inner loop of `GetOnlineDevice`, over the devices of one user.
unfoldable pub collect_ips :
    Map Text ℤ → Map Text ℤ → List OnlineUser → Map Text ℤ × List OnlineUser
collect_ips [] old out = (old, out)
collect_ips ((ip, uid) ∷ ips) old out =
    collect_ips ips (insert ip uid old) (out ++ (record { uid = uid; ip = ip } ∷ []))

-- `int64(limit) * 1000000 / 8`: bytes per second from megabits per second.
unfoldable pub byte_rate : ℤ → ℤ
byte_rate limit = quot (wrap64 (limit *ℤ pos 1000000)) 8

module _ {Regexp Bucket : Type 0} where
  -- The first loop of `UpdateUser`.
  unfoldable pub delete_users : Text → List UserInfo → Limiter Regexp Bucket → Limiter Regexp Bucket
  delete_users tag [] l = l
  delete_users tag (u ∷ us) l = delete_users tag us (record l {
    user_limit_info = delete (user_tag tag u.uuid) l.user_limit_info;
    user_online_ip = delete (user_tag tag u.uuid) l.user_online_ip;
    speed_limiter = delete (user_tag tag u.uuid) l.speed_limiter;
    uuid_to_uid = delete u.uuid l.uuid_to_uid;
    alive_list = delete u.id l.alive_list;
  })

  -- The second loop of `UpdateUser`, and the loop of `AddLimiter`.
  unfoldable pub add_users : Text → List UserInfo → Limiter Regexp Bucket → Limiter Regexp Bucket
  add_users tag [] l = l
  add_users tag (u ∷ us) l = add_users tag us (record l {
    user_limit_info = insert (user_tag tag u.uuid) (new_limit_info u) l.user_limit_info;
    uuid_to_uid = insert u.uuid u.id l.uuid_to_uid;
  })

  unfoldable pub update_user :
      Text → List UserInfo → List UserInfo → Limiter Regexp Bucket → Limiter Regexp Bucket
  update_user tag added deleted l = add_users tag added (delete_users tag deleted l)

  -- The body of `UpdateUserLimits` for one user whose record is `info`.
  unfoldable pub update_limits_of :
      Text → UserInfo → UserLimitInfo → Limiter Regexp Bucket → Limiter Regexp Bucket
  update_limits_of taguuid u info l =
      let speed_changed = not (u.speed_limit == info.speed_limit) in
      let device_changed = not (u.device_limit == info.device_limit) in
      let stricter =
        ltb_ℤ (pos 0) u.device_limit
        && (info.device_limit == pos 0 || ltb_ℤ u.device_limit info.device_limit) in
      record l {
        user_limit_info =
            insert taguuid
              (record info { speed_limit = u.speed_limit; device_limit = u.device_limit })
              l.user_limit_info;
        speed_limiter = if speed_changed then delete taguuid l.speed_limiter else l.speed_limiter;
        user_online_ip =
            if device_changed && stricter
            then delete taguuid l.user_online_ip
            else l.user_online_ip;
      }

  unfoldable pub update_user_limits :
      Text → List UserInfo → Limiter Regexp Bucket → Limiter Regexp Bucket
  update_user_limits tag [] l = l
  update_user_limits tag (u ∷ us) l =
      update_user_limits tag us (elim (lookup (user_tag tag u.uuid) l.user_limit_info) [
        | none ↦ l
        | some info ↦ update_limits_of (user_tag tag u.uuid) u info l
      ])

  -- `expire` is an instant; the second result is the error.
  unfoldable pub update_dynamic_speed_limit :
      Text → Text → ℤ → ℤ → Limiter Regexp Bucket → Limiter Regexp Bucket × Option Text
  update_dynamic_speed_limit tag uuid limit expire l =
      elim (lookup (user_tag tag uuid) l.user_limit_info) [
        | none ↦ (l, some (codes "not found"))
        | some info ↦ (
          record l {
            user_limit_info =
                insert (user_tag tag uuid)
                  (record info { dynamic_speed_limit = limit; expire_time = unix expire })
                  l.user_limit_info;
          },
          none,
        )
      ]

  -- `AddDynamicSpeedLimit` stores a record with no uid and no static limits.
  unfoldable pub add_dynamic_speed_limit :
      Text → UserInfo → ℤ → ℤ → ℤ → Limiter Regexp Bucket → Limiter Regexp Bucket
  add_dynamic_speed_limit tag user limit_num expire now l = record l {
    user_limit_info =
        insert (user_tag tag user.uuid)
          (record {
            uid = pos 0;
            speed_limit = pos 0;
            device_limit = pos 0;
            dynamic_speed_limit = limit_num;
            expire_time = unix (now +ℤ seconds expire);
            over_limit = false;
          })
          l.user_limit_info;
  }

  -- The outer loop of `GetOnlineDevice`, which deletes each entry as it passes.
  unfoldable pub collect_users :
      Map Text (Map Text ℤ)
      → Limiter Regexp Bucket
      → List OnlineUser
      → Limiter Regexp Bucket × List OnlineUser
  collect_users [] l out = (l, out)
  collect_users ((taguuid, ips) ∷ rest) l out =
      let (old, out') = collect_ips ips l.old_user_online out in
      collect_users rest
        (record l { old_user_online = old; user_online_ip = delete taguuid l.user_online_ip }) out'

  unfoldable pub get_online_device : Limiter Regexp Bucket → Limiter Regexp Bucket × List OnlineUser
  get_online_device l = collect_users l.user_online_ip (record l { old_user_online = [] }) []

  -- The speed part of `CheckLimit`: the limiter after an expiry, and the user's speed limit.
  unfoldable pub user_speed :
      Text → UserLimitInfo → ℤ → Limiter Regexp Bucket → Limiter Regexp Bucket × ℤ
  user_speed taguuid u now l =
      if ltb_ℤ u.expire_time (unix now) && not (u.expire_time == pos 0)
      then (if not (u.speed_limit == pos 0)
          then (
            record l {
              user_limit_info =
                  insert taguuid (record u { dynamic_speed_limit = pos 0; expire_time = pos 0 })
                    l.user_limit_info;
            },
            u.speed_limit,
          )
          else (record l { user_limit_info = delete taguuid l.user_limit_info }, pos 0))
      else (l, determine_speed_limit u.speed_limit u.dynamic_speed_limit)

  -- The device part of `CheckLimit`; the second result is the rejection.
  unfoldable pub check_device :
      Text → Text → ℤ → ℤ → Limiter Regexp Bucket → Limiter Regexp Bucket × Bool
  check_device taguuid ip uid device_limit l =
      let alive_ip = option_or (lookup uid l.alive_list) (pos 0) in
      let full = ltb_ℤ (pos 0) device_limit && leb_ℤ device_limit alive_ip in
      elim (lookup taguuid l.user_online_ip) [
        | some old_ips ↦
            if is_some (lookup ip old_ips)
            then (l, false)
            else let stored = insert ip uid old_ips in
              let l' = record l { user_online_ip = insert taguuid stored l.user_online_ip } in
              elim (lookup ip l.old_user_online) [
                | some v ↦ (
                  if v == uid
                      then record l' { old_user_online = delete ip l.old_user_online }
                      else l',
                  false,
                )
                | none ↦
                    if full
                    then (
                      record l' {
                        user_online_ip = insert taguuid (delete ip stored) l'.user_online_ip;
                      },
                      true,
                    )
                    else (l', false)
              ]
        | none ↦
            let l' = record l {
              user_online_ip = insert taguuid ((ip, uid) ∷ []) l.user_online_ip;
            } in
            elim (lookup ip l.old_user_online) [
              | some v ↦ (
                if v == uid
                    then record l' { old_user_online = delete ip l.old_user_online }
                    else l',
                false,
              )
              | none ↦
                  if full
                  then (record l' { user_online_ip = delete taguuid l'.user_online_ip }, true)
                  else (l', false)
            ]
      ]

  module _ (new_bucket : ℤ → ℤ → ℤ → Bucket) where
    -- The bucket part of `CheckLimit`: the user's bucket, made on the first use.
    unfoldable pub pick_bucket :
        Text → ℤ → Limiter Regexp Bucket → Limiter Regexp Bucket × Option Bucket
    pick_bucket taguuid user_limit l =
        let limit = byte_rate (determine_speed_limit l.speed_limit user_limit) in
        if ltb_ℤ (pos 0) limit
        then elim (lookup taguuid l.speed_limiter) [
          | some bucket ↦ (l, some bucket)
          | none ↦
              let bucket = new_bucket (pos (10 ^ 9)) limit limit in
              (record l { speed_limiter = insert taguuid bucket l.speed_limiter }, some bucket)
        ]
        else (l, none)

    -- `CheckLimit(taguuid, ip, isTcp, noSSUDP)`: the bucket, and whether to reject.
    unfoldable pub check_limit :
        Text
        → Text
        → Bool
        → Bool
        → ℤ
        → Limiter Regexp Bucket
        → Limiter Regexp Bucket × Option Bucket × Bool
    check_limit taguuid raw_ip is_tcp no_ssudp now l =
        let ip = trim_prefix (codes "::ffff:") raw_ip in
        elim (lookup taguuid l.user_limit_info) [
          | none ↦ (l, none, true)
          | some u ↦
              let (l1, user_limit) = user_speed taguuid u now l in
              let (l2, reject) =
                if no_ssudp then check_device taguuid ip u.uid u.device_limit l1 else (l1, false) in
              if reject
              then (l2, none, true)
              else let (l3, bucket) = pick_bucket taguuid user_limit l2 in (l3, bucket, false)
        ]
