-- ===== src/Limiter/Online.antt =====
-- The report of the devices online, which starts a new round of records.
use v2sp.Prelude.{
  if◌then◌else◌, ◌==◌, nat_eq, is_some, ℤ, int_eq, Map, lookup, insert, delete, lookup-insert,
  lookup-delete, Text, codes, text_eq, trim_prefix, ◌≡◌, refl, sym, Bool, true, false, ◌||◌, none,
  List, [], ◌∷◌, ◌++◌, arith,
}
use mathlib.Core.List.{append-nil, append_assoc}
use v2sp.Panel.{OnlineUser}
use v2sp.Limiter.{Limiter, collect_ips, collect_users, get_online_device, check_limit}
use v2sp.Limiter.Reject.{is_carried, check_limit-reject}

-- The devices of one user, and those of a whole table, in order.
unfoldable pub devices_of : Map Text ℤ → List OnlineUser
devices_of [] = []
devices_of ((ip, uid) ∷ ips) = record { uid = uid; ip = ip } ∷ devices_of ips

unfoldable pub devices : Map Text (Map Text ℤ) → List OnlineUser
devices [] = []
devices ((taguuid, ips) ∷ rest) = devices_of ips ++ devices rest

unfoldable pub has_ip : List OnlineUser → Text → Bool
has_ip [] ip = false
has_ip (d ∷ ds) ip = d.ip == ip || has_ip ds ip

unfoldable pub has_key : Map Text (Map Text ℤ) → Text → Bool
has_key [] t = false
has_key ((k, v) ∷ m) t = k == t || has_key m t

has_ip-append :
    (xs ys : List OnlineUser) (ip : Text) → has_ip (xs ++ ys) ip ≡ (has_ip xs ip || has_ip ys ip)
unfolding has_ip
has_ip-append [] ys ip = refl
has_ip-append (x ∷ xs) ys ip = ground (arith, has_ip-append xs ys ip)

collect_ips-devices :
    (ips old : Map Text ℤ) (out : List OnlineUser)
    → (collect_ips ips old out).1 ≡ out ++ devices_of ips
unfolding collect_ips devices_of
collect_ips-devices [] old out = sym (append-nil out)
collect_ips-devices ((ip, uid) ∷ ips) old out =
    rw (collect_ips-devices ips (insert ip uid old) (out ++ (record { uid = uid; ip = ip } ∷ [])))
      (append_assoc out _ _)

collect_ips-old :
    (ips old : Map Text ℤ) (out : List OnlineUser) (ip : Text)
    → is_some (lookup ip (collect_ips ips old out).0)
      ≡ (is_some (lookup ip old) || has_ip (devices_of ips) ip)
unfolding collect_ips devices_of has_ip
collect_ips-old [] old out ip = ground arith
collect_ips-old ((i, uid) ∷ ips) old out ip = ground (
  arith,
  collect_ips-old ips (insert i uid old) (out ++ (record { uid = uid; ip = i } ∷ [])) ip,
  lookup-insert i ip uid old,
)

module _ {Regexp Bucket : Type 0} where
  collect_users-devices :
      (m : Map Text (Map Text ℤ)) (l : Limiter Regexp Bucket) (out : List OnlineUser)
      → (collect_users m l out).1 ≡ out ++ devices m
  unfolding collect_users devices
  collect_users-devices [] l out = sym (append-nil out)
  collect_users-devices ((t, ips) ∷ rest) l out =
      rw (collect_users-devices rest _ _, collect_ips-devices ips l.old_user_online out)
        (append_assoc out _ _)

  collect_users-old :
      (m : Map Text (Map Text ℤ)) (l : Limiter Regexp Bucket) (out : List OnlineUser) (ip : Text)
      → is_some (lookup ip (collect_users m l out).0.old_user_online)
        ≡ (is_some (lookup ip l.old_user_online) || has_ip (devices m) ip)
  unfolding collect_users devices has_ip
  collect_users-old [] l out ip = ground arith
  collect_users-old ((t, ips) ∷ rest) l out ip = ground (
    arith,
    collect_users-old rest
        (record l {
          old_user_online = (collect_ips ips l.old_user_online out).0;
          user_online_ip = delete t l.user_online_ip;
        })
        (collect_ips ips l.old_user_online out).1 ip,
    collect_ips-old ips l.old_user_online out ip,
    has_ip-append (devices_of ips) (devices rest) ip,
  )

  collect_users-online :
      (m : Map Text (Map Text ℤ)) (l : Limiter Regexp Bucket) (out : List OnlineUser) (k : Text)
      → lookup k (collect_users m l out).0.user_online_ip
        ≡ (if has_key m k then none else lookup k l.user_online_ip)
  unfolding collect_users has_key
  collect_users-online [] l out k = refl
  collect_users-online ((t, ips) ∷ rest) l out k = ground (
    arith,
    collect_users-online rest
        (record l {
          old_user_online = (collect_ips ips l.old_user_online out).0;
          user_online_ip = delete t l.user_online_ip;
        })
        (collect_ips ips l.old_user_online out).1 k,
    lookup-delete t k l.user_online_ip,
  )

  collect_users-rest :
      (m : Map Text (Map Text ℤ)) (l : Limiter Regexp Bucket) (out : List OnlineUser)
      → let l' = (collect_users m l out).0 in
        (l'.user_limit_info ≡ l.user_limit_info) × (l'.speed_limiter ≡ l.speed_limiter)
  unfolding collect_users
  collect_users-rest [] l out = (refl, refl)
  collect_users-rest ((t, ips) ∷ rest) l out = collect_users-rest rest _ _

absent_key : (m : Map Text (Map Text ℤ)) (k : Text) → has_key m k ≡ false → lookup k m ≡ none
unfolding has_key lookup
absent_key [] k h = refl
absent_key ((t, v) ∷ m) k h = ground (arith, absent_key m k)

module _ {Regexp Bucket : Type 0} where
  -- The report lists every device on record, user by user; afterwards no device is on record, and
  -- an address is carried over exactly if the report names it.
  pub get_online_device_lem :
      (l : Limiter Regexp Bucket)
      → let (l', reported) = get_online_device l in
        (reported ≡ devices l.user_online_ip)
        × ((k : Text) → lookup k l'.user_online_ip ≡ none)
        × ((ip : Text) → is_carried l' ip ≡ has_ip reported ip)
        × (l'.user_limit_info ≡ l.user_limit_info)
  unfolding get_online_device is_carried has_ip lookup
  get_online_device_lem l = (
    collect_users-devices l.user_online_ip _ [],
    (λ k. ground (
      arith,
      collect_users-online l.user_online_ip (record l { old_user_online = [] }) [] k,
      absent_key l.user_online_ip k,
    )),
    (λ ip.
        rw (collect_users-devices l.user_online_ip (record l { old_user_online = [] }) [])
          (collect_users-old l.user_online_ip (record l { old_user_online = [] }) [] ip)),
    (collect_users-rest l.user_online_ip (record l { old_user_online = [] }) []).0,
  )

  -- A known user's device that the report has just named is let through afterwards, however many
  -- devices the panel counts.
  pub reported_device_passes :
      (new_bucket : ℤ → ℤ → ℤ → Bucket) (t raw_ip : Text) (is_tcp no_ssudp : Bool) (now : ℤ)
      (l : Limiter Regexp Bucket)
      → is_some (lookup t l.user_limit_info) ≡ true
      → has_ip (get_online_device l).1 (trim_prefix (codes "::ffff:") raw_ip) ≡ true
      → (check_limit new_bucket t raw_ip is_tcp no_ssudp now (get_online_device l).0).2 ≡ false
  reported_device_passes new_bucket t raw_ip is_tcp no_ssudp now l known named =
      let e = get_online_device_lem l in
      ground (
        arith,
        check_limit-reject new_bucket t raw_ip is_tcp no_ssudp now (get_online_device l).0,
        e.2 (trim_prefix (codes "::ffff:") raw_ip),
        e.3,
      )
