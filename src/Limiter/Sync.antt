-- ===== src/Limiter/Sync.antt =====
-- The limiter after a round of the panel: the comparison of node/user.go put into effect by
-- `UpdateUser` and `UpdateUserLimits`.
use v2sp.Prelude.{
  if◌then◌else◌, nat_eq, is_some, ℤ, int_beq_iff, int_eq, lookup, Text, text_eq, ◌≡◌, Bool, false,
  not, ◌&&◌, Option, none, some, List, arith,
}
use v2sp.Panel.{UserInfo}
use v2sp.Limiter.{Limiter, UserLimitInfo, user_tag, new_limit_info, update_user, update_user_limits}
use v2sp.Limiter.Users.{
  latest, map_option, or_else, limits_from, update_user-info, update_user_limits-info,
}
use v2sp.Node.Users.{limits_changed, compare_user_list}
use v2sp.Node.Users.Laws.{Unique, update_of, compare_user_list_lem}

abbrev pub Limits : Type 0
Limits = ℤ × ℤ

abbrev pub limits_of_user : UserInfo → Limits
limits_of_user u = (u.speed_limit, u.device_limit)

abbrev pub limits_of_info : UserLimitInfo → Limits
limits_of_info i = (i.speed_limit, i.device_limit)

-- The limiter knows exactly the users of the list, each with its speed and device limits.
abbrev pub IsSynced :
    {Regexp Bucket : Type 0} → Text → List UserInfo → Limiter Regexp Bucket → Type 0
IsSynced tag users l =
    (uuid : Text)
    → map_option limits_of_info (lookup (user_tag tag uuid) l.user_limit_info)
      ≡ map_option limits_of_user (latest uuid users)

unchanged_limits :
    (o n : UserInfo) → limits_changed o n ≡ false → limits_of_user o ≡ limits_of_user n
unfolding limits_changed
unchanged_limits o n h =
    ground
      (arith, int_beq_iff o.speed_limit n.speed_limit, int_beq_iff o.device_limit n.device_limit)

-- What one user's record becomes, with the lists the comparison gives: in step with the new list.
entry_synced :
    (old new : Option UserInfo) (info : Option UserLimitInfo) (deleted : Bool)
    (added updated : Option UserInfo)
    → map_option limits_of_info info ≡ map_option limits_of_user old
    → deleted ≡ (is_some old && not (is_some new))
    → added ≡ (if is_some old then none else new)
    → updated ≡ update_of old new
    → map_option limits_of_info (
        map_option
          (limits_from updated)
          (or_else (map_option new_limit_info added) (if deleted then none else info)))
      ≡ map_option limits_of_user new
unfolding new_limit_info
entry_synced none none info deleted added updated s d a u = ground arith
entry_synced none (some n) info deleted added updated s d a u = ground arith
entry_synced (some o) none info deleted added updated s d a u = ground arith
entry_synced (some o) (some n) info deleted added updated s d a u =
    ground (arith, unchanged_limits o n)

-- A limiter in step with the old list is in step with the new one after the round, for a new list
-- that names no uuid twice: the comparison loses no user and no change of a limit.
pub round-IsSynced :
    {Regexp Bucket : Type 0} (tag : Text) (old new : List UserInfo) (l : Limiter Regexp Bucket)
    → Unique new
    → IsSynced tag old l
    → let (deleted, added, updated) = compare_user_list old new in
      IsSynced tag new (update_user_limits tag updated (update_user tag added deleted l))
round-IsSynced tag old new l h synced uuid =
    let (deleted, added, updated) = compare_user_list old new in
    let c = compare_user_list_lem old new uuid h in
    rw
      (
        update_user_limits-info tag uuid updated (update_user tag added deleted l),
        update_user-info tag uuid added deleted l,
      )
      (entry_synced (latest uuid old) (latest uuid new)
        (lookup (user_tag tag uuid) l.user_limit_info) _ _ _ (synced uuid) c.0 c.1 c.2)
