-- ===== src/Limiter/Users.antt =====
-- What the limiter knows of each user after the panel's list has changed.
use v2sp.Prelude.{
  if◌then◌else◌, Option-cases, ◌==◌, nat_eq, is_some, int_eq, lookup, insert, delete, lookup-insert,
  lookup-delete, Text, text_beq_iff, text_eq, ◌≡◌, refl, inl, inr, Option, none, some, List, [],
  ◌∷◌, arith,
}
use v2sp.Panel.{UserInfo}
use v2sp.Limiter.{
  Limiter, UserLimitInfo, user_tag, new_limit_info, delete_users, add_users, update_user,
  update_limits_of, update_user_limits,
}
use v2sp.Limiter.Tags.{user_tag_beq}

-- The last entry of a list of users with the uuid.
unfoldable pub latest : Text → List UserInfo → Option UserInfo
latest uuid [] = none
latest uuid (u ∷ us) = elim (latest uuid us) [
  | some w ↦ some w
  | none ↦ if u.uuid == uuid then some u else none
]

abbrev pub or_else {ℓ} : {A : Type ℓ} → Option A → Option A → Option A
or_else none o = o
or_else (some a) o = some a

abbrev pub map_option {ℓ κ} : {A : Type ℓ} {B : Type κ} → (A → B) → Option A → Option B
map_option f none = none
map_option f (some a) = some (f a)

-- A record with the static limits of a panel user, where there is one.
abbrev pub limits_from : Option UserInfo → UserLimitInfo → UserLimitInfo
limits_from none info = info
limits_from (some u) info = record info {
  speed_limit = u.speed_limit;
  device_limit = u.device_limit;
}

module _ {Regexp Bucket : Type 0} (tag uuid : Text) where
  pub add_users-info :
      (us : List UserInfo) (l : Limiter Regexp Bucket)
      → lookup (user_tag tag uuid) (add_users tag us l).user_limit_info
        ≡ or_else
            (map_option new_limit_info (latest uuid us))
            (lookup (user_tag tag uuid) l.user_limit_info)
  unfolding add_users latest
  add_users-info [] l = refl
  add_users-info (u ∷ us) l = ground (
    arith,
    add_users-info us (record l {
      user_limit_info = insert (user_tag tag u.uuid) (new_limit_info u) l.user_limit_info;
      uuid_to_uid = insert u.uuid u.id l.uuid_to_uid;
    }),
    lookup-insert (user_tag tag u.uuid) (user_tag tag uuid) (new_limit_info u) l.user_limit_info,
    user_tag_beq tag u.uuid uuid,
  )

  delete_users-info :
      (us : List UserInfo) (l : Limiter Regexp Bucket)
      → lookup (user_tag tag uuid) (delete_users tag us l).user_limit_info
        ≡ (if is_some (latest uuid us) then none else lookup (user_tag tag uuid) l.user_limit_info)
  unfolding delete_users latest
  delete_users-info [] l = refl
  delete_users-info (u ∷ us) l = ground (
    arith,
    delete_users-info us (record l {
      user_limit_info = delete (user_tag tag u.uuid) l.user_limit_info;
      user_online_ip = delete (user_tag tag u.uuid) l.user_online_ip;
      speed_limiter = delete (user_tag tag u.uuid) l.speed_limiter;
      uuid_to_uid = delete u.uuid l.uuid_to_uid;
      alive_list = delete u.id l.alive_list;
    }),
    lookup-delete (user_tag tag u.uuid) (user_tag tag uuid) l.user_limit_info,
    user_tag_beq tag u.uuid uuid,
  )

  -- After `UpdateUser` an added user has a fresh record, the last given for the uuid; a user that is
  -- deleted and not added has none; every other user's record is as before.
  pub update_user-info :
      (added deleted : List UserInfo) (l : Limiter Regexp Bucket)
      → lookup (user_tag tag uuid) (update_user tag added deleted l).user_limit_info
        ≡ or_else (map_option new_limit_info (latest uuid added)) (
            if is_some (latest uuid deleted)
            then none
            else lookup (user_tag tag uuid) l.user_limit_info)
  unfolding update_user
  update_user-info added deleted l =
      rw (add_users-info added (delete_users tag deleted l), delete_users-info deleted l)

  update_limits_of-info :
      (u : UserInfo) (info : UserLimitInfo) (l : Limiter Regexp Bucket)
      → lookup (user_tag tag uuid) (update_limits_of (user_tag tag u.uuid) u info l).user_limit_info
        ≡ (if u.uuid == uuid
            then some (limits_from (some u) info)
            else lookup (user_tag tag uuid) l.user_limit_info)
  unfolding update_limits_of
  update_limits_of-info u info l = rw (
    lookup-insert (user_tag tag u.uuid) (user_tag tag uuid) (limits_from (some u) info)
        l.user_limit_info,
    user_tag_beq tag u.uuid uuid,
  )

  -- `UpdateUserLimits` gives each known user the last limits listed for the uuid and leaves the rest
  -- of the record; it makes no record for an unknown user.
  pub update_user_limits-info :
      (us : List UserInfo) (l : Limiter Regexp Bucket)
      → lookup (user_tag tag uuid) (update_user_limits tag us l).user_limit_info
        ≡ map_option (limits_from (latest uuid us)) (lookup (user_tag tag uuid) l.user_limit_info)
  unfolding update_user_limits latest
  update_user_limits-info [] l = ground arith
  update_user_limits-info (u ∷ us) l =
      elim (Option-cases (lookup (user_tag tag u.uuid) l.user_limit_info)) [
        | inl e ↦
            rw (e, update_user_limits)
              (ground (arith, update_user_limits-info us l, text_beq_iff u.uuid uuid))
        | inr (info, e) ↦
            rw (e, update_user_limits)
              (ground (
                arith,
                update_user_limits-info us (update_limits_of (user_tag tag u.uuid) u info l),
                update_limits_of-info u info l,
                text_beq_iff u.uuid uuid,
              ))
      ]
