-- ===== src/Limiter/Reject.antt =====
-- When `CheckLimit` refuses a connection, and which devices it leaves on record.
use v2sp.Prelude.{
  if◌then◌else◌, Option-cases, ◌==◌, nat_eq, is_some, option_or, ℤ, ltb_ℤ, leb_ℤ, int_eq, pos, Map,
  lookup, insert, delete, lookup-insert, lookup-delete, Text, codes, text_beq_iff, text_eq,
  trim_prefix, ◌≡◌, refl, inl, inr, Bool, true, false, not, ◌&&◌, ◌||◌, none, some, [], ◌∷◌, arith,
}
use v2sp.Limiter.{Limiter, UserLimitInfo, user_speed, check_device, check_limit}

lookup_single :
    (k : Text) (v : ℤ) (j : Text) → lookup j ((k, v) ∷ []) ≡ (if k == j then some v else none)
unfolding lookup
lookup_single k v j = refl

delete-insert_fresh :
    (k : Text) (v : ℤ) (m : Map Text ℤ) → lookup k m ≡ none → delete k (insert k v m) ≡ m
unfolding lookup insert delete
delete-insert_fresh k v [] h = ground (arith, text_beq_iff k k)
delete-insert_fresh k v ((j, w) ∷ m) h = ground (arith, delete-insert_fresh k v m)

module _ {Regexp Bucket : Type 0} where
  -- Is the device on record as online for the user?
  unfoldable pub is_recorded : Limiter Regexp Bucket → Text → Text → Bool
  is_recorded l taguuid ip = elim (lookup taguuid l.user_online_ip) [
    | none ↦ false
    | some ips ↦ is_some (lookup ip ips)
  ]

  -- Was the address reported online in the round before, and not seen since?
  unfoldable pub is_carried : Limiter Regexp Bucket → Text → Bool
  is_carried l ip = is_some (lookup ip l.old_user_online)

  -- Has the panel counted at least as many devices as the user may have?
  unfoldable pub is_full : Limiter Regexp Bucket → ℤ → ℤ → Bool
  is_full l uid device_limit =
      ltb_ℤ (pos 0) device_limit && leb_ℤ device_limit (option_or (lookup uid l.alive_list) (pos 0))

  pub check_device-reject :
      (t ip : Text) (uid d : ℤ) (l : Limiter Regexp Bucket)
      → (check_device t ip uid d l).1
        ≡ (not (is_recorded l t ip) && (not (is_carried l ip) && is_full l uid d))
  unfolding check_device is_recorded is_carried is_full
  check_device-reject t ip uid d l = ground arith

  -- The check adds the device to the records exactly if it lets it pass, and changes no other.
  pub check_device-recorded :
      (t ip : Text) (uid d : ℤ) (l : Limiter Regexp Bucket) (t' ip' : Text)
      → is_recorded (check_device t ip uid d l).0 t' ip'
        ≡ (is_recorded l t' ip' || (t == t' && (ip == ip' && not (check_device t ip uid d l).1)))
  unfolding check_device is_recorded
  check_device-recorded t ip uid d l t' ip' = elim (Option-cases (lookup t l.user_online_ip)) [
    | inl e ↦
        rw (e, check_device)
          (ground (
            arith,
            text_beq_iff t t',
            text_beq_iff ip ip',
            lookup-insert t t' ((ip, uid) ∷ []) l.user_online_ip,
            lookup-delete t t' (insert t ((ip, uid) ∷ []) l.user_online_ip),
            lookup_single ip uid ip',
          ))
    | inr (old, e) ↦
        let stored = insert ip uid old in
        rw (e, check_device)
          (ground (
            arith,
            text_beq_iff t t',
            text_beq_iff ip ip',
            lookup-insert t t' stored l.user_online_ip,
            lookup-insert t t' (delete ip stored) (insert t stored l.user_online_ip),
            lookup-insert ip ip' uid old,
            lookup-delete ip ip' stored,
          ))
  ]

  -- An expiry touches nothing that the device check reads.
  user_speed-devices :
      (t : Text) (u : UserLimitInfo) (now : ℤ) (l : Limiter Regexp Bucket)
      → let l' = (user_speed t u now l).0 in
        (l'.user_online_ip ≡ l.user_online_ip)
        × (l'.old_user_online ≡ l.old_user_online)
        × (l'.alive_list ≡ l.alive_list)
  unfolding user_speed
  user_speed-devices t u now l = ground arith

  same_devices :
      (l l' : Limiter Regexp Bucket) (t ip : Text) (uid d : ℤ)
      → (l.user_online_ip ≡ l'.user_online_ip)
        × (l.old_user_online ≡ l'.old_user_online)
        × (l.alive_list ≡ l'.alive_list)
      → (is_recorded l t ip ≡ is_recorded l' t ip)
        × (is_carried l ip ≡ is_carried l' ip)
        × (is_full l uid d ≡ is_full l' uid d)
  unfolding is_recorded is_carried is_full
  same_devices l l' t ip uid d e = (rw e.0, rw e.1, rw e.2)

  -- A connection is refused exactly if its user is unknown, or if it comes over a stream from a
  -- device that is neither on record nor carried over while the panel counts the user's devices full.
  pub check_limit-reject :
      (new_bucket : ℤ → ℤ → ℤ → Bucket) (t raw_ip : Text) (is_tcp no_ssudp : Bool) (now : ℤ)
      (l : Limiter Regexp Bucket)
      → let ip = trim_prefix (codes "::ffff:") raw_ip in
        (check_limit new_bucket t raw_ip is_tcp no_ssudp now l).2
        ≡ elim (lookup t l.user_limit_info) [
          | none ↦ true
          | some u ↦
              no_ssudp
              && (not (is_recorded l t ip)
                  && (not (is_carried l ip) && is_full l u.uid u.device_limit))
        ]
  unfolding check_limit
  check_limit-reject new_bucket t raw_ip is_tcp no_ssudp now l =
      elim (Option-cases (lookup t l.user_limit_info)) [
        | inl e ↦ rw (e, check_limit) refl
        | inr (u, e) ↦
            rw (e, check_limit)
              (ground (
                arith,
                check_device-reject t ip u.uid u.device_limit (user_speed t u now l).0,
                same_devices (user_speed t u now l).0 l t ip u.uid u.device_limit
                    (user_speed-devices t u now l),
              ))
      ]
    where
      ip : Text
      ip = trim_prefix (codes "::ffff:") raw_ip
