-- ===== src/Limiter/Accept.antt =====
-- What an accepted connection gets: its token bucket. And what an expired temporary limit leaves.
use v2sp.Prelude.{
  if◌then◌else◌, Bool-cases, Option-cases, nat_eq, option_or, ℤ, ◌<ℤ◌, ltb_ℤ, int_beq_iff, int_eq,
  pos, lookup, lookup-insert_self, lookup-delete_self, Text, codes, text_eq, trim_prefix, ◌^◌, ◌≡◌,
  refl, ◌≢◌, inl, inr, Bool, true, none, some, arith,
}
use v2sp.Limiter.{
  Limiter, UserLimitInfo, determine_speed_limit, byte_rate, unix, user_speed, check_device,
  pick_bucket, check_limit,
}

module _ {Regexp Bucket : Type 0} (new_bucket : ℤ → ℤ → ℤ → Bucket) where
  -- A user whose combined rate is positive gets the bucket on file, or else a new one of that rate,
  -- and the bucket is on file afterwards, so that every later connection shares it; at any other
  -- rate there is no bucket and nothing changes.
  pub pick_bucket_shared :
      (t : Text) (user_limit : ℤ) (l : Limiter Regexp Bucket)
      → let rate = byte_rate (determine_speed_limit l.speed_limit user_limit) in
        let (l', got) = pick_bucket new_bucket t user_limit l in
        if ltb_ℤ (pos 0) rate
        then ((b : Bucket) × (got ≡ some b)
            × (b ≡ option_or (lookup t l.speed_limiter) (new_bucket (pos (10 ^ 9)) rate rate))
            × (lookup t l'.speed_limiter ≡ some b)
            × (pick_bucket new_bucket t user_limit l' ≡ (l', some b)))
        else ((l' ≡ l) × (got ≡ none))
  unfolding pick_bucket
  pick_bucket_shared t user_limit l = elim (Bool-cases (ltb_ℤ (pos 0) rate)) [
    | inr h ↦ rw (h, pick_bucket) (refl, refl)
    | inl h ↦ elim (Option-cases (lookup t l.speed_limiter)) [
      | inl e ↦ rw h (
        fresh,
        ground arith,
        ground arith,
        ground (arith, lookup-insert_self t fresh l.speed_limiter),
        ground (arith, lookup-insert_self t fresh l.speed_limiter),
      )
      | inr (b, e) ↦ rw h (b, ground arith, ground arith, ground arith, ground arith)
    ]
  ]
    where
      rate : ℤ
      rate = byte_rate (determine_speed_limit l.speed_limit user_limit)

      fresh : Bucket
      fresh = new_bucket (pos (10 ^ 9)) rate rate

  expired_forgets :
      (t : Text) (u : UserLimitInfo) (now : ℤ) (l : Limiter Regexp Bucket)
      → u.speed_limit ≡ pos 0
      → u.expire_time ≢ pos 0
      → u.expire_time <ℤ unix now
      → lookup t (user_speed t u now l).0.user_limit_info ≡ none
  unfolding user_speed
  expired_forgets t u now l unlimited temporary past = ground (
    arith,
    int_beq_iff u.expire_time (pos 0),
    int_beq_iff u.speed_limit (pos 0),
    lookup-delete_self t l.user_limit_info,
  )

  devices_keep_info :
      (t ip : Text) (uid d : ℤ) (l : Limiter Regexp Bucket)
      → (check_device t ip uid d l).0.user_limit_info ≡ l.user_limit_info
  unfolding check_device
  devices_keep_info t ip uid d l = ground arith

  bucket_keeps_info :
      (t : Text) (user_limit : ℤ) (l : Limiter Regexp Bucket)
      → (pick_bucket new_bucket t user_limit l).0.user_limit_info ≡ l.user_limit_info
  unfolding pick_bucket
  bucket_keeps_info t user_limit l = ground arith

  -- The bug: a user with no static speed limit whose temporary limit has run out loses the record at
  -- the next connection, and every connection after that one is refused.
  pub expired_user_locked_out :
      (t ip ip' : Text) (is_tcp no_ssudp is_tcp' no_ssudp' : Bool) (now later : ℤ)
      (u : UserLimitInfo) (l : Limiter Regexp Bucket)
      → lookup t l.user_limit_info ≡ some u
      → u.speed_limit ≡ pos 0
      → u.expire_time ≢ pos 0
      → u.expire_time <ℤ unix now
      → (check_limit new_bucket t ip' is_tcp' no_ssudp' later
          (check_limit new_bucket t ip is_tcp no_ssudp now l).0).2
        ≡ true
  unfolding check_limit
  expired_user_locked_out t ip ip' is_tcp no_ssudp is_tcp' no_ssudp' now later u l e unlimited
        temporary past =
      ground (arith, forgotten)
    where
      l1 : Limiter Regexp Bucket
      l1 = (user_speed t u now l).0

      forgotten :
          lookup t (check_limit new_bucket t ip is_tcp no_ssudp now l).0.user_limit_info ≡ none
      forgotten = ground (
        arith,
        expired_forgets t u now l unlimited temporary past,
        devices_keep_info t (trim_prefix (codes "::ffff:") ip) u.uid u.device_limit l1,
        bucket_keeps_info t (user_speed t u now l).1 l1,
        bucket_keeps_info t (user_speed t u now l).1
            (check_device t (trim_prefix (codes "::ffff:") ip) u.uid u.device_limit l1).0,
      )
