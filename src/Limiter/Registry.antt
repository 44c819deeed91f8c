-- ===== src/Limiter/Registry.antt =====
-- The table of limiters in limiter/limiter.go. A `*Limiter` is a place on a heap: the controller
-- that made it and the dispatcher that looks it up by tag share one object.
use v2sp.Prelude.{
  nat_beq, if◌then◌else◌, nat_beq_iff, Bool-cases, ◌==◌, nat_eq, ℤ, int_eq, length, get_elem?, set,
  length-append, get_elem?-set_self, get_elem?-set_ne, get_elem?-lt, get_elem?-append_end,
  get_elem?-append_lt, get_elem?-end, Map, lookup, insert, delete, lookup-insert,
  lookup-insert_self, Text, text_beq_iff, text_eq, ℕ, zero, suc, ◌<◌, ◌≡◌, refl, ◌≢◌, inl, inr,
  Option, none, some, List, [], ◌∷◌, ◌++◌, arith,
}
use v2sp.Panel.{UserInfo}
use v2sp.Limiter.{Limiter, user_tag, new_limit_info, add_users}
use v2sp.Limiter.Users.{latest, map_option, add_users-info}

pub record Registry (Regexp Bucket : Type 0) : Type 0 where
  pub heap : List (Limiter Regexp Bucket)
  pub limiter : Map Text ℕ

module _ {Regexp Bucket : Type 0} where
  -- A limiter with no user.
  unfoldable pub empty_limiter : ℤ → Map ℤ ℤ → Limiter Regexp Bucket
  empty_limiter speed_limit alive_list = record {
    domain_rules = [];
    protocol_rules = [];
    speed_limit = speed_limit;
    user_online_ip = [];
    old_user_online = [];
    uuid_to_uid = [];
    user_limit_info = [];
    speed_limiter = [];
    alive_list = alive_list;
  }

  -- `AddLimiter`: the second result is the pointer that the caller keeps.
  unfoldable pub add_limiter :
      Text → ℤ → List UserInfo → Map ℤ ℤ → Registry Regexp Bucket → Registry Regexp Bucket × ℕ
  unfolding empty_limiter
  add_limiter tag speed_limit users alive_list r =
      let info = add_users tag users (empty_limiter speed_limit alive_list) in
      let place = length r.heap in
      (record { heap = r.heap ++ (info ∷ []); limiter = insert tag place r.limiter }, place)

  unfoldable pub get_limiter : Text → Registry Regexp Bucket → Option ℕ
  get_limiter tag r = lookup tag r.limiter

  unfoldable pub delete_limiter : Text → Registry Regexp Bucket → Registry Regexp Bucket
  delete_limiter tag r = record r { limiter = delete tag r.limiter }

  -- Reading and writing through a pointer.
  unfoldable pub deref : ℕ → Registry Regexp Bucket → Option (Limiter Regexp Bucket)
  deref p r = get_elem? r.heap p

  unfoldable pub modify :
      ℕ
      → (Limiter Regexp Bucket → Limiter Regexp Bucket)
      → Registry Regexp Bucket
      → Registry Regexp Bucket
  modify p f r = elim (get_elem? r.heap p) [
    | none ↦ r
    | some l ↦ record r { heap = set r.heap p (f l) }
  ]

  -- Every tag leads to a limiter on the heap.
  abbrev pub IsSound : Registry Regexp Bucket → Type 0
  IsSound r = (tag : Text) (p : ℕ) → lookup tag r.limiter ≡ some p → p < length r.heap

  -- The new limiter is the one that its tag leads to; it holds a fresh record for each user, the
  -- last given for the uuid; every other tag leads where it led, to a limiter that is unchanged.
  pub add_limiter_lem :
      (tag : Text) (speed_limit : ℤ) (users : List UserInfo) (alive_list : Map ℤ ℤ)
      (r : Registry Regexp Bucket)
      → IsSound r
      → let (r', p) = add_limiter tag speed_limit users alive_list r in
        IsSound r'
        × (get_limiter tag r' ≡ some p)
        × ((l : Limiter Regexp Bucket) × (deref p r' ≡ some l)
            × ((uuid : Text)
                → lookup (user_tag tag uuid) l.user_limit_info
                  ≡ map_option new_limit_info (latest uuid users)))
        × ((other : Text) (q : ℕ)
            → other ≢ tag
            → get_limiter other r ≡ some q
            → (get_limiter other r' ≡ some q) × (deref q r' ≡ deref q r))
  unfolding add_limiter get_limiter deref lookup
  add_limiter_lem tag speed_limit users alive_list r sound = (
    (λ t p e. ground (
      arith,
      lookup-insert tag t (length r.heap) r.limiter,
      length-append r.heap (add_users tag users (empty_limiter speed_limit alive_list) ∷ []),
      sound t p,
    )),
    lookup-insert_self tag (length r.heap) r.limiter,
    (
      add_users tag users (empty_limiter speed_limit alive_list),
      get_elem?-append_end r.heap _,
      λ uuid. ground (arith, add_users-info tag uuid users (empty_limiter speed_limit alive_list)),
    ),
    (λ other q ne e. (
      ground (arith, lookup-insert tag other (length r.heap) r.limiter, text_beq_iff tag other),
      get_elem?-append_lt r.heap _ q (sound other q e),
    )),
  )

  pub deref-modify :
      (p : ℕ) (f : Limiter Regexp Bucket → Limiter Regexp Bucket) (r : Registry Regexp Bucket)
      (l : Limiter Regexp Bucket)
      → deref p r ≡ some l
      → deref p (modify p f r) ≡ some (f l)
  unfolding deref modify
  deref-modify p f r l d =
      rw (d, modify) (get_elem?-set_self r.heap p (f l) (get_elem?-lt r.heap p l d))

  -- What the holder of a pointer writes is what a lookup of the tag reads, and no other pointer's
  -- limiter changes.
  pub modify_shared :
      (tag : Text) (p q : ℕ) (f : Limiter Regexp Bucket → Limiter Regexp Bucket)
      (r : Registry Regexp Bucket) (l : Limiter Regexp Bucket)
      → get_limiter tag r ≡ some p
      → deref p r ≡ some l
      → (get_limiter tag (modify p f r) ≡ some p)
        × (deref p (modify p f r) ≡ some (f l))
        × (deref q (modify p f r) ≡ (if nat_beq q p then some (f l) else deref q r))
  unfolding get_limiter deref modify
  modify_shared tag p q f r l e d = (
    ground arith,
    rw (d, modify) (get_elem?-set_self r.heap p (f l) (get_elem?-lt r.heap p l d)),
    elim (Bool-cases (nat_beq q p)) [
      | inl same ↦ ground (arith, nat_beq_iff q p, deref-modify p f r l d)
      | inr other ↦
          let ne : p ≢ q = λ e. ground (arith, nat_beq_iff q p) in
          rw (other, d, modify) (get_elem?-set_ne r.heap p q (f l) ne)
    ],
  )

  get_elem?-append_one :
      (xs : List (Limiter Regexp Bucket)) (x : Limiter Regexp Bucket) (i : ℕ)
      → get_elem? (xs ++ (x ∷ [])) i ≡ (if nat_beq i (length xs) then some x else get_elem? xs i)
  get_elem?-append_one [] x zero = refl
  get_elem?-append_one [] x (suc i) = ground arith
  get_elem?-append_one (y ∷ xs) x zero = ground arith
  get_elem?-append_one (y ∷ xs) x (suc i) = ground (arith, get_elem?-append_one xs x i)

  -- `AddLimiter` returns a pointer to a limiter of its own, to which its tag leads from then on; it
  -- holds a fresh record for each user, the last given for the uuid. Every other tag leads where it
  -- led, and every other pointer reads what it read.
  pub add_limiter-reads :
      (tag : Text) (speed_limit : ℤ) (users : List UserInfo) (alive_list : Map ℤ ℤ)
      (r : Registry Regexp Bucket) (t uuid : Text) (q : ℕ)
      → let (r', p) = add_limiter tag speed_limit users alive_list r in
        (get_limiter t r' ≡ (if tag == t then some p else get_limiter t r))
        × ((l : Limiter Regexp Bucket) × (deref q r' ≡ (if nat_beq q p then some l else deref q r))
            × (lookup (user_tag tag uuid) l.user_limit_info
                ≡ map_option new_limit_info (latest uuid users)))
        × (deref p r ≡ none)
  unfolding add_limiter get_limiter deref lookup
  add_limiter-reads tag speed_limit users alive_list r t uuid q = (
    lookup-insert tag t (length r.heap) r.limiter,
    (
      add_users tag users (empty_limiter speed_limit alive_list),
      get_elem?-append_one r.heap _ q,
      ground (arith, add_users-info tag uuid users (empty_limiter speed_limit alive_list)),
    ),
    get_elem?-end r.heap,
  )
