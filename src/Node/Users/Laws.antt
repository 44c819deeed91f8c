-- ===== src/Node/Users/Laws.antt =====
-- Which users a comparison calls deleted, added and updated.
use v2sp.Prelude.{
  if◌then◌else◌, ◌==◌, nat_eq, is_some, int_eq, Map, lookup, insert, delete, lookup-insert,
  lookup-delete, Text, text_beq_iff, text_eq, ◌≡◌, refl, not, ◌&&◌, Option, none, some, List, [],
  ◌∷◌, ◌++◌, arith,
}
use v2sp.Panel.{UserInfo}
use v2sp.Limiter.Users.{latest, or_else}
use v2sp.Node.Users.{
  Diff, index_users, limits_changed, compare_step, compare_loop, users_of, compare_user_list,
}

-- No uuid stands twice in the list.
abbrev pub Unique : List UserInfo → Type 0
Unique [] = Unit
Unique (u ∷ us) = (latest u.uuid us ≡ none) × Unique us

latest-append :
    (x : Text) (us vs : List UserInfo) → latest x (us ++ vs) ≡ or_else (latest x vs) (latest x us)
unfolding latest
latest-append x [] vs = ground arith
latest-append x (u ∷ us) vs = ground (arith, latest-append x us vs)

latest_single :
    (x : Text) (u : UserInfo) → latest x (u ∷ []) ≡ (if u.uuid == x then some u else none)
unfolding latest
latest_single x u = refl

lookup-index_users :
    (x : Text) (us : List UserInfo) (m : Map Text UserInfo)
    → lookup x (index_users us m) ≡ or_else (latest x us) (lookup x m)
unfolding index_users latest
lookup-index_users x [] m = refl
lookup-index_users x (u ∷ us) m =
    ground (arith, lookup-index_users x us (insert u.uuid u m), lookup-insert u.uuid x u m)

-- Every entry stands under its own uuid, and once.
abbrev IsKeyed : Map Text UserInfo → Type 0
IsKeyed [] = Unit {0}
IsKeyed ((k, u) ∷ m) = (u.uuid ≡ k) × IsKeyed m

insert-IsKeyed : (u : UserInfo) (m : Map Text UserInfo) → IsKeyed m → IsKeyed (insert u.uuid u m)
unfolding insert
insert-IsKeyed u [] h = (refl, tt)
insert-IsKeyed u ((k, w) ∷ m) h = ground (arith, text_beq_iff k u.uuid, insert-IsKeyed u m h.1)

delete-IsKeyed : (k : Text) (m : Map Text UserInfo) → IsKeyed m → IsKeyed (delete k m)
unfolding delete
delete-IsKeyed k [] h = tt
delete-IsKeyed k ((j, w) ∷ m) h = ground (arith, delete-IsKeyed k m h.1)

index_users-IsKeyed :
    (us : List UserInfo) (m : Map Text UserInfo) → IsKeyed m → IsKeyed (index_users us m)
unfolding index_users
index_users-IsKeyed [] m h = h
index_users-IsKeyed (u ∷ us) m h = index_users-IsKeyed us _ (insert-IsKeyed u m h)

compare_loop-IsKeyed :
    (us : List UserInfo) (d : Diff) → IsKeyed d.old_map → IsKeyed (compare_loop us d).old_map
unfolding compare_loop compare_step
compare_loop-IsKeyed [] d h = h
compare_loop-IsKeyed (u ∷ us) d h =
    compare_loop-IsKeyed us _ (ground (arith, delete-IsKeyed u.uuid d.old_map h))

latest-users_of :
    (x : Text) (m : Map Text UserInfo)
    → IsKeyed m
    → is_some (latest x (users_of m)) ≡ is_some (lookup x m)
unfolding latest users_of lookup
latest-users_of x [] h = refl
latest-users_of x ((k, u) ∷ m) h = ground (arith, latest-users_of x m h.1)

-- What is left of the old users: those that the new list does not name.
old_map-compare_loop :
    (x : Text) (us : List UserInfo) (d : Diff)
    → lookup x (compare_loop us d).old_map
      ≡ (if is_some (latest x us) then none else lookup x d.old_map)
unfolding compare_loop compare_step latest
old_map-compare_loop x [] d = refl
old_map-compare_loop x (u ∷ us) d = ground (
  arith,
  old_map-compare_loop x us (compare_step u d),
  lookup-delete u.uuid x d.old_map,
  text_beq_iff u.uuid x,
)

lookup_nil : (x : Text) → lookup {V = UserInfo} x [] ≡ none
unfolding lookup
lookup_nil x = refl

latest_nil : (x : Text) → latest x [] ≡ none
unfolding latest
latest_nil x = refl

abbrev pub update_of : Option UserInfo → Option UserInfo → Option UserInfo
update_of none new_user = none
update_of (some o) none = none
update_of (some o) (some n) = if limits_changed o n then some n else none

added-compare_loop :
    (x : Text) (us : List UserInfo) (d : Diff)
    → Unique us
    → latest x (compare_loop us d).added
      ≡ or_else (if is_some (lookup x d.old_map) then none else latest x us) (latest x d.added)
unfolding compare_loop compare_step latest
added-compare_loop x [] d h = ground arith
added-compare_loop x (u ∷ us) d h = ground (
  arith,
  added-compare_loop x us (compare_step u d) h.1,
  lookup-delete u.uuid x d.old_map,
  latest-append x d.added (u ∷ []),
  latest_single x u,
  text_beq_iff u.uuid x,
)

updated-compare_loop :
    (x : Text) (us : List UserInfo) (d : Diff)
    → Unique us
    → latest x (compare_loop us d).updated
      ≡ or_else (update_of (lookup x d.old_map) (latest x us)) (latest x d.updated)
unfolding compare_loop compare_step latest
updated-compare_loop x [] d h = ground arith
updated-compare_loop x (u ∷ us) d h = ground (
  arith,
  updated-compare_loop x us (compare_step u d) h.1,
  lookup-delete u.uuid x d.old_map,
  latest-append x d.updated (u ∷ []),
  latest_single x u,
  text_beq_iff u.uuid x,
)

-- Where the new list names no uuid twice, the comparison calls a user added exactly if only the new
-- list has it, deleted exactly if only the old list has it, and updated exactly if both have it with
-- different limits; an added or updated user comes with the new list's entry.
pub compare_user_list_lem :
    (old new : List UserInfo) (x : Text)
    → Unique new
    → let (deleted, added, updated) = compare_user_list old new in
      (is_some (latest x deleted) ≡ (is_some (latest x old) && not (is_some (latest x new))))
      × (latest x added ≡ (if is_some (latest x old) then none else latest x new))
      × (latest x updated ≡ update_of (latest x old) (latest x new))
unfolding compare_user_list
compare_user_list_lem old new x h =
    let start : Diff = record { old_map = index_users old []; added = []; updated = [] } in
    ground (
      arith,
      lookup-index_users x old [],
      old_map-compare_loop x new start,
      added-compare_loop x new start h,
      updated-compare_loop x new start h,
      latest-users_of x (compare_loop new start).old_map
          (compare_loop-IsKeyed new start (index_users-IsKeyed old [] tt)),
      lookup_nil x,
      latest_nil x,
    )
