-- ===== src/Node/Users.antt =====
-- compareUserList of node/user.go: what changed between two user lists of the panel.
pub mod Laws
use v2sp.Prelude.{
  ltb, leb, nat_beq, if◌then◌else◌, ltb→lt, leb→le, nat_beq_iff, Bool-cases, Option-cases, Eq, ◌==◌,
  nat_eq, eq_refl, is_some, option_or, ℤ, pos_part, neg_part, sub_ℕ, ◌+ℤ◌, ◌-ℤ◌, ◌*ℤ◌, quot, ◌≤ℤ◌,
  ◌<ℤ◌, ltb_ℤ, leb_ℤ, int_beq, int_beq_iff, int_eq, wrap64, IsInt64, wrap64_fits, wrap64-IsInt64,
  pos, negsuc, length, get_elem?, set, length-append, get_elem?-set_self, get_elem?-set_ne,
  get_elem?-lt, All, contains, contains-append, Map, lookup, insert, delete, Distinct,
  lookup-insert, lookup-delete, lookup-insert_self, lookup-delete_self, length-insert,
  insert-Distinct, delete-Distinct, delete_absent, length-delete, Text, codes, text_beq,
  text_beq_iff, text_eq, starts_with, drop, size, trim_prefix, ends_with, contains_byte, lower_byte,
  to_lower, digits_from, itoa, ℕ, zero, suc, ◌+◌, ◌-◌, ◌*◌, ◌/◌, ◌%◌, ◌^◌, ◌≤◌, ◌<◌, ◌≡◌, refl, sym,
  ap, ◌∙◌, ◌≢◌, ◌↔◌, ◌⊎◌, inl, inr, Bool, true, false, not, ◌&&◌, ◌||◌, Option, none, some, List,
  [], ◌∷◌, ◌++◌, map, arith,
}
use v2sp.Panel.{UserInfo}

pub record Diff : Type 0 where
  pub old_map : Map Text UserInfo
  pub added : List UserInfo
  pub updated : List UserInfo

-- The loop over the old list.
unfoldable pub index_users : List UserInfo → Map Text UserInfo → Map Text UserInfo
index_users [] m = m
index_users (u ∷ us) m = index_users us (insert u.uuid u m)

unfoldable pub limits_changed : UserInfo → UserInfo → Bool
limits_changed old_user new_user =
    not (old_user.speed_limit == new_user.speed_limit)
    || not (old_user.device_limit == new_user.device_limit)

-- The body of the loop over the new list.
unfoldable pub compare_step : UserInfo → Diff → Diff
compare_step u d = elim (lookup u.uuid d.old_map) [
  | none ↦ record d { added = d.added ++ (u ∷ []) }
  | some old_user ↦ record d {
    updated = if limits_changed old_user u then d.updated ++ (u ∷ []) else d.updated;
    old_map = delete u.uuid d.old_map;
  }
]

unfoldable pub compare_loop : List UserInfo → Diff → Diff
compare_loop [] d = d
compare_loop (u ∷ us) d = compare_loop us (compare_step u d)

-- The loop over what is left of the old users.
unfoldable pub users_of : Map Text UserInfo → List UserInfo
users_of [] = []
users_of ((k, u) ∷ m) = u ∷ users_of m

-- Deleted, added, updated.
unfoldable pub compare_user_list :
    List UserInfo → List UserInfo → List UserInfo × List UserInfo × List UserInfo
compare_user_list old new =
    let d = compare_loop new (record { old_map = index_users old []; added = []; updated = [] }) in
    (users_of d.old_map, d.added, d.updated)
