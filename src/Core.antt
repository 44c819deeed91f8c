-- ===== src/Core.antt =====
-- core/interface.go: what a proxy core offers the node controllers. A method takes the core's state
-- and returns the next one; an error is its text.
pub mod Selector
mod Tests
use v2sp.Prelude.{
  ltb, leb, nat_beq, if◌then◌else◌, ltb→lt, leb→le, nat_beq_iff, Bool-cases, Option-cases, Eq, ◌==◌,
  nat_eq, eq_refl, is_some, option_or, ℤ, pos_part, neg_part, sub_ℕ, ◌+ℤ◌, ◌-ℤ◌, ◌*ℤ◌, quot, ◌≤ℤ◌,
  ◌<ℤ◌, ltb_ℤ, leb_ℤ, int_beq, int_beq_iff, int_eq, wrap64, IsInt64, wrap64_fits, wrap64-IsInt64,
  pos, negsuc, length, is_empty, get_elem?, set, length-append, get_elem?-set_self,
  get_elem?-set_ne, get_elem?-lt, All, contains, contains-append, Map, lookup, insert, delete,
  Distinct, lookup-insert, lookup-delete, lookup-insert_self, lookup-delete_self, length-insert,
  insert-Distinct, delete-Distinct, delete_absent, length-delete, Text, codes, text_beq,
  text_beq_iff, text_eq, starts_with, drop, size, trim_prefix, ends_with, contains_byte, lower_byte,
  to_lower, digits_from, itoa, ℕ, zero, suc, ◌+◌, ◌-◌, ◌*◌, ◌/◌, ◌%◌, ◌^◌, ◌≤◌, ◌<◌, ◌≡◌, refl, sym,
  ap, ◌∙◌, ◌≢◌, ◌↔◌, ◌⊎◌, inl, inr, Bool, true, false, not, ◌&&◌, ◌||◌, Option, none, some, List,
  [], ◌∷◌, ◌++◌, map, arith,
}
use v2sp.Panel.{NodeInfo, UserInfo, UserTraffic}
use v2sp.Conf.{Options}

pub record Core (C : Type 0) : Type 0 where
  pub start : C → C × Option Text
  pub close : C → C × Option Text
  pub add_node : Text → NodeInfo → Options → C → C × Option Text
  pub del_node : Text → C → C × Option Text
  -- The tag, the users and the node of `AddUsersParams`; the number of users added.
  pub add_users : Text → List UserInfo → NodeInfo → C → C × ℕ × Option Text
  pub get_user_traffic_slice : Text → Bool → C → C × List UserTraffic × Option Text
  pub del_users : List UserInfo → Text → NodeInfo → C → C × Option Text
  pub protocols : C → List Text
  pub type : C → Text
