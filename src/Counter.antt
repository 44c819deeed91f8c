-- ===== src/Counter.antt =====
-- common/counter/traffic.go and xraytraffic.go: the upload and download bytes of each user of a node.
-- A `*TrafficStorage` that a connection holds is named by its key; a call is atomic.
pub mod Laws
mod Tests
use v2sp.Prelude.{
  ltb, leb, nat_beq, if◌then◌else◌, ltb→lt, leb→le, nat_beq_iff, Bool-cases, Option-cases, Eq, ◌==◌,
  nat_eq, eq_refl, is_some, option_or, ℤ, pos_part, neg_part, sub_ℕ, ◌+ℤ◌, ◌-ℤ◌, ◌*ℤ◌, quot, ◌≤ℤ◌,
  ◌<ℤ◌, ltb_ℤ, leb_ℤ, int_beq, int_beq_iff, int_eq, wrap64, IsInt64, wrap64_fits, wrap64-IsInt64,
  pos, negsuc, length, get_elem?, set, length-append, get_elem?-set_self, get_elem?-set_ne,
  get_elem?-lt, All, contains, contains-append, Map, lookup, insert, delete, Distinct,
  lookup-insert, lookup-delete, lookup-insert_self, lookup-delete_self, length-insert,
  insert-Distinct, delete-Distinct, delete_absent, length-delete, Text, codes, text_beq,
  text_beq_iff, text_eq, starts_with, drop, size, trim_prefix, ends_with, contains_byte, lower_byte,
  to_lower, digits_from, itoa, ℕ, zero, suc, ◌+◌, ◌-◌, ◌*◌, ◌/◌, ◌%◌, ◌^◌, ◌≤◌, ◌<◌, ◌≡◌, refl, sym,
  ap, ◌∙◌, ◌≢◌, ◌↔◌, ◌⊎◌, inl, inr, Bool, true, false, not, ◌&&◌, ◌||◌, Option, none, some, List,
  [], ◌∷◌, ◌++◌, map, arith,
}

pub record TrafficStorage : Type 0 where
  pub up_counter : ℤ
  pub down_counter : ℤ

pub record TrafficCounter : Type 0 where
  pub counters : Map Text TrafficStorage
  pub count : ℤ

unfoldable pub new_traffic_counter : TrafficCounter
new_traffic_counter = record { counters = []; count = pos 0 }

abbrev pub new_storage : TrafficStorage
new_storage = record { up_counter = pos 0; down_counter = pos 0 }

-- `atomic.Int64.Add`.
unfoldable pub add64 : ℤ → ℤ → ℤ
add64 v delta = wrap64 (v +ℤ delta)

unfoldable pub get_counter : Text → TrafficCounter → TrafficCounter × TrafficStorage
get_counter uuid c = elim (lookup uuid c.counters) [
  | some cts ↦ (c, cts)
  | none ↦ (
    record { counters = insert uuid new_storage c.counters; count = add64 c.count (pos 1) },
    new_storage,
  )
]

unfoldable pub get_up_count : Text → TrafficCounter → ℤ
get_up_count uuid c = elim (lookup uuid c.counters) [ none ↦ pos 0 | some cts ↦ cts.up_counter ]

unfoldable pub get_down_count : Text → TrafficCounter → ℤ
get_down_count uuid c = elim (lookup uuid c.counters) [ none ↦ pos 0 | some cts ↦ cts.down_counter ]

unfoldable pub len : TrafficCounter → ℤ
len c = c.count

unfoldable pub reset : Text → TrafficCounter → TrafficCounter
reset uuid c = elim (lookup uuid c.counters) [
  | none ↦ c
  | some cts ↦ record c { counters = insert uuid new_storage c.counters }
]

unfoldable pub delete_counter : Text → TrafficCounter → TrafficCounter
delete_counter uuid c = elim (lookup uuid c.counters) [
  | none ↦ c
  | some cts ↦ record { counters = delete uuid c.counters; count = add64 c.count (negsuc 0) }
]

unfoldable pub rx : Text → ℤ → TrafficCounter → TrafficCounter
unfolding get_counter
rx uuid n c =
    let (c', cts) = get_counter uuid c in
    record c' {
      counters = insert uuid (record cts { down_counter = add64 cts.down_counter n }) c'.counters;
    }

unfoldable pub tx : Text → ℤ → TrafficCounter → TrafficCounter
unfolding get_counter
tx uuid n c =
    let (c', cts) = get_counter uuid c in
    record c' {
      counters = insert uuid (record cts { up_counter = add64 cts.up_counter n }) c'.counters;
    }

-- XrayTrafficCounter: the view of one direction's counter that the core is given. `Set` returns the
-- old value, `Add` the new one.
unfoldable pub set_value : ℤ → ℤ → ℤ × ℤ
set_value new_value v = (new_value, v)

unfoldable pub add_value : ℤ → ℤ → ℤ × ℤ
add_value delta v = (add64 v delta, add64 v delta)
