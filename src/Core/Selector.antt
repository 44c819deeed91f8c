-- ===== src/Core/Selector.antt =====
-- core/selector.go and core/core.go: several cores behind one interface. A core is named by its key in
-- the map of cores, which does not change once it is made; the map from tags to cores holds the keys.
pub mod Routing
use v2sp.Prelude.{
  ltb, leb, nat_beq, if◌then◌else◌, ltb→lt, leb→le, nat_beq_iff, Bool-cases, Option-cases, Eq, ◌==◌,
  nat_eq, eq_refl, is_some, option_or, ℤ, pos_part, neg_part, sub_ℕ, ◌+ℤ◌, ◌-ℤ◌, ◌*ℤ◌, quot, ◌≤ℤ◌,
  ◌<ℤ◌, ltb_ℤ, leb_ℤ, int_beq, int_beq_iff, int_eq, wrap64, IsInt64, wrap64_fits, wrap64-IsInt64,
  pos, negsuc, length, is_empty, get_elem?, set, length-append, get_elem?-set_self,
  get_elem?-set_ne, get_elem?-lt, All, contains, contains-append, Map, lookup, insert, delete,
  Distinct, lookup-insert, lookup-delete, lookup-insert_self, lookup-delete_self, length-insert,
  insert-Distinct, delete-Distinct, delete_absent, length-delete, Text, codes, text_beq,
  text_beq_iff, text_eq, starts_with, drop, size, trim_prefix, ends_with, contains_byte, lower_byte,
  to_lower, digits_from, itoa, ℕ, zero, suc, ◌+◌, ◌-◌, ◌*◌, ◌/◌, ◌%◌, ◌^◌, ◌≤◌, ◌<◌, ◌≡◌, refl, sym,
  ap, ◌∙◌, ◌≢◌, ◌↔◌, ◌⊎◌, inl, inr, Bool, true, false, not, ◌&&◌, ◌||◌, Option, none, some, List,
  [], ◌∷◌, ◌++◌, map, arith,
}
use v2sp.Panel.{NodeInfo, UserInfo, UserTraffic}
use v2sp.Conf.{Options}
use v2sp.Core.{Core}

pub record CoreConfig : Type 0 where
  pub type : Text
  pub name : Text

-- What a registered constructor comes to.
pub data Made (C : Type 0) : Type 0 where
  made : C → Made C
  failed : Text → Made C

pub record Selector (C : Type 0) : Type 0 where
  pub cores : Map Text C
  pub nodes : Map Text Text

no_node : Text
no_node = codes "the node is not have"

unfoldable pub is_supported : Text → List Text → Bool
is_supported protocol [] = false
is_supported protocol (p ∷ ps) = if protocol == p then true else is_supported protocol ps

module _ {C : Type 0} where
  -- `NewSelector`, with the constructors registered by their lower-case type.
  unfoldable pub new_cores :
      Map Text (CoreConfig → Made C) → List CoreConfig → Map Text C → Made (Map Text C)
  new_cores registered [] cs = made cs
  new_cores registered (t ∷ ts) cs = elim (lookup (to_lower t.type) registered) [
    | none ↦ failed (codes "unknown core type: " ++ t.type)
    | some f ↦ elim (f t) [
      | failed e ↦ failed e
      | made core1 ↦
          new_cores registered ts (insert (if is_empty t.name then t.type else t.name) core1 cs)
    ]
  ]

  unfoldable pub new_selector : Map Text (CoreConfig → Made C) → List CoreConfig → Made (Selector C)
  new_selector registered c = elim (new_cores registered c []) [
    | failed e ↦ failed e
    | made cs ↦ made (record { cores = cs; nodes = [] })
  ]

  -- A core of one type alone is used as it is, without a selector.
  unfoldable pub new_core : Map Text (CoreConfig → Made C) → List CoreConfig → Made (C ⊎ Selector C)
  new_core registered [] = failed (codes "no have vail core")
  new_core registered (c ∷ []) = elim (lookup c.type registered) [
    | none ↦ failed (codes "unknown core type")
    | some f ↦ elim (f c) [ failed e ↦ failed e | made core1 ↦ made (inl core1) ]
  ]
  new_core registered (c ∷ d ∷ rest) = elim (new_selector registered (c ∷ d ∷ rest)) [
    | failed e ↦ failed e
    | made s ↦ made (inr s)
  ]

  -- The state of a core after one of its methods.
  unfoldable pub store : Text → C → Selector C → Selector C
  store name c s = record s { cores = insert name c s.cores }

  -- The core that has taken a node, with its key.
  unfoldable pub core_of : Text → Selector C → Option (Text × C)
  core_of tag s = elim (lookup tag s.nodes) [
    | none ↦ none
    | some name ↦ elim (lookup name s.cores) [ none ↦ none | some c ↦ some (name, c) ]
  ]

  module _ (core : Core C) where
    -- Does the loop of `AddNode` take this core?
    unfoldable pub is_eligible : NodeInfo → Options → C → Bool
    is_eligible info option c =
        if is_empty option.core
        then is_supported info.type (core.protocols c)
        else option.core == core.type c

    -- That loop: the last core that is eligible.
    unfoldable pub pick_core :
        NodeInfo → Options → Map Text C → Option (Text × C) → Option (Text × C)
    pick_core info option [] found = found
    pick_core info option ((name, c) ∷ rest) found =
        pick_core info option rest (if is_eligible info option c then some (name, c) else found)

    unfoldable pub select_core : NodeInfo → Options → Selector C → Option (Text × C)
    select_core info option s =
        if is_empty option.core_name
        then pick_core info option s.cores none
        else elim (lookup option.core_name s.cores) [
          | none ↦ none
          | some c ↦ some (option.core_name, c)
        ]

    unfoldable pub add_node : Text → NodeInfo → Options → Selector C → Selector C × Option Text
    add_node tag info option s = elim (select_core info option s) [
      | none ↦ (s, some (codes "the node type is not support"))
      | some (name, c) ↦
          let (c', err) = core.add_node tag info option c in
          let s' = store name c' s in
          elim err [
            | some e ↦ (s', some e)
            | none ↦ (record s' { nodes = insert tag name s'.nodes }, none)
          ]
    ]

    unfoldable pub del_node : Text → Selector C → Selector C × Option Text
    unfolding no_node
    del_node tag s = elim (core_of tag s) [
      | none ↦ (s, some no_node)
      | some (name, c) ↦
          let (c', err) = core.del_node tag c in
          let s' = store name c' s in
          elim err [
            | some e ↦ (s', some e)
            | none ↦ (record s' { nodes = delete tag s'.nodes }, none)
          ]
    ]

    unfoldable pub add_users :
        Text → List UserInfo → NodeInfo → Selector C → Selector C × ℕ × Option Text
    unfolding no_node
    add_users tag users info s = elim (core_of tag s) [
      | none ↦ (s, 0, some no_node)
      | some (name, c) ↦
          let (c', added, err) = core.add_users tag users info c in (store name c' s, added, err)
    ]

    unfoldable pub get_user_traffic_slice :
        Text → Bool → Selector C → Selector C × List UserTraffic × Option Text
    unfolding no_node
    get_user_traffic_slice tag reset s = elim (core_of tag s) [
      | none ↦ (s, [], some no_node)
      | some (name, c) ↦
          let (c', traffic, err) = core.get_user_traffic_slice tag reset c in
          (store name c' s, traffic, err)
    ]

    unfoldable pub del_users :
        List UserInfo → Text → NodeInfo → Selector C → Selector C × Option Text
    unfolding no_node
    del_users users tag info s = elim (core_of tag s) [
      | none ↦ (s, some no_node)
      | some (name, c) ↦ let (c', err) = core.del_users users tag info c in (store name c' s, err)
    ]

    -- `Start`, which stops at the first core that does not start.
    unfoldable pub start_cores : Map Text C → Map Text C × Option Text
    start_cores [] = ([], none)
    start_cores ((name, c) ∷ rest) =
        let (c', err) = core.start c in
        let (rest', rest_err) = start_cores rest in
        elim err [ some e ↦ ((name, c') ∷ rest, some e) | none ↦ ((name, c') ∷ rest', rest_err) ]

    unfoldable pub start : Selector C → Selector C × Option Text
    start s = let (cs, err) = start_cores s.cores in (record s { cores = cs }, err)

    -- `Close`, which closes every core and joins the errors.
    unfoldable pub close_cores : Map Text C → Map Text C × List Text
    close_cores [] = ([], [])
    close_cores ((name, c) ∷ rest) =
        let (c', err) = core.close c in
        let (rest', errs) = close_cores rest in
        ((name, c') ∷ rest', elim err [ none ↦ errs | some e ↦ e ∷ errs ])

    unfoldable pub close : Selector C → Selector C × List Text
    close s = let (cs, errs) = close_cores s.cores in (record s { cores = cs }, errs)

    unfoldable pub protocols_of : Map Text C → List Text
    protocols_of [] = []
    protocols_of ((name, c) ∷ rest) = core.protocols c ++ protocols_of rest

    -- The loop of `Type`: the keys, or the type of a core with an empty key, with blanks between.
    unfoldable pub type_names : Bool → Map Text C → Text
    type_names flag [] = []
    type_names flag ((name, c) ∷ rest) =
        (if flag then codes " " else [])
        ++ ((if is_empty name then core.type c else name) ++ type_names true rest)

    unfoldable pub type_of : Selector C → Text
    type_of s = codes "Selector(" ++ (type_names false s.cores ++ codes ")")
