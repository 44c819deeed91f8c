-- ===== src/Core/Selector/Routing.antt =====
-- Which core the calls for a tag reach.
use v2sp.Prelude.{
  if◌then◌else◌, ◌==◌, nat_eq, is_some, int_eq, lookup, lookup-insert, lookup-insert_self,
  lookup-delete_self, Text, text_eq, ◌≡◌, refl, Bool, true, none, some, List, [], arith,
}
use v2sp.Panel.{NodeInfo, UserInfo}
use v2sp.Conf.{Options}
use v2sp.Core.{Core}
use v2sp.Core.Selector.{
  Selector, store, core_of, select_core, add_node, del_node, add_users, get_user_traffic_slice,
  del_users,
}

module _ {C : Type 0} (core : Core C) where
  core_of-add_node :
      (tag t : Text) (info : NodeInfo) (option : Options) (s : Selector C) (name : Text) (c : C)
      → select_core core info option s ≡ some (name, c)
      → (core.add_node tag info option c).1 ≡ none
      → core_of tag (add_node core tag info option s).0
        ≡ some (name, (core.add_node tag info option c).0)
  unfolding core_of add_node store
  core_of-add_node tag t info option s name c chosen granted = ground (
    arith,
    lookup-insert_self tag name s.nodes,
    lookup-insert_self name (core.add_node tag info option c).0 s.cores,
  )

  -- Where the core chosen for a node grants it, a later call for the tag reaches that core, in the
  -- state in which it granted the node, and its answer is handed on; no other tag changes its core.
  pub add_users-add_node :
      (tag t : Text) (info : NodeInfo) (option : Options) (users : List UserInfo) (s : Selector C)
      (name : Text) (c : C)
      → select_core core info option s ≡ some (name, c)
      → (core.add_node tag info option c).1 ≡ none
      → let s' = (add_node core tag info option s).0 in
        let (c', added, err) = core.add_users tag users info (core.add_node tag info option c).0 in
        (add_users core tag users info s' ≡ (store name c' s', added, err))
        × (lookup t s'.nodes ≡ (if tag == t then some name else lookup t s.nodes))
  unfolding add_users add_node store
  add_users-add_node tag t info option users s name c chosen granted = (
    rw (core_of-add_node tag t info option s name c chosen granted, add_users) refl,
    ground (arith, lookup-insert tag t name s.nodes),
  )

  -- After the node's removal is granted, every call for its tag is refused and changes nothing.
  pub del_node-forgets :
      (tag : Text) (users : List UserInfo) (info : NodeInfo) (reset : Bool) (s s' : Selector C)
      → del_node core tag s ≡ (s', none)
      → ((add_users core tag users info s').0 ≡ s')
        × (is_some (add_users core tag users info s').2 ≡ true)
        × ((del_users core users tag info s').0 ≡ s')
        × (is_some (del_users core users tag info s').1 ≡ true)
        × (get_user_traffic_slice core tag reset s' ≡ (s', [], (del_node core tag s').1))
        × (is_some (del_node core tag s').1 ≡ true)
  unfolding del_node add_users del_users get_user_traffic_slice core_of store
  del_node-forgets tag users info reset s s' e = ground (arith, lookup-delete_self tag s.nodes)
