-- ===== src/Node/Monitor/Reload.antt =====
-- A round in which the panel delivers a changed node: what becomes of the limiter.
use v2sp.Prelude.{
  if◌then◌else◌, ◌==◌, nat_eq, option_or, ℤ, int_eq, is_empty, Map, lookup, lookup-delete, Text,
  text_eq, ◌≡◌, refl, ap, ◌∙◌, Bool, true, false, Option, none, some, List, [], arith,
}
use v2sp.Panel.{NodeInfo, UserInfo}
use v2sp.Core.{Core}
use v2sp.Task.{done}
use v2sp.Limiter.{Limiter, user_tag, new_limit_info, check_limit}
use v2sp.Limiter.Registry.{Registry, delete_limiter, IsSound, add_limiter_lem, get_limiter}
use v2sp.Limiter.Rules.{update_rule}
use v2sp.Limiter.Reject.{check_limit-reject}
use v2sp.Limiter.Users.{latest, map_option}
use v2sp.Limiter.Sync.{limits_of_info, limits_of_user}
use v2sp.Node.Cert.{CertTools}
use v2sp.Node.Controller.{Controller, PanelApi, build_node_tag}
use v2sp.Node.Monitor.{
  World, on_limiter, set_alive, switch_tag, change_intervals, install_node, node_changed,
}
use v2sp.Node.Monitor.Synced.{limiter_of, IsInStep, limiter_of-on_limiter}

kept-IsSound :
    {Regexp Bucket : Type 0} (same : Bool) (tag : Text) (r : Registry Regexp Bucket)
    → IsSound r
    → IsSound (if same then r else delete_limiter tag r)
unfolding delete_limiter
kept-IsSound true tag r sound = sound
kept-IsSound false tag r sound = λ t p e. ground (arith, lookup-delete tag t r.limiter, sound t p)

fresh_limits :
    (u : Option UserInfo)
    → map_option limits_of_info (map_option new_limit_info u) ≡ map_option limits_of_user u
unfolding new_limit_info
fresh_limits none = refl
fresh_limits (some u) = refl

-- A step that leaves the tag, the user list, the limiter's place and the registry.
abbrev pub Keeps :
    {C P Regexp Bucket : Type 0} → World C P Regexp Bucket → World C P Regexp Bucket → Type 0
Keeps w w' =
    (w'.c.tag ≡ w.c.tag)
    × (w'.c.user_list ≡ w.c.user_list)
    × (w'.c.limiter ≡ w.c.limiter)
    × (w'.s.registry ≡ w.s.registry)

module _ {C P Regexp Bucket : Type 0} (core : Core C) (panel : PanelApi P) (tools : CertTools)
    (compile : Text → Option Regexp) where
  change_intervals-Keeps :
      (node : NodeInfo) (w w' : World C P Regexp Bucket)
      → change_intervals core panel tools compile node w ≡ done w'
      → Keeps w w'
  unfolding change_intervals
  change_intervals-Keeps node w w' e = ground arith

  install_node-Keeps :
      (node : NodeInfo) (w w' : World C P Regexp Bucket)
      → install_node core panel tools compile node w ≡ done w'
      → Keeps w w'
  unfolding install_node
  install_node-Keeps node w w' e =
      let w1 : World C P Regexp Bucket = record w {
        s = record w.s { server = (core.add_node w.c.tag node w.c.options w.s.server).0 };
      } in
      let w2 : World C P Regexp Bucket = record w1 {
        s = record w1.s { server = (core.add_users w1.c.tag w1.c.user_list node w1.s.server).0 };
      } in
      ground (arith, change_intervals-Keeps node w2 w')

  -- The world as `install_node` finds it.
  pub before_install :
      NodeInfo
      → Option (List UserInfo)
      → Option (Map ℤ ℤ)
      → World C P Regexp Bucket
      → World C P Regexp Bucket
  before_install node users alive w =
      let w1 = record w {
        c = record w.c {
          info = node;
          user_list = option_or users w.c.user_list;
          traffic = if w.c.options.limit_config.enable_dynamic_speed_limit then some [] else none;
        };
      } in
      on_limiter (update_rule compile node.rules) (
        set_alive alive (
          switch_tag panel node alive
            (record w1 { s = record w1.s { server = (core.del_node w.c.tag w.s.server).0 } })))

  node_changed-Keeps :
      (node : NodeInfo) (users : Option (List UserInfo)) (alive : Option (Map ℤ ℤ))
      (w w' : World C P Regexp Bucket)
      → (core.del_node w.c.tag w.s.server).1 ≡ none
      → node_changed core panel tools compile node users alive w ≡ done w'
      → Keeps (before_install node users alive w) w'
  unfolding node_changed before_install
  node_changed-Keeps node users alive w w' granted e =
      install_node-Keeps node _ w' (rw (granted, node_changed) at e)

  set_alive-info :
      (alive : Option (Map ℤ ℤ)) (w : World C P Regexp Bucket) (l : Limiter Regexp Bucket)
      → limiter_of w ≡ some l
      → (l' : Limiter Regexp Bucket) × (limiter_of (set_alive alive w) ≡ some l')
        × (l'.user_limit_info ≡ l.user_limit_info)
        × ((set_alive alive w).c ≡ w.c)
  unfolding set_alive on_limiter
  set_alive-info none w l e = (l, e, refl, refl)
  set_alive-info (some a) w l e = (
    record l { alive_list = a },
    limiter_of-on_limiter (λ l. record l { alive_list = a }) w l e,
    refl,
    refl,
  )

  -- The rules and the alive list change no user's record.
  rules_and_alive-info :
      (node : NodeInfo) (alive : Option (Map ℤ ℤ)) (w : World C P Regexp Bucket)
      (l : Limiter Regexp Bucket)
      → limiter_of w ≡ some l
      → let w' = on_limiter (update_rule compile node.rules) (set_alive alive w) in
        (l' : Limiter Regexp Bucket) × (limiter_of w' ≡ some l')
        × (l'.user_limit_info ≡ l.user_limit_info)
        × (w'.c ≡ w.c)
  unfolding update_rule on_limiter
  rules_and_alive-info node alive w l e =
      let (l1, e1, i1, c1) = set_alive-info alive w l e in
      (
        update_rule compile node.rules l1,
        limiter_of-on_limiter (update_rule compile node.rules) (set_alive alive w) l1 e1,
        i1,
        c1,
      )

  -- The world after `DelNode`.
  pub after_delete :
      NodeInfo → Option (List UserInfo) → World C P Regexp Bucket → World C P Regexp Bucket
  after_delete node users w = record {
    c = record w.c {
      info = node;
      user_list = option_or users w.c.user_list;
      traffic = if w.c.options.limit_config.enable_dynamic_speed_limit then some [] else none;
    };
    s = record w.s { server = (core.del_node w.c.tag w.s.server).0 };
  }

  before_install-cases :
      (node : NodeInfo) (users : Option (List UserInfo)) (alive : Option (Map ℤ ℤ))
      (w : World C P Regexp Bucket) (l : Limiter Regexp Bucket)
      → let w1 = switch_tag panel node alive (after_delete node users w) in
        limiter_of w1 ≡ some l
        → (l' : Limiter Regexp Bucket) × (limiter_of (before_install node users alive w) ≡ some l')
          × (l'.user_limit_info ≡ l.user_limit_info)
          × ((before_install node users alive w).c ≡ w1.c)
  unfolding before_install after_delete
  before_install-cases node users alive w l e = rules_and_alive-info node alive _ l e

  switch_named :
      (node : NodeInfo) (alive : Option (Map ℤ ℤ)) (w : World C P Regexp Bucket)
      → is_empty w.c.options.name ≡ false
      → switch_tag panel node alive w ≡ w
  unfolding switch_tag
  switch_named node alive w named = rw named

  -- The bug: where the node has a configured name and the panel delivers a changed node together with
  -- a new user list, the controller takes the list over, but a user whom the limiter did not know is
  -- still unknown to it, so that each of the user's connections is refused.
  pub named_node_refuses_new_users :
      (node : NodeInfo) (users : List UserInfo) (alive : Option (Map ℤ ℤ))
      (w w' : World C P Regexp Bucket) (l : Limiter Regexp Bucket) (uuid : Text)
      → is_empty w.c.options.name ≡ false
      → limiter_of w ≡ some l
      → lookup (user_tag w.c.tag uuid) l.user_limit_info ≡ none
      → (core.del_node w.c.tag w.s.server).1 ≡ none
      → node_changed core panel tools compile node (some users) alive w ≡ done w'
      → (w'.c.user_list ≡ users)
        × ((l' : Limiter Regexp Bucket) × (limiter_of w' ≡ some l')
            × ((new_bucket : ℤ → ℤ → ℤ → Bucket) (ip : Text) (is_tcp no_ssudp : Bool) (now : ℤ)
                → (check_limit new_bucket (user_tag w'.c.tag uuid) ip is_tcp no_ssudp now l').2
                  ≡ true))
  unfolding after_delete
  named_node_refuses_new_users node users alive w w' l uuid named e unknown granted run =
      let w1 = after_delete node (some users) w in
      let same = switch_named node alive w1 named in
      let (l', e', i', c') = before_install-cases node (some users) alive w l (rw same e) in
      let (k_tag, k_users, k_place, k_registry) =
        node_changed-Keeps node (some users) alive w w' granted run in
      let c'' = c' ∙ ap (λ (v : World C P Regexp Bucket). v.c) same in
      let absent : lookup (user_tag w'.c.tag uuid) l'.user_limit_info ≡ none =
        rw (k_tag, c'', i') unknown in
      (
        k_users ∙ ap (λ (c : Controller). c.user_list) c'',
        (
          l',
          rw (k_place, k_registry) e',
          λ new_bucket ip is_tcp no_ssudp now. ground (
            arith,
            absent,
            check_limit-reject new_bucket (user_tag w'.c.tag uuid) ip is_tcp no_ssudp now l',
          ),
        ),
      )

  switch_unnamed :
      (node : NodeInfo) (alive : Option (Map ℤ ℤ)) (w : World C P Regexp Bucket)
      → is_empty w.c.options.name ≡ true
      → IsSound w.s.registry
      → let w1 = switch_tag panel node alive w in IsInStep w1 × (w1.c.user_list ≡ w.c.user_list)
  unfolding switch_tag get_limiter
  switch_unnamed node alive w unnamed sound =
      let old_tag = w.c.tag in
      let new_tag = build_node_tag (panel.api_host w.s.api) node in
      let r = if new_tag == old_tag then w.s.registry else delete_limiter old_tag w.s.registry in
      let added =
        add_limiter_lem new_tag w.c.options.limit_config.speed_limit w.c.user_list
          (option_or alive []) r (kept-IsSound (new_tag == old_tag) old_tag w.s.registry sound) in
      let (l, e, infos) = added.2 in
      rw unnamed ((l, e, λ uuid. rw (infos uuid) (fresh_limits (latest uuid w.c.user_list))), refl)

  granted-IsInStep :
      (node : NodeInfo) (users : Option (List UserInfo)) (alive : Option (Map ℤ ℤ))
      (w w' : World C P Regexp Bucket)
      → is_empty w.c.options.name ≡ true
      → IsSound w.s.registry
      → (core.del_node w.c.tag w.s.server).1 ≡ none
      → node_changed core panel tools compile node users alive w ≡ done w'
      → IsInStep w'
  unfolding after_delete
  granted-IsInStep node users alive w w' unnamed sound granted run =
      let w1 = after_delete node users w in
      let ((l, e, synced), list) = switch_unnamed node alive w1 unnamed sound in
      let (l', e', i', c') = before_install-cases node users alive w l e in
      let (k_tag, k_users, k_place, k_registry) =
        node_changed-Keeps node users alive w w' granted run in
      (l', rw (k_place, k_registry) e', λ uuid. rw (k_tag, k_users, c', i') (synced uuid))

  node_changed-list :
      (node : NodeInfo) (users : Option (List UserInfo)) (alive : Option (Map ℤ ℤ))
      (w w' : World C P Regexp Bucket)
      → is_empty w.c.options.name ≡ true
      → IsSound w.s.registry
      → (core.del_node w.c.tag w.s.server).1 ≡ none
      → node_changed core panel tools compile node users alive w ≡ done w'
      → w'.c.user_list ≡ option_or users w.c.user_list
  unfolding after_delete
  node_changed-list node users alive w w' unnamed sound granted run =
      let w1 = after_delete node users w in
      let ((l, e, synced), list) = switch_unnamed node alive w1 unnamed sound in
      let (l', e', i', c') = before_install-cases node users alive w l e in
      let (k_tag, k_users, k_place, k_registry) =
        node_changed-Keeps node users alive w w' granted run in
      k_users ∙ ap (λ (c : Controller). c.user_list) c' ∙ list

  node_changed_refused :
      (node : NodeInfo) (users : Option (List UserInfo)) (alive : Option (Map ℤ ℤ))
      (w w' : World C P Regexp Bucket) (e : Text)
      → (core.del_node w.c.tag w.s.server).1 ≡ some e
      → node_changed core panel tools compile node users alive w ≡ done w'
      → Keeps (after_delete node users w) w'
  unfolding node_changed after_delete
  node_changed_refused node users alive w w' e refused run = ground arith

  -- The limiter after a round with a changed node, by the error of `DelNode`: in step with the user
  -- list, or what it was under the tag that it was.
  abbrev pub IsReload : Option Text → World C P Regexp Bucket → World C P Regexp Bucket → Type 0
  IsReload none w w' = IsInStep w'
  IsReload (some e) w w' =
      (w'.c.tag ≡ w.c.tag) × (w'.c.limiter ≡ w.c.limiter) × (w'.s.registry ≡ w.s.registry)

  node_changed-IsReload :
      (node : NodeInfo) (users : Option (List UserInfo)) (alive : Option (Map ℤ ℤ))
      (w w' : World C P Regexp Bucket) (r : Option Text)
      → is_empty w.c.options.name ≡ true
      → IsSound w.s.registry
      → (core.del_node w.c.tag w.s.server).1 ≡ r
      → node_changed core panel tools compile node users alive w ≡ done w'
      → (w'.c.user_list ≡ option_or users w.c.user_list) × IsReload r w w'
  unfolding after_delete
  node_changed-IsReload node users alive w w' none unnamed sound granted run = (
    node_changed-list node users alive w w' unnamed sound granted run,
    granted-IsInStep node users alive w w' unnamed sound granted run,
  )
  node_changed-IsReload node users alive w w' (some e) unnamed sound refused run =
      let (tag, list, place, registry) = node_changed_refused node users alive w w' e refused run in
      (list, (tag, place, registry))

  -- Without a configured name, a round with a changed node that ends takes the delivered user list
  -- over. If `DelNode` succeeds the limiter knows exactly the users of this list, also where the core
  -- then refuses the new node or its users. The bug: if `DelNode` fails, the limiters stay as they
  -- were, although the list is the new one.
  pub unnamed_node-IsInStep :
      (node : NodeInfo) (users : Option (List UserInfo)) (alive : Option (Map ℤ ℤ))
      (w w' : World C P Regexp Bucket)
      → is_empty w.c.options.name ≡ true
      → IsSound w.s.registry
      → node_changed core panel tools compile node users alive w ≡ done w'
      → (w'.c.user_list ≡ option_or users w.c.user_list)
        × IsReload (core.del_node w.c.tag w.s.server).1 w w'
  unnamed_node-IsInStep node users alive w w' unnamed sound run =
      node_changed-IsReload node users alive w w' (core.del_node w.c.tag w.s.server).1 unnamed sound
        refl run
