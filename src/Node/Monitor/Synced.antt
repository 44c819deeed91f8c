-- ===== src/Node/Monitor/Synced.antt =====
-- nodeInfoMonitor of node/task.go in a round in which the node itself does not change: the limiter and
-- the user list of the controller.
use v2sp.Prelude.{
  Bool, true, false, is_some, is_empty, ◌||◌, if◌then◌else◌, Option-cases, nat_eq, option_or, ℤ,
  int_eq, Map, Text, text_eq, ◌≡◌, refl, ap, ◌∙◌, inl, inr, Option, none, some, List, [], ◌∷◌,
  arith,
}
use v2sp.Panel.{UserInfo}
use v2sp.Core.{Core}
use v2sp.Limiter.{Limiter, update_user, update_user_limits, delete_users, add_users}
use v2sp.Limiter.Registry.{deref, deref-modify}
use v2sp.Limiter.Sync.{IsSynced, round-IsSynced}
use v2sp.Node.Users.{compare_user_list}
use v2sp.Node.Users.Laws.{Unique}
use v2sp.Node.Controller.{Controller}
use v2sp.Node.Monitor.{
  World, on_limiter, set_alive, clear_deleted, delete_phase, add_phase, apply_users, apply_limits,
  commit_users, users_round, users_changed,
}

update_user_nil :
    {Regexp Bucket : Type 0} (tag : Text) (l : Limiter Regexp Bucket) → update_user tag [] [] l ≡ l
unfolding update_user add_users delete_users
update_user_nil tag l = refl

update_user_limits_nil :
    {Regexp Bucket : Type 0} (tag : Text) (l : Limiter Regexp Bucket)
    → update_user_limits tag [] l ≡ l
unfolding update_user_limits
update_user_limits_nil tag l = refl

clear_deleted_keeps :
    (deleted : List UserInfo) (c : Controller)
    → ((clear_deleted deleted c).limiter ≡ c.limiter) × ((clear_deleted deleted c).tag ≡ c.tag)
unfolding clear_deleted
clear_deleted_keeps deleted c = ground arith

module _ {C P Regexp Bucket : Type 0} where
  abbrev pub limiter_of : World C P Regexp Bucket → Option (Limiter Regexp Bucket)
  limiter_of w = deref w.c.limiter w.s.registry

  -- The controller's limiter exists and knows exactly the users of the controller's list.
  abbrev pub IsInStep : World C P Regexp Bucket → Type 0
  IsInStep w =
      (l : Limiter Regexp Bucket) × (limiter_of w ≡ some l) × IsSynced w.c.tag w.c.user_list l

  pub limiter_of-on_limiter :
      (f : Limiter Regexp Bucket → Limiter Regexp Bucket) (w : World C P Regexp Bucket)
      (l : Limiter Regexp Bucket)
      → limiter_of w ≡ some l
      → limiter_of (on_limiter f w) ≡ some (f l)
  unfolding on_limiter
  limiter_of-on_limiter f w l e = deref-modify w.c.limiter f w.s.registry l e

  set_alive-IsInStep :
      (alive : Option (Map ℤ ℤ)) (w : World C P Regexp Bucket)
      → IsInStep w
      → IsInStep (set_alive alive w) × ((set_alive alive w).c ≡ w.c)
  unfolding set_alive on_limiter
  set_alive-IsInStep none w h = (h, refl)
  set_alive-IsInStep (some a) w (l, e, synced) = (
    (
      record l { alive_list = a },
      limiter_of-on_limiter (λ l. record l { alive_list = a }) w l e,
      synced,
    ),
    refl,
  )

  same_limiter :
      (w w' : World C P Regexp Bucket) (f : Limiter Regexp Bucket → Limiter Regexp Bucket)
      (l : Limiter Regexp Bucket)
      → limiter_of w ≡ some l
      → w'.c.limiter ≡ w.c.limiter
      → w'.s.registry ≡ (on_limiter f w).s.registry
      → limiter_of w' ≡ some (f l)
  unfolding on_limiter
  same_limiter w w' f l e c r = rw (c, r) (deref-modify w.c.limiter f w.s.registry l e)

  apply_users_lem :
      (added deleted : List UserInfo) (w : World C P Regexp Bucket) (l : Limiter Regexp Bucket)
      → limiter_of w ≡ some l
      → let w' = apply_users added deleted w in
        (w'.c.tag ≡ w.c.tag) × (limiter_of w' ≡ some (update_user w.c.tag added deleted l))
  unfolding apply_users
  apply_users_lem [] [] w l e = (refl, rw (update_user_nil w.c.tag l) e)
  apply_users_lem [] (d ∷ ds) w l e =
      let k = clear_deleted_keeps (d ∷ ds) w.c in
      (
        k.1,
        same_limiter w (apply_users [] (d ∷ ds) w) (update_user w.c.tag [] (d ∷ ds)) l e k.0 refl,
      )
  apply_users_lem (a ∷ more) ds w l e =
      let k = clear_deleted_keeps ds w.c in
      (
        k.1,
        same_limiter w (apply_users (a ∷ more) ds w) (update_user w.c.tag (a ∷ more) ds) l e k.0
            refl,
      )

  apply_limits_lem :
      (updated : List UserInfo) (w : World C P Regexp Bucket) (l : Limiter Regexp Bucket)
      → limiter_of w ≡ some l
      → let w' = apply_limits updated w in
        (w'.c.tag ≡ w.c.tag) × (limiter_of w' ≡ some (update_user_limits w.c.tag updated l))
  unfolding apply_limits
  apply_limits_lem [] w l e = (refl, rw (update_user_limits_nil w.c.tag l) e)
  apply_limits_lem (u ∷ us) w l e =
      (refl, limiter_of-on_limiter (update_user_limits w.c.tag (u ∷ us)) w l e)

  -- The end of a round leaves the limiter as the comparison asks.
  commit_users_lem :
      (new deleted added updated : List UserInfo) (w : World C P Regexp Bucket)
      (l : Limiter Regexp Bucket)
      → limiter_of w ≡ some l
      → let w' = commit_users new deleted added updated w in
        (w'.c.tag ≡ w.c.tag)
        × (w'.c.user_list ≡ new)
        × (limiter_of w'
            ≡ some (update_user_limits w.c.tag updated (update_user w.c.tag added deleted l)))
  unfolding commit_users
  commit_users_lem new deleted added updated w l e =
      let a = apply_users_lem added deleted w l e in
      let b = apply_limits_lem updated (apply_users added deleted w) _ a.1 in
      (
        b.0 ∙ a.0,
        refl,
        b.1
            ∙ ap
                (λ (t : Text).
                  some (update_user_limits t updated (update_user w.c.tag added deleted l)))
                a.0,
      )

  move :
      (w w' : World C P Regexp Bucket)
      → w'.c ≡ w.c
      → w'.s.registry ≡ w.s.registry
      → IsInStep w
      → IsInStep w'
  move w w' c r (l, e, synced) = (l, rw (c, r) e, rw c synced)

  commit_users-IsInStep :
      (new : List UserInfo) (w w' : World C P Regexp Bucket)
      → Unique new
      → w'.c ≡ w.c
      → w'.s.registry ≡ w.s.registry
      → IsInStep w
      → let (deleted, added, updated) = compare_user_list w.c.user_list new in
        IsInStep (commit_users new deleted added updated w')
  commit_users-IsInStep new w w' u c r (l, e, synced) =
      let (deleted, added, updated) = compare_user_list w.c.user_list new in
      let k = commit_users_lem new deleted added updated w' l (rw (c, r) e) in
      let l' = update_user_limits w'.c.tag updated (update_user w'.c.tag added deleted l) in
      (l', k.2, rw (k.0, k.1, c) (round-IsSynced w.c.tag w.c.user_list new l u synced))

  module _ (core : Core C) where
    phases_keep :
        (us : List UserInfo) (w : World C P Regexp Bucket)
        → ((delete_phase core us w).0.c ≡ w.c)
          × ((delete_phase core us w).0.s.registry ≡ w.s.registry)
          × ((add_phase core us w).0.c ≡ w.c)
          × ((add_phase core us w).0.s.registry ≡ w.s.registry)
    unfolding delete_phase add_phase
    phases_keep us w = ground arith

    users_round-IsInStep :
        (new : List UserInfo) (w : World C P Regexp Bucket)
        → Unique new
        → IsInStep w
        → let (deleted, added, updated) = compare_user_list w.c.user_list new in
          IsInStep (users_round core new deleted added updated w)
    unfolding users_round
    users_round-IsInStep new w u h =
        let (deleted, added, updated) = compare_user_list w.c.user_list new in
        let k1 = phases_keep deleted w in
        let w1 = (delete_phase core deleted w).0 in
        let h1 : IsInStep w1 = move w w1 k1.0 k1.1 h in
        elim (Option-cases (delete_phase core deleted w).1) [
          | inr (e, refused) ↦ rw (refused, users_round) h1
          | inl granted ↦
              let k2 = phases_keep added w1 in
              let w2 = (add_phase core added w1).0 in
              elim (Option-cases (add_phase core added w1).1) [
                | inr (e, refused) ↦ rw (granted, refused, users_round) (move w1 w2 k2.2 k2.3 h1)
                | inl granted2 ↦
                    rw (granted, granted2, users_round)
                      (commit_users-IsInStep new w w2 u (k2.2 ∙ k1.0) (k2.3 ∙ k1.1) h)
              ]
        ]

    -- What the core answers to the deletions, with its new state, and then to the additions.
    abbrev delete_answer : List UserInfo → World C P Regexp Bucket → C × Option Text
    delete_answer deleted w =
        if is_empty deleted
        then (w.s.server, none)
        else core.del_users deleted w.c.tag w.c.info w.s.server

    abbrev add_answer : List UserInfo → C → World C P Regexp Bucket → Option Text
    add_answer added server w =
        if is_empty added then none else (core.add_users w.c.tag added w.c.info server).2

    -- Does the core refuse what the new list asks of it?
    abbrev pub is_refused : List UserInfo → World C P Regexp Bucket → Bool
    is_refused new w =
        let (deleted, added, updated) = compare_user_list w.c.user_list new in
        let (server, delete_error) = delete_answer deleted w in
        is_some delete_error || is_some (add_answer added server w)

    -- What becomes of the user list and the limiter: both are left alone, or the list is the new one.
    abbrev pub IsRound :
        Bool → List UserInfo → World C P Regexp Bucket → World C P Regexp Bucket → Type 0
    IsRound true new w w' = (w'.c ≡ w.c) × (w'.s.registry ≡ w.s.registry)
    IsRound false new w w' = w'.c.user_list ≡ new

    delete_phase_lem :
        (deleted : List UserInfo) (w : World C P Regexp Bucket)
        → ((delete_phase core deleted w).0.s.server ≡ (delete_answer deleted w).0)
          × ((delete_phase core deleted w).1 ≡ (delete_answer deleted w).1)
    unfolding delete_phase
    delete_phase_lem deleted w = ground arith

    add_phase_lem :
        (added : List UserInfo) (w w' : World C P Regexp Bucket) (server : C)
        → w'.c ≡ w.c
        → w'.s.server ≡ server
        → (add_phase core added w').1 ≡ add_answer added server w
    unfolding add_phase
    add_phase_lem added w w' server c e = ground (arith, c, e)

    users_round_lem :
        (new deleted added updated : List UserInfo) (w : World C P Regexp Bucket)
        (r1 r2 : Option Text)
        → (delete_phase core deleted w).1 ≡ r1
        → (add_phase core added (delete_phase core deleted w).0).1 ≡ r2
        → IsRound (is_some r1 || is_some r2) new w (users_round core new deleted added updated w)
    unfolding users_round commit_users
    users_round_lem new deleted added updated w (some e) r2 h1 h2 =
        rw (h1, users_round) ((phases_keep deleted w).0, (phases_keep deleted w).1)
    users_round_lem new deleted added updated w none (some e) h1 h2 =
        let k1 = phases_keep deleted w in
        let k2 = phases_keep added (delete_phase core deleted w).0 in
        rw (h1, h2, users_round) (k2.2 ∙ k1.0, k2.3 ∙ k1.1)
    users_round_lem new deleted added updated w none none h1 h2 = rw (h1, h2, users_round) refl

    users_round-IsRound :
        (new : List UserInfo) (w : World C P Regexp Bucket)
        → let (deleted, added, updated) = compare_user_list w.c.user_list new in
          IsRound (is_refused new w) new w (users_round core new deleted added updated w)
    users_round-IsRound new w =
        let (deleted, added, updated) = compare_user_list w.c.user_list new in
        let (same_server, same_error) = delete_phase_lem deleted w in
        users_round_lem new deleted added updated w _ _ same_error (
          add_phase_lem added w (delete_phase core deleted w).0 (delete_answer deleted w).0
            (phases_keep deleted w).0 same_server)

    -- Is the user list left alone: because there is no new list, or because the core refuses it?
    abbrev pub is_left : List UserInfo → World C P Regexp Bucket → Bool
    is_left [] w = true
    is_left (u ∷ us) w = is_refused (u ∷ us) w

    -- Whatever the core answers, a round in which the node has not changed keeps the limiter in step
    -- with the user list, for a new list that names no uuid twice. After the new alive list, the
    -- controller and the limiters are left alone where no user came or the core refused to delete or
    -- to add users; otherwise the user list is the new one.
    pub users_changed-IsInStep :
        (users : Option (List UserInfo)) (alive : Option (Map ℤ ℤ)) (w : World C P Regexp Bucket)
        → Unique (option_or users [])
        → IsInStep w
        → let w' = users_changed core users alive w in
          let new = option_or users [] in
          IsInStep w' × IsRound (is_left new (set_alive alive w)) new (set_alive alive w) w'
    unfolding users_changed
    users_changed-IsInStep none alive w u h = ((set_alive-IsInStep alive w h).0, (refl, refl))
    users_changed-IsInStep (some []) alive w u h = ((set_alive-IsInStep alive w h).0, (refl, refl))
    users_changed-IsInStep (some (x ∷ xs)) alive w u h = (
      users_round-IsInStep (x ∷ xs) (set_alive alive w) u (set_alive-IsInStep alive w h).0,
      users_round-IsRound (x ∷ xs) (set_alive alive w),
    )
