-- ===== src/Dispatcher/Cleanup.antt =====
-- The removal of idle users in core/xray/app/mydispatcher/default.go: `userCleanupLoop`.
use v2sp.Prelude.{
  pos, ◌⊎◌, ◌-ℤ◌, ◌*◌, ◌^◌, ◌≤ℤ◌, get_elem?, int_beq_iff, ◌<◌, if◌then◌else◌, Bool-cases,
  Option-cases, ◌==◌, nat_eq, eq_refl, ℤ, int_eq, length, Map, lookup, Distinct, lookup-delete,
  Text, text_eq, ℕ, zero, suc, ◌≤◌, ◌≡◌, refl, ap, ◌∙◌, inl, inr, none, some, [], ◌∷◌, ◌++◌, arith,
}
use v2sp.Dispatcher.{
  UserConnState, Writer, Reader, connection_count, Dispatcher, Effects, user_cleanup_batch,
  cleanup_user_resources, idle_tag, cleanup_users, user_cleanup,
}
use v2sp.Dispatcher.Links.{LinkManager, get_connection_count}
use v2sp.Dispatcher.Idle.{
  AreKnown, IsCleaned, cleanup_user_resources_idle, idle_tag-count, idle_tag-cleaned,
  AreKnown-cleaned,
}

module _ {Bucket : Type 0} where
  cleanup_users-kept :
      (now : ℤ) (email : Text) (p : ℕ) (rest : Map Text ℕ) (n : ℕ) (d : Dispatcher Bucket)
      → idle_tag now email p d ≡ none
      → cleanup_users now ((email, p) ∷ rest) (suc n) d ≡ cleanup_users now rest (suc n) d
  unfolding cleanup_users
  cleanup_users-kept now email p rest n d h = rw (cleanup_users, h)

  cleanup_users-cleaned :
      (now : ℤ) (email tag : Text) (p : ℕ) (rest : Map Text ℕ) (n : ℕ) (d : Dispatcher Bucket)
      → idle_tag now email p d ≡ some tag
      → cleanup_users now ((email, p) ∷ rest) (suc n) d ≡ (
          let r = cleanup_user_resources email tag d in
          let later = cleanup_users now rest n r.0 in (later.0, r.1 ++ later.1))
  unfolding cleanup_users
  cleanup_users-cleaned now email tag p rest n d h = rw (cleanup_users, h)

  -- What a pass over some entries does: it closes nothing, keeps a user that is not among them or not
  -- idle, and forgets one that is idle when the batch has room for all.
  IsPass : ℤ → Map Text ℕ → ℕ → Dispatcher Bucket → Dispatcher Bucket × Effects Bucket → Type 0
  IsPass now entries n d (d', closed) =
      (closed ≡ [])
      × ((other : Text)
          → ((q : ℕ) → lookup other entries ≡ some q → idle_tag now other q d ≡ none)
          → (lookup other d'.link_managers ≡ lookup other d.link_managers)
            × (lookup other d'.conn_states ≡ lookup other d.conn_states))
      × ((other tag : Text) (q : ℕ)
          → lookup other entries ≡ some q
          → idle_tag now other q d ≡ some tag
          → length entries ≤ n
          → (lookup other d'.link_managers ≡ none) × (lookup other d'.conn_states ≡ none))

  IsPass-kept :
      (now : ℤ) (email : Text) (p : ℕ) (rest : Map Text ℕ) (n : ℕ) (d : Dispatcher Bucket)
      (r : Dispatcher Bucket × Effects Bucket)
      → lookup email rest ≡ none
      → idle_tag now email p d ≡ none
      → IsPass now rest n d r
      → IsPass now ((email, p) ∷ rest) n d r
  unfolding IsPass lookup
  IsPass-kept now email p rest n d r u h (none_closed, keeps, removes) = (
    none_closed,
    λ other quiet. keeps other λ q e. quiet q (ground (arith, text_eq.same_iff email other)),
    λ other tag q e idle room.
        removes other tag q (ground (arith, text_eq.same_iff email other)) idle (omega arith),
  )

  -- The maps after the clean-up of `email`, for any name.
  cleaned-lookup :
      (email other : Text) (d : Dispatcher Bucket) (r : Dispatcher Bucket × Effects Bucket)
      → IsCleaned email d r
      → (lookup other r.0.link_managers
          ≡ (if email == other then none else lookup other d.link_managers))
        × (lookup other r.0.conn_states
            ≡ (if email == other then none else lookup other d.conn_states))
  unfolding IsCleaned
  cleaned-lookup email other d r c = (
    ap (lookup other) c.2 ∙ lookup-delete email other d.link_managers,
    ap (lookup other) c.3 ∙ lookup-delete email other d.conn_states,
  )

  module _ (now : ℤ) (email tag : Text) (p : ℕ) (rest : Map Text ℕ) (n : ℕ) (d : Dispatcher Bucket)
      (r later : Dispatcher Bucket × Effects Bucket) (c : IsCleaned email d r)
      (unique : lookup email rest ≡ none) (idle : idle_tag now email p d ≡ some tag)
      (pass : IsPass now rest n r.0 later) where
    pass-keeps :
        (other : Text)
        → ((q : ℕ) → lookup other ((email, p) ∷ rest) ≡ some q → idle_tag now other q d ≡ none)
        → (lookup other later.0.link_managers ≡ lookup other d.link_managers)
          × (lookup other later.0.conn_states ≡ lookup other d.conn_states)
    unfolding IsPass lookup
    pass-keeps other quiet = elim (Bool-cases (email == other)) [
      | inl same ↦ ground (arith, quiet p, text_eq.same_iff email other)
      | inr apart ↦
          let (l, s) =
            pass.1 other
              λ q e. idle_tag-cleaned now email other q d r c apart ∙ quiet q (rw (apart, e)) in
          let (l', s') = cleaned-lookup email other d r c in (l ∙ l' ∙ rw apart, s ∙ s' ∙ rw apart)
    ]

    pass-removes :
        (other tag' : Text) (q : ℕ)
        → lookup other ((email, p) ∷ rest) ≡ some q
        → idle_tag now other q d ≡ some tag'
        → length rest ≤ n
        → (lookup other later.0.link_managers ≡ none) × (lookup other later.0.conn_states ≡ none)
    unfolding IsPass lookup
    pass-removes other tag' q e idle' room = elim (Bool-cases (email == other)) [
      | inl same ↦
          let (l, s) = pass.1 other λ q' e'. ground (arith, text_eq.same_iff email other) in
          let (l', s') = cleaned-lookup email other d r c in (l ∙ l' ∙ rw same, s ∙ s' ∙ rw same)
      | inr apart ↦
          pass.2 other tag' q (ground arith)
            (idle_tag-cleaned now email other q d r c apart ∙ idle') room
    ]

    IsPass-cleaned : IsPass now ((email, p) ∷ rest) (suc n) d (later.0, r.1 ++ later.1)
    unfolding IsPass IsCleaned
    IsPass-cleaned = (
      rw (c.0, pass.0),
      pass-keeps,
      λ other tag' q e i room. pass-removes other tag' q e i (omega arith),
    )

  cleanup_users-IsPass :
      (now : ℤ) (entries : Map Text ℕ) (n : ℕ) (d : Dispatcher Bucket)
      → Distinct entries
      → AreKnown entries d
      → IsPass now entries n d (cleanup_users now entries n d)
  unfolding cleanup_users IsPass lookup
  cleanup_users-IsPass now [] n d u k =
      (refl, λ other quiet. (refl, refl), λ other tag q e i room. ground arith)
  cleanup_users-IsPass now (e ∷ rest) zero d u k =
      (refl, λ other quiet. (refl, refl), λ other tag q e i room. ground arith)
  cleanup_users-IsPass now ((email, p) ∷ rest) (suc n) d u (k, ks) =
      elim (Option-cases (idle_tag now email p d)) [
        | inl h ↦ rw (cleanup_users-kept now email p rest n d h) (
            IsPass-kept now email p rest (suc n) d (cleanup_users now rest (suc n) d) u.0 h
              (cleanup_users-IsPass now rest (suc n) d u.1 ks))
        | inr (tag, h) ↦
            let c =
              cleanup_user_resources_idle email tag p d k (idle_tag-count now email tag p d h) in
            let r = cleanup_user_resources email tag d in
            rw (cleanup_users-cleaned now email tag p rest n d h) (
              IsPass-cleaned now email tag p rest n d r (cleanup_users now rest n r.0) c u.0 h (
                cleanup_users-IsPass now rest n r.0 u.1 (AreKnown-cleaned email rest d r c u.0 ks)))
      ]

  AreKnown-of_lookup :
      (entries : Map Text ℕ) (d : Dispatcher Bucket)
      → Distinct entries
      → ((email : Text) (p : ℕ)
          → lookup email entries ≡ some p
          → lookup email d.link_managers ≡ some p)
      → AreKnown entries d
  unfolding lookup
  AreKnown-of_lookup [] d u same = tt
  AreKnown-of_lookup ((email, p) ∷ rest) d u same = (
    same email p (rw (eq_refl email)),
    AreKnown-of_lookup rest d u.1
        λ other q e. same other q (ground (arith, text_eq.same_iff email other)),
  )

  user_cleanup-IsPass :
      (now : ℤ) (d : Dispatcher Bucket)
      → Distinct d.link_managers
      → IsPass now d.link_managers user_cleanup_batch d (user_cleanup now d)
  unfolding user_cleanup
  user_cleanup-IsPass now d u =
      cleanup_users-IsPass now d.link_managers user_cleanup_batch d u
        (AreKnown-of_lookup d.link_managers d u λ email p e. e)

  -- What keeps a user at the instant `now`: a connection through the user's link manager, no record
  -- of activity, an activity record that was never set, or activity in the last ten minutes.
  abbrev pub IsSpared : ℤ → Text → ℕ → Dispatcher Bucket → Type 0
  IsSpared now email p d =
      ((m : LinkManager (Writer Bucket) Reader) × (get_elem? d.managers p ≡ some m)
        × (0 < length m.links))
      ⊎ ((lookup email d.conn_states ≡ none)
          ⊎ ((state : UserConnState) × (lookup email d.conn_states ≡ some state)
              × ((state.last_active ≡ pos 0) ⊎ (now -ℤ state.last_active ≤ℤ pos (600 * 10 ^ 9)))))

  spared-idle_tag :
      (now : ℤ) (email : Text) (p : ℕ) (d : Dispatcher Bucket)
      → IsSpared now email p d
      → idle_tag now email p d ≡ none
  unfolding idle_tag connection_count get_connection_count
  spared-idle_tag now email p d (inl (m, e, h)) = ground arith
  spared-idle_tag now email p d (inr (inl h)) = ground arith
  spared-idle_tag now email p d (inr (inr (state, e, inl h))) =
      ground (arith, int_beq_iff state.last_active (pos 0))
  spared-idle_tag now email p d (inr (inr (state, e, inr h))) =
      ground (arith, Bool-cases (state.last_active == pos 0), h)

  -- A pass of the clean-up loop closes no pipe. A user with a connection through the link manager,
  -- with no record of activity or one that was never set, or active in the last ten minutes keeps the
  -- link manager and the record.
  pub user_cleanup-spares :
      (now : ℤ) (d : Dispatcher Bucket) (email : Text)
      → Distinct d.link_managers
      → ((p : ℕ) → lookup email d.link_managers ≡ some p → IsSpared now email p d)
      → ((user_cleanup now d).1 ≡ [])
        × (lookup email (user_cleanup now d).0.link_managers ≡ lookup email d.link_managers)
        × (lookup email (user_cleanup now d).0.conn_states ≡ lookup email d.conn_states)
  unfolding IsPass
  user_cleanup-spares now d email u spared =
      let pass = user_cleanup-IsPass now d u in
      let quiet : (p : ℕ) → lookup email d.link_managers ≡ some p → idle_tag now email p d ≡ none =
        λ p e. spared-idle_tag now email p d (spared p e) in
      (pass.0, (pass.1 email quiet).0, (pass.1 email quiet).1)

  -- A user that is idle leaves both maps in the pass, when there are at most 200 users.
  pub user_cleanup-forgets :
      (now : ℤ) (d : Dispatcher Bucket) (email tag : Text) (p : ℕ)
      → Distinct d.link_managers
      → lookup email d.link_managers ≡ some p
      → idle_tag now email p d ≡ some tag
      → length d.link_managers ≤ 200
      → (lookup email (user_cleanup now d).0.link_managers ≡ none)
        × (lookup email (user_cleanup now d).0.conn_states ≡ none)
  unfolding IsPass
  user_cleanup-forgets now d email tag p u known idle room =
      (user_cleanup-IsPass now d u).2 email tag p known idle room
