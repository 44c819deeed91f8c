-- ===== src/Dispatcher/Linking.antt =====
-- `getLink` of core/xray/app/mydispatcher/default.go, as its caller sees it.
use v2sp.Prelude.{
  Option-cases, nat_eq, ℤ, int_eq, get_elem?, set, set-same, get_elem?-of_lt, lookup,
  lookup-insert_self, Text, text_eq, ℕ, suc, ◌≡◌, refl, ap, ◌∙◌, inl, inr, Option, none, some, [],
  ◌∷◌,
}
use v2sp.Limiter.{Limiter, check_limit}
use v2sp.Limiter.Registry.{Registry, get_limiter, deref, modify}
use v2sp.Sniffers.{Network}
use v2sp.Dispatcher.Links.{close, interrupt, ManagedWriter, LinkManager, add_link}
use v2sp.Dispatcher.{
  Writer, pipe_writer, Reader, pipe_reader, Dispatcher, get_link_manager, get_conn_state,
  mark_user_active, modify_manager,
}
use v2sp.Dispatcher.Admission.{
  SessionInbound, limited_by_conn_or_ip, limited_user, Verdict, denied, admitted, refused, Opened,
  count_user, admit, get_link,
}
use v2sp.Dispatcher.Granted.{
  IsApart, IsGiven, IsEnlisted, get_link_manager-IsGiven, enlist-IsEnlisted,
}

module _ {Bucket : Type 0} where
  mark_user_active-managers :
      (email tag : Text) (now : ℤ) (d : Dispatcher Bucket)
      → let d' = mark_user_active email tag now d in
        (d'.managers ≡ d.managers)
        × (d'.link_managers ≡ d.link_managers)
        × (lookup email d'.conn_states ≡ some (record { tag = tag; last_active = now }))
  unfolding mark_user_active get_conn_state
  mark_user_active-managers email tag now d = (
    elim (Option-cases (lookup email d.conn_states)) [
      | inl h ↦ rw (mark_user_active, get_conn_state, h) refl
      | inr (s, h) ↦ rw (mark_user_active, get_conn_state, h) refl
    ],
    elim (Option-cases (lookup email d.conn_states)) [
      | inl h ↦ rw (mark_user_active, get_conn_state, h) refl
      | inr (s, h) ↦ rw (mark_user_active, get_conn_state, h) refl
    ],
    lookup-insert_self email (record { tag = tag; last_active = now })
        (get_conn_state email d).0.conn_states,
  )

  -- A method called through a pointer that leads to `lm`.
  modify_manager-at :
      (p : ℕ) (lm : LinkManager (Writer Bucket) Reader)
      (f : LinkManager (Writer Bucket) Reader → LinkManager (Writer Bucket) Reader)
      (d : Dispatcher Bucket)
      → get_elem? d.managers p ≡ some lm
      → modify_manager p f d ≡ record d { managers = set d.managers p (f lm) }
  modify_manager-at p lm f d h = rw (modify_manager, h)

  -- The dispatcher of a connection that is kept and counted.
  pub kept :
      (email tag : Text) (now : ℤ) (id next : ℕ) (w : ManagedWriter (Writer Bucket)) (r : Reader)
      (d : Dispatcher Bucket)
      → IsApart d
      → let (d1, q) = get_link_manager email d in
        let d2 = mark_user_active email tag now d1 in
        let d' =
          count_user tag email
            (modify_manager q (add_link id w r) (record d2 { next_writer = next })) in
        IsEnlisted email d d'
        × (lookup email d'.conn_states ≡ some (record { tag = tag; last_active = now }))
  unfolding IsGiven count_user
  kept email tag now id next w r d apart =
      let given = get_link_manager-IsGiven email d apart in
      let d1 = (get_link_manager email d).0 in
      let q = (get_link_manager email d).1 in
      let (lm, at) = get_elem?-of_lt d1.managers q (given.0.0 email q given.1) in
      let (m2, l2, s2) = mark_user_active-managers email tag now d1 in
      let d2 = mark_user_active email tag now d1 in
      let at2 : get_elem? d2.managers q ≡ some lm = ap (λ ms. get_elem? ms q) m2 ∙ at in
      rw (modify_manager-at q lm (add_link id w r) (record d2 { next_writer = next }) at2) (
        enlist-IsEnlisted email d d1
            (count_user tag email
              (record d2 { next_writer = next; managers = set d2.managers q (add_link id w r lm) }))
            q id w r lm given at l2 (ap (λ ms. set ms q (add_link id w r lm)) m2),
        s2,
      )

  -- The counter and the link managers are apart.
  pub count_user-modify :
      (tag email : Text) (p : ℕ)
      (f : LinkManager (Writer Bucket) Reader → LinkManager (Writer Bucket) Reader)
      (d : Dispatcher Bucket)
      → modify_manager p f (count_user tag email d) ≡ count_user tag email (modify_manager p f d)
  unfolding count_user
  count_user-modify tag email p f d = elim (Option-cases (get_elem? d.managers p)) [
    | inl h ↦ rw (modify_manager, h)
    | inr (lm, h) ↦ rw (modify_manager, h)
  ]

module _ {Regexp Bucket : Type 0} (new_bucket : ℤ → ℤ → ℤ → Bucket) where
  admit-unknown_user :
      (inbound : SessionInbound) (email : Text) (network : Network) (now : ℤ)
      (registry : Registry Regexp Bucket) (p : ℕ) (l : Limiter Regexp Bucket)
      → get_limiter inbound.tag registry ≡ some p
      → deref p registry ≡ some l
      → lookup email l.user_limit_info ≡ none
      → admit new_bucket inbound email network now registry
        ≡ (registry, denied (limited_by_conn_or_ip email))
  unfolding admit check_limit deref modify
  admit-unknown_user inbound email network now registry p l tag place unknown =
      rw (admit, tag, place, check_limit, unknown)
        (rw (modify, place, set-same registry.heap p l place))

  module _ (session : Option SessionInbound) (network : Network) (now : ℤ) (uplink downlink : ℕ)
      (registry : Registry Regexp Bucket) (d : Dispatcher Bucket) where
    abbrev opened : Opened Regexp Bucket
    opened = get_link new_bucket session network now uplink downlink registry d

    -- What the verdict of the limiter decides.
    unfoldable pub IsDecided : SessionInbound → Text → Verdict Bucket → Type 0
    IsDecided inbound email (denied e) =
        (opened.result ≡ refused e)
        × (opened.dispatcher ≡ d)
        × (opened.effects ≡ (
            close (pipe_writer downlink)
            ∷ close (pipe_writer uplink)
            ∷ interrupt (pipe_reader uplink)
            ∷ interrupt (pipe_reader downlink)
            ∷ []))
    IsDecided inbound email (admitted p bucket) =
        IsEnlisted email d opened.dispatcher
        × (lookup email opened.dispatcher.conn_states
            ≡ some (record { tag = inbound.tag; last_active = now }))
        × (opened.effects ≡ [])

    get_link-verdict :
        (inbound : SessionInbound) (email : Text) (registry' : Registry Regexp Bucket)
        (v : Verdict Bucket)
        → IsApart d
        → limited_user session ≡ some (inbound, email)
        → admit new_bucket inbound email network now registry ≡ (registry', v)
        → IsDecided inbound email v
    unfolding IsDecided get_link
    get_link-verdict inbound email registry' (denied e) apart user h =
        rw (get_link, user, h) (refl, refl, refl)
    get_link-verdict inbound email registry' (admitted p bucket) apart user h =
        let d2 = mark_user_active email inbound.tag now (get_link_manager email d).0 in
        let (enlisted, seen) =
          kept email inbound.tag now d2.next_writer (suc d2.next_writer)
            (record { writer = pipe_writer uplink; create_time = now }) (pipe_reader uplink) d
            apart in
        rw (get_link, user, h) (enlisted, seen, refl)

    -- A user with an email that the limiter denies gets an error: all four ends of the two pipes are
    -- closed or interrupted and the dispatcher is as before. One that it admits has one connection more
    -- in a link manager of its own, is seen active at this moment under the inbound's tag, and no
    -- other user's connections change.
    pub get_link_lem :
        (inbound : SessionInbound) (email : Text)
        → IsApart d
        → limited_user session ≡ some (inbound, email)
        → IsDecided inbound email (admit new_bucket inbound email network now registry).1
    get_link_lem inbound email apart user =
        get_link-verdict inbound email (admit new_bucket inbound email network now registry).0
          (admit new_bucket inbound email network now registry).1 apart user refl

    -- A user that the limiter of its inbound does not know is refused, and neither the dispatcher nor
    -- any limiter changes.
    pub get_link-unknown_user :
        (inbound : SessionInbound) (email : Text) (p : ℕ) (l : Limiter Regexp Bucket)
        → limited_user session ≡ some (inbound, email)
        → get_limiter inbound.tag registry ≡ some p
        → deref p registry ≡ some l
        → lookup email l.user_limit_info ≡ none
        → (opened.result ≡ refused (limited_by_conn_or_ip email))
          × (opened.dispatcher ≡ d)
          × (opened.registry ≡ registry)
    unfolding get_link
    get_link-unknown_user inbound email p l user tag place unknown =
        let denial = admit-unknown_user inbound email network now registry p l tag place unknown in
        rw (get_link, user, denial) (refl, refl, ap (λ r. r.0) denial)
