-- ===== src/Dispatcher/Granted.antt =====
-- What a connection that passes the limiter leaves in the dispatcher.
use v2sp.Prelude.{
  Option-cases, ◌==◌, nat_eq, int_eq, length, get_elem?, set, length-append, get_elem?-set_self,
  get_elem?-set_ne, get_elem?-lt, get_elem?-append_end, get_elem?-append_lt, Map, lookup, insert,
  lookup-insert, lookup-insert_self, Text, text_eq, ℕ, zero, suc, ◌<◌, ◌≡◌, refl, sym, ap, ◌∙◌, ◌≢◌,
  inl, inr, false, none, some, List, [], ◌∷◌, ◌++◌, arith,
}
use v2sp.Dispatcher.Links.{
  ManagedWriter, LinkManager, new_link_manager, add_link, get_connection_count,
}
use v2sp.Dispatcher.{Writer, Reader, Dispatcher, get_link_manager, connection_count}

module _ {Bucket : Type 0} where
  -- The connections that the link manager of an email keeps.
  unfoldable pub user_connections : Text → Dispatcher Bucket → ℕ
  unfolding connection_count
  user_connections email d = elim (lookup email d.link_managers) [
    | none ↦ 0
    | some p ↦ connection_count p d
  ]

  -- Every link manager of the map exists, and no two users share one.
  abbrev pub IsApart : Dispatcher Bucket → Type 0
  IsApart d =
      ((email : Text) (p : ℕ) → lookup email d.link_managers ≡ some p → p < length d.managers)
      × ((email other : Text) (p : ℕ)
          → lookup email d.link_managers ≡ some p
          → lookup other d.link_managers ≡ some p
          → email ≡ other)

  -- `get_link_manager` gives the user a manager of its own, and adds no connection.
  unfoldable pub IsGiven : Text → Dispatcher Bucket → Dispatcher Bucket × ℕ → Type 0
  IsGiven email d (d', p) =
      IsApart d'
      × (lookup email d'.link_managers ≡ some p)
      × (connection_count p d' ≡ user_connections email d)
      × ((other : Text)
          → (email == other) ≡ false
          → user_connections other d' ≡ user_connections other d)

  get_link_manager-known :
      (email : Text) (p : ℕ) (d : Dispatcher Bucket)
      → IsApart d
      → lookup email d.link_managers ≡ some p
      → IsGiven email d (get_link_manager email d)
  unfolding get_link_manager IsGiven user_connections
  get_link_manager-known email p d apart h =
      rw (get_link_manager, h) (apart, h, rw (user_connections, h), λ other e. refl)

  -- A new manager leaves the counts of the others.
  connection_count-append :
      (q : ℕ) (lm : LinkManager (Writer Bucket) Reader) (managers : Map Text ℕ)
      (d : Dispatcher Bucket)
      → q < length d.managers
      → connection_count q
          (record d { managers = d.managers ++ (lm ∷ []); link_managers = managers })
        ≡ connection_count q d
  unfolding connection_count
  connection_count-append q lm managers d h =
      rw (connection_count, get_elem?-append_lt d.managers (lm ∷ []) q h)

  user_connections-fresh :
      (email other : Text) (d : Dispatcher Bucket)
      → IsApart d
      → (email == other) ≡ false
      → user_connections other (record d {
        managers = d.managers ++ (new_link_manager ∷ []);
        link_managers = insert email (length d.managers) d.link_managers;
      })
        ≡ user_connections other d
  unfolding user_connections
  user_connections-fresh email other d apart e =
      elim (Option-cases (lookup other d.link_managers)) [
        | inl h ↦
            rw (
              user_connections,
              lookup-insert email other (length d.managers) d.link_managers,
              e,
              h,
            )
        | inr (q, h) ↦
            rw
              (
                user_connections,
                lookup-insert email other (length d.managers) d.link_managers,
                e,
                h,
              )
              (connection_count-append q new_link_manager
                (insert email (length d.managers) d.link_managers) d (apart.0 other q h))
      ]

  get_link_manager-fresh :
      (email : Text) (d : Dispatcher Bucket)
      → IsApart d
      → lookup email d.link_managers ≡ none
      → IsGiven email d (get_link_manager email d)
  unfolding get_link_manager IsGiven user_connections connection_count new_link_manager
      get_connection_count
  get_link_manager-fresh email d apart h =
      let p = length d.managers in
      let at = λ (other : Text). lookup-insert email other p d.link_managers in
      rw (get_link_manager, h)
        (
          (
            λ e q k.
                ground (arith, at e, apart.0 e q, length-append d.managers (new_link_manager ∷ [])),
            λ e f q k l. ground (
              arith,
              at e,
              at f,
              text_eq.same_iff email e,
              text_eq.same_iff email f,
              apart.0 e q,
              apart.0 f q,
              apart.1 e f q,
            ),
          ),
          lookup-insert_self email p d.link_managers,
          rw (
            user_connections,
            connection_count,
            h,
            get_elem?-append_end d.managers new_link_manager,
          ),
          λ other e. user_connections-fresh email other d apart e,
        )

  pub get_link_manager-IsGiven :
      (email : Text) (d : Dispatcher Bucket)
      → IsApart d
      → IsGiven email d (get_link_manager email d)
  get_link_manager-IsGiven email d apart = elim (Option-cases (lookup email d.link_managers)) [
    | inl h ↦ get_link_manager-fresh email d apart h
    | inr (p, h) ↦ get_link_manager-known email p d apart h
  ]

  -- One connection more for the user, and the same connections for any other.
  unfoldable pub IsEnlisted : Text → Dispatcher Bucket → Dispatcher Bucket → Type 0
  IsEnlisted email d d' =
      IsApart d'
      × (user_connections email d' ≡ suc (user_connections email d))
      × ((other : Text)
          → (email == other) ≡ false
          → user_connections other d' ≡ user_connections other d)

  length-set :
      (xs : List (LinkManager (Writer Bucket) Reader)) (i : ℕ)
      (v : LinkManager (Writer Bucket) Reader)
      → length (set xs i v) ≡ length xs
  length-set [] i v = refl
  length-set (x ∷ xs) zero v = refl
  length-set (x ∷ xs) (suc i) v = ap suc (length-set xs i v)

  module _ (email : Text) (d d1 d' : Dispatcher Bucket) (p id : ℕ)
      (w : ManagedWriter (Writer Bucket)) (r : Reader) (lm : LinkManager (Writer Bucket) Reader)
      (given : IsGiven email d (d1, p)) (at : get_elem? d1.managers p ≡ some lm)
      (same : d'.link_managers ≡ d1.link_managers)
      (added : d'.managers ≡ set d1.managers p (add_link id w r lm)) where
    enlist-IsApart : IsApart d'
    unfolding IsGiven
    enlist-IsApart = (
      λ e q k. ground (arith, given.0.0 e q, length-set d1.managers p (add_link id w r lm)),
      λ e f q k l. given.0.1 e f q (rw (sym same) k) (rw (sym same) l),
    )

    count-added : connection_count p d' ≡ suc (connection_count p d1)
    unfolding connection_count get_connection_count add_link
    count-added =
        rw
          (
            connection_count,
            added,
            get_elem?-set_self d1.managers p (add_link id w r lm)
                (get_elem?-lt d1.managers p lm at),
            at,
          )
          (omega (
            arith,
            length-append lm.links
                ((lm.next_element, record { id = id; managed = w; reader = r }) ∷ []),
          ))

    count-other : (q : ℕ) → p ≢ q → connection_count q d' ≡ connection_count q d1
    unfolding connection_count
    count-other q ne =
        rw (connection_count, added, get_elem?-set_ne d1.managers p q (add_link id w r lm) ne)

    enlist-user : user_connections email d' ≡ suc (user_connections email d)
    unfolding IsGiven user_connections
    enlist-user = rw (user_connections, same, given.1) (count-added ∙ ap suc given.2)

    enlist-other :
        (other : Text)
        → (email == other) ≡ false
        → user_connections other d' ≡ user_connections other d
    unfolding IsGiven user_connections
    enlist-other other e = elim (Option-cases (lookup other d1.link_managers)) [
      | inl h ↦ rw (user_connections, same, h) (sym (rw (user_connections, h)) ∙ given.3 other e)
      | inr (q, h) ↦
          let ne : p ≢ q = λ pq. ground (
            arith,
            given.0.1 email other q (given.1 ∙ ap some pq) h,
            text_eq.same_iff email other,
          ) in
          rw (user_connections, same, h)
            (count-other q ne ∙ sym (rw (user_connections, h)) ∙ given.3 other e)
    ]

    pub enlist-IsEnlisted : IsEnlisted email d d'
    unfolding IsEnlisted
    enlist-IsEnlisted = (enlist-IsApart, enlist-user, enlist-other)
