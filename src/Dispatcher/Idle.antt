-- ===== src/Dispatcher/Idle.antt =====
-- The clean-up of one user in core/xray/app/mydispatcher/default.go: `cleanupUserResources`.
use v2sp.Prelude.{
  ltb, ◌==◌, nat_eq, ℤ, int_eq, length, get_elem?, set, get_elem?-set_self, get_elem?-set_ne,
  get_elem?-lt, Map, lookup, delete, lookup-delete, Text, text_eq, ℕ, ◌≡◌, refl, sym, ap, ◌∙◌,
  false, Option, none, some, List, [], ◌∷◌, arith,
}
use v2sp.Dispatcher.Links.{LinkManager, close_all, close_links, LinkEntry, get_connection_count}
use v2sp.Dispatcher.{
  Writer, Reader, Dispatcher, Effects, connection_count, close_manager, cleanup_user_resources,
  idle_tag,
}

module _ {Bucket : Type 0} where
  -- Every entry of the map is still the dispatcher's.
  abbrev pub AreKnown : Map Text ℕ → Dispatcher Bucket → Type 0
  AreKnown [] d = Unit
  AreKnown ((email, p) ∷ rest) d = (lookup email d.link_managers ≡ some p) × AreKnown rest d

  no_links : (m : Map ℕ (LinkEntry (Writer Bucket) Reader)) → (ltb 0 (length m) ≡ false) → m ≡ []
  no_links [] h = refl
  no_links (x ∷ m) h = ground arith

  abbrev links_at : List (LinkManager (Writer Bucket) Reader) → ℕ → ℕ
  links_at managers q = elim (get_elem? managers q) [ none ↦ 0 | some m ↦ length m.links ]

  count_after :
      (managers : List (LinkManager (Writer Bucket) Reader)) (p q : ℕ)
      (lm lm' : LinkManager (Writer Bucket) Reader)
      → get_elem? managers p ≡ some lm
      → length lm'.links ≡ length lm.links
      → links_at (set managers p lm') q ≡ links_at managers q
  count_after managers p q lm lm' h e = ground (
    arith,
    get_elem?-set_self managers p lm' (get_elem?-lt managers p lm h),
    get_elem?-set_ne managers p q lm',
  )

  -- Nothing is closed, and only the managers' indexes may differ.
  abbrev IsTraceless : Dispatcher Bucket → Dispatcher Bucket × Effects Bucket → Type 0
  IsTraceless d (d', closed) =
      (closed ≡ [])
      × ((q : ℕ) → connection_count q d' ≡ connection_count q d)
      × (d'.link_managers ≡ d.link_managers)
      × (d'.conn_states ≡ d.conn_states)
      × (d'.counter ≡ d.counter)

  count_at :
      (p : ℕ) (d : Dispatcher Bucket) (lm : LinkManager (Writer Bucket) Reader)
      → get_elem? d.managers p ≡ some lm
      → connection_count p d ≡ length lm.links
  unfolding connection_count get_connection_count
  count_at p d lm e = rw (connection_count, e)

  close_manager_at :
      (p : ℕ) (d : Dispatcher Bucket) (o : Option (LinkManager (Writer Bucket) Reader))
      → get_elem? d.managers p ≡ o
      → ltb 0 (connection_count p d) ≡ false
      → IsTraceless d (close_manager p d)
  unfolding close_manager connection_count close_all get_connection_count close_links
  close_manager_at p d none e h = ground arith
  close_manager_at p d (some lm) e h =
      let unlinked : lm.links ≡ [] = no_links lm.links (ap (ltb 0) (sym (count_at p d lm e)) ∙ h) in
      (
        rw (close_manager, e, unlinked),
        λ q. rw (close_manager, e) (count_after d.managers p q lm _ e (sym (ap length unlinked))),
        rw (close_manager, e),
        rw (close_manager, e),
        rw (close_manager, e),
      )

  close_manager_idle :
      (p : ℕ) (d : Dispatcher Bucket)
      → ltb 0 (connection_count p d) ≡ false
      → IsTraceless d (close_manager p d)
  close_manager_idle p d h = close_manager_at p d (get_elem? d.managers p) refl h

  -- The clean-up of a user whose link manager has no connection.
  unfoldable pub IsCleaned : Text → Dispatcher Bucket → Dispatcher Bucket × Effects Bucket → Type 0
  IsCleaned email d (d', closed) =
      (closed ≡ [])
      × ((q : ℕ) → connection_count q d' ≡ connection_count q d)
      × (d'.link_managers ≡ delete email d.link_managers)
      × (d'.conn_states ≡ delete email d.conn_states)

  pub cleanup_user_resources_idle :
      (email tag : Text) (p : ℕ) (d : Dispatcher Bucket)
      → lookup email d.link_managers ≡ some p
      → ltb 0 (connection_count p d) ≡ false
      → IsCleaned email d (cleanup_user_resources email tag d)
  unfolding cleanup_user_resources IsCleaned connection_count
  cleanup_user_resources_idle email tag p d known h =
      let (none_closed, counts, managers, states, counters) = close_manager_idle p d h in
      (
        rw (cleanup_user_resources, known, none_closed),
        λ q. rw (cleanup_user_resources, known) (counts q),
        rw (cleanup_user_resources, known, managers),
        rw (cleanup_user_resources, known, states),
      )

  pub idle_tag-count :
      (now : ℤ) (email tag : Text) (p : ℕ) (d : Dispatcher Bucket)
      → idle_tag now email p d ≡ some tag
      → ltb 0 (connection_count p d) ≡ false
  unfolding idle_tag
  idle_tag-count now email tag p d h = ground arith

  -- Another user is as idle as before.
  pub idle_tag-cleaned :
      (now : ℤ) (email other : Text) (q : ℕ) (d : Dispatcher Bucket)
      (r : Dispatcher Bucket × Effects Bucket)
      → IsCleaned email d r
      → (email == other) ≡ false
      → idle_tag now other q r.0 ≡ idle_tag now other q d
  unfolding idle_tag IsCleaned
  idle_tag-cleaned now email other q d r (none_closed, counts, managers, states) apart =
      rw (counts q, states, lookup-delete email other d.conn_states, apart)

  pub AreKnown-cleaned :
      (email : Text) (rest : Map Text ℕ) (d : Dispatcher Bucket)
      (r : Dispatcher Bucket × Effects Bucket)
      → IsCleaned email d r
      → lookup email rest ≡ none
      → AreKnown rest d
      → AreKnown rest r.0
  unfolding IsCleaned lookup
  AreKnown-cleaned email [] d r c h k = tt
  AreKnown-cleaned email ((other, q) ∷ rest) d r c h (k, ks) =
      let apart : (email == other) ≡ false =
        ground (arith, text_eq.same_iff other email, text_eq.same_iff email other) in
      (
        ap (lookup other) c.2 ∙ lookup-delete email other d.link_managers ∙ rw (apart, k),
        AreKnown-cleaned email rest d r c (ground arith) ks,
      )
