-- ===== src/Xray/Removal.antt =====
-- What DelUsers of core/xray/user.go leaves of the users.
use v2sp.Prelude.{
  if◌then◌else◌, Option-cases, ◌==◌, nat_eq, is_some, ℤ, int_eq, Map, lookup, delete, lookup-delete,
  lookup-insert_self, Text, text_beq_iff, text_eq, ◌≡◌, refl, inl, inr, false, Option, none, some,
  List, [], ◌∷◌, arith,
}
use v2sp.Panel.{UserInfo}
use v2sp.Counter.{TrafficStorage, TrafficCounter, delete_counter}
use v2sp.Limiter.{user_tag}
use v2sp.Limiter.Tags.{user_tag_beq}
use v2sp.Limiter.Users.{latest}
use v2sp.Xray.{
  Xray, Inbounds, delete_uids, emails_of, clean_counter, clean_links, clean_up, remove_loop,
  del_users,
}

lookup-delete_uids :
    (tag uuid : Text) (us : List UserInfo) (m : Map Text ℤ)
    → lookup (user_tag tag uuid) (delete_uids (emails_of tag us) m)
      ≡ (if is_some (latest uuid us) then none else lookup (user_tag tag uuid) m)
unfolding delete_uids emails_of latest
lookup-delete_uids tag uuid [] m = refl
lookup-delete_uids tag uuid (u ∷ us) m = ground (
  arith,
  lookup-delete_uids tag uuid us (delete (user_tag tag u.uuid) m),
  lookup-delete (user_tag tag u.uuid) (user_tag tag uuid) m,
  user_tag_beq tag u.uuid uuid,
)

lookup-delete_counter :
    (email e : Text) (c : TrafficCounter)
    → lookup e (delete_counter email c).counters
      ≡ (if email == e then none else lookup e c.counters)
unfolding delete_counter
lookup-delete_counter email e c =
    ground (arith, lookup-delete email e c.counters, text_beq_iff email e)

latest_nil : (uuid : Text) → is_some (latest uuid []) ≡ false
unfolding latest
latest_nil uuid = refl

module _ {M L : Type 0} where
  -- What is counted for an email under a tag.
  abbrev pub counted_for : Text → Text → Xray M L → Option TrafficStorage
  counted_for tag email x = elim (lookup tag x.counter) [
    | none ↦ none
    | some c ↦ lookup email c.counters
  ]

  clean_counter_lem :
      (tag email e : Text) (x : Xray M L)
      → (counted_for tag e (clean_counter tag email x)
          ≡ (if email == e then none else counted_for tag e x))
        × ((clean_counter tag email x).link_managers ≡ x.link_managers)
        × ((clean_counter tag email x).uid_map ≡ x.uid_map)
  unfolding clean_counter
  clean_counter_lem tag email e x = elim (Option-cases (lookup tag x.counter)) [
    | inl absent ↦ ground arith
    | inr (c, found) ↦ ground (
      arith,
      lookup-insert_self tag (delete_counter email c) x.counter,
      lookup-delete_counter email e c,
    )
  ]

  clean_links_lem :
      (tag email e : Text) (x : Xray M L)
      → (counted_for tag e (clean_links email x) ≡ counted_for tag e x)
        × (lookup e (clean_links email x).link_managers
            ≡ (if email == e then none else lookup e x.link_managers))
        × ((clean_links email x).uid_map ≡ x.uid_map)
  unfolding clean_links
  clean_links_lem tag email e x =
      ground (arith, lookup-delete email e x.link_managers, text_beq_iff email e)

  clean_up_lem :
      (tag uuid : Text) (us : List UserInfo) (x : Xray M L)
      → let x' = clean_up tag us x in
        (counted_for tag (user_tag tag uuid) x'
          ≡ (if is_some (latest uuid us) then none else counted_for tag (user_tag tag uuid) x))
        × (lookup (user_tag tag uuid) x'.link_managers ≡ (
            if is_some (latest uuid us) then none else lookup (user_tag tag uuid) x.link_managers))
        × (x'.uid_map ≡ x.uid_map)
  unfolding clean_up latest
  clean_up_lem tag uuid [] x = (refl, refl, refl)
  clean_up_lem tag uuid (u ∷ us) x =
      let x1 = clean_counter tag (user_tag tag u.uuid) x in
      let x2 = clean_links (user_tag tag u.uuid) x1 in
      let a = clean_counter_lem tag (user_tag tag u.uuid) (user_tag tag uuid) x in
      let b = clean_links_lem tag (user_tag tag u.uuid) (user_tag tag uuid) x1 in
      let ih = clean_up_lem tag uuid us x2 in ground (arith, a, b, ih, user_tag_beq tag u.uuid uuid)

  -- The state before the clean-up.
  abbrev removed_from : Inbounds M → List UserInfo → Text → Xray M L → Xray M L
  removed_from inb us tag x = record x {
    inbounds = (remove_loop inb tag us x.inbounds).0;
    uid_map = delete_uids (emails_of tag us) x.uid_map;
  }

  del_users_granted :
      (inb : Inbounds M) (u : UserInfo) (us : List UserInfo) (tag : Text) (x x' : Xray M L)
      → del_users inb (u ∷ us) tag x ≡ (x', none)
      → x' ≡ clean_up tag (u ∷ us) (removed_from inb (u ∷ us) tag x)
  unfolding del_users
  del_users_granted inb u us tag x x' e = ground arith

  -- A removal of users that is granted leaves no user of the list with a uid, with counted traffic
  -- under the tag or with a link manager, and of every other user all three as they were.
  pub del_users_lem :
      (inb : Inbounds M) (us : List UserInfo) (tag uuid : Text) (x x' : Xray M L)
      → del_users inb us tag x ≡ (x', none)
      → let email = user_tag tag uuid in
        let gone = is_some (latest uuid us) in
        (lookup email x'.uid_map ≡ (if gone then none else lookup email x.uid_map))
        × (counted_for tag email x' ≡ (if gone then none else counted_for tag email x))
        × (lookup email x'.link_managers ≡ (if gone then none else lookup email x.link_managers))
  unfolding del_users
  del_users_lem inb [] tag uuid x x' e = ground (arith, latest_nil uuid)
  del_users_lem inb (u ∷ us) tag uuid x x' e =
      let a = clean_up_lem tag uuid (u ∷ us) (removed_from inb (u ∷ us) tag x) in
      let b = lookup-delete_uids tag uuid (u ∷ us) x.uid_map in
      rw (del_users_granted inb u us tag x x' e) (rw (a.2) b, a.0, a.1)
