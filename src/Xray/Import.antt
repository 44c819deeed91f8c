-- ===== src/Xray/Import.antt =====
-- What AddUsers of core/xray/user.go records of the users.
use v2sp.Prelude.{
  nat_eq, ℤ, int_eq, length, Map, lookup, insert, lookup-insert, Text, text_eq, ℕ, ◌≡◌, refl, List,
  [], ◌∷◌, arith,
}
use v2sp.Panel.{NodeInfo, UserInfo}
use v2sp.Limiter.{user_tag}
use v2sp.Limiter.Tags.{user_tag_beq}
use v2sp.Limiter.Users.{latest, map_option, or_else}
use v2sp.Xray.{
  Xray, Inbounds, built, all_added, ProtocolUser, add_uids, add_users, build_users,
  build_vmess_users, build_vless_users, build_trojan_users, build_ss_users,
}

lookup-add_uids :
    (tag uuid : Text) (us : List UserInfo) (m : Map Text ℤ)
    → lookup (user_tag tag uuid) (add_uids tag us m)
      ≡ or_else
          (map_option (λ (u : UserInfo). u.id) (latest uuid us))
          (lookup (user_tag tag uuid) m)
unfolding add_uids latest
lookup-add_uids tag uuid [] m = refl
lookup-add_uids tag uuid (u ∷ us) m = ground (
  arith,
  lookup-add_uids tag uuid us (insert (user_tag tag u.uuid) u.id m),
  lookup-insert (user_tag tag u.uuid) (user_tag tag uuid) u.id m,
  user_tag_beq tag u.uuid uuid,
)

length-build_vmess_users :
    (tag : Text) (us : List UserInfo) → length (build_vmess_users tag us) ≡ length us
unfolding build_vmess_users
length-build_vmess_users tag [] = refl
length-build_vmess_users tag (u ∷ us) = ground (arith, length-build_vmess_users tag us)

length-build_vless_users :
    (tag : Text) (us : List UserInfo) (flow : Text)
    → length (build_vless_users tag us flow) ≡ length us
unfolding build_vless_users
length-build_vless_users tag [] flow = refl
length-build_vless_users tag (u ∷ us) flow = ground (arith, length-build_vless_users tag us flow)

length-build_trojan_users :
    (tag : Text) (us : List UserInfo) → length (build_trojan_users tag us) ≡ length us
unfolding build_trojan_users
length-build_trojan_users tag [] = refl
length-build_trojan_users tag (u ∷ us) = ground (arith, length-build_trojan_users tag us)

module _ (base64 : Text → Text) where
  length-build_ss_users :
      (tag : Text) (us : List UserInfo) (cypher server_key : Text) (ps : List ProtocolUser)
      → build_ss_users base64 tag us cypher server_key ≡ built ps
      → length ps ≡ length us
  unfolding build_ss_users
  length-build_ss_users tag [] cypher server_key ps e = ground arith
  length-build_ss_users tag (u ∷ us) cypher server_key ps e =
      grind (arith, length-build_ss_users tag us cypher server_key)

  length-build_users :
      (tag : Text) (us : List UserInfo) (info : NodeInfo) (ps : List ProtocolUser)
      → build_users base64 tag us info ≡ built ps
      → length ps ≡ length us
  unfolding build_users
  length-build_users tag us info ps e = grind (
    arith,
    length-build_vmess_users tag us,
    length-build_vless_users tag us,
    length-build_trojan_users tag us,
    length-build_ss_users tag us,
  )

module _ {M L : Type 0} (base64 : Text → Text) (inb : Inbounds M) where
  -- An import that succeeds has added as many users as the list has, and every user of the list has
  -- the last uid given for the uuid; every other user's uid is as before.
  pub add_users_lem :
      (tag uuid : Text) (users : List UserInfo) (info : NodeInfo) (x x' : Xray M L) (n : ℕ)
      → add_users base64 inb tag users info x ≡ (x', all_added n)
      → (n ≡ length users)
        × (lookup (user_tag tag uuid) x'.uid_map
            ≡ or_else
                (map_option (λ (u : UserInfo). u.id) (latest uuid users))
                (lookup (user_tag tag uuid) x.uid_map))
        × (x'.counter ≡ x.counter)
  unfolding add_users
  add_users_lem tag uuid users info x x' n e =
      grind
        (arith, length-build_users base64 tag users info, lookup-add_uids tag uuid users x.uid_map)
