-- ===== src/Xray.antt =====
-- core/xray/user.go, vmess.go, trojan.go and ss.go: the users of the xray core. What the handlers of
-- xray-core (github.com/xtls/xray-core) do with a user is an interface; base64 is a parameter. A
-- LinkManager is a value whose closing is recorded.
pub mod Traffic
pub mod Removal
mod Tests
pub mod Import
pub mod Inbound
pub mod Dns
pub mod Nodes
use v2sp.Prelude.{
  ltb, leb, nat_beq, if◌then◌else◌, ltb→lt, leb→le, nat_beq_iff, Bool-cases, Option-cases, Eq, ◌==◌,
  nat_eq, eq_refl, is_some, option_or, ℤ, pos_part, neg_part, sub_ℕ, ◌+ℤ◌, ◌-ℤ◌, ◌*ℤ◌, quot, ◌≤ℤ◌,
  ◌<ℤ◌, ltb_ℤ, leb_ℤ, int_beq, int_beq_iff, int_eq, wrap64, IsInt64, wrap64_fits, wrap64-IsInt64,
  pos, negsuc, length, is_empty, get_elem?, set, length-append, get_elem?-set_self,
  get_elem?-set_ne, get_elem?-lt, All, contains, contains-append, Map, lookup, insert, delete,
  Distinct, lookup-insert, lookup-delete, lookup-insert_self, lookup-delete_self, length-insert,
  insert-Distinct, delete-Distinct, delete_absent, length-delete, Text, codes, text_beq,
  text_beq_iff, text_eq, starts_with, drop, size, trim_prefix, ends_with, contains_byte, lower_byte,
  to_lower, digits_from, itoa, ℕ, zero, suc, ◌+◌, ◌-◌, ◌*◌, ◌/◌, ◌%◌, ◌^◌, ◌≤◌, ◌<◌, ◌≡◌, refl, sym,
  ap, ◌∙◌, ◌≢◌, ◌↔◌, ◌⊎◌, inl, inr, Bool, true, false, not, ◌&&◌, ◌||◌, Option, none, some, List,
  [], ◌∷◌, ◌++◌, map, arith,
}
use v2sp.Panel.{NodeInfo, UserInfo, UserTraffic}
use v2sp.Counter.{TrafficCounter, TrafficStorage, new_storage, delete_counter}
use v2sp.Limiter.{user_tag}

pub data CipherType : Type 0 where
  unknown_cipher : CipherType
  aes_128_gcm : CipherType
  aes_256_gcm : CipherType
  chacha20_poly1305 : CipherType
  no_cipher : CipherType

pub data Account : Type 0 where
  vmess_account : (id security : Text) → Account
  vless_account : (id flow : Text) → Account
  trojan_account : (password : Text) → Account
  shadowsocks_account : (password : Text) → CipherType → Account
  shadowsocks_2022_account : (key : Text) → Account

pub record ProtocolUser : Type 0 where
  pub level : ℕ
  pub email : Text
  pub account : Account

-- What the users of a node come to: an unknown type is an error, a missing part of the node or a key
-- that is too short a panic.
pub data Built : Type 0 where
  built : List ProtocolUser → Built
  unsupported : Built
  panicking : Built

unfoldable pub get_cipher_from_string : Text → CipherType
get_cipher_from_string name =
    let c = to_lower name in
    if c == codes "aes-128-gcm" || c == codes "aead_aes_128_gcm"
    then aes_128_gcm
    else if c == codes "aes-256-gcm" || c == codes "aead_aes_256_gcm"
    then aes_256_gcm
    else if c == codes "chacha20-poly1305"
        || (c == codes "aead_chacha20_poly1305" || c == codes "chacha20-ietf-poly1305")
    then chacha20_poly1305
    else if c == codes "none" || c == codes "plain"
    then no_cipher
    else unknown_cipher

unfoldable pub key_length : Text → ℕ
key_length cypher =
    if cypher == codes "2022-blake3-aes-128-gcm"
    then 16
    else if cypher == codes "2022-blake3-aes-256-gcm"
        || cypher == codes "2022-blake3-chacha20-poly1305"
    then 32
    else 0

-- `s[:n]`, which panics if `s` is shorter.
unfoldable pub prefix : ℕ → Text → Option Text
prefix zero s = some []
prefix (suc n) [] = none
prefix (suc n) (c ∷ s) = elim (prefix n s) [ none ↦ none | some t ↦ some (c ∷ t) ]

unfoldable pub user_with : Text → UserInfo → Account → ProtocolUser
user_with tag u account = record { level = 0; email = user_tag tag u.uuid; account = account }

unfoldable pub build_vmess_users : Text → List UserInfo → List ProtocolUser
build_vmess_users tag [] = []
build_vmess_users tag (u ∷ us) =
    user_with tag u (vmess_account u.uuid (codes "auto")) ∷ build_vmess_users tag us

unfoldable pub build_vless_users : Text → List UserInfo → Text → List ProtocolUser
build_vless_users tag [] flow = []
build_vless_users tag (u ∷ us) flow =
    user_with tag u (vless_account u.uuid flow) ∷ build_vless_users tag us flow

unfoldable pub build_trojan_users : Text → List UserInfo → List ProtocolUser
build_trojan_users tag [] = []
build_trojan_users tag (u ∷ us) =
    user_with tag u (trojan_account u.uuid) ∷ build_trojan_users tag us

module _ (base64 : Text → Text) where
  unfoldable pub build_ss_user : Text → UserInfo → Text → Text → Option ProtocolUser
  build_ss_user tag u cypher server_key =
      if is_empty server_key
      then some (user_with tag u (shadowsocks_account u.uuid (get_cipher_from_string cypher)))
      else elim (prefix (key_length cypher) u.uuid) [
        | none ↦ none
        | some key ↦ some (user_with tag u (shadowsocks_2022_account (base64 key)))
      ]

  unfoldable pub build_ss_users : Text → List UserInfo → Text → Text → Built
  build_ss_users tag [] cypher server_key = built []
  build_ss_users tag (u ∷ us) cypher server_key = elim (build_ss_user tag u cypher server_key) [
    | none ↦ panicking
    | some p ↦ elim (build_ss_users tag us cypher server_key) [
      | built ps ↦ built (p ∷ ps)
      | unsupported ↦ unsupported
      | panicking ↦ panicking
    ]
  ]

  -- The switch of `AddUsers`.
  unfoldable pub build_users : Text → List UserInfo → NodeInfo → Built
  build_users tag users info =
      if info.type == codes "vmess"
      then built (build_vmess_users tag users)
      else if info.type == codes "vless"
      then elim info.vallss [
        | none ↦ panicking
        | some v ↦ built (build_vless_users tag users v.flow)
      ]
      else if info.type == codes "trojan"
      then built (build_trojan_users tag users)
      else if info.type == codes "shadowsocks"
      then elim info.shadowsocks [
        | none ↦ panicking
        | some s ↦ build_ss_users tag users s.cipher s.server_key
      ]
      else unsupported

-- The inbound handlers of xray-core, by tag; an error is its text.
pub record Inbounds (M : Type 0) : Type 0 where
  -- `GetUserManager`: the handler of a tag, if it manages users.
  pub get_user_manager : Text → M → Option Text
  pub to_memory_user : ProtocolUser → Option Text
  pub add_user : Text → ProtocolUser → M → M × Option Text
  pub remove_user : Text → Text → M → M × Option Text

pub record Xray (M L : Type 0) : Type 0 where
  pub uid_map : Map Text ℤ
  pub node_report_min_traffic_bytes : Map Text ℤ
  -- The dispatcher's counters by tag, its link managers by email, and the managers that were closed.
  pub counter : Map Text TrafficCounter
  pub link_managers : Map Text L
  pub closed : List L
  pub inbounds : M

pub data AddResult : Type 0 where
  all_added : ℕ → AddResult
  refused : Text → AddResult
  panicked : AddResult

-- The loop over `uidMap` in `AddUsers`.
unfoldable pub add_uids : Text → List UserInfo → Map Text ℤ → Map Text ℤ
add_uids tag [] m = m
add_uids tag (u ∷ us) m = add_uids tag us (insert (user_tag tag u.uuid) u.id m)

unfoldable pub delete_uids : List Text → Map Text ℤ → Map Text ℤ
delete_uids [] m = m
delete_uids (email ∷ emails) m = delete_uids emails (delete email m)

module _ {M : Type 0} (inb : Inbounds M) where
  -- The loop that adds the users to the manager; `i` have been added, of `n`.
  unfoldable pub add_loop : Text → ℕ → ℕ → List ProtocolUser → M → M × Option Text
  add_loop tag i n [] m = (m, none)
  add_loop tag i n (u ∷ us) m =
      let (m', err) = inb.add_user tag u m in
      let rest = add_loop tag (suc i) n us m' in
      elim (inb.to_memory_user u) [
        | some e ↦ (m, some e)
        | none ↦ elim err [
          | some e ↦ (
            m',
            some (
                codes "failed at user "
                ++ (itoa (pos (suc i)) ++ (codes "/" ++ (itoa (pos n) ++ (codes ": " ++ e))))),
          )
          | none ↦ rest
        ]
      ]

module _ {M L : Type 0} (base64 : Text → Text) (inb : Inbounds M) where
  unfoldable pub add_users : Text → List UserInfo → NodeInfo → Xray M L → Xray M L × AddResult
  unfolding build_users add_uids
  add_users tag users info x = elim (build_users base64 tag users info) [
    | unsupported ↦ (x, refused (codes "unsupported node type: " ++ info.type))
    | panicking ↦ (x, panicked)
    | built ps ↦ elim (inb.get_user_manager tag x.inbounds) [
      | some e ↦ (x, refused (codes "get user manager error: " ++ e))
      | none ↦
          let x1 = record x { uid_map = add_uids tag users x.uid_map } in
          let (m, err) = add_loop inb tag 0 (length users) ps x1.inbounds in
          let x2 = record x1 { inbounds = m } in
          elim err [ some e ↦ (x2, refused e) | none ↦ (x2, all_added (length ps)) ]
    ]
  ]

unfoldable pub emails_of : Text → List UserInfo → List Text
emails_of tag [] = []
emails_of tag (u ∷ us) = user_tag tag u.uuid ∷ emails_of tag us

module _ {M : Type 0} (inb : Inbounds M) where
  -- The loop that removes the users from the manager: the tags of the users, or the first error.
  unfoldable pub remove_loop : Text → List UserInfo → M → M × Option Text
  remove_loop tag [] m = (m, none)
  remove_loop tag (u ∷ us) m =
      let (m', err) = inb.remove_user tag (user_tag tag u.uuid) m in
      let rest = remove_loop tag us m' in elim err [ some e ↦ (m', some e) | none ↦ rest ]

module _ {M L : Type 0} where
  -- The loop that drops the counters and the link managers.
  unfoldable pub clean_counter : Text → Text → Xray M L → Xray M L
  clean_counter tag email x = elim (lookup tag x.counter) [
    | none ↦ x
    | some c ↦ record x { counter = insert tag (delete_counter email c) x.counter }
  ]

  unfoldable pub clean_links : Text → Xray M L → Xray M L
  clean_links email x = elim (lookup email x.link_managers) [
    | none ↦ x
    | some lm ↦ record x {
      closed = x.closed ++ (lm ∷ []);
      link_managers = delete email x.link_managers;
    }
  ]

  unfoldable pub clean_up : Text → List UserInfo → Xray M L → Xray M L
  clean_up tag [] x = x
  clean_up tag (u ∷ us) x =
      clean_up tag us
        (clean_links (user_tag tag u.uuid) (clean_counter tag (user_tag tag u.uuid) x))

module _ {M L : Type 0} (inb : Inbounds M) where
  unfoldable pub del_users : List UserInfo → Text → Xray M L → Xray M L × Option Text
  unfolding emails_of
  del_users [] tag x = (x, none)
  del_users (u ∷ us) tag x = elim (inb.get_user_manager tag x.inbounds) [
    | some e ↦ (x, some (codes "get user manager error: " ++ e))
    | none ↦
        let (m, err) = remove_loop inb tag (u ∷ us) x.inbounds in
        let x1 = record x { inbounds = m } in
        elim err [
          | some e ↦ (x1, some e)
          | none ↦ (
            clean_up tag (u ∷ us)
                (record x1 { uid_map = delete_uids (emails_of tag (u ∷ us)) x1.uid_map }),
            none,
          )
        ]
  ]
