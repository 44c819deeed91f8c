-- ===== src/Panel/Client/Answers.antt =====
-- What GetNodeInfo (api/panel/node.go) and GetUserList (api/panel/user.go) leave in the client and
-- hand on, by the answer of the panel.
use v2sp.Prelude.{
  if◌then◌else◌, ◌==◌, nat_eq, is_some, ℤ, int_eq, is_empty, Text, codes, text_beq_iff, text_eq,
  ◌≡◌, refl, ◌⊎◌, inl, inr, Bool, true, false, ◌||◌, Option, none, some, arith,
}
use v2sp.Panel.{NodeInfo}
use v2sp.Panel.Client.{
  Client, Response, Fetched, Decoders, Decoded, get_node_info, get_user_list, decode_node,
  finish_node, detect_type, unchanged, fetched, failed, panicked,
}

unfoldable pub is_fetched : {A : Type 0} → Fetched A → Bool
is_fetched unchanged = false
is_fetched (fetched a) = true
is_fetched (failed e) = false
is_fetched panicked = false

-- The user list keeps the client as it is unless the answer is handed on; then, and only then, the
-- answer's ETag is stored.
pub get_user_list-etag :
    (d : Decoders) (r : Response) (err : Option Text) (c : Client)
    → let out = get_user_list d r err c in
      if is_fetched (out.1) then out.0 ≡ record c { user_etag = r.etag } else out.0 ≡ c
unfolding get_user_list is_fetched
get_user_list-etag d r (some e) c = refl
get_user_list-etag d r none c = ground arith

-- The parts of a node that its type calls for.
unfoldable pub HasParts : Text → NodeInfo → Type 0
HasParts t n =
    (is_some n.vallss ≡ (t == codes "vmess" || t == codes "vless"))
    × ((is_some n.shadowsocks ≡ (t == codes "shadowsocks"))
        × ((is_some n.trojan ≡ (t == codes "trojan")) × (is_some n.common ≡ true)))

type_names :
    (t : Text)
    → ((t == codes "shadowsocks") ≡ true
        → ((t == codes "vmess") ≡ false) × ((t == codes "vless") ≡ false))
      × ((t == codes "trojan") ≡ true
          → ((t == codes "vmess") ≡ false)
            × (((t == codes "vless") ≡ false) × ((t == codes "shadowsocks") ≡ false)))
unfolding codes
type_names t = ground (
  arith,
  text_beq_iff t (codes "shadowsocks"),
  text_beq_iff t (codes "trojan"),
  text_beq_iff t (codes "vmess"),
  text_beq_iff t (codes "vless"),
)

decode_node-parts :
    (d : Decoders) (t body : Text) (n : Decoded)
    → decode_node d t body ≡ fetched n
    → (is_some n.vallss ≡ (t == codes "vmess" || t == codes "vless"))
      × ((is_some n.shadowsocks ≡ (t == codes "shadowsocks"))
          × (is_some n.trojan ≡ (t == codes "trojan")))
unfolding decode_node
decode_node-parts d t body n e = ground (arith, type_names t)

finish_node-parts :
    (d : Decoders) (id : ℤ) (t : Text) (n : Decoded) (node : NodeInfo)
    → finish_node d id t n ≡ fetched node
    → (node.id ≡ id)
      × ((node.type ≡ t)
          × ((node.vallss ≡ n.vallss)
              × ((node.shadowsocks ≡ n.shadowsocks)
                  × ((node.trojan ≡ n.trojan) × (is_some node.common ≡ true)))))
unfolding finish_node
finish_node-parts d id t n node e = ground arith

fetched-cases : {A : Type 0} (x : Fetched A) → (is_fetched x ≡ false) ⊎ ((a : A) × (x ≡ fetched a))
unfolding is_fetched
fetched-cases unchanged = inl refl
fetched-cases (fetched a) = inr (a, refl)
fetched-cases (failed e) = inl refl
fetched-cases panicked = inl refl

-- The type and the decoded node behind a node that is handed on.
behind_fetched :
    (d : Decoders) (r : Response) (err : Option Text) (c : Client) (n : NodeInfo)
    → (get_node_info d r err c).1 ≡ fetched n
    → (t : Text) × (m : Decoded) × (decode_node d t r.body ≡ fetched m)
      × ((finish_node d c.node_id t m ≡ fetched n)
          × (((get_node_info d r err c).0.node_type ≡ t)
              × (is_empty c.node_type ≡ false → t ≡ c.node_type)))
unfolding get_node_info detect_type is_fetched
behind_fetched d r err c n e =
    elim (fetched-cases (detect_type d (record c { node_etag = r.etag }) r.body)) [
      | inl other ↦ absurd (ground arith)
      | inr (t, known) ↦ elim (fetched-cases (decode_node d t r.body)) [
        | inl other ↦ absurd (ground arith)
        | inr (m, decoded) ↦ (t, m, decoded, ground arith)
      ]
    ]

-- A node that is handed on has the client's id and type, which is the type the client had if it
-- had one, and exactly the protocol part that the type calls for.
pub get_node_info-parts :
    (d : Decoders) (r : Response) (err : Option Text) (c : Client) (n : NodeInfo)
    → (get_node_info d r err c).1 ≡ fetched n
    → (n.id ≡ c.node_id)
      × (n.type ≡ (get_node_info d r err c).0.node_type)
      × (n.type ≡ (if is_empty c.node_type then n.type else c.node_type))
      × HasParts n.type n
unfolding get_node_info detect_type HasParts
get_node_info-parts d r err c n e =
    let (t, m, decoded, (finished, kept)) = behind_fetched d r err c n e in
    ground
      (arith, decode_node-parts d t r.body m decoded, finish_node-parts d c.node_id t m n finished)
