-- ===== src/Panel/Routes.antt =====
-- The routes of a node in GetNodeInfo of api/panel/node.go: audit rules and DNS servers.
use v2sp.Prelude.{
  if◌then◌else◌, Bool-cases, Option-cases, ◌==◌, nat_eq, is_some, int_eq, pos, is_empty, insert,
  Text, codes, text_beq_iff, text_eq, starts_with, trim_prefix, itoa, ℕ, suc, ◌≡◌, refl, sym, inl,
  inr, Bool, true, false, not, ◌&&◌, ◌||◌, Option, none, some, List, [], ◌∷◌, ◌++◌, arith,
}
use mathlib.Core.List.{append-nil, append_assoc}
use v2sp.Panel.{Route, Rules, RawDns}

pub record Parsed : Type 0 where
  pub rules : Rules
  pub raw_dns : RawDns

-- The loop over the matches of a "block" route.
unfoldable pub add_blocks : List Text → Rules → Rules
add_blocks [] r = r
add_blocks (v ∷ vs) r = add_blocks vs (
    if starts_with (codes "protocol:") v
    then record r { protocol = r.protocol ++ (trim_prefix (codes "protocol:") v ∷ []) }
    else record r { regexp = r.regexp ++ (trim_prefix (codes "regexp:") v ∷ []) })

-- `strings.Join(vs, "")`
unfoldable pub concat : List Text → Text
concat [] = []
concat (v ∷ vs) = v ++ concat vs

-- A "dns" route, the i-th of all. `none` is the panic of slicing an empty list from 1.
unfoldable pub add_dns : ℕ → Route → List Text → RawDns → Option RawDns
add_dns i route [] d = none
add_dns i route (v ∷ vs) d =
    if v == codes "main"
    then some (record d { dns_json = concat vs })
    else some (record d {
      dns_map =
          insert (itoa (pos i)) (record { address = route.action_value; domains = v ∷ vs })
            d.dns_map;
    })

unfoldable pub add_route : ℕ → Route → Parsed → Option Parsed
add_route i route p =
    if route.action == codes "block"
    then some (record p { rules = add_blocks route.matches p.rules })
    else if route.action == codes "dns"
    then elim (add_dns i route route.matches p.raw_dns) [
      | none ↦ none
      | some d ↦ some (record p { raw_dns = d })
    ]
    else some p

unfoldable pub parse_routes : ℕ → List Route → Parsed → Option Parsed
parse_routes i [] p = some p
parse_routes i (r ∷ rs) p = elim (add_route i r p) [
  | none ↦ none
  | some p' ↦ parse_routes (suc i) rs p'
]

-- A "dns" route with no match.
unfoldable pub is_bad_dns : Route → Bool
is_bad_dns r = r.action == codes "dns" && is_empty r.matches

unfoldable pub any_bad_dns : List Route → Bool
any_bad_dns [] = false
any_bad_dns (r ∷ rs) = is_bad_dns r || any_bad_dns rs

dns_ne_block : (a : Text) → (a == codes "dns") ≡ true → (a == codes "block") ≡ false
unfolding codes
dns_ne_block a h = ground (arith, text_beq_iff a (codes "dns"), text_beq_iff a (codes "block"))

add_route-bad : (i : ℕ) (r : Route) (p : Parsed) → is_some (add_route i r p) ≡ not (is_bad_dns r)
unfolding add_route is_bad_dns add_dns
add_route-bad i r p = ground (arith, dns_ne_block r.action)

-- The bug: the parse panics exactly if some "dns" route has no match at all.
pub parse_routes-panics :
    (i : ℕ) (rs : List Route) (p : Parsed) → is_some (parse_routes i rs p) ≡ not (any_bad_dns rs)
unfolding parse_routes any_bad_dns
parse_routes-panics i [] p = refl
parse_routes-panics i (r ∷ rs) p = elim (Option-cases (add_route i r p)) [
  | inl e ↦ ground (arith, add_route-bad i r p)
  | inr (p', e) ↦ ground (arith, add_route-bad i r p, parse_routes-panics (suc i) rs p')
]

-- The patterns of all "block" routes in order, and of these the protocols and the domain patterns.
unfoldable pub blocked_patterns : List Route → List Text
blocked_patterns [] = []
blocked_patterns (r ∷ rs) =
    if r.action == codes "block" then r.matches ++ blocked_patterns rs else blocked_patterns rs

unfoldable pub protocols_in : List Text → List Text
protocols_in [] = []
protocols_in (v ∷ vs) =
    if starts_with (codes "protocol:") v
    then trim_prefix (codes "protocol:") v ∷ protocols_in vs
    else protocols_in vs

unfoldable pub domains_in : List Text → List Text
domains_in [] = []
domains_in (v ∷ vs) =
    if starts_with (codes "protocol:") v
    then domains_in vs
    else trim_prefix (codes "regexp:") v ∷ domains_in vs

add_blocks_lem :
    (vs : List Text) (r : Rules)
    → ((add_blocks vs r).protocol ≡ r.protocol ++ protocols_in vs)
      × ((add_blocks vs r).regexp ≡ r.regexp ++ domains_in vs)
unfolding add_blocks protocols_in domains_in
add_blocks_lem [] r = (sym (append-nil _), sym (append-nil _))
add_blocks_lem (v ∷ vs) r = elim (Bool-cases (starts_with (codes "protocol:") v)) [
  | inl marked ↦
      let x = trim_prefix (codes "protocol:") v in
      let ih = add_blocks_lem vs (record r { protocol = r.protocol ++ (x ∷ []) }) in
      ground (arith, ih, append_assoc r.protocol (x ∷ []) (protocols_in vs))
  | inr plain ↦
      let x = trim_prefix (codes "regexp:") v in
      let ih = add_blocks_lem vs (record r { regexp = r.regexp ++ (x ∷ []) }) in
      ground (arith, ih, append_assoc r.regexp (x ∷ []) (domains_in vs))
]

protocols_in-append :
    (xs ys : List Text)
    → (protocols_in (xs ++ ys) ≡ protocols_in xs ++ protocols_in ys)
      × (domains_in (xs ++ ys) ≡ domains_in xs ++ domains_in ys)
unfolding protocols_in domains_in
protocols_in-append [] ys = (refl, refl)
protocols_in-append (v ∷ vs) ys = ground (arith, protocols_in-append vs ys)

add_route-rules :
    (i : ℕ) (r : Route) (p p' : Parsed)
    → add_route i r p ≡ some p'
    → p'.rules ≡ (if r.action == codes "block" then add_blocks r.matches p.rules else p.rules)
unfolding add_route
add_route-rules i r p p' e = ground arith

nil_in : (protocols_in [] ≡ []) × (domains_in [] ≡ [])
unfolding protocols_in domains_in
nil_in = (refl, refl)

-- Where the parse succeeds, the rules gain the patterns of the "block" routes and no others, in
-- order: those marked "protocol:" as protocols, the rest, less a "regexp:" in front, as domains.
pub parse_routes-rules :
    (i : ℕ) (rs : List Route) (p p' : Parsed)
    → parse_routes i rs p ≡ some p'
    → (p'.rules.protocol ≡ p.rules.protocol ++ protocols_in (blocked_patterns rs))
      × (p'.rules.regexp ≡ p.rules.regexp ++ domains_in (blocked_patterns rs))
unfolding parse_routes blocked_patterns
parse_routes-rules i [] p p' e =
    ground (arith, append-nil p.rules.protocol, append-nil p.rules.regexp, nil_in)
parse_routes-rules i (r ∷ rs) p p' e = elim (Option-cases (add_route i r p)) [
  | inl panic ↦ absurd (ground arith)
  | inr (q, step) ↦ ground (
    arith,
    add_route-rules i r p q step,
    parse_routes-rules (suc i) rs q p',
    add_blocks_lem r.matches p.rules,
    protocols_in-append r.matches (blocked_patterns rs),
    append_assoc p.rules.protocol (protocols_in r.matches) (protocols_in (blocked_patterns rs)),
    append_assoc p.rules.regexp (domains_in r.matches) (domains_in (blocked_patterns rs)),
  )
]
