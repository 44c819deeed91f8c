-- ===== src/Xray/Traffic.antt =====
-- GetUserTrafficSlice of core/xray/user.go: which traffic a round reports, and what it leaves counted.
use v2sp.Prelude.{
  if◌then◌else◌, ◌==◌, nat_eq, option_or, ℤ, ltb_ℤ, int_eq, pos, Map, lookup, insert, Distinct,
  lookup-insert, lookup-delete, lookup-insert_self, Text, text_beq_iff, text_eq, ◌≡◌, refl, sym,
  Bool, true, false, not, ◌&&◌, Option, none, some, List, [], ◌∷◌, ◌++◌, arith,
}
use mathlib.Core.List.{append-nil, append_assoc}
use v2sp.Panel.{UserTraffic}
use v2sp.Counter.{TrafficCounter, TrafficStorage, new_storage, delete_counter, add64}
use v2sp.Xray.{Xray}

-- Is the traffic of a round above the node's threshold?
unfoldable pub is_due : ℤ → TrafficStorage → Bool
is_due threshold t = ltb_ℤ threshold (add64 t.up_counter t.down_counter)

-- One entry of the pass over the counters; `uids` is `uidMap`, where a missing user reads as 0.
unfoldable pub slice_step :
    ℤ
    → Bool
    → Map Text ℤ
    → Text
    → TrafficStorage
    → TrafficCounter
    → List UserTraffic
    → TrafficCounter × List UserTraffic
slice_step threshold reset uids email t c out =
    let uid = option_or (lookup email uids) (pos 0) in
    let c1 : TrafficCounter =
      if reset then record c { counters = insert email new_storage c.counters } else c in
    if is_due threshold t
    then (if uid == pos 0 then (delete_counter email c1, out) else (
      c1,
      out ++ (record { uid = uid; upload = t.up_counter; download = t.down_counter } ∷ []),
    ))
    else (c, out)

unfoldable pub slice_loop :
    ℤ
    → Bool
    → Map Text ℤ
    → Map Text TrafficStorage
    → TrafficCounter
    → List UserTraffic
    → TrafficCounter × List UserTraffic
slice_loop threshold reset uids [] c out = (c, out)
slice_loop threshold reset uids ((email, t) ∷ rest) c out =
    let (c', out') = slice_step threshold reset uids email t c out in
    slice_loop threshold reset uids rest c' out'

unfoldable pub get_user_traffic_slice :
    {M L : Type 0} → Text → Bool → Xray M L → Xray M L × List UserTraffic
get_user_traffic_slice tag reset x = elim (lookup tag x.counter) [
  | none ↦ (x, [])
  | some c ↦
      let threshold = option_or (lookup tag x.node_report_min_traffic_bytes) (pos 0) in
      let (c', slice) = slice_loop threshold reset x.uid_map c.counters c [] in
      (record x { counter = insert tag c' x.counter }, slice)
]

-- The report of a table of counters: the known users above the threshold, in order.
unfoldable pub report_of : ℤ → Map Text ℤ → Map Text TrafficStorage → List UserTraffic
report_of threshold uids [] = []
report_of threshold uids ((email, t) ∷ rest) =
    let uid = option_or (lookup email uids) (pos 0) in
    if is_due threshold t && not (uid == pos 0)
    then record { uid = uid; upload = t.up_counter; download = t.down_counter }
      ∷ report_of threshold uids rest
    else report_of threshold uids rest

slice_loop-report :
    (threshold : ℤ) (reset : Bool) (uids : Map Text ℤ) (m : Map Text TrafficStorage)
    (c : TrafficCounter) (out : List UserTraffic)
    → (slice_loop threshold reset uids m c out).1 ≡ out ++ report_of threshold uids m
unfolding slice_loop report_of slice_step
slice_loop-report threshold reset uids [] c out = sym (append-nil out)
slice_loop-report threshold reset uids ((email, t) ∷ rest) c out =
    let uid = option_or (lookup email uids) (pos 0) in
    let entry : UserTraffic = record {
      uid = uid;
      upload = t.up_counter;
      download = t.down_counter;
    } in
    ground (
      arith,
      slice_loop-report threshold reset uids rest (slice_step threshold reset uids email t c out).0
          (slice_step threshold reset uids email t c out).1,
      append_assoc out (entry ∷ []) (report_of threshold uids rest),
    )

abbrev pub counts_of : Option TrafficStorage → ℤ × ℤ
counts_of none = (pos 0, pos 0)
counts_of (some t) = (t.up_counter, t.down_counter)

slice_step-counts :
    (threshold : ℤ) (uids : Map Text ℤ) (email : Text) (t : TrafficStorage) (c : TrafficCounter)
    (out : List UserTraffic) (u : Text)
    → counts_of (lookup u (slice_step threshold true uids email t c out).0.counters) ≡ (
        if email == u && is_due threshold t
        then (pos 0, pos 0)
        else counts_of (lookup u c.counters))
unfolding slice_step delete_counter
slice_step-counts threshold uids email t c out u = ground (
  arith,
  lookup-insert email u new_storage c.counters,
  lookup-delete email u (insert email new_storage c.counters),
  lookup-insert_self email new_storage c.counters,
  text_beq_iff email u,
)

slice_loop-counts :
    (threshold : ℤ) (uids : Map Text ℤ) (m : Map Text TrafficStorage) (c : TrafficCounter)
    (out : List UserTraffic) (u : Text)
    → Distinct m
    → counts_of (lookup u (slice_loop threshold true uids m c out).0.counters)
      ≡ (elim (lookup u m) [
        | none ↦ counts_of (lookup u c.counters)
        | some t ↦ if is_due threshold t then (pos 0, pos 0) else counts_of (lookup u c.counters)
      ])
unfolding slice_loop lookup
slice_loop-counts threshold uids [] c out u d = refl
slice_loop-counts threshold uids ((email, t) ∷ rest) c out u d = ground (
  arith,
  slice_loop-counts threshold uids rest (slice_step threshold true uids email t c out).0
      (slice_step threshold true uids email t c out).1 u d.1,
  slice_step-counts threshold uids email t c out u,
  text_beq_iff email u,
)

-- A round that resets reports each known user above the node's threshold with the traffic counted,
-- in order, and nobody else. Then the two counts of every user above the threshold read 0, also of one
-- that is unknown, and those of every other user read as before; no user has two counters to begin
-- with.
pub get_user_traffic_slice_lem :
    {M L : Type 0} (tag u : Text) (x : Xray M L) (c : TrafficCounter)
    → lookup tag x.counter ≡ some c
    → Distinct c.counters
    → let (x', slice) = get_user_traffic_slice tag true x in
      let threshold = option_or (lookup tag x.node_report_min_traffic_bytes) (pos 0) in
      (slice ≡ report_of threshold x.uid_map c.counters)
      × ((c' : TrafficCounter) × (lookup tag x'.counter ≡ some c')
          × (counts_of (lookup u c'.counters) ≡ (
              if elim (lookup u c.counters) [ none ↦ false | some t ↦ is_due threshold t ]
              then (pos 0, pos 0)
              else counts_of (lookup u c.counters))))
unfolding get_user_traffic_slice
get_user_traffic_slice_lem tag u x c found d =
    let threshold = option_or (lookup tag x.node_report_min_traffic_bytes) (pos 0) in
    let c' = (slice_loop threshold true x.uid_map c.counters c []).0 in
    (
      ground (arith, slice_loop-report threshold true x.uid_map c.counters c []),
      (
        c',
        ground (arith, lookup-insert_self tag c' x.counter),
        ground (arith, slice_loop-counts threshold x.uid_map c.counters c [] u d),
      ),
    )
