-- ===== src/Node/Report.antt =====
-- The online report of reportUserTrafficTask in node/user.go: which devices are named to the panel.
use v2sp.Prelude.{
  if◌then◌else◌, ◌==◌, nat_eq, option_or, ℤ, ◌+ℤ◌, ◌*ℤ◌, ltb_ℤ, int_beq_iff, int_eq, wrap64, pos,
  contains, Map, lookup, insert, lookup-insert, Text, text_eq, ◌≡◌, refl, sym, Bool, false, ◌&&◌,
  ◌||◌, List, [], ◌∷◌, ◌++◌, arith,
}
use mathlib.Core.List.{append-nil, append_assoc}
use v2sp.Panel.{OnlineUser, UserTraffic}

-- The loop over the traffic: the uids whose total is below the threshold. `threshold` is
-- `int64(DeviceOnlineMinTraffic*1000)`.
unfoldable pub nocount_uids : ℤ → List UserTraffic → List ℤ
nocount_uids threshold [] = []
nocount_uids threshold (t ∷ ts) =
    let rest = nocount_uids threshold ts in
    if ltb_ℤ (wrap64 (t.upload +ℤ t.download)) threshold then t.uid ∷ rest else rest

-- The loop that keeps the devices of every other uid.
unfoldable pub counted_devices : List ℤ → List OnlineUser → List OnlineUser
counted_devices nocount [] = []
counted_devices nocount (d ∷ ds) =
    let rest = counted_devices nocount ds in if contains nocount d.uid then rest else d ∷ rest

-- The loop that groups the addresses by uid.
unfoldable pub group_by_uid : List OnlineUser → Map ℤ (List Text) → Map ℤ (List Text)
group_by_uid [] m = m
group_by_uid (d ∷ ds) m =
    group_by_uid ds (insert d.uid (option_or (lookup d.uid m) [] ++ (d.ip ∷ [])) m)

unfoldable pub online_threshold : ℤ → ℤ
online_threshold min_traffic = wrap64 (min_traffic *ℤ pos 1000)

unfoldable pub online_data : ℤ → List UserTraffic → List OnlineUser → Map ℤ (List Text)
online_data min_traffic traffic online =
    group_by_uid (counted_devices (nocount_uids (online_threshold min_traffic) traffic) online) []

-- The addresses of one uid, in order.
unfoldable pub ips_of : ℤ → List OnlineUser → List Text
ips_of uid [] = []
ips_of uid (d ∷ ds) = if d.uid == uid then d.ip ∷ ips_of uid ds else ips_of uid ds

-- Has the uid an entry below the threshold?
unfoldable pub is_idle : ℤ → ℤ → List UserTraffic → Bool
is_idle threshold uid [] = false
is_idle threshold uid (t ∷ ts) =
    (t.uid == uid && ltb_ℤ (wrap64 (t.upload +ℤ t.download)) threshold) || is_idle threshold uid ts

contains-nocount_uids :
    (threshold uid : ℤ) (ts : List UserTraffic)
    → contains (nocount_uids threshold ts) uid ≡ is_idle threshold uid ts
unfolding nocount_uids is_idle contains
contains-nocount_uids threshold uid [] = refl
contains-nocount_uids threshold uid (t ∷ ts) =
    ground (arith, contains-nocount_uids threshold uid ts)

lookup-group_by_uid :
    (uid : ℤ) (ds : List OnlineUser) (m : Map ℤ (List Text))
    → option_or (lookup uid (group_by_uid ds m)) [] ≡ option_or (lookup uid m) [] ++ ips_of uid ds
unfolding group_by_uid ips_of
lookup-group_by_uid uid [] m = sym (append-nil _)
lookup-group_by_uid uid (d ∷ ds) m =
    let m' = insert d.uid (option_or (lookup d.uid m) [] ++ (d.ip ∷ [])) m in
    ground (
      arith,
      lookup-group_by_uid uid ds m',
      lookup-insert d.uid uid (option_or (lookup d.uid m) [] ++ (d.ip ∷ [])) m,
      append_assoc (option_or (lookup uid m) []) (d.ip ∷ []) (ips_of uid ds),
      int_beq_iff d.uid uid,
    )

ips_of-counted_devices :
    (uid : ℤ) (nocount : List ℤ) (ds : List OnlineUser)
    → ips_of uid (counted_devices nocount ds) ≡ (if contains nocount uid then [] else ips_of uid ds)
unfolding ips_of counted_devices
ips_of-counted_devices uid nocount [] = ground arith
ips_of-counted_devices uid nocount (d ∷ ds) =
    ground (arith, ips_of-counted_devices uid nocount ds, int_beq_iff d.uid uid)

-- The report gives a uid all its online addresses, in order, unless the round's traffic has an entry
-- of the uid below the threshold; then it gives none. A uid with no traffic entry is reported too.
pub online_data_lem :
    (min_traffic uid : ℤ) (traffic : List UserTraffic) (online : List OnlineUser)
    → option_or (lookup uid (online_data min_traffic traffic online)) []
      ≡ (if is_idle (online_threshold min_traffic) uid traffic then [] else ips_of uid online)
unfolding online_data lookup
online_data_lem min_traffic uid traffic online =
    let nocount = nocount_uids (online_threshold min_traffic) traffic in
    rw (
      lookup-group_by_uid uid (counted_devices nocount online) [],
      ips_of-counted_devices uid nocount online,
      contains-nocount_uids (online_threshold min_traffic) uid traffic,
    )
