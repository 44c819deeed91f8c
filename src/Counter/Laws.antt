-- ===== src/Counter/Laws.antt =====
-- The fast count of the counters, and what is read of each user's traffic.
use v2sp.Prelude.{
  if◌then◌else◌, Option-cases, ◌==◌, nat_eq, is_some, ℤ, ◌+ℤ◌, int_eq, wrap64, pos, negsuc, length,
  lookup, insert, delete, Distinct, lookup-insert, lookup-insert_self, length-insert,
  insert-Distinct, delete-Distinct, length-delete, Text, text_beq_iff, text_eq, ℕ, suc, ◌+◌, ◌^◌,
  ◌≤◌, ◌<◌, ◌≡◌, refl, inl, inr, true, some, List, [], ◌∷◌, arith,
}
use v2sp.Counter.{
  TrafficStorage, TrafficCounter, new_traffic_counter, new_storage, add64, get_counter,
  get_up_count, get_down_count, len, reset, delete_counter, rx, tx,
}

-- One operation of the counter.
pub data Op : Type 0 where
  get : Text → Op
  reset_op : Text → Op
  delete_op : Text → Op
  receive : Text → ℤ → Op
  send : Text → ℤ → Op

unfoldable pub step : Op → TrafficCounter → TrafficCounter
step (get uuid) c = (get_counter uuid c).0
step (reset_op uuid) c = reset uuid c
step (delete_op uuid) c = delete_counter uuid c
step (receive uuid n) c = rx uuid n c
step (send uuid n) c = tx uuid n c

unfoldable pub run : List Op → TrafficCounter → TrafficCounter
run [] c = c
run (o ∷ os) c = run os (step o c)

-- No user has two counters, and the fast count is their number.
pub record IsCounted (c : TrafficCounter) : Type 0 where
  pub distinct : Distinct c.counters
  pub counted : c.count ≡ pos (length c.counters)

add64-one : (n : ℕ) → n + 1 < 2 ^ 63 → add64 (pos n) (pos 1) ≡ pos (n + 1)
unfolding add64 wrap64 ◌+ℤ◌
add64-one n h = ground arith

add64-minus_one : (n : ℕ) → n < 2 ^ 63 → add64 (pos (suc n)) (negsuc 0) ≡ pos n
unfolding add64 wrap64 ◌+ℤ◌
add64-minus_one n h = ground arith

module _ (c : TrafficCounter) (v : IsCounted c) (room : length c.counters + 1 < 2 ^ 63) where
  get_counter-IsCounted : (uuid : Text) → IsCounted (get_counter uuid c).0
  unfolding get_counter
  get_counter-IsCounted uuid = elim (Option-cases (lookup uuid c.counters)) [
    | inl e ↦
        rw (e, get_counter)
          (record {
            distinct = insert-Distinct uuid new_storage c.counters v.distinct;
            counted = ground (
              arith,
              length-insert uuid new_storage c.counters,
              add64-one (length c.counters) room,
              v.counted,
            );
          })
    | inr (s, e) ↦ rw (e, get_counter) v
  ]

  reset-IsCounted : (uuid : Text) → IsCounted (reset uuid c)
  unfolding reset
  reset-IsCounted uuid = elim (Option-cases (lookup uuid c.counters)) [
    | inl e ↦ rw (e, reset) v
    | inr (s, e) ↦
        rw (e, reset)
          (record {
            distinct = insert-Distinct uuid new_storage c.counters v.distinct;
            counted = ground (arith, length-insert uuid new_storage c.counters, v.counted);
          })
  ]

  delete_counter-IsCounted : (uuid : Text) → IsCounted (delete_counter uuid c)
  unfolding delete_counter
  delete_counter-IsCounted uuid = elim (Option-cases (lookup uuid c.counters)) [
    | inl e ↦ rw (e, delete_counter) v
    | inr (s, e) ↦
        rw (e, delete_counter)
          (record {
            distinct = delete-Distinct uuid c.counters v.distinct;
            counted = ground (
              arith,
              length-delete uuid c.counters v.distinct,
              add64-minus_one (length (delete uuid c.counters)),
              v.counted,
            );
          })
  ]

-- Writing to a counter that exists keeps the count.
store-IsCounted :
    (c : TrafficCounter) (uuid : Text) (s : TrafficStorage)
    → is_some (lookup uuid c.counters) ≡ true
    → IsCounted c
    → IsCounted (record c { counters = insert uuid s c.counters })
store-IsCounted c uuid s known v = record {
  distinct = insert-Distinct uuid s c.counters v.distinct;
  counted = ground (arith, length-insert uuid s c.counters, v.counted);
}

get_counter-known :
    (uuid : Text) (c : TrafficCounter)
    → lookup uuid (get_counter uuid c).0.counters ≡ some (get_counter uuid c).1
unfolding get_counter
get_counter-known uuid c = ground (arith, lookup-insert_self uuid new_storage c.counters)

step-IsCounted :
    (o : Op) (c : TrafficCounter)
    → IsCounted c
    → length c.counters + 1 < 2 ^ 63
    → IsCounted (step o c)
unfolding step rx tx
step-IsCounted (get uuid) c v room = get_counter-IsCounted c v room uuid
step-IsCounted (reset_op uuid) c v room = reset-IsCounted c v room uuid
step-IsCounted (delete_op uuid) c v room = delete_counter-IsCounted c v room uuid
step-IsCounted (receive uuid n) c v room =
    store-IsCounted _ uuid _ (rw (get_counter-known uuid c) refl)
      (get_counter-IsCounted c v room uuid)
step-IsCounted (send uuid n) c v room =
    store-IsCounted _ uuid _ (rw (get_counter-known uuid c) refl)
      (get_counter-IsCounted c v room uuid)

length-get_counter :
    (uuid : Text) (c : TrafficCounter)
    → length (get_counter uuid c).0.counters ≤ length c.counters + 1
unfolding get_counter
length-get_counter uuid c = ground (arith, length-insert uuid new_storage c.counters)

length-store :
    (uuid : Text) (s : TrafficStorage) (c : TrafficCounter)
    → length (insert uuid s (get_counter uuid c).0.counters) ≤ length c.counters + 1
length-store uuid s c = ground (
  arith,
  length-insert uuid s (get_counter uuid c).0.counters,
  get_counter-known uuid c,
  length-get_counter uuid c,
)

length-reset :
    (uuid : Text) (c : TrafficCounter) → length (reset uuid c).counters ≤ length c.counters
unfolding reset
length-reset uuid c = ground (arith, length-insert uuid new_storage c.counters)

length-delete_counter :
    (uuid : Text) (c : TrafficCounter)
    → Distinct c.counters
    → length (delete_counter uuid c).counters ≤ length c.counters
unfolding delete_counter
length-delete_counter uuid c d = ground (arith, length-delete uuid c.counters d)

-- An operation adds one counter at most.
length-step :
    (o : Op) (c : TrafficCounter) → IsCounted c → length (step o c).counters ≤ length c.counters + 1
unfolding step rx tx
length-step (get uuid) c v = length-get_counter uuid c
length-step (reset_op uuid) c v = omega (arith, length-reset uuid c)
length-step (delete_op uuid) c v = omega (arith, length-delete_counter uuid c v.distinct)
length-step (receive uuid n) c v = length-store uuid _ c
length-step (send uuid n) c v = length-store uuid _ c

run-IsCounted :
    (os : List Op) (c : TrafficCounter)
    → IsCounted c
    → length c.counters + length os < 2 ^ 63
    → IsCounted (run os c)
unfolding run
run-IsCounted [] c v room = v
run-IsCounted (o ∷ os) c v room =
    run-IsCounted os (step o c) (step-IsCounted o c v (omega arith))
      (omega (arith, length-step o c v))

-- After any history of fewer than 2 ^ 63 operations on a new counter, `Len` is the number of users
-- that have a counter, and none has two.
pub len-run :
    (os : List Op)
    → length os < 2 ^ 63
    → (len (run os new_traffic_counter) ≡ pos (length (run os new_traffic_counter).counters))
      × Distinct (run os new_traffic_counter).counters
unfolding len new_traffic_counter
len-run os room =
    let v =
      run-IsCounted os new_traffic_counter (record { distinct = tt; counted = refl })
        (omega (arith, room)) in
    (v.counted, v.distinct)

get_counter-reads :
    (uuid u : Text) (c : TrafficCounter)
    → (get_up_count u (get_counter uuid c).0 ≡ get_up_count u c)
      × (get_down_count u (get_counter uuid c).0 ≡ get_down_count u c)
      × ((get_counter uuid c).1.up_counter ≡ get_up_count uuid c)
      × ((get_counter uuid c).1.down_counter ≡ get_down_count uuid c)
unfolding get_counter get_up_count get_down_count
get_counter-reads uuid u c =
    ground (arith, lookup-insert uuid u new_storage c.counters, text_beq_iff uuid u)

store-reads :
    (uuid u : Text) (s : TrafficStorage) (c : TrafficCounter)
    → let c' = record c { counters = insert uuid s c.counters } in
      (get_up_count u c' ≡ (if uuid == u then s.up_counter else get_up_count u c))
      × (get_down_count u c' ≡ (if uuid == u then s.down_counter else get_down_count u c))
unfolding get_up_count get_down_count
store-reads uuid u s c = ground (arith, lookup-insert uuid u s c.counters)

-- A send adds to the sender's upload and a receive to the receiver's download; the other direction
-- and every other user read as before, also where the user had no counter.
pub traffic-reads :
    (uuid u : Text) (n : ℤ) (c : TrafficCounter)
    → (get_up_count u (tx uuid n c)
        ≡ (if uuid == u then add64 (get_up_count u c) n else get_up_count u c))
      × (get_down_count u (tx uuid n c) ≡ get_down_count u c)
      × (get_down_count u (rx uuid n c)
          ≡ (if uuid == u then add64 (get_down_count u c) n else get_down_count u c))
      × (get_up_count u (rx uuid n c) ≡ get_up_count u c)
unfolding tx rx
traffic-reads uuid u n c =
    let c1 = (get_counter uuid c).0 in
    let s = (get_counter uuid c).1 in
    ground (
      arith,
      get_counter-reads uuid u c,
      store-reads uuid u (record s { up_counter = add64 s.up_counter n }) c1,
      store-reads uuid u (record s { down_counter = add64 s.down_counter n }) c1,
      text_beq_iff uuid u,
    )
