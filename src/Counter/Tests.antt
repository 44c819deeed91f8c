-- ===== src/Counter/Tests.antt =====
-- The theorems on the traffic counters at a concrete history.
use v2sp.Prelude.{nat_eq, int_eq, pos, length, Distinct, codes, text_eq, ◌≡◌, List, [], ◌∷◌, arith}
use v2sp.Counter.{TrafficCounter, new_traffic_counter, len}
use v2sp.Counter.Laws.{Op, send, receive, delete_op, run, len-run}

abbrev history : List Op
history = send (codes "a") (pos 5) ∷ receive (codes "b") (pos 7) ∷ delete_op (codes "a") ∷ []

len-run_example :
    (len (run history new_traffic_counter)
      ≡ pos (length (run history new_traffic_counter).counters))
    × Distinct (run history new_traffic_counter).counters
len-run_example = len-run history (omega arith)

abbrev busy : TrafficCounter
busy = record {
  counters = (codes "a", record { up_counter = pos 5; down_counter = pos 1 }) ∷ [];
  count = pos 1;
}
