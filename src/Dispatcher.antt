-- ===== src/Dispatcher.antt =====
-- core/xray/app/mydispatcher: every connection of a user passes the dispatcher, which asks the
-- limiter, counts the bytes, keeps the connection in the user's link manager, sniffs its content
-- and hands it to an outbound handler. Here: its state, and the removal of users that are idle. A
-- call is atomic; a `*LinkManager` is a place on a heap, a `*userConnState` is named by its email.
pub mod Links
pub mod Idle
pub mod Cleanup
pub mod Admission
pub mod Granted
pub mod Linking
pub mod Wrapping
pub mod Override
pub mod Sniffing
pub mod Bytes
pub mod Rounds
pub mod Routed
pub mod Serve
pub mod Rules
mod Tests
use v2sp.Prelude.{
  ltb, leb, nat_beq, if◌then◌else◌, ltb→lt, leb→le, nat_beq_iff, Bool-cases, Option-cases, Eq, ◌==◌,
  nat_eq, eq_refl, is_some, option_or, ℤ, pos_part, neg_part, sub_ℕ, ◌+ℤ◌, ◌-ℤ◌, ◌*ℤ◌, quot, ◌≤ℤ◌,
  ◌<ℤ◌, ltb_ℤ, leb_ℤ, int_beq, int_beq_iff, int_eq, wrap64, IsInt64, wrap64_fits, wrap64-IsInt64,
  pos, negsuc, length, is_empty, get_elem?, set, length-append, get_elem?-set_self,
  get_elem?-set_ne, get_elem?-lt, All, contains, contains-append, Map, lookup, insert, delete,
  Distinct, lookup-insert, lookup-delete, lookup-insert_self, lookup-delete_self, length-insert,
  insert-Distinct, delete-Distinct, delete_absent, length-delete, Text, codes, text_beq,
  text_beq_iff, text_eq, starts_with, drop, size, trim_prefix, ends_with, contains_byte, lower_byte,
  to_lower, digits_from, itoa, ℕ, zero, suc, ◌+◌, ◌-◌, ◌*◌, ◌/◌, ◌%◌, ◌^◌, ◌≤◌, ◌<◌, ◌≡◌, refl, sym,
  ap, ◌∙◌, ◌≢◌, ◌↔◌, ◌⊎◌, inl, inr, Bool, true, false, not, ◌&&◌, ◌||◌, Option, none, some, List,
  [], ◌∷◌, ◌++◌, map, arith,
}
use v2sp.Counter.{TrafficCounter, delete_counter}
use v2sp.Dispatcher.Links.{Effect, LinkManager, new_link_manager, close_all, get_connection_count}

pub data Direction : Type 0 where
  up down : Direction

-- A pipe is named by a number. The wrappers are those of the code; a counter is named by the tag of
-- its node, the email of its user and its direction.
pub data Writer (Bucket : Type 0) : Type 0 where
  pipe_writer : ℕ → Writer Bucket
  managed_writer : ℕ → ℕ → Writer Bucket → Writer Bucket
  rate_limited : Bucket → Writer Bucket → Writer Bucket
  size_stat : Text → Text → Direction → Writer Bucket → Writer Bucket

pub data Reader : Type 0 where
  pipe_reader : ℕ → Reader
  counter_reader : Text → Text → Reader → Reader
  cached_reader : Reader → Reader

pub record Link (Bucket : Type 0) : Type 0 where
  pub reader : Reader
  pub writer : Writer Bucket

pub record UserConnState : Type 0 where
  pub tag : Text
  pub last_active : ℤ

pub record Dispatcher (Bucket : Type 0) : Type 0 where
  pub counter : Map Text TrafficCounter
  pub link_managers : Map Text ℕ
  pub conn_states : Map Text UserConnState
  pub managers : List (LinkManager (Writer Bucket) Reader)
  -- The next `*ManagedWriter`.
  pub next_writer : ℕ

abbrev pub user_idle_timeout : ℤ
user_idle_timeout = pos (600 * 10 ^ 9)

abbrev pub user_cleanup_batch : ℕ
user_cleanup_batch = 200

abbrev pub Effects : Type 0 → Type 0
Effects Bucket = List (Effect (Writer Bucket) Reader)

module _ {Bucket : Type 0} where
  unfoldable pub get_link_manager : Text → Dispatcher Bucket → Dispatcher Bucket × ℕ
  get_link_manager email d = elim (lookup email d.link_managers) [
    | some p ↦ (d, p)
    | none ↦
        let p = length d.managers in
        (
          record d {
            managers = d.managers ++ (new_link_manager ∷ []);
            link_managers = insert email p d.link_managers;
          },
          p,
        )
  ]

  unfoldable pub get_conn_state : Text → Dispatcher Bucket → Dispatcher Bucket × UserConnState
  get_conn_state email d = elim (lookup email d.conn_states) [
    | some state ↦ (d, state)
    | none ↦
        let state : UserConnState = record { tag = []; last_active = pos 0 } in
        (record d { conn_states = insert email state d.conn_states }, state)
  ]

  unfoldable pub mark_user_active : Text → Text → ℤ → Dispatcher Bucket → Dispatcher Bucket
  unfolding get_conn_state
  mark_user_active email tag now d =
      let (d', state) = get_conn_state email d in
      record d' {
        conn_states = insert email (record state { last_active = now; tag = tag }) d'.conn_states;
      }

  -- A call of a method through a pointer; a pointer that leads nowhere is no part of the code.
  abbrev pub modify_manager :
      ℕ
      → (LinkManager (Writer Bucket) Reader → LinkManager (Writer Bucket) Reader)
      → Dispatcher Bucket
      → Dispatcher Bucket
  modify_manager p f d = elim (get_elem? d.managers p) [
    | none ↦ d
    | some lm ↦ record d { managers = set d.managers p (f lm) }
  ]

  unfoldable pub connection_count : ℕ → Dispatcher Bucket → ℕ
  connection_count p d = elim (get_elem? d.managers p) [
    | none ↦ 0
    | some lm ↦ get_connection_count lm
  ]

  -- `lm.CloseAll()` through a pointer, and what it does to the pipes.
  unfoldable pub close_manager : ℕ → Dispatcher Bucket → Dispatcher Bucket × Effects Bucket
  close_manager p d = elim (get_elem? d.managers p) [
    | none ↦ (d, [])
    | some lm ↦
        let (lm', closed) = close_all lm in (record d { managers = set d.managers p lm' }, closed)
  ]

  unfoldable pub cleanup_user_resources :
      Text → Text → Dispatcher Bucket → Dispatcher Bucket × Effects Bucket
  unfolding close_manager
  cleanup_user_resources email tag d =
      let (d1, closed) : Dispatcher Bucket × Effects Bucket = elim (lookup email d.link_managers) [
        | none ↦ (d, [])
        | some p ↦ close_manager p d
      ] in
      (
        record d1 {
          link_managers = delete email d1.link_managers;
          counter = elim (lookup tag d1.counter) [
            | none ↦ d1.counter
            | some tc ↦ insert tag (delete_counter email tc) d1.counter
          ];
          conn_states = delete email d1.conn_states;
        },
        closed,
      )

  -- The tag to clean up for a user of a link manager: the user has no connection, and was seen
  -- active, but not within the timeout.
  unfoldable pub idle_tag : ℤ → Text → ℕ → Dispatcher Bucket → Option Text
  unfolding connection_count
  idle_tag now email p d =
      if ltb 0 (connection_count p d) then none else elim (lookup email d.conn_states) [
        | none ↦ none
        | some state ↦
            if state.last_active == pos 0
            then none
            else if ltb_ℤ user_idle_timeout (now -ℤ state.last_active)
            then some state.tag
            else none
      ]

  -- The callback of `Range` on the users that are left, at most `remaining` clean-ups away.
  unfoldable pub cleanup_users :
      ℤ → Map Text ℕ → ℕ → Dispatcher Bucket → Dispatcher Bucket × Effects Bucket
  unfolding idle_tag cleanup_user_resources
  cleanup_users now [] remaining d = (d, [])
  cleanup_users now ((email, p) ∷ rest) zero d = (d, [])
  cleanup_users now ((email, p) ∷ rest) (suc remaining) d = elim (idle_tag now email p d) [
    | none ↦ cleanup_users now rest (suc remaining) d
    | some tag ↦
        let (d1, closed) = cleanup_user_resources email tag d in
        let (d2, later) = cleanup_users now rest remaining d1 in (d2, closed ++ later)
  ]

  -- One tick of `userCleanupLoop`.
  unfoldable pub user_cleanup : ℤ → Dispatcher Bucket → Dispatcher Bucket × Effects Bucket
  unfolding cleanup_users
  user_cleanup now d = cleanup_users now d.link_managers user_cleanup_batch d
