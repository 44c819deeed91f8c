-- ===== src/Dispatcher/Admission.antt =====
-- `getLink` and the first half of `DispatchLink` in core/xray/app/mydispatcher/default.go: a
-- connection of a user is refused, or linked, counted and kept in the user's link manager. The pipes
-- of a connection have the numbers `up` and `down`; `now` is the time of all the calls of `time.Now`.
use v2sp.Prelude.{
  if◌then◌else◌, nat_eq, is_some, option_or, ℤ, int_eq, is_empty, lookup, insert, Text, text_eq, ℕ,
  suc, Option, none, some, [], ◌∷◌,
}
use v2sp.Limiter.{check_limit}
use v2sp.Limiter.Registry.{Registry, get_limiter, deref, modify}
use v2sp.Counter.{get_counter, new_traffic_counter}
use v2sp.Sniffers.{Network, network_beq, tcp}
use v2sp.Dispatcher.Links.{close, interrupt, ManagedWriter, add_link}
use v2sp.Dispatcher.{
  Writer, pipe_writer, managed_writer, rate_limited, size_stat, up, down, pipe_reader,
  counter_reader, Link, Dispatcher, Effects, get_link_manager, mark_user_active, modify_manager,
}

-- `session.Inbound`; a nil user is `none`, any other is given by its email.
pub record SessionInbound : Type 0 where
  pub user : Option Text
  pub tag : Text
  pub source_ip : Text
  pub source_network : Network
  pub can_splice_copy : ℕ

-- The errors, by what they name.
pub data AdmitError : Type 0 where
  invalid_destination : AdmitError
  get_limiter_error : Text → AdmitError
  limited_by_conn_or_ip : Text → AdmitError

-- `user != nil && len(user.Email) > 0`: the inbound and the email of a user with an email.
unfoldable pub limited_user : Option SessionInbound → Option (SessionInbound × Text)
limited_user none = none
limited_user (some inbound) = elim inbound.user [
  | none ↦ none
  | some email ↦ if is_empty email then none else some (inbound, email)
]

-- The limiter's pointer, and the bucket if the user has a speed limit.
pub data Verdict (Bucket : Type 0) : Type 0 where
  denied : AdmitError → Verdict Bucket
  admitted : ℕ → Option Bucket → Verdict Bucket

pub data Linked (Bucket : Type 0) : Type 0 where
  refused : AdmitError → Linked Bucket
  linked : Link Bucket → Link Bucket → Option ℕ → Linked Bucket
  -- `DispatchLink` is given one link and wraps it.
  wrapped : Link Bucket → Option ℕ → Linked Bucket

pub record Opened (Regexp Bucket : Type 0) : Type 0 where
  pub registry : Registry Regexp Bucket
  pub dispatcher : Dispatcher Bucket
  pub session : Option SessionInbound
  pub result : Linked Bucket
  pub effects : Effects Bucket

module _ {Bucket : Type 0} where
  -- `d.Counter` with the user's entry of the node, made on the first use.
  unfoldable pub count_user : Text → Text → Dispatcher Bucket → Dispatcher Bucket
  count_user tag email d =
      let t = option_or (lookup tag d.counter) new_traffic_counter in
      record d { counter = insert tag (get_counter email t).0 d.counter }

  unfoldable pub limit_writer : Option Bucket → Writer Bucket → Writer Bucket
  limit_writer none writer = writer
  limit_writer (some bucket) writer = rate_limited bucket writer

module _ {Regexp Bucket : Type 0} where
  module _ (new_bucket : ℤ → ℤ → ℤ → Bucket) where
    -- `GetLimiter` and `CheckLimit`. A pointer of the table that leads nowhere is no part of the code.
    unfoldable pub admit :
        SessionInbound
        → Text
        → Network
        → ℤ
        → Registry Regexp Bucket
        → Registry Regexp Bucket × Verdict Bucket
    unfolding network_beq
    admit inbound email network now registry = elim (get_limiter inbound.tag registry) [
      | none ↦ (registry, denied (get_limiter_error inbound.tag))
      | some p ↦ elim (deref p registry) [
        | none ↦ (registry, denied (get_limiter_error inbound.tag))
        | some l ↦
            let (l', bucket, reject) =
              check_limit new_bucket email inbound.source_ip (network_beq network tcp)
                (network_beq inbound.source_network tcp) now l in
            let registry' = modify p (λ old. l') registry in
            if reject
            then (registry', denied (limited_by_conn_or_ip email))
            else (registry', admitted p bucket)
      ]
    ]

    unfoldable pub get_link :
        Option SessionInbound
        → Network
        → ℤ
        → ℕ
        → ℕ
        → Registry Regexp Bucket
        → Dispatcher Bucket
        → Opened Regexp Bucket
    unfolding limited_user admit count_user limit_writer
    get_link session network now uplink downlink registry d =
        let inbound_link : Link Bucket = record {
          reader = pipe_reader downlink;
          writer = pipe_writer uplink;
        } in
        let outbound_link : Link Bucket = record {
          reader = pipe_reader uplink;
          writer = pipe_writer downlink;
        } in
        elim (limited_user session) [
          | none ↦ record {
            registry = registry;
            dispatcher = d;
            session = session;
            result = linked inbound_link outbound_link none;
            effects = [];
          }
          | some (inbound, email) ↦
              let (registry', verdict) = admit inbound email network now registry in
              elim verdict [
                | denied e ↦ record {
                  registry = registry';
                  dispatcher = d;
                  session = session;
                  result = refused e;
                  effects =
                      close outbound_link.writer
                      ∷ close inbound_link.writer
                      ∷ interrupt outbound_link.reader
                      ∷ interrupt inbound_link.reader
                      ∷ [];
                }
                | admitted p bucket ↦
                    let (d1, lm) = get_link_manager email d in
                    let d2 = mark_user_active email inbound.tag now d1 in
                    let id = d2.next_writer in
                    let managed : ManagedWriter (Writer Bucket) = record {
                      writer = inbound_link.writer;
                      create_time = now;
                    } in
                    let d3 =
                      modify_manager lm (add_link id managed outbound_link.reader)
                        (record d2 { next_writer = suc id }) in
                    record {
                      registry = registry';
                      dispatcher = count_user inbound.tag email d3;
                      session = some (
                          if is_some bucket
                          then record inbound { can_splice_copy = 3 }
                          else inbound);
                      result =
                          linked
                            (record inbound_link {
                              writer =
                                  size_stat inbound.tag email up (
                                    limit_writer bucket (managed_writer id lm inbound_link.writer));
                            })
                            (record outbound_link {
                              writer =
                                  size_stat inbound.tag email down
                                    (limit_writer bucket outbound_link.writer);
                            })
                            (some p);
                      effects = [];
                    }
              ]
        ]

    unfoldable pub wrap_link :
        Option SessionInbound
        → Network
        → ℤ
        → Link Bucket
        → Registry Regexp Bucket
        → Dispatcher Bucket
        → Opened Regexp Bucket
    unfolding limited_user admit count_user limit_writer
    wrap_link session network now outbound registry d = elim (limited_user session) [
      | none ↦ record {
        registry = registry;
        dispatcher = d;
        session = session;
        result = wrapped outbound none;
        effects = [];
      }
      | some (inbound, email) ↦
          let (registry', verdict) = admit inbound email network now registry in
          elim verdict [
            | denied e ↦ record {
              registry = registry';
              dispatcher = d;
              session = session;
              result = refused e;
              effects = close outbound.writer ∷ interrupt outbound.reader ∷ [];
            }
            | admitted p bucket ↦
                let (d1, lm) = get_link_manager email d in
                let d2 = mark_user_active email inbound.tag now d1 in
                let id = d2.next_writer in
                let managed : ManagedWriter (Writer Bucket) = record {
                  writer = outbound.writer;
                  create_time = now;
                } in
                let d3 = count_user inbound.tag email (record d2 { next_writer = suc id }) in
                let reader = counter_reader inbound.tag email outbound.reader in
                record {
                  registry = registry';
                  dispatcher = modify_manager lm (add_link id managed reader) d3;
                  session =
                      some (
                        if is_some bucket then record inbound { can_splice_copy = 3 } else inbound);
                  result =
                      wrapped
                        (record {
                          reader = reader;
                          writer =
                              size_stat inbound.tag email down
                                (limit_writer bucket (managed_writer id lm outbound.writer));
                        })
                        (some p);
                  effects = [];
                }
          ]
    ]
