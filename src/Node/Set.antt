-- ===== src/Node/Set.antt =====
-- node/node.go: all the nodes of the configuration, started one by one on one core. Each controller
-- has a panel client of its own; making one from its configuration is a parameter.
pub mod Laws
use v2sp.Prelude.{
  ltb, leb, nat_beq, if◌then◌else◌, ltb→lt, leb→le, nat_beq_iff, Bool-cases, Option-cases, Eq, ◌==◌,
  nat_eq, eq_refl, is_some, option_or, ℤ, pos_part, neg_part, sub_ℕ, ◌+ℤ◌, ◌-ℤ◌, ◌*ℤ◌, quot, ◌≤ℤ◌,
  ◌<ℤ◌, ltb_ℤ, leb_ℤ, int_beq, int_beq_iff, int_eq, wrap64, IsInt64, wrap64_fits, wrap64-IsInt64,
  pos, negsuc, length, is_empty, get_elem?, set, length-append, get_elem?-set_self,
  get_elem?-set_ne, get_elem?-lt, All, contains, contains-append, Map, lookup, insert, delete,
  Distinct, lookup-insert, lookup-delete, lookup-insert_self, lookup-delete_self, length-insert,
  insert-Distinct, delete-Distinct, delete_absent, length-delete, Text, codes, text_beq,
  text_beq_iff, text_eq, starts_with, drop, size, trim_prefix, ends_with, contains_byte, lower_byte,
  to_lower, digits_from, itoa, ℕ, zero, suc, ◌+◌, ◌-◌, ◌*◌, ◌/◌, ◌%◌, ◌^◌, ◌≤◌, ◌<◌, ◌≡◌, refl, sym,
  ap, ◌∙◌, ◌≢◌, ◌↔◌, ◌⊎◌, inl, inr, Bool, true, false, not, ◌&&◌, ◌||◌, Option, none, some, List,
  [], ◌∷◌, ◌++◌, map, arith,
}
use v2sp.Conf.{Options}
use v2sp.Core.{Core}
use v2sp.Task.{Task, Outcome, done, blocked, ◌>>=◌}
use v2sp.Limiter.Registry.{Registry, get_limiter, delete_limiter}
use v2sp.Node.Cert.{CertTools}
use v2sp.Node.Controller.{
  PanelApi, Controller, Shared, Started, started, failed, start, close, close_task,
}

pub record NodeConfig (A : Type 0) : Type 0 where
  pub api_config : A
  pub options : Options

-- The started controllers, each with its panel client, and what they share.
pub record NodeSet (C P Regexp Bucket : Type 0) : Type 0 where
  pub controllers : List (Controller × P)
  pub server : C
  pub registry : Registry Regexp Bucket

module _ {A C P Regexp Bucket : Type 0} (core : Core C) (panel : PanelApi P) (tools : CertTools)
    (compile : Text → Option Regexp) where
  -- One pass of the loop of `Start`: the new controller is kept only if it has started.
  unfoldable pub start_node :
      (A → Option P)
      → NodeConfig A
      → NodeSet C P Regexp Bucket
      → Outcome (NodeSet C P Regexp Bucket)
  start_node new_panel config n = elim (new_panel config.api_config) [
    | none ↦ done n
    | some p ↦
        start core panel tools compile config.options
          (record { server = n.server; api = p; registry = n.registry })
        >>= λ (s, result). done (elim result [
          | failed e ↦ record n { server = s.server; registry = s.registry }
          | started c ↦ record {
            controllers = n.controllers ++ ((c, s.api) ∷ []);
            server = s.server;
            registry = s.registry;
          }
        ])
  ]

  unfoldable pub start_loop :
      (A → Option P)
      → List (NodeConfig A)
      → NodeSet C P Regexp Bucket
      → Outcome (NodeSet C P Regexp Bucket)
  start_loop new_panel [] n = done n
  start_loop new_panel (config ∷ configs) n =
      start_node new_panel config n >>= λ n'. start_loop new_panel configs n'

  -- `Start`: the error, where there are nodes and none has started. Every node that is not kept has
  -- failed.
  unfoldable pub start_nodes :
      (A → Option P)
      → List (NodeConfig A)
      → C
      → Registry Regexp Bucket
      → Outcome (NodeSet C P Regexp Bucket × Option Text)
  start_nodes new_panel configs server registry =
      start_loop new_panel configs
        (record { controllers = []; server = server; registry = registry })
      >>= λ n. done (
        n,
        if is_empty n.controllers && not (is_empty configs)
            then some
                (codes "all " ++ itoa (pos (length configs)) ++ codes " nodes failed to start")
            else none,
      )

module _ {C P Regexp Bucket : Type 0} (core : Core C) (panel : PanelApi P) (tools : CertTools)
    (compile : Text → Option Regexp) where
  -- The loop of `Close`; an error of one controller is logged.
  unfoldable pub close_loop :
      List (Controller × P) → C → Registry Regexp Bucket → Outcome (C × Registry Regexp Bucket)
  close_loop [] server registry = done (server, registry)
  close_loop ((c, p) ∷ cs) server registry =
      close core panel tools compile c (record { server = server; api = p; registry = registry })
      >>= λ (s, _, _). close_loop cs s.server s.registry

  unfoldable pub close_nodes : NodeSet C P Regexp Bucket → Outcome (NodeSet C P Regexp Bucket)
  close_nodes n = close_loop n.controllers n.server n.registry >>= λ (server, registry).
      done (record { controllers = []; server = server; registry = registry })
