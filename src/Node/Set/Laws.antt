-- ===== src/Node/Set/Laws.antt =====
-- What is left in the table of limiters after the nodes are closed.
use v2sp.Prelude.{
  if◌then◌else◌, ◌==◌, nat_eq, int_eq, lookup-delete, Text, codes, text_eq, ◌≡◌, refl, Bool, false,
  ◌||◌, Option, none, some, List, [], ◌∷◌, ◌++◌, arith,
}
use v2sp.Core.{Core}
use v2sp.Task.{Task, Outcome, done, blocked, ◌>>=◌}
use v2sp.Task
use v2sp.Limiter.Registry.{Registry, get_limiter, delete_limiter}
use v2sp.Node.Cert.{CertTools}
use v2sp.Node.Controller.{PanelApi, Controller, Shared, close, close_task}
use v2sp.Node.Set.{NodeSet, close_loop, close_nodes}

-- Nobody holds the lock of the task, if there is one.
abbrev pub IsFree : Option Task → Type 0
IsFree none = Unit
IsFree (some t) = t.locked ≡ false

abbrev pub HasFreeTasks : Controller → Type 0
HasFreeTasks c =
    IsFree c.node_info_monitor_periodic
    × IsFree c.user_report_periodic
    × IsFree c.renew_cert_periodic
    × IsFree c.dynamic_speed_limit_periodic
    × IsFree c.online_ip_report_periodic

abbrev pub AllFree : {P : Type 0} → List (Controller × P) → Type 0
AllFree [] = Unit
AllFree ((c, p) ∷ cs) = HasFreeTasks c × AllFree cs

unfoldable pub has_tag : {P : Type 0} → List (Controller × P) → Text → Bool
has_tag [] tag = false
has_tag ((c, p) ∷ cs) tag = c.tag == tag || has_tag cs tag

close_task_free : (t : Option Task) → IsFree t → (t' : Option Task) × (close_task t ≡ done t')
unfolding close_task Task.close Task.lock Task.unlock
close_task_free none h = (none, refl)
close_task_free (some t) h =
    (some (record t { locked = false; running = false; timer = none }), rw (h, close_task) refl)

module _ {C P Regexp Bucket : Type 0} (core : Core C) (panel : PanelApi P) (tools : CertTools)
    (compile : Text → Option Regexp) where
  close_free :
      (c : Controller) (s : Shared C P Regexp Bucket)
      → HasFreeTasks c
      → (s' : Shared C P Regexp Bucket) × (c' : Controller) × (e : Option Text) × (close core panel
            tools compile c s
          ≡ done (s', c', e))
        × (s'.registry ≡ delete_limiter c.tag s.registry)
  unfolding close
  close_free c s (h1, h2, h3, h4, h5) =
      let (t1, e1) = close_task_free c.node_info_monitor_periodic h1 in
      let (t2, e2) = close_task_free c.user_report_periodic h2 in
      let (t3, e3) = close_task_free c.renew_cert_periodic h3 in
      let (t4, e4) = close_task_free c.dynamic_speed_limit_periodic h4 in
      let (t5, e5) = close_task_free c.online_ip_report_periodic h5 in
      (
        record s {
          server = (core.del_node c.tag s.server).0;
          registry = delete_limiter c.tag s.registry;
        },
        record c {
          node_info_monitor_periodic = t1;
          user_report_periodic = t2;
          renew_cert_periodic = t3;
          dynamic_speed_limit_periodic = t4;
          online_ip_report_periodic = t5;
        },
        elim (core.del_node c.tag s.server).1 [
          | none ↦ none
          | some e ↦ some (codes "del node error: " ++ e)
        ],
        rw (e1, e2, e3, e4, e5, close) refl,
        refl,
      )

  close_loop_free :
      (cs : List (Controller × P)) (server : C) (r : Registry Regexp Bucket)
      → AllFree cs
      → (server' : C) × (r' : Registry Regexp Bucket) × (close_loop core panel tools compile cs
            server r
          ≡ done (server', r'))
        × ((tag : Text) → get_limiter tag r' ≡ (if has_tag cs tag then none else get_limiter tag r))
  unfolding close_loop has_tag get_limiter delete_limiter
  close_loop_free [] server r h = (server, r, refl, λ tag. refl)
  close_loop_free ((c, p) ∷ cs) server r (h, hs) =
      let (s', c', e, run, reg) =
        close_free c (record { server = server; api = p; registry = r }) h in
      let (server', r', run', tags) = close_loop_free cs s'.server s'.registry hs in
      (
        server',
        r',
        rw (run, close_loop) run',
        λ tag. ground (arith, tags tag, reg, lookup-delete c.tag tag r.limiter),
      )

  -- Where nobody holds a lock of the controllers' tasks, closing the nodes returns, no controller is
  -- left, no tag of a controller leads to a limiter any more, and every other tag leads where it led.
  pub close_nodes_lem :
      (n : NodeSet C P Regexp Bucket) (tag : Text)
      → AllFree n.controllers
      → (n' : NodeSet C P Regexp Bucket) × (close_nodes core panel tools compile n ≡ done n')
        × (n'.controllers ≡ [])
        × (get_limiter tag n'.registry
            ≡ (if has_tag n.controllers tag then none else get_limiter tag n.registry))
  unfolding close_nodes
  close_nodes_lem n tag h =
      let (server', r', run, tags) = close_loop_free n.controllers n.server n.registry h in
      (
        record { controllers = []; server = server'; registry = r' },
        rw (run, close_nodes) refl,
        refl,
        tags tag,
      )
