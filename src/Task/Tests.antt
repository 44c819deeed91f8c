-- ===== src/Task/Tests.antt =====
-- The theorems on a task at a concrete task and function.
use v2sp.Prelude.{
  nat_eq, int_eq, pos, Text, codes, text_eq, ◌≡◌, refl, true, false, Option, none, some,
}
use v2sp.Task.{Task, Outcome, done, Lens, lock, unlock, fire, close}
use v2sp.Task.Laws.{IsLens, fire_returns, fire-close, fire_despite_close}

abbrev itself : Lens Task
itself = record { get = λ t. t; put = λ t _. t }

abbrev itself-IsLens : IsLens itself
itself-IsLens = record { get-put = λ t w. refl; put-put = λ s t w. refl }

abbrev running_task : Task
running_task = record { interval = pos 60; locked = false; timer = some (pos 60); running = true }

abbrev fails : Task → Outcome (Task × Option Text)
fails t = done (t, some (codes "no answer"))

fire_returns_example :
    (v : Task) × (fire itself (λ t. t) fails running_task ≡ done (v, some (codes "no answer")))
    × (v.locked ≡ false)
    × (v.running ≡ false)
    × (v.timer ≡ none)
fire_returns_example =
    fire_returns itself itself-IsLens (λ t. t) fails running_task
      (record running_task { timer = none; locked = true }) (some (codes "no answer")) refl refl
      (λ t. refl) refl refl

fire_close_example :
    (u : Task) × (fire itself (λ t. t) fails (record running_task { timer = none; running = false })
      ≡ done (u, none))
    × (u ≡ record running_task { timer = none; running = false })
unfolding close lock unlock
fire_close_example =
    fire-close itself itself-IsLens (λ t. t) fails running_task
      (record running_task { timer = none; running = false }) refl

-- Somebody closes the task while the lock is free.
abbrev closes : Task → Task
closes t = record t { running = false; timer = none }

fire_despite_close_example :
    (v : Task) × (fire itself closes fails running_task ≡ done (v, some (codes "no answer")))
    × (v ≡ record running_task { timer = none; running = false })
unfolding close lock unlock
fire_despite_close_example =
    fire_despite_close itself itself-IsLens closes fails running_task
      (record running_task { timer = none; running = false; locked = true })
      (some (codes "no answer")) refl refl refl refl refl
