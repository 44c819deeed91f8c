-- ===== src/Task.antt =====
-- common/task/task.go: a task that a timer runs again and again. The mutex is part of the state, so
-- that a call which waits for a lock its own caller holds is seen to block for ever. What other
-- goroutines do while a call has let go of the lock in between is a parameter, `meanwhile`.
pub mod Laws
mod Tests
use v2sp.Prelude.{
  if◌then◌else◌, nat_eq, ℤ, int_eq, Text, text_eq, Bool, true, false, not, Option, none, some,
}

pub record Task : Type 0 where
  pub interval : ℤ
  -- Is `access` held?
  pub locked : Bool
  -- The interval that the pending timer was set to, if one is pending.
  pub timer : Option ℤ
  pub running : Bool

-- What a call does: it returns, it waits for a lock that is never released, or it panics.
pub data Outcome {ℓ} (A : Type ℓ) : Type ℓ where
  done : A → Outcome A
  blocked : Outcome A
  panicked : Outcome A

infixl 5 ◌>>=◌
abbrev pub ◌>>=◌ {ℓ κ} : {A : Type ℓ} {B : Type κ} → Outcome A → (A → Outcome B) → Outcome B
done a >>= f = f a
blocked >>= f = blocked
panicked >>= f = panicked

-- The task lives in a world that `Execute` may change as a whole.
pub record Lens (W : Type 0) : Type 0 where
  pub get : W → Task
  pub put : Task → W → W

module _ {W : Type 0} (at : Lens W) where
  unfoldable pub lock : W → Outcome W
  lock w =
      let t = at.get w in if t.locked then blocked else done (at.put (record t { locked = true }) w)

  unfoldable pub unlock : W → W
  unlock w = at.put (record (at.get w) { locked = false }) w

  unfoldable pub has_closed : W → Outcome (W × Bool)
  has_closed w = do w' ← lock w; done (unlock w', not (at.get w').running)

  unfoldable pub set_running : Bool → W → W
  set_running b w = at.put (record (at.get w) { running = b }) w

  -- `time.AfterFunc`: the pending timer is this one from now on.
  unfoldable pub arm : W → W
  arm w = let t = at.get w in at.put (record t { timer = some t.interval }) w

  -- `execute` is the task's function; its second result is the error.
  module _ (execute : W → Outcome (W × Option Text)) where
    -- The part of `checkedExecute` that holds the lock to its end.
    unfoldable pub execute_locked : Bool → W → Outcome (W × Option Text)
    execute_locked first w =
        let r : Outcome (W × Option Text) = if first then execute w else done (w, none) in
        r >>= λ (w', err). elim err [
          | some e ↦ done (unlock (set_running false w'), some e)
          | none ↦ done (unlock (if (at.get w').running then arm w' else w'), none)
        ]

  module _ (meanwhile : W → W) (execute : W → Outcome (W × Option Text)) where
    -- The lock is free between the two lockings, and `running` is not asked again after the second.
    unfoldable pub checked_execute : Bool → W → Outcome (W × Option Text)
    checked_execute first w = do
      (w1, closed) ← has_closed w
      if closed then done (w1, none) else (lock (meanwhile w1) >>= execute_locked execute first)

    -- The rest of `Start`, once the lock is held.
    start_locked : Bool → W → Outcome (W × Option Text)
    start_locked first w1 =
        if (at.get w1).running
        then done (unlock w1, none)
        else (checked_execute first (meanwhile (unlock (set_running true w1))) >>= λ (w2, err).
            elim err [
              | none ↦ done (w2, none)
              | some e ↦ lock (meanwhile w2) >>= λ w3. done (unlock (set_running false w3), some e)
            ])

    unfoldable pub start : Bool → W → Outcome (W × Option Text)
    unfolding start_locked
    start first w = lock w >>= start_locked first

    -- The pending timer fires: its function runs with `first` set.
    unfoldable pub fire : W → Outcome (W × Option Text)
    fire w = checked_execute true (at.put (record (at.get w) { timer = none }) w)

  unfoldable pub close : W → Outcome W
  close w = do
    w' ← lock w
    done (unlock (at.put (record (at.get w') { running = false; timer = none }) w'))
