-- ===== src/Task/Laws.antt =====
-- When a periodic task runs on, when it stops, and when it waits for itself.
use v2sp.Prelude.{
  Bool, ◌∙◌, if◌then◌else◌, Bool-cases, nat_eq, is_some, int_eq, Text, text_eq, ◌≡◌, refl, inl, inr,
  true, false, not, Option, none, some, arith,
}
use v2sp.Task.{
  Task, Outcome, done, blocked, Lens, lock, unlock, has_closed, set_running, arm, execute_locked,
  checked_execute, fire, close,
}

-- What is put is what is read, and the last write stands.
pub record IsLens {W : Type 0} (at : Lens W) : Type 0 where
  pub get-put : (t : Task) (w : W) → at.get (at.put t w) ≡ t
  pub put-put : (s t : Task) (w : W) → at.put s (at.put t w) ≡ at.put s w

module _ {W : Type 0} (at : Lens W) (laws : IsLens at) where
  -- A call of `Close` returns exactly if nobody holds the lock, and then no timer is pending, the
  -- task is not running and the lock is free.
  pub close_lem :
      (w : W)
      → close at w ≡ (
          if (at.get w).locked
          then blocked
          else done
              (at.put (record (at.get w) { locked = false; timer = none; running = false }) w))
  unfolding close lock unlock
  close_lem w = elim (Bool-cases (at.get w).locked) [
    | inl held ↦ rw (held, close) refl
    | inr free ↦ rw (free, close) (simp (laws.get-put, laws.put-put))
  ]

  -- The world in which the lock is free between the two lockings of a firing.
  abbrev pub between : W → W
  between w = at.put (record (at.get w) { timer = none; locked = false }) w

  has_closed-fire :
      (w : W)
      → (at.get w).locked ≡ false
      → has_closed at (at.put (record (at.get w) { timer = none }) w)
        ≡ done (between w, not (at.get w).running)
  unfolding has_closed lock unlock
  has_closed-fire w free = simp (laws.get-put, laws.put-put, free)

  -- The part of `checkedExecute` after the two lockings, on a task that was running at the first.
  pub fire_running :
      (meanwhile : W → W) (execute : W → Outcome (W × Option Text)) (w : W)
      → (at.get w).locked ≡ false
      → (at.get w).running ≡ true
      → (at.get (meanwhile (between w))).locked ≡ false
      → let w1 = meanwhile (between w) in
        fire at meanwhile execute w
        ≡ execute_locked at execute true (at.put (record (at.get w1) { locked = true }) w1)
  unfolding fire checked_execute lock
  fire_running meanwhile execute w free runs again =
      rw (has_closed-fire w free, fire, checked_execute) (rw runs (rw again refl))

  rearmed :
      (runs : Bool) (w : W)
      → at.get (unlock at (if runs then arm at w else w)) ≡ (
          if runs
          then record (at.get w) { locked = false; timer = some (at.get w).interval }
          else record (at.get w) { locked = false })
  unfolding unlock arm
  rearmed true w = simp (laws.get-put)
  rearmed false w = simp (laws.get-put)

  -- The end of `checkedExecute`, by whether the function left the task running.
  execute_locked_lem :
      (execute : W → Outcome (W × Option Text)) (w w' : W) (err : Option Text)
      → execute w ≡ done (w', err)
      → (v : W) × (execute_locked at execute true w ≡ done (v, err))
        × (at.get v ≡ (
            if is_some err
            then record (at.get w') { locked = false; running = false }
            else (if (at.get w').running
                then record (at.get w') { locked = false; timer = some (at.get w').interval }
                else record (at.get w') { locked = false })))
  unfolding execute_locked unlock set_running arm
  execute_locked_lem execute w w' (some e) returns = (
    at.put (record (at.get w') { locked = false; running = false }) w',
    rw returns (simp (laws.get-put, laws.put-put)),
    laws.get-put _ _,
  )
  execute_locked_lem execute w w' none returns = (
    unlock at (if (at.get w').running then arm at w' else w'),
    rw returns refl,
    rearmed (at.get w').running w',
  )

  ended :
      (err : Option Text) (w w' v : W)
      → at.get w' ≡ record (at.get w) { timer = none; locked = true }
      → (at.get w).running ≡ true
      → at.get v ≡ (
          if is_some err
          then record (at.get w') { locked = false; running = false }
          else (if (at.get w').running
              then record (at.get w') { locked = false; timer = some (at.get w').interval }
              else record (at.get w') { locked = false }))
      → ((at.get v).locked ≡ false)
        × ((at.get v).running ≡ not (is_some err))
        × ((at.get v).timer ≡ (if is_some err then none else some (at.get w).interval))
  ended none w w' v alone runs left = rw (left, alone, runs) (refl, refl, refl)
  ended (some e) w w' v alone runs left = rw (left, alone) (refl, refl, refl)

  -- A running task that others leave as it is, and whose function returns and leaves the task alone,
  -- is free after its timer fires: with the timer set again if there was no error, and stopped with
  -- no timer otherwise.
  pub fire_returns :
      (meanwhile : W → W) (execute : W → Outcome (W × Option Text)) (w w' : W) (err : Option Text)
      → (at.get w).locked ≡ false
      → (at.get w).running ≡ true
      → ((u : W) → at.get (meanwhile u) ≡ at.get u)
      → let busy = record (at.get w) { timer = none; locked = true } in
        execute (at.put busy (meanwhile (between w))) ≡ done (w', err)
        → at.get w' ≡ busy
        → (v : W) × (fire at meanwhile execute w ≡ done (v, err))
          × ((at.get v).locked ≡ false)
          × ((at.get v).running ≡ not (is_some err))
          × ((at.get v).timer ≡ (if is_some err then none else some (at.get w).interval))
  fire_returns meanwhile execute w w' err free runs others returns alone =
      let w1 = meanwhile (between w) in
      let same : at.get w1 ≡ record (at.get w) { timer = none; locked = false } =
        others (between w) ∙ laws.get-put _ w in
      let run = fire_running meanwhile execute w free runs (rw same refl) in
      let (v, e, left) =
        execute_locked_lem execute (at.put (record (at.get w1) { locked = true }) w1) w' err
          (rw same returns) in
      let (free', runs', timer') = ended err w w' v alone runs left in
      (v, run ∙ e, free', runs', timer')

  close-get :
      (w v : W)
      → close at w ≡ done v
      → at.get v ≡ record (at.get w) { locked = false; timer = none; running = false }
  close-get w v e = elim (Bool-cases (at.get w).locked) [
    | inl held ↦ absurd (ground (arith, close_lem w))
    | inr free ↦ ground (
      arith,
      close_lem w,
      laws.get-put (record (at.get w) { locked = false; timer = none; running = false }) w,
    )
  ]

  fire_stopped :
      (meanwhile : W → W) (execute : W → Outcome (W × Option Text)) (v : W)
      → (at.get v).locked ≡ false
      → (at.get v).running ≡ false
      → fire at meanwhile execute v ≡ done (between v, none)
  unfolding fire checked_execute
  fire_stopped meanwhile execute v free stopped =
      rw (has_closed-fire v free, fire, checked_execute) (rw stopped refl)

  -- A timer that fires after `Close` does nothing: the task's function is not called, whatever it is,
  -- and the task is as `Close` left it.
  pub fire-close :
      (meanwhile : W → W) (execute : W → Outcome (W × Option Text)) (w v : W)
      → close at w ≡ done v
      → (u : W) × (fire at meanwhile execute v ≡ done (u, none)) × (at.get u ≡ at.get v)
  fire-close meanwhile execute w v e =
      let g = close-get w v e in
      (between v, fire_stopped meanwhile execute v (rw g) (rw g), rw (laws.get-put, g))

  ended_closed :
      (err : Option Text) (w w' : W)
      → at.get w' ≡ record (at.get w) { timer = none; running = false; locked = true }
      → (if is_some err
          then record (at.get w') { locked = false; running = false }
          else (if (at.get w').running
              then record (at.get w') { locked = false; timer = some (at.get w').interval }
              else record (at.get w') { locked = false }))
        ≡ record (at.get w) { timer = none; running = false; locked = false }
  ended_closed none w w' alone = rw alone refl
  ended_closed (some e) w w' alone = rw alone refl

  -- The race: a `Close` that comes between the two lockings of a firing returns, and the task's
  -- function is called all the same: its error is that of the firing. Where the function leaves the
  -- task alone, it is then closed: free, not running and with no timer.
  pub fire_despite_close :
      (meanwhile : W → W) (execute : W → Outcome (W × Option Text)) (w w' : W) (err : Option Text)
      → (at.get w).locked ≡ false
      → (at.get w).running ≡ true
      → close at (between w) ≡ done (meanwhile (between w))
      → let busy = record (at.get w) { timer = none; running = false; locked = true } in
        execute (at.put busy (meanwhile (between w))) ≡ done (w', err)
        → at.get w' ≡ busy
        → (v : W) × (fire at meanwhile execute w ≡ done (v, err))
          × (at.get v ≡ record (at.get w) { timer = none; running = false; locked = false })
  fire_despite_close meanwhile execute w w' err free runs closed returns alone =
      let w1 = meanwhile (between w) in
      let same : at.get w1 ≡ record (at.get w) { timer = none; running = false; locked = false } =
        close-get (between w) w1 closed ∙ rw laws.get-put refl in
      let run = fire_running meanwhile execute w free runs (rw same refl) in
      let (v, e, left) =
        execute_locked_lem execute (at.put (record (at.get w1) { locked = true }) w1) w' err
          (rw same returns) in
      (v, run ∙ e, left ∙ ended_closed err w w' alone)
