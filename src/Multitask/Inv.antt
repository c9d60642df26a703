-- ===== src/Multitask/Inv.antt =====
-- The state of the scheduler between two operations, and that every operation keeps it.
use james_os.Prelude.{
  ◌+◌, ◌≡◌, ◌≢◌, ◌⊎◌, refl, ◌∙◌, ap, true, false, some, ◌==◌, ==→eq, ==→ne, arith, Bool-cases, inl,
  inr, u32, minus_one,
}
use mathlib.Core.Option
use james_os.Multitask.{
  TaskState, terminated, System, is_ready, is_running, with_state, update_current, scheduler,
  dispatcher, lock_irq, unlock_irq, block_task, task_entry, task_termination, preempt,
}
use james_os.Multitask.Tasks.{
  passes, passes-has, passes-le, Below-update, has-update, total-update, passes-update,
  passes_exclusive, total-le,
}
use james_os.Multitask.Dispatch.{Schedulable, scheduler-Dispatched}

-- Between two operations the current task runs, or it is the idle task, and interrupts are not
-- locked.
pub record Inv (s : System) : Type 0 where
  pub schedulable : Schedulable s
  pub settled : (s.current_task ≡ 0) ⊎ (passes is_running s.current_task s.tasks ≡ 1)
  pub unlocked : s.lock_irq_counter ≡ 0

-- The scheduler is called with interrupts locked once, and what it leaves is settled.
scheduler-settles :
    (s : System)
    → Schedulable s
    → s.lock_irq_counter ≡ 1
    → (s' : System) × (Option.map unlock_irq (scheduler s) ≡ some s') × Inv s'
scheduler-settles s h locked = elim (Bool-cases (s.ready_to_run_counter == 0)) [
  | inl zero' ↦
      let nothing = ==→eq _ _ zero' in
      (
        unlock_irq (dispatcher 0 s),
        unfold scheduler in rw zero' refl,
        unfold unlock_irq dispatcher in
            record {
              schedulable = record {
                chain = h.chain;
                width = h.width;
                known = inl refl;
                counted = h.counted;
                one = omega (arith, h.counted, passes-le is_running 0 s.tasks);
              };
              settled = inl refl;
              unlocked = omega arith;
            },
      )
  | inr ready' ↦
      let (s', e, d) = scheduler-Dispatched s h (==→ne _ _ ready') in
      (
        unlock_irq s',
        ap (Option.map unlock_irq) e,
        unfold unlock_irq in
            record {
              schedulable = record {
                chain = d.schedulable.chain;
                width = d.schedulable.width;
                known = d.schedulable.known;
                counted = d.schedulable.counted;
                one = d.schedulable.one;
              };
              settled = inr d.runs;
              unlocked = omega (arith, d.locks);
            },
      )
]

-- A timer tick that takes the processor from a task.
pub preempt-Inv : (s : System) → Inv s → (s' : System) × (preempt s ≡ some s') × Inv s'
unfolding preempt
preempt-Inv s h =
    scheduler-settles (lock_irq s) locked (unfold lock_irq in omega (arith, h.unlocked))
  where
    locked : Schedulable (lock_irq s)
    locked =
        unfold lock_irq in
        record {
          chain = h.schedulable.chain;
          width = h.schedulable.width;
          known = h.schedulable.known;
          counted = h.schedulable.counted;
          one = h.schedulable.one;
        }

-- The current task takes a state in which it does not run.
pub leave :
    (s : System) (reason : TaskState)
    → Inv s
    → s.current_task ≢ 0
    → is_ready reason ≡ false
    → is_running reason ≡ false
    → Schedulable (
        update_current
          (with_state reason)
          (record (lock_irq s) { ready_to_run_counter = u32 (s.ready_to_run_counter + minus_one) }))
unfolding update_current lock_irq
leave s reason h task nr nu =
    let c = s.current_task in
    let was : passes is_running c s.tasks ≡ 1 = ground (arith, h.settled, task) in
    let there = passes-has is_running c s.tasks was in
    let apart = passes_exclusive c s.tasks in
    let one = h.schedulable.one in
    let counted = h.schedulable.counted in
    let ready_after = total-update is_ready c reason s.tasks in
    let running_after = total-update is_running c reason s.tasks in
    let bound = total-le s.last_pid s.tasks h.schedulable.chain in
    let other : (c == 0) ≡ false = ground (arith, task) in
    rw other (record {
      chain = Below-update c (with_state reason) s.tasks s.last_pid (λ t. refl) h.schedulable.chain;
      width = h.schedulable.width;
      known = inr (has-update c c (with_state reason) s.tasks (λ t. refl) ∙ there);
      counted = ground (
        arith, ready_after, running_after, there, apart, was, one, counted, nr, nu, bound,
        h.schedulable.width,
      );
      one =
          ground (
            arith,
            running_after,
            passes-update is_running c c reason s.tasks,
            there,
            was,
            one,
            nu,
          );
    })

-- A task that blocks itself, for a reason that is neither ready nor running, always gives the
-- processor to another task or to the idle task, and the invariant of the scheduler holds again
-- when that task goes on.
pub block_task-Inv :
    (s : System) (reason : TaskState)
    → Inv s
    → s.current_task ≢ 0
    → is_ready reason ≡ false
    → is_running reason ≡ false
    → (s' : System) × (block_task reason true s ≡ some s') × Inv s'
unfolding block_task lock_irq
block_task-Inv s reason h task nr nu =
    scheduler-settles _ (leave s reason h task nr nu)
      (unfold update_current in ground (arith, h.unlocked, task))

pub task_termination-Inv :
    (s : System)
    → Inv s
    → s.current_task ≢ 0
    → (s' : System) × (Option.map task_entry (task_termination s) ≡ some s') × Inv s'
unfolding task_termination task_entry lock_irq
task_termination-Inv s h task =
    scheduler-settles _ (leave s terminated h task refl refl)
      (unfold update_current in ground (arith, h.unlocked, task))

-- A task may take the lock itself before it blocks.
pub lock_block_task-Inv :
    (s : System) (reason : TaskState)
    → Inv s
    → s.current_task ≢ 0
    → is_ready reason ≡ false
    → is_running reason ≡ false
    → (s' : System) × (block_task reason false (lock_irq s) ≡ some s') × Inv s'
unfolding block_task
lock_block_task-Inv s reason h task nr nu = block_task-Inv s reason h task nr nu

pub lock_unlock-Inv : (s : System) → Inv s → Inv (unlock_irq (lock_irq s))
unfolding lock_irq unlock_irq
lock_unlock-Inv s h = record {
  schedulable = record {
    chain = h.schedulable.chain;
    width = h.schedulable.width;
    known = h.schedulable.known;
    counted = h.schedulable.counted;
    one = h.schedulable.one;
  };
  settled = h.settled;
  unlocked = omega (arith, h.unlocked);
}

pub lock_unlock-tasks : (s : System) → (unlock_irq (lock_irq s)).tasks ≡ s.tasks
unfolding lock_irq unlock_irq
lock_unlock-tasks s = refl
