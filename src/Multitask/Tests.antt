-- ===== src/Multitask/Tests.antt =====
-- Runs of the scheduler, and its theorems on the system that `multitask_init` leaves.
use james_os.Prelude.{ℕ, ◌≡◌, refl, arith, Option, some, none, List, ◌∷◌, []}
use mathlib.Core.Option
use james_os.Multitask.{
  System, multitask_init, boot, create_task, new_task, scheduler, search_loop, next_task,
  next_of_current, update_task, update_current, dispatcher, lock_irq, unlock_irq, block_task,
  sleep_until, sleep, preempt,
}
use james_os.Multitask.Dispatch.{Dispatched, scheduler-Dispatched}
use james_os.Multitask.Inv.{Inv}
use james_os.Multitask.Change.{multitask_init-Inv}
use james_os.Multitask.Steps.{Step, sleeps, initial, next, Reachable-Inv}

abbrev start : System
start = multitask_init boot

-- The first task gives way to the terminator, and gets the processor back.
abbrev switched : Option System
switched = Option.bind (preempt start) preempt

current_of : Option System → List ℕ
current_of none = []
current_of (some s) = s.current_task ∷ s.ready_to_run_counter ∷ []

takes_turns : (current_of (preempt start) ≡ 2 ∷ 2 ∷ []) × (current_of switched ≡ 1 ∷ 2 ∷ [])
unfolding current_of multitask_init create_task new_task preempt scheduler search_loop next_task
    next_of_current update_task update_current dispatcher lock_irq unlock_irq Option.bind
takes_turns = (refl, refl)

-- When both sleep, the idle task gets the processor.
both_asleep : current_of (Option.bind (sleep 5 start) (sleep 5)) ≡ 0 ∷ 0 ∷ []
unfolding current_of multitask_init create_task new_task sleep sleep_until block_task scheduler
    search_loop next_task next_of_current update_task update_current dispatcher lock_irq unlock_irq
    Option.bind
both_asleep = refl

scheduler-Dispatched_example : (s' : System) × (scheduler start ≡ some s') × Dispatched start s'
unfolding multitask_init create_task
scheduler-Dispatched_example =
    scheduler-Dispatched start multitask_init-Inv.schedulable (λ e. absurd (omega (arith, e)))

abbrev slept : System
slept = elim (sleep 5 start) [ none ↦ start | some s ↦ s ]

slept_steps : Step start slept
unfolding multitask_init create_task new_task sleep sleep_until block_task scheduler search_loop
    next_task next_of_current update_task update_current dispatcher lock_irq unlock_irq
slept_steps = sleeps 5 (λ e. absurd (omega (arith, e))) refl

Reachable-Inv_example : Inv slept
Reachable-Inv_example = Reachable-Inv (next initial slept_steps)
