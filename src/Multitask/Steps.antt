-- ===== src/Multitask/Steps.antt =====
-- The scheduler as a transition system: the calls that the tasks and the timer make, and that
-- every state they lead to has the invariant. A suspended `pit_callback` that goes on takes the
-- steps `wakes` and `preempts`.
use james_os.Prelude.{
  ℕ, ◌+◌, ◌-◌, ◌^◌, ◌<◌, ◌≡◌, ◌≢◌, refl, List, [], ◌∷◌, Bool, true, false, Option, some,
  if◌then◌else◌, ◌&&◌, ◌||◌, arith, Bool-cases, inl, inr, u32, ltb,
}
use mathlib.Core.Option
use mathlib.Core.Path.{subst}
use james_os.Multitask.{
  TaskState, Tcb, System, is_ready, is_running, search_task, block_task, unblock_task,
  soft_unblock_task, sleep, task_entry, task_termination, task_terminator, preempt, create_task,
  multitask_init, boot, is_sleeping, Tick, wake, checked, pit_loop, after_loop, pit_callback,
}
use james_os.Multitask.Tasks.{
  Below, passes, has-le, passes-has, search_task-passes, search_task-has,
}
use james_os.Multitask.Inv.{Inv, block_task-Inv, task_termination-Inv, preempt-Inv}
use james_os.Multitask.Wake.{unblock_task-Inv, soft_unblock_task-Inv}
use james_os.Multitask.Change.{
  sleep_until-Inv, create_task-Inv, task_terminator-Inv, multitask_init-Inv,
}

pub data Step : System → System → Type 0 where
  creates :
      {s : System} (pname : List ℕ) (state : TaskState)
      → is_running state ≡ false
      → s.last_pid + 1 < 2 ^ 32
      → Step s (create_task pname state s)
  blocks :
      {s s' : System} (reason : TaskState)
      → s.current_task ≢ 0
      → is_ready reason ≡ false
      → is_running reason ≡ false
      → block_task reason true s ≡ some s'
      → Step s s'
  sleeps :
      {s s' : System} (seconds : ℕ) → s.current_task ≢ 0 → sleep seconds s ≡ some s' → Step s s'
  terminates :
      {s s' : System}
      → s.current_task ≢ 0
      → Option.map task_entry (task_termination s) ≡ some s'
      → Step s s'
  removes : {s s' : System} → s.current_task ≢ 0 → task_terminator s ≡ some s' → Step s s'
  softly_unblocks :
      {s s' : System} (p : ℕ) (t : Tcb)
      → search_task p s.tasks ≡ some t
      → soft_unblock_task p s ≡ some s'
      → Step s s'
  ticks : {s s' : System} → pit_callback s ≡ some s' → Step s s'
  wakes :
      {s s' : System} (p : ℕ) (t : Tcb)
      → search_task p s.tasks ≡ some t
      → is_sleeping t.state ≡ true
      → unblock_task p s ≡ some s'
      → Step s s'
  preempts : {s s' : System} → preempt s ≡ some s' → Step s s'

-- From the state that `multitask_init` leaves.
pub data Reachable : System → Type 0 where
  initial : Reachable (multitask_init boot)
  next : {s s' : System} → Reachable s → Step s s' → Reachable s'

asleep-not_ready :
    (s : TaskState) → is_sleeping s ≡ true → (is_ready s ≡ false) × (is_running s ≡ false)
asleep-not_ready s e = ground arith

-- A task that the timer wakes is asleep.
pit_loop-passes :
    (tick : ℕ) (flag : Bool) (ts : List Tcb) (n p : ℕ)
    → Below n ts
    → pit_loop tick flag ts ≡ wake p
    → passes is_sleeping p ts ≡ 1
unfolding pit_loop passes
pit_loop-passes tick flag [] n p b e = ground (arith, e)
pit_loop-passes tick flag (t ∷ ts) n p b e =
    elim (Bool-cases (is_sleeping t.state && ltb t.sleep_until tick)) [
      | inl due ↦ ground (arith, due, e)
      | inr other ↦
          let ih =
            pit_loop-passes tick (flag || is_ready t.state) ts (t.pid - 1) p b.2 (rw other at e) in
          ground (arith, ih, has-le p (t.pid - 1) ts b.2 (passes-has is_sleeping p ts ih))
    ]

pub wake-Inv :
    (s : System) (p : ℕ) (t : Tcb)
    → Inv s
    → search_task p s.tasks ≡ some t
    → is_sleeping t.state ≡ true
    → (s' : System) × (unblock_task p s ≡ some s') × Inv s'
wake-Inv s p t h found asleep =
    let (nr, nu) = asleep-not_ready t.state asleep in unblock_task-Inv s p t h found nr nu

-- Where the invariant of the scheduler holds, the timer's interrupt never faults, up to the first
-- switch: it wakes the first task whose time has passed, lets the scheduler choose a task, or
-- leaves the processor where it is, and the invariant holds afterwards.
pub pit_callback-Inv : (s : System) → Inv s → (s' : System) × (pit_callback s ≡ some s') × Inv s'
unfolding pit_callback after_loop
pit_callback-Inv s h = choose s.multitasking_on
  where
    s1 : System
    s1 = record s { tick = u32 (s.tick + 1) }

    ticked : Inv s1
    ticked = record {
      schedulable = record {
        chain = h.schedulable.chain;
        width = h.schedulable.width;
        known = h.schedulable.known;
        counted = h.schedulable.counted;
        one = h.schedulable.one;
      };
      settled = h.settled;
      unlocked = h.unlocked;
    }

    go :
        (r : Tick)
        → pit_loop (u32 (s.tick + 1)) false s.tasks ≡ r
        → (s' : System) × (after_loop r s1 ≡ some s') × Inv s'
    go (wake p) e =
        let asleep = pit_loop-passes _ false s.tasks s.last_pid p h.schedulable.chain e in
        let (t, found) = search_task-has p s.tasks (passes-has is_sleeping p s.tasks asleep) in
        let (_, state) = search_task-passes is_sleeping p s.tasks t found in
        wake-Inv s1 p t ticked found (ground (arith, state, asleep))
    go (checked true) e = preempt-Inv s1 ticked
    go (checked false) e = (s1, refl, ticked)

    choose :
        (on : Bool)
        → (s' : System) × ((if on
              then after_loop (pit_loop (u32 (s.tick + 1)) false s.tasks) s1
              else some s1)
            ≡ some s')
          × Inv s'
    choose true = go (pit_loop (u32 (s.tick + 1)) false s.tasks) refl
    choose false = (s1, refl, ticked)

result-Inv :
    {r : Option System} {s' : System}
    → (s1 : System) × (r ≡ some s1) × Inv s1
    → r ≡ some s'
    → Inv s'
result-Inv {s'} (s1, e, h) e' = let same : s1 ≡ s' = cc in subst Inv same h

Step-Inv : {s s' : System} → Inv s → Step s s' → Inv s'
unfolding sleep
Step-Inv h (creates pname state nu room) = create_task-Inv _ pname state h nu room
Step-Inv h (blocks reason task nr nu e) = result-Inv (block_task-Inv _ reason h task nr nu) e
Step-Inv h (sleeps seconds task e) = result-Inv (sleep_until-Inv _ _ h task) e
Step-Inv h (terminates task e) = result-Inv (task_termination-Inv _ h task) e
Step-Inv h (removes task e) = result-Inv (task_terminator-Inv _ h task) e
Step-Inv h (softly_unblocks p t found e) = result-Inv (soft_unblock_task-Inv _ p t h found) e
Step-Inv h (ticks e) = result-Inv (pit_callback-Inv _ h) e
Step-Inv h (wakes p t found asleep e) = result-Inv (wake-Inv _ p t h found asleep) e
Step-Inv h (preempts e) = result-Inv (preempt-Inv _ h) e

-- In every state that the calls of the tasks and of the timer lead to from `multitask_init` on,
-- with fewer than 2^32 tasks created: the pids in the chain are distinct, the counter of ready
-- tasks is the number of the ready and the running ones, the current task is the only running one
-- or the idle task has the processor and no task runs, and interrupts are not locked.
pub Reachable-Inv : {s : System} → Reachable s → Inv s
Reachable-Inv initial = multitask_init-Inv
Reachable-Inv (next r st) = Step-Inv (Reachable-Inv r) st
