-- ===== src/Multitask/Change.antt =====
-- Putting a task to sleep, and creating and removing tasks, keep the invariant of the scheduler.
use james_os.Prelude.{
  ℕ, ◌+◌, ◌-◌, ◌^◌, ◌≤◌, ◌<◌, ◌≡◌, ◌≢◌, ◌⊎◌, refl, sym, ◌∙◌, ap, List, ◌∷◌, Bool, false, some, ◌==◌,
  if◌then◌else◌, arith, Bool-cases, inl, inr, u32, ltb,
}
use james_os.Multitask.{
  TaskState, sleeping, idle, Tcb, System, is_ready, is_running, update_task, update_current,
  lock_irq, unlock_irq, sleep_until, sleep, task_terminator, remove_terminated, create_task,
  new_task, multitask_init, boot,
}
use james_os.Multitask.Tasks.{
  total, has, passes, has-le, passes-has, Below-le, Below-update, total-le, passes-zero,
  update-counts, remove-Below, remove-counts, remove-passes,
}
use james_os.Multitask.Inv.{Inv, block_task-Inv}

pub sleep_until-Inv :
    (s : System) (ticks : ℕ)
    → Inv s
    → s.current_task ≢ 0
    → (s' : System) × (sleep_until ticks s ≡ some s') × Inv s'
unfolding sleep_until update_current
sleep_until-Inv s ticks h task = elim (Bool-cases (ltb ticks s.tick)) [
  | inl past ↦ (s, rw past refl, h)
  | inr later ↦
      let other : (s.current_task == 0) ≡ false = ground (arith, task) in
      rw (later, other) (block_task-Inv _ sleeping marked task refl refl)
]
  where
    f : Tcb → Tcb
    f t = record t { sleep_until = ticks }

    same :
        (test : TaskState → Bool)
        → (total test (update_task s.current_task f s.tasks) ≡ total test s.tasks)
          × (passes test s.current_task (update_task s.current_task f s.tasks)
              ≡ passes test s.current_task s.tasks)
    same test = update-counts test s.current_task s.current_task f s.tasks (λ t. refl) (λ t. refl)

    was : passes is_running s.current_task (update_task s.current_task f s.tasks) ≡ 1
    was = ground (arith, (same is_running).1, h.settled, task)

    marked : Inv (record s { tasks = update_task s.current_task f s.tasks })
    marked = record {
      schedulable = record {
        chain = Below-update s.current_task f s.tasks s.last_pid (λ t. refl) h.schedulable.chain;
        width = h.schedulable.width;
        known = inr (passes-has is_running _ _ was);
        counted = omega (arith, h.schedulable.counted, (same is_ready).0, (same is_running).0);
        one = omega (arith, h.schedulable.one, (same is_running).0, (same is_running).1);
      };
      settled = inr was;
      unlocked = h.unlocked;
    }

-- A new task at the head of the chain.
add :
    (s : System) (t : Tcb)
    → Inv s
    → t.pid ≡ s.last_pid + 1
    → is_running t.state ≡ false
    → s.last_pid + 1 < 2 ^ 32
    → Inv (record s {
      tasks = t ∷ s.tasks;
      last_pid = u32 (s.last_pid + 1);
      ready_to_run_counter =
          if is_ready t.state then u32 (s.ready_to_run_counter + 1) else s.ready_to_run_counter;
    })
unfolding total has passes
add s t h pid nu room =
    let bound = total-le s.last_pid s.tasks h.schedulable.chain in
    let old : (s.current_task ≡ 0) ⊎ (s.current_task ≤ s.last_pid) = elim h.schedulable.known [
      | inl idle' ↦ inl idle'
      | inr there ↦ inr (has-le s.current_task s.last_pid s.tasks h.schedulable.chain there).1
    ] in
    record {
      schedulable = record {
        chain = (
          omega (arith, pid),
          omega (arith, pid),
          Below-le s.tasks s.last_pid (t.pid - 1) (omega (arith, pid)) h.schedulable.chain,
        );
        width = omega (arith, room);
        known = ground (arith, h.schedulable.known);
        counted = ground (arith, h.schedulable.counted, bound, nu, room);
        one = ground (arith, h.schedulable.one, nu, old, pid, passes-zero _ _ h.schedulable.chain);
      };
      settled = ground (arith, h.settled, old, pid);
      unlocked = h.unlocked;
    }

pub create_task-Inv :
    (s : System) (pname : List ℕ) (state : TaskState)
    → Inv s
    → is_running state ≡ false
    → s.last_pid + 1 < 2 ^ 32
    → Inv (create_task pname state s)
unfolding create_task new_task
create_task-Inv s pname idle h nu room = record {
  schedulable = record {
    chain = h.schedulable.chain;
    width = h.schedulable.width;
    known = h.schedulable.known;
    counted = h.schedulable.counted;
    one = h.schedulable.one;
  };
  settled = h.settled;
  unlocked = h.unlocked;
}
create_task-Inv s pname state h nu room = add s _ h (omega (arith, room)) nu room

removed :
    (s : System)
    → Inv s
    → (k : ℕ) (on : Bool) → k ≡ 0
    → Inv
        (record s { tasks = (remove_terminated s.tasks).0; lock_irq_counter = k; irq_enabled = on })
removed s h k on free =
    let (ready_same, running_same) = remove-counts s.tasks in
    let chain = h.schedulable.chain in
    let runs : (s.current_task ≡ 0)
        ⊎ (passes is_running s.current_task (remove_terminated s.tasks).0 ≡ 1) =
      elim h.settled [
        | inl idle' ↦ inl idle'
        | inr was ↦ inr (remove-passes s.tasks s.last_pid s.current_task chain was)
      ] in
    record {
      schedulable = record {
        chain = remove-Below s.tasks s.last_pid chain;
        width = h.schedulable.width;
        known = elim runs [ inl idle' ↦ inl idle' | inr now ↦ inr (passes-has is_running _ _ now) ];
        counted = omega (arith, h.schedulable.counted, ready_same, running_same);
        one = elim h.settled [
          | inl idle' ↦
              let before = passes-zero s.last_pid s.tasks chain in
              let after = passes-zero s.last_pid _ (remove-Below s.tasks s.last_pid chain) in
              let at_zero = λ (ts : List Tcb). ap (λ q. passes is_running q ts) idle' in
              running_same ∙ h.schedulable.one ∙ at_zero _ ∙ before ∙ sym after ∙ sym (at_zero _)
          | inr was ↦
              running_same
              ∙ h.schedulable.one
              ∙ was
              ∙ sym (remove-passes s.tasks s.last_pid s.current_task chain was)
        ];
      };
      settled = runs;
      unlocked = free;
    }

-- A round of the terminator, run by a task, never faults: it takes a terminated task out of the
-- chain or goes to sleep, and the invariant of the scheduler holds afterwards.
pub task_terminator-Inv :
    (s : System)
    → Inv s
    → s.current_task ≢ 0
    → (s' : System) × (task_terminator s ≡ some s') × Inv s'
unfolding task_terminator sleep lock_irq unlock_irq
task_terminator-Inv s h task = elim (Bool-cases (remove_terminated s.tasks).1) [
  | inl found ↦ (
    unlock_irq (record (lock_irq s) { tasks = (remove_terminated s.tasks).0 }),
    rw found refl,
    removed s h _ _ (omega (arith, h.unlocked)),
  )
  | inr nothing ↦
      rw nothing (sleep_until-Inv _ _ (removed s h _ _ (omega (arith, h.unlocked))) task)
]

pub multitask_init-Inv : Inv (multitask_init boot)
unfolding multitask_init create_task new_task total has passes
multitask_init-Inv = record {
  schedulable = record {
    chain = (omega arith, omega arith, (omega arith, omega arith, tt));
    width = omega arith;
    known = inr refl;
    counted = refl;
    one = refl;
  };
  settled = inr refl;
  unlocked = refl;
}
