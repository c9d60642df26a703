-- ===== src/Multitask/Dispatch.antt =====
-- The scheduler: the task it chooses becomes the one that runs.
use james_os.Prelude.{
  ℕ, ◌+◌, ◌^◌, ◌<◌, ◌≡◌, ◌≢◌, ◌⊎◌, refl, sym, ◌∙◌, ap, List, [], true, some, ◌==◌, ==→eq, ==→ne,
  if◌then◌else◌, arith, Bool-cases, inl, inr,
}
use mathlib.Core.Option
use mathlib.Core.Path.{subst}
use james_os.Multitask.{
  ready_to_run, running, Tcb, System, is_ready, is_running, with_state, search_task, update_task,
  update_current, next_of_current, scheduler, dispatcher,
}
use james_os.Multitask.Tasks.{
  Below, total, has, passes, passes-has, Below-update, has-update, total-update, passes-update,
  passes_exclusive, search_task-update, demote, update-demote, passes-zero,
}
use james_os.Multitask.Schedule.{
  first_ready, search_loop-first, round_from, round_from-passes, round_from-total,
}

-- What holds whenever the scheduler is called: the pids fall along the chain, the counter counts
-- the tasks that are ready or running, and no task but the current one is running.
pub record Schedulable (s : System) : Type 0 where
  pub chain : Below s.last_pid s.tasks
  pub width : s.last_pid < 2 ^ 32
  pub known : (s.current_task ≡ 0) ⊎ (has s.current_task s.tasks ≡ true)
  pub counted : s.ready_to_run_counter ≡ total is_ready s.tasks + total is_running s.tasks
  pub one : total is_running s.tasks ≡ passes is_running s.current_task s.tasks

-- The chain after the current task lost the processor.
unfoldable pub demoted : System → List Tcb
demoted s = if s.current_task == 0 then s.tasks else update_task s.current_task demote s.tasks

demote_keeps : (t : Tcb) → (demote t).pid ≡ t.pid
demote_keeps t = ground arith

demote-totals :
    (c : ℕ) (ts : List Tcb)
    → total is_running ts ≡ passes is_running c ts
    → (total is_running (update_task c demote ts) ≡ 0)
      × (total is_ready (update_task c demote ts) ≡ total is_ready ts + total is_running ts)
demote-totals c ts one = rw (update-demote c ts) (elim (Bool-cases (passes is_running c ts == 1)) [
  | inl yes' ↦
      let was = ==→eq _ _ yes' in
      let there = passes-has is_running c ts was in
      rw yes' (
        ground (arith, total-update is_running c ready_to_run ts, was, there),
        ground (arith, total-update is_ready c ready_to_run ts, was, there, passes_exclusive c ts),
      )
  | inr no' ↦
      let was = ==→ne _ _ no' in
      rw no' (omega (arith, passes_exclusive c ts), omega (arith, passes_exclusive c ts))
])

pub demoted-totals :
    (s : System)
    → Schedulable s
    → (total is_running (demoted s) ≡ 0) × (total is_ready (demoted s) ≡ s.ready_to_run_counter)
unfolding demoted
demoted-totals s h = elim (Bool-cases (s.current_task == 0)) [
  | inl idle' ↦
      let none_yet = passes-zero s.last_pid s.tasks h.chain in
      let c = ==→eq _ _ idle' in
      rw idle' (
        omega (arith, h.one, ap (λ q. passes is_running q s.tasks) c, none_yet),
        omega (arith, h.counted, h.one, ap (λ q. passes is_running q s.tasks) c, none_yet),
      )
  | inr task ↦
      let (a, b) = demote-totals s.current_task s.tasks h.one in rw task (a, b ∙ sym h.counted)
]

pub demoted-Below : (s : System) → Schedulable s → Below s.last_pid (demoted s)
unfolding demoted
demoted-Below s h = elim (Bool-cases (s.current_task == 0)) [
  | inl idle' ↦
      subst
        (λ b. Below s.last_pid (if b then s.tasks else update_task s.current_task demote s.tasks))
        (sym idle') h.chain
  | inr task ↦
      subst
        (λ b. Below s.last_pid (if b then s.tasks else update_task s.current_task demote s.tasks))
        (sym task) (Below-update s.current_task demote s.tasks s.last_pid demote_keeps h.chain)
]

-- The scheduler in one equation.
scheduler-demoted :
    (s : System)
    → s.ready_to_run_counter ≢ 0
    → (i : Tcb) × (scheduler s
        ≡ Option.map
            (λ p. record s {
              idle_task = i;
              tasks = update_task p (with_state running) (demoted s);
              current_task = p;
            })
            (first_ready (round_from s.current_task (demoted s))))
unfolding scheduler update_current next_of_current demoted round_from dispatcher
scheduler-demoted s h = elim (Bool-cases (s.ready_to_run_counter == 0)) [
  | inl zero' ↦ absurd (h (==→eq _ _ zero'))
  | inr ready' ↦ elim (Bool-cases (s.current_task == 0)) [
    | inl idle' ↦ (
      demote s.idle_task,
      rw (ready', idle', idle') (ap (Option.map _) (search_loop-first s.tasks [])),
    )
    | inr task ↦ (
      s.idle_task,
      rw (ready', task, task)
          (ap (Option.map _) (search_loop-first (update_task s.current_task demote s.tasks) _)),
    )
  ]
]

-- What the scheduler leaves: `p` is the first ready task after the one that ran, it is the only
-- one that runs, and all tasks but these two are as before.
pub record Dispatched (s : System) (s' : System) : Type 0 where
  pub first : first_ready (round_from s.current_task (demoted s)) ≡ some s'.current_task
  pub runs : passes is_running s'.current_task s'.tasks ≡ 1
  pub alone : total is_running s'.tasks ≡ 1
  pub others :
      (q : ℕ)
      → q ≢ s.current_task
      → q ≢ s'.current_task
      → search_task q s'.tasks ≡ search_task q s.tasks
  pub schedulable : Schedulable s'
  pub locks : s'.lock_irq_counter ≡ s.lock_irq_counter

others_demoted :
    (s : System) (q : ℕ) → q ≢ s.current_task → search_task q (demoted s) ≡ search_task q s.tasks
unfolding demoted
others_demoted s q ne = elim (Bool-cases (s.current_task == 0)) [
  | inl idle' ↦ rw idle' refl
  | inr task ↦
      rw task (search_task-update s.current_task q demote s.tasks demote_keeps (λ e. ne (sym e)))
]

dispatched :
    (s : System) (h : Schedulable s) (p : ℕ) (i : Tcb)
    → first_ready (round_from s.current_task (demoted s)) ≡ some p
    → passes is_ready p (demoted s) ≡ 1
    → total is_running (demoted s) ≡ 0
    → total is_ready (demoted s) ≡ s.ready_to_run_counter
    → Below s.last_pid (demoted s)
    → Dispatched s (record s {
      idle_task = i;
      tasks = update_task p (with_state running) (demoted s);
      current_task = p;
    })
dispatched s h p i e picked none_runs all_ready chain =
    let there = passes-has is_ready p (demoted s) picked in
    let apart = passes_exclusive p (demoted s) in
    let ready_after = total-update is_ready p running (demoted s) in
    let running_after = total-update is_running p running (demoted s) in
    let runs' = passes-update is_running p p running (demoted s) in
    record {
      first = e;
      runs = ground (arith, runs', there);
      alone = ground (arith, running_after, there, apart, picked, none_runs);
      others = λ q nc np.
          search_task-update p q (with_state running) (demoted s) (λ t. refl) (λ e'. np (sym e'))
          ∙ others_demoted s q nc;
      schedulable = record {
        chain = Below-update p (with_state running) (demoted s) s.last_pid (λ t. refl) chain;
        width = h.width;
        known = inr (has-update p p (with_state running) (demoted s) (λ t. refl) ∙ there);
        counted =
            ground (arith, ready_after, running_after, there, apart, picked, none_runs, all_ready);
        one = ground (arith, running_after, runs', there, apart, picked, none_runs);
      };
      locks = refl;
    }

-- Where the pids fall along the chain from the last one given on, the current task is in the chain or
-- is the idle task, the counter counts the ready and the running tasks, no
-- task but the current one is running, and the counter is not 0, the search of `scheduler` ends:
-- the first ready task, in the order of the chain from the task after the current one on and once
-- round, becomes the current task and the only running one, every task but it and the one before
-- keeps its state, and the same holds again.
pub scheduler-Dispatched :
    (s : System)
    → Schedulable s
    → s.ready_to_run_counter ≢ 0
    → (s' : System) × (scheduler s ≡ some s') × Dispatched s s'
scheduler-Dispatched s h some_ready =
    let (none_runs, all_ready) = demoted-totals s h in
    let chain = demoted-Below s h in
    let (p, e) = round_from-total s.current_task (demoted s) (omega (arith, all_ready)) in
    let picked = round_from-passes s.current_task (demoted s) s.last_pid p chain e in
    let (i, result) = scheduler-demoted s some_ready in
    (
      record s {
        idle_task = i;
        tasks = update_task p (with_state running) (demoted s);
        current_task = p;
      },
      result ∙ rw e refl,
      dispatched s h p i e picked none_runs all_ready chain,
    )
