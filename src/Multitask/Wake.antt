-- ===== src/Multitask/Wake.antt =====
-- Waking a task keeps the invariant of the scheduler.
use james_os.Prelude.{
  ◌∷◌, [], ℕ, ◌+◌, ◌^◌, ◌<◌, ◌≡◌, ◌≢◌, refl, sym, ◌∙◌, ap, List, Bool, true, false, some, ◌==◌,
  ==→eq, ◌||◌, arith, Bool-cases, inl, inr, u32,
}
use mathlib.Core.Path.{subst}
use mathlib.Core.Option
use mathlib.Core.Option.{some-injective, none-ne-some}
use james_os.Multitask.{
  ready_to_run, running, Tcb, System, is_ready, is_running, with_state, search_task, update_task,
  update_current, dispatcher, lock_irq, unlock_irq, unblock_task, soft_unblock_task,
}
use james_os.Multitask.Tasks.{
  Below, total, has, passes, passes-has, passes-le, Below-update, has-update, total-update,
  passes-update, passes_exclusive, total-le, passes-zero, search_task-passes,
}
use james_os.Multitask.Inv.{Inv}

-- Task `p` is made the running one, in a chain in which no task runs.
raise :
    (s : System) (p : ℕ) (ts : List Tcb) (i : Tcb) (k : ℕ) (on : Bool)
    → Below s.last_pid ts
    → s.last_pid < 2 ^ 32
    → total is_running ts ≡ 0
    → total is_ready ts ≡ s.ready_to_run_counter
    → has p ts ≡ true
    → passes is_ready p ts ≡ 0
    → k ≡ 0
    → Inv (record s {
      idle_task = i;
      tasks = update_task p (with_state running) ts;
      current_task = p;
      ready_to_run_counter = u32 (s.ready_to_run_counter + 1);
      lock_irq_counter = k;
      irq_enabled = on;
    })
raise s p ts i k on chain width none_runs all_ready there not_ready free =
    let ready_after = total-update is_ready p running ts in
    let running_after = total-update is_running p running ts in
    let le = passes-le is_running p ts in
    let runs' = passes-update is_running p p running ts in
    let chain' = Below-update p (with_state running) ts s.last_pid (λ t. refl) chain in
    let bound = total-le s.last_pid _ chain' in
    let one_runs : total is_running (update_task p (with_state running) ts) ≡ 1 =
      ground (arith, running_after, there, le, none_runs) in
    let same_ready : total is_ready (update_task p (with_state running) ts)
        ≡ s.ready_to_run_counter =
      ground (arith, ready_after, there, not_ready, all_ready) in
    let runs : passes is_running p (update_task p (with_state running) ts) ≡ 1 =
      ground (arith, runs', there) in
    record {
      schedulable = record {
        chain = chain';
        width = width;
        known = inr (passes-has is_running p _ runs);
        counted = omega (arith, bound, one_runs, same_ready, width);
        one = one_runs ∙ sym runs;
      };
      settled = inr runs;
      unlocked = free;
    }

-- Waking a task that is in the chain and neither ready nor running never faults, and the invariant
-- of the scheduler holds again when the woken task goes on.
pub unblock_task-Inv :
    (s : System) (p : ℕ) (t : Tcb)
    → Inv s
    → search_task p s.tasks ≡ some t
    → is_ready t.state ≡ false
    → is_running t.state ≡ false
    → (s' : System) × (unblock_task p s ≡ some s') × Inv s'
unfolding unblock_task update_current lock_irq unlock_irq dispatcher
unblock_task-Inv s p t h found nr nu =
    let (there, ready_before) = search_task-passes is_ready p s.tasks t found in
    let (_, running_before) = search_task-passes is_running p s.tasks t found in
    elim (Bool-cases (s.current_task == 0)) [
      | inl idle' ↦ (
        _,
        ap (Option.map _) found,
        rw idle' (
            let c = ==→eq _ _ idle' in
            let none_runs : total is_running s.tasks ≡ 0 =
              h.schedulable.one
              ∙ ap (λ q. passes is_running q s.tasks) c
              ∙ passes-zero _ _ h.schedulable.chain in
            raise s p s.tasks _ _ _ h.schedulable.chain h.schedulable.width none_runs
              (omega (arith, h.schedulable.counted, none_runs)) there
              (ground (arith, ready_before, nr)) (omega (arith, h.unlocked))),
      )
      | inr task ↦ (
        _,
        ap (Option.map _) found,
        rw task (
            let c = s.current_task in
            let was : passes is_running c s.tasks ≡ 1 = ground (arith, h.settled, task) in
            let ne : c ≢ p = λ e.
              absurd (
                ground (arith, ap (λ q. passes is_running q s.tasks) e, was, running_before, nu)) in
            let after = total-update is_running c ready_to_run s.tasks in
            let after' = total-update is_ready c ready_to_run s.tasks in
            let apart = passes_exclusive c s.tasks in
            let here = passes-has is_running c s.tasks was in
            raise s p (update_task c (with_state ready_to_run) s.tasks) _ _ _
              (Below-update c (with_state ready_to_run) s.tasks s.last_pid (λ t. refl)
                h.schedulable.chain)
              h.schedulable.width (ground (arith, after, was, here, h.schedulable.one))
              (ground (arith, after', was, here, apart, h.schedulable.one, h.schedulable.counted))
              (has-update c p (with_state ready_to_run) s.tasks (λ t. refl) ∙ there)
              (ground
                (arith, passes-update is_ready c p ready_to_run s.tasks, ne, ready_before, nr))
              (omega (arith, h.unlocked))),
      )
    ]

-- Task `p`, which is neither ready nor running, becomes ready.
readied :
    (s : System) (p : ℕ)
    → Inv s
    → has p s.tasks ≡ true
    → passes is_ready p s.tasks ≡ 0
    → passes is_running p s.tasks ≡ 0
    → Inv (record s {
      ready_to_run_counter = u32 (s.ready_to_run_counter + 1);
      tasks = update_task p (with_state ready_to_run) s.tasks;
    })
readied s p h there not_ready not_running =
    let c = s.current_task in
    let ts' = update_task p (with_state ready_to_run) s.tasks in
    let chain' =
      Below-update p (with_state ready_to_run) s.tasks s.last_pid (λ t. refl) h.schedulable.chain in
    let bound = total-le s.last_pid _ chain' in
    let more : total is_ready ts' ≡ total is_ready s.tasks + 1 =
      ground (arith, total-update is_ready p ready_to_run s.tasks, there, not_ready) in
    let same : total is_running ts' ≡ total is_running s.tasks =
      ground (arith, total-update is_running p ready_to_run s.tasks, there, not_running) in
    let runs : passes is_running c ts' ≡ passes is_running c s.tasks =
      passes-update is_running p c ready_to_run s.tasks ∙ elim (Bool-cases (p == c)) [
        | inl one ↦ rw one (
            let zero' = sym not_running ∙ ap (λ q. passes is_running q s.tasks) (==→eq p c one) in
            ground (arith, zero'))
        | inr two ↦ rw two refl
      ] in
    record {
      schedulable = record {
        chain = chain';
        width = h.schedulable.width;
        known = elim h.schedulable.known [
          | inl idle' ↦ inl idle'
          | inr inside ↦ inr (has-update p c (with_state ready_to_run) s.tasks (λ t. refl) ∙ inside)
        ];
        counted = omega (arith, bound, more, same, h.schedulable.counted, h.schedulable.width);
        one = same ∙ h.schedulable.one ∙ sym runs;
      };
      settled = elim h.settled [ inl idle' ↦ inl idle' | inr was ↦ inr (runs ∙ was) ];
      unlocked = h.unlocked;
    }

pub soft_unblock_task-Inv :
    (s : System) (p : ℕ) (t : Tcb)
    → Inv s
    → search_task p s.tasks ≡ some t
    → (s' : System) × (soft_unblock_task p s ≡ some s') × Inv s'
unfolding soft_unblock_task
soft_unblock_task-Inv s p t h found = elim (Bool-cases (is_ready t.state || is_running t.state)) [
  | inl runnable ↦ (s, rw (found, runnable) refl, h)
  | inr asleep ↦ (
    record s {
      ready_to_run_counter = u32 (s.ready_to_run_counter + 1);
      tasks = update_task p (with_state ready_to_run) s.tasks;
    },
    rw (found, asleep) refl,
    readied s p h (search_task-passes is_ready p s.tasks t found).0
        (ground (arith, (search_task-passes is_ready p s.tasks t found).1, asleep))
        (ground (arith, (search_task-passes is_running p s.tasks t found).1, asleep)),
  )
]

-- A task that is ready or runs.
pub CanRun : ℕ → System → Type 0
CanRun p s =
    (t : Tcb) × (search_task p s.tasks ≡ some t) × ((is_ready t.state || is_running t.state) ≡ true)

search_task-updated :
    (p : ℕ) (ts : List Tcb) (t : Tcb)
    → search_task p ts ≡ some t
    → search_task p (update_task p (with_state ready_to_run) ts) ≡ some (with_state ready_to_run t)
unfolding search_task update_task
search_task-updated p [] t e = absurd (none-ne-some t e)
search_task-updated p (u ∷ ts) t e = elim (Bool-cases (u.pid == p)) [
  | inl here ↦ rw (here, here) (ap (Option.map (with_state ready_to_run)) (rw here at e))
  | inr other ↦ rw (other, other) (search_task-updated p ts t (rw other at e))
]

pub soft_unblock_task-CanRun :
    (s s' : System) (p : ℕ) (t : Tcb)
    → search_task p s.tasks ≡ some t
    → soft_unblock_task p s ≡ some s'
    → CanRun p s'
unfolding soft_unblock_task CanRun
soft_unblock_task-CanRun s s' p t found woken =
    elim (Bool-cases (is_ready t.state || is_running t.state)) [
      | inl runnable ↦
          let same : s ≡ s' = some-injective s s' (rw (found, runnable) at woken) in
          subst (λ (x : System). CanRun p x) same (t, found, runnable)
      | inr asleep ↦
          subst (λ (x : System). CanRun p x) (some-injective _ s' (rw (found, asleep) at woken))
            (with_state ready_to_run t, search_task-updated p s.tasks t found, refl)
    ]
