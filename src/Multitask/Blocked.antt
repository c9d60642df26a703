-- ===== src/Multitask/Blocked.antt =====
-- A task that blocks: another one gets the processor, and one task fewer is ready or runs.
use james_os.Prelude.{
  Option, ℕ, sym, none, if◌then◌else◌, ◌+◌, ◌≡◌, ◌≢◌, refl, ◌∙◌, ap, false, some, ◌==◌, ==→ne,
  arith, Bool-cases, inl, inr, u32, minus_one,
}
use mathlib.Core.Option
use mathlib.Core.Path.{subst}
use mathlib.Core.Option.{some-injective, none-ne-some}
use james_os.Multitask.{
  update_task, Tcb, ready_to_run, TaskState, System, is_ready, is_running, with_state,
  update_current, scheduler, dispatcher, lock_irq, unlock_irq, block_task,
}
use james_os.Multitask.Tasks.{update-demote, passes, passes-update, total-le}
use james_os.Multitask.Dispatch.{Schedulable, demoted, demoted-Below, scheduler-Dispatched}
use james_os.Multitask.Schedule.{round_from-passes}
use james_os.Multitask.Inv.{Inv, leave}

-- A task that neither runs nor is ready does not keep the processor.
pub scheduler-leaves :
    (s s' : System)
    → Schedulable s
    → s.current_task ≢ 0
    → passes is_running s.current_task s.tasks ≡ 0
    → passes is_ready s.current_task s.tasks ≡ 0
    → scheduler s ≡ some s'
    → s'.current_task ≢ s.current_task
scheduler-leaves s s' h task no_run no_ready e = elim (Bool-cases (s.ready_to_run_counter == 0)) [
  | inl zero' ↦
      let idle' : scheduler s ≡ some (dispatcher 0 s) = unfold scheduler in rw zero' refl in
      let same : dispatcher 0 s ≡ s' = some-injective (dispatcher 0 s) s' (sym idle' ∙ e) in
      let to_idle : (dispatcher 0 s).current_task ≡ 0 = unfold dispatcher in refl in
      λ back. task (sym back ∙ sym (ap (λ (x : System). x.current_task) same) ∙ to_idle)
  | inr ready' ↦
      let (s'', made, d) = scheduler-Dispatched s h (==→ne _ _ ready') in
      let same : s'' ≡ s' = some-injective s'' s' (sym made ∙ e) in
      let picked =
        round_from-passes s.current_task (demoted s) s.last_pid s''.current_task (demoted-Below s h)
          d.first in
      let stays : passes is_ready s.current_task (demoted s) ≡ 0 =
        unfold demoted in
        (rw (task_given, update-demote s.current_task s.tasks, no_run) no_ready) in
      λ back.
        let at : s''.current_task ≡ s.current_task =
          ap (λ (x : System). x.current_task) same ∙ back in
        absurd (omega (arith, stays, picked, ap (λ (c : ℕ). passes is_ready c (demoted s)) at))
]
  where
    task_given : (s.current_task == 0) ≡ false
    task_given = ground (arith, task)

-- The scheduler does not change the number of tasks that are ready or run.
counter_of : ℕ → Option System → ℕ
counter_of n none = n
counter_of n (some s) = s.ready_to_run_counter

counter_of-map :
    (n : ℕ) (f : ℕ → System) (o : Option ℕ)
    → ((p : ℕ) → (f p).ready_to_run_counter ≡ n)
    → counter_of n (Option.map f o) ≡ n
unfolding counter_of
counter_of-map n f none same = refl
counter_of-map n f (some p) same = same p

update_current-counter :
    (f : Tcb → Tcb) (s : System)
    → (update_current f s).ready_to_run_counter ≡ s.ready_to_run_counter
unfolding update_current
update_current-counter f s = elim (Bool-cases (s.current_task == 0)) [
  | inl idle' ↦ rw idle' refl
  | inr task ↦ rw task refl
]

scheduler-counter :
    (s : System) → counter_of s.ready_to_run_counter (scheduler s) ≡ s.ready_to_run_counter
unfolding counter_of scheduler dispatcher
scheduler-counter s = elim (Bool-cases (s.ready_to_run_counter == 0)) [
  | inl idle' ↦ rw idle' refl
  | inr more ↦ rw more (
      counter_of-map s.ready_to_run_counter _ _ (λ p.
        update_current-counter (λ t. if is_running t.state then with_state ready_to_run t else t)
          s))
]

counter_of-unlocked :
    (n : ℕ) (o : Option System) → counter_of n (Option.map unlock_irq o) ≡ counter_of n o
unfolding counter_of unlock_irq
counter_of-unlocked n none = refl
counter_of-unlocked n (some s) = refl

-- A task that takes the lock and blocks is one task fewer that is ready or runs.
pub lock_block_task-counter :
    (s s' : System) (reason : TaskState)
    → Inv s
    → s.current_task ≢ 0
    → block_task reason false (lock_irq s) ≡ some s'
    → s'.ready_to_run_counter + 1 ≡ s.ready_to_run_counter
unfolding block_task lock_irq counter_of
lock_block_task-counter s s' reason h task e =
    let b : System = record (lock_irq s) {
      ready_to_run_counter = u32 (s.ready_to_run_counter + minus_one);
    } in
    let left = update_current (with_state reason) b in
    let n = left.ready_to_run_counter in
    let same : s'.ready_to_run_counter ≡ n =
      sym (ap (counter_of n) e) ∙ counter_of-unlocked n (scheduler left) ∙ scheduler-counter left in
    let n_value : n ≡ u32 (s.ready_to_run_counter + minus_one) =
      update_current-counter (with_state reason) b in
    let most = total-le s.last_pid s.tasks h.schedulable.chain in
    let runs : passes is_running s.current_task s.tasks ≡ 1 = ground (arith, h.settled, task) in
    omega (
      arith, same, n_value, most, runs, h.schedulable.counted, h.schedulable.one,
      h.schedulable.width,
    )

-- A task that takes the lock and blocks gives up the processor.
pub lock_block_task-leaves :
    (s s' : System) (reason : TaskState)
    → Inv s
    → s.current_task ≢ 0
    → is_ready reason ≡ false
    → is_running reason ≡ false
    → block_task reason false (lock_irq s) ≡ some s'
    → s'.current_task ≢ s.current_task
unfolding block_task lock_irq unlock_irq
lock_block_task-leaves s s' reason h task nr nu e =
    let c = s.current_task in
    let b : System = record (lock_irq s) {
      ready_to_run_counter = u32 (s.ready_to_run_counter + minus_one);
    } in
    let left : System = record b { tasks = update_task c (with_state reason) s.tasks } in
    let other : (c == 0) ≡ false = ground (arith, task) in
    let changed : update_current (with_state reason) b ≡ left =
      unfold update_current in rw other refl in
    let ready : Schedulable left = subst Schedulable changed (leave s reason h task nr nu) in
    let not_running : passes is_running c left.tasks ≡ 0 =
      ground (arith, passes-update is_running c c reason s.tasks, nu) in
    let not_ready : passes is_ready c left.tasks ≡ 0 =
      ground (arith, passes-update is_ready c c reason s.tasks, nr) in
    unlocked_leaves (scheduler left)
      (ap (λ (x : System). Option.map unlock_irq (scheduler x)) (sym changed) ∙ e)
      (λ r er. scheduler-leaves left r ready task not_running not_ready er)
  where
    unlocked_leaves :
        (o : Option System)
        → Option.map unlock_irq o ≡ some s'
        → ((r : System) → o ≡ some r → r.current_task ≢ s.current_task)
        → s'.current_task ≢ s.current_task
    unlocked_leaves none e' left = absurd (none-ne-some s' e')
    unlocked_leaves (some r) e' left = λ back.
        left r refl
          (ap (λ (x : System). x.current_task) (some-injective (unlock_irq r) s' e') ∙ back)
