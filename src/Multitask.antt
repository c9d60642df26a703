-- ===== src/Multitask.antt =====
-- src/multitask/multitask.c, with the dispatcher (src/multitask/dispatcher.asm), the loop of
-- src/kernel_tasks/task_terminator.c and the search of src/drivers/pit.c. A task is a record, the
-- chain of `next_task` from `head` on is a list, and a pointer to a task is its `pid`. The idle
-- task has pid 0 and is not in the chain. `none` stands for a read through a null pointer, and
-- for the scheduler's search when no task is ready, which never ends.
pub mod Tasks
pub mod Schedule
pub mod Dispatch
pub mod Inv
pub mod Blocked
pub mod Wake
pub mod Change
pub mod Steps
mod Tests
use james_os.Prelude.{
  ℕ, zero, suc, ◌+◌, ◌-◌, ◌*◌, ◌<◌, List, [], ◌∷◌, ◌++◌, Bool, true, false, Option, none, some,
  ◌==◌, ltb, if◌then◌else◌, ◌||◌, ◌&&◌, u32, minus_one, length,
}
use mathlib.Core.Option

pub data TaskState : Type 0 where
  blocked : TaskState
  running : TaskState
  ready_to_run : TaskState
  sleeping : TaskState
  idle : TaskState
  terminated : TaskState

pub record Tcb : Type 0 where
  pub pid : ℕ
  pub pname : List ℕ
  pub state : TaskState
  pub sleep_until : ℕ

-- The globals of the scheduler; `current_task` is the pid of the task it points to.
pub record System : Type 0 where
  pub tasks : List Tcb
  pub idle_task : Tcb
  pub current_task : ℕ
  pub last_pid : ℕ
  pub ready_to_run_counter : ℕ
  pub lock_irq_counter : ℕ
  pub irq_enabled : Bool
  pub tick : ℕ
  pub multitasking_on : Bool

abbrev pub is_ready : TaskState → Bool
is_ready ready_to_run = true
is_ready s = false

abbrev pub is_running : TaskState → Bool
is_running running = true
is_running s = false

abbrev pub is_sleeping : TaskState → Bool
is_sleeping sleeping = true
is_sleeping s = false

abbrev pub is_terminated : TaskState → Bool
is_terminated terminated = true
is_terminated s = false

-- The chain from `head` on.
unfoldable pub search_task : ℕ → List Tcb → Option Tcb
search_task p [] = none
search_task p (t ∷ ts) = let rest = search_task p ts in if t.pid == p then some t else rest

-- The task that `p` points to is written.
pub update_task : ℕ → (Tcb → Tcb) → List Tcb → List Tcb
update_task p f [] = []
update_task p f (t ∷ ts) =
    let rest = update_task p f ts in if t.pid == p then f t ∷ ts else t ∷ rest

abbrev pub with_state : TaskState → Tcb → Tcb
with_state s t = record t { state = s }

pub update_current : (Tcb → Tcb) → System → System
update_current f s =
    if s.current_task == 0
    then record s { idle_task = f s.idle_task }
    else record s { tasks = update_task s.current_task f s.tasks }

-- `p->next_task`, with what follows it.
pub next_task : ℕ → List Tcb → List Tcb
next_task p [] = []
next_task p (t ∷ ts) = let rest = next_task p ts in if t.pid == p then ts else rest

pub next_of_current : System → List Tcb
next_of_current s = if s.current_task == 0 then [] else next_task s.current_task s.tasks

pub lock_irq : System → System
lock_irq s = record s { irq_enabled = false; lock_irq_counter = u32 (s.lock_irq_counter + 1) }

pub unlock_irq : System → System
unlock_irq s =
    let n = u32 (s.lock_irq_counter + minus_one) in
    record s { lock_irq_counter = n; irq_enabled = if n == 0 then true else s.irq_enabled }

-- The next task goes on where it left off, which is just before an `unlock_irq`.
pub dispatcher : ℕ → System → System
dispatcher p s = record s { current_task = p }

-- The endless loop of `scheduler`, from `next` on. A round that reads a task is one of fuel.
pub search_loop : ℕ → List Tcb → List Tcb → Option ℕ
search_loop zero head next = none
search_loop (suc fuel) [] [] = none
search_loop (suc fuel) (h ∷ hs) [] =
    let rest = search_loop fuel (h ∷ hs) hs in if is_ready h.state then some h.pid else rest
search_loop (suc fuel) head (t ∷ ts) =
    let rest = search_loop fuel head ts in if is_ready t.state then some t.pid else rest

-- The fuel is enough to pass all tasks from the current one on.
pub scheduler : System → Option System
scheduler s =
    if s.ready_to_run_counter == 0
    then some (dispatcher 0 s)
    else (let s' =
          update_current (λ t. if is_running t.state then with_state ready_to_run t else t) s in
        let next = next_of_current s' in
        Option.map
          (λ p. dispatcher p (record s' { tasks = update_task p (with_state running) s'.tasks }))
          (search_loop (length next + length s'.tasks) s'.tasks next))

-- `_create_task`; the stack of the task is not modelled.
unfoldable pub new_task : ℕ → TaskState → List ℕ → Tcb
new_task pid state pname = record { pid = pid; pname = pname; state = state; sleep_until = 0 }

unfoldable pub create_task : List ℕ → TaskState → System → System
create_task pname idle s = record s { idle_task = new_task 0 idle pname }
create_task pname state s =
    let pid = u32 (s.last_pid + 1) in
    record s {
      tasks = new_task pid state pname ∷ s.tasks;
      last_pid = pid;
      ready_to_run_counter =
          if is_ready state then u32 (s.ready_to_run_counter + 1) else s.ready_to_run_counter;
    }

-- The globals before `multitask_init`, and the names it gives.
abbrev pub boot : System
boot = record {
  tasks = [];
  idle_task = new_task 0 idle [];
  current_task = 0;
  last_pid = 1;
  ready_to_run_counter = 0;
  lock_irq_counter = 0;
  irq_enabled = true;
  tick = 0;
  multitasking_on = false;
}

abbrev pub james : List ℕ
james = 74 ∷ 65 ∷ 77 ∷ 69 ∷ 83 ∷ []

abbrev pub idle_name : List ℕ
idle_name = 73 ∷ 68 ∷ 76 ∷ 69 ∷ []

abbrev pub terminator_name : List ℕ
terminator_name = 67 ∷ 72 ∷ 85 ∷ 65 ∷ 90 ∷ 78 ∷ 69 ∷ 71 ∷ 85 ∷ 69 ∷ 82 ∷ []

unfoldable pub multitask_init : System → System
multitask_init s =
    let a = record s { tasks = new_task 1 running james ∷ []; current_task = 1 } in
    let b = create_task idle_name idle a in
    let c = create_task terminator_name ready_to_run b in
    record c { ready_to_run_counter = u32 (c.ready_to_run_counter + 1); multitasking_on = true }

pub block_task : TaskState → Bool → System → Option System
block_task reason lock s =
    let a = if lock then lock_irq s else s in
    let b = record a { ready_to_run_counter = u32 (a.ready_to_run_counter + minus_one) } in
    Option.map unlock_irq (scheduler (update_current (with_state reason) b))

pub unblock_task : ℕ → System → Option System
unblock_task p s =
    let a = lock_irq s in
    let b = record a { ready_to_run_counter = u32 (a.ready_to_run_counter + 1) } in
    let c = update_current (with_state ready_to_run) b in
    Option.map
      (λ t.
        unlock_irq (dispatcher p (record c { tasks = update_task p (with_state running) c.tasks })))
      (search_task p b.tasks)

pub soft_unblock_task : ℕ → System → Option System
soft_unblock_task p s =
    Option.map
      (λ t. if is_ready t.state || is_running t.state then s else record s {
        ready_to_run_counter = u32 (s.ready_to_run_counter + 1);
        tasks = update_task p (with_state ready_to_run) s.tasks;
      })
      (search_task p s.tasks)

pub sleep_until : ℕ → System → Option System
sleep_until ticks s =
    if ltb ticks s.tick
    then some s
    else block_task sleeping true (update_current (λ t. record t { sleep_until = ticks }) s)

pub sleep : ℕ → System → Option System
sleep seconds s = sleep_until (u32 (seconds * 100 + s.tick)) s

pub task_entry : System → System
task_entry s = unlock_irq s

-- Without the freeing of the argument and the message. The task never goes on.
pub task_termination : System → Option System
task_termination s =
    let a = lock_irq s in
    let b = record a { ready_to_run_counter = u32 (a.ready_to_run_counter + minus_one) } in
    scheduler (update_current (with_state terminated) b)

-- The inner loop of `task_terminator`, and whether it found a task. The memory of the task is freed.
pub remove_terminated : List Tcb → List Tcb × Bool
remove_terminated [] = ([], false)
remove_terminated (t ∷ ts) =
    let rest = remove_terminated ts in
    if is_terminated t.state then (ts, true) else (t ∷ rest.0, rest.1)

-- One round of `task_terminator`, which runs as the current task.
pub task_terminator : System → Option System
task_terminator s =
    let (rest, flag) = remove_terminated s.tasks in
    let s' = unlock_irq (record (lock_irq s) { tasks = rest }) in
    if flag then some s' else sleep 5 s'

-- What a call of `pit_callback` finds in the chain: the task it wakes first, or whether a task
-- was ready. A waking switches the task at once; the rest of the chain is looked at when the
-- interrupted task goes on.
pub data Tick : Type 0 where
  wake : ℕ → Tick
  checked : Bool → Tick

pub pit_loop : ℕ → Bool → List Tcb → Tick
pit_loop tick flag [] = checked flag
pit_loop tick flag (t ∷ ts) =
    let rest = pit_loop tick (flag || is_ready t.state) ts in
    if is_sleeping t.state && ltb t.sleep_until tick then wake t.pid else rest

pub preempt : System → Option System
preempt s = Option.map unlock_irq (scheduler (lock_irq s))

pub after_loop : Tick → System → Option System
after_loop (wake p) s = unblock_task p s
after_loop (checked true) s = preempt s
after_loop (checked false) s = some s

-- Up to the first switch. The chain is not empty while `multitasking_on`.
pub pit_callback : System → Option System
pit_callback s =
    let s' = record s { tick = u32 (s.tick + 1) } in
    if s.multitasking_on then after_loop (pit_loop s'.tick false s'.tasks) s' else some s'
