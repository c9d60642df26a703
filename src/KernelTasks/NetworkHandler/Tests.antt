-- ===== src/KernelTasks/NetworkHandler/Tests.antt =====
-- Frames that go through a ring, and the theorems on a ring that the first task reads.
use james_os.Prelude.{
  ◌≡◌, ◌≢◌, refl, [], ◌∷◌, ◌++◌, Option, some, arith, length-replicate, replicate, if◌then◌else◌,
  ◌==◌,
}
use james_os.Multitask.{
  System, multitask_init, boot, create_task, new_task, search_task, running, james,
}
use james_os.Multitask.Inv.{Inv}
use james_os.Multitask.Wake.{CanRun}
use james_os.Multitask.Change.{multitask_init-Inv}
use james_os.KernelTasks.NetworkHandler.{
  Entry, unused, FrameQueue, enqueue, handler_round, handler_done,
}
use james_os.KernelTasks.NetworkHandler.Fifo.{
  IsRing, contents, count, enqueue-Fifo, Round, handler_round-Taken,
}

abbrev start : System
start = multitask_init boot

abbrev ring : FrameQueue
ring = record { queue = replicate 1024 unused; push = 1023; read = 1022; tcb = 1 }

ring-IsRing : IsRing ring
ring-IsRing = record {
  cells = length-replicate {A = Entry} 1024 unused;
  push_in = omega arith;
  read_in = omega arith;
}

first_found :
    search_task 1 start.tasks
    ≡ some (record { pid = 1; pname = james; state = running; sleep_until = 0 })
unfolding multitask_init create_task new_task search_task
first_found = refl

first_runs : start.current_task ≢ 0
unfolding multitask_init create_task
first_runs e = absurd (omega (arith, e))

enqueue-Fifo_example :
    (q' : FrameQueue) × (s' : System) × (enqueue ring (1 ∷ 2 ∷ []) 2 (0 ∷ 0 ∷ []) start
      ≡ some (q', s'))
    × IsRing q'
    × Inv s'
    × (if count ring == 1023
        then (q' ≡ ring) × (s' ≡ start)
        else (contents q' ≡ contents ring ++ (record { frame = 1 ∷ 2 ∷ []; frame_size = 2 } ∷ []))
          × CanRun ring.tcb s')
enqueue-Fifo_example =
    enqueue-Fifo ring start (record { pid = 1; pname = james; state = running; sleep_until = 0 })
      (1 ∷ 2 ∷ []) (0 ∷ 0 ∷ []) 2 ring-IsRing multitask_init-Inv first_found refl refl

handler_round-Taken_example :
    (out : Option Entry) × (s' : System) × (handler_round ring start ≡ some (out, s'))
    × Inv s'
    × IsRing (handler_done ring)
    × Round ring start out s'
handler_round-Taken_example =
    handler_round-Taken ring start ring-IsRing multitask_init-Inv first_runs
