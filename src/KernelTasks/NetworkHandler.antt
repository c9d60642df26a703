-- ===== src/KernelTasks/NetworkHandler.antt =====
-- src/kernel_tasks/network_handler_task.c: the two rings of frames between the driver, the
-- protocols and the tasks that handle frames.
pub mod Fifo
mod Tests
use james_os.Prelude.{
  ℕ, ◌+◌, ◌%◌, List, [], Option, none, some, ◌==◌, if◌then◌else◌, get_or, set, Bool, true, false,
}
use mathlib.Core.Option
use james_os.Multitask.{System, blocked, block_task, soft_unblock_task, lock_irq, unlock_irq}
use james_os.Network.Utils.{copy_block}

-- `struct nht_queue_entry`
pub record Entry : Type 0 where
  pub frame : List ℕ
  pub frame_size : ℕ

abbrev pub unused : Entry
unused = record { frame = []; frame_size = 0 }

-- One of the two rings, with the pid of the task that reads it.
pub record FrameQueue : Type 0 where
  pub queue : List Entry
  pub push : ℕ
  pub read : ℕ
  pub tcb : ℕ

abbrev pub queue_size : ℕ
queue_size = 1024

-- Putting a frame into a ring; `block` is what `kmalloc_u` hands out. A full ring drops it.
pub enqueue : FrameQueue → List ℕ → ℕ → List ℕ → System → Option (FrameQueue × System)
enqueue q frame frame_size block s =
    let queue_pos = (q.push + 1) % queue_size in
    let entry : Entry = record {
      frame = copy_block frame 0 block 0 frame_size;
      frame_size = frame_size;
    } in
    if queue_pos == q.read
    then some (q, s)
    else Option.map (λ s'. (record q { queue = set q.queue q.push entry; push = queue_pos }, s'))
        (soft_unblock_task q.tcb s)

-- The globals of the file.
pub record Nht : Type 0 where
  pub recv : FrameQueue
  pub send : FrameQueue

pub nht_enqueue_recv_frame : Nht → List ℕ → ℕ → List ℕ → System → Option (Nht × System)
nht_enqueue_recv_frame n frame frame_size block s =
    Option.map (λ out. (record n { recv = out.0 }, out.1)) (enqueue n.recv frame frame_size block s)

pub nht_enqueue_send_frame : Nht → List ℕ → ℕ → List ℕ → System → Option (Nht × System)
nht_enqueue_send_frame n frame frame_size block s =
    Option.map (λ out. (record n { send = out.0 }, out.1)) (enqueue n.send frame frame_size block s)

-- A round of a handler's loop up to the next layer: it blocks on an empty ring, or it hands the
-- oldest frame to the next layer, which stays in the ring meanwhile.
pub handler_round : FrameQueue → System → Option (Option Entry × System)
handler_round q s =
    let locked = lock_irq s in
    if q.read == q.push
    then Option.map (λ s'. (none, s')) (block_task blocked false locked)
    else some (some (get_or q.queue q.read unused), unlock_irq locked)

-- The rest of the round, when the next layer is done.
pub handler_done : FrameQueue → FrameQueue
handler_done q = record q { read = (q.read + 1) % queue_size }
