-- ===== src/KernelTasks/NetworkHandler/Fifo.antt =====
-- A ring of frames behaves as a first-in first-out queue of up to 1023 frames.
use james_os.Prelude.{
  ℕ, zero, suc, ◌+◌, ◌-◌, ◌%◌, ◌<◌, ◌≡◌, ◌≢◌, refl, sym, ◌∙◌, ap, ap₂, List, [], ◌∷◌, ◌++◌, true,
  false, Option, none, some, ◌==◌, if◌then◌else◌, Bool-cases, ==→eq, ==→ne, inl, inr, arith, length,
  get_or, set, get_or-set_ne, get_or-set_self, length-set, length-append, get_or_ext,
}
use james_os.Multitask.Inv.{Inv, lock_block_task-Inv, lock_unlock-Inv, lock_unlock-tasks}
use james_os.Multitask.Blocked.{lock_block_task-counter, lock_block_task-leaves}
use james_os.Multitask.Wake.{soft_unblock_task-Inv, CanRun, soft_unblock_task-CanRun}
use james_os.Multitask.{System, Tcb, blocked, search_task, unlock_irq, lock_irq}
use james_os.Network.Utils.{copy_block}
use james_os.Network.Utils.Blocks.{length-copy_block, get_or-copy_block}
use james_os.KernelTasks.NetworkHandler.{
  Entry, unused, FrameQueue, enqueue, handler_round, handler_done,
}

-- The positions are in the ring.
pub record IsRing (q : FrameQueue) : Type 0 where
  pub cells : length q.queue ≡ 1024
  pub push_in : q.push < 1024
  pub read_in : q.read < 1024

-- How many frames wait, and the `k`th of them.
unfoldable pub count : FrameQueue → ℕ
count q = (q.push + 1024 - q.read) % 1024

unfoldable pub waiting : FrameQueue → ℕ → Entry
waiting q k = get_or q.queue ((q.read + k) % 1024) unused

-- The first `n` values of a sequence.
unfoldable pub collect : (ℕ → Entry) → ℕ → List Entry
collect f zero = []
collect f (suc n) = collect f n ++ (f n ∷ [])

-- The frames that wait, the oldest first.
unfoldable pub contents : FrameQueue → List Entry
contents q = collect (waiting q) (count q)

collect_ext : (f g : ℕ → Entry) (n : ℕ) → ((k : ℕ) → k < n → f k ≡ g k) → collect f n ≡ collect g n
unfolding collect
collect_ext f g zero h = refl
collect_ext f g (suc n) h =
    ap₂ (λ (xs : List Entry) (x : Entry). xs ++ (x ∷ []))
      (collect_ext f g n (λ k lt. h k (omega arith))) (h n (omega arith))

collect_first : (f : ℕ → Entry) (n : ℕ) → collect f (suc n) ≡ f 0 ∷ collect (λ k. f (k + 1)) n
unfolding collect
collect_first f zero = refl
collect_first f (suc n) =
    let last : f (suc n) ≡ f (n + 1) = ap f (omega arith) in
    ap₂ (λ (xs : List Entry) (x : Entry). xs ++ (x ∷ [])) (collect_first f n) last

length-collect : (f : ℕ → Entry) (n : ℕ) → length (collect f n) ≡ n
unfolding collect
length-collect f zero = refl
length-collect f (suc n) = omega (arith, length-append (collect f n) (f n ∷ []), length-collect f n)

pub length-contents : (q : FrameQueue) → length (contents q) ≡ count q
unfolding contents
length-contents q = length-collect (waiting q) (count q)

-- A frame that is put in after the others.
put :
    (q : FrameQueue) (e : Entry)
    → IsRing q
    → (q.push + 1) % 1024 ≢ q.read
    → contents (record q { queue = set q.queue q.push e; push = (q.push + 1) % 1024 })
      ≡ contents q ++ (e ∷ [])
unfolding contents collect waiting count
put q e v room =
    let more : ((q.push + 1) % 1024 + 1024 - q.read) % 1024
        ≡ suc ((q.push + 1024 - q.read) % 1024) =
      omega (arith, v.push_in, v.read_in, room) in
    let n = (q.push + 1024 - q.read) % 1024 in
    let end : (q.read + n) % 1024 ≡ q.push = omega (arith, v.push_in, v.read_in) in
    ap (collect (λ k. get_or (set q.queue q.push e) ((q.read + k) % 1024) unused)) more
    ∙ ap₂ (λ (xs : List Entry) (x : Entry). xs ++ (x ∷ []))
        (collect_ext (λ k. get_or (set q.queue q.push e) ((q.read + k) % 1024) unused)
          (λ k. get_or q.queue ((q.read + k) % 1024) unused) n
          (λ k lt.
            get_or-set_ne q.queue q.push ((q.read + k) % 1024) e unused
              (omega (arith, lt, v.push_in, v.read_in))))
        (ap (λ (i : ℕ). get_or (set q.queue q.push e) i unused) end
          ∙ get_or-set_self q.queue q.push e unused (omega (arith, v.cells, v.push_in)))

-- A frame that is copied into memory of its size is the frame.
copied :
    (frame block : List ℕ) (size : ℕ)
    → length frame ≡ size
    → length block ≡ size
    → copy_block frame 0 block 0 size ≡ frame
copied frame block size lf lb =
    get_or_ext 0 (copy_block frame 0 block 0 size) frame
      (length-copy_block frame 0 block 0 size ∙ lb ∙ sym lf)
      (λ i lt.
        let inside : i < size = omega (arith, lt, length-copy_block frame 0 block 0 size) in
        ground (arith, get_or-copy_block frame 0 block 0 size i (omega arith)))

-- The first frame is taken out.
take_out :
    (q : FrameQueue)
    → IsRing q
    → q.read ≢ q.push
    → contents q ≡ get_or q.queue q.read unused ∷ contents (record q { read = (q.read + 1) % 1024 })
unfolding contents waiting count
take_out q v some' =
    let n = (q.push + 1024 - (q.read + 1) % 1024) % 1024 in
    let less : (q.push + 1024 - q.read) % 1024 ≡ suc n =
      omega (arith, v.push_in, v.read_in, some') in
    let start : (q.read + 0) % 1024 ≡ q.read = omega (arith, v.read_in) in
    let f : ℕ → Entry = λ k. get_or q.queue ((q.read + k) % 1024) unused in
    ap (collect f) less
    ∙ collect_first f n
    ∙ ap₂ ◌∷◌ (ap (λ (i : ℕ). get_or q.queue i unused) start) (
        collect_ext (λ k. f (k + 1)) (λ k. get_or q.queue (((q.read + 1) % 1024 + k) % 1024) unused)
          n (λ k lt. ap (λ (i : ℕ). get_or q.queue i unused) (omega (arith, v.read_in))))

set_pushed :
    (q : FrameQueue) (e : Entry)
    → IsRing q
    → IsRing (record q { queue = set q.queue q.push e; push = (q.push + 1) % 1024 })
set_pushed q e v = record {
  cells = length-set q.queue q.push e ∙ v.cells;
  push_in = omega arith;
  read_in = v.read_in;
}

-- Where the scheduler's invariant holds and the task that reads the ring exists, putting in a
-- frame never faults and keeps the invariant. With up to 1022 frames in the ring, the frame comes
-- last, with its bytes, and the task that reads the ring can run then; with 1023 frames in it,
-- neither the ring nor the scheduler changes.
pub enqueue-Fifo :
    (q : FrameQueue) (s : System) (t : Tcb) (frame block : List ℕ) (size : ℕ)
    → IsRing q
    → Inv s
    → search_task q.tcb s.tasks ≡ some t
    → length frame ≡ size
    → length block ≡ size
    → (q' : FrameQueue) × (s' : System) × (enqueue q frame size block s ≡ some (q', s'))
      × IsRing q'
      × Inv s'
      × (if count q == 1023
          then (q' ≡ q) × (s' ≡ s)
          else (contents q' ≡ contents q ++ (record { frame = frame; frame_size = size } ∷ []))
            × CanRun q.tcb s')
unfolding enqueue count
enqueue-Fifo q s t frame block size v h found lf lb =
    let p1 = v.push_in in
    let p2 = v.read_in in
    let (s', woken, h') = soft_unblock_task-Inv s q.tcb t h found in
    elim (Bool-cases ((q.push + 1) % 1024 == q.read)) [
      | inl full ↦
          let all : ((q.push + 1024 - q.read) % 1024 == 1023) ≡ true =
            ground (arith, full, p1, p2) in
          (q, s, rw full refl, v, h, rw all (refl, refl))
      | inr room ↦
          let some_room : ((q.push + 1024 - q.read) % 1024 == 1023) ≡ false =
            ground (arith, room, p1, p2) in
          let e : Entry = record { frame = copy_block frame 0 block 0 size; frame_size = size } in
          (
            record q { queue = set q.queue q.push e; push = (q.push + 1) % 1024 },
            s',
            rw (room, woken) refl,
            set_pushed q e v,
            h',
            rw some_room (
              put q e v (==→ne _ _ room)
                  ∙ ap
                      (λ (f : List ℕ). contents q ++ (record { frame = f; frame_size = size } ∷ []))
                      (copied frame block size lf lb),
              soft_unblock_task-CanRun s s' q.tcb t found woken,
            ),
          )
    ]

empty_ring : (q : FrameQueue) → IsRing q → q.read ≡ q.push → contents q ≡ []
unfolding contents count collect
empty_ring q v e =
    let nothing : (q.push + 1024 - q.read) % 1024 ≡ 0 = omega (arith, e, v.push_in) in
    ap (collect (waiting q)) nothing

-- What a round does: without a frame another task or the idle task gets the processor and one task
-- fewer is ready or runs, and else the oldest frame is handed over, which is out of the ring when the
-- next layer is done.
pub Round : FrameQueue → System → Option Entry → System → Type 0
Round q s none s' =
    (contents q ≡ [])
    × (s'.ready_to_run_counter + 1 ≡ s.ready_to_run_counter)
    × (s'.current_task ≢ s.current_task)
Round q s (some e) s' = (contents q ≡ e ∷ contents (handler_done q)) × (s'.tasks ≡ s.tasks)

-- Where the scheduler's invariant holds and a task runs, a round of a handler never faults and
-- keeps the invariant. If no frame waits, the running task gives up the processor, and one task fewer
-- is ready or runs. Else the round hands over the oldest frame and the tasks stay as they are, and when
-- the next layer is done, the frame is out of the ring.
pub handler_round-Taken :
    (q : FrameQueue) (s : System)
    → IsRing q
    → Inv s
    → s.current_task ≢ 0
    → (out : Option Entry) × (s' : System) × (handler_round q s ≡ some (out, s'))
      × Inv s'
      × IsRing (handler_done q)
      × Round q s out s'
unfolding handler_round handler_done Round
handler_round-Taken q s v h task = elim (Bool-cases (q.read == q.push)) [
  | inl empty ↦
      let (s', e, h') = lock_block_task-Inv s blocked h task refl refl in
      (
        none,
        s',
        rw (empty, e) refl,
        h',
        done,
        (
          empty_ring q v (==→eq _ _ empty),
          lock_block_task-counter s s' blocked h task e,
          lock_block_task-leaves s s' blocked h task refl refl e,
        ),
      )
  | inr some' ↦ (
    some (get_or q.queue q.read unused),
    unlock_irq (lock_irq s),
    rw some' refl,
    lock_unlock-Inv s h,
    done,
    (take_out q v (==→ne _ _ some'), lock_unlock-tasks s),
  )
]
  where
    done : IsRing (record q { read = (q.read + 1) % 1024 })
    done = record { cells = v.cells; push_in = v.push_in; read_in = omega arith }
