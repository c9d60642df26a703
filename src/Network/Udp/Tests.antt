-- ===== src/Network/Udp/Tests.antt =====
-- A port that is bound, freed and delivered to.
use james_os.Prelude.{
  ℕ, ◌≡◌, ◌≢◌, refl, [], ◌∷◌, some, arith, replicate, get_or, if◌then◌else◌, ltb,
}
use james_os.Multitask.{
  System, multitask_init, boot, create_task, new_task, search_task, running, james,
}
use james_os.Multitask.Inv.{Inv}
use james_os.Multitask.Change.{multitask_init-Inv}
use james_os.Network.Udp.{UdpPorts, no_address, udp_forward_segment_to_process}
use james_os.Network.Udp.Ports.{udp_forward-delivers}

-- Process 1 has all ports.
abbrev table : UdpPorts
table = record {
  pids = replicate 65535 1;
  payloads = (0 ∷ 0 ∷ 0 ∷ []) ∷ [];
  net_addresses = no_address ∷ [];
}

-- Port 0 of the first task.
abbrev small : UdpPorts
small = record { pids = 1 ∷ []; payloads = (0 ∷ 0 ∷ 0 ∷ []) ∷ []; net_addresses = no_address ∷ [] }

first_found :
    search_task 1 (multitask_init boot).tasks
    ≡ some (record { pid = 1; pname = james; state = running; sleep_until = 0 })
unfolding multitask_init create_task new_task search_task
first_found = refl

owner : get_or small.pids 0 0 ≢ 0
owner e = absurd (omega (arith, e))

udp_forward-delivers_example :
    (t' : UdpPorts) × (s' : System) × (udp_forward_segment_to_process small
        (multitask_init boot)
        0
        (7 ∷ 8 ∷ [])
        2
        53
        9
        (1 ∷ [])
      ≡ some (t', s'))
    × Inv s'
    × ((q : ℕ)
        → get_or (get_or t'.payloads 0 []) q 0
          ≡ (if ltb q 2 then get_or (7 ∷ 8 ∷ []) q 0 else get_or (0 ∷ 0 ∷ 0 ∷ []) q 0))
    × ((get_or t'.net_addresses 0 no_address).ip ≡ 9)
    × ((get_or t'.net_addresses 0 no_address).port ≡ 53)
udp_forward-delivers_example =
    udp_forward-delivers small (multitask_init boot) 0 (7 ∷ 8 ∷ []) 2 53 9 (1 ∷ [])
      (record { pid = 1; pname = james; state = running; sleep_until = 0 }) owner multitask_init-Inv
      first_found (omega arith) (omega arith) (omega arith)
