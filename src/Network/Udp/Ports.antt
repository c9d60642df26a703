-- ===== src/Network/Udp/Ports.antt =====
-- Who owns a port, and what is delivered to it.
use james_os.Prelude.{
  ℕ, ◌≤◌, ◌<◌, ◌≡◌, ◌≢◌, ◌⊎◌, refl, ◌∙◌, ap, ltb, List, [], false, Option, none, some, ◌==◌,
  if◌then◌else◌, Bool-cases, ==→eq, ==→ne, inl, inr, arith, length, get_or, set, get_or-set,
  get_or-set_self,
}
use james_os.Network.Utils.{copy_block}
use james_os.Network.Utils.Blocks.{get_or-copy_block}
use james_os.Network.Udp.{
  UdpPorts, NetAddressSet, no_address, udp_port_unbind, udp_forward_segment_to_process,
}
use james_os.Multitask.{System, Tcb, search_task}
use james_os.Multitask.Inv.{Inv}
use james_os.Multitask.Wake.{soft_unblock_task-Inv}

-- What binding leaves: a port that no process had belongs to the process, and no other port
-- changes hands; the port is the one that was asked for, or an ephemeral one.
pub Owned : UdpPorts → ℕ → ℕ → Option (ℕ × UdpPorts) → Type 0
Owned t pid port none = (port ≡ 0) ⊎ (get_or t.pids port 0 ≢ 0)
Owned t pid port (some (p, t')) =
    (get_or t.pids p 0 ≡ 0)
    × ((q : ℕ) → get_or t'.pids q 0 ≡ (if p == q then pid else get_or t.pids q 0))
    × ((p ≡ port) ⊎ ((port ≡ 0) × (32768 ≤ p) × (p ≤ 60999)))

-- What unbinding leaves: the port is free and no other port changes hands, or the process that
-- asked does not have it.
pub Freed : UdpPorts → ℕ → ℕ → Option UdpPorts → Type 0
Freed t pid port none = get_or t.pids port 0 ≢ pid
Freed t pid port (some t') =
    (get_or t.pids port 0 ≡ pid)
    × ((q : ℕ) → get_or t'.pids q 0 ≡ (if port == q then 0 else get_or t.pids q 0))

-- `udp_port_unbind` frees a port below 65535 for the process that has it, and no other port; it
-- returns -1 only for another process.
pub udp_port_unbind-Freed :
    (t : UdpPorts) (pid port : ℕ)
    → length t.pids ≡ 65535
    → port < 65535
    → Freed t pid port (udp_port_unbind t pid port)
unfolding udp_port_unbind Freed
udp_port_unbind-Freed t pid port len inside = elim (Bool-cases (get_or t.pids port 0 == pid)) [
  | inl mine ↦ rw mine (==→eq _ _ mine, (λ q. get_or-set t.pids port q 0 0 (omega (arith, len))))
  | inr other ↦ rw other (==→ne _ _ other)
]

copied :
    (payload memory : List ℕ) (size q : ℕ)
    → size ≤ length memory
    → get_or (copy_block payload 0 memory 0 size) q 0
      ≡ (if ltb q size then get_or payload q 0 else get_or memory q 0)
copied payload memory size q room =
    ground (arith, get_or-copy_block payload 0 memory 0 size q (omega arith))

-- Delivery to a port whose process exists and whose memory has room for the data never faults and
-- keeps the scheduler's invariant: the first `size` bytes of the memory are the data, the bytes
-- after them are as before, and the sender's address and port are noted.
pub udp_forward-delivers :
    (t : UdpPorts) (s : System) (port : ℕ) (payload : List ℕ) (size source_port source_ip : ℕ)
    (source_mac : List ℕ) (task : Tcb)
    → get_or t.pids port 0 ≢ 0
    → Inv s
    → search_task (get_or t.pids port 0) s.tasks ≡ some task
    → port < length t.payloads
    → port < length t.net_addresses
    → size ≤ length (get_or t.payloads port [])
    → (t' : UdpPorts) × (s' : System) × (udp_forward_segment_to_process t s port payload size
          source_port source_ip source_mac
        ≡ some (t', s'))
      × Inv s'
      × ((q : ℕ)
          → get_or (get_or t'.payloads port []) q 0
            ≡ (if ltb q size then get_or payload q 0 else get_or (get_or t.payloads port []) q 0))
      × ((get_or t'.net_addresses port no_address).ip ≡ source_ip)
      × ((get_or t'.net_addresses port no_address).port ≡ source_port)
unfolding udp_forward_segment_to_process
udp_forward-delivers t s port payload size source_port source_ip source_mac task bound h found in1
      in2 room =
    let (s', woken, h') = soft_unblock_task-Inv s (get_or t.pids port 0) task h found in
    let old = get_or t.net_addresses port no_address in
    let new : NetAddressSet = record {
      mac = copy_block source_mac 0 old.mac 0 6;
      ip = source_ip;
      port = source_port;
    } in
    let memory = get_or t.payloads port [] in
    let written = get_or-set_self t.payloads port (copy_block payload 0 memory 0 size) [] in1 in
    let noted = get_or-set_self t.net_addresses port new no_address in2 in
    let has_owner : (get_or t.pids port 0 == 0) ≡ false = ground (arith, bound) in
    (
      record t {
        payloads = set t.payloads port (copy_block payload 0 memory 0 size);
        net_addresses = set t.net_addresses port new;
      },
      s',
      rw (has_owner, woken) refl,
      h',
      (λ q. ap (λ (m : List ℕ). get_or m q 0) written ∙ copied payload memory size q room),
      ap (λ (a : NetAddressSet). a.ip) noted,
      ap (λ (a : NetAddressSet). a.port) noted,
    )
