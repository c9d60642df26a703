-- ===== src/Network/Udp.antt =====
-- src/network/udp.c: the table of ports, with binding, unbinding and delivery. The columns of the
-- table are lists with one cell for each port.
pub mod Ports
pub mod Segment
mod Tests
use james_os.Prelude.{ℕ, List, [], Option, none, some, true, ◌==◌, if◌then◌else◌, get_or, set}
use mathlib.Core.Option
use james_os.Network.Utils.{copy_block}
use james_os.Network.Tcp.{free_port}
use james_os.Multitask.{System, blocked, block_task, soft_unblock_task}

-- `struct net_address_set`
pub record NetAddressSet : Type 0 where
  pub mac : List ℕ
  pub ip : ℕ
  pub port : ℕ

abbrev pub no_address : NetAddressSet
no_address = record { mac = []; ip = 0; port = 0 }

-- `udp_port_table`; a cell of `payloads` is the memory that `data` points to.
pub record UdpPorts : Type 0 where
  pub pids : List ℕ
  pub payloads : List (List ℕ)
  pub net_addresses : List NetAddressSet

-- The search for a free ephemeral port, which is that of TCP; 0 for none.
pub free_udp_port : UdpPorts → ℕ
free_udp_port t = free_port t.pids 32768 28232

-- `none` for -1; `payload` is the memory of the process.
pub udp_port_bind : UdpPorts → ℕ → ℕ → List ℕ → Option (ℕ × UdpPorts)
udp_port_bind t current_pid port payload =
    let chosen =
      if port == 0 then free_udp_port t else if get_or t.pids port 0 == 0 then port else 0 in
    if chosen == 0
    then none
    else some (
      chosen,
      record t { pids = set t.pids chosen current_pid; payloads = set t.payloads chosen payload },
    )

pub udp_port_unbind : UdpPorts → ℕ → ℕ → Option UdpPorts
udp_port_unbind t current_pid port =
    if get_or t.pids port 0 == current_pid
    then some (record t { pids = set t.pids port 0 })
    else none

-- `none` where the process of the port is gone.
pub udp_forward_segment_to_process :
    UdpPorts → System → ℕ → List ℕ → ℕ → ℕ → ℕ → List ℕ → Option (UdpPorts × System)
udp_forward_segment_to_process t s port payload size source_port source_ip source_mac =
    let old = get_or t.net_addresses port no_address in
    let new : NetAddressSet = record {
      mac = copy_block source_mac 0 old.mac 0 6;
      ip = source_ip;
      port = source_port;
    } in
    if get_or t.pids port 0 == 0
    then some (t, s)
    else Option.map
        (λ s'. (
          record t {
            payloads =
                set t.payloads port (copy_block payload 0 (get_or t.payloads port []) 0 size);
            net_addresses = set t.net_addresses port new;
          },
          s',
        ))
        (soft_unblock_task (get_or t.pids port 0) s)

-- The wait for a segment.
pub udp_receive : System → Option System
udp_receive s = block_task blocked true s
