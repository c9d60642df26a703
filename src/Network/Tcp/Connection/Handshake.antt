-- ===== src/Network/Tcp/Connection/Handshake.antt =====
-- The handshake of two ports, one that listens and one that connects.
use james_os.Prelude.{ℕ, ◌+◌, ◌≡◌, List, [], ◌∷◌, Option, none, some, length, IsBytes, u32}
use james_os.Network.Utils.{get_bits_attr_value}
use james_os.Network.Tcp.{TcpSegment, tcp_build_segment}
use james_os.Network.Tcp.Connection.{
  TcpPort, waiting_threeway_ack, connected, Reply, tcp_send_syn_ack, tcp_send_ack, tcp_init_window,
}
use james_os.Network.Tcp.Connection.Receive.{Blocks, connect_fields, recv_on_port}

infixl 5 ◌>>=◌
abbrev ◌>>=◌ : {A B : Type 0} → Option A → (A → Option B) → Option B
◌>>=◌ none f = none
◌>>=◌ (some a) f = f a

-- A machine that sends: its addresses, and its blocks for a segment and for the pseudo header.
pub record Sender : Type 0 where
  pub block : TcpSegment
  pub pseudo : List ℕ
  pub source_ip : ℕ
  pub ip : ℕ

pub record HasBlocks (s : Sender) : Type 0 where
  pub bytes : IsBytes s.block.header
  pub size : length s.block.header ≡ 64
  pub pseudo : IsBytes s.pseudo

unfoldable pub send : Sender → Reply → Option TcpSegment
send s r = tcp_build_segment s.block r.fields r.options [] 0 s.source_ip s.ip s.pseudo []

unfoldable pub only : List Reply → Option Reply
only [] = none
only (r ∷ rs) = some r

-- The three segments of the handshake, each sent by one side and received by the other; none has
-- data. The result is the two ports.
unfoldable pub handshake :
    Sender → Sender → Blocks → Blocks → ℕ → ℕ → TcpPort → TcpPort → Option (TcpPort × TcpPort)
handshake from to from_blocks to_blocks src dest client server = do
  syn ← send from (record { fields = connect_fields src dest; options = [] })
  (server1, replies1) ← recv_on_port to_blocks syn.header [] 0 server.state server
  reply1 ← only replies1
  syn_ack ← send to reply1
  (client1, replies2) ← recv_on_port from_blocks syn_ack.header [] 0 client.state client
  reply2 ← only replies2
  ack ← send from reply2
  (server2, replies3) ← recv_on_port to_blocks ack.header [] 0 server1.state server1
  some (client1, server2)

-- The two ports after the three segments.
module _ (from to : Sender) (from_blocks to_blocks : Blocks) (src dest : ℕ)
    (client server : TcpPort) (syn syn_ack ack : TcpSegment) where
  abbrev client_end : TcpPort
  client_end =
      tcp_init_window from_blocks.recv from_blocks.send (get_bits_attr_value syn_ack.header 32 32)
        (get_bits_attr_value syn_ack.header 112 16)
        (record client { state = connected; connection_stablished_or_reseted = 1 })

  abbrev server_end : TcpPort
  server_end =
      record (tcp_init_window to_blocks.recv to_blocks.send (get_bits_attr_value syn.header 32 32)
        (get_bits_attr_value syn.header 112 16) (record server { state = waiting_threeway_ack })) {
          state = connected;
        }

  abbrev syn_ack_reply : Reply
  syn_ack_reply = tcp_send_syn_ack to_blocks.options syn.header

  abbrev ack_reply : Reply
  ack_reply = tcp_send_ack syn_ack.header (u32 (get_bits_attr_value syn_ack.header 32 32 + 0 + 1))
