-- ===== src/Network/Tcp/Connection/Replies.antt =====
-- The replies are what the other side of the handshake waits for.
use james_os.Prelude.{ℕ, ◌≡◌, refl, List, true}
use james_os.Network.Tcp.{
  tcp_get_flags, tcp_recv_threeway_syn, tcp_recv_threeway_syn_ack, tcp_recv_threeway_ack,
  tcp_recv_fin_ack,
}
use james_os.Network.Tcp.Build.{Carries}
use james_os.Network.Tcp.Connection.{tcp_send_syn_ack, tcp_send_ack, tcp_send_fin_ack}
use james_os.Network.Tcp.Connection.Receive.{connect_fields}

pub connect-passes :
    (src dest : ℕ) (h : List ℕ)
    → Carries (connect_fields src dest) h
    → tcp_recv_threeway_syn h ≡ true
unfolding tcp_recv_threeway_syn tcp_get_flags connect_fields
connect-passes src dest h c =
    rw (c.ecn, c.cwr, c.ece, c.urg, c.ack, c.psh, c.rst, c.syn, c.fin) refl

pub syn_ack-passes :
    (options h h' : List ℕ)
    → Carries (tcp_send_syn_ack options h).fields h'
    → tcp_recv_threeway_syn_ack h' ≡ true
unfolding tcp_recv_threeway_syn_ack tcp_get_flags tcp_send_syn_ack
syn_ack-passes options h h' c =
    rw (c.ecn, c.cwr, c.ece, c.urg, c.ack, c.psh, c.rst, c.syn, c.fin) refl

pub ack-passes :
    (h h' : List ℕ) (n : ℕ) → Carries (tcp_send_ack h n).fields h' → tcp_recv_threeway_ack h' ≡ true
unfolding tcp_recv_threeway_ack tcp_get_flags tcp_send_ack
ack-passes h h' n c = rw (c.ecn, c.cwr, c.ece, c.urg, c.ack, c.psh, c.rst, c.syn, c.fin) refl

fin_ack-passes :
    (options h h' : List ℕ)
    → Carries (tcp_send_fin_ack options h).fields h'
    → tcp_recv_fin_ack h' ≡ true
unfolding tcp_recv_fin_ack tcp_get_flags tcp_send_fin_ack
fin_ack-passes options h h' c =
    rw (c.ecn, c.cwr, c.ece, c.urg, c.ack, c.psh, c.rst, c.syn, c.fin) refl
