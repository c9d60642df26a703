-- ===== src/Network/Tcp/Flags.antt =====
-- The tests of the handshake, in terms of the nine flags as one number.
use james_os.Prelude.{ℕ, ◌+◌, ◌*◌, ◌<◌, ◌≡◌, ◌∙◌, List, not, ◌&&◌, ◌==◌, arith}
use james_os.Network.Utils.{get_bits_attr_value}
use james_os.Network.Utils.Fields.{bit_at, bit_at-lt, field, get_bits-field}
use james_os.Network.Tcp.{
  tcp_get_flags, is_set, tcp_recv_threeway_syn, tcp_recv_threeway_syn_ack, tcp_recv_threeway_ack,
  tcp_recv_psh_ack, tcp_recv_fin_ack,
}

-- The flags of a header as one number of nine bits.
abbrev flags_number : List ℕ → ℕ
flags_number h = get_bits_attr_value h 103 9

one_bit : (h : List ℕ) (o : ℕ) → o < 200 → get_bits_attr_value h o 1 ≡ bit_at h o
one_bit h o lt = get_bits-field h o 1 (omega arith) (omega arith) ∙ e
  where
    e : field h o 1 ≡ bit_at h o
    e = unfold field in omega arith

-- The number from the flags.
flags_sum :
    (h : List ℕ)
    → flags_number h
      ≡ bit_at h 103 * 256
        + bit_at h 104 * 128
        + bit_at h 105 * 64
        + bit_at h 106 * 32
        + bit_at h 107 * 16
        + bit_at h 108 * 8
        + bit_at h 109 * 4
        + bit_at h 110 * 2
        + bit_at h 111
unfolding field
flags_sum h = get_bits-field h 103 9 (omega arith) (omega arith) ∙ omega arith

-- Nine bits, and the pattern that each test asks for.
module _ (a b c d e f g h i n : ℕ) (ha : a < 2) (hb : b < 2) (hc : c < 2) (hd : d < 2) (he : e < 2)
    (hf : f < 2) (hg : g < 2) (hh : h < 2) (hi : i < 2)
    (sum : n ≡ a * 256 + b * 128 + c * 64 + d * 32 + e * 16 + f * 8 + g * 4 + h * 2 + i) where
  syn_pattern :
      (not (is_set a)
        && not (is_set b)
        && not (is_set c)
        && not (is_set d)
        && not (is_set e)
        && not (is_set f)
        && not (is_set g)
        && is_set h
        && not (is_set i))
      ≡ (n == 2)
  syn_pattern = ground arith

  syn_ack_pattern :
      (not (is_set a)
        && not (is_set b)
        && not (is_set c)
        && not (is_set d)
        && is_set e
        && not (is_set f)
        && not (is_set g)
        && is_set h
        && not (is_set i))
      ≡ (n == 18)
  syn_ack_pattern = ground arith

  ack_pattern :
      (not (is_set a)
        && not (is_set b)
        && not (is_set c)
        && not (is_set d)
        && is_set e
        && not (is_set f)
        && not (is_set g)
        && not (is_set h)
        && not (is_set i))
      ≡ (n == 16)
  ack_pattern = ground arith

  psh_ack_pattern :
      (not (is_set a)
        && not (is_set b)
        && not (is_set c)
        && not (is_set d)
        && is_set e
        && is_set f
        && not (is_set g)
        && not (is_set h)
        && not (is_set i))
      ≡ (n == 24)
  psh_ack_pattern = ground arith

  fin_ack_pattern :
      (not (is_set a)
        && not (is_set b)
        && not (is_set c)
        && not (is_set d)
        && is_set e
        && not (is_set f)
        && not (is_set g)
        && not (is_set h)
        && is_set i)
      ≡ (n == 17)
  fin_ack_pattern = ground arith

-- Each of the five tests on a received segment asks for one value of the nine flags, read as a
-- number with ECN as the highest and FIN as the lowest digit: 2 for SYN, 18 for SYN and ACK, 16
-- for ACK, 24 for PSH and ACK, 17 for FIN and ACK. So no segment passes two of them.
pub tcp_recv-flags :
    (header : List ℕ)
    → (tcp_recv_threeway_syn header ≡ (flags_number header == 2))
      × (tcp_recv_threeway_syn_ack header ≡ (flags_number header == 18))
      × (tcp_recv_threeway_ack header ≡ (flags_number header == 16))
      × (tcp_recv_psh_ack header ≡ (flags_number header == 24))
      × (tcp_recv_fin_ack header ≡ (flags_number header == 17))
unfolding tcp_recv_threeway_syn tcp_recv_threeway_syn_ack tcp_recv_threeway_ack tcp_recv_psh_ack
    tcp_recv_fin_ack tcp_get_flags
tcp_recv-flags header =
    let at = λ (o : ℕ). bit_at header o in
    let lt = λ (o : ℕ). bit_at-lt header o in
    rw
      (
        one_bit header 103 (omega arith),
        one_bit header 104 (omega arith),
        one_bit header 105 (omega arith),
        one_bit header 106 (omega arith),
        one_bit header 107 (omega arith),
        one_bit header 108 (omega arith),
        one_bit header 109 (omega arith),
        one_bit header 110 (omega arith),
        one_bit header 111 (omega arith),
      )
      (
        syn_pattern _ _ _ _ _ _ _ _ _ _ (lt 103) (lt 104) (lt 105) (lt 106) (lt 107) (lt 108)
            (lt 109) (lt 110) (lt 111) (flags_sum header),
        syn_ack_pattern _ _ _ _ _ _ _ _ _ _ (lt 103) (lt 104) (lt 105) (lt 106) (lt 107) (lt 108)
            (lt 109) (lt 110) (lt 111) (flags_sum header),
        ack_pattern _ _ _ _ _ _ _ _ _ _ (lt 103) (lt 104) (lt 105) (lt 106) (lt 107) (lt 108)
            (lt 109) (lt 110) (lt 111) (flags_sum header),
        psh_ack_pattern _ _ _ _ _ _ _ _ _ _ (lt 103) (lt 104) (lt 105) (lt 106) (lt 107) (lt 108)
            (lt 109) (lt 110) (lt 111) (flags_sum header),
        fin_ack_pattern _ _ _ _ _ _ _ _ _ _ (lt 103) (lt 104) (lt 105) (lt 106) (lt 107) (lt 108)
            (lt 109) (lt 110) (lt 111) (flags_sum header),
      )
