-- ===== src/Network/Arp/Table.antt =====
-- The table of addresses after a packet.
use james_os.Prelude.{
  ℕ, zero, suc, ◌+◌, ◌-◌, ◌≤◌, ◌<◌, ◌≡◌, ◌≢◌, ◌⊎◌, refl, sym, ◌∙◌, ap, ap₂, List, [], ◌∷◌, Option,
  none, some, true, false, arith, length, get_or, take, drop, get_or-set_self, get_or-set_ne,
  Bool-cases, inl, inr, get_or_ext,
}
use native.Mathlib.Decide.{dec_le}
use james_os.Network.Utils.{copy_block}
use james_os.Network.Utils.Blocks.{get_or-copy_block, length-copy_block}
use james_os.Network.Arp.{
  ArpTableEntry, ArpTable, no_entry, bytes_from, same_bytes, search_mac, store_entry,
  update_arp_table,
}

-- 256 entries, with blocks of 4 and 6 bytes, of which `arp_table_size` are in use.
pub record IsTable (t : ArpTable) : Type 0 where
  pub entries : length t.arp_table ≡ 256
  pub ips : (j : ℕ) → j < 256 → length (get_or t.arp_table j no_entry).ip_addr ≡ 4
  pub macs : (j : ℕ) → j < 256 → length (get_or t.arp_table j no_entry).mac_addr ≡ 6

-- A pair of addresses is put into the table: in the entry that has the hardware address, or in a new
-- one if none has it.
pub record Noted (mac ip : List ℕ) (t t' : ArpTable) : Type 0 where
  pub place : ℕ
  pub noted : get_or t'.arp_table place no_entry ≡ record { ip_addr = ip; mac_addr = mac }
  pub in_use : place < t'.arp_table_size
  pub others : (j : ℕ) → j ≢ place → get_or t'.arp_table j no_entry ≡ get_or t.arp_table j no_entry
  pub known_or_new :
      ((t'.arp_table_size ≡ t.arp_table_size)
        × ((get_or t.arp_table place no_entry).mac_addr ≡ mac))
      ⊎ ((place ≡ t.arp_table_size)
          × (t'.arp_table_size ≡ t.arp_table_size + 1)
          × ((j : ℕ) → j < t.arp_table_size → (get_or t.arp_table j no_entry).mac_addr ≢ mac))

get_or-drop_one : (xs : List ℕ) (i : ℕ) → get_or (drop 1 xs) i 0 ≡ get_or xs (suc i) 0
get_or-drop_one [] i = refl
get_or-drop_one (x ∷ xs) i = refl

same_bytes_same :
    (n : ℕ) (a b : List ℕ) → length a ≡ n → length b ≡ n → same_bytes n a b ≡ true → a ≡ b
unfolding same_bytes
same_bytes_same zero [] [] la lb e = refl
same_bytes_same zero (x ∷ a) b la lb e = absurd (omega (arith, la))
same_bytes_same zero [] (y ∷ b) la lb e = absurd (omega (arith, lb))
same_bytes_same (suc n) [] b la lb e = absurd (omega (arith, la))
same_bytes_same (suc n) (x ∷ a) [] la lb e = absurd (omega (arith, lb))
same_bytes_same (suc n) (x ∷ a) (y ∷ b) la lb e =
    ap₂ ◌∷◌ (ground (arith, e))
      (same_bytes_same n a b (omega (arith, la)) (omega (arith, lb)) (ground (arith, e)))

same_bytes_refl : (n : ℕ) (a : List ℕ) → same_bytes n a a ≡ true
unfolding same_bytes
same_bytes_refl zero a = refl
same_bytes_refl (suc n) a = ground (arith, same_bytes_refl n (drop 1 a))

-- What the search finds.
Found : List ArpTableEntry → List ℕ → ℕ → ℕ → Option ℕ → Type 0
Found table mac i left none =
    (j : ℕ) → i ≤ j → j < i + left → same_bytes 6 (get_or table j no_entry).mac_addr mac ≡ false
Found table mac i left (some k) =
    (i ≤ k) × (k < i + left) × (same_bytes 6 (get_or table k no_entry).mac_addr mac ≡ true)

search_mac-Found :
    (table : List ArpTableEntry) (mac : List ℕ) (i left : ℕ)
    → Found table mac i left (search_mac table mac i left)
unfolding search_mac Found
search_mac-Found table mac i zero = λ j le lt. absurd (omega (arith, le, lt))
search_mac-Found table mac i (suc left) =
    elim (Bool-cases (same_bytes 6 (get_or table i no_entry).mac_addr mac)) [
      | inl same ↦ rw same (omega arith, omega arith, same)
      | inr other ↦ rw other (
          later (search_mac table mac (i + 1) left) other (search_mac-Found table mac (i + 1) left))
    ]
  where
    later :
        (r : Option ℕ)
        → same_bytes 6 (get_or table i no_entry).mac_addr mac ≡ false
        → Found table mac (i + 1) left r
        → Found table mac i (suc left) r
    later none here rest = λ j le lt. elim (dec_le j i) [
      | yes at ↦ let e : j ≡ i = omega (arith, at, le) in rw e here
      | no after ↦ rest j (omega (arith, after)) (omega (arith, lt))
    ]
    later (some k) here (le, lt, same) = (omega (arith, le), omega (arith, lt), same)

-- The bytes of a packet that are copied.
length-taken : (n : ℕ) (xs : List ℕ) → n ≤ length xs → length (take n xs) ≡ n
length-taken zero xs le = refl
length-taken (suc n) [] le = absurd (omega (arith, le))
length-taken (suc n) (x ∷ xs) le = omega (arith, length-taken n xs (omega (arith, le)))

length-dropped : (n : ℕ) (xs : List ℕ) → n ≤ length xs → length (drop n xs) + n ≡ length xs
length-dropped zero xs le = omega arith
length-dropped (suc n) [] le = absurd (omega (arith, le))
length-dropped (suc n) (x ∷ xs) le = omega (arith, length-dropped n xs (omega (arith, le)))

get_or-taken : (n : ℕ) (xs : List ℕ) (i : ℕ) → i < n → get_or (take n xs) i 0 ≡ get_or xs i 0
get_or-taken zero xs i lt = absurd (omega (arith, lt))
get_or-taken (suc n) [] i lt = refl
get_or-taken (suc n) (x ∷ xs) zero lt = refl
get_or-taken (suc n) (x ∷ xs) (suc i) lt = get_or-taken n xs i (omega (arith, lt))

get_or-dropped : (n : ℕ) (xs : List ℕ) (i : ℕ) → get_or (drop n xs) i 0 ≡ get_or xs (i + n) 0
get_or-dropped zero xs i = ap (λ (t : ℕ). get_or xs t 0) (omega arith)
get_or-dropped (suc n) [] i = refl
get_or-dropped (suc n) (x ∷ xs) i =
    get_or-dropped n xs i ∙ ap (λ (t : ℕ). get_or (x ∷ xs) t 0) (index i n)
  where
    index : (i n : ℕ) → suc (i + n) ≡ i + suc n
    index i n = omega arith

pub length-part :
    (header : List ℕ) (offset n : ℕ)
    → offset + n ≤ length header
    → length (bytes_from header offset n) ≡ n
length-part header offset n le =
    length-taken n (drop offset header)
      (omega (arith, le, length-dropped offset header (omega (arith, le))))

copied_part :
    (header block : List ℕ) (offset n : ℕ)
    → offset + n ≤ length header
    → length block ≡ n
    → copy_block header offset block 0 n ≡ bytes_from header offset n
copied_part header block offset n le lb =
    get_or_ext 0 (copy_block header offset block 0 n) (bytes_from header offset n)
      (length-copy_block header offset block 0 n ∙ lb ∙ sym (length-part header offset n le))
      (λ q lt.
        let inside : q < n = omega (arith, lt, length-copy_block header offset block 0 n, lb) in
        let index : offset + q - 0 ≡ q + offset = omega arith in
        ground (
          arith,
          inside,
          get_or-copy_block header offset block 0 n q (omega (arith, lb)),
          ap (λ (t : ℕ). get_or header t 0) index,
          get_or-taken n (drop offset header) q inside,
          get_or-dropped offset header q,
        ))

-- The sender of a packet is put into the table.
pub update_arp_table-Noted :
    (header : List ℕ) (t : ArpTable)
    → length header ≡ 28
    → IsTable t
    → t.arp_table_size < 255
    → Noted (bytes_from header 8 6) (bytes_from header 14 4) t (update_arp_table header t)
unfolding update_arp_table store_entry Found
update_arp_table-Noted header t lh h room =
    stored (search_mac t.arp_table (bytes_from header 8 6) 0 t.arp_table_size)
      (search_mac-Found t.arp_table (bytes_from header 8 6) 0 t.arp_table_size)
  where
    mac_length : length (bytes_from header 8 6) ≡ 6
    mac_length = length-part header 8 6 (omega (arith, lh))

    stored :
        (r : Option ℕ)
        → Found t.arp_table (bytes_from header 8 6) 0 t.arp_table_size r
        → Noted (bytes_from header 8 6) (bytes_from header 14 4) t (store_entry header t r)
    stored (some k) (le, lt, same) =
        let entry = get_or t.arp_table k no_entry in
        let known : entry.mac_addr ≡ bytes_from header 8 6 =
          same_bytes_same 6 entry.mac_addr (bytes_from header 8 6)
            (h.macs k (omega (arith, lt, room))) mac_length same in
        let ip =
          copied_part header entry.ip_addr 14 4 (omega (arith, lh))
            (h.ips k (omega (arith, lt, room))) in
        record {
          place = k;
          noted =
              get_or-set_self t.arp_table k
                (record entry { ip_addr = copy_block header 14 entry.ip_addr 0 4 }) no_entry
                (omega (arith, lt, room, h.entries))
              ∙ ap₂ (λ (i m : List ℕ). record { ip_addr = i; mac_addr = m }) ip known;
          in_use = omega (arith, lt);
          others = λ j ne. get_or-set_ne t.arp_table k j _ no_entry (λ e. ne (sym e));
          known_or_new = inl (refl, known);
        }
    stored none absent =
        let k = t.arp_table_size in
        let entry = get_or t.arp_table k no_entry in
        let below : k < 256 = omega (arith, room) in
        let ip = copied_part header entry.ip_addr 14 4 (omega (arith, lh)) (h.ips k below) in
        let mac = copied_part header entry.mac_addr 8 6 (omega (arith, lh)) (h.macs k below) in
        record {
          place = k;
          noted =
              get_or-set_self t.arp_table k
                (record {
                  ip_addr = copy_block header 14 entry.ip_addr 0 4;
                  mac_addr = copy_block header 8 entry.mac_addr 0 6;
                })
                no_entry (omega (arith, below, h.entries))
              ∙ ap₂ (λ (i m : List ℕ). record { ip_addr = i; mac_addr = m }) ip mac;
          in_use = omega (arith, room);
          others = λ j ne. get_or-set_ne t.arp_table k j _ no_entry (λ e. ne (sym e));
          known_or_new = inr (
            refl,
            omega (arith, room),
            λ j lt e. absurd (
                ground (
                  arith,
                  absent j (omega arith) (omega (arith, lt)),
                  ap (λ (m : List ℕ). same_bytes 6 m (bytes_from header 8 6)) e
                      ∙ same_bytes_refl 6 (bytes_from header 8 6),
                )),
          );
        }
