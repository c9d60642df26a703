-- ===== src/Drivers/Pci/Search.antt =====
-- Addresses on the bus, and the device that is found.
use james_os.Prelude.{
  true, if◌then◌else◌, ℕ, zero, suc, ◌+◌, ◌*◌, ◌/◌, ◌%◌, ◌^◌, ◌≤◌, ◌<◌, ◌≡◌, ◌≢◌, refl, sym, ◌∙◌,
  ap, Option, none, some, ◌==◌, arith, bit_and, bit_or, u32, ◌<<<◌, Bool-cases, inl, inr,
}
use native.Mathlib.Decide.{dec_le}
use james_os.Prelude.Binary.{bit_or_digit, bit_or_disjoint, bit_and_ones, bit_and_shifted}
use james_os.Drivers.Pci.{pci_gen_address, pci_read_data, pci_get_device, device_loop, bus_loop}

bit_or_comm_le : (k a b : ℕ) → a ≤ k → b ≤ k → bit_or a b ≡ bit_or b a
bit_or_comm_le zero zero zero la lb = refl
bit_or_comm_le zero (suc a) b la lb = absurd (omega (arith, la))
bit_or_comm_le zero a (suc b) la lb = absurd (omega (arith, lb))
bit_or_comm_le (suc k) a b la lb = omega (
  arith,
  bit_or_digit a b,
  bit_or_digit b a,
  bit_or_comm_le k (a / 2) (b / 2) (omega (arith, la)) (omega (arith, lb)),
)

-- The enable bit, the bus, the device and the offset of a register of four bytes stand side by side.
pci_gen_address-fields :
    (bus device offset : ℕ)
    → bus < 256
    → device < 32
    → offset < 256
    → pci_gen_address bus device offset ≡ 2147483648 + bus * 65536 + device * 2048 + offset / 4 * 4
unfolding pci_gen_address
pci_gen_address-fields bus device offset lb ld lo =
    let e_bus : u32 (bus <<< 16) ≡ bus * 2 ^ 16 = omega (arith, lb) in
    let e_device : u32 (device <<< 11) ≡ device * 2048 = omega (arith, ld) in
    let e_low : bit_and offset 0xfc ≡ offset / 4 * 4 =
      bit_and_shifted 2 offset 63 ∙ omega (arith, bit_and_ones 6 (offset / 2 ^ 2), lo) in
    let step1 : bit_or (bus * 2 ^ 16) (device * 2048) ≡ bus * 2 ^ 16 + device * 2048 =
      bit_or_disjoint 16 bus (device * 2048) (omega (arith, ld)) in
    let n = bus * 32 + device in
    let e_n : bus * 2 ^ 16 + device * 2048 ≡ n * 2 ^ 11 = omega arith in
    let step2 : bit_or (n * 2 ^ 11) 0 ≡ n * 2 ^ 11 =
      bit_or_disjoint 11 n 0 (omega arith) ∙ omega arith in
    let step3 : bit_or (n * 2 ^ 11) (offset / 4 * 4) ≡ n * 2 ^ 11 + offset / 4 * 4 =
      bit_or_disjoint 11 n (offset / 4 * 4) (omega (arith, lo)) in
    let m = n * 2 ^ 11 + offset / 4 * 4 in
    let top : bit_or m 2147483648 ≡ 2147483648 + m =
      bit_or_comm_le 4294967296 m 2147483648 (omega (arith, lb, ld, lo)) (omega arith)
      ∙ bit_or_disjoint 31 1 m (omega (arith, lb, ld, lo)) in
    rw (e_bus, e_device, e_low, step1, e_n, step2, step3) (top ∙ omega arith)

-- A bus on which function `f` of device `d` of bus `b` has the register `regs b d f n` at the offset
-- 4 n. Only an address with the bit 31 set reaches the configuration space; `elsewhere` is what the
-- data port gives for another one.
abbrev pub decoded : (ℕ → ℕ → ℕ → ℕ → ℕ) → (ℕ → ℕ) → ℕ → ℕ
decoded regs elsewhere address =
    if address / 2147483648 == 1
    then regs (address / 65536 % 256) (address / 2048 % 32) (address / 256 % 8) (address / 4 % 64)
    else elsewhere address

pub pci_read_data-decoded :
    (regs : ℕ → ℕ → ℕ → ℕ → ℕ) (elsewhere : ℕ → ℕ) (bus device offset : ℕ)
    → bus < 256
    → device < 32
    → offset < 256
    → pci_read_data (decoded regs elsewhere) bus device offset ≡ regs bus device 0 (offset / 4)
unfolding pci_read_data
pci_read_data-decoded regs elsewhere bus device offset lb ld lo =
    let e = pci_gen_address-fields bus device offset lb ld lo in
    let a = pci_gen_address bus device offset in
    let e_enable : (a / 2147483648 == 1) ≡ true = ground (arith, e, lb, ld, lo) in
    let e_bus : a / 65536 % 256 ≡ bus = omega (arith, e, lb, ld, lo) in
    let e_device : a / 2048 % 32 ≡ device = omega (arith, e, lb, ld, lo) in
    let e_function : a / 256 % 8 ≡ 0 = omega (arith, e, lb, ld, lo) in
    let e_offset : a / 4 % 64 ≡ offset / 4 = omega (arith, e, lb, ld, lo) in
    rw (e_enable, e_bus, e_device, e_function, e_offset) refl

module _ (config : ℕ → ℕ) (reg : ℕ) where
  abbrev Absent : ℕ → ℕ → Type 0
  Absent bus j = pci_read_data config bus j 0 ≢ reg

  abbrev DeviceOutcome : ℕ → ℕ → ℕ → Option ℕ → Type 0
  DeviceOutcome bus j left none = (d : ℕ) → j ≤ d → d < j + left → Absent bus d
  DeviceOutcome bus j left (some k) =
      (j ≤ k)
      × (k < j + left)
      × (pci_read_data config bus k 0 ≡ reg)
      × ((d : ℕ) → j ≤ d → d < k → Absent bus d)

  device_loop-outcome :
      (bus j left : ℕ) → DeviceOutcome bus j left (device_loop config reg bus j left)
  unfolding device_loop
  device_loop-outcome bus j zero = λ d le lt. absurd (omega (arith, le, lt))
  device_loop-outcome bus j (suc left) = elim (Bool-cases (pci_read_data config bus j 0 == reg)) [
    | inl found ↦
        rw found (
          omega arith,
          omega arith,
          ground (arith, found),
          λ d le lt. absurd (omega (arith, le, lt)),
        )
    | inr other ↦ rw other (
        later (device_loop config reg bus (j + 1) left) (ground (arith, other))
          (device_loop-outcome bus (j + 1) left))
  ]
    where
      later :
          (r : Option ℕ)
          → Absent bus j
          → DeviceOutcome bus (j + 1) left r
          → DeviceOutcome bus j (suc left) r
      later none here rest = λ d le lt. elim (dec_le d j) [
        | yes at ↦ let e : d ≡ j = omega (arith, at, le) in rw e here
        | no after ↦ rest d (omega (arith, after)) (omega (arith, lt))
      ]
      later (some k) here (le, lt, same, before) = (
        omega (arith, le),
        omega (arith, lt),
        same,
        λ d le' lt'. elim (dec_le d j) [
          | yes at ↦ let e : d ≡ j = omega (arith, at, le') in rw e here
          | no after ↦ before d (omega (arith, after)) lt'
        ],
      )

  abbrev NoDevice : ℕ → Type 0
  NoDevice bus = (d : ℕ) → d < 32 → Absent bus d

  abbrev BusOutcome : ℕ → ℕ → Option (ℕ × ℕ) → Type 0
  BusOutcome i left none = (b : ℕ) → i ≤ b → b < i + left → NoDevice b
  BusOutcome i left (some (bus, k)) =
      (i ≤ bus)
      × (bus < i + left)
      × (k < 32)
      × (pci_read_data config bus k 0 ≡ reg)
      × ((b : ℕ) → i ≤ b → b < bus → NoDevice b)
      × ((d : ℕ) → d < k → Absent bus d)

  bus_loop-outcome : (i left : ℕ) → BusOutcome i left (bus_loop config reg i left)
  unfolding bus_loop
  bus_loop-outcome i zero = λ b le lt. absurd (omega (arith, le, lt))
  bus_loop-outcome i (suc left) =
      on_bus (device_loop config reg i 0 32) (bus_loop config reg (i + 1) left)
        (device_loop-outcome i 0 32) (bus_loop-outcome (i + 1) left)
    where
      later :
          (r : Option (ℕ × ℕ)) → NoDevice i → BusOutcome (i + 1) left r → BusOutcome i (suc left) r
      later none here rest = λ b le lt. elim (dec_le b i) [
        | yes at ↦ let e : b ≡ i = omega (arith, at, le) in rw e here
        | no after ↦ rest b (omega (arith, after)) (omega (arith, lt))
      ]
      later (some (bus, k)) here (le, lt, lk, same, before, first) = (
        omega (arith, le),
        omega (arith, lt),
        lk,
        same,
        λ b le' lt'. elim (dec_le b i) [
          | yes at ↦ let e : b ≡ i = omega (arith, at, le') in rw e here
          | no after ↦ before b (omega (arith, after)) lt'
        ],
        first,
      )

      on_bus :
          (q : Option ℕ) (r : Option (ℕ × ℕ))
          → DeviceOutcome i 0 32 q
          → BusOutcome (i + 1) left r
          → BusOutcome i (suc left) (elim q [ some j ↦ some (i, j) | none ↦ r ])
      on_bus none r absent rest = later r (λ d lt. absent d (omega arith) (omega (arith, lt))) rest
      on_bus (some k) r (le, lt, same, before) rest = (
        omega arith,
        omega arith,
        omega (arith, lt),
        same,
        λ b le' lt'. absurd (omega (arith, le', lt')),
        λ d lt'. before d (omega arith) lt',
      )

-- The first device with an identification, in the order of the buses and of the devices on a bus,
-- or that there is none.
abbrev pub FirstDevice : (ℕ → ℕ → ℕ → ℕ → ℕ) → ℕ → Option (ℕ × ℕ) → Type 0
FirstDevice regs id none = (b d : ℕ) → b < 256 → d < 32 → regs b d 0 0 ≢ id
FirstDevice regs id (some (bus, k)) =
    (bus < 256)
    × (k < 32)
    × (regs bus k 0 0 ≡ id)
    × ((b d : ℕ) → b < 256 → d < 32 → b * 32 + d < bus * 32 + k → regs b d 0 0 ≢ id)

-- On a bus on which each device has its registers at the addresses of PCI, and where addresses
-- without the enable bit give anything, `pci_get_device` finds the first device, in the order of the
-- buses and of the devices on a bus, whose function 0 has in register 0 the vendor in the low and the
-- device in the high 16 bits, and nothing only if there is no such device.
pub pci_get_device-FirstDevice :
    (regs : ℕ → ℕ → ℕ → ℕ → ℕ) (elsewhere : ℕ → ℕ) (vendor_id device_id : ℕ)
    → vendor_id < 65536
    → device_id < 65536
    → FirstDevice regs
        (device_id * 65536 + vendor_id)
        (pci_get_device (decoded regs elsewhere) vendor_id device_id)
unfolding pci_get_device
pci_get_device-FirstDevice regs elsewhere vendor_id device_id lv ld =
    let high : u32 (device_id <<< 16) ≡ device_id * 2 ^ 16 = omega (arith, ld) in
    let id : bit_or (device_id * 2 ^ 16) vendor_id ≡ device_id * 65536 + vendor_id =
      bit_or_disjoint 16 device_id vendor_id lv in
    rw (high, id)
      (by_address (bus_loop (decoded regs elsewhere) (device_id * 65536 + vendor_id) 0 256)
        (bus_loop-outcome (decoded regs elsewhere) (device_id * 65536 + vendor_id) 0 256))
  where
    by_address :
        (r : Option (ℕ × ℕ))
        → BusOutcome (decoded regs elsewhere) (device_id * 65536 + vendor_id) 0 256 r
        → FirstDevice regs (device_id * 65536 + vendor_id) r
    by_address none absent = λ b d lb ld'. λ e.
        absent b (omega arith) (omega (arith, lb)) d ld'
          (pci_read_data-decoded regs elsewhere b d 0 lb ld' (omega arith) ∙ e)
    by_address (some (bus, k)) (le, lt, lk, same, before, first) = (
      omega (arith, lt),
      lk,
      sym (pci_read_data-decoded regs elsewhere bus k 0 (omega (arith, lt)) lk (omega arith))
          ∙ same,
      λ b d lb ld' earlier e.
          let at = pci_read_data-decoded regs elsewhere b d 0 lb ld' (omega arith) ∙ e in
          elim (dec_le bus b) [
            | yes same_bus ↦
                let e' : b ≡ bus = omega (arith, same_bus, earlier, lk) in
                first d (omega (arith, e', earlier))
                  (ap (λ (t : ℕ). pci_read_data (decoded regs elsewhere) t d 0) (sym e') ∙ at)
            | no other ↦ before b (omega arith) (omega (arith, other)) d ld' at
          ],
    )
