-- ===== src/Libc/Mem.antt =====
-- src/libc/mem.c: the block operations, on one memory in which blocks may overlap. An address is
-- an index into the memory.
pub mod Copy
pub mod Compare
mod Tests
use james_os.Prelude.{ℕ, zero, suc, ◌+◌, ◌-◌, List, ◌==◌, ltb, if◌then◌else◌, get_or, set, u8}
use james_os.Prelude.Int.{ℤ, pos, negsuc}

abbrev pub byte_at : List ℕ → ℕ → ℕ
byte_at mem a = get_or mem a 0

-- `*dest = *source`
abbrev pub move : List ℕ → ℕ → ℕ → List ℕ
move mem source dest = set mem dest (byte_at mem source)

-- Upwards, from offset `i` on, with `left` to go.
pub copy_up : List ℕ → ℕ → ℕ → ℕ → ℕ → List ℕ
copy_up mem source dest i zero = mem
copy_up mem source dest i (suc left) =
    copy_up (move mem (source + i) (dest + i)) source dest (i + 1) left

-- Downwards: the pointers stand behind the byte that is moved next.
pub copy_down : List ℕ → ℕ → ℕ → ℕ → List ℕ
copy_down mem source dest zero = mem
copy_down mem source dest (suc left) =
    copy_down (move mem (source - 1) (dest - 1)) (source - 1) (dest - 1) left

pub memcpy : List ℕ → ℕ → ℕ → ℕ → List ℕ
memcpy mem source dest nbytes = copy_up mem source dest 0 nbytes

pub memset : List ℕ → ℕ → ℕ → ℕ → List ℕ
memset mem dest val zero = mem
memset mem dest val (suc len) = memset (set mem dest val) (dest + 1) val len

pub memmov : List ℕ → ℕ → ℕ → ℕ → List ℕ
memmov mem source dest len =
    if source == dest
    then mem
    else if ltb source dest
    then copy_down mem (source + len) (dest + len) len
    else copy_up mem source dest 0 len

-- The result is an `int8_t`.
pub memcmp : List ℕ → ℕ → ℕ → ℕ → ℤ
memcmp mem source targ zero = pos 0
memcmp mem source targ (suc len) =
    let rest = memcmp mem (source + 1) (targ + 1) len in
    if ltb (byte_at mem source) (byte_at mem targ)
    then negsuc 0
    else if ltb (byte_at mem targ) (byte_at mem source)
    then pos 1
    else rest
