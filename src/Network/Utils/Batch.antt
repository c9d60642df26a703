-- ===== src/Network/Utils/Batch.antt =====
-- Headers that are filled in by a sequence of `set_bits_attr_value`, and what is read from them.
use james_os.Prelude.{
  ℕ, ◌+◌, ◌*◌, ◌^◌, ◌%◌, ◌≤◌, ◌≡◌, refl, ◌∙◌, List, [], ◌∷◌, Bool, true, Bool-cases, Option, none,
  some, ◌&&◌, ◌||◌, ◌==◌, leb, if◌then◌else◌, arith, length, IsBytes, inl, inr,
}
use james_os.Network.Utils.{set_bits_attr_value, get_bits_attr_value}
use james_os.Network.Utils.Writes.{get_bits-set_bits, set_bits-keeps}

pub record Write : Type 0 where
  pub offset : ℕ
  pub size : ℕ
  pub value : ℕ

abbrev pub write : ℕ → ℕ → ℕ → Write
write o s v = record { offset = o; size = s; value = v }

-- The last write comes first in the list.
unfoldable pub write_all : List Write → List ℕ → List ℕ
write_all [] h = h
write_all (w ∷ ws) h = set_bits_attr_value (write_all ws h) w.offset w.size w.value

-- Whether all writes lie in a header of `n` bytes and have up to 32 bits.
abbrev pub all_fit : ℕ → List Write → Bool
all_fit n [] = true
all_fit n (w ∷ ws) = leb (w.offset + w.size) (8 * n) && leb w.size 32 && all_fit n ws

-- The value that was last written to a field; `none` if it was not written, or was written in part.
abbrev pub value_at : ℕ → ℕ → List Write → Option ℕ
value_at o s [] = none
value_at o s (w ∷ ws) =
    let rest = value_at o s ws in
    if (w.offset == o) && (w.size == s)
    then some w.value
    else if leb (o + s) w.offset || leb (w.offset + w.size) o
    then rest
    else none

pub write_all-keeps :
    (ws : List Write) (h : List ℕ)
    → IsBytes h
    → IsBytes (write_all ws h) × (length (write_all ws h) ≡ length h)
unfolding write_all
write_all-keeps [] h hb = (hb, refl)
write_all-keeps (w ∷ ws) h hb =
    let (bytes, same) = write_all-keeps ws h hb in
    let (bytes', same') = set_bits-keeps (write_all ws h) w.offset w.size w.value bytes in
    (bytes', same' ∙ same)

read_last :
    (w : Write) (h : List ℕ) (o s v : ℕ)
    → IsBytes h
    → w.offset + w.size ≤ 8 * length h
    → length h ≤ 256
    → w.size ≤ 32
    → w.offset ≡ o
    → w.size ≡ s
    → w.value ≡ v
    → get_bits_attr_value (set_bits_attr_value h w.offset w.size w.value) o s ≡ v % 2 ^ s
read_last w h o s v hb fits short narrow here wide is =
    rw (here, wide, is)
      (get_bits-set_bits h o s v 0 0 hb (omega (arith, here, wide)) (omega (arith, here, wide))
        (omega (arith, wide)) (omega arith) (omega arith) (inl (omega arith))).0

-- A field reads as the value that was last written to it, cut to the field's width, if the writes
-- after that one do not touch it.
pub get_bits-write_all :
    (ws : List Write) (n : ℕ) (h : List ℕ) (o s v : ℕ)
    → IsBytes h
    → length h ≡ n
    → n ≤ 256
    → all_fit n ws ≡ true
    → o + s ≤ 8 * n
    → s ≤ 32
    → value_at o s ws ≡ some v
    → get_bits_attr_value (write_all ws h) o s ≡ v % 2 ^ s
unfolding write_all
get_bits-write_all [] n h o s v hb len short fit inside narrow e = absurd (ground (arith, e))
get_bits-write_all (w ∷ ws) n h o s v hb len short fit inside narrow e =
    let (bytes, same) = write_all-keeps ws h hb in
    let fit1 : w.offset + w.size ≤ 8 * n = ground (arith, fit) in
    let fit2 : w.size ≤ 32 = ground (arith, fit) in
    let fit3 : all_fit n ws ≡ true = ground (arith, fit) in
    elim (Bool-cases ((w.offset == o) && (w.size == s))) [
      | inl here ↦
          let value' : some w.value ≡ some v = rw here at e in
          read_last w (write_all ws h) o s v bytes (omega (arith, same)) (omega (arith, same)) fit2
            (ground (arith, here)) (ground (arith, here)) cc
      | inr other ↦ elim (Bool-cases (leb (o + s) w.offset || leb (w.offset + w.size) o)) [
        | inl apart ↦
            (get_bits-set_bits (write_all ws h) w.offset w.size w.value o s bytes
              (omega (arith, same)) (omega arith) fit2 (omega arith) narrow
              (ground (arith, apart))).1
            ∙ get_bits-write_all ws n h o s v hb len short fit3 inside narrow
                (rw (other, apart) at e)
        | inr touches ↦ absurd (ground (arith, rw (other, touches) at e))
      ]
    ]
