-- ===== src/Network/Arp/Packet.antt =====
-- A packet that is built is its fields one after the other.
use james_os.Prelude.{
  ℕ, zero, suc, ◌+◌, ◌≤◌, ◌<◌, ◌≡◌, refl, sym, ◌∙◌, ap, List, [], ◌∷◌, ◌++◌, arith, length,
  length-append, get_or, set, drop,
}
use mathlib.Core.List.{append-nil, append_assoc}
use james_os.Network.Utils.{copy_block, set_bytes_attr_value}
use james_os.Network.Ethernet.{bytes_of_16}
use james_os.Network.Arp.{ArpFields, build_arp_packet}

-- A byte after the part that is written.
set-after :
    (xs : List ℕ) (y : ℕ) (ys : List ℕ) (v : ℕ)
    → set (xs ++ (y ∷ ys)) (length xs) v ≡ xs ++ (v ∷ ys)
set-after [] y ys v = refl
set-after (x ∷ xs) y ys v = ap (λ (t : List ℕ). x ∷ t) (set-after xs y ys v)

drop-all : (xs : List ℕ) (i : ℕ) → i ≡ length xs → drop i xs ≡ []
drop-all [] zero e = refl
drop-all [] (suc i) e = refl
drop-all (x ∷ xs) zero e = absurd (omega (arith, e))
drop-all (x ∷ xs) (suc i) e = drop-all xs i (omega (arith, e))

drop-next : (xs : List ℕ) (i : ℕ) → i < length xs → drop i xs ≡ get_or xs i 0 ∷ drop (suc i) xs
drop-next [] i lt = absurd (omega (arith, lt))
drop-next (x ∷ xs) zero lt = refl
drop-next (x ∷ xs) (suc i) lt = drop-next xs i (omega (arith, lt))

-- Bytes written after the part that is written.
copy_block-after :
    (n : ℕ) (done source rest : List ℕ) (i : ℕ)
    → n ≤ length rest
    → n + i ≡ length source
    → copy_block source i (done ++ rest) (length done) n ≡ done ++ (drop i source ++ drop n rest)
unfolding copy_block
copy_block-after zero done source rest i le e =
    ap (λ (t : List ℕ). done ++ (t ++ rest)) (sym (drop-all source i (omega (arith, e))))
copy_block-after (suc n) done source [] i le e = absurd (omega (arith, le))
copy_block-after (suc n) done source (r ∷ rest) i le e =
    let v = get_or source i 0 in
    let here : length done + 1 ≡ length (done ++ (v ∷ [])) =
      omega (arith, length-append done (v ∷ [])) in
    let next : suc i ≡ i + 1 = omega arith in
    let first = drop-next source i (omega (arith, e)) in
    let more =
      copy_block-after n (done ++ (v ∷ [])) source rest (suc i) (omega (arith, le))
        (omega (arith, e)) in
    rw (set-after done r rest v, here, ← append_assoc done (v ∷ []) rest, first, ← next)
      (more ∙ append_assoc done (v ∷ []) (drop (suc i) source ++ drop n rest))

-- A whole field written after the fields before it.
field_written :
    (done source rest : List ℕ) (j n : ℕ)
    → length done ≡ j
    → length source ≡ n
    → n ≤ length rest
    → set_bytes_attr_value (done ++ rest) j n source ≡ done ++ source ++ drop n rest
unfolding set_bytes_attr_value
field_written done source rest j n ld ls le = rw (← ld) (
    copy_block-after n done source rest 0 le (omega (arith, ls))
    ∙ sym (append_assoc done source (drop n rest)))

pub length-drop_block : (n : ℕ) (xs : List ℕ) → n ≤ length xs → length (drop n xs) + n ≡ length xs
length-drop_block zero xs le = omega arith
length-drop_block (suc n) [] le = absurd (omega (arith, le))
length-drop_block (suc n) (x ∷ xs) le = omega (arith, length-drop_block n xs (omega (arith, le)))

-- A block of 28 bytes whose first `j` bytes are written.
record Begun (h done : List ℕ) (j : ℕ) : Type 0 where
  rest : List ℕ
  parts : h ≡ done ++ rest
  begin : length done ≡ j
  size : j + length rest ≡ 28

Begun-field :
    (h done source : List ℕ) (j n : ℕ)
    → Begun h done j
    → length source ≡ n
    → j + n ≤ 28
    → Begun (set_bytes_attr_value h j n source) (done ++ source) (j + n)
Begun-field h done source j n b ls fits = record {
  rest = drop n b.rest;
  parts =
      ap (λ (t : List ℕ). set_bytes_attr_value t j n source) b.parts
      ∙ field_written done source b.rest j n b.begin ls (omega (arith, fits, b.size));
  begin = omega (arith, length-append done source, b.begin, ls);
  size = omega (arith, length-drop_block n b.rest (omega (arith, fits, b.size)), b.size, fits);
}

nothing_left : (rest : List ℕ) → length rest ≡ 0 → rest ≡ []
nothing_left [] e = refl
nothing_left (r ∷ rest) e = absurd (omega (arith, e))

Begun-end : (h done : List ℕ) → Begun h done 28 → h ≡ done
Begun-end h done b =
    b.parts
    ∙ ap (λ (t : List ℕ). done ++ t) (nothing_left b.rest (omega (arith, b.size)))
    ∙ append-nil done

-- The fields of a packet in order.
unfoldable pub packet : ArpFields → List ℕ
packet f =
    bytes_of_16 f.htype
    ++ bytes_of_16 f.ptype
    ++ (f.hlen ∷ [])
    ++ (f.plen ∷ [])
    ++ bytes_of_16 f.oper
    ++ f.sha
    ++ f.spa
    ++ f.tha
    ++ f.tpa

pub build_arp_packet-packet :
    (block : List ℕ) (f : ArpFields)
    → length block ≡ 28
    → length f.sha ≡ 6
    → length f.spa ≡ 4
    → length f.tha ≡ 6
    → length f.tpa ≡ 4
    → build_arp_packet block f ≡ packet f
unfolding build_arp_packet packet
build_arp_packet-packet block f lb sha spa tha tpa =
    let b0 : Begun block [] 0 = record {
      rest = block;
      parts = refl;
      begin = refl;
      size = omega (arith, lb);
    } in
    let b1 = Begun-field block [] (bytes_of_16 f.htype) 0 2 b0 refl (omega arith) in
    let b2 = Begun-field _ _ (bytes_of_16 f.ptype) 2 2 b1 refl (omega arith) in
    let b3 = Begun-field _ _ (f.hlen ∷ []) 4 1 b2 refl (omega arith) in
    let b4 = Begun-field _ _ (f.plen ∷ []) 5 1 b3 refl (omega arith) in
    let b5 = Begun-field _ _ (bytes_of_16 f.oper) 6 2 b4 refl (omega arith) in
    let b6 = Begun-field _ _ f.sha 8 6 b5 sha (omega arith) in
    let b7 = Begun-field _ _ f.spa 14 4 b6 spa (omega arith) in
    let b8 = Begun-field _ _ f.tha 18 6 b7 tha (omega arith) in
    Begun-end _ _ (Begun-field _ _ f.tpa 24 4 b8 tpa (omega arith))
