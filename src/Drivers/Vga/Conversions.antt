-- ===== src/Drivers/Vga/Conversions.antt =====
-- What a conversion of `kprintf` prints, by the letter and the argument.
use james_os.Prelude.{
  ℕ, ◌+◌, ◌-◌, ◌%◌, ◌^◌, Bool, true, ◌||◌, ==→eq, bit_and, ◌>>>◌, codes, get_or, ◌/◌, ◌≡◌, refl,
  ◌∙◌, ap, List, [], ◌∷◌, Bool-cases, inl, inr, ltb, ◌==◌, if◌then◌else◌, arith,
}
use james_os.Drivers.Vga.{Arg, convert, decimal, int, text, hexadecimal, hex_digits}
use james_os.Prelude.Bits.{passes_up_to, use_table}
use james_os.Prelude.Binary.{bit_and_ones}

-- A digit of a number in hexadecimal.
unfoldable pub hex_digit : ℕ → ℕ
hex_digit d = if ltb d 10 then b'0' + d else b'a' + (d - 10)

-- A number in hexadecimal, with its eight digits.
unfoldable pub hex_text : ℕ → List ℕ
hex_text n =
    b'0'
    ∷ b'x'
    ∷ hex_digit (n / 2 ^ 28 % 16)
    ∷ hex_digit (n / 2 ^ 24 % 16)
    ∷ hex_digit (n / 2 ^ 20 % 16)
    ∷ hex_digit (n / 2 ^ 16 % 16)
    ∷ hex_digit (n / 2 ^ 12 % 16)
    ∷ hex_digit (n / 2 ^ 8 % 16)
    ∷ hex_digit (n / 2 ^ 4 % 16)
    ∷ hex_digit (n / 2 ^ 0 % 16)
    ∷ []

-- What stands for an argument in the text, by the letter of the conversion.
unfoldable pub shown : List ℕ → ℕ → Arg → List ℕ
shown s c (int n) = if c == b'd' then decimal s n else if c == b'x' then hex_text n else []
shown s c (text t) = if c == b's' then t else []

-- The letters that take an argument.
unfoldable pub takes : ℕ → Bool
takes c = (c == b'd') || (c == b'x') || (c == b's')

hex_table : passes_up_to (λ d. get_or (codes "0123456789abcdef") d 0 == hex_digit d) 16 ≡ true
unfolding passes_up_to hex_digit
hex_table = refl

hex_digit-found :
    (n shift : ℕ)
    → get_or (codes "0123456789abcdef") (bit_and (n >>> shift) 0xf) 0
      ≡ hex_digit (n / 2 ^ shift % 16)
hex_digit-found n shift =
    ap (λ (d : ℕ). get_or (codes "0123456789abcdef") d 0) (bit_and_ones 4 (n / 2 ^ shift))
    ∙ ==→eq _ _ (
        use_table (λ d. get_or (codes "0123456789abcdef") d 0 == hex_digit d) 16 hex_table
          (n / 2 ^ shift % 16) (omega arith))

pub hexadecimal-hex_text : (n : ℕ) → hexadecimal n ≡ hex_text n
unfolding hexadecimal hex_digits hex_text
hexadecimal-hex_text n =
    rw
      (
        hex_digit-found n 28,
        hex_digit-found n 24,
        hex_digit-found n 20,
        hex_digit-found n 16,
        hex_digit-found n 12,
        hex_digit-found n 8,
        hex_digit-found n 4,
        hex_digit-found n 0,
      )
      refl

pub convert-shown :
    (s : List ℕ) (c : ℕ) (a : Arg) (args : List Arg)
    → convert s c (a ∷ args) ≡ (if takes c then (shown s c a, args) else ([], a ∷ args))
unfolding convert shown takes
convert-shown s c (int n) args = elim (Bool-cases (c == b'd')) [
  | inl d ↦ rw d refl
  | inr nd ↦ elim (Bool-cases (c == b'x')) [
    | inl x ↦ rw (nd, x, hexadecimal-hex_text n) refl
    | inr nx ↦ elim (Bool-cases (c == b's')) [
      | inl t ↦ rw (nd, nx, t) refl
      | inr nt ↦ rw (nd, nx, nt) refl
    ]
  ]
]
convert-shown s c (text t) args = elim (Bool-cases (c == b's')) [
  | inl is ↦ elim (Bool-cases (c == b'd')) [
    | inl d ↦ rw (is, d) refl
    | inr nd ↦ elim (Bool-cases (c == b'x')) [
      | inl x ↦ rw (is, nd, x) refl
      | inr nx ↦ rw (is, nd, nx) refl
    ]
  ]
  | inr other ↦ elim (Bool-cases (c == b'd')) [
    | inl d ↦ rw (other, d) refl
    | inr nd ↦ elim (Bool-cases (c == b'x')) [
      | inl x ↦ rw (other, nd, x) refl
      | inr nx ↦ rw (other, nd, nx) refl
    ]
  ]
]
