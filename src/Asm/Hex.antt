-- ===== src/Asm/Hex.antt =====
-- The format of an address, in upper-case hexadecimal digits, and the number that such digits mean.
use pti_gpu_itt_only.Base.{
  ℕ, zero, suc, ◌+◌, ◌*◌, ◌/◌, ◌%◌, ◌-◌, ◌≤◌, ◌<◌, ◌≡◌, ◌∙◌, refl, sym, ap, arith, [], ◌∷◌, ◌++◌,
  if◌then◌else◌, length, All, ◌==◌, ltb, inl, inr, Bool-cases,
}
use pti_gpu_itt_only.Text.{Text}
use pti_gpu_itt_only.Asm.{hex_digit, hex_digits, zeros, format_08X}

-- A digit `0` to `9` or `A` to `F`.
abbrev pub IsHex : ℕ → Type 0
IsHex c = (b'0' ≤ c) × (c ≤ b'F')

All-append : (xs ys : Text) → All IsHex xs → All IsHex ys → All IsHex (xs ++ ys)
All-append [] ys h k = k
All-append (x ∷ xs) ys (h, hs) k = (h, All-append xs ys hs k)

hex_digit-IsHex : (d : ℕ) → d < 16 → IsHex (hex_digit d)
unfolding hex_digit
hex_digit-IsHex d h = ground arith

hex_digits-IsHex : (fuel n : ℕ) → All IsHex (hex_digits fuel n)
unfolding hex_digits
hex_digits-IsHex zero n = tt
hex_digits-IsHex (suc fuel) n = elim (Bool-cases (n == 0)) [
  | inl h ↦ rw h tt
  | inr h ↦ rw h (
      All-append (hex_digits fuel (n / 16)) (hex_digit (n % 16) ∷ [])
        (hex_digits-IsHex fuel (n / 16)) (hex_digit-IsHex (n % 16) (omega arith), tt))
]

zeros-IsHex : (n : ℕ) → All IsHex (zeros n)
unfolding zeros
zeros-IsHex zero = tt
zeros-IsHex (suc n) = ((omega arith, omega arith), zeros-IsHex n)

pub format_08X-IsHex : (ip : ℕ) → All IsHex (format_08X ip)
unfolding format_08X
format_08X-IsHex ip =
    All-append (zeros (8 - length (hex_digits (ip + 1) ip))) (hex_digits (ip + 1) ip)
      (zeros-IsHex (8 - length (hex_digits (ip + 1) ip))) (hex_digits-IsHex (ip + 1) ip)

abbrev pub digit_value : ℕ → ℕ
digit_value c = if ltb c 58 then c - 48 else c - 55

-- The number that upper-case digits stand for, read behind the number `acc`.
abbrev pub hex_value : ℕ → Text → ℕ
hex_value acc [] = acc
hex_value acc (c ∷ s) = hex_value (acc * 16 + digit_value c) s

hex_value-append :
    (acc : ℕ) (xs ys : Text) → hex_value acc (xs ++ ys) ≡ hex_value (hex_value acc xs) ys
hex_value-append acc [] ys = refl
hex_value-append acc (x ∷ xs) ys = hex_value-append (acc * 16 + digit_value x) xs ys

digit_value-hex_digit : (d : ℕ) → d < 16 → digit_value (hex_digit d) ≡ d
unfolding hex_digit
digit_value-hex_digit d h = ground arith

hex_value-zeros : (n : ℕ) → hex_value 0 (zeros n) ≡ 0
unfolding zeros
hex_value-zeros zero = refl
hex_value-zeros (suc n) = hex_value-zeros n

hex_value-hex_digits : (fuel n : ℕ) → n < fuel → hex_value 0 (hex_digits fuel n) ≡ n
unfolding hex_digits
hex_value-hex_digits zero n h = absurd (omega arith)
hex_value-hex_digits (suc fuel) n h = elim (Bool-cases (n == 0)) [
  | inl e ↦ rw e (ground arith)
  | inr e ↦ rw e (
      rw
        (
          hex_value-append 0 (hex_digits fuel (n / 16)) (hex_digit (n % 16) ∷ []),
          hex_value-hex_digits fuel (n / 16) (ground arith),
        )
        (omega (arith, digit_value-hex_digit (n % 16) (omega arith))))
]

-- The digits of a formatted number give the number back.
pub hex_value-format_08X : (ip : ℕ) → hex_value 0 (format_08X ip) ≡ ip
unfolding format_08X
hex_value-format_08X ip =
    let digits = hex_digits (ip + 1) ip in
    hex_value-append 0 (zeros (8 - length digits)) digits
    ∙ rw (hex_value-zeros (8 - length digits)) (hex_value-hex_digits (ip + 1) ip (omega arith))

pub format_08X_inj : (m n : ℕ) → format_08X m ≡ format_08X n → m ≡ n
format_08X_inj m n h = sym (hex_value-format_08X m) ∙ ap (hex_value 0) h ∙ hex_value-format_08X n
