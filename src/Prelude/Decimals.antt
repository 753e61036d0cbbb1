-- ===== src/Prelude/Decimals.antt =====
-- A number that is printed in decimal and followed by a text can be read back.
use Prim.Native.Nat.{ℕ, zero, suc, ◌+◌, ◌-◌, ◌*◌, ◌/◌, ◌%◌, ◌<◌}
use Prim.Native.Char.{Char, code}
use Prim.Native.String.{String}
use mathlib.Core.Path.{◌≡◌, ap, ◌∙◌}
use mathlib.Core.Logic.{inl, inr}
use native.Mathlib.Omega.{arith}
use text.Mathlib.TextLemmas.{append_assoc, cons-append, nil-append}
use whatsapp_auto_send.Prelude.Equality.{ltb, if◌then◌else◌, Bool-cases}
use whatsapp_auto_send.Prelude.Text.{is_digit, digit_text, decimal_loop, decimal, ◌<>◌}

-- The digits at the front of a text, read on from `acc`, and what stands behind them.
unfoldable pub read_digits : ℕ → String → ℕ × String
read_digits acc String.[] = (acc, String.[])
read_digits acc (String.◌∷◌ c s) =
    let rest = read_digits (acc * 10 + (code c - 48)) s in
    if is_digit (code c) then rest else (acc, String.◌∷◌ c s)

one_char : (c : Char) (rest : String) → String.◌∷◌ c String.[] <> rest ≡ String.◌∷◌ c rest
one_char c rest = cons-append c String.[] rest ∙ ap (String.◌∷◌ c) (nil-append rest)

read_digits-digit :
    (acc d : ℕ) (rest : String)
    → d < 10
    → read_digits acc (digit_text d <> rest) ≡ read_digits (acc * 10 + d) rest
unfolding read_digits is_digit
read_digits-digit acc zero rest h =
    ap (read_digits acc) (one_char "0" rest) ∙ ap (λ n. read_digits n rest) (omega arith)
read_digits-digit acc (suc zero) rest h = ap (read_digits acc) (one_char "1" rest)
read_digits-digit acc (suc (suc zero)) rest h = ap (read_digits acc) (one_char "2" rest)
read_digits-digit acc (suc (suc (suc zero))) rest h = ap (read_digits acc) (one_char "3" rest)
read_digits-digit acc (suc (suc (suc (suc zero)))) rest h = ap (read_digits acc) (one_char "4" rest)
read_digits-digit acc (suc (suc (suc (suc (suc zero))))) rest h =
    ap (read_digits acc) (one_char "5" rest)
read_digits-digit acc (suc (suc (suc (suc (suc (suc zero)))))) rest h =
    ap (read_digits acc) (one_char "6" rest)
read_digits-digit acc (suc (suc (suc (suc (suc (suc (suc zero))))))) rest h =
    ap (read_digits acc) (one_char "7" rest)
read_digits-digit acc (suc (suc (suc (suc (suc (suc (suc (suc zero)))))))) rest h =
    ap (read_digits acc) (one_char "8" rest)
read_digits-digit acc (suc (suc (suc (suc (suc (suc (suc (suc (suc zero))))))))) rest h =
    ap (read_digits acc) (one_char "9" rest)
read_digits-digit acc (suc (suc (suc (suc (suc (suc (suc (suc (suc (suc n)))))))))) rest h =
    absurd (omega arith)

-- With enough fuel every digit is printed.
read_digits-loop :
    (fuel n : ℕ) (rest : String)
    → n < fuel
    → read_digits 0 (decimal_loop fuel n <> rest) ≡ read_digits n rest
unfolding decimal_loop
read_digits-loop zero n rest h = absurd (omega arith)
read_digits-loop (suc fuel) n rest h = elim (Bool-cases (ltb n 10)) [
  | inl one ↦
      rw (one, decimal_loop)
        (read_digits-digit 0 n rest (ground (arith, one))
          ∙ ap (λ m. read_digits m rest) (let e : 0 * 10 + n ≡ n = omega arith in e))
  | inr more ↦
      rw (more, decimal_loop)
        (ap (read_digits 0) (append_assoc (decimal_loop fuel (n / 10)) (digit_text (n % 10)) rest)
          ∙ read_digits-loop fuel (n / 10) (digit_text (n % 10) <> rest) (ground (arith, more))
          ∙ read_digits-digit (n / 10) (n % 10) rest (omega arith)
          ∙ ap (λ m. read_digits m rest) (let e : n / 10 * 10 + n % 10 ≡ n = omega arith in e))
]

-- What is read of a number and a text behind it, which does not begin with a digit, is that number
-- and that text.
pub read_digits-decimal :
    (n : ℕ) (rest : String)
    → read_digits n rest ≡ (n, rest)
    → read_digits 0 (decimal n <> rest) ≡ (n, rest)
unfolding decimal
read_digits-decimal n rest h = read_digits-loop (suc n) n rest (omega arith) ∙ h
