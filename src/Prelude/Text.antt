-- ===== src/Prelude/Text.antt =====
-- The string functions of JavaScript that the program calls, on texts as lists of characters.
use Prim.Native.Nat.{ℕ, zero, suc, ◌+◌, ◌/◌, ◌%◌}
use Prim.Native.Char.{Char, code}
use Prim.Native.String.{String, ◌++◌ as ◌<>◌}
use mathlib.Core.Bool.{Bool, true, false, ◌&&◌, ◌||◌}
use mathlib.Core.List.{List, [], ◌∷◌}
use mathlib.Core.Option.{Option, none, some}
use native.Mathlib.Decide.{ℕ_discrete}
use whatsapp_auto_send.Prelude.Equality.{
  leb, ltb, ◌==◌, nat_eq, string_eq, option_eq, if◌then◌else◌,
}
pub use Prim.Native.String.{◌++◌ as ◌<>◌}

-- The code points of a text.
abbrev pub codes : String → List ℕ
codes String.[] = []
codes (String.◌∷◌ c s) = code c ∷ codes s

-- `.length`: UTF-16 units, two for a code point beyond the basic plane.
unfoldable pub utf16_length : String → ℕ
utf16_length String.[] = 0
utf16_length (String.◌∷◌ c s) = (if ltb (code c) 65536 then 1 else 2) + utf16_length s

unfoldable pub is_digit : ℕ → Bool
is_digit c = leb 48 c && leb c 57

-- White space and line terminators, as `trim` takes them.
unfoldable pub is_space : ℕ → Bool
is_space c =
    leb 9 c && leb c 13
    || c == 32
    || c == 160
    || c == 0x1680
    || leb 0x2000 c && leb c 0x200a
    || c == 0x2028
    || c == 0x2029
    || c == 0x202f
    || c == 0x205f
    || c == 0x3000
    || c == 0xfeff

unfoldable pub trim_start : String → String
trim_start String.[] = String.[]
trim_start (String.◌∷◌ c s) =
    let rest = trim_start s in if is_space (code c) then rest else String.◌∷◌ c s

-- Drops a character if the rest is empty after trimming.
unfoldable pub trim_cons : Char → String → String
trim_cons c String.[] = if is_space (code c) then String.[] else String.◌∷◌ c String.[]
trim_cons c s = String.◌∷◌ c s

unfoldable pub trim_end : String → String
unfolding trim_cons
trim_end String.[] = String.[]
trim_end (String.◌∷◌ c s) = trim_cons c (trim_end s)

unfoldable pub trim : String → String
unfolding trim_start trim_end
trim s = trim_end (trim_start s)

-- `.replace(/\D/g, '')`
unfoldable pub only_digits : String → String
only_digits String.[] = String.[]
only_digits (String.◌∷◌ c s) =
    if is_digit (code c) then String.◌∷◌ c (only_digits s) else only_digits s

-- Prepends to the first piece.
abbrev cons_first : Char → List String → List String
cons_first c [] = String.◌∷◌ c String.[] ∷ []
cons_first c (p ∷ ps) = String.◌∷◌ c p ∷ ps

-- `.split(sep)` at a separator of one character.
unfoldable pub split_on : ℕ → String → List String
split_on sep String.[] = String.[] ∷ []
split_on sep (String.◌∷◌ c s) =
    let rest = split_on sep s in if code c == sep then String.[] ∷ rest else cons_first c rest

-- `.join(sep)`
unfoldable pub join : String → List String → String
join sep [] = String.[]
join sep (p ∷ []) = p
join sep (p ∷ q ∷ ps) = p <> (sep <> join sep (q ∷ ps))

abbrev pub lower : ℕ → ℕ
lower c = if leb 65 c && leb c 90 then c + 32 else c

-- A template literal, by its pieces.
unfoldable pub template : List String → String
template [] = String.[]
template (p ∷ ps) = p <> template ps

-- `.startsWith(prefix)`
unfoldable pub starts_with : String → String → Bool
starts_with s String.[] = true
starts_with String.[] (String.◌∷◌ c t) = false
starts_with (String.◌∷◌ d s) (String.◌∷◌ c t) = code d == code c && starts_with s t

abbrev pub digit_text : ℕ → String
digit_text zero = "0"
digit_text (suc zero) = "1"
digit_text (suc (suc zero)) = "2"
digit_text (suc (suc (suc zero))) = "3"
digit_text (suc (suc (suc (suc zero)))) = "4"
digit_text (suc (suc (suc (suc (suc zero))))) = "5"
digit_text (suc (suc (suc (suc (suc (suc zero)))))) = "6"
digit_text (suc (suc (suc (suc (suc (suc (suc zero))))))) = "7"
digit_text (suc (suc (suc (suc (suc (suc (suc (suc zero)))))))) = "8"
digit_text (suc (suc (suc (suc (suc (suc (suc (suc (suc n))))))))) = "9"

unfoldable pub decimal_loop : ℕ → ℕ → String
decimal_loop zero n = String.[]
decimal_loop (suc fuel) n = elim (ltb n 10) [
  | true ↦ digit_text n
  | false ↦ decimal_loop fuel (n / 10) <> digit_text (n % 10)
]

-- A number in a template literal. A number has at most as many digits as its value plus one.
unfoldable pub decimal : ℕ → String
unfolding decimal_loop
decimal n = decimal_loop (suc n) n

-- `Boolean(value)` of an optional text.
abbrev pub is_truthy : Option String → Bool
is_truthy none = false
is_truthy (some String.[]) = false
is_truthy (some s) = true

-- A test that says `unfolding text_runs` computes with the functions of this file.
unfoldable pub text_runs : Unit {0}
unfolding utf16_length is_digit is_space trim only_digits split_on join starts_with template decimal
    ℕ_discrete string_eq option_eq
text_runs = tt
