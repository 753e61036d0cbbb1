-- ===== src/ErrorMapping/Patterns.antt =====
-- The two regular expressions of wa/error-mapping.ts, with the flag `i`: each is a choice of
-- sequences of literal characters and of `.?`.
use whatsapp_auto_send.Prelude.{
  ℕ, Bool, true, false, not, String, List, [], ◌∷◌, ◌++◌, ◌&&◌, ◌||◌, ◌==◌, nat_eq, codes, lower,
  map, ltb,
}

pub data Piece : Type 0 where
  lit : ℕ → Piece
  any_one? : Piece

abbrev text : String → List Piece
text s = map lit (codes s)

-- `.` takes one UTF-16 unit that ends no line.
abbrev is_any : ℕ → Bool
is_any c = ltb c 65536 && not (c == 10 || c == 13 || c == 0x2028 || c == 0x2029)

unfoldable pub matches_here : List Piece → List ℕ → Bool
matches_here [] s = true
matches_here (lit c ∷ p) [] = false
matches_here (lit c ∷ p) (d ∷ s) = c == lower d && matches_here p s
matches_here (any_one? ∷ p) [] = matches_here p []
matches_here (any_one? ∷ p) (d ∷ s) = is_any d && matches_here p s || matches_here p (d ∷ s)

-- The expression is found at some place of the text.
unfoldable pub search_text : List Piece → List ℕ → Bool
unfolding matches_here
search_text p [] = matches_here p []
search_text p (d ∷ s) = matches_here p (d ∷ s) || search_text p s

unfoldable pub matches_any : List (List Piece) → List ℕ → Bool
unfolding search_text
matches_any [] s = false
matches_any (p ∷ ps) s = search_text p s || matches_any ps s

-- /rate.?over.?limit|too many|rate.?limit/i
abbrev pub rate_patterns : List (List Piece)
rate_patterns =
    (text "rate" ++ any_one? ∷ (text "over" ++ any_one? ∷ text "limit"))
    ∷ text "too many"
    ∷ (text "rate" ++ any_one? ∷ text "limit")
    ∷ []

-- /connection closed|not open|websocket/i
abbrev pub closed_patterns : List (List Piece)
closed_patterns = text "connection closed" ∷ text "not open" ∷ text "websocket" ∷ []
