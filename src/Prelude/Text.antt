-- ===== src/Prelude/Text.antt =====
-- What the program uses of Python's `str`: `strip`, `split`, `lower`, `upper`, `join`, `str(int)` and `int(str)`.
-- `lower`, `upper` and the digits of `int` are those of ASCII.
use Prim.Native.Char.{Char, code}
use Prim.Native.Nat.{ℕ, zero, suc, ◌+◌, ◌-◌, ◌*◌, ◌/◌, ◌%◌}
use Prim.Native.String.{String, [], ◌∷◌, ◌++◌, char_at}
use mathlib.Core.Bool.{Bool, true, false, ◌&&◌, ◌||◌}
use mathlib.Core.List.{List}
use mathlib.Core.Option
use mathlib.Core.Option.{Option, none, some}
use schema_sentry.Prelude.Tests.{ltb, leb, if◌then◌else◌}
use schema_sentry.Prelude.Equal.{◌==◌, ℕ_eq}
use schema_sentry.Prelude.Int.{ℤ, pos, negsuc, negate}

-- `c.isspace()`
is_space : Char → Bool
is_space c =
    let n = code c in
    leb 9 n && leb n 13
    || leb 28 n && leb n 32
    || n == 133
    || n == 160
    || n == 5760
    || leb 8192 n && leb n 8202
    || n == 8232
    || n == 8233
    || n == 8239
    || n == 8287
    || n == 12288

lower_char : Char → Char
lower_char c =
    if leb 65 (code c) && leb (code c) 90
    then char_at "abcdefghijklmnopqrstuvwxyz" (code c - 65)
    else c

unfoldable pub lower : String → String
unfolding lower_char
lower [] = []
lower (c ∷ s) = lower_char c ∷ lower s

upper_char : Char → Char
upper_char c =
    if leb 97 (code c) && leb (code c) 122
    then char_at "ABCDEFGHIJKLMNOPQRSTUVWXYZ" (code c - 97)
    else c

unfoldable pub upper : String → String
unfolding upper_char
upper [] = []
upper (c ∷ s) = upper_char c ∷ upper s

lstrip : String → String
lstrip [] = []
lstrip (c ∷ s) = if is_space c then lstrip s else c ∷ s

-- a character in front of a text that is stripped on its right
keep_char : Char → String → String
keep_char c [] = if is_space c then [] else c ∷ []
keep_char c (d ∷ s) = c ∷ d ∷ s

rstrip : String → String
unfolding keep_char
rstrip [] = []
rstrip (c ∷ s) = keep_char c (rstrip s)

unfoldable pub strip : String → String
unfolding is_space lstrip rstrip
strip s = lstrip (rstrip s)

flush : String → List String → List String
flush [] ws = ws
flush (c ∷ w) ws = List.◌∷◌ (c ∷ w) ws

-- the word that a text begins with, and the words after it
words : String → String × List String
unfolding flush
words [] = ([], List.[])
words (c ∷ s) = let (w, ws) = words s in if is_space c then ([], flush w ws) else (c ∷ w, ws)

-- `s.split()`
unfoldable pub split : String → List String
unfolding is_space flush words
split s = let (w, ws) = words s in flush w ws

-- `s.split(sep)` for a text of one character
pieces : ℕ → String → String × List String
pieces sep [] = ([], List.[])
pieces sep (c ∷ s) =
    let (p, ps) = pieces sep s in if code c == sep then ([], List.◌∷◌ p ps) else (c ∷ p, ps)

unfoldable pub split_on : ℕ → String → List String
unfolding pieces
split_on sep s = let (p, ps) = pieces sep s in List.◌∷◌ p ps

-- `sep.join(ws)`
unfoldable pub join : String → List String → String
join sep List.[] = []
join sep (List.◌∷◌ w List.[]) = w
join sep (List.◌∷◌ w (List.◌∷◌ v ws)) = w ++ sep ++ join sep (List.◌∷◌ v ws)

digit : ℕ → Char
digit d = char_at "0123456789" d

-- The digits of a number in front of a text; the number of digits is at most the fuel.
decimal : ℕ → ℕ → String → String
unfolding digit
decimal zero n rest = rest
decimal (suc fuel) n rest =
    let more = decimal fuel (n / 10) (digit (n % 10) ∷ rest) in
    if ltb n 10 then digit n ∷ rest else more

-- `str(n)`
unfoldable pub show : ℤ → String
unfolding decimal
show (pos n) = decimal (suc n) n []
show (negsuc n) = "-" ++ decimal (suc (suc n)) (suc n) []

-- digits, with single underscores between them; `seen` says that the last character was a digit
digits : String → ℕ → Bool → Option ℕ
digits [] acc seen = if seen then some acc else none
digits (c ∷ s) acc seen = elim (leb 48 (code c) && leb (code c) 57) [
  | true ↦ digits s (acc * 10 + (code c - 48)) true
  | false ↦ elim (code c == 95 && seen) [ true ↦ digits s acc false | false ↦ none ]
]

signed : String → Option ℤ
unfolding digits
signed [] = none
signed (c ∷ s) =
    if code c == b'-'
    then Option.map negate (digits s 0 false)
    else if code c == b'+'
    then Option.map pos (digits s 0 false)
    else Option.map pos (digits (c ∷ s) 0 false)

-- `int(s)`, where `none` is `ValueError`
unfoldable pub int : String → Option ℤ
unfolding strip signed
int s = signed (strip s)
