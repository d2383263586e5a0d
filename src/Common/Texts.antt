-- ===== src/Common/Texts.antt =====
-- Python texts as lists of code points, with the functions of `str`, `int` and `re` that the source
-- calls. Only ASCII letters, digits and blanks are classified; the validators of the forms let
-- nothing else through in the texts that are parsed.
use Prim.Native.Nat.{ℕ, zero, suc, ◌+◌, ◌-◌, ◌*◌, ◌/◌, ◌%◌}
use Prim.Native.Char.{code}
use Prim.Native.String.{String}
use mathlib.Core.Bool.{Bool, true, false, ◌&&◌, ◌||◌, not}
use mathlib.Core.Option.{Option, none, some}
use mathlib.Core.List.{List, [], ◌∷◌, reverse}
use wikikracja.Common.Int.{ℤ, pos, negsuc}
use wikikracja.Common.Tests.{leb, ◌==◌, if◌then◌else◌}

abbrev pub Text : Type 0
Text = List ℕ

-- The code points of a literal.
abbrev pub codes : String → Text
codes String.[] = []
codes (String.◌∷◌ c s) = code c ∷ codes s

unfoldable pub text_eq : Text → Text → Bool
text_eq [] [] = true
text_eq [] (y ∷ ys) = false
text_eq (x ∷ xs) [] = false
text_eq (x ∷ xs) (y ∷ ys) = x == y && text_eq xs ys

unfoldable pub is_digit : ℕ → Bool
is_digit c = leb b'0' c && leb c b'9'

unfoldable pub is_word : ℕ → Bool
unfolding is_digit
is_word c = is_digit c || (leb b'a' c && leb c b'z') || (leb b'A' c && leb c b'Z') || c == b'_'

pub is_blank : ℕ → Bool
is_blank c = c == 32 || (leb 9 c && leb c 13)

unfoldable pub lower : ℕ → ℕ
lower c = if leb b'A' c && leb c b'Z' then c + 32 else c

pub strip_left : Text → Text
strip_left [] = []
strip_left (c ∷ cs) = let rest = strip_left cs in if is_blank c then rest else c ∷ cs

-- `str.strip()`
unfoldable pub strip : Text → Text
unfolding strip_left is_blank
strip s = reverse (strip_left (reverse (strip_left s)))

-- The parts of `re.split(r'\W+', s)`: `piece` is the part read so far, last character first, and
-- `gap` tells that the last character read was a separator.
pub split_from : Text → Bool → Text → List Text
unfolding is_word is_digit
split_from piece gap [] = reverse piece ∷ []
split_from piece true (c ∷ cs) =
    split_from (if is_word c then c ∷ piece else piece) (not (is_word c)) cs
split_from piece false (c ∷ cs) =
    let more = split_from (c ∷ piece) false cs in
    let next = split_from [] true cs in if is_word c then more else reverse piece ∷ next

unfoldable pub split_nonword : Text → List Text
unfolding split_from
split_nonword = split_from [] false

-- `int` of digits, where one `_` may stand between two digits; `after_digit` tells that the last
-- character read was a digit.
pub digits_value : ℕ → Bool → Text → Option ℕ
unfolding is_digit
digits_value acc after_digit [] = if after_digit then some acc else none
digits_value acc after_digit (c ∷ cs) =
    let rest = digits_value (if is_digit c then acc * 10 + (c - b'0') else acc) (is_digit c) cs in
    if is_digit c || (after_digit && c == b'_') then rest else none

-- `int(s)` of a text without sign and blanks; `none` where it raises.
unfoldable pub parse_digits : Text → Option ℕ
unfolding digits_value
parse_digits = digits_value 0 false

-- The digits of a number, on fuel above the number; `acc` holds the digits that follow.
pub decimal_from : ℕ → ℕ → Text → Text
decimal_from zero n acc = acc
decimal_from (suc fuel) n acc =
    let digits = (n % 10 + b'0') ∷ acc in
    let more = decimal_from fuel (n / 10) digits in if n / 10 == 0 then digits else more

-- `str(n)`
unfoldable pub decimal : ℕ → Text
unfolding decimal_from
decimal n = decimal_from (suc n) n []

abbrev signed : Option ℕ → Option ℤ
signed none = none
signed (some zero) = some (pos 0)
signed (some (suc n)) = some (negsuc n)

abbrev unsigned : Option ℕ → Option ℤ
unsigned none = none
unsigned (some n) = some (pos n)

pub parse_signed : Text → Option ℤ
unfolding parse_digits
parse_signed [] = none
parse_signed (c ∷ cs) =
    if c == b'-'
    then signed (parse_digits cs)
    else if c == b'+'
    then unsigned (parse_digits cs)
    else unsigned (parse_digits (c ∷ cs))

-- `int(s)`
unfoldable pub parse_int : Text → Option ℤ
unfolding parse_signed strip
parse_int s = parse_signed (strip s)

-- `str(z)`
unfoldable pub int_text : ℤ → Text
unfolding decimal
int_text (pos n) = decimal n
int_text (negsuc n) = b'-' ∷ decimal (suc n)
