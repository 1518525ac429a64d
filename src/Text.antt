-- ===== src/Text.antt =====
-- The `str` operations of Rust's standard library that the program uses. A text is the list of
-- the bytes of its UTF-8 encoding.
pub mod Laws
pub mod Replace
pub mod Decimal
pub mod Split
use Prim.Native.Char.{code}
use Prim.Native.String.{String}
use good_mitm.Prelude.{
  ℕ, zero, suc, ◌+◌, ◌-◌, ◌/◌, ◌%◌, Bool, true, false, ◌&&◌, ◌||◌, Option, none, some, List, [],
  ◌∷◌, ◌++◌, map, ltb, leb, ◌==◌, if◌then◌else◌, length, all, is_empty,
}

abbrev pub Text : Type 0
Text = List ℕ

-- The bytes of an ASCII literal.
abbrev pub codes : String → Text
codes String.[] = []
codes (String.◌∷◌ c s) = code c ∷ codes s

-- `==`
unfoldable pub eq : Text → Text → Bool
eq [] [] = true
eq [] (_ ∷ _) = false
eq (_ ∷ _) [] = false
eq (c ∷ s) (d ∷ t) = c == d && eq s t

-- `str::starts_with`
unfoldable pub starts_with : Text → Text → Bool
starts_with s [] = true
starts_with [] (_ ∷ _) = false
starts_with (c ∷ s) (d ∷ t) = c == d && starts_with s t

-- `str::ends_with`
unfoldable pub ends_with : Text → Text → Bool
unfolding eq
ends_with [] t = eq [] t
ends_with (c ∷ s) t = eq (c ∷ s) t || ends_with s t

-- `str::contains` of a text
unfoldable pub contains : Text → Text → Bool
unfolding starts_with
contains [] t = starts_with [] t
contains (c ∷ s) t = starts_with (c ∷ s) t || contains s t

-- A byte that goes on a character, `10xxxxxx`.
abbrev pub is_continuation : ℕ → Bool
is_continuation c = leb 0x80 c && ltb c 0xC0

-- `str::replace` of a pattern that is not empty: `skip` bytes of a match are left to drop.
unfoldable pub replace_from : Text → Text → ℕ → Text → Text
unfolding starts_with
replace_from from to skip [] = []
replace_from from to (suc skip) (c ∷ s) = replace_from from to skip s
replace_from from to zero (c ∷ s) =
    let hit = starts_with (c ∷ s) from in
    let rest = replace_from from to (if hit then length from - 1 else 0) s in
    if hit then to ++ rest else c ∷ rest

-- `str::replace` of the empty pattern, which matches at every boundary of characters.
unfoldable pub replace_empty : Text → Text → Text
replace_empty to [] = to
replace_empty to (c ∷ s) =
    let rest = replace_empty to s in if is_continuation c then c ∷ rest else to ++ (c ∷ rest)

-- `str::replace`
unfoldable pub replace : Text → Text → Text → Text
unfolding replace_from replace_empty
replace s from to = if is_empty from then replace_empty to s else replace_from from to 0 s

abbrev pub is_ascii : ℕ → Bool
is_ascii c = ltb c 0x80

abbrev pub lower_byte : ℕ → ℕ
lower_byte c = if leb b'A' c && leb c b'Z' then c + 32 else c

-- `str::to_lowercase`. Beyond ASCII it goes by the tables of Unicode, the argument.
unfoldable pub to_lowercase : (Text → Text) → Text → Text
to_lowercase unicode s = if all is_ascii s then map lower_byte s else unicode s

-- `str::split` by a text that is not empty; `cur` is the piece that is being read.
unfoldable pub split_from : Text → ℕ → Text → Text → List Text
unfolding starts_with
split_from by skip cur [] = cur ∷ []
split_from by (suc skip) cur (c ∷ s) = split_from by skip cur s
split_from by zero cur (c ∷ s) =
    let hit = starts_with (c ∷ s) by in
    let rest =
      split_from by (if hit then length by - 1 else 0) (if hit then [] else cur ++ (c ∷ [])) s in
    if hit then cur ∷ rest else rest

unfoldable pub split : Text → Text → List Text
unfolding split_from
split by s = split_from by 0 [] s

-- `[String]::join`
unfoldable pub join : Text → List Text → Text
join by [] = []
join by (s ∷ []) = s
join by (s ∷ t ∷ more) = s ++ by ++ join by (t ∷ more)

-- Where the bytes of a text stand in UTF-8: how many bytes are left of the character, and the
-- range of the next one; or that they are refused.
pub data Utf8 : Type 0 where
  expect : ℕ → ℕ → ℕ → Utf8
  refused : Utf8

abbrev pub is_byte : ℕ → ℕ → ℕ → Bool
is_byte lo hi c = leb lo c && leb c hi

unfoldable pub utf8_first : ℕ → Utf8
utf8_first c =
    if ltb c 0x80
    then expect 0 0 0
    else if is_byte 0xC2 0xDF c
    then expect 1 0x80 0xBF
    else if c == 0xE0
    then expect 2 0xA0 0xBF
    else if c == 0xED
    then expect 2 0x80 0x9F
    else if is_byte 0xE1 0xEF c
    then expect 2 0x80 0xBF
    else if c == 0xF0
    then expect 3 0x90 0xBF
    else if is_byte 0xF1 0xF3 c
    then expect 3 0x80 0xBF
    else if c == 0xF4
    then expect 3 0x80 0x8F
    else refused

unfoldable pub utf8_step : Utf8 → ℕ → Utf8
unfolding utf8_first
utf8_step refused c = refused
utf8_step (expect zero lo hi) c = utf8_first c
utf8_step (expect (suc n) lo hi) c = if is_byte lo hi c then expect n 0x80 0xBF else refused

unfoldable pub utf8_run : Utf8 → List ℕ → Bool
unfolding utf8_step
utf8_run refused [] = false
utf8_run (expect zero lo hi) [] = true
utf8_run (expect (suc n) lo hi) [] = false
utf8_run s (c ∷ cs) = utf8_run (utf8_step s c) cs

-- `String::from_utf8`
unfoldable pub from_utf8 : List ℕ → Option Text
unfolding utf8_run
from_utf8 bytes = if utf8_run (expect 0 0 0) bytes then some bytes else none

digits_from : ℕ → ℕ → Text → Text
digits_from zero n out = out
digits_from (suc fuel) n out =
    let rest = digits_from fuel (n / 10) ((b'0' + n % 10) ∷ out) in
    if ltb n 10 then (b'0' + n) ∷ out else rest

-- `to_string` of a number. A number has fewer digits than its successor.
unfoldable pub to_decimal : ℕ → Text
unfolding digits_from
to_decimal n = digits_from (suc n) n []

-- `{:<20}`: spaces up to the given width, counted in characters.
unfoldable pub char_count : Text → ℕ
char_count [] = 0
char_count (c ∷ s) = if is_continuation c then char_count s else suc (char_count s)

unfoldable pub spaces : ℕ → Text
spaces zero = []
spaces (suc n) = b' ' ∷ spaces n

unfoldable pub pad_left_aligned : ℕ → Text → Text
unfolding char_count spaces
pad_left_aligned width s = s ++ spaces (width - char_count s)
