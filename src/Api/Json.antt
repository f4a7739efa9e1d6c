-- ===== src/Api/Json.antt =====
-- `JSON.stringify` of the language, as frontend/src/api.ts calls it: an object whose fields are
-- strings, without spaces.
pub mod Strings
pub mod Reader
pub mod Pretty
pub mod Parser
pub mod Parsed
pub mod Starts
pub mod RoundTrip
pub mod Bodies
use mirraura.Base.{
  ℕ, ◌/◌, ◌%◌, Bool, true, false, not, ◌&&◌, ◌||◌, List, [], ◌∷◌, ◌++◌, map, Text, join, ltb, ◌==◌,
  if◌then◌else◌, Option, none, some,
}
use mirraura.Api.Request.{Body, no_body, form_data, json}
use mirraura.Api.Hex.{hex_digit}
use mirraura.Api.Uri.{is_high, is_low}

-- The letter behind the backslash of a short escape: backspace, tab, line feed, form feed, carriage
-- return, the quote and the backslash.
abbrev pub short_escape : ℕ → Option ℕ
short_escape c =
    if c == 8
    then some b'b'
    else if c == 9
    then some b't'
    else if c == 10
    then some b'n'
    else if c == 12
    then some b'f'
    else if c == 13
    then some b'r'
    else if c == b'"' || c == 92
    then some c
    else none

abbrev pub unicode_escape : ℕ → Text
unicode_escape c =
    92
    ∷ b'u'
    ∷ hex_digit (c / 4096)
    ∷ hex_digit (c / 256 % 16)
    ∷ hex_digit (c / 16 % 16)
    ∷ hex_digit (c % 16)
    ∷ []

abbrev pub escape_by : Option ℕ → Bool → ℕ → Text
escape_by (some letter) lone c = 92 ∷ letter ∷ []
escape_by none lone c = if ltb c 32 || lone then unicode_escape c else c ∷ []

-- A code unit inside quotes; `lone` says that it is half of a surrogate pair without the other half.
unfoldable pub quote_unit : Bool → ℕ → Text
quote_unit lone c = escape_by (short_escape c) lone c

abbrev pub starts_low : Text → Bool
starts_low [] = false
starts_low (c ∷ s) = is_low c

-- Whether a unit is the first half of a pair; `paired` says that it is the second.
unfoldable pub pairs : Bool → ℕ → Text → Bool
unfolding is_high is_low
pairs paired c s = not paired && is_high c && starts_low s

unfoldable pub is_lone : Bool → ℕ → Text → Bool
unfolding pairs is_high is_low
is_lone paired c s = not paired && not (pairs paired c s) && (is_high c || is_low c)

-- The units up to the closing quote.
unfoldable pub quote_from : Bool → Text → Text
unfolding quote_unit pairs is_lone
quote_from paired [] = b'"' ∷ []
quote_from paired (c ∷ s) = quote_unit (is_lone paired c s) c ++ quote_from (pairs paired c s) s

unfoldable pub quote : Text → Text
unfolding quote_from
quote s = b'"' ∷ quote_from false s

unfoldable pub stringify_field : Text × Text → Text
unfolding quote
stringify_field (name, value) = quote name ++ b':' ∷ quote value

unfoldable pub stringify : List (Text × Text) → Text
unfolding stringify_field join
stringify fields = b'{' ∷ (join (b',' ∷ []) (map stringify_field fields) ++ b'}' ∷ [])

-- The text that a call sends as application/json.
unfoldable pub json_text : Body → Option Text
unfolding stringify
json_text no_body = none
json_text (form_data name file) = none
json_text (json fields) = some (stringify fields)
