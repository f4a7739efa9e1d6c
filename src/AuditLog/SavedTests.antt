-- ===== src/AuditLog/SavedTests.antt =====
-- The saved file of frontend/src/components/AuditLogTable.tsx at concrete inputs.
use mirraura.Api.Json.{quote, quote_from}
use mirraura.Api.Json.Pretty.{
  Items, item, no_items, object, member, no_members, string, number, null, array, pretty,
}
use mirraura.Types.{Double}
use mirraura.Base.{
  text_eq, if◌then◌else◌, Option, Text, ◌≡◌, refl, [], ◌∷◌, text, none, some, false,
}
use mirraura.AuditLog.{Text, none, some, false, Option}

-- One row, with a text that needs escapes, a number, nothing, and an empty list.
abbrev half : Double
half = record { negative = false; mantissa = 1; scale = 1 }

abbrev half_text : Double → Text
half_text n = b'0' ∷ b'.' ∷ b'5' ∷ []

abbrev read_half : Text → Option Double
read_half s = if text_eq s (half_text half) then some half else none

abbrev saved_rows : Items
saved_rows =
    item
      (object (
        member (text "actor") (string (text "a\"b")) (
          member (text "confidence") (number half)
            (member (text "hash") null (member (text "tags") (array no_items) no_members)))))
      no_items

saved_text :
    pretty half_text 0 (array saved_rows)
    ≡ text
        "[\n  {\n    \"actor\": \"a\\\"b\",\n    \"confidence\": 0.5,\n    \"hash\": null,\n    \"tags\": []\n  }\n]"
unfolding pretty quote quote_from text
saved_text = refl
