-- ===== src/Api/Json/Pretty.antt =====
-- JSON values, and `JSON.stringify(value, null, 2)` of the language, as
-- frontend/src/components/AuditLogTable.tsx calls it: two spaces for each level. `number_text` is
-- `String` of a number.
use mirraura.Base.{ℕ, zero, suc, Bool, true, false, ◌∷◌, [], ◌++◌, Text}
use mirraura.Types.{Double}
use mirraura.Api.Json.{quote}

mutual
  pub data Json : Type 0 where
    null : Json
    boolean : Bool → Json
    number : Double → Json
    string : Text → Json
    array : Items → Json
    object : Members → Json

  pub data Items : Type 0 where
    no_items : Items
    item : Json → Items → Items

  pub data Members : Type 0 where
    no_members : Members
    member : Text → Json → Members → Members

abbrev pub spaces : ℕ → Text
spaces zero = []
spaces (suc n) = b' ' ∷ b' ' ∷ spaces n

-- A new line at a level.
abbrev pub line : ℕ → Text
line d = 10 ∷ spaces d

abbrev pub boolean_text : Bool → Text
boolean_text true = b't' ∷ b'r' ∷ b'u' ∷ b'e' ∷ []
boolean_text false = b'f' ∷ b'a' ∷ b'l' ∷ b's' ∷ b'e' ∷ []

module _ (number_text : Double → Text) where
  unfoldable mutual
    pub pretty : ℕ → Json → Text
    pretty d null = b'n' ∷ b'u' ∷ b'l' ∷ b'l' ∷ []
    pretty d (boolean b) = boolean_text b
    pretty d (number n) = number_text n
    pretty d (string s) = quote s
    pretty d (array no_items) = b'[' ∷ b']' ∷ []
    pretty d (array (item v vs)) = b'[' ∷ (line (suc d) ++ (pretty (suc d) v ++ pretty_items d vs))
    pretty d (object no_members) = b'{' ∷ b'}' ∷ []
    pretty d (object (member k v ms)) =
        b'{'
        ∷ (line (suc d) ++ (quote k ++ b':' ∷ b' ' ∷ (pretty (suc d) v ++ pretty_members d ms)))

    -- What follows an item, and a member, of a value at a level.
    pub pretty_items : ℕ → Items → Text
    pretty_items d no_items = line d ++ b']' ∷ []
    pretty_items d (item v vs) = b',' ∷ (line (suc d) ++ (pretty (suc d) v ++ pretty_items d vs))

    pub pretty_members : ℕ → Members → Text
    pretty_members d no_members = line d ++ b'}' ∷ []
    pretty_members d (member k v ms) =
        b','
        ∷ (line (suc d) ++ (quote k ++ b':' ∷ b' ' ∷ (pretty (suc d) v ++ pretty_members d ms)))
