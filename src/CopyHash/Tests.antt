-- ===== src/CopyHash/Tests.antt =====
-- frontend/src/components/CopyHash.tsx at concrete inputs.
use mirraura.Base.{◌≡◌, refl, text, Text}
use mirraura.CopyHash.{truncate_middle, slice_last, default_keep}

abbrev digits : Text
digits = text "0123456789abcdef"

shortened : truncate_middle digits default_keep ≡ text "012345…abcdef"
unfolding truncate_middle slice_last text
shortened = refl

kept_nothing : truncate_middle digits 0 ≡ text "…0123456789abcdef"
unfolding truncate_middle slice_last text
kept_nothing = refl
