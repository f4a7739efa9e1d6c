-- ===== src/VerdictPanel/Tests.antt =====
-- frontend/src/components/VerdictPanel.tsx at concrete inputs.
use mirraura.Base.{◌≡◌, refl, none, some, text, text_eq}
use mirraura.VerdictPanel.{method_of, flask_conical}

methods :
    (method_of (text "dynamic") ≡ some (text "detonated & scored", flask_conical))
    × (method_of (text "magic") ≡ none)
unfolding method_of text text_eq
methods = (refl, refl)
