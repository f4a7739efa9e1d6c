-- ===== src/Upload/Tests.antt =====
-- frontend/src/components/UploadPanel.tsx at concrete inputs.
use mirraura.Base.{◌≡◌, refl, text, decimal}
use mirraura.Upload.{format_size, to_fixed_1}

sizes :
    (format_size 1023 ≡ text "1023 B")
    × (format_size 1536 ≡ text "1.5 KB")
    × (format_size 1100000 ≡ text "1.0 MB")
unfolding format_size to_fixed_1 decimal text
sizes = (refl, refl, refl)
