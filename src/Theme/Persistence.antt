-- ===== src/Theme/Persistence.antt =====
-- The theme across reloads of the page.
use mirraura.Base.{
  ℕ, zero, suc, ◌≡◌, ◌≢◌, refl, true, false, Text, text, text_eq, Option, some, arith,
}
use mirraura.Theme.{
  Theme, dark, light, Storage, Header, get_stored_theme, mount, mounted, toggle_theme, other_theme,
  theme_text, set_stored_theme,
}

abbrev pub toggles : ℕ → Header → Header
toggles zero h = h
toggles (suc n) h = toggles n (toggle_theme h)

abbrev pub IsShown : Header → Type 0
IsShown h = h.document_theme ≡ some (theme_text h.theme)

abbrev pub IsStored : Header → Type 0
IsStored h =
    (h.storage.available ≡ true → get_stored_theme h.storage ≡ h.theme)
    × (h.storage.available ≡ false → get_stored_theme h.storage ≡ dark)

stored_theme :
    (t : Theme) (s : Storage)
    → s.available ≡ true
    → get_stored_theme (record s { item = some (theme_text t) }) ≡ t
unfolding get_stored_theme text text_eq
stored_theme dark s h = rw h refl
stored_theme light s h = rw h refl

no_storage : (s : Storage) → s.available ≡ false → get_stored_theme s ≡ dark
unfolding get_stored_theme
no_storage s h = rw h refl

set_stored_theme-get :
    (t : Theme) (s : Storage)
    → let r = set_stored_theme t s in
      (r.available ≡ true → get_stored_theme r ≡ t)
      × (r.available ≡ false → get_stored_theme r ≡ dark)
unfolding set_stored_theme
set_stored_theme-get t s = ground (arith, stored_theme t s, no_storage s)

toggle_theme-IsStored : (h : Header) → IsShown (toggle_theme h) × IsStored (toggle_theme h)
unfolding toggle_theme
toggle_theme-IsStored h = (refl, set_stored_theme-get (other_theme h.theme) h.storage)

other_theme-ne : (t : Theme) → other_theme t ≢ t
other_theme-ne dark = λ e. cc
other_theme-ne light = λ e. cc

other_theme-other_theme : (t : Theme) → other_theme (other_theme t) ≡ t
other_theme-other_theme dark = refl
other_theme-other_theme light = refl

toggles_keep :
    (n : ℕ) (h : Header) → IsShown h × IsStored h → IsShown (toggles n h) × IsStored (toggles n h)
toggles_keep zero h k = k
toggles_keep (suc n) h k = toggles_keep n (toggle_theme h) (toggle_theme-IsStored h)

-- After the header has mounted and any number of toggles, the attribute of the document is the theme
-- of the header, and a reload finds this theme in the storage; without a storage it is dark. Toggling
-- changes the theme, and twice restores it.
pub toggles_lem :
    (attribute : Option Text) (s : Storage) (n : ℕ)
    → let h = toggles n (mounted (mount attribute s)) in
      IsShown h
      × IsStored h
      × ((toggle_theme h).theme ≢ h.theme)
      × ((toggle_theme (toggle_theme h)).theme ≡ h.theme)
unfolding mount mounted toggle_theme
toggles_lem attribute s n =
    let h = toggles n (mounted (mount attribute s)) in
    let (shown, stored) =
      toggles_keep n (mounted (mount attribute s)) (refl, ((λ h. refl), no_storage s)) in
    (shown, stored, other_theme-ne h.theme, other_theme-other_theme h.theme)
