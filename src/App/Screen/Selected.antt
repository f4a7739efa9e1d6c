-- ===== src/App/Screen/Selected.antt =====
-- The tab that is selected in frontend/src/App.tsx, the panel that is rendered, and the statistics over it.
use mirraura.Base.{
  List, [], ◌∷◌, map, filter, Text, text, text_eq, some, ◌≡◌, refl, ◌⊎◌, inl, inr, ap, arith,
}
use mirraura.Types.{Role, admin, analyst}
use mirraura.Api.Endpoints.{Session}
use mirraura.Tabs.{TabButton, buttons, panel_shown}
use mirraura.App.{App, signed_in, role_of, tabs, panel_ids, page, dashboard}
use mirraura.App.Together.{Whole, Event, run, begin}
use mirraura.App.Together.Chosen.{OneOf}
use mirraura.App.Together.OneTab.{one_panel}
use mirraura.App.Together.Log.{log_agrees}
use mirraura.App.Screen.{
  Formats, Components, PanelView, dashboard_page, screen, dashboard_view, all_panels, statistics_of,
  intact_of, rendered,
}

-- The ids of the buttons that are selected, and of the panels.
abbrev pub selected : List TabButton → List Text
selected bs = map (λ (b : TabButton). b.id) (filter (λ (b : TabButton). b.selected) bs)

abbrev pub ids : List (Text × PanelView) → List Text
ids ps = map (λ (p : Text × PanelView). p.0) ps

tab_selected :
    (role : Role) (a : App)
    → OneOf a.bottom_tab panel_ids
    → (selected (buttons (tabs role a) a.bottom_tab) ≡ a.bottom_tab ∷ [])
      ⊎ ((role ≡ analyst)
          × (a.bottom_tab ≡ text "users")
          × (selected (buttons (tabs role a) a.bottom_tab) ≡ []))
unfolding buttons tabs text text_eq
tab_selected admin a (inl e) = inl (rw e refl)
tab_selected admin a (inr (inl e)) = inl (rw e refl)
tab_selected admin a (inr (inr (inl e))) = inl (rw e refl)
tab_selected admin a (inr (inr (inr (inl e)))) = inl (rw e refl)
tab_selected admin a (inr (inr (inr (inr (inl e))))) = inl (rw e refl)
tab_selected admin a (inr (inr (inr (inr (inr e))))) = absurd e
tab_selected analyst a (inl e) = inl (rw e refl)
tab_selected analyst a (inr (inl e)) = inl (rw e refl)
tab_selected analyst a (inr (inr (inl e))) = inl (rw e refl)
tab_selected analyst a (inr (inr (inr (inl e)))) = inl (rw e refl)
tab_selected analyst a (inr (inr (inr (inr (inl e))))) = inr (refl, e, rw e refl)
tab_selected analyst a (inr (inr (inr (inr (inr e))))) = absurd e

page-dashboard : (a : App) (u : Session) → a.user ≡ signed_in u → page a ≡ dashboard u (role_of u)
unfolding page
page-dashboard a u s = ground arith

module _ (f : Formats) where
  panel_ids_lem :
      (u : Session) (role : Role) (w : Whole) (c : Components)
      → OneOf w.app.bottom_tab panel_ids
      → ids (dashboard_view f u role w c).panels ≡ w.app.bottom_tab ∷ []
  unfolding dashboard_view all_panels panel_shown text text_eq
  panel_ids_lem u role w c (inl e) = rw e refl
  panel_ids_lem u role w c (inr (inl e)) = rw e refl
  panel_ids_lem u role w c (inr (inr (inl e))) = rw e refl
  panel_ids_lem u role w c (inr (inr (inr (inl e)))) = rw e refl
  panel_ids_lem u role w c (inr (inr (inr (inr (inl e))))) = rw e refl
  panel_ids_lem u role w c (inr (inr (inr (inr (inr e))))) = absurd e

  screen_dashboard :
      (w : Whole) (c : Components) (u : Session)
      → w.app.user ≡ signed_in u
      → screen f w c ≡ dashboard_page (dashboard_view f u (role_of u) w c)
  unfolding screen
  screen_dashboard w c u s = ap (λ p. rendered f p w c) (page-dashboard w.app u s)

  statistics_lem :
      (u : Session) (role : Role) (w : Whole) (c : Components)
      → (w.log.log.rows ≡ []) ⊎ (w.app.verdicts ≡ some w.log.log.rows)
      → (w.log.log.rows ≡ [])
        ⊎ ((dashboard_view f u role w c).statistics
            ≡ statistics_of (some w.log.log.rows) w.app.hashes (intact_of w.app.chain_status))
  unfolding dashboard_view
  statistics_lem u role w c (inl none) = inl none
  statistics_lem u role w c (inr same) =
      inr (ap (λ v. statistics_of v w.app.hashes (intact_of w.app.chain_status)) same)

  -- After any events, with a user signed in: the dashboard is rendered, with exactly one panel under the
  -- tabs; exactly one tab is selected, the one of that panel, unless an analyst is shown the panel of the
  -- users, for which they have no tab and none is selected; and unless the audit log has no rows, the
  -- statistics are those of exactly its rows, as soon as the hashes are loaded.
  pub screen_lem :
      (es : List Event) (c : Components) (u : Session)
      → (run f.lower es begin).app.user ≡ signed_in u
      → let w = run f.lower es begin in
        let d = dashboard_view f u (role_of u) w c in
        (screen f w c ≡ dashboard_page d)
        × (ids d.panels ≡ w.app.bottom_tab ∷ [])
        × ((selected d.tab_buttons ≡ w.app.bottom_tab ∷ [])
            ⊎ ((role_of u ≡ analyst)
                × (w.app.bottom_tab ≡ text "users")
                × (selected d.tab_buttons ≡ [])))
        × ((w.log.log.rows ≡ [])
            ⊎ (d.statistics
                ≡ statistics_of (some w.log.log.rows) w.app.hashes (intact_of w.app.chain_status)))
  unfolding dashboard_view
  screen_lem es c u s =
      let w = run f.lower es begin in
      let among = (one_panel f.lower es).0 in
      (
        screen_dashboard w c u s,
        panel_ids_lem u (role_of u) w c among,
        tab_selected (role_of u) w.app among,
        statistics_lem u (role_of u) w c (log_agrees f.lower es).0,
      )
