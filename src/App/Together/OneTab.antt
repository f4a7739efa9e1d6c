-- ===== src/App/Together/OneTab.antt =====
-- The tab of frontend/src/App.tsx: line 181 takes whatever id it is called with for one of the five of
-- line 39, and a panel is rendered under the tabs only if its id is that one.
use mirraura.Base.{List, [], ◌∷◌, All, Text, text, text_eq, false, ◌≡◌, refl, inl, inr, subst, sym}
use mirraura.Types.{Role, admin, analyst}
use mirraura.Api.Request.{fulfilled}
use mirraura.Api.Endpoints.{Session}
use mirraura.Tabs.{TabItem, panel_shown}
use mirraura.App.{App, role_of, tabs, panels, panel_ids}
use mirraura.App.Events.{PageEvent, knows, logs_in}
use mirraura.App.Together.{Event, page, run, begin}
use mirraura.App.Together.Chosen.{OneOf, Admits}
use mirraura.App.Together.Kept.{run-OneOf}

abbrev pub AnySession : Session → Type 0
AnySession u = Unit

abbrev pub IsAnalyst : Session → Type 0
IsAnalyst u = role_of u ≡ analyst

-- The tabs that an analyst has.
abbrev pub analyst_ids : List Text
analyst_ids = text "audit" ∷ text "hashes" ∷ text "corpus" ∷ text "quarantine" ∷ []

tabs-OneOf : (role : Role) (a : App) → All (λ (t : TabItem). OneOf t.id panel_ids) (tabs role a)
unfolding tabs
tabs-OneOf admin a = (
  inl refl,
  (
    inr (inl refl),
    (inr (inr (inl refl)), (inr (inr (inr (inl refl))), (inr (inr (inr (inr (inl refl)))), tt))),
  ),
)
tabs-OneOf analyst a =
    (inl refl, (inr (inl refl), (inr (inr (inl refl)), (inr (inr (inr (inl refl))), tt))))

analyst_tabs-OneOf : (a : App) → All (λ (t : TabItem). OneOf t.id analyst_ids) (tabs analyst a)
unfolding tabs
analyst_tabs-OneOf a =
    (inl refl, (inr (inl refl), (inr (inr (inl refl)), (inr (inr (inr (inl refl))), tt))))

page-Admits : (e : PageEvent) → Admits AnySession (page e)
unfolding Admits
page-Admits (knows (fulfilled u)) = tt
page-Admits (logs_in u) = tt
page-Admits _ = tt

Admits-any : (e : Event) → Admits AnySession e
unfolding Admits
Admits-any (page e) = page-Admits e
Admits-any _ = tt

All-Admits : (es : List Event) → All (Admits AnySession) es
All-Admits [] = tt
All-Admits (e ∷ es) = (Admits-any e, All-Admits es)

one_shown : (a : App) → OneOf a.bottom_tab panel_ids → panels a ≡ a.bottom_tab ∷ []
unfolding panels panel_shown text text_eq
one_shown a (inl e) = rw e refl
one_shown a (inr (inl e)) = rw e refl
one_shown a (inr (inr (inl e))) = rw e refl
one_shown a (inr (inr (inr (inl e)))) = rw e refl
one_shown a (inr (inr (inr (inr (inl e))))) = rw e refl
one_shown a (inr (inr (inr (inr (inr e))))) = absurd e

none_for_users :
    (a : App)
    → OneOf a.bottom_tab analyst_ids
    → All (λ id. text_eq id (text "users") ≡ false) (panels a)
unfolding panels panel_shown text text_eq
none_for_users a (inl e) = rw e (refl, tt)
none_for_users a (inr (inl e)) = rw e (refl, tt)
none_for_users a (inr (inr (inl e))) = rw e (refl, tt)
none_for_users a (inr (inr (inr (inl e)))) = rw e (refl, tt)
none_for_users a (inr (inr (inr (inr e)))) = absurd e

-- After any events, the clicks and keys on the tabs among them: the active tab is one of the five ids that
-- the type of `bottomTab` names, so that the cast of the id is right, and exactly one panel is rendered
-- under the tabs, the one with that id.
pub one_panel :
    (lower : Text → Text) (es : List Event)
    → let a = (run lower es begin).app in
      OneOf a.bottom_tab panel_ids × (panels a ≡ a.bottom_tab ∷ [])
one_panel lower es =
    let among =
      run-OneOf panel_ids AnySession (λ u a _. tabs-OneOf (role_of u) a) lower es (All-Admits es)
        (inl refl) in
    (among, one_shown (run lower es begin).app among)

-- If no session of an admin begins, then after any events the panel of the users is not rendered.
pub users_for_admins :
    (lower : Text → Text) (es : List Event)
    → All (Admits IsAnalyst) es
    → All (λ id. text_eq id (text "users") ≡ false) (panels (run lower es begin).app)
users_for_admins lower es analysts = none_for_users (run lower es begin).app (
    run-OneOf analyst_ids IsAnalyst
      (λ u a e.
        subst (λ role. All (λ (t : TabItem). OneOf t.id analyst_ids) (tabs role a)) (sym e)
          (analyst_tabs-OneOf a))
      lower es analysts (inl refl))
