-- ===== src/Login.antt =====
-- frontend/src/components/LoginPage.tsx
pub mod Submit
mod Tests
use mirraura.Base.{
  Bool, true, false, not, ◌&&◌, ◌||◌, List, [], ◌∷◌, Text, text, trim, is_nonempty, Option, none,
  some, if◌then◌else◌,
}
use mirraura.Presentation.{Wordmark, wordmark}
use mirraura.Api.Request.{Outcome, fulfilled, rejected, message_or, Call}
use mirraura.Api.Endpoints.{Session, login}

pub record LoginPage : Type 0 where
  -- The value of the input that `usernameRef` names.
  pub username_value : Text
  pub password : Text
  pub show_password : Bool
  pub busy : Bool
  pub error : Option Text
  pub caps_lock_on : Bool

abbrev pub start : LoginPage
start = record {
  username_value = [];
  password = [];
  show_password = false;
  busy = false;
  error = none;
  caps_lock_on = false;
}

-- `none` if the form does nothing.
unfoldable pub handle_submit : LoginPage → LoginPage × Option Call
handle_submit p =
    let username = trim p.username_value in
    if not (is_nonempty username) || not (is_nonempty p.password)
    then (p, none)
    else (record p { busy = true; error = none }, some (login username p.password))

-- The session that is handed to `onLogin`, if any.
unfoldable pub submit_answered : Outcome Session → LoginPage → LoginPage × Option Session
submit_answered (fulfilled user) p = (record p { busy = false }, some user)
submit_answered (rejected e) p =
    (record p { error = some (message_or (text "login failed") e); busy = false }, none)

unfoldable pub toggle_password : LoginPage → LoginPage
toggle_password p = record p { show_password = not p.show_password }

unfoldable pub change_password : Text → LoginPage → LoginPage
change_password value p = record p { password = value }

unfoldable pub key_up : Bool → LoginPage → LoginPage
key_up caps_lock p = record p { caps_lock_on = caps_lock }

-- The input of the name is the browser's own.
unfoldable pub type_username : Text → LoginPage → LoginPage
type_username value p = record p { username_value = value }

-- What is rendered of the form.
pub data ToggleIcon : Type 0 where
  eye eye_off : ToggleIcon

pub data FeatureIcon : Type 0 where
  flame eye_icon shield_check_icon : FeatureIcon

abbrev pub features : List (FeatureIcon × Text)
features =
    (flame, text "Isolated detonation")
    ∷ (eye_icon, text "Explainable verdicts")
    ∷ (shield_check_icon, text "Tamper-evident audit")
    ∷ []

pub record View : Type 0 where
  pub aside_wordmark : Wordmark
  pub feature_items : List (FeatureIcon × Text)
  pub form_wordmark : Wordmark
  pub inputs_disabled : Bool
  pub password_type : Text
  pub password_value : Text
  pub toggle_label : Text
  pub toggle_icon : ToggleIcon
  pub hint : Option Text
  pub submit_disabled : Bool
  pub spinner : Bool
  pub submit_label : Text
  pub error : Option Text

unfoldable pub view : LoginPage → View
unfolding wordmark
view p = record {
  aside_wordmark = wordmark (some 40) none (some (text "login-aside__wordmark"));
  feature_items = features;
  form_wordmark = wordmark (some 32) none none;
  inputs_disabled = p.busy;
  password_type = if p.show_password then text "text" else text "password";
  password_value = p.password;
  toggle_label = if p.show_password then text "Hide password" else text "Show password";
  toggle_icon = if p.show_password then eye_off else eye;
  hint = if p.caps_lock_on then some (text "Caps Lock is on") else none;
  submit_disabled = p.busy;
  spinner = p.busy;
  submit_label = if p.busy then text "Signing in…" else text "Sign in";
  error = p.error;
}
