-- ===== src/Api/Request.antt =====
-- frontend/src/api.ts, lines 12 to 29: the error class and `request`. The browser's `fetch` is a
-- parameter: it is given the call and answers by a settled promise.
use mirraura.Base.{ℕ, ◌==◌, Bool, false, List, Option, none, some, Text, if◌then◌else◌}

-- What a promise is rejected with: an `ApiError`, another `Error`, or a value of another class.
pub data Failure : Type 0 where
  api_error : (message : Text) (status : ℕ) → Failure
  other_error : (message : Text) → Failure
  no_error : Failure

-- A settled promise.
pub data Outcome {ℓ} (A : Type ℓ) : Type ℓ where
  fulfilled : A → Outcome A
  rejected : Failure → Outcome A

infixl 5 ◌>>=◌
abbrev pub ◌>>=◌ {ℓ κ} : {A : Type ℓ} {B : Type κ} → Outcome A → (A → Outcome B) → Outcome B
fulfilled a >>= f = f a
rejected e >>= f = rejected e

-- `e instanceof Error ? e.message : fallback`
abbrev pub message_or : Text → Failure → Text
message_or fallback (api_error message _) = message
message_or fallback (other_error message) = message
message_or fallback no_error = fallback

-- `e instanceof ApiError && e.status === status`
abbrev pub has_status : ℕ → Failure → Bool
has_status status (api_error _ s) = s == status
has_status status _ = false

-- A file that the user chose; reading it may fail.
pub record File : Type 0 where
  pub name : Text
  pub size : ℕ
  pub content : Outcome (List ℕ)

pub data Method : Type 0 where
  get post patch delete : Method

pub data Body : Type 0 where
  no_body : Body
  form_data : Text → File → Body
  -- The text that `JSON.stringify` makes of an object with these fields, sent as application/json.
  json : List (Text × Text) → Body

-- The arguments of one call of `request`.
pub record Call : Type 0 where
  pub path : Text
  pub method : Method
  pub body : Body

pub data Credentials : Type 0 where
  same_origin include omit : Credentials

pub record Response {ℓ} (T : Type ℓ) : Type ℓ where
  pub ok : Bool
  pub status : ℕ
  pub text : Outcome Text
  pub json : Outcome T

module _ {ℓ} {T : Type ℓ} (fetch : Call → Credentials → Outcome (Response T)) where
  -- `none` is `undefined`.
  unfoldable pub request : Call → Outcome (Option T)
  request call = do
    res ← fetch call same_origin
    let failed = do message ← res.text; rejected (api_error message res.status)
    let read = do value ← res.json; fulfilled (some value)
    if res.ok then (if res.status == 204 then fulfilled none else read) else failed
