-- ===== src/Api/Endpoints.antt =====
-- frontend/src/api.ts, lines 31 to 191: the call that each function of the client hands to
-- `request`, and what it makes of the answer.
pub mod Paths
use mirraura.Base.{
  ℕ, Bool, true, false, List, [], ◌∷◌, ◌++◌, Text, text, decimal, filter, Option, none, some,
  map_some,
}
use mirraura.Types.{
  Double, Role, admin, analyst, ReviewStatus, pending, approved, rejected, Verdict,
}
use mirraura.Api.Request.{
  Outcome, fulfilled, ◌>>=◌, File, Method, get, post, patch, delete, Call, no_body, form_data, json,
}
use mirraura.Api.Uri.{encode_uri_component}
use mirraura.Api.Base64.{content_b64}

pub data EntrySource : Type 0 where
  auto manual : EntrySource

pub record HashEntry : Type 0 where
  pub hash : Text
  pub label : Text
  pub status : ReviewStatus
  pub source : EntrySource
  pub proposed_at : Text
  pub reviewed_at : Option Text

pub record CorpusEntry : Type 0 where
  pub content_hash : Text
  pub label : Text
  pub status : ReviewStatus
  pub source : EntrySource
  pub proposed_at : Text
  pub reviewed_at : Option Text
  pub size : ℕ
  pub preview : Text

pub record QuarantineEntry : Type 0 where
  pub id : ℕ
  pub sample_hash : Text
  pub filename : Text
  pub original_path : Text
  pub verdict_label : Text
  pub confidence : Double
  pub status : ReviewStatus
  pub created_at : Text

pub record UserEntry : Type 0 where
  pub username : Text
  pub role : Role

pub record Session : Type 0 where
  pub username : Text
  pub role : Text

pub record ChainStatus : Type 0 where
  pub intact : Bool
  pub entries : ℕ
  pub broken_at : Option ℕ

pub record MonitorStatus : Type 0 where
  pub isolated : Bool

abbrev pub role_text : Role → Text
role_text admin = text "admin"
role_text analyst = text "analyst"

abbrev fetch_call : Text → Call
fetch_call path = record { path = path; method = get; body = no_body }

abbrev post_call : Text → Call
post_call path = record { path = path; method = post; body = no_body }

unfoldable pub login : Text → Text → Call
login username password = record {
  path = text "/api/login";
  method = post;
  body = json ((text "username", username) ∷ (text "password", password) ∷ []);
}

unfoldable pub logout : Call
logout = post_call (text "/api/logout")

unfoldable pub me : Call
me = fetch_call (text "/api/me")

unfoldable pub upload_sample : File → Call
upload_sample file = record {
  path = text "/api/samples";
  method = post;
  body = form_data (text "sample") file;
}

unfoldable pub fetch_verdicts : Call
fetch_verdicts = fetch_call (text "/api/verdicts")

unfoldable pub fetch_monitor_status : Call
fetch_monitor_status = fetch_call (text "/api/monitor/status")

unfoldable pub fetch_chain_status : Call
fetch_chain_status = fetch_call (text "/api/audit/verify")

unfoldable pub reconnect_monitor : Call
reconnect_monitor = post_call (text "/api/monitor/reconnect")

unfoldable pub fetch_hashes : Call
fetch_hashes = fetch_call (text "/api/hashes")

unfoldable pub submit_hash : Text → Text → Call
submit_hash hash label = record {
  path = text "/api/hashes";
  method = post;
  body = json ((text "hash", hash) ∷ (text "label", label) ∷ []);
}

unfoldable pub approve_hash : Text → Call
approve_hash hash = post_call (text "/api/hashes/" ++ (hash ++ text "/approve"))

unfoldable pub reject_hash : Text → Call
reject_hash hash = post_call (text "/api/hashes/" ++ (hash ++ text "/reject"))

abbrev pub max_corpus_sample_bytes : ℕ
max_corpus_sample_bytes = 65536

abbrev pub is_pending : ReviewStatus → Bool
is_pending pending = true
is_pending _ = false

unfoldable pub corpus_call : Call
corpus_call = fetch_call (text "/api/corpus")

-- From what `request` answers.
unfoldable pub fetch_corpus_pending : Outcome (List CorpusEntry) → Outcome (List CorpusEntry)
fetch_corpus_pending answer = do
  entries ← answer
  fulfilled (filter (λ (e : CorpusEntry). is_pending e.status) entries)

-- The bytes are read before the call is made.
unfoldable pub submit_corpus_sample : File → Text → Outcome Call
submit_corpus_sample file label = do
  bytes ← file.content
  fulfilled (record {
    path = text "/api/corpus";
    method = post;
    body = json ((text "content_b64", content_b64 bytes) ∷ (text "label", label) ∷ []);
  })

unfoldable pub approve_corpus_entry : Text → Call
approve_corpus_entry content_hash =
    post_call (text "/api/corpus/" ++ (content_hash ++ text "/approve"))

unfoldable pub reject_corpus_entry : Text → Call
reject_corpus_entry content_hash =
    post_call (text "/api/corpus/" ++ (content_hash ++ text "/reject"))

unfoldable pub fetch_users : Call
fetch_users = fetch_call (text "/api/users")

unfoldable pub create_user : Text → Text → Role → Call
create_user username password role = record {
  path = text "/api/users";
  method = post;
  body = json (
      (text "username", username)
      ∷ (text "password", password)
      ∷ (text "role", role_text role)
      ∷ []);
}

-- `none` is the `URIError` of a name that is no well-formed text: no call is made.
unfoldable pub delete_user : Text → Option Call
delete_user username =
    map_some (λ name. record { path = text "/api/users/" ++ name; method = delete; body = no_body })
      (encode_uri_component username)

unfoldable pub update_user_role : Text → Role → Option Call
update_user_role username role =
    map_some
      (λ name. record {
        path = text "/api/users/" ++ (name ++ text "/role");
        method = patch;
        body = json ((text "role", role_text role) ∷ []);
      })
      (encode_uri_component username)

unfoldable pub fetch_quarantine_pending : Call
fetch_quarantine_pending = fetch_call (text "/api/intercept/pending")

unfoldable pub approve_quarantine : ℕ → Call
approve_quarantine id = post_call (text "/api/intercept/" ++ (decimal id ++ text "/approve"))

unfoldable pub reject_quarantine : ℕ → Call
reject_quarantine id = post_call (text "/api/intercept/" ++ (decimal id ++ text "/reject"))
