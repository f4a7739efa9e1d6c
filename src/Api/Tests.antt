-- ===== src/Api/Tests.antt =====
-- The client of frontend/src/api.ts at concrete inputs.
use mirraura.Base.{
  ℕ, Text, text, List, [], ◌∷◌, ◌≡◌, refl, Option, none, some, arith, false, true, length, ◌≤◌,
}
use mirraura.Types.{MirraEvent, file_delete, analyst}
use mirraura.Api.Request.{Response, fulfilled, rejected, api_error, request, get, no_body}
use mirraura.Api.Hex.{hex_of, replicate}
use mirraura.Api.Uri.{encode_uri_component, encode_point, code_points, utf8, is_unreserved}
use mirraura.Api.Base64.{content_b64, btoa, atob, atob-content_b64, binary_from}
use mirraura.Api.Json.{stringify, quote, quote_from}
use mirraura.Api.Json.Bodies.{fields_received, fields_received_lem}
use mirraura.Api.Endpoints.{login, create_user, submit_hash}
use mirraura.Api.Live.{
  LiveMessage, event, sample, monitor, isolated, apply_live_event, apply_monitor_event, max_events,
}
use mirraura.Api.Live.Buffer.{last, events_of, fold_messages, buffers-last}
use mirraura.Api.Socket.{
  Connection, connect_live, opened, received, dropped, Reach, begin, next, on_open, on_message,
  on_close, close, open_, shut, connect,
}
use mirraura.Api.Socket.Status.{IsTruthful, Reach-IsTruthful, Within, Reach-Within}
use mirraura.Api.Socket.Session.{IsSound, IsQuiet, none_yet, and_then, Reach-IsSound, close-IsQuiet}

abbrev answer : ℕ → Response ℕ
answer status = record {
  ok = false;
  status = status;
  text = fulfilled (text "boom");
  json = fulfilled 7;
}

request_tests :
    (request
        (λ call creds. fulfilled (answer 401))
        (record { path = text "/api/me"; method = get; body = no_body })
      ≡ rejected (api_error (text "boom") 401))
    × (request
          (λ call creds. fulfilled (record (answer 204) { ok = true }))
          (record { path = text "/api/me"; method = get; body = no_body })
        ≡ fulfilled none)
unfolding request
request_tests = (refl, refl)

sha_tests : hex_of (171 ∷ 5 ∷ []) ≡ text "ab05"
unfolding hex_of text
sha_tests = refl

encoded : encode_uri_component (text "a/é😀") ≡ some (text "a%2F%C3%A9%F0%9F%98%80")
unfolding encode_uri_component encode_point code_points utf8 is_unreserved text
encoded = refl

lone_surrogate : encode_uri_component (97 ∷ 55357 ∷ []) ≡ none
unfolding encode_uri_component code_points
lone_surrogate = refl

base64_test : content_b64 (77 ∷ 97 ∷ 110 ∷ 77 ∷ []) ≡ text "TWFuTQ=="
unfolding content_b64 binary_from btoa text
base64_test = refl

atob-content_b64_example : atob (content_b64 (77 ∷ 255 ∷ [])) ≡ 77 ∷ 255 ∷ []
atob-content_b64_example = atob-content_b64 (77 ∷ 255 ∷ []) (omega arith)

abbrev some_hash : Text
some_hash = replicate 64 b'a'

abbrev some_event : ℕ → MirraEvent
some_event id = record {
  event_id = id ∷ [];
  device_id = [];
  event_type = file_delete;
  process_ref = none;
  network_ref = none;
  file_ref = none;
  timestamp = [];
  baseline_deviation_score = record { negative = false; mantissa = 0; scale = 0 };
}

abbrev some_messages : List LiveMessage
some_messages = event sample (some_event 1) ∷ event monitor (some_event 2) ∷ isolated ∷ []

buffers-last_example :
    (fold_messages apply_live_event [] some_messages
      ≡ last max_events (events_of sample some_messages))
    × (fold_messages apply_monitor_event [] some_messages
        ≡ last max_events (events_of monitor some_messages))
    × (length (fold_messages apply_live_event [] some_messages) ≤ max_events)
    × (length (fold_messages apply_monitor_event [] some_messages) ≤ max_events)
buffers-last_example = buffers-last some_messages

-- A parser that takes every frame for `isolated`.
abbrev any_frame : Text → Option LiveMessage
any_frame frame = some isolated

abbrev talking : Connection
talking = on_message any_frame [] (on_open (record connect_live { ws = some open_ }))

talking-Reach : Reach any_frame talking
unfolding connect_live on_open
talking-Reach = next (next begin (opened refl refl)) (received [] refl refl)

Reach-IsSound_example : IsSound talking
Reach-IsSound_example = Reach-IsSound any_frame talking-Reach

close-IsQuiet_example :
    IsQuiet any_frame (close talking) (on_close (record (close talking) { ws = some shut }))
unfolding close on_message on_open connect_live
close-IsQuiet_example =
    close-IsQuiet any_frame talking-Reach (and_then none_yet (dropped (λ e. cc e) (λ e. cc e) refl))

-- The server has gone away after it had answered.
abbrev lost : Connection
lost = on_close (record (on_open (record connect_live { ws = some open_ })) { ws = some shut })

lost_reached : Reach any_frame lost
unfolding connect_live connect on_open
lost_reached = next (next begin (opened refl refl)) (dropped (λ e. cc e) (λ e. cc e) refl)

Reach-IsTruthful_example : IsTruthful lost
Reach-IsTruthful_example = Reach-IsTruthful any_frame lost_reached

Reach-Within_example : Within any_frame 3 lost
unfolding connect_live connect on_open on_close
Reach-Within_example = Reach-Within any_frame lost_reached refl

-- A name that would be a field of its own without the escapes, and a lone half of a surrogate pair.
abbrev sly_name : Text
sly_name = text "x\",\"role\":\"admin"

quoted :
    stringify ((text "role", 10 ∷ 55357 ∷ 55357 ∷ 56832 ∷ []) ∷ [])
    ≡ text "{\"role\":\"\\n\\ud83d😀\"}"
unfolding stringify quote quote_from text
quoted = refl

fields_received_lem_example :
    (fields_received (login sly_name (10 ∷ 55357 ∷ []))
      ≡ some ((text "username", sly_name) ∷ (text "password", 10 ∷ 55357 ∷ []) ∷ []))
    × (fields_received (create_user sly_name (10 ∷ 55357 ∷ []) analyst)
        ≡ some (
            (text "username", sly_name)
            ∷ (text "password", 10 ∷ 55357 ∷ [])
            ∷ (text "role", text "analyst")
            ∷ []))
    × (fields_received (submit_hash sly_name (10 ∷ 55357 ∷ []))
        ≡ some ((text "hash", sly_name) ∷ (text "label", 10 ∷ 55357 ∷ []) ∷ []))
unfolding text
fields_received_lem_example =
    fields_received_lem sly_name (10 ∷ 55357 ∷ []) analyst (omega arith) (omega arith)
