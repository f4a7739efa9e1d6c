-- ===== src/Monitor/Tests.antt =====
-- frontend/src/components/MonitorBanner.tsx at concrete inputs.
use mirraura.Base.{true, text}
use mirraura.Api.Request.{Outcome, rejected, api_error}
use mirraura.App.{App}
use mirraura.App

abbrev isolated_app : App
isolated_app = record App.start { isolated = true }

abbrev unreachable : Outcome (Unit {0})
unreachable = rejected (api_error (text "device unreachable") 502)
