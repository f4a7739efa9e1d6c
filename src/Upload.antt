-- ===== src/Upload.antt =====
-- frontend/src/components/UploadPanel.tsx. The digest of a file and the upload are answered later;
-- the ticker of an upload runs while `ticking`.
pub mod Progress
pub mod Preview
mod Tests
use mirraura.Base.{
  ℕ, suc, ◌+◌, ◌*◌, ◌/◌, ◌%◌, ltb, ◌==◌, min, not, ◌||◌, Bool, true, false, List, [], ◌∷◌, ◌++◌,
  map, Text, text, decimal, Option, none, some, is_some, if◌then◌else◌, ◌-◌,
}
use mirraura.Types.{Verdict}
use mirraura.Api.Request.{File, Outcome, fulfilled, rejected, message_or, has_status, Call}
use mirraura.Api.Endpoints.{upload_sample}

abbrev pub steps : List Text
steps =
    text "Upload"
    ∷ text "Isolate"
    ∷ text "Detonate"
    ∷ text "Observe"
    ∷ text "Score"
    ∷ text "Teardown"
    ∷ []

abbrev pub last_step : ℕ
last_step = 5

-- `x.toFixed(1)` of `n / d`: the nearest tenth, the larger of two.
unfoldable pub to_fixed_1 : ℕ → ℕ → Text
to_fixed_1 n d =
    let tenths = (20 * n + d) / (2 * d) in
    decimal (tenths / 10) ++ (text "." ++ decimal (tenths % 10))

unfoldable pub format_size : ℕ → Text
unfolding to_fixed_1
format_size bytes =
    if ltb bytes 1024
    then decimal bytes ++ text " B"
    else if ltb bytes (1024 * 1024)
    then to_fixed_1 bytes 1024 ++ text " KB"
    else to_fixed_1 bytes (1024 * 1024) ++ text " MB"

pub record Upload : Type 0 where
  pub drag_over : Bool
  pub file : Option File
  pub hash : Option Text
  pub busy : Bool
  pub error : Option Text
  pub step_index : ℕ
  -- The upload's interval is set.
  pub ticking : Bool

abbrev pub start : Upload
start = record {
  drag_over = false;
  file = none;
  hash = none;
  busy = false;
  error = none;
  step_index = 0;
  ticking = false;
}

-- The digest of `f` is asked for.
unfoldable pub handle_file : File → Upload → Upload
handle_file f s = record s { file = some f; hash = none; error = none }

unfoldable pub hash_answered : Outcome Text → Upload → Upload
hash_answered (fulfilled h) s = record s { hash = some h }
hash_answered (rejected e) s = s

-- `onUploadStart` is called exactly if there is a call.
unfoldable pub handle_upload : Upload → Upload × Option Call
handle_upload s = elim s.file [
  | none ↦ (s, none)
  | some f ↦ (
    record s { busy = true; error = none; step_index = 0; ticking = true },
    some (upload_sample f),
  )
]

unfoldable pub tick : Upload → Upload
tick s = record s { step_index = min (s.step_index + 1) (last_step - 1) }

pub data Effect : Type 0 where
  session_expired : Effect
  verdict_received : Verdict → Effect

unfoldable pub upload_answered : Outcome Verdict → Upload → Upload × List Effect
upload_answered (fulfilled v) s =
    (record s { step_index = last_step; ticking = false; busy = false }, verdict_received v ∷ [])
upload_answered (rejected e) s =
    let t = record s { ticking = false; busy = false } in
    if has_status 401 e then (t, session_expired ∷ []) else (
      record t {
        error = some (message_or (text "Upload failed — check your connection and try again.") e);
      },
      [],
    )

unfoldable pub drag : Bool → Upload → Upload
drag over s = record s { drag_over = over }

-- `none` if no file was dropped.
unfoldable pub handle_drop : Option File → Upload → Upload
unfolding handle_file
handle_drop none s = record s { drag_over = false }
handle_drop (some f) s = handle_file f (record s { drag_over = false })

-- The button "Run sample", and a file that is picked by the input.
unfoldable pub run_disabled : Upload → Bool
run_disabled s = s.busy || not (is_some s.file)

pub data StepState : Type 0 where
  done active pending : StepState

unfoldable pub step_state : ℕ → ℕ → StepState
step_state i step_index =
    if ltb i step_index then done else if i == step_index then active else pending

pub record View : Type 0 where
  pub drop_active : Bool
  pub input_disabled : Bool
  pub file_info : Option (Text × Text)
  pub hash : Option Text
  pub spinner : Bool
  pub run_label : Text
  pub run_disabled_ : Bool
  pub progress : List (Text × StepState)
  pub error : Option Text

abbrev file_info : Option File → Option (Text × Text)
file_info none = none
file_info (some f) = some (f.name, format_size f.size)

abbrev shown_hash : Option File → Option Text → Option Text
shown_hash none h = none
shown_hash (some f) h = h

-- `STEPS.map((step, i) => ...)`
abbrev step_items : ℕ → ℕ → List Text → List (Text × StepState)
step_items i step_index [] = []
step_items i step_index (step ∷ rest) =
    (step, step_state i step_index) ∷ step_items (suc i) step_index rest

unfoldable pub view : Upload → View
unfolding run_disabled step_state
view s = record {
  drop_active = s.drag_over;
  input_disabled = s.busy;
  file_info = file_info s.file;
  hash = shown_hash s.file s.hash;
  spinner = s.busy;
  run_label = if s.busy then text "Detonating…" else text "Run sample";
  run_disabled_ = run_disabled s;
  progress = if s.busy then step_items 0 s.step_index steps else [];
  error = s.error;
}
