-- ===== src/Types.antt =====
-- frontend/src/types.ts: the objects that the dashboard receives. Strings are lists of UTF-16 code
-- units, optional fields are options, process and port numbers are natural numbers.
use mirraura.Base.{ℕ, Bool, List, Option, Text}

-- A finite IEEE double: plus or minus `mantissa / 2 ^ scale`.
pub record Double : Type 0 where
  pub negative : Bool
  pub mantissa : ℕ
  pub scale : ℕ

pub record ProcessRef : Type 0 where
  pub pid : ℕ
  pub name : Text
  pub parent_pid : ℕ

pub record NetworkRef : Type 0 where
  pub dst_ip : Text
  pub dst_port : ℕ
  pub protocol : Text

pub record FileRef : Type 0 where
  pub path : Text
  pub action : Text

pub data EventType : Type 0 where
  process_spawn file_write file_delete network_connect : EventType

pub record MirraEvent : Type 0 where
  pub event_id : Text
  pub device_id : Text
  pub event_type : EventType
  pub process_ref : Option ProcessRef
  pub network_ref : Option NetworkRef
  pub file_ref : Option FileRef
  pub timestamp : Text
  pub baseline_deviation_score : Double

pub data VerdictLabel : Type 0 where
  normal suspicious compromised inconclusive : VerdictLabel

pub record Verdict : Type 0 where
  pub verdict_id : Text
  pub sample_hash : Text
  pub sample_filename : Text
  pub verdict : VerdictLabel
  pub confidence : Double
  pub causal_chain : List Text
  pub timestamp : Text
  pub prev_log_hash : Text
  pub detection_method : Text
  pub source : Text

pub data Role : Type 0 where
  admin analyst : Role

pub data ReviewStatus : Type 0 where
  pending approved rejected : ReviewStatus
