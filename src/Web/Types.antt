-- ===== src/Web/Types.antt =====
-- web/src/types.ts: the events that the server's API hands to the web interface.
use raceway.Prelude.{ℕ, Bool, List, Option}
use raceway.Text.{Text}
use raceway.Json.{Json, Fields}

pub record EventMetadata : Type 0 where
  pub thread_id : Text
  pub process_id : ℕ
  pub service_name : Text
  pub environment : Text
  pub tags : List (Text × Text)
  pub duration_ns : Option ℕ
  pub location : Option Text

-- `kind` is a Record<string, any>.
pub record Event : Type 0 where
  pub id : Text
  pub trace_id : Text
  pub parent_id : Option Text
  pub timestamp : Text
  pub kind : Fields
  pub metadata : EventMetadata
  pub causality_vector : List (Text × ℕ)
  pub lock_set : List Text

pub record VariableAccess : Type 0 where
  pub event_id : Text
  pub timestamp : Text
  pub thread_id : Text
  pub service_name : Text
  pub access_type : Text
  pub old_value : Json
  pub new_value : Json
  pub location : Text
  pub has_causal_link_to_previous : Bool
  pub is_race : Bool
