-- ===== src/Web/App/Services.antt =====
-- web/src/App.tsx: the list of services. fetchServices is cut at its `await`.
use raceway.Prelude.{ℕ, Bool, true, false, List, Option, none, some}
use raceway.Text.{Text}

pub record ServiceListItem : Type 0 where
  pub name : Text
  pub event_count : ℕ
  pub trace_count : ℕ

pub record Services : Type 0 where
  pub services : List ServiceListItem
  pub services_loading : Bool

-- A response with or without data, or an error.
pub data ServicesAnswer : Type 0 where
  response : Option (List ServiceListItem) → ServicesAnswer
  error : ServicesAnswer

abbrev pub fetch_services : Services → Services
fetch_services s = record s { services_loading = true }

abbrev pub receive_services : ServicesAnswer → Services → Services
receive_services (response (some services)) s = record {
  services = services;
  services_loading = false;
}
receive_services (response none) s = record s { services_loading = false }
receive_services error s = record s { services_loading = false }
