-- ===== src/Examples.antt =====
-- Concrete data for the examples: two installations, three services, and JSON texts.
pub mod Instances
pub mod Sessions
pub mod Matching
pub mod Lists
pub mod Messages
mod Opened
mod Asked
mod Captures
mod Devices
use herdr_connect.Common.{
  true, ℕ, text, Text, ◌is◌, Option, none, some, List, [], ◌∷◌, if◌then◌else◌, ℤ, pos,
}
use herdr_connect.Json.{Json, JsonText, arr, obj, integer}
use herdr_connect.Paired.{DeviceCredentials, PairedInstancesModel}
use herdr_connect.Keychain.{index_json, record_json}
use herdr_connect.Agents.{AgentsResponse}
use herdr_connect.Discovery.{DiscoveredService}
use herdr_connect.Session.{Env, refused}

abbrev pub desk : DeviceCredentials
desk = record {
  fingerprint = text "a1";
  device_id = text "d";
  token = text "t";
  device_name = text "Desk";
  paired_at = text "1";
  pinned_host = none;
}

abbrev pub attic : DeviceCredentials
attic = record desk { fingerprint = text "b2"; paired_at = text "2" }

-- The attic's machine after it was paired again.
abbrev pub attic_again : DeviceCredentials
attic_again = record attic { token = text "u" }

abbrev pub one_instance : PairedInstancesModel
one_instance = record { active_fingerprint = some (text "a1"); instances = (text "a1", desk) ∷ [] }

abbrev pub two_instances : PairedInstancesModel
two_instances = record {
  active_fingerprint = some (text "a1");
  instances = (text "a1", desk) ∷ (text "b2", attic) ∷ [];
}

-- A date's text is a digit.
abbrev pub digit_date : Text → Option ℤ
digit_date [] = none
digit_date (c ∷ cs) = some (pos c)

abbrev pub written : Json → Text
written (arr items) = text "index"
written _ = text "desk"

-- The JSON texts that the model with one instance needs.
abbrev pub desk_json : JsonText
desk_json = record {
  parse = λ s.
      if s is text "index"
      then some (arr (index_json (text "a1" ∷ [])))
      else if s is text "desk"
      then some (record_json desk)
      else none;
  stringify = written;
}

abbrev pub service : ℕ → Text → DiscoveredService
service object name = record {
  object = object;
  name = name;
  type = text "_herdr-connect._tcp.";
  domain = text "local.";
  host_name = name;
  addresses = text "fe80::1" ∷ text "10.0.0.2" ∷ [];
  port = 7878;
  txt = [];
}

abbrev pub no_agents : AgentsResponse
no_agents = record {
  api_version = integer (pos 1);
  source_name = text "herdr";
  source_online = true;
  refreshed_at = text "now";
  agents = [];
}

abbrev pub no_stream : Env
no_stream = record { stream_start = refused; dev_fallback = none }
