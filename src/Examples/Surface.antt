-- ===== src/Examples/Surface.antt =====
-- The theorems on the configuration and the HTTP endpoints, applied to the defaults, to one stack that
-- runs as it should, and to one report.
use swarm_hpa.Stackstatus.{drift, drift_entries, drift_of, live_by_name}
use swarm_hpa.Base.{
  ◌≢◌, err, lookup, put, ℕ, ◌≡◌, ◌↔◌, refl, inl, Bool, true, false, some, none, List, [], ◌∷◌, Text,
  text_eq, lit, pos, Result, ok, In, text_keys,
}
use swarm_hpa.Examples.Data.{whole, a_report, clock, node_one}
use swarm_hpa.Model.{StackService, ServiceDrift}
use swarm_hpa.Config.Runtime.{
  demand, is_filled, is_natural, is_one_of, is_positive, default, validate,
}
use swarm_hpa.Config.Runtime.Proper.{IsProper, validate-IsProper}
use swarm_hpa.Ingest.{Request, serve}
use swarm_hpa.Ingest
use swarm_hpa.Ingest.Admission.{Ruling, serve-Ruling}
use swarm_hpa.Registry.{Registry}
use swarm_hpa.Stackapi
use swarm_hpa.Stackapi.{response_of}
use swarm_hpa.Stackapi.Settled.{response_of-IsLive}
use swarm_hpa.Stackstatus.Drift.{IsLive}
use swarm_hpa.Statusstore.{StackStatus}

abbrev same_text : Text → Text
same_text s = s

abbrev every_url : Text → Bool
every_url s = true

accepted : validate {F = ℕ} same_text same_text every_url (default 1) ≡ none
unfolding validate demand is_positive default is_natural text_eq is_one_of is_filled
accepted = refl

validate-IsProper_example : IsProper {F = ℕ} same_text same_text every_url (default 1)
validate-IsProper_example =
    validate-IsProper {F = ℕ} same_text same_text every_url (default 1) accepted

abbrev endpoint : Ingest.Handler
endpoint = record { token = lit "key"; nodes = ok (node_one ∷ []); now = clock; stale = pos 15 }

abbrev report_request : Request ℕ
report_request = record {
  method = lit "POST";
  authorization = lit "Bearer key";
  body = ok a_report;
  remote_addr = lit "a";
}

abbrev no_reports : Registry ℕ
no_reports = record { entries = []; reads = 0; events = [] }

serve-Ruling_example :
    Ruling endpoint report_request no_reports (serve endpoint report_request no_reports)
serve-Ruling_example = serve-Ruling endpoint report_request no_reports

abbrev web_status : StackStatus
web_status = record {
  name = lit "web";
  repo = lit "main";
  state = [];
  revision = lit "abc";
  is_ok = true;
  error_stage = [];
  error_message = [];
  last_sync = pos 1;
  deploy_count = 1;
  desired_replicas = (lit "api", 2) ∷ [];
  files = [];
}

abbrev live_api : StackService
live_api = record { name = lit "api"; replicas = 2; replicated = true; labels = [] }

abbrev read_live : Text → Result Text (List StackService)
read_live stack = ok (live_api ∷ [])

abbrev surface : Stackapi.Handler
surface = record {
  store = (lit "web", web_status) ∷ [];
  never = pos 0;
  live = some read_live;
  reader = none;
  stack_names = [];
  concurrency = 4;
  by_stack = λ sts. sts;
  by_service = λ ds. ds;
  by_name = λ svcs. svcs;
}

shown_settled : (response_of surface web_status).drifted ≡ false
unfolding response_of Stackapi.any_drifted Stackapi.to_drift_items drift drift_entries drift_of
    lookup live_by_name put text_eq
shown_settled = refl

shown_quiet : (response_of surface web_status).drift_error ≡ []
unfolding response_of Stackapi.any_drifted Stackapi.to_drift_items drift drift_entries drift_of
    lookup live_by_name put text_eq
shown_quiet = refl

kept : (l : List ServiceDrift) (a : ServiceDrift) → In a (surface.by_service l) ↔ In a l
kept l a = (λ i. i, λ i. i)

never_fails : (e : Text) → read_live web_status.name ≡ err e → e ≢ []
never_fails e h = cc

response_of-IsLive_example :
    (live : List StackService) × (read_live web_status.name ≡ ok live) × IsLive live (lit "api") 2
response_of-IsLive_example =
    response_of-IsLive surface kept web_status read_live refl never_fails shown_settled shown_quiet
      (lit "api") 2 (inl refl)
