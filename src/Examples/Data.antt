-- ===== src/Examples/Data.antt =====
-- The data of the runs.
use valaf.Common.{ℕ, String, Bool, true, none, some, List, [], ◌∷◌}
use valaf.Common.Maps.{Map}
use valaf.Core.Alert.{Alert, AlertBatch}
use valaf.Core.Collect.{Attachment, captured, gap, EvidenceItem}
use valaf.Core.Analyze.{EvidenceRef, Hypothesis, AnalysisResult, AnalysisRequest, no_result}
use valaf.Store.Sql.{Server}

abbrev pub alert : String → String → String → Alert
alert fingerprint severity status = record {
  fingerprint = fingerprint;
  severity = severity;
  status = status;
  labels = ("alertname", "DiskFull") ∷ [];
  annotations = [];
  starts_at = some 90;
  ends_at = none;
  raw = "";
}

-- one alert delivered twice, and one that is resolved
abbrev pub batch : AlertBatch
batch = record {
  source = "alertmanager";
  grouping_key = "disk";
  title = "Disk full";
  entity_bag = ("instance", "db1") ∷ [];
  alerts =
      alert "a" "page" "firing" ∷ alert "b" "critical" "resolved" ∷ alert "a" "p2" "firing" ∷ [];
}

abbrev pub evidence : String → ℕ → EvidenceRef
evidence ref id = record {
  ref = ref;
  id = id;
  collector = "prometheus";
  kind = "metric";
  status = "ok";
  request = "{}";
  result = "{}";
}

abbrev pub hypothesis : ℕ → List String → List String → Hypothesis
hypothesis rank supporting contradicting = record {
  rank = rank;
  title = "The disk is full";
  rationale = "";
  supporting = supporting;
  contradicting = contradicting;
  checks = [];
}

-- an answer with two dangling references and a hypothesis without evidence
abbrev pub answer : AnalysisResult
answer = record no_result {
  observations =
      record { body = "usage rises"; cites = "E1" ∷ "E9" ∷ [] }
      ∷ record { body = "guess"; cites = [] }
      ∷ [];
  hypotheses = hypothesis 1 [] ("E8" ∷ []) ∷ hypothesis 2 ("E2" ∷ []) [] ∷ [];
  triage_verdict = " Noise ";
}

abbrev pub request : AnalysisRequest
request = record {
  incident_title = "Disk full";
  severity = "critical";
  entity_bag = [];
  evidence = evidence "E1" 11 ∷ evidence "E2" 12 ∷ [];
  similar = [];
}

-- the valid handles of `request`
abbrev pub valid : Map Bool
valid = ("E1", true) ∷ ("E2", true) ∷ []

abbrev pub photo : Attachment
photo = record {
  storage_backend = "local";
  storage_key = "k";
  mime_type = "image/png";
  size_bytes = 3;
  checksum = "";
}

abbrev pub items : List EvidenceItem
items =
    record {
      collector = "prometheus";
      kind = "metric";
      request = "";
      result = "[1]";
      status = captured;
      error = "";
      attachment = some photo;
    }
    ∷ record {
      collector = "grafana";
      kind = "dashboard";
      request = "";
      result = "";
      status = gap;
      error = "no dashboard";
      attachment = none;
    }
    ∷ []

-- a database server that takes every text
abbrev pub lenient : Server
lenient = record { is_text = λ s. true; is_jsonb = λ s. true }
