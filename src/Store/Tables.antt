-- ===== src/Store/Tables.antt =====
-- The rows of internal/migrate/sql, and the database as one value. A table lists its rows in the
-- order of their insertion; `gen_random_uuid()` and `bigserial` draw from one counter.
use valaf.Common.{ℕ, String, Bool, Option, List, []}
use valaf.Common.Maps.{Map}
use valaf.Common.Effect.{Error}
use valaf.Core.Alert.{RawMessage, Time}
use valaf.Core.Collect.{EvidenceStatus}
use valaf.Core.Analyze.{AnalysisStatus, TimelineEntry}

-- the enum `incident_status`; `opened` is 'open'
pub data IncidentStatus : Type 0 where
  opened analyzing published resolved false_positive deleted : IncidentStatus

-- the enum `job_status`
pub data JobStatus : Type 0 where
  pending running done failed : JobStatus

pub record IncidentRow : Type 0 where
  pub id : ℕ
  pub title : String
  pub status : IncidentStatus
  pub severity : String
  pub grouping_key : String
  pub entity_bag : Map String
  pub triage_verdict : Option String
  pub opened_at : Time
  pub published_at : Option Time
  pub resolved_at : Option Time
  pub deleted_at : Option Time

pub record AlertRow : Type 0 where
  pub incident_id : ℕ
  pub source : String
  pub fingerprint : String
  pub severity : String
  pub labels : Map String
  pub annotations : Map String
  pub raw_payload : RawMessage
  pub starts_at : Option Time
  pub ends_at : Option Time
  pub received_at : Time

pub record JobRow : Type 0 where
  pub id : ℕ
  pub kind : String
  pub incident_id : Option ℕ
  pub status : JobStatus
  pub attempts : ℕ
  pub max_attempts : ℕ
  pub run_at : Time
  pub last_error : Option Error
  pub updated_at : Time

pub record EvidenceRow : Type 0 where
  pub id : ℕ
  pub incident_id : ℕ
  pub collector : String
  pub kind : String
  pub request : RawMessage
  pub result : Option RawMessage
  pub status : EvidenceStatus
  pub error : Option String
  pub is_valid : Bool
  pub invalid_comment : Option String
  pub flagged_by : Option ℕ
  pub flagged_at : Option Time
  pub captured_at : Time

pub record AttachmentRow : Type 0 where
  pub id : ℕ
  pub evidence_item_id : ℕ
  pub storage_backend : String
  pub storage_key : String
  pub mime_type : String
  pub size_bytes : ℕ
  pub checksum : Option String

pub record AnalysisRow : Type 0 where
  pub id : ℕ
  pub incident_id : ℕ
  pub provider : Option String
  pub model : Option String
  pub status : AnalysisStatus
  pub summary : Option String
  pub timeline : List TimelineEntry
  pub gaps : List String
  pub triage_verdict : Option String
  pub is_current : Bool
  pub error : Option Error
  pub created_at : Time

pub record ObservationRow : Type 0 where
  pub id : ℕ
  pub analysis_id : ℕ
  pub body : String
  pub ordinal : ℕ

pub record CitationRow : Type 0 where
  pub observation_id : ℕ
  pub evidence_item_id : ℕ

pub record HypothesisRow : Type 0 where
  pub id : ℕ
  pub analysis_id : ℕ
  pub rank : ℕ
  pub title : String
  pub rationale : Option String
  pub suggested_checks : List String
  pub verdict : String
  pub verdict_note : Option String
  pub verdict_by : Option ℕ
  pub verdict_at : Option Time

pub record HypothesisEvidenceRow : Type 0 where
  pub hypothesis_id : ℕ
  pub evidence_item_id : ℕ
  pub relation : String

pub record SimilarRow : Type 0 where
  pub analysis_id : ℕ
  pub source_incident_id : ℕ
  pub overlap : List String
  pub score : ℕ

pub record ResolutionRow : Type 0 where
  pub incident_id : ℕ
  pub root_cause : String
  pub actions_taken : Option String
  pub ultimate_solution : Option String
  pub notes : Option String
  pub resolved_by : ℕ
  pub resolved_at : Time

pub record NotificationRow : Type 0 where
  pub incident_id : ℕ
  pub channel : String
  pub target : Option String
  pub status : String
  pub reason : String

pub record AuditRow : Type 0 where
  pub actor_id : ℕ
  pub action : String
  pub entity_type : String
  pub entity_id : ℕ
  pub details : Map String
  pub at : Time

pub record UserRow : Type 0 where
  pub id : ℕ
  pub username : String
  pub email : Option String
  pub password_hash : Option String
  pub role : String
  pub auth_source : String
  pub is_active : Bool
  pub last_login_at : Option Time

pub record SessionRow : Type 0 where
  pub id : ℕ
  pub user_id : ℕ
  pub token_hash : String
  pub csrf_secret : String
  pub expires_at : Time

pub record SourceRow : Type 0 where
  pub id : ℕ
  pub name : String
  pub source_type : String
  pub auth_method : String
  pub token_hash : Option String
  pub hmac_secret : Option String
  pub is_active : Bool
  pub last_seen_at : Option Time

pub record Tables : Type 0 where
  pub next_id : ℕ
  pub incidents : List IncidentRow
  pub alerts : List AlertRow
  pub jobs : List JobRow
  pub evidence_items : List EvidenceRow
  pub attachments : List AttachmentRow
  pub analyses : List AnalysisRow
  pub observations : List ObservationRow
  pub observation_citations : List CitationRow
  pub hypotheses : List HypothesisRow
  pub hypothesis_evidence : List HypothesisEvidenceRow
  pub similar_incidents : List SimilarRow
  pub resolutions : List ResolutionRow
  pub notifications : List NotificationRow
  pub audit_log : List AuditRow
  pub users : List UserRow
  pub sessions : List SessionRow
  pub intake_sources : List SourceRow

-- the database after the migrations
abbrev pub empty_tables : Tables
empty_tables = record {
  next_id = 1;
  incidents = [];
  alerts = [];
  jobs = [];
  evidence_items = [];
  attachments = [];
  analyses = [];
  observations = [];
  observation_citations = [];
  hypotheses = [];
  hypothesis_evidence = [];
  similar_incidents = [];
  resolutions = [];
  notifications = [];
  audit_log = [];
  users = [];
  sessions = [];
  intake_sources = [];
}
