-- ===== src/Store/Evidence.antt =====
-- internal/store/evidence.go: the items of one collection, in one transaction.
pub mod Complete
pub mod Refused
use valaf.Common.{
  ℕ, suc, String, Bool, true, false, ◌&&◌, ◌||◌, not, Option, none, some, List, [], ◌∷◌, ◌++◌, ◌==◌,
  if◌then◌else◌,
}
use valaf.Common.Effect.{Error, Result, ok, err, constraint, Eff, pure, ◌>>=◌, ◌>>◌}
use valaf.Core.Alert.{RawMessage, Time}
use valaf.Core.Collect.{
  EvidenceStatus, captured, gap, failed, Attachment, EvidenceItem, EvidenceRepository,
}
use valaf.Store.Tables.{EvidenceRow, AttachmentRow, Tables}
use valaf.Store.Sql.{Server, Conn, Sql, Query, exec, transaction, write, null_if_empty}
use valaf.Store.Jobs.{incident_exists}

abbrev pub or_object : RawMessage → RawMessage
or_object raw = if raw == "" then "{}" else raw

-- NULL unless the item was captured
abbrev pub stored_result : EvidenceStatus → RawMessage → Option RawMessage
stored_result captured raw = some (or_object raw)
stored_result _ raw = none

abbrev pub is_captured : EvidenceStatus → Bool
is_captured captured = true
is_captured _ = false

abbrev pub is_some : {A : Type 0} → Option A → Bool
is_some none = false
is_some (some _) = true

abbrev pub same_bool : Bool → Bool → Bool
same_bool true b = b
same_bool false b = not b

-- the CHECK `evidence_result_presence`
abbrev pub result_presence : EvidenceRow → Bool
result_presence r = same_bool (is_captured r.status) (is_some r.result)

unfoldable pub new_evidence : Time → ℕ → ℕ → EvidenceItem → EvidenceRow
new_evidence now id incident_id it = record {
  id = id;
  incident_id = incident_id;
  collector = it.collector;
  kind = it.kind;
  request = or_object it.request;
  result = stored_result it.status it.result;
  status = it.status;
  error = null_if_empty it.error;
  is_valid = true;
  invalid_comment = none;
  flagged_by = none;
  flagged_at = none;
  captured_at = now;
}

-- the enums `collector_type`, `evidence_kind` and `storage_backend`
abbrev pub is_collector_type : String → Bool
is_collector_type s =
    (s == "prometheus")
    || ((s == "loki") || ((s == "elasticsearch") || ((s == "grafana") || (s == "kubernetes"))))

abbrev pub is_evidence_kind : String → Bool
is_evidence_kind s = (s == "metric") || ((s == "log") || ((s == "dashboard") || (s == "orch")))

abbrev pub is_storage_backend : String → Bool
is_storage_backend s = (s == "local") || (s == "s3")

abbrev pub is_legal : EvidenceItem → Bool
is_legal it = is_collector_type it.collector && is_evidence_kind it.kind

abbrev pub fits : (String → Bool) → Option String → Bool
fits p none = true
fits p (some s) = p s

-- the types of the columns `request`, `result` and `error`
abbrev pub takes_row : Server → EvidenceRow → Bool
takes_row server r =
    server.is_jsonb r.request && (fits server.is_jsonb r.result && fits server.is_text r.error)

-- the INSERT, with the enums, the columns' types, the foreign key and the CHECK
unfoldable pub insert_evidence : Server → Time → ℕ → EvidenceItem → Query ℕ
unfolding new_evidence
insert_evidence server now incident_id it t =
    let row = new_evidence now t.next_id incident_id it in
    if is_legal it
      && (takes_row server row && (incident_exists incident_id t && result_presence row))
    then ok (
      t.next_id,
      record t { next_id = suc t.next_id; evidence_items = t.evidence_items ++ row ∷ [] },
    )
    else err constraint

abbrev pub attachment_row : ℕ → ℕ → Attachment → AttachmentRow
attachment_row id item_id a = record {
  id = id;
  evidence_item_id = item_id;
  storage_backend = a.storage_backend;
  storage_key = a.storage_key;
  mime_type = a.mime_type;
  size_bytes = a.size_bytes;
  checksum = null_if_empty a.checksum;
}

-- the types of the columns `storage_key`, `mime_type` and `checksum`
abbrev pub takes_attachment : Server → AttachmentRow → Bool
takes_attachment server r =
    server.is_text r.storage_key && (server.is_text r.mime_type && fits server.is_text r.checksum)

unfoldable pub insert_attachment : Server → Option Attachment → ℕ → Sql Unit
insert_attachment server none id = pure tt
insert_attachment server (some a) item_id = exec (λ t.
    if is_storage_backend a.storage_backend
      && takes_attachment server (attachment_row t.next_id item_id a)
    then ok (
      tt,
      record t {
        next_id = suc t.next_id;
        attachments = t.attachments ++ attachment_row t.next_id item_id a ∷ [];
      },
    )
    else err constraint)

-- the loop over the items
unfoldable pub insert_items : Server → Time → ℕ → List EvidenceItem → Sql Unit
unfolding insert_evidence insert_attachment
insert_items server now incident_id [] = pure tt
insert_items server now incident_id (it ∷ rest) = do
  id ← exec (insert_evidence server now incident_id it)
  insert_attachment server it.attachment id
  insert_items server now incident_id rest

unfoldable pub save_evidence : Server → Time → ℕ → List EvidenceItem → Sql Unit
unfolding insert_items
save_evidence server now incident_id items = transaction (insert_items server now incident_id items)

abbrev pub evidence_repo : Server → Time → EvidenceRepository Conn
evidence_repo server now = record { save_evidence = save_evidence server now }
