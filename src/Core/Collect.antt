-- ===== src/Core/Collect.antt =====
-- internal/core/collect.go
use valaf.Common.{ℕ, String, Option, none, some, List, [], ◌∷◌, ◌++◌, ltb, length, if◌then◌else◌}
use valaf.Common.Maps.{Map}
use valaf.Common.Effect.{Eff, pure, ◌>>◌}
use valaf.Core.Alert.{RawMessage, Time}

-- EvidenceOK, EvidenceGap, EvidenceFailed
pub data EvidenceStatus : Type 0 where
  captured gap failed : EvidenceStatus

pub record TimeWindow : Type 0 where
  pub start : Time
  pub end : Time
  pub step : Time

pub record CollectTarget : Type 0 where
  pub incident_id : ℕ
  pub title : String
  pub alertnames : List String
  pub entity_bag : Map String
  pub annotations : Map String
  pub window : TimeWindow

-- a pointer to binary evidence in the blob store
pub record Attachment : Type 0 where
  pub storage_backend : String
  pub storage_key : String
  pub mime_type : String
  pub size_bytes : ℕ
  pub checksum : String

pub record EvidenceItem : Type 0 where
  pub collector : String
  pub kind : String
  pub request : RawMessage
  pub result : RawMessage
  pub status : EvidenceStatus
  pub error : String
  pub attachment : Option Attachment

-- A collector returns items and never an error; the first argument is the time-box of its context.
-- `timeout_hint` is the optional interface `TimeoutHinter`.
pub record Collector (S : Type 0) : Type 0 where
  pub kind : String
  pub timeout_hint : Option Time
  pub collect : Time → CollectTarget → S → List EvidenceItem × S

pub record EvidenceRepository (S : Type 0) : Type 0 where
  pub save_evidence : ℕ → List EvidenceItem → Eff S Unit

pub record CollectionService (S : Type 0) : Type 0 where
  pub collectors : List (Collector S)
  pub evidence : EvidenceRepository S
  pub per_timeout : Time

unfoldable pub time_box : Time → Option Time → Time
time_box per none = per
time_box per (some hint) = if ltb per hint then hint else per

module _ {S : Type 0} where
  abbrev pub with_per_collector_timeout : Time → CollectionService S → CollectionService S
  with_per_collector_timeout d svc = record svc { per_timeout = d }

  -- the loop over the collectors
  unfoldable pub gather : List (Collector S) → Time → CollectTarget → S → List EvidenceItem × S
  unfolding time_box
  gather [] per target s = ([], s)
  gather (c ∷ rest) per target s =
      let (items, s1) = c.collect (time_box per c.timeout_hint) target s in
      let (more, s2) = gather rest per target s1 in (items ++ more, s2)

  save_gathered : CollectionService S → CollectTarget → List EvidenceItem → Eff S ℕ
  save_gathered svc target [] = pure 0
  save_gathered svc target (it ∷ rest) = do
    svc.evidence.save_evidence target.incident_id (it ∷ rest)
    pure (length (it ∷ rest))

  -- `Collect` of the service: the number of items recorded
  unfoldable pub collect : CollectionService S → CollectTarget → Eff S ℕ
  unfolding gather save_gathered
  collect svc target s =
      let (items, s') = gather svc.collectors svc.per_timeout target s in
      save_gathered svc target items s'
