-- ===== src/Adapters/Prometheus/Recorded.antt =====
-- The collector always ends with one item for each query, and what the store makes of them.
use valaf.Common.{All, In, false, ℕ, ◌≡◌, Option, none, some, List, ◌++◌, ◌⊎◌, length}
use valaf.Common.Effect.{Error, ok, err}
use valaf.Core.Alert.{Time}
use valaf.Core.Collect.{EvidenceItem}
use valaf.Store.Tables.{EvidenceRow, Tables}
use valaf.Store.Sql.{Server, up}
use valaf.Store.Evidence.{save_evidence}
use valaf.Store.Evidence.Complete.{takes_item, Recorded}
use valaf.Adapters.Prometheus.{Api}
use valaf.Adapters.Prometheus.Queries.{Query}

abbrev Some : {A : Type 0} → Option A → Type 0
Some {A} o = (a : A) × (o ≡ some a)

-- an item of the collector: what was captured, a gap, or a failure with its reason
abbrev pub IsMetric : EvidenceItem → Type 0
IsMetric it = (it.collector ≡ "prometheus") × (it.kind ≡ "metric") × (it.attachment ≡ none)

abbrev Yields : Option EvidenceItem → Type 0
Yields o = (it : EvidenceItem) × (o ≡ some it) × IsMetric it

module _ {S F : Type 0} (api : Api S F) where
  -- how many queries, so many items
  abbrev pub Answers : List Query → Option (List EvidenceItem) → Type 0
  Answers qs o =
      (items : List EvidenceItem) × (o ≡ some items)
      × (length items ≡ length qs)
      × All IsMetric items

  -- the rows of all items, or an error and no row at all because of one item
  abbrev pub SavedOrLost : Server → Time → ℕ → Tables → List EvidenceItem → Type 0
  SavedOrLost server now incident_id t items =
      ((t' : Tables) × (rows : List EvidenceRow) × (save_evidence server now incident_id items
            (up t)
          ≡ (ok tt, up t'))
        × (t'.evidence_items ≡ t.evidence_items ++ rows)
        × Recorded incident_id items rows)
      ⊎ ((it : EvidenceItem) × In it items
          × (takes_item server it ≡ false)
          × (e : Error) × ((save_evidence server now incident_id items (up t)).0 ≡ err e)
          × ((save_evidence server now incident_id items (up t)).1.tables ≡ t))
