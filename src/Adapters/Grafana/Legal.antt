-- ===== src/Adapters/Grafana/Legal.antt =====
-- The store takes what the collector of snapshots hands over.
use valaf.Common.{ℕ, String, ◌≡◌, refl, true, Option, none, some, [], ◌∷◌}
use mathlib.Core.Path.{subst}
use valaf.Common.Effect.{Result, ok, err}
use valaf.Core.Alert.{Time}
use valaf.Core.Collect.{CollectTarget, EvidenceItem, Attachment}
use valaf.Store.Evidence.{is_storage_backend}
use valaf.Store.Evidence.Complete.{IsLegal}
use valaf.Adapters.Grafana.{
  RenderRequest, Api, new_snapshot, read_png, stored_item, store_png, render_panel, no_panel,
  request_of, render_url, collect_panel, collect_snapshot, storage_key,
}
use valaf.Adapters.Grafana.Panel.{PanelRef, resolve_panel}

abbrev Backed : Option Attachment → Type 0
Backed none = Unit
Backed (some a) = is_storage_backend a.storage_backend ≡ true

IsLegal-Backed :
    (it : EvidenceItem)
    → it.collector ≡ "grafana"
    → it.kind ≡ "dashboard"
    → Backed it.attachment
    → IsLegal it
IsLegal-Backed it c k b = (rw c (rw k refl), λ a e. subst Backed e b)

module _ {S D : Type 0} (api : Api S D) (base_url token : String) where
  stored_item-IsLegal :
      (u : String) (r : RenderRequest) (key : String) (png : D) (o : Result Unit × S)
      → is_storage_backend api.blobs.backend ≡ true
      → IsLegal (stored_item api base_url token (new_snapshot (api.request_json r u)) r key png o).0
  unfolding stored_item
  stored_item-IsLegal u r key png (err e, s) b =
      IsLegal-Backed
        (stored_item api base_url token (new_snapshot (api.request_json r u)) r key png
          (err e, s)).0
        refl refl tt
  stored_item-IsLegal u r key png (ok v, s) b =
      IsLegal-Backed
        (stored_item api base_url token (new_snapshot (api.request_json r u)) r key png (ok v, s)).0
        refl refl b

  store_png-IsLegal :
      (u : String) (r : RenderRequest) (incident_id : ℕ) (png : Result D) (s : S)
      → is_storage_backend api.blobs.backend ≡ true
      → IsLegal
          (store_png api base_url token (new_snapshot (api.request_json r u)) r incident_id png s).0
  unfolding store_png
  store_png-IsLegal u r incident_id (err e) s b =
      IsLegal-Backed
        (store_png api base_url token (new_snapshot (api.request_json r u)) r incident_id (err e)
          s).0
        refl refl tt
  store_png-IsLegal u r incident_id (ok png) s b =
      stored_item-IsLegal u r (storage_key incident_id r.panel) png
        (api.blobs.put_blob (storage_key incident_id r.panel) "image/png" png s) b

  -- A collection of snapshots hands over one item, which the store takes: a snapshot with the backend
  -- that holds it, a gap, or a failure.
  pub collect_snapshot-IsLegal :
      (timeout : Time) (target : CollectTarget) (s : S)
      → is_storage_backend api.blobs.backend ≡ true
      → (it : EvidenceItem) × ((collect_snapshot api base_url token timeout target s).0 ≡ it ∷ [])
        × IsLegal it
  unfolding collect_snapshot
  collect_snapshot-IsLegal timeout target s b = go (resolve_panel api.parse_url target.annotations)
    where
      go :
          (o : Option PanelRef)
          → (it : EvidenceItem) × ((collect_panel api base_url token timeout target o s).0
              ≡ it ∷ [])
            × IsLegal it
      go none = (
        no_panel api base_url token,
        unfold collect_panel in refl,
        IsLegal-Backed (no_panel api base_url token) refl refl tt,
      )
      go (some ref) = (
        (render_panel api base_url token timeout ref target s).0,
        unfold collect_panel in refl,
        unfold render_panel in
            (let r = request_of api base_url token ref target in
              let (answer, s1) = api.render timeout (render_url api base_url token r) token s in
              store_png-IsLegal (render_url api base_url token r) r target.incident_id
                (read_png api base_url token answer) s1 b),
      )
