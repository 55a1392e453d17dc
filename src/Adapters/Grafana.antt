-- ===== src/Adapters/Grafana.antt =====
-- internal/adapters/grafana/grafana.go: a collector of snapshots of dashboards. net/http, net/url,
-- encoding/json and SHA-256 are parameters, and so is the store of blobs, over the interface of
-- internal/blob/blob.go.
pub mod Panel
pub mod Legal
use Prim.Native.String.{◌++◌}
use valaf.Common.{ℕ, String, Bool, not, Option, none, some, List, [], ◌∷◌, eqb, ◌==◌, if◌then◌else◌}
use valaf.Common.Text.{codes, has_prefix}
use valaf.Common.Effect.{Error, Result, ok, err, message, Eff}
use valaf.Core.Alert.{RawMessage, Time}
use valaf.Core.Collect.{captured, gap, failed, CollectTarget, EvidenceItem, Attachment, Collector}
use valaf.Store.Retrieval.{itoa}
use valaf.Blob.{BlobStore}
use valaf.Common.Maps.{find, put}
use valaf.Adapters.Grafana.Panel.{PanelRef, ParsedUrl, Values, resolve_panel}

-- the parameters of the two URLs and of the request record
pub record RenderRequest : Type 0 where
  pub panel : PanelRef
  pub from_ms : String
  pub to_ms : String

-- what a render comes back with: the status code, the content type and the body
pub data RenderAnswer (D : Type 0) : Type 0 where
  unanswered : String → RenderAnswer D
  rendered : ℕ → String → D → RenderAnswer D

pub record Api (S D : Type 0) : Type 0 where
  pub render : Time → String → String → S → RenderAnswer D × S
  pub parse_url : String → Option ParsedUrl
  pub unix_ms : Time → String
  pub path_escape : String → String
  pub encode : Values → String
  pub request_json : RenderRequest → String → RawMessage
  pub result_json : RenderRequest → String → RawMessage
  pub note_json : String → RawMessage
  -- a body as text, and `b[:n]` of a body with more than `n` bytes
  pub text_of : D → String
  pub first_bytes : D → ℕ → Option String
  pub quote : String → String  -- %q
  pub error_text : Error → String
  pub size : D → ℕ
  pub digest : D → String
  pub blobs : BlobStore S D

abbrev pub render_timeout : Time
render_timeout = 60

abbrev pub new_snapshot : RawMessage → EvidenceItem
new_snapshot request = record {
  collector = "grafana";
  kind = "dashboard";
  request = request;
  result = "";
  status = captured;
  error = "";
  attachment = none;
}

abbrev pub fail : EvidenceItem → String → EvidenceItem
fail item msg = record item { status = failed; error = msg }

unfoldable pub storage_key : ℕ → PanelRef → String
unfolding itoa
storage_key incident_id ref =
    "snapshots/"
    ++ (itoa incident_id ++ ("/" ++ (ref.dashboard_uid ++ ("-" ++ (ref.panel_id ++ ".png")))))

abbrev push_back : List String → String → List String
push_back [] v = v ∷ []
push_back (w ∷ rest) v = w ∷ push_back rest v

-- `Values.Add`
unfoldable pub add : Values → String → String → Values
unfolding find put
add q k v = put q k (elim (find q k) [ none ↦ v ∷ [] | some vs ↦ push_back vs v ])

add_values : Values → String → List String → Values
unfolding add
add_values q k [] = q
add_values q k (v ∷ rest) = add_values (add q k v) k rest

unfoldable pub add_vars : Values → Values → Values
unfolding add_values
add_vars q [] = q
add_vars q ((k, vs) ∷ rest) = add_vars (add_values q k vs) rest

-- the two queries; a render has the size of the image and the organisation beside the panel
render_query : RenderRequest → Values
unfolding add_vars put
render_query r =
    let q : Values =
      ("panelId", r.panel.panel_id ∷ [])
      ∷ ("from", r.from_ms ∷ [])
      ∷ ("to", r.to_ms ∷ [])
      ∷ ("width", "1000" ∷ [])
      ∷ ("height", "500" ∷ [])
      ∷ ("tz", "UTC" ∷ [])
      ∷ [] in
    add_vars (if r.panel.org_id == "" then q else put q "orgId" (r.panel.org_id ∷ [])) r.panel.vars

view_query : RenderRequest → Values
unfolding add_vars
view_query r =
    add_vars
      (("viewPanel", r.panel.panel_id ∷ []) ∷ ("from", r.from_ms ∷ []) ∷ ("to", r.to_ms ∷ []) ∷ [])
      r.panel.vars

-- `base_url` is without slashes at its end
module _ {S D : Type 0} (api : Api S D) (base_url : String) (token : String) where
  unfoldable pub request_of : PanelRef → CollectTarget → RenderRequest
  request_of ref target = record {
    panel = ref;
    from_ms = api.unix_ms target.window.start;
    to_ms = api.unix_ms target.window.end;
  }

  unfoldable pub render_url : RenderRequest → String
  unfolding render_query
  render_url r =
      base_url
      ++ ("/render/d-solo/"
          ++ (api.path_escape r.panel.dashboard_uid ++ ("/_?" ++ api.encode (render_query r))))

  unfoldable pub view_url : RenderRequest → String
  unfolding view_query
  view_url r =
      base_url
      ++ ("/d/" ++ (api.path_escape r.panel.dashboard_uid ++ ("?" ++ api.encode (view_query r))))

  -- the cut can split a character
  abbrev pub truncate : D → ℕ → String
  truncate b n = elim (api.first_bytes b n) [ none ↦ api.text_of b | some s ↦ s ++ "…" ]

  -- `fetchPNG` after the call
  unfoldable pub read_png : RenderAnswer D → Result D
  unfolding has_prefix itoa
  read_png (unanswered msg) = err (message msg)
  read_png (rendered code content_type body) =
      if not (eqb code 200)
      then err (message ("grafana render http " ++ (itoa code ++ (": " ++ truncate body 200))))
      else if has_prefix (codes content_type) (codes "image/")
      then ok body
      else err (
          message (
            "grafana render returned "
            ++ (api.quote content_type ++ ", not an image (is the image-renderer installed?)")))

  abbrev pub attachment_of : String → D → Attachment
  attachment_of key png = record {
    storage_backend = api.blobs.backend;
    storage_key = key;
    mime_type = "image/png";
    size_bytes = api.size png;
    checksum = api.digest png;
  }

  -- after `c.blob.Put`
  unfoldable pub stored_item :
      EvidenceItem → RenderRequest → String → D → Result Unit × S → EvidenceItem × S
  unfolding view_url
  stored_item item r key png (err e, s) = (fail item ("store snapshot: " ++ api.error_text e), s)
  stored_item item r key png (ok u, s) = (
    record item {
      status = captured;
      result = api.result_json r (view_url r);
      attachment = some (attachment_of key png);
    },
    s,
  )

  unfoldable pub store_png : EvidenceItem → RenderRequest → ℕ → Result D → S → EvidenceItem × S
  unfolding stored_item storage_key
  store_png item r incident_id (err e) s = (fail item (api.error_text e), s)
  store_png item r incident_id (ok png) s =
      let key = storage_key incident_id r.panel in
      stored_item item r key png (api.blobs.put_blob key "image/png" png s)

  unfoldable pub render_panel : Time → PanelRef → CollectTarget → S → EvidenceItem × S
  unfolding store_png read_png request_of render_url
  render_panel timeout ref target s =
      let r = request_of ref target in
      let (answer, s1) = api.render timeout (render_url r) token s in
      store_png (new_snapshot (api.request_json r (render_url r))) r target.incident_id
        (read_png answer) s1

  abbrev pub no_panel : EvidenceItem
  no_panel =
      record (new_snapshot
        (api.note_json "looked for __dashboardUid__/__panelId__ or grafana_panel_url")) {
          status = gap;
          error = "no Grafana panel reference found in alert labels/annotations";
        }

  unfoldable pub collect_panel : Time → CollectTarget → Option PanelRef → S → List EvidenceItem × S
  unfolding render_panel
  collect_panel timeout target none s = (no_panel ∷ [], s)
  collect_panel timeout target (some ref) s =
      let (item, s1) = render_panel timeout ref target s in (item ∷ [], s1)

  unfoldable pub collect_snapshot : Time → CollectTarget → S → List EvidenceItem × S
  unfolding collect_panel resolve_panel
  collect_snapshot timeout target s =
      collect_panel timeout target (resolve_panel api.parse_url target.annotations) s

  unfoldable pub collector : Collector S
  unfolding collect_snapshot
  collector = record {
    kind = "grafana";
    timeout_hint = some render_timeout;
    collect = collect_snapshot;
  }
