-- ===== src/Web/Pages.antt =====
-- internal/web/views.go, export.go and attachments.go: the pages for a user, with the guards of
-- internal/web/server.go, and the probes of that file. Templates are not rendered: a page is the data
-- that its template gets. The writing of a response, which may break off, is not modelled.
use valaf.Common.{ℕ, String, Bool, Option, none, some, List, false, ◌==◌, if◌then◌else◌}
use valaf.Common.Text.{Text, codes}
use valaf.Common.Effect.{Error, Result, ok, err, message}
use valaf.Core.Alert.{Time}
use valaf.Store.Sql.{Conn}
use valaf.Store.Retrieval.{itoa}
use valaf.Store.Notebook.{
  list_incidents, load_notebook, notebook_not_found, attachment_not_found, StoredAttachment,
  get_attachment,
}
use valaf.Store.Notebook.Views.{IncidentSummary, Notebook, Json}
use valaf.Blob.{BlobStore}
use valaf.Blob.Disk.{Content}
use valaf.Export.{
  Format, json, markdown, docx, exporter_for, content_type, ext, filename, ExportDoc, build_doc,
}
use valaf.Export.Markdown.{render}
use valaf.Export.Docx.{parts}
use valaf.Web.Http.{AuthUser, Request}
use valaf.Web.Review.{can_edit}

-- what the three exporters write
pub data Document : Type 0 where
  json_document : ExportDoc → Document
  text_document : Text → Document
  archive : List (String × Text) → Document

pub data Served (F D : Type 0) : Type 0 where
  -- http.Error and http.NotFound: the status
  refused : ℕ → String → Served F D
  to_login : Served F D
  list_page : String → List IncidentSummary → Served F D
  -- the notebook, and whether the user may edit
  detail_page : Notebook F → Bool → Served F D
  -- the content type, the name and the document
  download : String → Text → Document → Served F D
  -- the content type and the blob
  blob_body : String → Content D → Served F D

-- errors.Is with one of the errors of the store that mean that there is no such row
is_not_found : Error → Error → Bool
is_not_found (message want) (message e) = want == e
is_not_found _ _ = false

guard_page :
    {F D W : Type 0}
    → (Request → W → Served F D × W)
    → Option AuthUser
    → Request
    → W
    → Served F D × W
guard_page next none r w = (to_login, w)
guard_page next (some u) r w = next r w

-- `requireUser`, for these pages
unfoldable pub for_user :
    {F D W : Type 0} → (Request → W → Served F D × W) → Request → W → Served F D × W
unfolding guard_page
for_user next r w = guard_page next r.user r w

-- the parameters are those of the reader of notebooks, of the exporters and of the store of blobs
module _ {F D S : Type 0} (matches_title : String → String → Bool) (decode : Json F)
    (is_valid_json : Text → Bool) (format_time : Time → String)
    (blobs : Option (BlobStore S D)) where
  list_served : String → Result (List IncidentSummary) × Conn → Served F D × Conn
  list_served query (err e, c) = (refused 500 "internal error", c)
  list_served query (ok incidents, c) = (list_page query incidents, c)

  unfoldable pub incident_list : String → Request → Conn → Served F D × Conn
  unfolding list_served list_incidents
  incident_list query r c = list_served query (list_incidents matches_title query c)

  -- the answer to an error of `LoadNotebook`
  abbrev pub refuse_notebook : String → Error → Served F D
  unfolding is_not_found
  refuse_notebook text e =
      if is_not_found notebook_not_found e then refused 404 text else refused 500 "internal error"

  detail_served : Request → Result (Notebook F) × Conn → Served F D × Conn
  unfolding can_edit
  detail_served r (err e, c) = (refuse_notebook "incident not found" e, c)
  detail_served r (ok nb, c) = (detail_page nb (can_edit r), c)

  unfoldable pub incident_detail : Request → Conn → Served F D × Conn
  unfolding detail_served load_notebook
  incident_detail r c = detail_served r (load_notebook decode r.path_id c)

  -- `Render` of each exporter
  unfoldable pub document_of : Format → Notebook F → Document
  unfolding build_doc render parts
  document_of json nb = json_document (build_doc is_valid_json nb)
  document_of markdown nb = text_document (render format_time nb)
  document_of docx nb = archive (parts format_time nb)

  export_served : Format → Result (Notebook F) × Conn → Served F D × Conn
  unfolding document_of filename itoa
  export_served f (err e, c) = (refuse_notebook "404 page not found" e, c)
  export_served f (ok nb, c) = (
    download (content_type f)
        (filename (codes nb.incident.title) (codes (itoa nb.incident.id)) (codes (ext f)))
        (document_of f nb),
    c,
  )

  export_as : Option Format → Request → Conn → Served F D × Conn
  unfolding export_served load_notebook
  export_as none r c = (refused 404 "unsupported export format", c)
  export_as (some f) r c = export_served f (load_notebook decode r.path_id c)

  unfoldable pub export_incident : Text → Request → Conn → Served F D × Conn
  unfolding export_as exporter_for
  export_incident name r c = export_as (exporter_for name) r c

  blob_served : StoredAttachment → Conn → Result (Content D) × S → Served F D × Conn × S
  blob_served a c (err e, s) = (refused 502 "attachment unavailable", c, s)
  blob_served a c (ok x, s) = (blob_body a.mime_type x, c, s)

  attachment_served : BlobStore S D → Result StoredAttachment × Conn → S → Served F D × Conn × S
  unfolding blob_served is_not_found
  attachment_served store (err e, c) s = (
    if is_not_found attachment_not_found e
        then refused 404 "404 page not found"
        else refused 500 "internal error",
    c,
    s,
  )
  attachment_served store (ok a, c) s = blob_served a c (store.open_blob a.storage_key s)

  open_attachment : Option (BlobStore S D) → Request → Conn → S → Served F D × Conn × S
  unfolding attachment_served get_attachment
  open_attachment none r c s = (refused 501 "attachments not available", c, s)
  open_attachment (some store) r c s = attachment_served store (get_attachment r.path_id c) s

  unfoldable pub attachment : Request → Conn → S → Served F D × Conn × S
  unfolding open_attachment
  attachment = open_attachment blobs

  -- the four GET routes of `Handler` for users
  unfoldable pub list_route : String → Request → Conn → Served F D × Conn
  unfolding for_user incident_list
  list_route query = for_user (incident_list query)

  unfoldable pub detail_route : Request → Conn → Served F D × Conn
  unfolding for_user incident_detail
  detail_route = for_user incident_detail

  unfoldable pub export_route : Text → Request → Conn → Served F D × Conn
  unfolding for_user export_incident
  export_route name = for_user (export_incident name)

  unfoldable pub attachment_route : Request → Conn × S → Served F D × (Conn × S)
  unfolding for_user attachment
  attachment_route =
      for_user {F = F} {D = D} {W = Conn × S}
        (λ r w. let (page, c, s) = attachment r w.0 w.1 in (page, (c, s)))

-- `healthz` and `readyz`, over what the ping of the pool gives
abbrev pub healthz : ℕ × String
healthz = (200, "ok")

unfoldable pub readyz : Result Unit → ℕ × String
readyz (err e) = (503, "database unavailable")
readyz (ok _) = (200, "ready")
