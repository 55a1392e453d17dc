-- ===== src/Web/Http.antt =====
-- What the handlers of internal/web read of a request, and the responses that they write. Logging
-- and the rendering of templates are not modelled: a page is named by its template.
use valaf.Common.{ℕ, String, Bool, Option}
use valaf.Common.Maps.{Map}
use valaf.Core.Intake.{IngestOutcome}
use valaf.Store.Sql.{Conn}

-- the authenticated principal; a proxy user has no CSRF token
pub record AuthUser : Type 0 where
  pub id : ℕ
  pub username : String
  pub role : String
  pub csrf : String
  pub via_proxy : Bool

-- `user` is what `withUser` attached to the context. The identifier of a path is read as a row's.
pub record Request : Type 0 where
  pub user : Option AuthUser
  pub headers : Map String
  pub cookies : Map String
  pub form : Map String
  pub path_id : ℕ
  pub source : String
  pub body : Option String  -- none where it could not be read

pub data Response : Type 0 where
  -- http.Error and the JSON errors: status and text
  refusal : ℕ → String → Response
  -- http.Redirect with 303, or HX-Redirect with 204
  redirect : String → Response
  -- 200 and a template
  page : String → Response
  -- 200: the batch was dropped for a reason
  dropped_batch : String → Response
  -- 202: the outcome of the intake
  accepted : IngestOutcome → Response
  -- 303 to "/" with a session cookie
  logged_in : String → Response
  -- 303 to "/login" with the cookie cleared
  logged_out : Response

abbrev pub Handler : Type 0
Handler = Request → Conn → Response × Conn
