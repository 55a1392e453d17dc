-- ===== src/Web/Review.antt =====
-- internal/web/review.go, with the role that internal/web/server.go asks of its routes.
use valaf.Common.{ℕ, String, Bool, false, ◌||◌, not, Option, none, some, ◌==◌, if◌then◌else◌}
use valaf.Common.Maps.{get}
use valaf.Common.Effect.{Result, ok, err}
use valaf.Core.Alert.{Time}
use valaf.Store.Sql.{Conn, Sql}
use valaf.Store.Review.{ResolutionInput, set_hypothesis_verdict, flag_evidence, save_resolution}
use valaf.Web.Http.{AuthUser, Request, Response, refusal, redirect, page, Handler}
use valaf.Web.Auth.{role_at_least, require_role, check_csrf}

-- `currentUser(r).ID`: the routes put `requireRole` before these handlers, so there is a user
abbrev pub user_id : Option AuthUser → ℕ
user_id none = 0
user_id (some u) = u.id

unfoldable pub can_edit : Request → Bool
unfolding role_at_least
can_edit r = elim r.user [ none ↦ false | some u ↦ role_at_least u.role "engineer" ]

abbrev pub is_review_verdict : String → Bool
is_review_verdict v = (v == "confirmed") || ((v == "rejected") || (v == "none"))

-- `load_notebook` reads the notebook again for the card to be rendered: it is the reader of
-- internal/store/notebook.go, of which only success or failure counts here.
module _ (load_notebook : ℕ → Sql Unit) where
  abbrev fragment_of : String → Result Unit × Conn → Response × Conn
  fragment_of name (err e, c) = (refusal 500 "internal error", c)
  fragment_of name (ok _, c) = (page name, c)

  abbrev render_fragment : String → Result ℕ × Conn → Response × Conn
  render_fragment name (err e, c) = (refusal 500 "internal error", c)
  render_fragment name (ok incident_id, c) = fragment_of name (load_notebook incident_id c)

  unfoldable pub hypothesis_verdict : Time → Handler
  unfolding check_csrf get
  hypothesis_verdict now r c =
      if not (check_csrf r)
      then (refusal 403 "invalid CSRF token", c)
      else if not (is_review_verdict (get r.form "verdict"))
      then (refusal 400 "invalid verdict", c)
      else render_fragment "hypotheses_card" (
          set_hypothesis_verdict now r.path_id (get r.form "verdict") (get r.form "note")
            (user_id r.user) c)

  unfoldable pub flag_evidence_handler : Time → Handler
  unfolding check_csrf get
  flag_evidence_handler now r c =
      if not (check_csrf r)
      then (refusal 403 "invalid CSRF token", c)
      else if get r.form "comment" == ""
      then (refusal 400 "a comment is required to flag evidence", c)
      else render_fragment "evidence_card"
          (flag_evidence now r.path_id (get r.form "comment") (user_id r.user) c)

  abbrev pub resolution_input : Request → ResolutionInput
  resolution_input r = record {
    root_cause = get r.form "root_cause";
    actions_taken = get r.form "actions_taken";
    ultimate_solution = get r.form "ultimate_solution";
    notes = get r.form "notes";
  }

  abbrev redirect_after : Result Unit × Conn → Response × Conn
  redirect_after (err e, c) = (refusal 500 "internal error", c)
  redirect_after (ok _, c) = (redirect "/incidents/", c)

  unfoldable pub save_resolution_handler : Time → Handler
  unfolding check_csrf get
  save_resolution_handler now r c =
      if not (check_csrf r)
      then (refusal 403 "invalid CSRF token", c)
      else if get r.form "root_cause" == ""
      then (refusal 400 "root cause is required", c)
      else redirect_after (save_resolution now r.path_id (resolution_input r) (user_id r.user) c)

  -- the three POST routes of `Handler`
  unfoldable pub verdict_route : Time → Handler
  unfolding require_role hypothesis_verdict
  verdict_route now = require_role "engineer" (hypothesis_verdict now)

  unfoldable pub flag_route : Time → Handler
  unfolding require_role flag_evidence_handler
  flag_route now = require_role "engineer" (flag_evidence_handler now)

  unfoldable pub resolution_route : Time → Handler
  unfolding require_role save_resolution_handler
  resolution_route now = require_role "engineer" (save_resolution_handler now)
