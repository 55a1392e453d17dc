-- ===== src/Adapters/Grafana/Panel.antt =====
-- `resolvePanel` of internal/adapters/grafana/grafana.go: the panel that an alert refers to. net/url
-- is a parameter.
use Prim.Native.Char.{code}
use Prim.Native.String.{◌++◌}
use valaf.Common.{
  String, ◌&&◌, ◌||◌, not, Option, none, some, List, [], ◌∷◌, eqb, ◌==◌, if◌then◌else◌,
}
use valaf.Common.Text.{codes, has_prefix}
use valaf.Common.Maps.{Map, get, find}

-- url.Values: what each key has, in its order
abbrev pub Values : Type 0
Values = Map (List String)

pub record PanelRef : Type 0 where
  pub dashboard_uid : String
  pub panel_id : String
  pub org_id : String
  pub vars : Values

pub record ParsedUrl : Type 0 where
  pub path : String
  pub query : Values

unfoldable pub first_non_empty : Map String → List String → String
unfolding get
first_non_empty m [] = ""
first_non_empty m (k ∷ rest) =
    let others = first_non_empty m rest in if get m k == "" then others else get m k

-- `Values.Get`
unfoldable pub get_value : Values → String → String
unfolding find
get_value q k = elim (find q k) [ none ↦ "" | some vs ↦ head_of vs ]
  where
    head_of : List String → String
    head_of [] = ""
    head_of (v ∷ rest) = v

trim_left_slash : String → String
trim_left_slash String.[] = ""
trim_left_slash (String.◌∷◌ c t) =
    let rest = trim_left_slash t in if eqb (code c) b'/' then rest else String.◌∷◌ c t

trim_right_slash : String → String
trim_right_slash String.[] = ""
trim_right_slash (String.◌∷◌ c t) =
    let rest = trim_right_slash t in
    if eqb (code c) b'/' && (rest == "") then "" else String.◌∷◌ c rest

-- strings.Split at the slashes; `word` is what was read of the present part
split_path : String → String → List String
split_path word String.[] = word ∷ []
split_path word (String.◌∷◌ c t) =
    let rest = split_path "" t in
    let more = split_path (word ++ String.◌∷◌ c "") t in
    if eqb (code c) b'/' then word ∷ rest else more

-- the loop over the parts: what follows the first "d" that something follows
after_d : List String → String
after_d [] = ""
after_d (p ∷ []) = ""
after_d (p ∷ q ∷ rest) = let later = after_d (q ∷ rest) in if p == "d" then q else later

-- strings.TrimPrefix
strip_prefix : String → String → String → String
strip_prefix whole String.[] t = t
strip_prefix whole (String.◌∷◌ c p) String.[] = whole
strip_prefix whole (String.◌∷◌ c p) (String.◌∷◌ d t) =
    let rest = strip_prefix whole p t in if eqb (code c) (code d) then rest else whole

-- the variables of the dashboard
unfoldable pub vars_of : Values → Values
unfolding has_prefix
vars_of [] = []
vars_of ((k, vs) ∷ rest) =
    let others = vars_of rest in
    if has_prefix (codes k) (codes "var-") then (k, vs) ∷ others else others

panel_param : Values → String
unfolding get_value
panel_param q =
    if get_value q "viewPanel" == "" then get_value q "panelId" else get_value q "viewPanel"

ref_if : String → String → Values → Option PanelRef
unfolding get_value vars_of
ref_if uid pid q =
    if (uid == "") || (pid == "")
    then none
    else some (record {
      dashboard_uid = uid;
      panel_id = pid;
      org_id = get_value q "orgId";
      vars = vars_of q;
    })

module _ (parse_url : String → Option ParsedUrl) where
  panel_of : Option ParsedUrl → Option PanelRef
  unfolding ref_if panel_param after_d split_path trim_left_slash trim_right_slash strip_prefix
  panel_of none = none
  panel_of (some u) =
      ref_if (after_d (split_path "" (trim_right_slash (trim_left_slash u.path))))
        (strip_prefix (panel_param u.query) "panel-" (panel_param u.query)) u.query

  unfoldable pub parse_panel_url : String → Option PanelRef
  unfolding panel_of
  parse_panel_url raw = panel_of (parse_url raw)

  unfoldable pub resolve_panel : Map String → Option PanelRef
  unfolding first_non_empty parse_panel_url
  resolve_panel a =
      let uid =
        first_non_empty a
          ("__dashboardUid__" ∷ "dashboard_uid" ∷ "grafana_dashboard_uid" ∷ "dashboardUID" ∷ []) in
      let pid =
        first_non_empty a ("__panelId__" ∷ "panel_id" ∷ "grafana_panel_id" ∷ "panelId" ∷ []) in
      let raw =
        first_non_empty a ("grafana_panel_url" ∷ "dashboardURL" ∷ "__dashboard_url__" ∷ []) in
      if not (uid == "") && not (pid == "")
      then some (record {
        dashboard_uid = uid;
        panel_id = pid;
        org_id = first_non_empty a ("__orgId__" ∷ "org_id" ∷ []);
        vars = [];
      })
      else if raw == ""
      then none
      else parse_panel_url raw
