-- ===== src/Core/Severity.antt =====
-- internal/core/severity.go
use valaf.Common.{ℕ, String, Bool, true, false, [], ◌∷◌, leb, if◌then◌else◌}
use valaf.Common.Text.{Text, codes, trim_space, to_lower, one_of}

-- the constants count up from `sev_unknown`
abbrev pub Severity : Type 0
Severity = ℕ

abbrev pub sev_unknown : Severity
sev_unknown = 0

abbrev pub sev_info : Severity
sev_info = 1

abbrev pub sev_warning : Severity
sev_warning = 2

abbrev pub sev_high : Severity
sev_high = 3

abbrev pub sev_critical : Severity
sev_critical = 4

-- the `switch` of `ParseSeverity`
unfoldable pub severity_of_word : Text → Severity
unfolding one_of
severity_of_word w =
    if one_of w ("critical" ∷ "crit" ∷ "fatal" ∷ "emergency" ∷ "page" ∷ "p1" ∷ [])
    then sev_critical
    else if one_of w ("high" ∷ "error" ∷ "err" ∷ "major" ∷ "p2" ∷ [])
    then sev_high
    else if one_of w ("warning" ∷ "warn" ∷ "minor" ∷ "p3" ∷ [])
    then sev_warning
    else if one_of w ("info" ∷ "information" ∷ "informational" ∷ "low" ∷ "none" ∷ "p4" ∷ "p5" ∷ [])
    then sev_info
    else sev_unknown

unfoldable pub parse_severity : String → Severity
unfolding severity_of_word to_lower trim_space
parse_severity raw = severity_of_word (to_lower (trim_space (codes raw)))

-- `s.AtLeast(t)`
abbrev pub at_least : Severity → Severity → Bool
at_least s t = leb t s

-- the level of the `incidents.severity` enum, and whether the severity is worth a notebook
unfoldable pub incident_level : Severity → String × Bool
incident_level s =
    if at_least s sev_critical
    then ("critical", true)
    else if at_least s sev_high
    then ("high", true)
    else ("", false)
