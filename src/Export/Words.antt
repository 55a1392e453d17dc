-- ===== src/Export/Words.antt =====
-- What the Markdown and the docx exporter share: pieces of text under a condition, and the suffixes of
-- internal/export/markdown.go.
use valaf.Common.{String, List, [], ◌∷◌, ◌++◌, map, ◌==◌, if◌then◌else◌}
use valaf.Common.Text.{Text, codes, join}
use valaf.Store.Tables.{
  IncidentStatus, opened, analyzing, published, resolved, false_positive, deleted,
}
use valaf.Store.Notebook.Views.{EvidenceView}

-- one text after the other
unfoldable pub concat : List Text → Text
unfolding join
concat ts = join [] ts

-- the verb %s of a text that is written if it is not empty, between two others
abbrev pub line_if : String → String → String → Text
line_if before s after = if s == "" then [] else codes before ++ (codes s ++ codes after)

-- the enum as text
abbrev pub status_word : IncidentStatus → String
status_word opened = "open"
status_word analyzing = "analyzing"
status_word published = "published"
status_word resolved = "resolved"
status_word false_positive = "false_positive"
status_word deleted = "deleted"

-- strings.Join with a comma
unfoldable pub comma_list : List String → Text
unfolding join
comma_list refs = join (codes ", ") (map codes refs)

abbrev pub list_if : String → List String → String → Text
list_if before [] after = []
list_if before (r ∷ refs) after = codes before ++ (comma_list (r ∷ refs) ++ codes after)

unfoldable pub refs_suffix : List String → Text
unfolding comma_list
refs_suffix refs = list_if " [" refs "]"

unfoldable pub invalid_suffix : {F : Type 0} → EvidenceView F → Text
invalid_suffix e =
    if e.is_valid then [] else codes " — FLAGGED INVALID: " ++ codes e.invalid_comment
