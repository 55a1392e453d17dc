-- ===== src/Export/Docx.antt =====
-- internal/export/docx.go: the parts of a document. archive/zip, which packs them, is not modelled.
use valaf.Common.{
  ℕ, String, not, ◌&&◌, Option, none, some, List, [], ◌∷◌, ◌++◌, map, eqb, leb, ◌-◌, ◌==◌,
  if◌then◌else◌,
}
use valaf.Common.Text.{Text, codes, trim_space}
use valaf.Core.Alert.{Time}
use valaf.Core.Analyze.{TimelineEntry}
use valaf.Store.Retrieval.{itoa}
use valaf.Store.Notebook.Views.{
  IncidentDetail, AnalysisView, ObservationView, HypothesisView, EvidenceView, ResolutionView,
  Notebook,
}
use valaf.Export.Words.{concat, line_if, status_word, comma_list, refs_suffix, invalid_suffix}

abbrev pub content_types_xml : String
content_types_xml =
    "<?xml version=\"1.0\" encoding=\"UTF-8\" standalone=\"yes\"?>\n<Types xmlns=\"http://schemas.openxmlformats.org/package/2006/content-types\">\n<Default Extension=\"rels\" ContentType=\"application/vnd.openxmlformats-package.relationships+xml\"/>\n<Default Extension=\"xml\" ContentType=\"application/xml\"/>\n<Override PartName=\"/word/document.xml\" ContentType=\"application/vnd.openxmlformats-officedocument.wordprocessingml.document.main+xml\"/>\n</Types>"

abbrev pub rels_xml : String
rels_xml =
    "<?xml version=\"1.0\" encoding=\"UTF-8\" standalone=\"yes\"?>\n<Relationships xmlns=\"http://schemas.openxmlformats.org/package/2006/relationships\">\n<Relationship Id=\"rId1\" Type=\"http://schemas.openxmlformats.org/officeDocument/2006/relationships/officeDocument\" Target=\"word/document.xml\"/>\n</Relationships>"

-- what the replacer makes of a character
unfoldable pub escape_char : ℕ → Text
escape_char c =
    if eqb c b'&'
    then codes "&amp;"
    else if eqb c b'<'
    then codes "&lt;"
    else if eqb c b'>'
    then codes "&gt;"
    else if eqb c b'"'
    then codes "&quot;"
    else if eqb c b'\''
    then codes "&apos;"
    else c ∷ []

unfoldable pub escape_xml : Text → Text
unfolding escape_char
escape_xml [] = []
escape_xml (c ∷ t) = escape_char c ++ escape_xml t

abbrev pub size_of : ℕ → String
size_of level = if eqb level 1 then "36" else if eqb level 2 then "28" else "24"

unfoldable pub heading : ℕ → Text → Text
unfolding escape_xml
heading level text =
    codes
      "<w:p><w:pPr><w:spacing w:before=\"180\" w:after=\"60\"/></w:pPr><w:r><w:rPr><w:b/><w:sz w:val=\""
    ++ (codes (size_of level)
        ++ (codes "\"/></w:rPr><w:t xml:space=\"preserve\">"
            ++ (escape_xml text ++ codes "</w:t></w:r></w:p>")))

unfoldable pub para : Text → Text
unfolding escape_xml
para text =
    codes "<w:p><w:r><w:t xml:space=\"preserve\">"
    ++ (escape_xml text ++ codes "</w:t></w:r></w:p>")

-- a paragraph of a text, unless that is empty
abbrev pub para_if : String → String → Text
unfolding para
para_if before s = if s == "" then [] else para (codes before ++ codes s)

abbrev pub refs_para : String → List String → Text
unfolding para comma_list
refs_para before [] = []
refs_para before (r ∷ refs) = para (codes before ++ comma_list (r ∷ refs))

abbrev pub timeline_para : TimelineEntry → Text
unfolding para
timeline_para t = para (codes "• " ++ (codes t.at ++ (codes "  " ++ codes t.text)))

analysis_status : AnalysisView → Text
unfolding para concat
analysis_status a =
    if a.status == "ok"
    then para_if "" a.summary ++ concat (map timeline_para a.timeline)
    else if a.status == "failed"
    then para (codes "Analysis failed — the notebook still holds all collected evidence.")
    else para (codes "No AI provider configured — published with evidence only.")

analysis_part : Option AnalysisView → Text
unfolding heading para concat analysis_status
analysis_part none = []
analysis_part (some a) =
    heading 2 (codes "AI analysis")
    ++ (analysis_status a ++ concat (map (λ g. para (codes "Gap: " ++ codes g)) a.gaps))

observations_part : List ObservationView → Text
unfolding heading para concat refs_suffix
observations_part [] = []
observations_part (o ∷ os) =
    heading 2 (codes "Observations")
    ++ concat (map (λ v. para (codes "• " ++ (codes v.body ++ refs_suffix v.cite_refs))) (o ∷ os))

-- strings.ToUpper for ASCII, which the verdicts are
abbrev pub upper : Text → Text
upper t = map (λ c. if leb b'a' c && leb c b'z' then c - 32 else c) t

abbrev pub verdict_suffix : String → Text
verdict_suffix v = if not (v == "none") && not (v == "") then codes " — " ++ upper (codes v) else []

hypothesis_part : HypothesisView → Text
unfolding heading para concat itoa
hypothesis_part h =
    heading 3 (codes (itoa h.rank) ++ (codes ". " ++ (codes h.title ++ verdict_suffix h.verdict)))
    ++ (para_if "" h.rationale
        ++ (refs_para "Supporting: " h.supporting_refs
            ++ (refs_para "Contradicting: " h.contradicting_refs
                ++ (concat (map (λ c. para (codes "Check: " ++ codes c)) h.checks)
                    ++ para_if "Note: " h.verdict_note))))

hypotheses_part : List HypothesisView → Text
unfolding heading concat hypothesis_part
hypotheses_part [] = []
hypotheses_part (h ∷ hs) =
    heading 2 (codes "Ranked hypotheses") ++ concat (map hypothesis_part (h ∷ hs))

abbrev pub trimmed_para : String → Text → Text
unfolding para
trimmed_para before [] = []
trimmed_para before (c ∷ t) = para (codes before ++ c ∷ t)

evidence_part : {F : Type 0} → EvidenceView F → Text
unfolding heading para invalid_suffix trim_space
evidence_part e =
    heading 3 (
      codes e.ref
      ++ (codes " — "
          ++ (codes e.collector
              ++ (codes " / "
                  ++ (codes e.kind
                      ++ (codes " (" ++ (codes e.status ++ (codes ")" ++ invalid_suffix e))))))))
    ++ (para_if "" e.error
        ++ (para (codes "Request: " ++ trim_space (codes e.request))
            ++ trimmed_para "Result: " (trim_space (codes e.result))))

-- `format` is Time.Format with the layout of the code
module _ (format : Time → String) where
  resolution_part : Option ResolutionView → Text
  unfolding heading para
  resolution_part none = []
  resolution_part (some r) =
      heading 2 (codes "Resolution")
      ++ (para (codes "Root cause: " ++ codes r.root_cause)
          ++ (para_if "Actions taken: " r.actions_taken
              ++ (para_if "Solution / prevention: " r.ultimate_solution
                  ++ (para_if "Notes: " r.notes
                      ++ (if r.resolved_by == ""
                          then []
                          else para (
                              codes "Resolved by "
                              ++ (codes r.resolved_by
                                  ++ (codes " · " ++ codes (format r.resolved_at)))))))))

  incident_part : IncidentDetail → Text
  unfolding heading para
  incident_part inc =
      heading 1 (codes inc.title)
      ++ (para (
            codes "Severity: "
            ++ (codes inc.severity
                ++ (codes "   Status: "
                    ++ (codes (status_word inc.status)
                        ++ line_if "   Triage: " inc.triage_verdict ""))))
          ++ para (codes "Opened: " ++ codes (format inc.opened_at)))

  unfoldable pub document_xml : {F : Type 0} → Notebook F → Text
  unfolding incident_part analysis_part observations_part hypotheses_part resolution_part
      evidence_part heading concat
  document_xml nb =
      codes "<?xml version=\"1.0\" encoding=\"UTF-8\" standalone=\"yes\"?>"
      ++ (codes
            "<w:document xmlns:w=\"http://schemas.openxmlformats.org/wordprocessingml/2006/main\"><w:body>"
          ++ (incident_part nb.incident
              ++ (analysis_part nb.analysis
                  ++ (observations_part nb.observations
                      ++ (hypotheses_part nb.hypotheses
                          ++ (resolution_part nb.resolution
                              ++ (heading 2 (codes "Evidence")
                                  ++ (concat (map evidence_part nb.evidence)
                                      ++ codes "<w:sectPr/></w:body></w:document>"))))))))

  -- the files of `Render`
  unfoldable pub parts : {F : Type 0} → Notebook F → List (String × Text)
  unfolding document_xml
  parts nb =
      ("[Content_Types].xml", codes content_types_xml)
      ∷ ("_rels/.rels", codes rels_xml)
      ∷ ("word/document.xml", document_xml nb)
      ∷ []
