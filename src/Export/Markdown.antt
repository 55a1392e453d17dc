-- ===== src/Export/Markdown.antt =====
-- internal/export/markdown.go: the document that the Markdown exporter writes. The entities stand in the
-- order of the bag's list, where Go's iteration has none.
use valaf.Common.{
  String, not, ◌&&◌, Option, none, some, List, [], ◌∷◌, ◌++◌, map, ◌==◌, if◌then◌else◌,
}
use valaf.Common.Text.{Text, codes, join, trim_space}
use valaf.Common.Maps.{Map}
use valaf.Core.Alert.{Time}
use valaf.Core.Analyze.{TimelineEntry}
use valaf.Store.Retrieval.{itoa}
use valaf.Store.Notebook.Views.{
  IncidentDetail, AnalysisView, ObservationView, HypothesisView, EvidenceView, ResolutionView,
  Notebook,
}
use valaf.Export.Words.{concat, line_if, list_if, status_word, refs_suffix, invalid_suffix}

abbrev pub entity_text : String × String → Text
entity_text (k, v) = codes k ++ (codes "=`" ++ (codes v ++ codes "`"))

-- the loop over the bag
entities_line : Map String → Text
unfolding join
entities_line [] = []
entities_line (e ∷ es) =
    codes "**Entities:** " ++ (join (codes ", ") (map entity_text (e ∷ es)) ++ codes "\n")

abbrev pub timeline_line : TimelineEntry → Text
timeline_line t = codes "- `" ++ (codes t.at ++ (codes "` " ++ (codes t.text ++ codes "\n")))

timeline_part : List TimelineEntry → Text
unfolding concat
timeline_part [] = []
timeline_part (t ∷ ts) =
    codes "**Timeline**\n\n" ++ (concat (map timeline_line (t ∷ ts)) ++ codes "\n")

analysis_status : AnalysisView → Text
unfolding timeline_part
analysis_status a =
    if a.status == "ok"
    then line_if "" a.summary "\n\n" ++ timeline_part a.timeline
    else if a.status == "failed"
    then codes "_Analysis failed — the notebook still holds all collected evidence._\n\n"
    else codes "_No AI provider configured — published with evidence only._\n\n"

gaps_part : List String → Text
unfolding concat
gaps_part [] = []
gaps_part (g ∷ gs) =
    codes "**Evidence gaps**\n\n"
    ++ (concat (map (λ v. codes "- " ++ (codes v ++ codes "\n")) (g ∷ gs)) ++ codes "\n")

analysis_part : Option AnalysisView → Text
unfolding analysis_status gaps_part
analysis_part none = []
analysis_part (some a) = codes "## AI analysis\n\n" ++ (analysis_status a ++ gaps_part a.gaps)

observations_part : List ObservationView → Text
unfolding concat refs_suffix
observations_part [] = []
observations_part (o ∷ os) =
    codes "## Observations\n\n"
    ++ (concat (
          map (λ v. codes "- " ++ (codes v.body ++ (refs_suffix v.cite_refs ++ codes "\n")))
            (o ∷ os))
        ++ codes "\n")

abbrev pub verdict_suffix : String → Text
verdict_suffix v =
    if not (v == "none") && not (v == "") then codes " — **" ++ (codes v ++ codes "**") else []

hypothesis_part : HypothesisView → Text
unfolding itoa concat
hypothesis_part h =
    codes "### "
    ++ (codes (itoa h.rank)
        ++ (codes ". "
            ++ (codes h.title
                ++ (verdict_suffix h.verdict
                    ++ (codes "\n\n"
                        ++ (line_if "" h.rationale "\n\n"
                            ++ (list_if "- Supporting: " h.supporting_refs "\n"
                                ++ (list_if "- Contradicting: " h.contradicting_refs "\n"
                                    ++ (concat (
                                          map (λ c. codes "- Check: " ++ (codes c ++ codes "\n"))
                                            h.checks)
                                        ++ (line_if "- Note: " h.verdict_note "\n"
                                            ++ codes "\n"))))))))))

hypotheses_part : List HypothesisView → Text
unfolding hypothesis_part concat
hypotheses_part [] = []
hypotheses_part (h ∷ hs) = codes "## Ranked hypotheses\n\n" ++ concat (map hypothesis_part (h ∷ hs))

abbrev pub result_block : Text → Text
result_block [] = []
result_block (c ∷ t) = codes "Result:\n\n```json\n" ++ (c ∷ t ++ codes "\n```\n\n")

evidence_part : {F : Type 0} → EvidenceView F → Text
unfolding invalid_suffix trim_space
evidence_part e =
    codes "### "
    ++ (codes e.ref
        ++ (codes " — "
            ++ (codes e.collector
                ++ (codes " / "
                    ++ (codes e.kind
                        ++ (codes " ("
                            ++ (codes e.status
                                ++ (codes ")"
                                    ++ (invalid_suffix e
                                        ++ (codes "\n\n"
                                            ++ (line_if "> " e.error "\n\n"
                                                ++ (codes "Request:\n\n```json\n"
                                                    ++ (trim_space (codes e.request)
                                                        ++ (codes "\n```\n\n"
                                                            ++ result_block (
                                                            trim_space
                                                            (codes e.result))))))))))))))))

-- `format` is Time.Format with the layout of the code
module _ (format : Time → String) where
  incident_part : IncidentDetail → Text
  unfolding entities_line
  incident_part inc =
      codes "# "
      ++ (codes inc.title
          ++ (codes "\n\n**Severity:** "
              ++ (codes inc.severity
                  ++ (codes "  **Status:** "
                      ++ (codes (status_word inc.status)
                          ++ (line_if "  **Triage:** " inc.triage_verdict ""
                              ++ (codes "\n\n**Opened:** "
                                  ++ (codes (format inc.opened_at)
                                      ++ (codes "\n"
                                          ++ (entities_line inc.entity_bag ++ codes "\n"))))))))))

  resolution_part : Option ResolutionView → Text
  resolution_part none = []
  resolution_part (some r) =
      codes "## Resolution\n\n**Root cause:** "
      ++ (codes r.root_cause
          ++ (codes "\n\n"
              ++ (line_if "**Actions taken:** " r.actions_taken "\n\n"
                  ++ (line_if "**Solution / prevention:** " r.ultimate_solution "\n\n"
                      ++ (line_if "**Notes:** " r.notes "\n\n"
                          ++ (if r.resolved_by == ""
                              then []
                              else codes "_Resolved by "
                                ++ (codes r.resolved_by
                                    ++ (codes " · "
                                        ++ (codes (format r.resolved_at) ++ codes "_\n\n")))))))))

  unfoldable pub render : {F : Type 0} → Notebook F → Text
  unfolding incident_part analysis_part observations_part hypotheses_part resolution_part
      evidence_part concat
  render nb =
      incident_part nb.incident
      ++ (analysis_part nb.analysis
          ++ (observations_part nb.observations
              ++ (hypotheses_part nb.hypotheses
                  ++ (resolution_part nb.resolution
                      ++ (codes "## Evidence\n\n" ++ concat (map evidence_part nb.evidence))))))
