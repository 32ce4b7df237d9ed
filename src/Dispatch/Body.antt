-- ===== src/Dispatch/Body.antt =====
-- The text of a pull request (src/patchline/core/pr_body.py).
use patchline.Prelude.{Option, none, some, List, [], ◌∷◌, ◌++◌, Text, text}
use patchline.Diff.Lines.{join}
use patchline.Dispatch.Github.{Provenance}

abbrev pub minimal_notice : Text
minimal_notice =
    text "This PR was generated by Patchline. Review the diff carefully before merging."

abbrev pub trust_note : Text
trust_note =
    text "Note: after merging, Patchline verifies migration by rescanning for the old API pattern. "
    ++ text "A 'migrated' result means the old pattern was absent at scan time; it does not verify "
    ++ text "that this exact diff was applied verbatim."

-- ", ".join(models)
unfoldable pub comma_join : List Text → Text
comma_join [] = []
comma_join (m ∷ []) = m
comma_join (m ∷ n ∷ models) = m ++ text ", " ++ comma_join (n ∷ models)

-- A line for a field that is there and not blank
abbrev field_line : Text → Option Text → List Text
field_line label none = []
field_line label (some []) = []
field_line label (some (c ∷ s)) = (label ++ c ∷ s) ∷ []

abbrev score_line : Option Text → List Text
score_line none = []
score_line (some score) = (text "- Quality score: " ++ score) ∷ []

abbrev models_line : List Text → List Text
models_line [] = []
models_line (m ∷ models) = (text "- Models involved: " ++ comma_join (m ∷ models)) ∷ []

unfoldable pub rendered_provenance : Option Provenance → List Text
unfolding comma_join
rendered_provenance none = []
rendered_provenance (some p) =
    score_line p.quality_score
    ++ field_line (text "- Certificate class: ") p.certificate_class
    ++ field_line (text "- Disagreement record: ") p.disagreement_record
    ++ models_line p.models

abbrev summary_lines : Option Text → List Text
summary_lines none = []
summary_lines (some []) = []
summary_lines (some (c ∷ s)) = (c ∷ s) ∷ [] ∷ []

abbrev provenance_lines : List Text → List Text
provenance_lines [] = []
provenance_lines (l ∷ lines) = text "### Provenance" ∷ (l ∷ lines) ++ [] ∷ []

abbrev link_lines : Option Text → List Text
link_lines none = []
link_lines (some []) = []
link_lines (some (c ∷ s)) = (text "Patchline scan: " ++ c ∷ s) ∷ [] ∷ []

unfoldable pub compose_pr_body : Text → Option Text → Option Provenance → Option Text → Text
unfolding rendered_provenance join
compose_pr_body entry_title summary provenance scan_link = join 10 (
    ((text "## " ++ entry_title) ∷ [] ∷ [])
    ++ summary_lines summary
    ++ provenance_lines (rendered_provenance provenance)
    ++ (trust_note ∷ [] ∷ [])
    ++ link_lines scan_link
    ++ (text "_" ++ minimal_notice ++ text "_") ∷ [])
