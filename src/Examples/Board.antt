-- ===== src/Examples/Board.antt =====
-- The theorems on the coverage board at concrete inputs.
use patchline.Prelude.{
  ℕ, ◌≡◌, refl, true, ◌&&◌, if◌then◌else◌, arith, ◌==◌, find, some, count_if, ◌⊎◌,
}
use patchline.Models.{
  scanning, pattern_detected, remediation_pending, no_hits, migrated, JobType, coverage_table,
}
use patchline.Query.{next_id}
use patchline.Tx.{is_ok}
use patchline.Coverage.{transition, can_transition, apply_transition}
use patchline.Coverage.Machine.{Walk, migrated_reachable, is_early, early_exit}
use patchline.Coverage.Board.{
  status_of, is_allowed, board-apply_transition, IsUnique, apply_transition-IsUnique,
}
use patchline.Coverage.Audit.{IsAudited, apply_transition-IsAudited, migrated_was_remediated}
use patchline.Coverage.Trail.{replay, logs}
use patchline.Examples.Fixtures.{scanning_board, migrated_board, scanning_row}

board-apply_transition_example :
    (is_ok (apply_transition 200 (transition 1 7 no_hits JobType.scan) scanning_board).0
      ≡ is_allowed (status_of scanning_board.coverage 1 7) no_hits)
    × ((e r : ℕ)
        → status_of
            (apply_transition 200 (transition 1 7 no_hits JobType.scan) scanning_board).1.coverage
            e
            r
          ≡ (if is_allowed (status_of scanning_board.coverage 1 7) no_hits && (1 == e && 7 == r)
              then no_hits
              else status_of scanning_board.coverage e r))
board-apply_transition_example =
    board-apply_transition 200 (transition 1 7 no_hits JobType.scan) scanning_board

one_row : IsUnique scanning_board
unfolding count_if
one_row e r = ground arith

apply_transition-IsUnique_example :
    IsUnique (apply_transition 200 (transition 1 7 no_hits JobType.scan) scanning_board).1
apply_transition-IsUnique_example =
    apply_transition-IsUnique 200 (transition 1 7 no_hits JobType.scan) scanning_board one_row

scanning_board-IsAudited : IsAudited scanning_board
unfolding replay can_transition count_if next_id
scanning_board-IsAudited = record {
  tracked = (refl, tt);
  keys = λ i. ground arith;
  known = (omega arith, tt);
}

apply_transition-IsAudited_example :
    IsAudited (apply_transition 200 (transition 1 7 no_hits JobType.scan) scanning_board).1
apply_transition-IsAudited_example =
    apply_transition-IsAudited 200 (transition 1 7 no_hits JobType.scan) scanning_board
      scanning_board-IsAudited

migrated_board-IsAudited : IsAudited migrated_board
unfolding replay can_transition count_if next_id
migrated_board-IsAudited = record {
  tracked = (refl, tt);
  keys = λ i. ground arith;
  known = (omega arith, (omega arith, (omega arith, (omega arith, (omega arith, tt)))));
}

migrated_row_found :
    find (λ row. row.id == 1) migrated_board.coverage
    ≡ some (record scanning_row { status = migrated })
unfolding find
migrated_row_found = refl

migrated_was_remediated_example : logs 1 remediation_pending migrated_board.log ≡ true
migrated_was_remediated_example =
    migrated_was_remediated migrated_board (λ row. row.id == 1)
      (record scanning_row { status = migrated }) migrated_board-IsAudited migrated_row_found refl

migrated_reachable_example : Walk scanning migrated
migrated_reachable_example = migrated_reachable scanning

detected_then_pending : can_transition pattern_detected remediation_pending ≡ true
unfolding can_transition
detected_then_pending = refl

early_exit_example :
    (is_early remediation_pending ≡ true)
    ⊎ ((pattern_detected ≡ pattern_detected) × (remediation_pending ≡ remediation_pending))
early_exit_example = early_exit pattern_detected remediation_pending refl detected_then_pending
