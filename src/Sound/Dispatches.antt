-- ===== src/Sound/Dispatches.antt =====
-- The approval of a remediation, with all the calls of its dispatch, keeps the board sound.
use patchline.Prelude.{ℕ, Option, none, some}
use patchline.Models.{Database, Repository, ChangelogEntry, Remediation}
use patchline.Tx.{Result, ok, err, session_scope}
use patchline.Tx.Respects.{Respects}
use patchline.Env.{Env}
use patchline.Coverage.Sound.{IsSound, KeepsSound, sound_rules}
use patchline.Sound.Actions.{approve-IsSound}
use patchline.Dispatch.Github.{Github, Tools}
use patchline.Dispatch.Gate.{DispatchContext, gate_target, gate_remediation, gate}
use patchline.Dispatch.Push.{push}
use patchline.Dispatch.Run.{after_gate, dispatch_remediation}
use patchline.Dispatch.Board.{settle_dispatch-IsSound}
use patchline.Actions.{Request}
use patchline.Actions.Approve.{Approval, answer, dispatch, dispatch_approved, approve_and_dispatch}

gate_target-IsSound :
    (tools : Tools) (rem : Remediation) (entry : Option ChangelogEntry) (repo : Option Repository)
    → Respects KeepsSound (gate_target tools rem entry repo)
unfolding gate_target
gate_target-IsSound tools rem none repo = search sound_rules
gate_target-IsSound tools rem (some entry) none = search sound_rules
gate_target-IsSound tools rem (some entry) (some repo) = search sound_rules

gate_remediation-IsSound :
    (tools : Tools) (rem : Option Remediation) → Respects KeepsSound (gate_remediation tools rem)
unfolding gate_remediation
gate_remediation-IsSound tools none = search sound_rules
gate_remediation-IsSound tools (some rem) = search (sound_rules, gate_target-IsSound) depth 9

gate-IsSound : (tools : Tools) (id : ℕ) → Respects KeepsSound (session_scope (gate tools id))
unfolding gate
gate-IsSound tools id = search (sound_rules, gate_remediation-IsSound)

module _ {W : Type 0} (gh : Github W) (tools : Tools) (env : Env) where
  after_gate-IsSound :
      (id : ℕ) (r : Result DispatchContext) (db : Database) (w : W)
      → IsSound db
      → IsSound (after_gate gh tools env id r db w).0.1
  unfolding after_gate
  after_gate-IsSound id (err e) db w h = h
  after_gate-IsSound id (ok c) db w h =
      (settle_dispatch-IsSound env id c (push gh tools c env.now w).0).at db h

  dispatch_remediation-IsSound :
      (id : ℕ) (db : Database) (w : W)
      → IsSound db
      → IsSound (dispatch_remediation gh tools env id db w).0.1
  unfolding dispatch_remediation
  dispatch_remediation-IsSound id db w h =
      after_gate-IsSound id _ _ w ((gate-IsSound tools id).at db h)

  dispatch_approved-IsSound :
      (request : Request) (entry rid : ℕ) (r : Result Approval) (db : Database) (w : W)
      → IsSound db
      → IsSound (dispatch_approved gh tools env request entry rid r db w).0.1
  unfolding dispatch_approved
  dispatch_approved-IsSound request entry rid (err e) db w h = h
  dispatch_approved-IsSound request entry rid (ok (answer response)) db w h = h
  dispatch_approved-IsSound request entry rid (ok (dispatch id)) db w h =
      dispatch_remediation-IsSound id db w h

  pub approve_and_dispatch-IsSound :
      (request : Request) (entry rid : ℕ) (db : Database) (w : W)
      → IsSound db
      → IsSound (approve_and_dispatch gh tools env request entry rid db w).0.1
  unfolding approve_and_dispatch
  approve_and_dispatch-IsSound request entry rid db w h =
      dispatch_approved-IsSound request entry rid _ _ w
        ((approve-IsSound env request entry rid).at db h)
