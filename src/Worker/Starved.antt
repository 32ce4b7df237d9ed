-- ===== src/Worker/Starved.antt =====
-- A remediation that cannot be recorded stops the worker: the transaction that records it raises outside
-- the try blocks of generate_remediation, its row stays `generating`, and each pass ends there again, before
-- a scan job is claimed.
use patchline.Prelude.{subst, ℕ, ◌≡◌, refl, sym, ◌∙◌, false, some, List, [], ◌∷◌, All}
use patchline.Models.{
  Database, Remediation, ChangelogEntry, Repository, remediation_pending, JobType,
  remediation_table, entry_table, repository_table,
}
use patchline.Query.{get}
use patchline.Tx.{
  handle, Tx, Result, ok, err, is_ok, settle, pure, gets, session_scope, catch, for_each, ◌>>=◌,
  ◌>>◌,
}
use patchline.Env.{Env}
use patchline.ConfigStore.{record_engine_success}
use patchline.Coverage.{transition, apply_transition}
use patchline.Coverage.Board.{status_of, is_allowed}
use patchline.Coverage.Effect.{
  Moves, Moves-after, Moves-before, Moves-apply_transition, refused-bind, quiet_rules,
}
use patchline.Scanning.Outcome.{record_engine_success-IsQuiet}
use patchline.Scanning.Finish.{OccurrenceData, or_attribute_error}
use patchline.Derivation.{pending_entries, process_pending_derivations, derive_all}
use patchline.Remediation.Validate.{valid}
use patchline.Remediation.Generate.{
  Packages, Generation, GenerationResult, generated, go, generation, begin_generation, begin_row,
  begin_with, change_remediation, ready_row, store_remediation, settle_checked, settle_attempt,
  check_diff, run_occurrences, run_begun, generate_remediation,
}
use patchline.Worker.{
  Outside, pending_remediations, process_pending_remediations, pass_steps, worker_pass, run_passes,
}

-- The call raises and writes nothing.
Refuses : {A : Type 0} → Tx A → Database → Type 0
Refuses m db = (is_ok (m db).0 ≡ false) × ((m db).1 ≡ db)

module _ {A B : Type 0} where
  bind_ok :
      (m : Tx A) (f : A → Tx B) (db : Database) {a : A} → m db ≡ (ok a, db) → (m >>= f) db ≡ f a db
  unfolding ◌>>=◌
  bind_ok m f db h = rw h refl

  Refuses-bind : (m : Tx A) (f : A → Tx B) (db : Database) → Refuses m db → Refuses (m >>= f) db
  unfolding Refuses
  Refuses-bind m f db h = refused-bind m f db h

  -- Behind a call that only reads.
  Refuses-behind :
      (m : Tx A) (f : A → Tx B) (db : Database) {a : A}
      → m db ≡ (ok a, db)
      → Refuses (f a) db
      → Refuses (m >>= f) db
  unfolding Refuses
  Refuses-behind m f db h k = rw (bind_ok m f db h) k

-- A block that raises is rolled back.
Refuses-session_scope :
    {A : Type 0} (m : Tx A) (db : Database) → is_ok (m db).0 ≡ false → Refuses (session_scope m) db
unfolding Refuses session_scope
Refuses-session_scope {A} m db h = go (m db).0 (m db).1 h
  where
    go :
        (r : Result A) (db' : Database)
        → is_ok r ≡ false
        → (is_ok (settle r db db').0 ≡ false) × ((settle r db db').1 ≡ db)
    go (ok a) db' k = cc
    go (err e) db' k = (refl, refl)

-- The last transaction of generate_remediation, once the row is found.
abbrev store_found : Env → Packages → ℕ → Generation → GenerationResult → Tx (Unit {0})
store_found env p id g result = do
  change_remediation id (ready_row p result)
  record_engine_success
  apply_transition env.now (transition g.entry_id g.repo_id remediation_pending JobType.remediation)
  pure tt

store_found-Moves :
    (env : Env) (p : Packages) (id : ℕ) (g : Generation) (r : GenerationResult)
    → Moves (store_found env p id g r) g.entry_id g.repo_id (some remediation_pending)
unfolding change_remediation
store_found-Moves env p id g r = Moves-after _ _ _ _ _ (search quiet_rules) λ _.
    Moves-after _ _ _ _ _ record_engine_success-IsQuiet
      λ _. Moves-before _ _ _ _ _ (Moves-apply_transition env.now _) (λ x. search quiet_rules)

store_remediation-store_found :
    (env : Env) (p : Packages) (id : ℕ) (g : Generation) (r : GenerationResult) (db : Database)
    {rem : Remediation}
    → get id db.remediations ≡ some rem
    → store_remediation env p id g r db ≡ store_found env p id g r db
unfolding store_remediation or_attribute_error ◌>>=◌ gets pure
store_remediation-store_found env p id g r db h = rw h refl

-- No entry waits for its patterns, and the first remediation that waits has a diff that passes all checks,
-- but the board does not let its pair go on to remediation_pending.
pub record IsStuck (out : Outside) (db : Database) : Type 0 where
  pub no_drafts : pending_entries 10 db ≡ []
  pub id : ℕ
  pub ids : List ℕ
  pub pending : pending_remediations db ≡ id ∷ ids
  pub rem : Remediation
  pub entry : ChangelogEntry
  pub repo : Repository
  pub found : get id db.remediations ≡ some rem
  pub of_entry : get rem.entry_id db.entries ≡ some entry
  pub of_repo : get rem.repository_id db.repositories ≡ some repo
  pub occurrence : OccurrenceData
  pub others : List OccurrenceData
  pub has_occurrences : (generation db rem entry repo).occurrences ≡ occurrence ∷ others
  pub result : GenerationResult
  pub engine : out.generate (generation db rem entry repo) ≡ generated result
  pub checked : check_diff out.packages entry.language result ≡ valid
  pub refused : is_allowed (status_of db.coverage entry.id repo.id) remediation_pending ≡ false

begun :
    (id : ℕ) (db : Database) (rem : Remediation) (entry : ChangelogEntry) (repo : Repository)
    → get id db.remediations ≡ some rem
    → get rem.entry_id db.entries ≡ some entry
    → get rem.repository_id db.repositories ≡ some repo
    → session_scope (begin_generation id) db ≡ (ok (go (generation db rem entry repo)), db)
unfolding session_scope begin_generation begin_row begin_with ◌>>=◌
begun id db rem entry repo h1 h2 h3 = rw h1 (rw h2 (rw h3 refl))

store_Refuses :
    (env : Env) (p : Packages) (id : ℕ) (g : Generation) (r : GenerationResult) (db : Database)
    {rem : Remediation}
    → get id db.remediations ≡ some rem
    → is_allowed (status_of db.coverage g.entry_id g.repo_id) remediation_pending ≡ false
    → Refuses (session_scope (store_remediation env p id g r)) db
store_Refuses env p id g r db h k = Refuses-session_scope _ db (
    rw (store_remediation-store_found env p id g r db h)
      ((store_found-Moves env p id g r).answer db ∙ k))

module _ (env : Env) (out : Outside) (db : Database) (s : IsStuck out db) where
  abbrev g : Generation
  g = generation db s.rem s.entry s.repo

  settle_Refuses : Refuses (settle_checked env out.packages s.id g s.result valid) db
  unfolding settle_checked generation
  settle_Refuses =
      Refuses-bind _ _ db (store_Refuses env out.packages s.id g s.result db s.found s.refused)

  run_Refuses : Refuses (run_begun env out.packages out.generate s.id (go g)) db
  unfolding run_begun run_occurrences settle_attempt generation
  run_Refuses =
      subst (λ occs. Refuses (run_occurrences env out.packages out.generate s.id g occs) db)
        (sym s.has_occurrences)
        (subst (λ a. Refuses (settle_attempt env out.packages s.id g a) db) (sym s.engine)
          (subst (λ c. Refuses (settle_checked env out.packages s.id g s.result c) db)
            (sym s.checked) settle_Refuses))

  generate_Refuses : Refuses (generate_remediation env out.packages out.generate s.id) db
  unfolding generate_remediation
  generate_Refuses =
      Refuses-behind _ _ db (begun s.id db s.rem s.entry s.repo s.found s.of_entry s.of_repo)
        run_Refuses

  pending_Refuses : Refuses (process_pending_remediations env out) db
  unfolding process_pending_remediations for_each gets
  pending_Refuses = Refuses-behind _ _ db refl (
      rw s.pending
        (Refuses-bind _ _ db (Refuses-bind _ _ db (Refuses-bind _ _ db generate_Refuses))))

  derived : process_pending_derivations out.derive 10 db ≡ (ok 0, db)
  unfolding process_pending_derivations derive_all ◌>>=◌ gets
  derived = rw s.no_drafts refl

  steps_Refuses : Refuses (pass_steps env out) db
  unfolding pass_steps
  steps_Refuses = Refuses-behind _ _ db derived (Refuses-bind _ _ db pending_Refuses)

-- An exception of the block is logged, and the pass has written nothing.
caught :
    (m : Tx (Unit {0})) (db : Database) → Refuses m db → catch m (λ e. pure tt) db ≡ (ok tt, db)
unfolding catch Refuses pure
caught m db h = go (m db).0 (m db).1 h.0 h.1
  where
    go :
        (r : Result (Unit {0})) (db' : Database)
        → is_ok r ≡ false
        → db' ≡ db
        → handle r (λ e d. (ok tt, d)) db' ≡ (ok tt, db)
    go (ok a) db' k e = cc
    go (err x) db' k e = rw e refl

pub stuck_pass :
    (env : Env) (out : Outside) (db : Database)
    → IsStuck out db
    → worker_pass env out db ≡ (ok tt, db)
unfolding worker_pass
stuck_pass env out db s = caught _ db (Refuses-bind _ _ db (steps_Refuses env out db s))

-- Where no entry waits for its patterns and the first waiting remediation is one that passes all checks but
-- whose pair may not go on to remediation_pending, any number of worker passes leave the database as it
-- is: no scan job is claimed, and the row keeps waiting.
pub starved_worker :
    (passes : List (Env × Outside)) (db : Database)
    → All (λ p. IsStuck p.1 db) passes
    → run_passes passes db ≡ (ok tt, db)
unfolding run_passes pure
starved_worker [] db h = refl
starved_worker ((env, out) ∷ rest) db h =
    bind_ok (worker_pass env out) (λ done. run_passes rest) db (stuck_pass env out db h.0)
    ∙ starved_worker rest db h.1
