-- ===== src/Jobs/Refusal.antt =====
-- What queueing the scans of an entry does to the board, and one repository that refuses them all.
use patchline.Prelude.{
  ℕ, ◌≡◌, ◌≢◌, refl, ◌∙◌, true, false, List, [], ◌∷◌, ◌++◌, some, All, arith, Bool-cases, inl, inr,
  if◌then◌else◌,
}
use patchline.Models.{Database, Status, scanning, pr_open, ChangelogEntry, Repository}
use patchline.Tx.{
  pure, Tx, Result, ok, err, is_ok, for_each, session_scope, settle, continue, ◌>>=◌, ◌>>◌,
}
use patchline.Coverage.{can_transition}
use patchline.Coverage.Board.{status_of}
use patchline.Coverage.Effect.{
  permits, Moves, Moves-after, Moves-before, Moves-apply_transition, quiet_rules,
}
use patchline.Jobs.Row.{is_active}
use patchline.Jobs.Enqueue.{language_matches, enqueue_repository, enqueue_scans_for_entry}

-- The status that the scan of a repository asks for
abbrev pub queued_status : Repository → ChangelogEntry → Status
queued_status repo entry = if language_matches repo entry then scanning else Status.skipped_language

enqueue_repository-Moves :
    (now : ℕ) (entry : ChangelogEntry) (priority : ℕ) (repo : Repository)
    → is_active repo.connection_state ≡ true
    → Moves
        (enqueue_repository now entry priority repo)
        entry.id
        repo.id
        (some (queued_status repo entry))
unfolding enqueue_repository
enqueue_repository-Moves now entry priority repo a =
    elim (Bool-cases (language_matches repo entry)) [
      | inl e ↦
          rw (a, e)
            (Moves-after _ _ _ _ _ (search quiet_rules)
              λ _. Moves-before _ _ _ _ _ (Moves-apply_transition now _) (λ x. search quiet_rules))
      | inr e ↦
          rw (a, e)
            (Moves-after _ _ _ _ _ (search quiet_rules)
              λ _. Moves-before _ _ _ _ _ (Moves-apply_transition now _) (λ x. search quiet_rules))
    ]

-- The other repositories of the entry keep their status.
enqueue_repository_other :
    (now : ℕ) (entry : ChangelogEntry) (priority : ℕ) (repo : Repository) (r : ℕ) (db : Database)
    → repo.id ≢ r
    → status_of (enqueue_repository now entry priority repo db).1.coverage entry.id r
      ≡ status_of db.coverage entry.id r
unfolding enqueue_repository pure
enqueue_repository_other now entry priority repo r db d =
    elim (Bool-cases (is_active repo.connection_state)) [
      | inl a ↦
          let m = (enqueue_repository-Moves now entry priority repo a).board db entry.id r in
          ground (arith, m)
      | inr a ↦ rw a refl
    ]

pr_open_refuses :
    (repo : Repository) (entry : ChangelogEntry)
    → permits pr_open (some (queued_status repo entry)) ≡ false
unfolding can_transition
pr_open_refuses repo entry = elim (Bool-cases (language_matches repo entry)) [
  | inl e ↦ rw e refl
  | inr e ↦ rw e refl
]

module _ (now : ℕ) (entry : ChangelogEntry) (priority : ℕ) (repo : Repository)
    (active : is_active repo.connection_state ≡ true) where
  err_first :
      (m : Tx (Unit {0})) (f : Unit {0} → Tx (Unit {0})) (db : Database)
      → is_ok (m db).0 ≡ false
      → is_ok ((m >>= f) db).0 ≡ false
  unfolding ◌>>=◌
  err_first m f db h = go (m db).0 h
    where
      go : (r : Result (Unit {0})) → is_ok r ≡ false → is_ok (continue r f (m db).1).0 ≡ false
      go (ok x) k = cc
      go (err e) k = refl

  err_later :
      (m n : Tx (Unit {0})) (db : Database)
      → is_ok (n (m db).1).0 ≡ false
      → is_ok ((m >> n) db).0 ≡ false
  unfolding ◌>>=◌
  err_later m n db h = go (m db).0
    where
      go : (r : Result (Unit {0})) → is_ok (continue r (λ _. n) (m db).1).0 ≡ false
      go (ok x) = h
      go (err e) = refl

  enqueue_fails :
      (before rest : List Repository) (db : Database)
      → All (λ r. r.id ≢ repo.id) before
      → status_of db.coverage entry.id repo.id ≡ pr_open
      → is_ok (for_each (before ++ repo ∷ rest) (enqueue_repository now entry priority) db).0
        ≡ false
  unfolding for_each
  enqueue_fails [] rest db d open_ = err_first _ _ db (
      (enqueue_repository-Moves now entry priority repo active).answer db
      ∙ rw open_ (pr_open_refuses repo entry))
  enqueue_fails (x ∷ before) rest db d open_ =
      err_later (enqueue_repository now entry priority x) _ db (
        enqueue_fails before rest (enqueue_repository now entry priority x db).1 d.1
          (enqueue_repository_other now entry priority x repo.id db d.0 ∙ open_))

  -- If one active repository of the list has an open pull request for the entry, the transaction that
  -- queues the scans of the entry raises and is rolled back: no repository of the list is scanned. The
  -- repositories in front of it are other repositories.
  pub enqueue_scans_refused :
      (before rest : List Repository) (db : Database)
      → All (λ r. r.id ≢ repo.id) before
      → status_of db.coverage entry.id repo.id ≡ pr_open
      → (is_ok
            (session_scope
              (enqueue_scans_for_entry now entry (before ++ repo ∷ rest) priority)
              db).0
          ≡ false)
        × ((session_scope (enqueue_scans_for_entry now entry (before ++ repo ∷ rest) priority) db).1
            ≡ db)
  unfolding enqueue_scans_for_entry session_scope
  enqueue_scans_refused before rest db d open_ = go _ _ (enqueue_fails before rest db d open_)
    where
      go :
          (r : Result (Unit {0})) (new : Database)
          → is_ok r ≡ false
          → (is_ok (settle r db new).0 ≡ false) × ((settle r db new).1 ≡ db)
      go (ok u) new k = cc
      go (err e) new k = (refl, refl)
