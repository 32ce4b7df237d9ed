-- ===== src/Cli/VerifyConfig.antt =====
-- verify_config_errors of src/patchline/cli.py: what is missing in the environment, and the installations
-- with more repositories than a full scan should have.
use patchline.Prelude.{
  ℕ, suc, Bool, true, false, not, ◌&&◌, ◌||◌, ◌==◌, Option, none, some, List, [], ◌∷◌, ◌++◌, Text,
  text, strip, is_empty, same, or_blank, map, filter, if◌then◌else◌,
}
use patchline.Models.{Database, Repository}
use patchline.Env.{
  Env, env_text, engine_mode, allowlisted_login, notification_webhook_url,
  notification_signing_secret,
}
use patchline.Env.Ints.{ℤ, pos, env_int, or_int, exceeds}

pub data ConfigError : Type 0 where
  not_set : Text → ConfigError
  no_private_key no_allowlisted_login unpaired_notifications no_base_url no_service_token :
      ConfigError

abbrev required_env_vars : List Text
required_env_vars =
    text "GITHUB_APP_ID"
    ∷ text "GITHUB_APP_SLUG"
    ∷ text "GITHUB_CLIENT_ID"
    ∷ text "GITHUB_CLIENT_SECRET"
    ∷ text "GITHUB_WEBHOOK_SECRET"
    ∷ text "GITHUB_ALLOWLISTED_LOGIN"
    ∷ text "ENGINE_MODE"
    ∷ text "SESSION_SECRET"
    ∷ text "DATABASE_URL"
    ∷ text "DEFAULT_LANGUAGE"
    ∷ []

-- (os.environ.get(name) or "").strip()
unfoldable pub is_set : Env → Text → Bool
unfolding strip is_empty
is_set env name = not (is_empty (strip (or_blank (env.environ name))))

-- if b: errors.append(e)
unfoldable pub error_if : Bool → ConfigError → List ConfigError
error_if b e = if b then e ∷ [] else []

abbrev is_given : Option Text → Bool
is_given none = false
is_given (some s) = true

-- bool(url) != bool(secret)
unfoldable pub is_unpaired : Env → Bool
unfolding notification_webhook_url notification_signing_secret
is_unpaired env =
    let url = is_given (notification_webhook_url env) in
    let secret = is_given (notification_signing_secret env) in
    (url && not secret) || (not url && secret)

unfoldable pub engine_errors : Env → List ConfigError
unfolding engine_mode env_text error_if
engine_errors env =
    if same (engine_mode env) (text "sneferu")
    then error_if (not (is_given (env_text env (text "SNEFERU_BASE_URL")))) no_base_url
      ++ error_if (not (is_given (env_text env (text "SNEFERU_SERVICE_TOKEN")))) no_service_token
    else []

unfoldable pub verify_config_errors : Env → List ConfigError
unfolding is_set allowlisted_login is_unpaired error_if engine_errors
verify_config_errors env =
    map not_set (filter (λ name. not (is_set env name)) required_env_vars)
    ++ error_if
        (not (
          is_set env (text "GITHUB_APP_PRIVATE_KEY_PATH")
          || is_set env (text "GITHUB_APP_PRIVATE_KEY")))
        no_private_key
    ++ error_if (not (is_given (allowlisted_login env))) no_allowlisted_login
    ++ error_if (is_unpaired env) unpaired_notifications
    ++ engine_errors env

unfoldable pub max_repos_per_installation : Env → ℤ
unfolding env_int
max_repos_per_installation env =
    or_int (env_int env (text "MAX_REPOS_PER_INSTALLATION") (pos 20)) (pos 20)

-- counts[i] = counts.get(i, 0) + 1
unfoldable pub count_repository : ℕ → List (ℕ × ℕ) → List (ℕ × ℕ)
count_repository i [] = (i, 1) ∷ []
count_repository i ((j, n) ∷ counts) =
    let rest = count_repository i counts in if j == i then (j, suc n) ∷ counts else (j, n) ∷ rest

abbrev is_kept : Repository → Bool
is_kept repo = elim repo.deleted_at [ none ↦ true | some t ↦ false ]

unfoldable pub count_repositories : List Repository → List (ℕ × ℕ) → List (ℕ × ℕ)
unfolding count_repository
count_repositories [] counts = counts
count_repositories (repo ∷ repos) counts =
    count_repositories repos (count_repository repo.installation_id counts)

-- The installations that the warnings name, with their numbers of repositories.
unfoldable pub verify_config_warnings : Env → Database → List (ℕ × ℕ)
unfolding max_repos_per_installation exceeds count_repositories filter
verify_config_warnings env db =
    filter (λ c. exceeds c.1 (max_repos_per_installation env))
      (count_repositories (filter is_kept db.repositories) [])

-- The exit code of the command.
unfoldable pub cmd_verify_config : Env → ℕ
unfolding verify_config_errors
cmd_verify_config env = elim (verify_config_errors env) [ [] ↦ 0 | e ∷ errors ↦ 1 ]
