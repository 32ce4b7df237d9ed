-- ===== src/Env.antt =====
-- What the code takes from outside: the clock, the environment variables of src/patchline/config.py,
-- and fresh random values. One `Env` stands for one transaction: the clock is read once.
pub mod Ints
use patchline.Prelude.{
  ℕ, Bool, false, Option, none, some, Text, strip, lower, same, any, text, List, [], ◌∷◌,
}

pub record Env : Type 0 where
  -- datetime.now(timezone.utc), in seconds
  pub now : ℕ
  -- os.environ.get
  pub environ : Text → Option Text
  -- str(uuid.uuid4()) for the n-th row of the notification table, and uuid4().hex[:12]
  pub uuid : ℕ → Text
  pub hex : Text
  -- random.uniform(-spread, spread) + spread, in whole seconds
  pub draw : ℕ → ℕ
  -- the receiver's answer to attempt k for row n of the notification table, if there is one
  pub post : ℕ → ℕ → Option ℕ

abbrev pub when_set : Text → Option Text
when_set [] = none
when_set (c ∷ s) = some (c ∷ s)

abbrev pub stripped : Option Text → Option Text
stripped none = none
stripped (some raw) = when_set (strip raw)

-- `raw.strip() if raw and raw.strip() else None`
unfoldable pub env_text : Env → Text → Option Text
unfolding strip
env_text env name = stripped (env.environ name)

abbrev pub true_values : List Text
true_values = text "1" ∷ text "true" ∷ text "yes" ∷ text "on" ∷ []

abbrev pub bool_of : Option Text → Bool → Bool
bool_of none default = default
bool_of (some []) default = default
bool_of (some (c ∷ s)) default = any (λ v. same (lower (strip (c ∷ s))) v) true_values

-- _env_bool
unfoldable pub env_bool : Env → Text → Bool → Bool
env_bool env name default = bool_of (env.environ name) default

unfoldable pub demo_mode : Env → Bool
unfolding env_bool
demo_mode env = env_bool env (text "DEMO_MODE") false

unfoldable pub allowlisted_login : Env → Option Text
unfolding env_text
allowlisted_login env = env_text env (text "GITHUB_ALLOWLISTED_LOGIN")

unfoldable pub notification_webhook_url : Env → Option Text
unfolding env_text
notification_webhook_url env = env_text env (text "NOTIFICATION_WEBHOOK_URL")

unfoldable pub notification_signing_secret : Env → Option Text
unfolding env_text
notification_signing_secret env = env_text env (text "NOTIFICATION_SIGNING_SECRET")

unfoldable pub instance_id_env : Env → Option Text
unfolding env_text
instance_id_env env = env_text env (text "INSTANCE_ID")

-- `(os.environ.get("DEFAULT_LANGUAGE") or "python").strip().lower()`
unfoldable pub default_language_env : Env → Text
default_language_env env = elim (env.environ (text "DEFAULT_LANGUAGE")) [
  | some (c ∷ s) ↦ lower (strip (c ∷ s))
  | _ ↦ lower (strip (text "python"))
]

-- `(os.environ.get("ENGINE_MODE") or "mock").strip().lower()`
unfoldable pub engine_mode : Env → Text
engine_mode env = elim (env.environ (text "ENGINE_MODE")) [
  | some (c ∷ s) ↦ lower (strip (c ∷ s))
  | _ ↦ lower (strip (text "mock"))
]
