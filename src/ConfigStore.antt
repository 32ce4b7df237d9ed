-- ===== src/ConfigStore.antt =====
-- The key-value configuration table (src/patchline/core/config_store.py). The ring of engine latencies
-- is left out: it holds floating-point numbers.
use patchline.Prelude.{
  ℕ, ◌+◌, ◌*◌, ◌-◌, Bool, ◌&&◌, Option, none, some, List, [], ◌∷◌, ◌++◌, Text, text, show, same,
  all, find, leb, if◌then◌else◌,
}
use patchline.Models.{Config}
use patchline.Query.{modify}
use patchline.Tx.{Tx, pure, gets, change, ◌>>=◌, ◌>>◌}
use patchline.Env.{Env, instance_id_env, default_language_env}

-- filter_by(key=key)
abbrev pub is_key : Text → Config → Bool
is_key key row = same row.key key

abbrev value_in : Option Config → Option Text
value_in none = none
value_in (some row) = some row.value

unfoldable pub lookup_config : Text → List Config → Option Text
lookup_config key rows = value_in (find (is_key key) rows)

unfoldable pub get_config_value : Text → Tx (Option Text)
unfolding lookup_config
get_config_value key = gets (λ db. lookup_config key db.config)

unfoldable pub put_config : Text → Text → Option Config → List Config → List Config
put_config key value none rows = rows ++ record { key = key; value = value } ∷ []
put_config key value (some row) rows = modify (is_key key) (λ r. record r { value = value }) rows

unfoldable pub set_config_value : Text → Text → Tx (Unit {0})
unfolding put_config
set_config_value key value =
    change
      (λ db. record db { config = put_config key value (find (is_key key) db.config) db.config })

unfoldable pub or_env : Env → Option Text → Text
or_env env (some (c ∷ s)) = c ∷ s
or_env env _ = default_language_env env

-- The table wins, the environment is the fallback.
unfoldable pub default_language : Env → Tx Text
unfolding get_config_value or_env
default_language env = do row ← get_config_value (text "default_language"); pure (or_env env row)

unfoldable pub seed_if_missing : Env → Option Text → Tx (Unit {0})
unfolding set_config_value
seed_if_missing env (some value) = pure tt
seed_if_missing env none = set_config_value (text "default_language") (default_language_env env)

unfoldable pub seed_default_language : Env → Tx (Unit {0})
unfolding get_config_value seed_if_missing
seed_default_language env = do
  row ← get_config_value (text "default_language")
  seed_if_missing env row

abbrev generated_id : Env → Text
generated_id env = text "patchline-" ++ env.hex

unfoldable pub stored_instance_id : Env → Option Text → Tx Text
unfolding set_config_value
stored_instance_id env (some (c ∷ s)) = pure (c ∷ s)
stored_instance_id env _ = do
  set_config_value (text "instance_id") (generated_id env)
  pure (generated_id env)

unfoldable pub instance_id_from : Env → Option Text → Tx Text
unfolding get_config_value stored_instance_id
instance_id_from env (some value) = pure value
instance_id_from env none = do
  existing ← get_config_value (text "instance_id")
  stored_instance_id env existing

-- The environment wins, then the table; else a generated value is kept in the table.
unfoldable pub instance_id : Env → Tx Text
unfolding instance_id_from
instance_id env = instance_id_from env (instance_id_env env)

-- int(raw) on the decimal digits that str(n) writes; any other text counts as a ValueError.
unfoldable pub digits_value : ℕ → Text → ℕ
digits_value n [] = n
digits_value n (c ∷ s) = digits_value (n * 10 + (c - b'0')) s

unfoldable pub read_count : Option Text → ℕ
unfolding digits_value
read_count none = 0
read_count (some []) = 0
read_count (some (c ∷ s)) =
    if all (λ d. leb b'0' d && leb d b'9') (c ∷ s) then digits_value 0 (c ∷ s) else 0

abbrev failures_key : Text
failures_key = text "engine_consecutive_failures"

unfoldable pub engine_consecutive_failures : Tx ℕ
unfolding get_config_value read_count
engine_consecutive_failures = do raw ← get_config_value failures_key; pure (read_count raw)

unfoldable pub record_engine_failure : Tx ℕ
unfolding engine_consecutive_failures set_config_value
record_engine_failure = do
  failures ← engine_consecutive_failures
  set_config_value failures_key (show (failures + 1))
  pure (failures + 1)

unfoldable pub record_engine_success : Tx (Unit {0})
unfolding set_config_value
record_engine_success = set_config_value failures_key (text "0")
