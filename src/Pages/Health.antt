-- ===== src/Pages/Health.antt =====
-- The health check of src/patchline/routes/health.py. Whether the database answers, the age of the
-- heartbeat file and the answer of the engine's ping are arguments.
use patchline.Prelude.{
  ℕ, Bool, true, false, ◌-◌, ◌||◌, ltb, Option, none, some, Text, text, same, if◌then◌else◌,
}
use patchline.Env.{Env, engine_mode, demo_mode}

pub data WorkerStatus : Type 0 where
  unknown healthy stale : WorkerStatus

unfoldable pub worker_status : Env → Option ℕ → WorkerStatus
worker_status env none = unknown
worker_status env (some modified_at) = if ltb (env.now - modified_at) 120 then healthy else stale

-- An engine without a ping; or its answer, which is missing where the call raises.
pub data Ping : Type 0 where
  no_ping : Ping
  answered : Option Bool → Ping

pub data EngineStatus : Type 0 where
  unknown healthy unreachable : EngineStatus

abbrev ping_status : Ping → EngineStatus
ping_status no_ping = EngineStatus.unknown
ping_status (answered (some true)) = EngineStatus.healthy
ping_status (answered _) = unreachable

unfoldable pub engine_status : Env → Ping → EngineStatus
unfolding engine_mode demo_mode same
engine_status env ping =
    if same (engine_mode env) (text "mock") || demo_mode env
    then EngineStatus.healthy
    else ping_status ping

pub record Deep : Type 0 where
  pub engine : EngineStatus
  pub engine_mode : Text
  pub worker : WorkerStatus

-- The status of the answer, and what a deep check adds.
pub record Health : Type 0 where
  pub status_code : ℕ
  pub is_healthy : Bool
  pub deep : Option Deep

abbrev is_unreachable : EngineStatus → Bool
is_unreachable unreachable = true
is_unreachable _ = false

abbrev deep_of : Env → Option ℕ → Ping → Deep
unfolding engine_status engine_mode demo_mode worker_status
deep_of env modified_at ping = record {
  engine = engine_status env ping;
  engine_mode = if demo_mode env then text "mock" else engine_mode env;
  worker = worker_status env modified_at;
}

unfoldable pub healthz : Env → Bool → Option ℕ → Ping → Bool → Health
unfolding engine_status deep_of
healthz env false modified_at ping deep = record {
  status_code = 503;
  is_healthy = false;
  deep = none;
}
healthz env true modified_at ping false = record {
  status_code = 200;
  is_healthy = true;
  deep = none;
}
healthz env true modified_at ping true =
    if is_unreachable (engine_status env ping)
    then record {
      status_code = 503;
      is_healthy = false;
      deep = some (deep_of env modified_at ping);
    }
    else record { status_code = 200; is_healthy = true; deep = some (deep_of env modified_at ping) }
