-- ===== src/Control/Docker/Ends.antt =====
-- When the loop of Run in pkg/docker-util/run.go ends.
use naglfar.Prelude.{false, Str, ok, err, unfinished, not_found, ◌≡◌, ◌≢◌, In}
use naglfar.Container.{Container, Config, HostConfig, time_is_zero}
use naglfar.Control.Calls.{Env, Log, Prog, container_start, container_create}
use naglfar.Control.Docker.{pull}

-- What Docker documents: calls return; a container that was created is found; and one that was
-- started has a time of its start.
pub record Obeys (env : Env) (name : Str) (cfg : Config × HostConfig) : Type 0 where
  pub images : (log : Log) (image : Str) → env.image log image ≢ unfinished
  pub pulls : (log : Log) (image : Str) → env.pull log image ≢ unfinished
  pub inspects : (log : Log) → env.container log name ≢ unfinished
  pub starts : (log : Log) → env.start_container log name ≢ unfinished
  pub creates : (log : Log) → env.create_container log name cfg.0 cfg.1 ≢ unfinished
  pub found :
      (log : Log)
      → In (container_create name cfg.0 cfg.1) log
      → env.container log name ≢ err not_found
  pub started :
      (log : Log) (stat : Container)
      → In (container_start name) log
      → env.container log name ≡ ok stat
      → time_is_zero stat.started_at ≡ false

module _ (env : Env) (name : Str) (cfg : Config × HostConfig) (obeys : Obeys env name cfg) where
  abbrev Ends : Prog Container → Log → Type 0
  Ends m log = (m env log).0 ≢ unfinished
