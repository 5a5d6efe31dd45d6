-- ===== src/Examples/Docker.antt =====
-- A Docker that knows one container: it is found once it was created, and runs once it was started.
use naglfar.Prelude.{[], ◌∷◌, codes, Outcome, ok, err, not_found}
use naglfar.Container.{Container}
use naglfar.Control.Calls.{Env, Log, container_start, container_create}
use naglfar.Examples.Controllers.{friendly, running_container}

abbrev fresh : Container
fresh = record running_container { started_at = codes "0001-01-01T00:00:00Z" }

abbrev or_fresh : Outcome Container → Outcome Container
or_fresh (ok stat) = ok stat
or_fresh _ = ok fresh

abbrev docker_at : Log → Outcome Container
docker_at [] = err not_found
docker_at (container_start name ∷ log) = ok running_container
docker_at (container_create name config host_config ∷ log) = or_fresh (docker_at log)
docker_at (_ ∷ log) = docker_at log

abbrev reacting : Env
reacting = record friendly { container = λ log name. docker_at log }
