-- ===== src/Control/Docker/Quiet.antt =====
-- The calls of the programs of pkg/docker-util.
use naglfar.Prelude.{ℕ, zero, suc, Str, Outcome, ok, err, panic, unfinished, not_found}
use naglfar.Prelude.Int.{ℤ, pos}
use naglfar.Container.{Config, HostConfig, Container}
use naglfar.Control.Calls.{
  Prog, Event, connect, image_inspect, image_pull, container_inspect, container_start,
  container_wait, container_logs, container_remove, container_create, network_connect,
}
use naglfar.Control.Docker.{
  make_client, pull, pull_present, pull_found, pull_image_by_policy, look_at, run_loop, run,
  exit_status, just_exec,
}
use naglfar.Control.Effects.Emits.{Emits, emits_rules}
use naglfar.Machine.{Machine}
use naglfar.Resource.{PullImagePolicy}

-- The property holds of every call of Docker.
pub record AllowsDocker (P : Event → Type 0) : Type 0 where
  pub connects : (m : Machine) → P (connect m)
  pub image_inspects : (s : Str) → P (image_inspect s)
  pub image_pulls : (s : Str) → P (image_pull s)
  pub inspects : (s : Str) → P (container_inspect s)
  pub starts : (s : Str) → P (container_start s)
  pub waits : (s : Str) → P (container_wait s)
  pub reads_logs : (s : Str) → P (container_logs s)
  pub removes : (s : Str) → P (container_remove s)
  pub creates : (s : Str) (c : Config) (h : HostConfig) → P (container_create s c h)
  pub joins : (n s : Str) → P (network_connect n s)

module _ (P : Event → Type 0) (a : AllowsDocker P) where
  open a use {
    connects, image_inspects, image_pulls, inspects, starts, waits, reads_logs, removes, creates,
  }

  pub make_client-Emits : (machine : Machine) → Emits P (make_client machine)
  unfolding make_client
  make_client-Emits machine = search (emits_rules, connects)

  pull-Emits : (image : Str) → Emits P (pull image)
  unfolding pull
  pull-Emits image = search (emits_rules, image_pulls)

  pull_present-Emits :
      (policy : PullImagePolicy) (image : Str) → Emits P (pull_present policy image)
  unfolding pull_present
  pull_present-Emits PullImagePolicy.always image = pull-Emits image
  pull_present-Emits policy image = search emits_rules

  pull_found-Emits :
      (policy : PullImagePolicy) (image : Str) (o : Outcome (Unit {0}))
      → Emits P (pull_found policy image o)
  unfolding pull_found
  pull_found-Emits policy image (ok _) = pull_present-Emits policy image
  pull_found-Emits policy image (err not_found) = pull-Emits image
  pull_found-Emits policy image (err e) = search emits_rules
  pull_found-Emits policy image panic = search emits_rules
  pull_found-Emits policy image unfinished = search emits_rules

  pub pull_image-Emits :
      (image : Str) (policy : PullImagePolicy) → Emits P (pull_image_by_policy image policy)
  unfolding pull_image_by_policy
  pull_image-Emits image policy = search (emits_rules, image_inspects, pull_found-Emits)

  look_at-Emits :
      (again : Prog Container) (name : Str) (cfg : Config × HostConfig) (o : Outcome Container)
      → Emits P again
      → Emits P (look_at again name cfg o)
  unfolding look_at
  look_at-Emits again name cfg (ok stat) h = search (emits_rules, starts)
  look_at-Emits again name cfg (err not_found) h = search (emits_rules, creates)
  look_at-Emits again name cfg (err e) h = search emits_rules
  look_at-Emits again name cfg panic h = search emits_rules
  look_at-Emits again name cfg unfinished h = search emits_rules

  run_loop-Emits :
      (fuel : ℕ) (name : Str) (cfg : Config × HostConfig) → Emits P (run_loop fuel name cfg)
  unfolding run_loop
  run_loop-Emits zero name cfg = search emits_rules
  run_loop-Emits (suc fuel) name cfg =
      let h = run_loop-Emits fuel name cfg in search (emits_rules, inspects, look_at-Emits)

  pub run-Emits :
      (fuel : ℕ) (name image : Str) (policy : PullImagePolicy) (cfg : Config × HostConfig)
      → Emits P (run fuel name image policy cfg)
  unfolding run
  run-Emits fuel name image policy cfg = search (emits_rules, pull_image-Emits, run_loop-Emits)

  exit_status-Emits : (code : ℤ) → Emits P (exit_status code)
  unfolding exit_status
  exit_status-Emits (pos zero) = search emits_rules
  exit_status-Emits code = search emits_rules

  pub just_exec-Emits :
      (fuel : ℕ) (name image : Str) (policy : PullImagePolicy) (cfg : Config × HostConfig)
      → Emits P (just_exec fuel name image policy cfg)
  unfolding just_exec
  just_exec-Emits fuel name image policy cfg =
      search (emits_rules, run-Emits, waits, exit_status-Emits, reads_logs, removes) depth 8
