-- ===== src/Control/Docker.antt =====
-- pkg/docker-util: MakeClient, PullImageByPolicy, Run and JustExec.
pub mod Ends
pub mod Quiet
use naglfar.Prelude.{
  ℕ, zero, suc, Bool, true, false, List, Option, none, some, Str, codes, Outcome, ok, err, panic,
  unfinished, Error, not_found, already_exists, failure, if◌then◌else◌, ◌==◌,
}
use naglfar.Prelude.Int.{ℤ, pos, negsuc}
use naglfar.Container.{Config, HostConfig, Container, time_is_zero}
use naglfar.Control.Calls.{
  Prog, Env, Log, Event, connect, image_inspect, image_pull, container_logs, inspect, remove,
  create, start, wait,
}
use naglfar.Control.Effects.{◌>>=◌, ◌>>◌, pure, lift, call, try}
use naglfar.Machine.{Machine}
use naglfar.Resource.{PullImagePolicy}

-- machine.DockerClient: TLS is not implemented.
unfoldable pub make_client : Machine → Prog (Unit {0})
make_client machine =
    if machine.spec.docker_tls
    then lift (err (failure (codes "docker tls is unimplemented")))
    else call (connect machine) (λ env log. env.new_client log machine)

pull : Str → Prog (Unit {0})
pull image = call (image_pull image) (λ env log. env.pull log image)

-- The image is there: it is pulled again only under the policy Always.
pull_present : PullImagePolicy → Str → Prog (Unit {0})
unfolding pull
pull_present PullImagePolicy.always image = pull image
pull_present policy image = pure tt

pull_found : PullImagePolicy → Str → Outcome (Unit {0}) → Prog (Unit {0})
unfolding pull pull_present
pull_found policy image (ok _) = pull_present policy image
pull_found policy image (err not_found) = pull image
pull_found policy image (err e) = lift (err e)
pull_found policy image panic = lift panic
pull_found policy image unfinished = lift unfinished

-- The reader of the pulled image is read to its end: part of the reply to the pull.
unfoldable pub pull_image_by_policy : Str → PullImagePolicy → Prog (Unit {0})
unfolding pull_found
pull_image_by_policy image policy = do
  found ← try (call (image_inspect image) (λ env log. env.image log image))
  pull_found policy image found

-- An empty policy is IfNotPresent.
or_if_not_present : PullImagePolicy → PullImagePolicy
or_if_not_present PullImagePolicy.unset = PullImagePolicy.if_not_present
or_if_not_present policy = policy

-- One round of the loop of `Run`: it creates the container if it is missing, starts it if it has
-- not been started, and looks again after each.
look_at : Prog Container → Str → Config × HostConfig → Outcome Container → Prog Container
look_at again name cfg (ok stat) =
    if time_is_zero stat.started_at then (start name >> again) else pure stat
look_at again name cfg (err not_found) = create name cfg >> again
look_at again name cfg (err e) = lift (err e)
look_at again name cfg panic = lift panic
look_at again name cfg unfinished = lift unfinished

-- The loop, on fuel.
run_loop : ℕ → Str → Config × HostConfig → Prog Container
unfolding look_at
run_loop zero name cfg = lift unfinished
run_loop (suc fuel) name cfg =
    let again = run_loop fuel name cfg in try (inspect name) >>= look_at again name cfg

unfoldable pub run : ℕ → Str → Str → PullImagePolicy → Config × HostConfig → Prog Container
unfolding pull_image_by_policy or_if_not_present run_loop
run fuel name image policy cfg =
    pull_image_by_policy image (or_if_not_present policy) >> run_loop fuel name cfg

exit_status : ℤ → Prog (Unit {0})
exit_status (pos zero) = pure tt
exit_status _ = lift (err (failure (codes "container exit")))

unfoldable pub just_exec : ℕ → Str → Str → PullImagePolicy → Config × HostConfig → Prog Str
unfolding run exit_status
just_exec fuel name image policy cfg = do
  stat ← run fuel name image policy cfg
  exit_code ← wait stat.id
  exit_status exit_code
  stdout ← call (container_logs stat.name) (λ env log. env.logs log stat.name)
  remove stat.id
  pure stdout
