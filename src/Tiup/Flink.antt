-- ===== src/Tiup/Flink.antt =====
-- pkg/flink/deploy.go: BuildSpecification.
use naglfar.Prelude.{
  Bool, List, [], ◌∷◌, Option, none, some, codes, lookup, Outcome, ok, err, panic, failure, ◌>>=◌,
}
use naglfar.Resource.{TestResource, TestResourceStatus}
use naglfar.Tiup.Build.{resource_maps, build_each, node_host}
use naglfar.Tiup.Specification.{SpecLib}
use naglfar.Topology.Components.{Slice, elems}
use naglfar.Topology.{FlinkCluster, TaskManagerSpec}

appended : {A : Type 0} → List A → Slice A
appended [] = none
appended (x ∷ xs) = some (x ∷ xs)

-- The text of the error without the specification of the job manager.
job_node : Option TestResourceStatus → Outcome TestResourceStatus
job_node none = err (failure (codes "jobManager node not found"))
job_node (some node) = ok node

module _ (lib : SpecLib) (dry_run : Bool) where
  task_manager : TaskManagerSpec → TestResourceStatus → Outcome TaskManagerSpec
  task_manager item node =
      ok (record { host = node_host lib dry_run item.host node; config = item.config })

  unfoldable pub build_flink_specification :
      Option FlinkCluster → List TestResource → Outcome FlinkCluster
  unfolding job_node task_manager appended
  build_flink_specification none trs = panic
  build_flink_specification (some c) trs = do
    job ← job_node (lookup c.job_manager.host (resource_maps trs))
    tasks ←
        build_each (resource_maps trs) (codes "taskManager") (λ t. t.host) task_manager
          (elems c.task_manager)
    ok (
        lib.set_flink_defaults (record {
          version = [];
          job_manager = record {
            host = node_host lib dry_run c.job_manager.host job;
            web_port = c.job_manager.web_port;
            config = c.job_manager.config;
          };
          task_manager = appended tasks;
        }))
