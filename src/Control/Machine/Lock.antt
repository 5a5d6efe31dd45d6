-- ===== src/Control/Machine/Lock.antt =====
-- The start of a machine in controllers/machine_controller.go, and its lock.
use naglfar.Prelude.{ℕ, ◌∷◌, some, Str, ok, lookup, ◌≡◌}
use naglfar.Prelude.Int.{ℤ}
use naglfar.Container.{Container, locker_label, chaos_daemon, chaos_daemon_image, chaos_daemon_cfg}
use naglfar.Control.Calls.{Env, Log, Prog, write_machine_status}
use naglfar.Control.Docker.{run}
use naglfar.Machine.{Machine, MachineInfo, MachineState}
use naglfar.Relationship.{Nillable, entries}
use naglfar.Resource.{PullImagePolicy}
use naglfar.Util.Bytes.{Units}

-- The label of the container is the UID of the machine.
abbrev pub IsLockOf : Machine → Container → Type 0
IsLockOf machine stat =
    (labels : Nillable Str) × (stat.labels ≡ some labels)
    × (lookup locker_label (entries labels) ≡ some machine.meta.uid)

module _ (units : Units) (fuel : ℕ) (machine : Machine) where
  abbrev daemon : Prog Container
  daemon =
      run fuel chaos_daemon chaos_daemon_image PullImagePolicy.unset
        (chaos_daemon_cfg machine.meta.uid)

  abbrev made_ready : ℤ → MachineInfo → Machine
  made_ready port info = record machine {
    status = record machine.status {
      chaos_port = port;
      info = some info;
      state = MachineState.ready;
    };
  }

  -- What a start that succeeds has read and written.
  pub record Started (env : Env) (last : Log) : Type 0 where
    pub stat : Container
    pub info : MachineInfo
    pub port : ℤ
    pub before : Log
    pub looked : Log
    pub rest : Log
    pub daemon_eq : daemon env before ≡ (ok stat, looked)
    pub lock : IsLockOf machine stat
    pub written : last ≡ write_machine_status (made_ready port info) ∷ rest
