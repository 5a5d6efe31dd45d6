-- ===== src/Control/Resource/Status.antt =====
-- What the status of a resource becomes when its container runs or has ended.
use naglfar.Prelude.{
  zero, List, [], ◌∷◌, ◌++◌, Option, none, some, Str, codes, Map, Outcome, ok, err, panic, failure,
  ◌>>=◌, lookup, if◌then◌else◌,
}
use naglfar.Prelude.Int.{ℤ, pos}
use naglfar.Container.{Container, time_is_zero}
use naglfar.Resource.{TestResource, ResourceState, ResourcePhase}
use naglfar.Util.Atoi.{atoi}

abbrev pub cluster_network : Str
cluster_network = codes "naglfar-overlay"

phase_of_exit : ℤ → ResourcePhase
phase_of_exit (pos zero) = ResourcePhase.succeeded
phase_of_exit _ = ResourcePhase.failed

-- A container that has ended.
unfoldable pub finished : TestResource → Container → TestResource
unfolding phase_of_exit
finished resource stats = if time_is_zero stats.finished_at then resource else record resource {
  status = record resource.status {
    state = ResourceState.finish;
    exit_code = stats.exit_code;
    phase = phase_of_exit stats.exit_code;
  };
}

-- hostPorts[0] panics where a port has none.
pub port_bindings : Map (List Str) → Str → Outcome Str
port_bindings [] bindings = ok bindings
port_bindings ((port, []) ∷ ports) bindings = panic
port_bindings ((port, host ∷ hosts) ∷ ports) [] = port_bindings ports (port ++ (b':' ∷ host))
port_bindings ((port, host ∷ hosts) ∷ ports) (c ∷ bindings) =
    port_bindings ports ((c ∷ bindings) ++ (b',' ∷ (port ++ (b':' ∷ host))))

ssh_port_of : Option (List Str) → ℤ → ℤ
ssh_port_of none old = old
ssh_port_of (some []) old = old
ssh_port_of (some (host ∷ hosts)) old = (atoi host).0

-- The status of a container that stays running.
unfoldable pub connected : TestResource → Container → Option Str → Outcome TestResource
unfolding port_bindings ssh_port_of
connected resource stats none = err (failure (codes "network configuration error"))
connected resource stats (some ip) = do
  bindings ← port_bindings stats.ports resource.status.port_bindings
  ok (record resource {
    status = record resource.status {
      container = record resource.status.container { cluster_ip = ip };
      state = ResourceState.ready;
      ssh_port = ssh_port_of (lookup (codes "22/tcp") stats.ports) resource.status.ssh_port;
      port_bindings = bindings;
    };
  })
