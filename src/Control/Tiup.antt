-- ===== src/Control/Tiup.antt =====
-- pkg/tiup: the cluster managers, which run tiup on the control node of a cluster.
pub mod Words
pub mod Patch
pub mod Cluster
pub mod Dm
use naglfar.Prelude.{
  Bool, true, false, List, [], ◌∷◌, ◌++◌, Str, codes, Outcome, ok, err, panic, unfinished, Error,
  failure, if◌then◌else◌,
}
use naglfar.Control.Calls.{Prog, Event, CommandResult, connect_ssh, remote, send, copy_file}
use naglfar.Control.Effects.{◌>>=◌, ◌>>◌, pure, lift, try}
use naglfar.Control.Tiup.Words.{contains}
use naglfar.Resource.{TestResourceStatus}

-- sshUtil.NewSSHClient, then client.RunCommand
unfoldable pub run_on : TestResourceStatus → Str → Prog CommandResult
run_on control cmd = do connect_ssh control.host_ip control.ssh_port; remote cmd

-- A command that failed becomes an error, whose text has what was printed to stderr; the text of the
-- error of ssh, and stdout where the code adds it, are left out.
unfoldable pub checked : Str → CommandResult → Prog Str
checked message result =
    if result.failed then lift (err (failure (message ++ result.stderr))) else pure result.stdout

unfoldable pub run_checked : TestResourceStatus → Str → Str → Prog Str
unfolding run_on checked
run_checked control message cmd = do result ← run_on control cmd; checked message result

copied : Outcome (Unit {0}) → Prog (Unit {0})
copied (err e) = lift (err (failure (codes "error while copying file")))
copied o = lift o

-- The connection and the copy are one call.
unfoldable pub copy_to : TestResourceStatus → Str → Str → Prog (Unit {0})
unfolding copied
copy_to control path out = do r ← try (send (copy_file control.host_ip path out)); copied r

-- How a deployment or a removal ended: `repeated` is ErrClusterDuplicated or ErrClusterNotExist.
pub data Outcomes : Type 0 where
  well repeated : Outcomes

unfoldable pub unless_said : Str → Str → CommandResult → Prog Outcomes
unfolding contains
unless_said words message result =
    if result.failed
    then (if contains words result.stderr
        then pure repeated
        else lift (err (failure (message ++ result.stderr))))
    else pure well
