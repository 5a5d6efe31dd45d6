-- ===== src/Control/Topology/Prepared/Resources.antt =====
-- What initResource of controllers/testclustertopology_controller.go calls, whatever the replies are.
use naglfar.Control.Effects.Emits.{Emits}
use naglfar.Control.Topology.Ports.{Ports}
