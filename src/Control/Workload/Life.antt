-- ===== src/Control/Workload/Life.antt =====
-- The life of a workload under its controller.
use naglfar.Control.Effects.Emits.{Emits}
