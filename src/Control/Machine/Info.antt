-- ===== src/Control/Machine/Info.antt =====
-- makeMachineInfo of controllers/machine_controller.go: sizes are read and printed again.
use naglfar.Prelude.{
  [], ◌∷◌, Option, none, some, codes, Map, Outcome, ok, err, failure, ◌>>=◌, deref,
}
use naglfar.Machine.{MachineInfo, StorageDevice}
use naglfar.Util.Bytes.{Units, BytesSize}

module _ (units : Units) where
  open units use {ram_in_bytes, bytes_size}

  -- A size that cannot be read is an error here, and no panic.
  normal_size : BytesSize → Outcome BytesSize
  normal_size size = elim (ram_in_bytes size) [
    | none ↦ err (failure (codes "invalid size"))
    | some n ↦ ok (bytes_size n)
  ]

  normal_device : StorageDevice → Outcome StorageDevice
  unfolding normal_size
  normal_device device = do
    total ← normal_size device.total
    used ← normal_size device.used
    ok (record device { total = total; used = used })

  normal_devices : Map StorageDevice → Outcome (Map StorageDevice)
  unfolding normal_device
  normal_devices [] = ok []
  normal_devices ((path, device) ∷ devices) = do
    device' ← normal_device device
    rest ← normal_devices devices
    ok ((path, device') ∷ rest)

  -- A nil pointer panics.
  unfoldable pub make_machine_info : Option MachineInfo → Outcome MachineInfo
  unfolding normal_size normal_devices
  make_machine_info raw_info = do
    info ← deref raw_info
    memory ← normal_size info.memory
    devices ← normal_devices info.storage_devices
    ok (record info { memory = memory; storage_devices = devices })
