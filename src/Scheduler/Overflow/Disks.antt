-- ===== src/Scheduler/Overflow/Disks.antt =====
-- Which devices resourceOverflow gives to the disks of a resource, and when it gives one twice.
use naglfar.Prelude.{
  true, [], ◌∷◌, some, Str, Map, ok, >>=-eq-ok, ◌≡◌, inl, inr, arith, In, Bool-cases,
}
use naglfar.Machine.{DiskResource}
use naglfar.Resource.{DiskSpec}
use naglfar.Scheduler.Overflow.{disk_fits, find_disk}
use naglfar.Util.Bytes.{Units}

module _ (units : Units) where
  find_disk-In :
      (disk : DiskSpec) (disks : Map DiskResource) (device : Str) (resource : DiskResource)
      → find_disk units disk disks ≡ ok (some (device, resource))
      → In (device, resource) disks × (disk_fits units disk resource ≡ ok true)
  unfolding find_disk
  find_disk-In disk [] device resource h = absurd (cc)
  find_disk-In disk ((d, r) ∷ disks) device resource h =
      let (fits, e, h1) = >>=-eq-ok (disk_fits units disk r) _ h in
      elim (Bool-cases fits) [
        | inl hit ↦ (inl (ground arith), ground arith)
        | inr miss ↦
            let (there, fitting) = find_disk-In disk disks device resource (ground arith) in
            (inr there, fitting)
      ]
