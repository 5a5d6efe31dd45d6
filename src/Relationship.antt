-- ===== src/Relationship.antt =====
-- api/v1/relationship_types.go: which resource is bound to which machine, and with what.
pub mod Lookups
use naglfar.Prelude.{
  ℕ, Bool, true, false, List, [], ◌∷◌, Option, none, some, Str, Map, Outcome, ok, panic, lookup,
  insert, delete, length, if◌then◌else◌,
}
use naglfar.Machine.{DiskKind}
use naglfar.Ref.{Ref, ref_eq}
use naglfar.Util.Bytes.{BytesSize}

pub record DiskBinding : Type 0 where
  pub kind : DiskKind
  pub size : BytesSize
  pub device : Str
  pub origin_path : Str
  pub mount_path : Str

pub record ResourceBinding : Type 0 where
  pub memory : BytesSize
  pub cpu_set : List ℕ
  pub disks : Map DiskBinding

-- The zero value of the struct.
abbrev pub no_binding : ResourceBinding
no_binding = record { memory = []; cpu_set = []; disks = [] }

pub record MachineRef : Type 0 where
  pub ref : Ref
  pub binding : ResourceBinding

pub record ResourceRef : Type 0 where
  pub ref : Ref
  pub binding : ResourceBinding

abbrev pub ResourceRefList : Type 0
ResourceRefList = List ResourceRef

unfoldable pub clone : ResourceRefList → ResourceRefList
clone [] = []
clone (ref ∷ r) = ref ∷ clone r

abbrev pub AcceptResources : Type 0
AcceptResources = List Ref

unfoldable pub if_exist : AcceptResources → Ref → Bool
if_exist [] r = false
if_exist (item ∷ a) r = if ref_eq item r then true else if_exist a r

unfoldable pub remove : AcceptResources → Ref → AcceptResources
remove [] r = []
remove (item ∷ a) r = let rest = remove a r in if ref_eq item r then rest else item ∷ rest

-- `none` is the nil map. To read it gives nothing, to delete from it does nothing, and to assign to
-- it panics.
abbrev pub Nillable {ℓ} : Type ℓ → Type ℓ
Nillable V = Option (Map V)

module _ {ℓ} {V : Type ℓ} where
  unfoldable pub entries : Nillable V → Map V
  entries none = []
  entries (some m) = m

  unfoldable pub assign : Str → V → Nillable V → Outcome (Nillable V)
  assign k v none = panic
  assign k v (some m) = ok (some (insert k v m))

  unfoldable pub discard : Str → Nillable V → Nillable V
  discard k none = none
  discard k (some m) = some (delete k m)

-- `accepted_requests` is nil or a list, like the maps.
pub record RelationshipStatus : Type 0 where
  pub machine_to_resources : Nillable ResourceRefList
  pub resource_to_machine : Nillable MachineRef
  pub accepted_requests : Option AcceptResources
  pub machine_locks : Nillable Ref

-- m[k], where a missing list is the empty one.
or_empty : Option ResourceRefList → ResourceRefList
or_empty none = []
or_empty (some l) = l

unfoldable pub resources_of : RelationshipStatus → Str → ResourceRefList
unfolding or_empty
resources_of rel machine = or_empty (lookup machine (entries rel.machine_to_resources))

unfoldable pub accepted : RelationshipStatus → AcceptResources
accepted rel = elim rel.accepted_requests [ none ↦ [] | some a ↦ a ]
