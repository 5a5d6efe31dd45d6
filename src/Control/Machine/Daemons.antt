-- ===== src/Control/Machine/Daemons.antt =====
-- The lock of a machine, which is its chaos daemon, and its upload daemon: tryLock, createUploadDaemon,
-- Unlock and deleteUploadDaemon, after Docker has answered.
use naglfar.Prelude.{
  Bool, false, not, ◌||◌, [], ◌∷◌, Option, none, some, Str, str_eq, codes, Outcome, ok, err, panic,
  unfinished, not_found, failure, lookup, ◌==◌, if◌then◌else◌,
}
use naglfar.Prelude.Int.{ℤ, pos}
use naglfar.Container.{
  Container, locker_label, chaos_daemon, chaos_daemon_port, upload_daemon, upload_port,
}
use naglfar.Control.Calls.{Prog, inspect, remove}
use naglfar.Control.Effects.{◌>>=◌, pure, lift, try}
use naglfar.Control.Relationship.{is_nil}
use naglfar.Machine.{Machine}
use naglfar.Relationship.{Nillable, entries}
use naglfar.Util.Atoi.{atoi}

unfoldable pub label_of : Nillable Str → Str → Option Str
label_of labels label = lookup label (entries labels)

-- The first host port of a port, if it is bound.
unfoldable pub first_port : Container → Str → Option Str
first_port stat port = elim (lookup port stat.ports) [
  | none ↦ none
  | some hosts ↦ elim hosts [ [] ↦ none | host ∷ rest ↦ some host ]
]

unfoldable pub chaos_port_of : Container → ℤ
unfolding first_port
chaos_port_of stat = elim (first_port stat chaos_daemon_port) [
  | none ↦ pos 0
  | some port ↦ (atoi port).0
]

unfoldable pub is_zero : ℤ → Bool
is_zero (pos n) = n == 0
is_zero (ℤ.negsuc n) = false

-- The container is the lock, and its label says whose it is. stat.Config may be nil, and is
-- dereferenced.
unfoldable pub check_lock : Machine → Container → Outcome ℤ
unfolding label_of chaos_port_of
check_lock machine stat = elim stat.labels [
  | none ↦ panic
  | some labels ↦ elim (label_of labels locker_label) [
    | none ↦ err (failure (codes "container has no label"))
    | some uid ↦
        if str_eq uid machine.meta.uid
        then ok (chaos_port_of stat)
        else err (failure (codes "machine locked by other naglfar system"))
  ]
]

-- The error of a missing configuration is overwritten where a port is found.
unfoldable pub check_upload : Container → Outcome ℤ
unfolding first_port is_zero
check_upload stat = elim (first_port stat upload_port) [
  | none ↦
      if is_nil stat.labels || not stat.has_host_config
      then err (failure (codes "invalid occupy container"))
      else panic
  | some host ↦
      if (atoi host).1
      then err (failure (codes "invalid port"))
      else (if is_zero (atoi host).0 then panic else ok (atoi host).0)
]

-- The lock is released if the configuration or the labels are nil, or the label is another's; a
-- missing label reads as the empty string.
unfoldable pub is_own_lock : Machine → Container → Bool
unfolding label_of
is_own_lock machine stat = elim stat.labels [
  | none ↦ false
  | some labels ↦ elim labels [
    | none ↦ false
    | some m ↦ elim (label_of (some m) locker_label) [
      | none ↦ str_eq [] machine.meta.uid
      | some uid ↦ str_eq uid machine.meta.uid
    ]
  ]
]

unfoldable pub unlock_found : Machine → Outcome Container → Prog (Unit {0})
unfolding is_own_lock
unlock_found machine (ok stat) = if is_own_lock machine stat then remove chaos_daemon else pure tt
unlock_found machine (err not_found) = pure tt
unlock_found machine (err e) = lift (err e)
unlock_found machine panic = lift panic
unlock_found machine unfinished = lift unfinished

unfoldable pub unlock : Machine → Prog (Unit {0})
unfolding unlock_found
unlock machine = do found ← try (inspect chaos_daemon); unlock_found machine found

unfoldable pub delete_found : Outcome Container → Prog (Unit {0})
delete_found (ok stat) =
    if is_nil stat.labels || not stat.has_host_config then pure tt else remove upload_daemon
delete_found (err not_found) = pure tt
delete_found (err e) = lift (err e)
delete_found panic = lift panic
delete_found unfinished = lift unfinished

unfoldable pub delete_upload_daemon : Prog (Unit {0})
unfolding delete_found
delete_upload_daemon = do found ← try (inspect upload_daemon); delete_found found
