-- ===== src/Control/Topology/Ports/Loops.antt =====
-- What each loop of indexResourceExposedPorts in controllers/testclustertopology_controller.go adds.
use naglfar.Prelude.{
  true, List, [], ◌∷◌, ◌++◌, Str, codes, str_eq_refl, str_eq_iff, lookup, insert, lookup-insert,
  has_key, All, All-map, ◌≡◌, refl, arith,
}
use naglfar.Prelude.Int.{ℤ}
use naglfar.Control.Topology.Ports.{
  Ports, add, set_of, add_port, tcp, add_servers, add_all_ports, add_tiflash, no_ports, with_ssh,
}
use naglfar.Resource.{TestResource}
use naglfar.Tiup.Specification.{TiFlashServer}
use naglfar.Util.{strings_contains}

strings_contains-append :
    (s t : List Str) (p : Str) → strings_contains s p ≡ true → strings_contains (s ++ t) p ≡ true
unfolding strings_contains
strings_contains-append [] t p h = absurd (ground arith)
strings_contains-append (q ∷ s) t p h = let rest = strings_contains-append s t p in ground arith

strings_contains-last : (s : List Str) (p : Str) → strings_contains (s ++ (p ∷ [])) p ≡ true
unfolding strings_contains
strings_contains-last [] p = rw (str_eq_refl p) refl
strings_contains-last (q ∷ s) p = let rest = strings_contains-last s p in ground arith

add-keeps :
    (s : List Str) (e p : Str) → strings_contains s p ≡ true → strings_contains (add s e) p ≡ true
unfolding add
add-keeps s e p h = let more = strings_contains-append s (e ∷ []) p h in ground arith

add_lem : (s : List Str) (e : Str) → strings_contains (add s e) e ≡ true
unfolding add
add_lem s e = let last = strings_contains-last s e in ground arith

-- The host is exposed with this port.
abbrev pub Exposes : Ports → Str → Str → Type 0
Exposes ports host port = strings_contains (set_of (lookup host ports)) port ≡ true

-- Nothing that the first map exposes is missing from the second, nor is a host.
pub record Extends (old new : Ports) : Type 0 where
  pub exposes : (host port : Str) → Exposes old host port → Exposes new host port
  pub knows : (host : Str) → has_key host old ≡ true → has_key host new ≡ true

Extends-refl : (ports : Ports) → Extends ports ports
Extends-refl ports = record { exposes = λ host port h. h; knows = λ host h. h }

pub Extends-trans : (a b c : Ports) → Extends a b → Extends b c → Extends a c
Extends-trans a b c ab bc = record {
  exposes = λ host port h. bc.exposes host port (ab.exposes host port h);
  knows = λ host h. bc.knows host (ab.knows host h);
}

add_port-Extends : (ports : Ports) (host port : Str) → Extends ports (add_port ports host port)
unfolding add_port set_of
add_port-Extends ports host port = record {
  exposes = λ other p h.
      let kept = add-keeps (set_of (lookup host ports)) port p in
      let found = lookup-insert host other (add (set_of (lookup host ports)) port) ports in
      ground (arith, str_eq_iff host other);
  knows = λ other h.
      let found = lookup-insert host other (add (set_of (lookup host ports)) port) ports in
      ground arith;
}

add_port-Exposes : (ports : Ports) (host port : Str) → Exposes (add_port ports host port) host port
unfolding add_port set_of
add_port-Exposes ports host port =
    rw (lookup-insert host host (add (set_of (lookup host ports)) port) ports, str_eq_refl host)
      (add_lem (set_of (lookup host ports)) port)

module _ {A : Type 0} (host : A → Str) (port : A → ℤ) where
  pub add_servers-Extends :
      (items : List A) (ports : Ports) → Extends ports (add_servers host port items ports)
  unfolding add_servers
  add_servers-Extends [] ports = Extends-refl ports
  add_servers-Extends (item ∷ items) ports =
      let next = add_port ports (host item) (tcp (port item)) in
      Extends-trans ports next (add_servers host port items next)
        (add_port-Extends ports (host item) (tcp (port item))) (add_servers-Extends items next)

  -- Each server has its port after the loop.
  pub add_servers-Exposes :
      (items : List A) (ports : Ports)
      → All
          (λ item. Exposes (add_servers host port items ports) (host item) (tcp (port item)))
          items
  unfolding add_servers
  add_servers-Exposes [] ports = tt
  add_servers-Exposes (item ∷ items) ports =
      let next = add_port ports (host item) (tcp (port item)) in
      (
        (add_servers-Extends items next).exposes (host item) (tcp (port item))
            (add_port-Exposes ports (host item) (tcp (port item))),
        add_servers-Exposes items next,
      )

add_all_ports-Extends :
    (host : Str) (ports : List ℤ) (old : Ports) → Extends old (add_all_ports host ports old)
unfolding add_all_ports
add_all_ports-Extends host [] old = Extends-refl old
add_all_ports-Extends host (port ∷ ports) old =
    let next = add_port old host (tcp port) in
    Extends-trans old next (add_all_ports host ports next) (add_port-Extends old host (tcp port))
      (add_all_ports-Extends host ports next)

add_all_ports-Exposes :
    (host : Str) (ports : List ℤ) (old : Ports)
    → All (λ port. Exposes (add_all_ports host ports old) host (tcp port)) ports
unfolding add_all_ports
add_all_ports-Exposes host [] old = tt
add_all_ports-Exposes host (port ∷ ports) old =
    let next = add_port old host (tcp port) in
    (
      (add_all_ports-Extends host ports next).exposes host (tcp port)
          (add_port-Exposes old host (tcp port)),
      add_all_ports-Exposes host ports next,
    )

abbrev pub tiflash_ports : TiFlashServer → List ℤ
tiflash_ports item =
    item.tcp_port ∷ item.http_port ∷ item.status_port ∷ item.flash_service_port
    ∷ item.flash_proxy_port ∷ item.flash_proxy_status_port ∷ []

pub add_tiflash-Extends :
    (items : List TiFlashServer) (old : Ports) → Extends old (add_tiflash items old)
unfolding add_tiflash
add_tiflash-Extends [] old = Extends-refl old
add_tiflash-Extends (item ∷ items) old =
    let next = add_all_ports item.host (tiflash_ports item) old in
    Extends-trans old next (add_tiflash items next)
      (add_all_ports-Extends item.host (tiflash_ports item) old) (add_tiflash-Extends items next)

pub add_tiflash-Exposes :
    (items : List TiFlashServer) (old : Ports)
    → All
        (λ item.
          All (λ port. Exposes (add_tiflash items old) item.host (tcp port)) (tiflash_ports item))
        items
unfolding add_tiflash
add_tiflash-Exposes [] old = tt
add_tiflash-Exposes (item ∷ items) old =
    let next = add_all_ports item.host (tiflash_ports item) old in
    (
      All-map (tiflash_ports item)
          (λ port h. (add_tiflash-Extends items next).exposes item.host (tcp port) h)
          (add_all_ports-Exposes item.host (tiflash_ports item) old),
      add_tiflash-Exposes items next,
    )

insert-knows :
    (host other : Str) (s : List Str) (old : Ports)
    → has_key other old ≡ true
    → has_key other (insert host s old) ≡ true
insert-knows host other s old h = let found = lookup-insert host other s old in ground arith

no_ports-keeps :
    (trs : List TestResource) (old : Ports) (host : Str)
    → has_key host old ≡ true
    → has_key host (no_ports trs old) ≡ true
unfolding no_ports
no_ports-keeps [] old host h = h
no_ports-keeps (tr ∷ trs) old host h =
    no_ports-keeps trs (insert tr.meta.name [] old) host (insert-knows tr.meta.name host [] old h)

pub no_ports-knows :
    (trs : List TestResource) (old : Ports)
    → All (λ tr. has_key tr.meta.name (no_ports trs old) ≡ true) trs
unfolding no_ports
no_ports-knows [] old = tt
no_ports-knows (tr ∷ trs) old =
    let own = lookup-insert tr.meta.name tr.meta.name [] old in
    let same = str_eq_refl tr.meta.name in
    (
      no_ports-keeps trs (insert tr.meta.name [] old) tr.meta.name (ground arith),
      no_ports-knows trs (insert tr.meta.name [] old),
    )

abbrev pub ssh : Str
ssh = codes "22/tcp"

pub with_ssh-Exposes :
    (ports : Ports) (host : Str) → has_key host ports ≡ true → Exposes (with_ssh ports) host ssh
unfolding with_ssh lookup set_of
with_ssh-Exposes [] host h = absurd (ground arith)
with_ssh-Exposes ((j, s) ∷ ports) host h =
    let rest = with_ssh-Exposes ports host in let here = add_lem s ssh in ground arith

pub with_ssh-keeps :
    (ports : Ports) (host port : Str) → Exposes ports host port → Exposes (with_ssh ports) host port
unfolding with_ssh lookup set_of
with_ssh-keeps [] host port h = h
with_ssh-keeps ((j, s) ∷ ports) host port h =
    let rest = with_ssh-keeps ports host port in let here = add-keeps s ssh port in ground arith
