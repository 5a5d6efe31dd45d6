-- ===== src/Control/Workload/Running/Verdict.antt =====
-- The verdict on a workload that runs, from the phases of its nodes.
use naglfar.Prelude.{
  ℕ, suc, ◌+◌, ◌≤◌, Bool, true, false, List, [], ◌∷◌, Str, length, All, ok, ◌==◌, if◌then◌else◌,
  ◌≡◌, ◌↔◌, ◌⊎◌, inl, inr, refl, sym, ap, subst, ◌∙◌, ok-injective, arith,
}
use naglfar.Control.Calls.{Env, Log, Event, write_workload_status, commit}
use naglfar.Control.Effects.Inversion.{bind-eq-ok}
use naglfar.Control.Effects.{◌>>=◌, ◌>>◌, pure, lift, Result, after}
use naglfar.Control.Workload.Running.{
  Tally, no_change, one_more, observe, tally_node, tally_items, node_of_item, state_after,
  after_tally, write_tally, reconcile_running,
}
use naglfar.Resource.{TestResource, ResourceState, ResourcePhase, ResourcePhase-discrete}
use naglfar.Topology.Components.{deep_equal, deep_equal_iff}
use naglfar.Workload.{TestWorkload, TestWorkloadItemSpec, TestWorkloadState}

-- The phases of the nodes that a run reads, item by item.
pub data Reads (env : Env) (ns : Str)
    : List TestWorkloadItemSpec → Log → List ResourcePhase → Log → Type 0 where
  none_left : {log : Log} → Reads env ns [] log [] log
  next :
      {item : TestWorkloadItemSpec} {items : List TestWorkloadItemSpec} {log mid last : Log}
      {node : TestResource} {phases : List ResourcePhase}
      → node_of_item ns item env log ≡ (ok node, mid)
      → Reads env ns items mid phases last
      → Reads env ns (item ∷ items) log (node.status.phase ∷ phases) last

count : ResourcePhase → List ResourcePhase → ℕ
unfolding one_more
count phase [] = 0
count phase (p ∷ phases) = one_more (deep_equal ResourcePhase-discrete p phase) + count phase phases

abbrev pub HasSucceeded : ResourcePhase → Type 0
HasSucceeded phase = phase ≡ ResourcePhase.succeeded

abbrev pub IsDone : ResourcePhase → Type 0
IsDone phase = (phase ≡ ResourcePhase.succeeded) ⊎ (phase ≡ ResourcePhase.failed)

module _ (p : ResourcePhase) (phases : List ResourcePhase) where
  count_one :
      one_more (deep_equal ResourcePhase-discrete p ResourcePhase.succeeded)
        + one_more (deep_equal ResourcePhase-discrete p ResourcePhase.failed)
      ≤ 1
  unfolding one_more
  count_one = ground (
    arith,
    deep_equal_iff ResourcePhase-discrete p ResourcePhase.succeeded,
    deep_equal_iff ResourcePhase-discrete p ResourcePhase.failed,
  )

count-bound :
    (phases : List ResourcePhase)
    → count ResourcePhase.succeeded phases + count ResourcePhase.failed phases ≤ length phases
unfolding count
count-bound [] = omega arith
count-bound (p ∷ phases) = omega (arith, count_one p phases, count-bound phases)

All-HasSucceeded_iff :
    (phases : List ResourcePhase)
    → (count ResourcePhase.succeeded phases ≡ length phases) ↔ All HasSucceeded phases
unfolding count one_more
All-HasSucceeded_iff [] = ground arith
All-HasSucceeded_iff (p ∷ phases) = ground (
  arith,
  deep_equal_iff ResourcePhase-discrete p ResourcePhase.succeeded,
  count-bound phases,
  All-HasSucceeded_iff phases,
)

All-IsDone_iff :
    (phases : List ResourcePhase)
    → (count ResourcePhase.succeeded phases + count ResourcePhase.failed phases ≡ length phases)
      ↔ All IsDone phases
unfolding count one_more
All-IsDone_iff [] = ground arith
All-IsDone_iff (p ∷ phases) = ground (
  arith,
  count_one p phases,
  deep_equal_iff ResourcePhase-discrete p ResourcePhase.succeeded,
  deep_equal_iff ResourcePhase-discrete p ResourcePhase.failed,
  count-bound phases,
  All-IsDone_iff phases,
)

-- The tally after the nodes with the given phases.
record Counted (before : Tally) (phases : List ResourcePhase) (tally : Tally) : Type 0 where
  of_succeeded : tally.succeeded ≡ before.succeeded + count ResourcePhase.succeeded phases
  of_failed : tally.failed ≡ before.failed + count ResourcePhase.failed phases

tally_node-eq-ok :
    (state : ResourceState) (name : Str) (phase : ResourcePhase) (before tally : Tally)
    → tally_node state name phase before ≡ ok tally
    → tally ≡ observe name phase before
unfolding tally_node
tally_node-eq-ok ResourceState.uninitialized name phase before tally h = cc
tally_node-eq-ok ResourceState.ready name phase before tally h = cc
tally_node-eq-ok ResourceState.finish name phase before tally h = cc
tally_node-eq-ok _ name phase before tally h = absurd cc

module _ (env : Env) (ns : Str) where
  tally_items-eq-ok :
      (items : List TestWorkloadItemSpec) (before tally : Tally) (log last : Log)
      → tally_items ns items before env log ≡ (ok tally, last)
      → (phases : List ResourcePhase) × Reads env ns items log phases last
        × (length phases ≡ length items)
        × Counted before phases tally
  unfolding tally_items count observe
  tally_items-eq-ok [] before tally log last h =
      let same = ap (λ t. t.succeeded) (ok-injective (ap (λ r. r.0) h)) in
      let same' = ap (λ t. t.failed) (ok-injective (ap (λ r. r.0) h)) in
      (
        [],
        subst (λ l. Reads env ns [] log [] l) (ap (λ r. r.1) h) none_left,
        refl,
        record { of_succeeded = omega arith; of_failed = omega arith },
      )
  tally_items-eq-ok (item ∷ items) before tally log last h =
      let (node, mid, read, rest) =
        bind-eq-ok (node_of_item ns item)
          (λ node.
            (lift (tally_node node.status.state item.name node.status.phase before) >>= λ next.
            tally_items ns items next))
          env log tally last h in
      let (middle, mid', counted, tail) =
        bind-eq-ok
          (lift {Env = Env} {Event = Event}
            (tally_node node.status.state item.name node.status.phase before))
          (λ next. tally_items ns items next) env mid tally last rest in
      let seen =
        tally_node-eq-ok node.status.state item.name node.status.phase before middle
          (ap (λ r. r.0) counted) in
      let (phases, reads, len, c) = tally_items-eq-ok items middle tally mid' last tail in
      let of_first = ap (λ t. t.succeeded) seen in
      let of_first' = ap (λ t. t.failed) seen in
      let a = c.of_succeeded in
      let b = c.of_failed in
      (
        node.status.phase ∷ phases,
        next read
            (subst (λ l. Reads env ns items l phases last) (sym (ap (λ r. r.1) counted)) reads),
        ap suc len,
        record { of_succeeded = omega arith; of_failed = omega arith },
      )

-- A workload that ran: with its nodes in these phases it is now in that state.
pub record Verdict (phases : List ResourcePhase) (state : TestWorkloadState) : Type 0 where
  pub succeeds : (state ≡ TestWorkloadState.succeeded) ↔ All HasSucceeded phases
  pub fails :
      (state ≡ TestWorkloadState.failed) ↔ ((¬ (All HasSucceeded phases)) × All IsDone phases)

state_after-Verdict :
    (workload : TestWorkload) (tally : Tally) (phases : List ResourcePhase)
    → workload.status.state ≡ TestWorkloadState.running
    → length phases ≡ length workload.spec.workloads
    → Counted (no_change workload.status.workload_status) phases tally
    → Verdict phases (after_tally workload tally).status.state
unfolding state_after after_tally no_change
state_after-Verdict workload tally phases running len c =
    let a = c.of_succeeded in
    let b = c.of_failed in
    record {
      succeeds = ground (arith, All-HasSucceeded_iff phases);
      fails = ground (arith, All-HasSucceeded_iff phases, All-IsDone_iff phases);
    }

abbrev pub Reported : List ResourcePhase → Log → Log → Type 0
Reported phases mid last =
    (last ≡ mid)
    ⊎ ((written : TestWorkload) × (last ≡ write_workload_status written ∷ mid)
        × Verdict phases written.status.state)

reported :
    (env : Env) (phases : List ResourcePhase) (written : TestWorkload) (mid last : Log) (r : Result)
    → Verdict phases written.status.state
    → (b : Bool)
    → (if b then pure (after 5) else (do commit (write_workload_status written); pure (after 5)))
        env mid
      ≡ (ok r, last)
    → Reported phases mid last
reported env phases written mid last r verdict true h = inl (sym (ap (λ x. x.1) h))
reported env phases written mid last r verdict false h =
    let (_, mid', wrote, tail) =
      bind-eq-ok (commit (write_workload_status written)) (λ _. pure (after 5)) env mid r last h in
    inr (written, sym (ap (λ x. x.1) wrote ∙ ap (λ x. x.1) tail), verdict)

-- A run of the controller on a running workload that ends well has read the phase of each of its nodes, in
-- order, and then wrote nothing or, as its last call, a status: succeeded exactly when all these
-- phases are succeeded, and failed exactly when all are succeeded or failed and not all succeeded.
pub reconcile_running-Reported :
    (w : TestWorkload) (env : Env) (log : Log) (r : Result) (last : Log)
    → w.status.state ≡ TestWorkloadState.running
    → reconcile_running w env log ≡ (ok r, last)
    → (phases : List ResourcePhase) × (mid : Log) × Reads env w.meta.namespace w.spec.workloads log
        phases mid
      × Reported phases mid last
unfolding reconcile_running write_tally
reconcile_running-Reported w env log r last running h =
    let (tally, mid, counted, rest) =
      bind-eq-ok
        (tally_items w.meta.namespace w.spec.workloads (no_change w.status.workload_status))
        (write_tally w) env log r last h in
    let (phases, reads, len, c) =
      tally_items-eq-ok env w.meta.namespace w.spec.workloads (no_change w.status.workload_status)
        tally log mid counted in
    (
      phases,
      mid,
      reads,
      reported env phases (after_tally w tally) mid last r
          (state_after-Verdict w tally phases running len c) (tally.changed == 0) rest,
    )
