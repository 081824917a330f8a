-- ===== src/Controller/Cluster/Passes.antt =====
-- The passes over a cluster in memory, from the empty one on.
use valkeycluster_operator.Prelude.{
  ℕ, zero, suc, ◌≤◌, ◌<◌, ◌≡◌, refl, ap, ◌∙◌, ⊤, Bool, true, false, arith, inl, inr,
}
use valkeycluster_operator.Exec.{Exec, ok, pure, ◌>>◌, Result-cases}
use valkeycluster_operator.Text.{Text}
use valkeycluster_operator.Api.{ValkeyCluster, Phase, ready, forming}
use valkeycluster_operator.Topology.{decide, no_action, form}
use valkeycluster_operator.Topology.Precedence.{forms, decide_iff}
use valkeycluster_operator.Cluster.{total_slots, ClusterState}
use valkeycluster_operator.Cluster.Fake.{Fake, new_fake, state}
use valkeycluster_operator.Controller.{Kube}
use valkeycluster_operator.Controller.View.{summarize}
use valkeycluster_operator.Controller.View.Summary.{decide-summarize}
use valkeycluster_operator.Controller.Status.{
  rewrite_status, publish, enter_phase, update_status, set_phase,
}
use valkeycluster_operator.Controller.Status.Truth.{publish_ready}
use valkeycluster_operator.Controller.Status.Formed.{here-IsAllReady}
use valkeycluster_operator.Controller.Scaling.{has_excess_shard_stateful_sets}
use valkeycluster_operator.Controller.Cluster.{
  desired_of, keeps_plan, is_progress, choose_plan, act, reconcile_cluster,
}
use valkeycluster_operator.Controller.Cluster.Form.{in_memory}
use valkeycluster_operator.Controller.Cluster.Converges.{form_cluster_runs, formed_fake-IsSettled}
use valkeycluster_operator.Controller.Cluster.Pods.{pods, pods-In}
use valkeycluster_operator.Controller.Cluster.Hosts.{excess_none}
use valkeycluster_operator.Controller.Cluster.Stays.{Aside, here, indexes_lem, membership_still}

pub then_still :
    {W : Type 0} (m : Exec W ⊤) (b : Bool) (w : W) → (m w).1 ≡ w → ((m >> pure b) w).1 ≡ w
then_still m b w h = elim (Result-cases (m w).0) [
  | inr (e, failed) ↦ ground arith
  | inl (_, done) ↦ ground arith
]

module _ (k : Kube Fake) (cr : ValkeyCluster) where
  -- the cluster after `n` passes, whether they succeed or not
  abbrev pub passes : ℕ → Fake → Fake
  passes zero f = f
  passes (suc n) f = passes n (reconcile_cluster (in_memory k cr) cr f).1

module _ (k : Kube Fake) (cr : ValkeyCluster) (some_shard : 0 < cr.spec.shards)
    (few : cr.spec.shards ≤ total_slots) (laws : Aside k cr) where
  abbrev formed : Fake
  formed = here k cr some_shard few laws

  rewrite_still :
      (change : ℕ → ValkeyCluster → ValkeyCluster) (f : Fake)
      → (rewrite_status (in_memory k cr) change f).1 ≡ f
  unfolding rewrite_status
  rewrite_still change f =
      laws.retrying _
        (λ g. elim (Result-cases (k.get_cluster g).0) [
          | inr (e, failed) ↦ ground (arith, laws.getting g)
          | inl (latest, got) ↦ ground (
            arith,
            laws.getting g,
            laws.updating (change (k.now (k.get_cluster g).1) latest) (k.get_cluster g).1,
          )
        ])
        f

  pub set_phase_still :
      (ph : Phase) (reason message : Text) (f : Fake)
      → (set_phase (in_memory k cr) ph reason message f).1 ≡ f
  unfolding set_phase
  set_phase_still ph reason message f = rewrite_still (λ now. enter_phase now ph reason message) f

  pub update_status_still :
      (s : ClusterState) (f : Fake) → (update_status (in_memory k cr) cr s f).1 ≡ f
  unfolding update_status
  update_status_still s f = rewrite_still (λ now. publish now cr s) f

  decides_form : (decide (desired_of cr) (summarize (state new_fake))).kind ≡ form
  decides_form =
      (decide_iff (desired_of cr) (summarize (state new_fake)) form).1
        (forms (unfold summarize state in refl))

  choose_form :
      choose_plan (in_memory k cr) cr (state new_fake) new_fake
      ≡ (ok (decide (desired_of cr) (summarize (state new_fake))), new_fake)
  unfolding choose_plan keeps_plan
  choose_form = ground (arith, decides_form)

  act_forms : (act (in_memory k cr) cr (state new_fake) form new_fake) ≡ (ok tt, formed)
  unfolding act
  act_forms = rw (set_phase_still forming _ _ new_fake) (form_cluster_runs k cr some_shard few)

  first_pass :
      reconcile_cluster (in_memory k cr) cr new_fake
      ≡ (update_status (in_memory k cr) cr (state formed) >> pure true) formed
  unfolding reconcile_cluster is_progress
  first_pass = rw (choose_form, decides_form, act_forms) refl

  decides_nothing : (decide (desired_of cr) (summarize (state formed))).kind ≡ no_action
  decides_nothing =
      (decide-summarize (desired_of cr) (state formed)).1
        (formed_fake-IsSettled k cr some_shard few)

  pub excess_lem : (f : Fake) → has_excess_shard_stateful_sets (in_memory k cr) cr f ≡ (ok false, f)
  unfolding has_excess_shard_stateful_sets
  excess_lem f = ground (arith, indexes_lem k cr some_shard few laws f, excess_none cr)

  choose_rest :
      choose_plan (in_memory k cr) cr (state formed) formed
      ≡ (ok (decide (desired_of cr) (summarize (state formed))), formed)
  unfolding choose_plan keeps_plan
  choose_rest = ground (arith, decides_nothing, excess_lem formed)

  later_pass :
      reconcile_cluster (in_memory k cr) cr formed
      ≡ (update_status (in_memory k cr) cr (state formed) >> pure false) formed
  unfolding reconcile_cluster act is_progress
  later_pass = rw (choose_rest, decides_nothing, membership_still k cr some_shard few laws) refl

  publish_still :
      (b : Bool) → ((update_status (in_memory k cr) cr (state formed) >> pure b) formed).1 ≡ formed
  publish_still b =
      then_still (update_status (in_memory k cr) cr (state formed)) b formed
        (update_status_still (state formed) formed)

  passes_formed : (n : ℕ) → passes k cr n formed ≡ formed
  passes_formed zero = refl
  passes_formed (suc n) =
      ap (passes k cr n) (ap (λ t. t.1) later_pass ∙ publish_still false) ∙ passes_formed n

  all_passes : (n : ℕ) → passes k cr (suc n) new_fake ≡ formed
  all_passes n =
      ap (passes k cr n) (ap (λ t. t.1) first_pass ∙ publish_still true) ∙ passes_formed n

  -- For at least one shard and at most 16384, where the StatefulSets that are listed are those of the
  -- declared shards: from an empty cluster in memory, after one pass and after every further one,
  -- whether their writes of the status succeed or not, `Decide` finds nothing to do, the status that
  -- is published is `Ready`, and the next pass does nothing but publish the status.
  pub passes_converge :
      (n : ℕ)
      → let f = passes k cr (suc n) new_fake in
        ((decide (desired_of cr) (summarize (state f))).kind ≡ no_action)
        × ((now : ℕ) (latest : ValkeyCluster)
            → (publish now cr (state f) latest).status.phase ≡ ready)
        × (reconcile_cluster (in_memory k cr) cr f
            ≡ (update_status (in_memory k cr) cr (state f) >> pure false) f)
  passes_converge n = rw (all_passes n) (
    decides_nothing,
    (λ now latest. (publish_ready now cr (state formed) latest).1 (
        here-IsAllReady k cr some_shard few (pods cr) (pods-In cr)
          (formed_fake-IsSettled k cr some_shard few))),
    later_pass,
  )
