-- ===== src/Controller/Scaling.antt =====
-- internal/controller/scaling.go: adding and removing shards.
pub mod Fill
pub mod Production
pub mod Silent
pub mod Drain
use valkeycluster_operator.Prelude.{
  ℕ, zero, suc, ◌+◌, ◌-◌, ◌/◌, ⊤, Bool, true, false, not, ◌&&◌, ◌||◌, List, [], ◌∷◌, seq, any,
  if◌then◌else◌,
}
use valkeycluster_operator.Prelude.Int.{ℤ, pos, pos_part, ◌-ℤ◌, ltb_ℤ, leb_ℤ, eqb_ℤ}
use valkeycluster_operator.Text.{Text, codes, text_eq, is_empty}
use valkeycluster_operator.Text.Decimal.{itoa}
use valkeycluster_operator.Dict.{Dict}
use valkeycluster_operator.Exec.{
  for_each, Exec, Error, cause, wrapped, Result, ok, err, pure, raise, try, ignore, with_context,
  is_not_found, ◌>>=◌, ◌>>◌,
}
use valkeycluster_operator.Api.{ValkeyCluster}
use valkeycluster_operator.Resources.{stateful_set_name, label_shard, label_instance}
use valkeycluster_operator.Cluster.{NodeInfo, ClusterState, total_slots}
use valkeycluster_operator.Controller.{Reconciler}
use valkeycluster_operator.Controller.View.{
  endpoint, seed, ordinals, by_id, slots_of, fattest_primary,
}
use valkeycluster_operator.Controller.Membership.{
  find_shard_primary, attach_replicas, forget_everywhere, forget_stale_nodes,
  existing_shard_indexes,
}

abbrev pub drain_batch_slots : ℤ
drain_batch_slots = pos 1024

-- the smaller of what is needed and what the source has
abbrev pub take_of : ℤ → ℤ → ℤ
take_of need src_slots = if ltb_ℤ src_slots need then src_slots else need

-- how the filling loop ends: by its own test, or by the model's fuel
pub data Ending : Type 0 where
  filled out_of_fuel : Ending

-- `ignoreNotFound`, of a call's result
unfoldable pub ignore_not_found : {W : Type 0} → Exec W ⊤ → Exec W ⊤
ignore_not_found m = do
  done ← try m
  elim done [ ok _ ↦ pure tt | err e ↦ if is_not_found e then pure tt else raise e ]

module _ {W : Type 0} (r : Reconciler W) (cr : ValkeyCluster) where
  open r use {admin, kube}

  -- the loop of `scaleOut` that fills the new primary `id`
  unfoldable pub fill : ℕ → Text → ℤ → Dict NodeInfo → Exec W Ending
  fill zero id need idx = if leb_ℤ need (pos 0) then pure filled else pure out_of_fuel
  fill (suc fuel) id need idx =
      let (src_id, src_slots) = fattest_primary idx id in
      let rest = λ (left : ℤ) (st : ClusterState). fill fuel id left (by_id st) in
      if leb_ℤ need (pos 0)
      then pure filled
      else if is_empty src_id || eqb_ℤ src_slots (pos 0)
      then pure filled
      else do
        moved ←
            with_context (codes "fill shard")
              (admin.move_slots (seed cr) src_id id (take_of need src_slots))
        if eqb_ℤ moved (pos 0)
            then pure filled
            else do st ← admin.state (seed cr); rest (need -ℤ moved) st

  unfoldable pub ended : Ending → Exec W ⊤
  ended filled = pure tt
  ended out_of_fuel = raise (cause (codes "out of fuel"))

  -- `CLUSTER MYID` of a new primary: an empty ID is an error too
  unfoldable pub new_primary_id : ℕ → Exec W Text
  new_primary_id i = do
    id ← with_context (codes "resolve new primary") (admin.my_id (endpoint cr (pos i) 0))
    if is_empty id then raise (cause (codes "resolve new primary")) else pure id

  -- the fair share of a shard; the schema rules out zero shards
  abbrev pub per_shard : ℕ
  per_shard = total_slots / cr.spec.shards

  -- the second loop of `scaleOut`, at one shard; a move of at least one slot lowers the need, so as
  -- many rounds as slots are needed are enough
  unfoldable pub fill_shard : ℕ → Exec W ⊤
  fill_shard i = do
    id ← new_primary_id i
    st ← admin.state (seed cr)
    let need = pos per_shard -ℤ slots_of (by_id st) id
    ending ← fill (pos_part need) id need (by_id st)
    ended ending

  -- the first loop of `scaleOut`, at one shard
  unfoldable pub meet_shard : ℕ → Exec W ⊤
  unfolding for_each
  meet_shard i = for_each (ordinals cr) (λ j. admin.meet (seed cr) (endpoint cr (pos i) j))

  -- `scaleOut`
  unfoldable pub scale_out : ℕ → Exec W ⊤
  unfolding for_each meet_shard fill_shard
  scale_out old_shards = do
    let added = seq old_shards (cr.spec.shards - old_shards)
    for_each added meet_shard
    state ← admin.state (seed cr)
    attach_replicas r cr state
    for_each added fill_shard
    state' ← admin.state (seed cr)
    attach_replicas r cr state'

  unfoldable pub survivor_from : Dict NodeInfo → Text → List ℕ → Exec W Text
  survivor_from idx exclude_id [] = pure []
  survivor_from idx exclude_id (s ∷ rest) = do
    (id, _) ← find_shard_primary r cr (pos s) idx
    elim (not (is_empty id) && not (text_eq id exclude_id)) [
      | true ↦ pure id
      | false ↦ survivor_from idx exclude_id rest
    ]

  -- `firstSurvivorPrimary`
  unfoldable pub first_survivor_primary : Dict NodeInfo → Text → Exec W Text
  unfolding survivor_from
  first_survivor_primary idx exclude_id = survivor_from idx exclude_id (seq 0 cr.spec.shards)

  unfoldable pub delete_pvcs : Dict Text → Exec W ⊤
  unfolding for_each ignore_not_found
  delete_pvcs labels = do
    pvcs ← kube.list_pvcs labels
    for_each pvcs (λ p. ignore_not_found (kube.delete_pvc p))

  -- `deleteShardPVCs`
  unfoldable pub delete_shard_pvcs : ℤ → Exec W ⊤
  unfolding delete_pvcs
  delete_shard_pvcs shard = delete_pvcs ((label_shard, itoa shard) ∷ (label_instance, cr.name) ∷ [])

  -- `deleteOwnedPVCs`
  unfoldable pub delete_owned_pvcs : Exec W ⊤
  unfolding delete_pvcs
  delete_owned_pvcs = delete_pvcs ((label_instance, cr.name) ∷ [])

  -- `deleteShard`
  unfoldable pub delete_shard : ℤ → Exec W ⊤
  unfolding ignore_not_found
  delete_shard shard = do
    ignore_not_found (kube.delete_stateful_set (stateful_set_name cr shard))
    delete_shard_pvcs shard

  -- one batch of the drain of a departing shard's primary
  unfoldable pub drain_batch : Dict NodeInfo → Text → Exec W ⊤
  drain_batch idx depart_id = do
    surv_id ← first_survivor_primary idx depart_id
    if is_empty surv_id
        then raise (cause (codes "no surviving primary to drain into"))
        else ignore_count (
            with_context (codes "drain shard") (
              admin.move_slots (seed cr) depart_id surv_id
                (take_of drain_batch_slots (slots_of idx depart_id))))
    where
      ignore_count : Exec W ℤ → Exec W ⊤
      ignore_count m = m >>= λ _. pure tt

  -- the loop of `scaleIn` over the pods of an emptied shard, at one ordinal
  unfoldable pub forget_pod : ℤ → ℕ → Exec W ⊤
  forget_pod i j = do
    found ← try (admin.my_id (endpoint cr i j))
    elim found [
      | err _ ↦ pure tt
      | ok id ↦ if is_empty id then pure tt else forget_everywhere r cr id
    ]

  -- forgets the nodes of an emptied shard and deletes its workload
  unfoldable pub remove_shard : ℤ → Exec W ⊤
  unfolding for_each forget_pod
  remove_shard i = do for_each (ordinals cr) (forget_pod i); delete_shard i

  -- the loop of `scaleIn`, over the indexes that are left; a drain ends it
  unfoldable pub scale_in_from : List ℤ → Exec W ⊤
  scale_in_from [] = pure tt
  scale_in_from (i ∷ rest) = elim (ltb_ℤ i (pos cr.spec.shards)) [
    | true ↦ scale_in_from rest
    | false ↦ do
      st ← admin.state (seed cr)
      (depart_id, _) ← find_shard_primary r cr i (by_id st)
      elim (not (is_empty depart_id) && ltb_ℤ (pos 0) (slots_of (by_id st) depart_id)) [
        | true ↦ drain_batch (by_id st) depart_id
        | false ↦ remove_shard i >> scale_in_from rest
      ]
  ]

  -- `scaleIn`
  unfoldable pub scale_in : Exec W ⊤
  unfolding scale_in_from
  scale_in = do
    seen ← try (admin.state (seed cr))
    elim seen [ ok st ↦ forget_stale_nodes r cr st | err _ ↦ pure tt ]
    idxs ← existing_shard_indexes r cr
    scale_in_from idxs

  -- `hasExcessShardStatefulSets`
  unfoldable pub has_excess_shard_stateful_sets : Exec W Bool
  has_excess_shard_stateful_sets = do
    idxs ← existing_shard_indexes r cr
    pure (any (λ i. leb_ℤ (pos cr.spec.shards) i) idxs)
