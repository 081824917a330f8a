-- ===== src/Controller/Scaling/Drain.antt =====
-- A drain over the in-memory cluster.
use valkeycluster_operator.Prelude.{◌≡◌, ◌≢◌, refl, ap, ◌∙◌, false, some, arith, if◌then◌else◌}
use valkeycluster_operator.Prelude.Int.{ℤ, pos, ◌+ℤ◌, ◌-ℤ◌, ◌≤ℤ◌, ltb_ℤ}
use valkeycluster_operator.Text.{Text, is_empty}
use valkeycluster_operator.Dict.{Dict, lookup}
use valkeycluster_operator.Exec.{ok}
use valkeycluster_operator.Api.{ValkeyCluster}
use valkeycluster_operator.Cluster.{NodeInfo, slot_count}
use valkeycluster_operator.Cluster.Fake.{Fake, assigned_slots, move_slots}
use valkeycluster_operator.Cluster.Fake.Slots.{count_at, move_slots_conserves}
use valkeycluster_operator.Controller.{Kube}
use valkeycluster_operator.Controller.Cluster.Form.{in_memory}
use valkeycluster_operator.Controller.View.{slots_of}
use valkeycluster_operator.Controller.Scaling.{
  take_of, first_survivor_primary, drain_batch, drain_batch_slots,
}

-- the slots of a batch, of a shard that owns `c`
abbrev pub batch : ℤ → ℤ
batch c = if ltb_ℤ c (pos 1024) then c else pos 1024

module _ (k : Kube Fake) (cr : ValkeyCluster) (idx : Dict NodeInfo) (id surv : Text) (f f0 : Fake)
    (a b : NodeInfo) where
  -- In memory, where the search for a surviving primary finds one other than the departing primary, and
  -- the counts that were observed are those of the cluster: a batch of the drain succeeds, takes up to
  -- 1024 slots off the departing primary, all of them if it has no more, gives them to the survivor,
  -- and loses none.
  pub drain_batch-conserves :
      first_survivor_primary (in_memory k cr) cr idx id f0 ≡ (ok surv, f)
      → is_empty surv ≡ false
      → id ≢ surv
      → lookup id f ≡ some a
      → lookup surv f ≡ some b
      → slots_of idx id ≡ slot_count a
      → pos 0 ≤ℤ slot_count a
      → pos 0 ≤ℤ slot_count b
      → let (r, f') = drain_batch (in_memory k cr) cr idx id f0 in
        (r ≡ ok tt)
        × (assigned_slots f' ≡ assigned_slots f)
        × (count_at id f' ≡ some (slot_count a -ℤ batch (slot_count a)))
        × (count_at surv f' ≡ some (slot_count b +ℤ batch (slot_count a)))
  unfolding drain_batch
  drain_batch-conserves found some_surv ne ea eb seen ha hb =
      let n = take_of drain_batch_slots (slot_count a) in
      let (moved, total, left, got) =
        move_slots_conserves id surv n f a b ne ea eb (ground arith) ha hb in
      let same : (move_slots id surv n f).0 ≡ batch (slot_count a) = ground arith in
      let ran : drain_batch (in_memory k cr) cr idx id f0 ≡ (ok tt, (move_slots id surv n f).1) =
        ground arith in
      rw ran (
        refl,
        total,
        left ∙ ap (λ m. some (slot_count a -ℤ m)) same,
        got ∙ ap (λ m. some (slot_count b +ℤ m)) same,
      )
