-- ===== src/Topology.antt =====
-- internal/topology/topology.go: the next action, decided from the declared and the observed
-- topology. Numbers of shards and replicas are not negative: the declared ones by the schema of
-- the resource, the observed ones as counts.
pub mod Precedence
use valkeycluster_operator.Prelude.{
  ℕ, ◌-◌, ◌≡◌, refl, Bool, true, false, not, List, [], ◌∷◌, ltb, ◌==◌, if◌then◌else◌,
}

pub record Desired : Type 0 where
  pub shards : ℕ
  pub replicas_per_shard : ℕ

pub record Observed : Type 0 where
  pub formed : Bool
  pub slots_covered : Bool
  pub primary_count : ℕ
  pub replica_counts : List ℕ

pub data ActionKind : Type 0 where
  form repair scale_out_shards scale_in_shards scale_replicas no_action : ActionKind

pub record Plan : Type 0 where
  pub kind : ActionKind
  pub add_shards : ℕ
  pub remove_shards : ℕ
  pub desired_replicas_per_shard : ℕ

-- a plan with the other fields zero
abbrev pub plan : ActionKind → Plan
plan k = record { kind = k; add_shards = 0; remove_shards = 0; desired_replicas_per_shard = 0 }

-- the loop over the replica counts, and what follows it
decide_replicas : ℕ → List ℕ → Plan
decide_replicas want [] = plan no_action
decide_replicas want (rc ∷ rest) =
    if rc == want
    then decide_replicas want rest
    else record (plan scale_replicas) { desired_replicas_per_shard = want }

-- `Decide` behind the stability gate
pub decide_stable : Desired → Observed → Plan
decide_stable d o =
    if ltb o.primary_count d.shards
    then record (plan scale_out_shards) { add_shards = d.shards - o.primary_count }
    else if ltb d.shards o.primary_count
    then record (plan scale_in_shards) { remove_shards = o.primary_count - d.shards }
    else decide_replicas d.replicas_per_shard o.replica_counts

-- `Decide`
unfoldable pub decide : Desired → Observed → Plan
decide d o =
    if not o.formed
    then plan form
    else if not o.slots_covered
    then plan repair
    else decide_stable d o

decide_scales_out :
    (decide
      (record { shards = 5; replicas_per_shard = 1 })
      (record {
        formed = true;
        slots_covered = true;
        primary_count = 3;
        replica_counts = [];
      })).add_shards
    ≡ 2
unfolding decide decide_stable
decide_scales_out = refl
