-- ===== src/Api/Schema/Rendered.antt =====
-- The defaults of the schema and those of the rendered configuration.
use valkeycluster_operator.Prelude.{
  zero, suc, ◌≡◌, refl, true, Option, none, some, Bool, [], ◌∷◌, arith, if◌then◌else◌,
}
use valkeycluster_operator.Prelude.Int.{ℤ, pos, negsuc, ltb_ℤ, eqb_ℤ}
use valkeycluster_operator.Text.{Text, codes, is_empty}
use valkeycluster_operator.Api.{PersistenceMode, aof, ValkeyClusterSpec}
use valkeycluster_operator.Api.Schema.{omit_zero_ℤ, omit_empty, omit_unset, or_else, resubmitted}
use valkeycluster_operator.Resources.Config.{aof_on, rdb_on, full_coverage, render_valkey_conf}

timeout_again :
    (z : ℤ)
    → let sent = or_else (omit_zero_ℤ z) (pos 5000) in
      (if eqb_ℤ sent (pos 0) then pos 5000 else sent) ≡ (if eqb_ℤ z (pos 0) then pos 5000 else z)
timeout_again (pos zero) = refl
timeout_again (pos (suc n)) = refl
timeout_again (negsuc n) = refl

io_threads_again :
    (z : ℤ)
    → let sent = or_else (omit_zero_ℤ z) (pos 1) in
      (if ltb_ℤ sent (pos 1) then pos 1 else sent) ≡ (if ltb_ℤ z (pos 1) then pos 1 else z)
io_threads_again (pos zero) = refl
io_threads_again (pos (suc n)) = refl
io_threads_again (negsuc n) = refl

min_replicas_again : (z : ℤ) → or_else (omit_zero_ℤ z) (pos 0) ≡ z
min_replicas_again (pos zero) = refl
min_replicas_again (pos (suc n)) = refl
min_replicas_again (negsuc n) = refl

coverage_again : (c : Option Bool) → full_coverage (some (or_else c true)) ≡ full_coverage c
unfolding full_coverage
coverage_again none = refl
coverage_again (some b) = refl

text_again :
    (t d : Text)
    → (if is_empty (or_else (omit_empty t) d) then d else or_else (omit_empty t) d)
      ≡ (if is_empty t then d else t)
unfolding is_empty
text_again [] d = ground arith
text_again (c ∷ t) d = refl

aof_again : (m : PersistenceMode) → aof_on (or_else (omit_unset m) aof) ≡ aof_on m
unfolding aof_on
aof_again m = ground arith

rdb_again : (m : PersistenceMode) → rdb_on (or_else (omit_unset m) aof) ≡ rdb_on m
unfolding rdb_on
rdb_again m = ground arith

-- The configuration that is rendered of a specification as it was read is that of the specification
-- with the defaults that an update fills in: where `RenderValkeyConf` has a default of its own, it
-- is the schema's.
pub render_valkey_conf-resubmitted :
    (s : ValkeyClusterSpec) → render_valkey_conf (resubmitted s) ≡ render_valkey_conf s
unfolding render_valkey_conf resubmitted
render_valkey_conf-resubmitted s =
    rw
      (
        timeout_again s.ha_policy.cluster_node_timeout_millis,
        coverage_again s.ha_policy.require_full_coverage,
        min_replicas_again s.ha_policy.min_replicas_to_write,
        io_threads_again s.performance.io_threads,
        text_again s.performance.maxmemory_policy (codes "noeviction"),
        aof_again s.persistence.mode,
        rdb_again s.persistence.mode,
        text_again s.persistence.append_fsync (codes "everysec"),
      )
      refl
