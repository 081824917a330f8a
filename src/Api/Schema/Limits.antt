-- ===== src/Api/Schema/Limits.antt =====
-- The limits of the schema, which the API server checks once the defaults are filled in.
use valkeycluster_operator.Prelude.{
  ℕ, Bool, true, false, ◌&&◌, ◌||◌, Option, none, some, List, [], ◌∷◌, any, leb, ◌==◌,
}
use valkeycluster_operator.Prelude.Int.{ℤ, pos, leb_ℤ}
use valkeycluster_operator.Text.{Text, codes, text_eq}
use valkeycluster_operator.Api.{PersistenceMode, unset}
use valkeycluster_operator.Api.Schema.{PersistenceFields, HaFields, PerformanceFields, SpecFields}

abbrev pub optional : {A : Type 0} → (A → Bool) → Option A → Bool
optional p none = true
optional p (some a) = p a

-- `Enum`
abbrev one_of : List Text → Text → Bool
one_of ts t = any (text_eq t) ts

unfoldable pub fsync_ok : Text → Bool
fsync_ok t = one_of (codes "always" ∷ codes "everysec" ∷ codes "no" ∷ []) t

unfoldable pub policy_ok : Text → Bool
policy_ok t =
    one_of
      (codes "noeviction"
        ∷ codes "allkeys-lru"
        ∷ codes "allkeys-lfu"
        ∷ codes "allkeys-random"
        ∷ codes "volatile-lru"
        ∷ codes "volatile-lfu"
        ∷ codes "volatile-random"
        ∷ codes "volatile-ttl"
        ∷ [])
      t

unfoldable pub mode_ok : PersistenceMode → Bool
mode_ok unset = false
mode_ok _ = true

unfoldable pub shards_ok : ℕ → Bool
shards_ok n = leb n 16 && (n == 1 || leb 3 n)

unfoldable pub replicas_ok : ℕ → Bool
replicas_ok n = leb n 5

unfoldable pub io_threads_ok : ℤ → Bool
io_threads_ok n = leb_ℤ (pos 1) n && leb_ℤ n (pos 128)

unfoldable pub persistence_ok : PersistenceFields → Bool
persistence_ok w = optional mode_ok w.mode && optional fsync_ok w.append_fsync

unfoldable pub ha_ok : HaFields → Bool
ha_ok w =
    optional (leb_ℤ (pos 0)) w.min_replicas_to_write
    && optional (leb_ℤ (pos 1000)) w.cluster_node_timeout_millis

unfoldable pub performance_ok : PerformanceFields → Bool
performance_ok w = optional io_threads_ok w.io_threads && optional policy_ok w.maxmemory_policy

-- the checks on one version of a specification; the rule that `storage.size` is immutable compares the
-- texts of two versions, and is left out
unfoldable pub within_limits : SpecFields → Bool
within_limits w =
    optional shards_ok w.shards
    && (optional replicas_ok w.replicas_per_shard
        && (optional persistence_ok w.persistence
            && (optional performance_ok w.performance && optional ha_ok w.ha_policy)))
