-- ===== src/Resources/Config.antt =====
-- internal/resources/builders.go: `RenderValkeyConf`.
use valkeycluster_operator.Prelude.{
  ℕ, zero, suc, ◌+◌, ◌-◌, ◌*◌, ◌/◌, ◌%◌, ◌^◌, ◌≤◌, ◌<◌, ◌≡◌, Bool, true, false, Option, none, some,
  [], ◌∷◌, ◌++◌, arith, ltb, if◌then◌else◌,
}
use valkeycluster_operator.Prelude.Int.{ℤ, pos, negsuc, ltb_ℤ, eqb_ℤ}
use valkeycluster_operator.Text.{Text, codes, is_empty}
use valkeycluster_operator.Text.Decimal.{itoa}
use valkeycluster_operator.Api.{
  ValkeyClusterSpec, PersistenceMode, unset, aof, rdb, aof_and_rdb, no_persistence,
}

-- `mode` with its default: the append-only file is on, the snapshots are on
unfoldable pub aof_on : PersistenceMode → Bool
aof_on unset = true
aof_on aof = true
aof_on rdb = false
aof_on aof_and_rdb = true
aof_on no_persistence = false

unfoldable pub rdb_on : PersistenceMode → Bool
rdb_on unset = false
rdb_on aof = false
rdb_on rdb = true
rdb_on aof_and_rdb = true
rdb_on no_persistence = false

unfoldable pub full_coverage : Option Bool → Text
full_coverage none = codes "yes"
full_coverage (some true) = codes "yes"
full_coverage (some false) = codes "no"

-- an `int64` from its bits
signed : ℕ → ℤ
signed n = if ltb n (2 ^ 63) then pos n else negsuc (2 ^ 64 - n - 1)

-- division of an `int64` by 100, which rounds towards zero
div_100 : ℤ → ℤ
div_100 (pos n) = pos (n / 100)
div_100 (negsuc n) = if ltb n 99 then pos 0 else negsuc (suc n / 100 - 1)

-- `lim.Value() * 70 / 100`, in 64 bits
unfoldable pub max_bytes : ℕ → ℤ
unfolding signed div_100
max_bytes value = div_100 (signed (value * 70 % 2 ^ 64))

abbrev or_default : Text → Text → Text
or_default t d = if is_empty t then d else t

abbrev line : Text → Text → Text
line key value = key ++ b' ' ∷ (value ++ b'\n' ∷ [])

memory_line : Option ℕ → Text
memory_line none = []
memory_line (some zero) = []
memory_line (some (suc n)) = line (codes "maxmemory") (itoa (max_bytes (suc n)))

persistence_lines : PersistenceMode → Text → Text
persistence_lines mode fsync =
    (if aof_on mode
      then line (codes "appendonly") (codes "yes")
        ++ line (codes "appendfsync") (or_default fsync (codes "everysec"))
      else line (codes "appendonly") (codes "no"))
    ++ (if rdb_on mode
        then line (codes "save") (codes "3600 1 300 100 60 10000")
        else line (codes "save") (codes "\"\""))

-- `RenderValkeyConf`
unfoldable pub render_valkey_conf : ValkeyClusterSpec → Text
unfolding memory_line persistence_lines full_coverage
render_valkey_conf spec =
    line (codes "cluster-enabled") (codes "yes")
    ++ (line (codes "cluster-config-file") (codes "/data/nodes.conf")
        ++ (line (codes "cluster-node-timeout") (itoa timeout)
            ++ (line (codes "cluster-require-full-coverage")
                  (full_coverage hp.require_full_coverage)
                ++ (line (codes "cluster-preferred-endpoint-type") (codes "hostname")
                    ++ (line (codes "cluster-port") (codes "16379")
                        ++ (line (codes "port") (codes "6379")
                            ++ (line (codes "min-replicas-to-write") (itoa hp.min_replicas_to_write)
                                ++ (line (codes "dir") (codes "/data")
                                    ++ (line (codes "io-threads") (itoa io_threads)
                                        ++ (line (codes "maxmemory-policy") (
                                              or_default spec.performance.maxmemory_policy
                                                (codes "noeviction"))
                                            ++ (persistence_lines spec.persistence.mode
                                                  spec.persistence.append_fsync
                                                ++ memory_line spec.memory_limit)))))))))))
  where
    open spec use {ha_policy as hp}

    timeout : ℤ
    timeout =
        if eqb_ℤ hp.cluster_node_timeout_millis (pos 0)
        then pos 5000
        else hp.cluster_node_timeout_millis

    io_threads : ℤ
    io_threads =
        if ltb_ℤ spec.performance.io_threads (pos 1) then pos 1 else spec.performance.io_threads

-- For a memory limit below 2^63 / 70 nothing wraps around: `maxmemory` is not negative, is at most
-- 70 per cent of the limit, and falls short of that by less than one byte.
pub max_bytes_headroom :
    (value : ℕ)
    → value * 70 < 2 ^ 63
    → (n : ℕ) × (max_bytes value ≡ pos n) × (100 * n ≤ 70 * value) × (70 * value < 100 * n + 100)
unfolding max_bytes
max_bytes_headroom value h = (value * 70 / 100, ground arith, omega arith, omega arith)
