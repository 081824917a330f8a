-- ===== src/Api/Schema/Update.antt =====
-- What an update does to a specification that a client has read from the server.
use valkeycluster_operator.Prelude.{
  ℕ, ◌^◌, ◌≡◌, ◌≢◌, ◌↔◌, refl, true, Option, none, some, [], arith,
}
use valkeycluster_operator.Prelude.Int.{pos}
use valkeycluster_operator.Text.{text_eq}
use valkeycluster_operator.Api.{ValkeyClusterSpec, unset}
use valkeycluster_operator.Api.Schema.{
  StorageFields, PersistenceFields, HaFields, PerformanceFields, SpecFields, omit_zero,
  encode_storage, encode_persistence, encode_ha, encode_performance, encode, or_else, in_object,
  default_persistence, default_ha, default_performance, default_storage, defaulted, decode_storage,
  decode_persistence, decode_ha, decode_performance, decode, resubmitted,
}
use valkeycluster_operator.Api.Schema.Limits.{
  optional, fsync_ok, policy_ok, mode_ok, shards_ok, replicas_ok, io_threads_ok, persistence_ok,
  ha_ok, performance_ok, within_limits,
}

-- every field whose zero value is not its default has another value
pub record IsComplete (s : ValkeyClusterSpec) : Type 0 where
  pub shards : s.shards ≢ 0
  pub replicas : s.replicas_per_shard ≢ 0
  pub image : s.image ≢ []
  pub mode : s.persistence.mode ≢ unset
  pub append_fsync : s.persistence.append_fsync ≢ []
  pub coverage : s.ha_policy.require_full_coverage ≢ none
  pub timeout : s.ha_policy.cluster_node_timeout_millis ≢ pos 0
  pub io_threads : s.performance.io_threads ≢ pos 0
  pub policy : s.performance.maxmemory_policy ≢ []

-- A specification that a client sends back as it has read it is kept exactly if no field has a zero
-- value that is not the field's default. A number of replicas per shard of zero is such a value.
pub resubmitted_iff : (s : ValkeyClusterSpec) → (resubmitted s ≡ s) ↔ IsComplete s
unfolding resubmitted
resubmitted_iff s = ground arith

-- what is within the limits stays so when it is read and sent again
persistence_again :
    (w : Option PersistenceFields)
    → optional persistence_ok (in_object default_persistence w) ≡ true
    → persistence_ok (
        default_persistence
          (encode_persistence (decode_persistence (in_object default_persistence w))))
      ≡ true
unfolding persistence_ok default_persistence encode_persistence decode_persistence mode_ok fsync_ok
    text_eq
persistence_again none h = refl
persistence_again (some w) h = ground arith

ha_again :
    (w : Option HaFields)
    → optional ha_ok (in_object default_ha w) ≡ true
    → ha_ok (default_ha (encode_ha (decode_ha (in_object default_ha w)))) ≡ true
unfolding ha_ok default_ha encode_ha decode_ha
ha_again none h = refl
ha_again (some w) h = ground arith

performance_again :
    (w : Option PerformanceFields)
    → optional performance_ok (in_object default_performance w) ≡ true
    → performance_ok (
        default_performance
          (encode_performance (decode_performance (in_object default_performance w))))
      ≡ true
unfolding performance_ok default_performance encode_performance decode_performance io_threads_ok
    policy_ok text_eq
performance_again none h = refl
performance_again (some w) h = ground arith

shards_again : (n : ℕ) → shards_ok n ≡ true → or_else (omit_zero n) 3 ≡ n
unfolding shards_ok
shards_again n h = ground arith

replicas_again : (n : ℕ) → replicas_ok n ≡ true → replicas_ok (or_else (omit_zero n) 1) ≡ true
unfolding replicas_ok
replicas_again n h = ground arith

-- A stored specification that is within the limits of the schema stays so when a client reads it and
-- sends it back, and the defaults are filled in.
pub encode-within_limits :
    (w : SpecFields)
    → within_limits (defaulted w) ≡ true
    → within_limits (defaulted (encode (decode (defaulted w)))) ≡ true
unfolding encode decode defaulted within_limits
encode-within_limits w h = ground (
  arith,
  shards_again (or_else w.shards 3),
  replicas_again (or_else w.replicas_per_shard 1),
  persistence_again w.persistence,
  performance_again w.performance,
  ha_again w.ha_policy,
)

abbrev pub size_of : Option StorageFields → Option ℕ
size_of none = none
size_of (some w) = w.size

-- The storage size that is stored once a client has read a specification and sent it back: the declared
-- one, or the default 1Gi, where a storage is declared, and 0 where none is.
pub size_of-encode :
    (w : SpecFields)
    → let stored = defaulted (encode (decode (defaulted w))) in
      ((st : StorageFields)
        → w.storage ≡ some st
        → size_of stored.storage ≡ some (or_else st.size (2 ^ 30)))
      × (w.storage ≡ none → size_of stored.storage ≡ some 0)
unfolding encode encode_storage decode decode_storage defaulted default_storage
size_of-encode w = (λ st h. rw h refl, λ h. rw h refl)
