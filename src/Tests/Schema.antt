-- ===== src/Tests/Schema.antt =====
-- Specifications that are read and sent again.
use valkeycluster_operator.Prelude.{◌^◌, ◌≡◌, refl, ◌↔◌, arith, true, none, some, []}
use valkeycluster_operator.Exec.{Error, ok, err}
use valkeycluster_operator.Api.{ValkeyCluster}
use valkeycluster_operator.Api.Schema.{
  StorageFields, SpecFields, or_else, encode, defaulted, decode, resubmitted,
}
use valkeycluster_operator.Api.Schema.Limits.{shards_ok, replicas_ok, within_limits}
use valkeycluster_operator.Api.Schema.Update.{
  IsComplete, resubmitted_iff, encode-within_limits, size_of, size_of-encode,
}
use valkeycluster_operator.Api.Schema.Rendered.{render_valkey_conf-resubmitted}
use valkeycluster_operator.Resources.Config.{render_valkey_conf}
use valkeycluster_operator.Controller.{Kube, Reconciler}
use valkeycluster_operator.Controller.Loop.{finalizer, reconcile_live, reconcile_found}
use valkeycluster_operator.Controller.Loop.Adoption.{Stores, reconcile_found-resubmitted}
use valkeycluster_operator.Tests.World.{demo, test_kube, quiet_admin}

-- a manifest with four shards and no replicas, and nothing else
abbrev bare : SpecFields
bare = record {
  shards = some 4;
  replicas_per_shard = some 0;
  image = none;
  storage = none;
  memory_limit = none;
  persistence = none;
  performance = none;
  ha_policy = none;
}

resubmitted_iff_example : (resubmitted demo.spec ≡ demo.spec) ↔ IsComplete demo.spec
resubmitted_iff_example = resubmitted_iff demo.spec

bare_ok : within_limits (defaulted bare) ≡ true
unfolding within_limits defaulted shards_ok replicas_ok
bare_ok = refl

encode-within_limits_example : within_limits (defaulted (encode (decode (defaulted bare)))) ≡ true
encode-within_limits_example = encode-within_limits bare bare_ok

size_of-encode_example :
    let stored = defaulted (encode (decode (defaulted bare))) in
    ((st : StorageFields)
      → bare.storage ≡ some st
      → size_of stored.storage ≡ some (or_else st.size (2 ^ 30)))
    × (bare.storage ≡ none → size_of stored.storage ≡ some 0)
size_of-encode_example = size_of-encode bare

render_valkey_conf-resubmitted_example :
    render_valkey_conf (resubmitted demo.spec) ≡ render_valkey_conf demo.spec
render_valkey_conf-resubmitted_example = render_valkey_conf-resubmitted demo.spec

-- the manifest as it is read, and an API server that applies the schema to every update
abbrev lone : ValkeyCluster
lone = record demo { spec = decode (defaulted bare) }

abbrev schema_kube : Kube Unit
schema_kube = record (test_kube []) {
  update_cluster = λ c w. (ok (record c { spec = resubmitted c.spec }), w);
}

abbrev on_schema : Reconciler Unit
on_schema = record { admin = quiet_admin; kube = schema_kube }

schema_kube-Stores : Stores schema_kube
schema_kube-Stores = record { adding = λ c t. refl; updating = λ c stored w got. ground arith }

reconcile_found-resubmitted_example :
    ((stored : ValkeyCluster)
      → (schema_kube.update_cluster (schema_kube.add_finalizer lone finalizer) tt).0 ≡ ok stored
      → (reconcile_found on_schema lone tt ≡ reconcile_live on_schema stored tt)
        × (stored.spec ≡ resubmitted lone.spec)
        × (lone.spec.replicas_per_shard ≡ 0 → stored.spec.replicas_per_shard ≡ 1))
    × ((e : Error)
        → (schema_kube.update_cluster (schema_kube.add_finalizer lone finalizer) tt).0 ≡ err e
        → reconcile_found on_schema lone tt ≡ (err e, tt))
reconcile_found-resubmitted_example =
    reconcile_found-resubmitted on_schema schema_kube-Stores lone tt refl refl
