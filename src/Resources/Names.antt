-- ===== src/Resources/Names.antt =====
-- The names tell the shards and the pods of a cluster apart.
use mathlib.Core.List.{append_cancel_left}
use valkeycluster_operator.Prelude.{ℕ, ◌≡◌, ◌∷◌, ◌++◌, arith, append_assoc, sym, ◌∙◌}
use valkeycluster_operator.Prelude.Int.{pos}
use valkeycluster_operator.Text.{Text, codes, Lacks}
use valkeycluster_operator.Text.Cut.{cut_injective}
use valkeycluster_operator.Text.Decimal.{itoa, format_nat, format_nat_injective, format_nat-Lacks}
use valkeycluster_operator.Api.{ValkeyCluster}
use valkeycluster_operator.Resources.{stateful_set_name, pod_name, pod_fqdn, headless_service_name}

module _ (cr : ValkeyCluster) where
  -- what stands in front of the shard's number, and behind the pod's
  front : Text
  front = cr.name ++ codes "-shard-"

  back : Text
  back = headless_service_name cr ++ b'.' ∷ (cr.namespace ++ codes ".svc")

  pod_fqdn_parts :
      (i j : ℕ)
      → pod_fqdn cr (pos i) j ≡ front ++ (format_nat i ++ b'-' ∷ (format_nat j ++ b'.' ∷ back))
  unfolding pod_fqdn pod_name stateful_set_name itoa front back
  pod_fqdn_parts i j = simp append_assoc

  -- Two pods of one cluster with the same name have the same shard and the same ordinal.
  pub pod_fqdn_injective :
      (i i' j j' : ℕ) → pod_fqdn cr (pos i) j ≡ pod_fqdn cr (pos i') j' → (i ≡ i') × (j ≡ j')
  pod_fqdn_injective i i' j j' e =
      let same =
        append_cancel_left front _ _ (sym (pod_fqdn_parts i j) ∙ e ∙ pod_fqdn_parts i' j') in
      let (shard, rest) =
        cut_injective b'-' (format_nat i) (format_nat i') _ _ (no_dash i) (no_dash i') same in
      let (ordinal, _) =
        cut_injective b'.' (format_nat j) (format_nat j') _ _ (no_dot j) (no_dot j') rest in
      (format_nat_injective i i' shard, format_nat_injective j j' ordinal)
    where
      no_dash : (n : ℕ) → Lacks b'-' (format_nat n)
      no_dash n = format_nat-Lacks b'-' n (λ h. omega arith)

      no_dot : (n : ℕ) → Lacks b'.' (format_nat n)
      no_dot n = format_nat-Lacks b'.' n (λ h. omega arith)

  -- Two shards of one cluster with the same StatefulSet name have the same index.
  pub stateful_set_name_injective :
      (i j : ℕ) → stateful_set_name cr (pos i) ≡ stateful_set_name cr (pos j) → i ≡ j
  unfolding stateful_set_name itoa
  stateful_set_name_injective i j e =
      format_nat_injective i j
        (append_cancel_left (cr.name ++ codes "-shard-") (format_nat i) (format_nat j) e)
