-- ===== src/Controller/Loop/Setup.antt =====
-- internal/controller/valkeycluster_controller.go: what the controller watches.
use valkeycluster_operator.Prelude.{⊤, List, [], ◌∷◌}
use valkeycluster_operator.Text.{Text, codes}
use valkeycluster_operator.Exec.{Exec}
use valkeycluster_operator.Controller.{Reconciler}

pub data Kind : Type 0 where
  valkey_cluster stateful_set service config_map : Kind

-- the kind that is reconciled, the kinds whose objects are reconciled with their owner, and the name
-- of the controller
pub record Watches : Type 0 where
  pub watched : Kind
  pub owned_kinds : List Kind
  pub name : Text

abbrev pub watches : Watches
watches = record {
  watched = valkey_cluster;
  owned_kinds = stateful_set ∷ service ∷ config_map ∷ [];
  name = codes "valkeycluster";
}

-- `SetupWithManager`, on `Complete` of the builder of controllers for a manager
unfoldable pub setup_with_manager :
    {W M : Type 0} → (M → Watches → Reconciler W → Exec W ⊤) → Reconciler W → M → Exec W ⊤
setup_with_manager complete r mgr = complete mgr watches r
