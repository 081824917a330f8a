-- ===== src/Tests/Repairs.antt =====
-- Repairs over a small network, and a pass over it.
use valkeycluster_operator.Prelude.{
  ◌≡◌, refl, Bool, true, false, ◌&&◌, ◌||◌, some, List, [], ◌∷◌, if◌then◌else◌, ◌==◌, length, inl,
}
use valkeycluster_operator.Prelude.Int.{pos}
use valkeycluster_operator.Text.{Text, codes, text_eq, is_empty, fields}
use valkeycluster_operator.Text.Decimal.{atoi}
use valkeycluster_operator.Exec.{ok}
use valkeycluster_operator.Exec.Keeps.{Keeps}
use valkeycluster_operator.Cluster.{is_primary, has_flag}
use valkeycluster_operator.Cluster.Parse.{
  parse_nodes, leading_digits, open_marker, open_from, parse_open_slots, add_slot,
}
use valkeycluster_operator.Cluster.GoRedis.{Admin}
use valkeycluster_operator.Cluster.GoRedis.Open.{
  is_reachable, add_all, collect_from, collect_open_slots,
}
use valkeycluster_operator.Cluster.GoRedis.Repair.{owner_of, repair_owner, repair_slots}
use valkeycluster_operator.Cluster.GoRedis.Repair.Sends.{repair_slots-Keeps}
use valkeycluster_operator.Cluster.GoRedis.Repair.Converges.{Markers, repair_slots-clears}
use valkeycluster_operator.Tests.Network.{reply, node_a, quiet_client, over, here, parsed}
use valkeycluster_operator.Tests.Moves.{recording, Long}

repair_slots-Keeps_example : Long (repair_slots recording here []).1
repair_slots-Keeps_example =
    repair_slots-Keeps Long recording here [] (λ w p. p) (λ _ _ w p. p)
      (λ _ _ _ _ _ _ _ _ _ _. record {
        reading = λ _ w p. p;
        rescuing = λ _ _ w p. p;
        clearing = λ _ w p. (refl, p);
        owning = λ _ w p. (refl, p);
      })
      tt

-- the world is whether the markers are still there: a command of four words, `SETSLOT STABLE`, clears
-- them
abbrev marking : Admin Bool
marking = over (record quiet_client {
  do_command = λ _ args w. (ok tt, if length args == 4 then false else w);
})

marking-Markers : Markers marking (λ w _ _. w)
marking-Markers = record {
  cleared = λ o s w sent. refl;
  reading = λ o p s t count w h. h;
  migrating = λ o p s host port k w h. h;
  clearing = λ o p s t w h. refl;
  owning = λ o p s t id w h. h;
}

shown : parse_open_slots reply ≡ pos 5 ∷ []
unfolding parse_open_slots open_from fields open_marker leading_digits atoi add_slot
shown = refl

one_open : (collect_open_slots marking (parse_nodes reply) true).0 ≡ ok (pos 5 ∷ [])
unfolding collect_open_slots collect_from is_reachable has_flag text_eq add_all add_slot
one_open = rw parsed (rw shown refl)

node_a_owned : repair_owner (parse_nodes reply) (pos 5) ≡ some node_a
unfolding repair_owner owner_of is_empty
node_a_owned = rw parsed refl

repair_slots-clears_example : (repair_slots marking here true).1 ≡ false
unfolding text_eq
repair_slots-clears_example =
    repair_slots-clears marking (λ w _ _. w) marking-Markers here reply (pos 5 ∷ []) true refl
      one_open node_a node_a (pos 5) (rw parsed (inl refl)) (unfold is_primary in refl) (λ v. refl)
      (inl refl) node_a_owned

abbrev asks_failover : List Text → Bool
asks_failover (c ∷ d ∷ _) = text_eq c (codes "CLUSTER") && text_eq d (codes "FAILOVER")
asks_failover _ = false

-- the world is whether a pod has run a command or a node was asked to fail over
abbrev watching : Admin Bool
watching =
    record (over (record quiet_client {
      cluster_failover = λ _ w. (ok tt, true);
      do_command = λ _ args w. (ok tt, asks_failover args || w);
    })) { executor = record { exec = λ _ _ _ _ w. (ok [], true) } }
