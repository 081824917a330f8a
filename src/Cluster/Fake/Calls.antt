-- ===== src/Cluster/Fake/Calls.antt =====
-- Every sequence of calls leaves the in-memory cluster well-formed.
use valkeycluster_operator.Prelude.{
  ℕ, ◌≡◌, refl, sym, subst, ◌⊎◌, inl, inr, some, List, [], ◌∷◌, ◌++◌, arith, Option-cases,
  Bool-cases,
}
use valkeycluster_operator.Prelude.Int.{ℤ, pos}
use valkeycluster_operator.Text.{Text, text_eq, is_empty}
use valkeycluster_operator.Dict.{lookup}
use valkeycluster_operator.Cluster.{Endpoint, SlotRange, NodeInfo, RebalanceOpts, is_primary}
use valkeycluster_operator.Cluster.Fake.{
  Fake, modify, ensure, make_primary, master_flags, slave_flags, give_away, take_over, movable,
  rebalance, reshard, meet, add_slots, replicate, forget, failover, promote, move_slots, fix, my_id,
}
use valkeycluster_operator.Cluster.Fake.Invariant.{
  IsValid, modify-IsValid, ensure-IsValid, forget-IsValid,
}
use valkeycluster_operator.Cluster.Fake.Primaries.{rebalance-IsValid}
use valkeycluster_operator.Cluster.Fake.Reshard.{give_away-NodeOk, reshard-IsValid}

-- a call that changes the cluster, with its arguments; a count of slots to move is not negative
pub data Call : Type 0 where
  my_id_call : Endpoint → Call
  meet_call : Endpoint → Endpoint → Call
  add_slots_call : Endpoint → List SlotRange → Call
  replicate_call : Endpoint → Text → Call
  forget_call : Text → Call
  failover_call : Endpoint → Call
  rebalance_call : RebalanceOpts → Call
  reshard_call : Text → Text → ℕ → Call
  move_slots_call : Text → Text → ℕ → Call
  fix_call : Call

abbrev pub apply : Call → Fake → Fake
apply (my_id_call e) f = (my_id e f).1
apply (meet_call from to) f = meet from to f
apply (add_slots_call e rs) f = add_slots e rs f
apply (replicate_call e id) f = replicate e id f
apply (forget_call id) f = forget id f
apply (failover_call e) f = failover e f
apply (rebalance_call opts) f = rebalance opts f
apply (reshard_call from to n) f = reshard from to (pos n) f
apply (move_slots_call from to n) f = (move_slots from to (pos n) f).1
apply fix_call f = fix f

-- the calls, the first one first
abbrev pub run : List Call → Fake → Fake
run [] f = f
run (c ∷ cs) f = run cs (apply c f)

add_slots-IsValid :
    (e : Endpoint) (rs : List SlotRange) (f : Fake) → IsValid f → IsValid (add_slots e rs f)
unfolding add_slots is_primary text_eq
add_slots-IsValid e rs f v =
    modify-IsValid e.host (λ n. record (make_primary n) { slots = n.slots ++ rs }) (ensure e f).1
      (λ n q o. (o.0, inl refl)) (ensure-IsValid e f v)

replicate-IsValid : (e : Endpoint) (id : Text) (f : Fake) → IsValid f → IsValid (replicate e id f)
unfolding replicate
replicate-IsValid e id f v =
    modify-IsValid e.host (λ n. record n { master_id = id; flags = slave_flags; slots = [] })
      (ensure e f).1 (λ n q o. (o.0, inr refl)) (ensure-IsValid e f v)

promote-IsValid : (h : Text) (r m : NodeInfo) (f : Fake) → IsValid f → IsValid (promote h r m f)
unfolding promote is_primary text_eq
promote-IsValid h r m f v =
    modify-IsValid r.master_id (λ n. record n { slots = []; master_id = r.id; flags = slave_flags })
      _ (λ n q o. (o.0, inr refl))
      (modify-IsValid h (λ n. record n { slots = m.slots; master_id = []; flags = master_flags }) f
        (λ n q o. (o.0, inl refl)) v)

failover_outcome :
    (e : Endpoint) (f : Fake)
    → (failover e f ≡ f) ⊎ ((r : NodeInfo) × (m : NodeInfo) × (failover e f ≡ promote e.host r m f))
unfolding failover
failover_outcome e f = elim (Option-cases (lookup e.host f)) [
  | inl a ↦ inl (ground arith)
  | inr (r, a) ↦ elim (Bool-cases (is_empty r.master_id)) [
    | inl q ↦ inl (ground arith)
    | inr q ↦ elim (Option-cases (lookup r.master_id f)) [
      | inl b ↦ inl (ground arith)
      | inr (m, b) ↦ inr (r, m, ground arith)
    ]
  ]
]

failover-IsValid : (e : Endpoint) (f : Fake) → IsValid f → IsValid (failover e f)
failover-IsValid e f v = elim (failover_outcome e f) [
  | inl same ↦ subst IsValid (sym same) v
  | inr (r, m, moved) ↦ subst IsValid (sym moved) (promote-IsValid e.host r m f v)
]

move_slots_outcome :
    (from to : Text) (k : ℤ) (f : Fake)
    → ((move_slots from to k f).1 ≡ f)
      ⊎ ((n : NodeInfo) × (lookup from f ≡ some n)
          × ((move_slots from to k f).1
              ≡ modify to (take_over (movable k n)) (modify from (give_away (movable k n)) f)))
unfolding move_slots
move_slots_outcome from to k f = elim (Option-cases (lookup from f)) [
  | inl a ↦ inl (ground arith)
  | inr (n, a) ↦ elim (Option-cases (lookup to f)) [
    | inl b ↦ inl (ground arith)
    | inr (m, b) ↦ inr (n, a, ground arith)
  ]
]

move_slots-IsValid :
    (from to : Text) (k : ℕ) (f : Fake) → IsValid f → IsValid (move_slots from to (pos k) f).1
unfolding is_primary text_eq
move_slots-IsValid from to k f v = elim (move_slots_outcome from to (pos k) f) [
  | inl same ↦ subst IsValid (sym same) v
  | inr (n, a, moved) ↦ subst IsValid (sym moved) (
      modify-IsValid to (take_over (movable (pos k) n)) _ (λ m q o. (o.0, inl refl))
        (modify-IsValid from (give_away (movable (pos k) n)) f
          (λ m q o. give_away-NodeOk from k f n m a q o) v))
]

apply-IsValid : (c : Call) (f : Fake) → IsValid f → IsValid (apply c f)
unfolding my_id meet fix
apply-IsValid (my_id_call e) f v = ensure-IsValid e f v
apply-IsValid (meet_call from to) f v =
    ensure-IsValid to (ensure from f).1 (ensure-IsValid from f v)
apply-IsValid (add_slots_call e rs) f v = add_slots-IsValid e rs f v
apply-IsValid (replicate_call e id) f v = replicate-IsValid e id f v
apply-IsValid (forget_call id) f v = forget-IsValid id f v
apply-IsValid (failover_call e) f v = failover-IsValid e f v
apply-IsValid (rebalance_call opts) f v = rebalance-IsValid opts f v
apply-IsValid (reshard_call from to n) f v = reshard-IsValid from to n f v
apply-IsValid (move_slots_call from to n) f v = move_slots-IsValid from to n f v
apply-IsValid fix_call f v = rebalance-IsValid _ f v

-- From any well-formed cluster in memory, every sequence of calls, with counts of slots to move
-- that are not negative, leads to a well-formed one: each host has one node, under its own
-- ID, and a node that is not a primary owns no slots.
pub run-IsValid : (cs : List Call) (f : Fake) → IsValid f → IsValid (run cs f)
run-IsValid [] f v = v
run-IsValid (c ∷ cs) f v = run-IsValid cs (apply c f) (apply-IsValid c f v)
