-- ===== src/Cluster/GoRedis/Open/Reads.antt =====
-- What `State` reads off CLUSTER INFO, and which nodes it asks.
use valkeycluster_operator.Prelude.{
  ℕ, zero, suc, not, ◌≡◌, ◌≢◌, ◌↔◌, refl, sym, ap, ◌∙◌, true, false, none, some, List, [], ◌∷◌, any,
  arith, All, inl, inr, Option-cases,
}
use valkeycluster_operator.Prelude.Int.{ℤ, pos, negsuc, ltb_ℤ, eqb_ℤ}
use valkeycluster_operator.Text.{Text, codes, text_eq, text_eq_iff, is_empty}
use valkeycluster_operator.Text.Decimal.{atoi}
use valkeycluster_operator.Dict.{Dict, lookup}
use valkeycluster_operator.Cluster.{NodeInfo, has_flag, total_slots}
use valkeycluster_operator.Cluster.GoRedis.Open.{is_reachable, value_of, info_formed, info_covered}

-- the reply has a number of assigned slots
abbrev pub Assigned : Dict Text → ℤ → Type 0
Assigned kv n =
    (t : Text) × (lookup (codes "cluster_slots_assigned") kv ≡ some t) × ((atoi t).0 ≡ n)

-- a state is told, and some slots are assigned
abbrev pub IsFormed : Dict Text → Type 0
IsFormed kv =
    ((t : Text) × (lookup (codes "cluster_state") kv ≡ some t) × (t ≢ []))
    × ((n : ℕ) × Assigned kv (pos (suc n)))

-- the state is ok, and all slots are assigned
abbrev pub IsCovered : Dict Text → Type 0
IsCovered kv =
    (lookup (codes "cluster_state") kv ≡ some (codes "ok")) × Assigned kv (pos total_slots)

-- the node is connected, and no flag says that it fails, that it may fail, or that it has no address
abbrev pub IsHealthy : NodeInfo → Type 0
IsHealthy n =
    (n.connected ≡ true)
    × All (λ f. (f ≢ codes "fail") × (f ≢ codes "fail?") × (f ≢ codes "noaddr")) n.flags

positive : (z : ℤ) → ltb_ℤ (pos 0) z ≡ true → (n : ℕ) × (z ≡ pos (suc n))
positive (pos zero) h = ground arith
positive (pos (suc n)) h = (n, refl)
positive (negsuc n) h = ground arith

eqb_iff : (a b : ℤ) → (eqb_ℤ a b ≡ true) ↔ (a ≡ b)
eqb_iff a b = (λ h. ground arith, λ h. ground arith)

filled_iff : (t : Text) → (not (is_empty t) ≡ true) ↔ (t ≢ [])
unfolding is_empty
filled_iff [] = (λ h. ground arith, λ h. absurd (h refl))
filled_iff (c ∷ t) = (λ h e. cc, λ h. refl)

module _ (kv : Dict Text) where
  value_here : (k t : Text) → lookup k kv ≡ some t → value_of k kv ≡ t
  unfolding value_of
  value_here k t e = ground arith

  value_missing : (k : Text) → lookup k kv ≡ none → value_of k kv ≡ []
  unfolding value_of
  value_missing k e = ground arith

  -- a value that is not the empty text is there
  value_found : (k t : Text) → value_of k kv ≡ t → t ≢ [] → lookup k kv ≡ some t
  value_found k t e ne = elim (Option-cases (lookup k kv)) [
    | inl nothing ↦ absurd (ne (sym e ∙ value_missing k nothing))
    | inr (u, found) ↦ found ∙ ap some (sym (value_here k u found) ∙ e)
  ]

  number_iff :
      (n : ℤ)
      → n ≢ pos 0
      → ((atoi (value_of (codes "cluster_slots_assigned") kv)).0 ≡ n) ↔ Assigned kv n
  unfolding atoi
  number_iff n some_slots = (
    λ e. elim (Option-cases (lookup (codes "cluster_slots_assigned") kv)) [
      | inl nothing ↦ absurd (
          some_slots (
            sym e
            ∙ ap (λ (t : Text). (atoi t).0)
                (value_missing (codes "cluster_slots_assigned") nothing)))
      | inr (t, found) ↦ (
        t,
        found,
        ap (λ (u : Text). (atoi u).0) (sym (value_here (codes "cluster_slots_assigned") t found))
            ∙ e,
      )
    ],
    λ (t, found, e).
        ap (λ (u : Text). (atoi u).0) (value_here (codes "cluster_slots_assigned") t found) ∙ e,
  )

  pub info_formed_iff : (info_formed kv ≡ true) ↔ IsFormed kv
  unfolding info_formed
  info_formed_iff =
      let st = codes "cluster_state" in
      let told = value_of st kv in
      let count = (atoi (value_of (codes "cluster_slots_assigned") kv)).0 in
      (
        λ h.
            let ne : told ≢ [] = (filled_iff told).0 (ground arith) in
            let (n, e) = positive count (ground arith) in
            (
              (told, value_found st told refl ne, ne),
              (n, (number_iff (pos (suc n)) (λ z. cc)).0 e),
            ),
        λ ((t, found, ne), (n, assigned)).
            let e : count ≡ pos (suc n) = (number_iff (pos (suc n)) (λ z. cc)).1 assigned in
            ground (arith, filled_iff told, value_here st t found),
      )

  pub info_covered_iff : (info_covered kv ≡ true) ↔ IsCovered kv
  unfolding info_covered
  info_covered_iff =
      let st = codes "cluster_state" in
      let told = value_of st kv in
      let count = (atoi (value_of (codes "cluster_slots_assigned") kv)).0 in
      let all_iff = number_iff (pos total_slots) (λ z. ground arith) in
      (
        λ h. (
          value_found st (codes "ok") ((text_eq_iff told (codes "ok")).0 (ground arith)) (λ e. cc),
          all_iff.0 ((eqb_iff count (pos total_slots)).0 (ground arith)),
        ),
        λ (found, assigned).
            let same = (text_eq_iff told (codes "ok")).1 (value_here st (codes "ok") found) in
            let whole = (eqb_iff count (pos total_slots)).1 (all_iff.1 assigned) in ground arith,
      )

any_iff : (t : Text) (fs : List Text) → (any (λ f. text_eq f t) fs ≡ false) ↔ All (λ f. f ≢ t) fs
any_iff t [] = ground arith
any_iff t (f ∷ fs) = ground (arith, text_eq_iff f t, any_iff t fs)

All-both :
    (P Q R : Text → Type 0) (fs : List Text)
    → (All P fs × All Q fs × All R fs) ↔ All (λ f. P f × Q f × R f) fs
All-both P Q R [] = ground arith
All-both P Q R (f ∷ fs) = ground (arith, All-both P Q R fs)

pub is_reachable_iff : (n : NodeInfo) → (is_reachable n ≡ true) ↔ IsHealthy n
unfolding is_reachable has_flag
is_reachable_iff n = ground (
  arith,
  any_iff (codes "fail") n.flags,
  any_iff (codes "fail?") n.flags,
  any_iff (codes "noaddr") n.flags,
  All-both (λ f. f ≢ codes "fail") (λ f. f ≢ codes "fail?") (λ f. f ≢ codes "noaddr") n.flags,
)
