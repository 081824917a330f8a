-- ===== src/Controller/Status/SetCond.antt =====
-- `setCond` as a map from condition types to conditions.
use valkeycluster_operator.Prelude.{
  ℕ, ◌≡◌, ◌≢◌, refl, Option, none, some, List, [], ◌∷◌, arith, if◌then◌else◌,
}
use valkeycluster_operator.Text.{Text, text_eq, text_eq_iff}
use valkeycluster_operator.Api.{ValkeyCluster, Condition}
use valkeycluster_operator.Controller.Status.{
  Update, condition, same_status, set_condition, set_cond,
}

-- the first condition of a type
abbrev pub find : Text → List Condition → Option Condition
find t [] = none
find t (c ∷ cs) = if text_eq c.type t then some c else find t cs

-- the time at which the condition took its status: the old time if the status stays
abbrev pub transition : ℕ → Update → Option Condition → ℕ
transition now u none = now
transition now u (some c) = if same_status c.status u.status then c.last_transition_time else now

-- no type stands twice
abbrev pub IsDistinct : List Condition → Type 0
IsDistinct [] = Unit
IsDistinct (c ∷ cs) = (find c.type cs ≡ none) × IsDistinct cs

find-set_condition :
    (now g : ℕ) (u : Update) (t : Text) (cs : List Condition)
    → find t (set_condition now g u cs) ≡ (
        if text_eq u.type t
        then some (condition u g (transition now u (find u.type cs)))
        else find t cs)
unfolding set_condition
find-set_condition now g u t [] = refl
find-set_condition now g u t (c ∷ cs) = ground (
  arith,
  find-set_condition now g u t cs,
  text_eq_iff u.type t,
  text_eq_iff c.type u.type,
  text_eq_iff c.type t,
)

set_condition-IsDistinct :
    (now g : ℕ) (u : Update) (cs : List Condition)
    → IsDistinct cs
    → IsDistinct (set_condition now g u cs)
unfolding set_condition
set_condition-IsDistinct now g u [] h = (refl, tt)
set_condition-IsDistinct now g u (c ∷ cs) h = ground (
  arith,
  set_condition-IsDistinct now g u cs h.1,
  find-set_condition now g u c.type cs,
  text_eq_iff u.type c.type,
  text_eq_iff c.type u.type,
)

-- After `setCond` the condition of the given type has the given status, reason and message, the
-- resource's generation, and a transition time that is the old one if the status was the same and
-- the present time otherwise; the conditions of other types are as before, and if no type stood
-- twice then none does.
pub set_cond_lem :
    (now : ℕ) (u : Update) (cr : ValkeyCluster)
    → let after = (set_cond now u cr).status.conditions in
      let before = cr.status.conditions in
      (find u.type after ≡ some (condition u cr.generation (transition now u (find u.type before))))
      × ((t : Text) → t ≢ u.type → find t after ≡ find t before)
      × (IsDistinct before → IsDistinct after)
unfolding set_cond
set_cond_lem now u cr = (
  ground (arith, find-set_condition now cr.generation u u.type cs, text_eq_iff u.type u.type),
  (λ t ne. ground (arith, find-set_condition now cr.generation u t cs, text_eq_iff u.type t)),
  set_condition-IsDistinct now cr.generation u cs,
)
  where
    cs : List Condition
    cs = cr.status.conditions
