-- ===== src/Cluster/Fake/Invariant.antt =====
-- Well-formedness of the in-memory cluster, and the writes that keep it.
use valkeycluster_operator.Prelude.{
  ◌≡◌, refl, sym, subst, ◌⊎◌, inl, inr, true, none, some, [], ◌∷◌, arith, All, Bool-cases,
  Option-cases,
}
use valkeycluster_operator.Text.{Text, text_eq, text_eq_iff}
use valkeycluster_operator.Dict.{lookup, insert, erase, IsMap, erase-IsMap, insert-IsMap}
use valkeycluster_operator.Cluster.{Endpoint, NodeInfo, is_primary}
use valkeycluster_operator.Cluster.Fake.{Fake, modify, modify_all, ensure, new_node, forget}
use valkeycluster_operator.Cluster.Fake.Slots.{lookup-modify}

-- a node stands under its own ID, and owns no slots unless it is a primary
abbrev pub NodeOk : Text × NodeInfo → Type 0
NodeOk (k, n) = (n.id ≡ k) × ((is_primary n ≡ true) ⊎ (n.slots ≡ []))

abbrev pub IsValid : Fake → Type 0
IsValid f = IsMap f × All NodeOk f

lookup-none-modify :
    (k j : Text) (g : NodeInfo → NodeInfo) (f : Fake)
    → lookup j f ≡ none
    → lookup j (modify k g f) ≡ none
lookup-none-modify k j g f h = ground (arith, lookup-modify k j g f)

modify-IsMap : (k : Text) (g : NodeInfo → NodeInfo) (f : Fake) → IsMap f → IsMap (modify k g f)
unfolding modify
modify-IsMap k g [] h = tt
modify-IsMap k g ((j, n) ∷ f) h =
    ground (arith, modify-IsMap k g f h.1, lookup-none-modify k j g f h.0)

modify-All :
    (k : Text) (g : NodeInfo → NodeInfo) (f : Fake)
    → ((n : NodeInfo) → lookup k f ≡ some n → NodeOk (k, n) → NodeOk (k, g n))
    → All NodeOk f
    → All NodeOk (modify k g f)
unfolding modify lookup
modify-All k g [] h a = tt
modify-All k g ((j, n) ∷ f) h a = elim (Bool-cases (text_eq j k)) [
  | inl e ↦
      let same = (text_eq_iff j k).0 e in
      rw e (
        subst (λ i. NodeOk (i, g n)) (sym same)
            (h n (rw e refl) (subst (λ i. NodeOk (i, n)) same a.0)),
        a.1,
      )
  | inr e ↦ rw e (a.0, modify-All k g f (λ m q. h m (rw e q)) a.1)
]

pub lookup-modify_all :
    (k : Text) (g : NodeInfo → NodeInfo) (f : Fake)
    → lookup k (modify_all g f) ≡ elim (lookup k f) [ none ↦ none | some n ↦ some (g n) ]
unfolding modify_all lookup
lookup-modify_all k g [] = refl
lookup-modify_all k g ((j, n) ∷ f) = ground (arith, lookup-modify_all k g f)

pub modify_all-IsMap : (g : NodeInfo → NodeInfo) (f : Fake) → IsMap f → IsMap (modify_all g f)
unfolding modify_all
modify_all-IsMap g [] h = tt
modify_all-IsMap g ((j, n) ∷ f) h =
    ground (arith, modify_all-IsMap g f h.1, lookup-modify_all j g f)

pub modify_all-All :
    (g : NodeInfo → NodeInfo) (f : Fake)
    → ((k : Text) (n : NodeInfo) → NodeOk (k, n) → NodeOk (k, g n))
    → All NodeOk f
    → All NodeOk (modify_all g f)
unfolding modify_all
modify_all-All g [] h a = tt
modify_all-All g ((j, n) ∷ f) h a = (h j n a.0, modify_all-All g f h a.1)

insert-All :
    (k : Text) (n : NodeInfo) (f : Fake) → NodeOk (k, n) → All NodeOk f → All NodeOk (insert k n f)
unfolding insert lookup
insert-All k n [] h a = (h, tt)
insert-All k n ((j, m) ∷ f) h a = elim (Bool-cases (text_eq j k)) [
  | inl e ↦ rw e (subst (λ i. NodeOk (i, n)) (sym ((text_eq_iff j k).0 e)) h, a.1)
  | inr e ↦ rw e (a.0, insert-All k n f h a.1)
]

erase-All : (k : Text) (f : Fake) → All NodeOk f → All NodeOk (erase k f)
unfolding erase
erase-All k [] a = tt
erase-All k ((j, m) ∷ f) a = elim (Bool-cases (text_eq j k)) [
  | inl e ↦ rw e (erase-All k f a.1)
  | inr e ↦ rw e (a.0, erase-All k f a.1)
]

pub modify-IsValid :
    (k : Text) (g : NodeInfo → NodeInfo) (f : Fake)
    → ((n : NodeInfo) → lookup k f ≡ some n → NodeOk (k, n) → NodeOk (k, g n))
    → IsValid f
    → IsValid (modify k g f)
modify-IsValid k g f h v = (modify-IsMap k g f v.0, modify-All k g f h v.1)

ensure_absent :
    (e : Endpoint) (f : Fake)
    → lookup e.host f ≡ none
    → (ensure e f).1 ≡ insert e.host (new_node e) f
unfolding ensure
ensure_absent e f h = ground arith

ensure_present :
    (e : Endpoint) (f : Fake) (n : NodeInfo) → lookup e.host f ≡ some n → (ensure e f).1 ≡ f
unfolding ensure
ensure_present e f n h = ground arith

pub ensure-IsValid : (e : Endpoint) (f : Fake) → IsValid f → IsValid (ensure e f).1
unfolding is_primary text_eq
ensure-IsValid e f v = elim (Option-cases (lookup e.host f)) [
  | inl absent ↦ subst IsValid (sym (ensure_absent e f absent)) (
    insert-IsMap e.host (new_node e) f v.0,
    insert-All e.host (new_node e) f (refl, inl refl) v.1,
  )
  | inr (n, found) ↦ subst IsValid (sym (ensure_present e f n found)) v
]

pub forget-IsValid : (id : Text) (f : Fake) → IsValid f → IsValid (forget id f)
unfolding forget
forget-IsValid id f v = (erase-IsMap id f v.0, erase-All id f v.1)
