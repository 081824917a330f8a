-- ===== src/Text/Words.antt =====
-- `strings.Join` undone: by `strings.Fields` for words, by `strings.Split` for parts.
use mathlib.Core.List.{append-nil}
use valkeycluster_operator.Prelude.{
  ℕ, ◌≡◌, refl, ◌≢◌, ◌∙◌, ap, sym, false, List, [], ◌∷◌, ◌++◌, append_assoc, All, All-append,
}
use valkeycluster_operator.Text.{Text, Lacks, is_space, is_empty, join, fields, fields_from}
use valkeycluster_operator.Text.Cut.{split, split_none, split-append}

-- no byte is a space
abbrev pub Spaceless : Text → Type 0
Spaceless = All (λ c. is_space c ≡ false)

-- a text that `strings.Fields` yields: not empty, and without spaces
abbrev pub IsWord : Text → Type 0
IsWord t = (t ≢ []) × Spaceless t

fields_from-word :
    (t s cur : Text) → Spaceless t → fields_from (t ++ s) cur ≡ fields_from s (cur ++ t)
unfolding fields_from
fields_from-word [] s cur h = rw (append-nil cur) refl
fields_from-word (c ∷ t) s cur h =
    rw (h.0, fields_from-word t s (cur ++ c ∷ []) h.1) (ap (fields_from s) (simp append_assoc))

fields_from-end : (cur : Text) → cur ≢ [] → fields_from [] cur ≡ cur ∷ []
unfolding fields_from
fields_from-end [] ne = absurd (ne refl)
fields_from-end (c ∷ cur) ne = refl

fields_from-space : (s cur : Text) → cur ≢ [] → fields_from (b' ' ∷ s) cur ≡ cur ∷ fields_from s []
unfolding fields_from is_empty
fields_from-space s [] ne = absurd (ne refl)
fields_from-space s (c ∷ cur) ne = refl

-- Words joined by single spaces are the fields of the joined text.
pub fields-join : (ws : List Text) → All IsWord ws → fields (join ws (b' ' ∷ [])) ≡ ws
unfolding fields join
fields-join [] h = unfold fields_from in refl
fields-join (w ∷ []) h =
    ap (λ (t : Text). fields_from t []) (sym (append-nil w))
    ∙ fields_from-word w [] [] h.0.1
    ∙ fields_from-end w h.0.0
fields-join (w ∷ v ∷ ws) h =
    fields_from-word w (b' ' ∷ join (v ∷ ws) (b' ' ∷ [])) [] h.0.1
    ∙ fields_from-space (join (v ∷ ws) (b' ' ∷ [])) w h.0.0
    ∙ ap (◌∷◌ w) (fields-join (v ∷ ws) h.1)

-- Parts without the separator are what splitting their join yields.
pub split-join :
    (b : ℕ) (p : Text) (ps : List Text)
    → All (Lacks b) (p ∷ ps)
    → split b (join (p ∷ ps) (b ∷ [])) ≡ p ∷ ps
unfolding join
split-join b p [] h = split_none b p h.0
split-join b p (q ∷ ps) h =
    split-append b p (join (q ∷ ps) (b ∷ [])) h.0 ∙ ap (◌∷◌ p) (split-join b q ps h.1)

pub append-ne-nil : (s t : Text) (c : ℕ) → s ++ c ∷ t ≢ []
append-ne-nil [] t c e = cc
append-ne-nil (d ∷ s) t c e = cc

-- what no byte of the parts is, and not the separator, is no byte of the join
pub join-All :
    (P : ℕ → Type 0) (ps : List Text) (c : ℕ) → P c → All (All P) ps → All P (join ps (c ∷ []))
unfolding join
join-All P [] c hc h = tt
join-All P (p ∷ []) c hc h = h.0
join-All P (p ∷ q ∷ ps) c hc h = All-append P p _ h.0 (hc, join-All P (q ∷ ps) c hc h.1)

pub join-ne-nil : (p : Text) (ps : List Text) (sep : Text) → p ≢ [] → join (p ∷ ps) sep ≢ []
unfolding join
join-ne-nil [] ps sep ne e = ne refl
join-ne-nil (c ∷ p) [] sep ne e = cc
join-ne-nil (c ∷ p) (q ∷ ps) sep ne e = cc
