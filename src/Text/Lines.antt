-- ===== src/Text/Lines.antt =====
-- Splitting a text at a character, and its lines that are not empty.
use host_container.Text.{text_eq, text_eq_iff}
use host_container.Prelude.{
  ℕ, List, Bool, ◌∷◌, ◌≡◌, if◌then◌else◌, true, Bool-cases, [], ◌==◌, not, ◌++◌, ap, arith, ◌&&◌,
  refl, inl, inr, sym, false, ◌⊎◌, ◌∙◌,
}

grow_word : ℕ → List (List ℕ) → List (List ℕ)
grow_word c [] = (c ∷ []) ∷ []
grow_word c (w ∷ ws) = (c ∷ w) ∷ ws

-- strings.Split at a separator of one character
unfoldable pub split_on : ℕ → List ℕ → List (List ℕ)
unfolding grow_word
split_on sep [] = [] ∷ []
split_on sep (c ∷ cs) =
    let rest = split_on sep cs in if c == sep then [] ∷ rest else grow_word c rest

abbrev pub is_free_of : ℕ → List ℕ → Bool
is_free_of sep [] = true
is_free_of sep (c ∷ cs) = not (c == sep) && is_free_of sep cs

pub split_on-append :
    (sep : ℕ) (w rest : List ℕ)
    → is_free_of sep w ≡ true
    → split_on sep (w ++ sep ∷ rest) ≡ w ∷ split_on sep rest
unfolding split_on
split_on-append sep [] rest h = ground arith
split_on-append sep (c ∷ cs) rest h = ground (arith, split_on-append sep cs rest)

pub split_on_free : (sep : ℕ) (w : List ℕ) → is_free_of sep w ≡ true → split_on sep w ≡ w ∷ []
unfolding split_on
split_on_free sep [] h = refl
split_on_free sep (c ∷ cs) h = ground (arith, split_on_free sep cs)

-- The words without the empty ones.
unfoldable pub filled : List (List ℕ) → List (List ℕ)
filled [] = []
filled (w ∷ ws) = let rest = filled ws in if text_eq w [] then rest else w ∷ rest

-- strings.TrimRight for one character
unfoldable pub trim_right_of : ℕ → List ℕ → List ℕ
trim_right_of sep [] = []
trim_right_of sep (c ∷ cs) =
    let rest = trim_right_of sep cs in if text_eq rest [] && c == sep then [] else c ∷ rest

-- The same first word, and the same others that are not empty.
abbrev SameLines : List (List ℕ) → List (List ℕ) → Type 0
SameLines [] [] = Unit
SameLines [] (w ∷ ws) = ⊥
SameLines (v ∷ vs) [] = ⊥
SameLines (v ∷ vs) (w ∷ ws) = (v ≡ w) × (filled vs ≡ filled ws)

SameLines-filled : (vs ws : List (List ℕ)) → SameLines vs ws → filled vs ≡ filled ws
unfolding filled
SameLines-filled [] [] s = refl
SameLines-filled [] (w ∷ ws) s = absurd s
SameLines-filled (v ∷ vs) [] s = absurd s
SameLines-filled (v ∷ vs) (w ∷ ws) s = ground arith

SameLines-grow :
    (c : ℕ) (vs ws : List (List ℕ)) → SameLines vs ws → SameLines (grow_word c vs) (grow_word c ws)
unfolding grow_word
SameLines-grow c [] [] s = (refl, refl)
SameLines-grow c [] (w ∷ ws) s = absurd s
SameLines-grow c (v ∷ vs) [] s = absurd s
SameLines-grow c (v ∷ vs) (w ∷ ws) s = (ap (λ (u : List ℕ). c ∷ u) s.0, s.1)

module _ (sep c : ℕ) (cs : List ℕ) where
  split_on_sep : (c == sep) ≡ true → split_on sep (c ∷ cs) ≡ [] ∷ split_on sep cs
  unfolding split_on
  split_on_sep h = ground arith

  split_on_other : (c == sep) ≡ false → split_on sep (c ∷ cs) ≡ grow_word c (split_on sep cs)
  unfolding split_on
  split_on_other h = ground arith

  trim_last :
      text_eq (trim_right_of sep cs) [] ≡ true → (c == sep) ≡ true → trim_right_of sep (c ∷ cs) ≡ []
  unfolding trim_right_of
  trim_last h k = ground arith

  trim_inner :
      (text_eq (trim_right_of sep cs) [] ≡ false) ⊎ ((c == sep) ≡ false)
      → trim_right_of sep (c ∷ cs) ≡ c ∷ trim_right_of sep cs
  unfolding trim_right_of
  trim_inner (inl h) = ground arith
  trim_inner (inr h) = ground arith

-- One character more.
trim_step :
    (sep c : ℕ) (cs : List ℕ)
    → SameLines (split_on sep (trim_right_of sep cs)) (split_on sep cs)
    → SameLines (split_on sep (trim_right_of sep (c ∷ cs))) (split_on sep (c ∷ cs))
unfolding filled split_on
trim_step sep c cs s = elim (Bool-cases (c == sep)) [
  | inl at ↦ elim (Bool-cases (text_eq (trim_right_of sep cs) [])) [
    | inl nothing ↦
        let e = (text_eq_iff (trim_right_of sep cs) []).0 nothing in
        let f = SameLines-filled (split_on sep (trim_right_of sep cs)) (split_on sep cs) s in
        rw (trim_last sep c cs nothing at, split_on_sep sep c cs at)
          (refl, ap (λ (t : List ℕ). filled (split_on sep t)) (sym e) ∙ f)
    | inr left ↦
        rw
          (
            trim_inner sep c cs (inl left),
            split_on_sep sep c cs at,
            split_on_sep sep c (trim_right_of sep cs) at,
          )
          (refl, SameLines-filled (split_on sep (trim_right_of sep cs)) (split_on sep cs) s)
  ]
  | inr other ↦
      rw
        (
          trim_inner sep c cs (inr other),
          split_on_other sep c cs other,
          split_on_other sep c (trim_right_of sep cs) other,
        )
        (SameLines-grow c (split_on sep (trim_right_of sep cs)) (split_on sep cs) s)
]

SameLines-trim :
    (sep : ℕ) (p : List ℕ) → SameLines (split_on sep (trim_right_of sep p)) (split_on sep p)
unfolding split_on trim_right_of
SameLines-trim sep [] = (refl, refl)
SameLines-trim sep (c ∷ cs) = trim_step sep c cs (SameLines-trim sep cs)

-- Separators at the end add no word that is not empty.
pub filled-split_trimmed :
    (sep : ℕ) (p : List ℕ) → filled (split_on sep (trim_right_of sep p)) ≡ filled (split_on sep p)
filled-split_trimmed sep p = SameLines-filled _ _ (SameLines-trim sep p)
