-- ===== src/Bus/Channels.antt =====
-- Lists of channels: membership, no repetition, and what a cut leaves.
use host_container.Prelude.{
  ℕ, ◌≡◌, refl, Bool, true, false, ◌||◌, none, some, List, [], ◌∷◌, ◌++◌, arith, ◌==◌, ◌⊎◌, inl,
  inr, Option-cases,
}
use host_container.Bus.{cut}

abbrev pub mem : ℕ → List ℕ → Bool
mem i [] = false
mem i (x ∷ xs) = x == i || mem i xs

abbrev pub Distinct : List ℕ → Type 0
Distinct [] = Unit
Distinct (x ∷ xs) = (mem x xs ≡ false) × Distinct xs

pub mem-append : (i : ℕ) (xs ys : List ℕ) → mem i (xs ++ ys) ≡ (mem i xs || mem i ys)
mem-append i [] ys = refl
mem-append i (x ∷ xs) ys = ground (arith, mem-append i xs ys)

pub Distinct-snoc : (i : ℕ) (xs : List ℕ) → mem i xs ≡ false → Distinct xs → Distinct (xs ++ i ∷ [])
Distinct-snoc i [] h d = (refl, tt)
Distinct-snoc i (x ∷ xs) h d =
    (ground (arith, mem-append x xs (i ∷ [])), Distinct-snoc i xs (ground arith) d.1)

-- A cut fails exactly on a list without the channel.
pub cut_cases :
    (ch : ℕ) (xs : List ℕ)
    → ((cut ch xs ≡ none) × (mem ch xs ≡ false))
      ⊎ ((rest : List ℕ) × (cut ch xs ≡ some rest) × (mem ch xs ≡ true))
unfolding cut
cut_cases ch [] = inl (refl, refl)
cut_cases ch (x ∷ xs) = ground (arith, cut_cases ch xs)

-- What a cut leaves is without the channel, and has all else.
pub mem-cut :
    (ch i : ℕ) (xs rest : List ℕ)
    → Distinct xs
    → cut ch xs ≡ some rest
    → (mem ch rest ≡ false) × ((i == ch) ≡ false → mem i rest ≡ mem i xs)
unfolding cut
mem-cut ch i [] rest d e = cc
mem-cut ch i (x ∷ xs) rest d e = elim (Option-cases (cut ch xs)) [
  | inl gone ↦ ground arith
  | inr (r, found) ↦ ground (arith, mem-cut ch i xs r d.1 found)
]

pub Distinct-cut : (ch : ℕ) (xs rest : List ℕ) → Distinct xs → cut ch xs ≡ some rest → Distinct rest
unfolding cut
Distinct-cut ch [] rest d e = cc
Distinct-cut ch (x ∷ xs) rest d e = elim (Option-cases (cut ch xs)) [
  | inl gone ↦ ground arith
  | inr (r, found) ↦ ground (arith, Distinct-cut ch xs r d.1 found, mem-cut ch x xs r d.1 found)
]
