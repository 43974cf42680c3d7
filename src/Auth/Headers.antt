-- ===== src/Auth/Headers.antt =====
-- What the header of a request holds.
use mathlib.Core.Option
use host_container.Prelude.{
  ℕ, suc, ◌+◌, ◌≡◌, refl, ap, ◌∙◌, Bool, true, false, ◌||◌, none, some, Option, [], ◌∷◌, ◌++◌,
  arith, take, drop, ◌==◌, if◌then◌else◌, inl, inr, String,
}
use host_container.World.{Word}
use host_container.Text.{text_eq}
use host_container.Auth.{index_of, split_two, blank, bearer, bearer_of, token_of}

-- The library's `strings.SplitN(s, sep, 2)` for a separator of one character, by its documentation:
-- what stands before the first of them, and what stands after it.
unfoldable pub split_first : ℕ → Word → Option (Word × Word)
split_first sep [] = none
split_first sep (c ∷ cs) =
    let rest = Option.map (λ (p : Word × Word). (c ∷ p.0, p.1)) (split_first sep cs) in
    if sep == c then some ([], cs) else rest

abbrev cut_at : ℕ → Word → Option ℕ → Option (Word × Word)
cut_at n s o = elim o [ none ↦ none | some i ↦ some (take i s, drop (i + n) s) ]

abbrev push : ℕ → Word × Word → Word × Word
push c p = (c ∷ p.0, p.1)

cut_at-suc :
    (n c : ℕ) (cs : Word) (o : Option ℕ)
    → cut_at n (c ∷ cs) (Option.map suc o) ≡ Option.map (push c) (cut_at n cs o)
cut_at-suc n c cs none = refl
cut_at-suc n c cs (some i) = let e : suc i + n ≡ suc (i + n) = omega arith in rw e

index_of-cons :
    (sep c : ℕ) (cs : Word)
    → index_of (sep ∷ []) (c ∷ cs)
      ≡ (if sep == c then some 0 else Option.map suc (index_of (sep ∷ []) cs))
unfolding index_of
index_of-cons sep c cs = ground arith

-- The loop of `splitTwo` finds, for a separator of one character, what `SplitN` with the count 2 finds:
-- so the middleware and the refresh read the header `Authorization` in the same way.
pub split_two-eq-split_first : (sep : ℕ) (s : Word) → split_two s (sep ∷ []) ≡ split_first sep s
unfolding split_two index_of split_first
split_two-eq-split_first sep [] = refl
split_two-eq-split_first sep (c ∷ cs) =
    ap (cut_at 1 (c ∷ cs)) (index_of-cons sep c cs)
    ∙ by_test (sep == c) (split_two-eq-split_first sep cs)
  where
    by_test :
        (found : Bool)
        → split_two cs (sep ∷ []) ≡ split_first sep cs
        → cut_at 1 (c ∷ cs) (if found then some 0 else Option.map suc (index_of (sep ∷ []) cs))
          ≡ (if found then some ([], cs) else Option.map (push c) (split_first sep cs))
    by_test true ih = refl
    by_test false ih = cut_at-suc 1 c cs (index_of (sep ∷ []) cs) ∙ ap (Option.map (push c)) ih

has_char : ℕ → Word → Bool
has_char c [] = false
has_char c (x ∷ xs) = c == x || has_char c xs

split_first-append :
    (sep : ℕ) (s t : Word) → has_char sep s ≡ false → split_first sep (s ++ sep ∷ t) ≡ some (s, t)
unfolding split_first has_char
split_first-append sep [] t h = ground arith
split_first-append sep (c ∷ s) t h = ground (arith, split_first-append sep s t)

split_two-append :
    (sep : ℕ) (s t : Word)
    → has_char sep s ≡ false
    → split_two (s ++ sep ∷ t) (sep ∷ []) ≡ some (s, t)
split_two-append sep s t h =
    split_two-eq-split_first sep (s ++ sep ∷ t) ∙ split_first-append sep s t h

bearer_read : (t : Word) → bearer_of (split_two (bearer ++ b' ' ∷ t) blank) ≡ some t
unfolding bearer_of has_char
bearer_read t = ap bearer_of (split_two-append b' ' bearer t refl)

-- A header `Bearer`, a blank and a token gives the token, whatever the token holds; one that is empty
-- gives the parameter of the address instead.
token_of-bearer :
    (key : String) (t param : Word)
    → token_of (record { api_key = key; authorization = bearer ++ b' ' ∷ t; token = param }) ≡ (
        let given = if text_eq t [] then param else t in
        if text_eq given [] then inl "authorization required" else inr given)
unfolding token_of
token_of-bearer key t param = ground (arith, bearer_read t)
