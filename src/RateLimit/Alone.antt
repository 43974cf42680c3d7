-- ===== src/RateLimit/Alone.antt =====
-- Each address is limited as if it were the only one.
use host_container.Prelude.{
  ℕ, ◌+◌, ◌≤◌, String, ◌≡◌, refl, subst, Bool, true, false, Option, none, some, List, [], ◌∷◌,
  arith, if◌then◌else◌, str_eq, eq_iff, Bool-cases, inl, inr,
}
use host_container.RateLimit.{Bucket, Visitor, Visitors, get_limiter, allow_request, clean_up}

module _ {L : Type 0} (bucket : Bucket L) where
  -- The requests in turn, each with its address and its time, and what each was answered.
  pub answers : List (String × ℕ) → Visitors L → List (String × Bool)
  answers [] vs = []
  answers ((ip, now) ∷ rs) vs =
      let (ok, vs') = allow_request bucket ip now vs in (ip, ok) ∷ answers rs vs'

  pub answers_to : String → List (String × Bool) → List Bool
  answers_to ip [] = []
  answers_to ip ((x, ok) ∷ given) =
      let rest = answers_to ip given in if str_eq x ip then ok ∷ rest else rest

  pub times_of : String → List (String × ℕ) → List ℕ
  times_of ip [] = []
  times_of ip ((x, now) ∷ rs) =
      let rest = times_of ip rs in if str_eq x ip then now ∷ rest else rest

  -- A single bucket.
  pub alone : L → List ℕ → List Bool
  alone l [] = []
  alone l (now ∷ ts) = let (ok, l') = bucket.allow now l in ok ∷ alone l' ts

  abbrev limiter_of : Option (Visitor L) → L
  limiter_of none = bucket.new_limiter
  limiter_of (some v) = v.limiter

  allow_same :
      (x ip : String) (now : ℕ) (vs : Visitors L)
      → str_eq x ip ≡ true
      → ((allow_request bucket x now vs).0 ≡ (bucket.allow now (limiter_of (vs ip))).0)
        × (limiter_of ((allow_request bucket x now vs).1 ip)
            ≡ (bucket.allow now (limiter_of (vs ip))).1)
  unfolding allow_request get_limiter
  allow_same x ip now vs same =
      subst
        (λ y.
          ((allow_request bucket x now vs).0 ≡ (bucket.allow now (limiter_of (vs y))).0)
          × (limiter_of ((allow_request bucket x now vs).1 y)
              ≡ (bucket.allow now (limiter_of (vs y))).1))
        ((eq_iff x ip).0 same) (let own = (eq_iff x x).1 refl in (refl, ground arith))

  allow_other :
      (x ip : String) (now : ℕ) (vs : Visitors L)
      → str_eq x ip ≡ false
      → (allow_request bucket x now vs).1 ip ≡ vs ip
  unfolding allow_request get_limiter
  allow_other x ip now vs other = ground arith

  -- Between two rounds of the clean-up, what an address is answered is what one bucket of its own
  -- answers at the times of its requests, whatever the other addresses send.
  pub answers-alone :
      (ip : String) (rs : List (String × ℕ)) (vs : Visitors L)
      → answers_to ip (answers rs vs) ≡ alone (limiter_of (vs ip)) (times_of ip rs)
  unfolding answers answers_to times_of alone
  answers-alone ip [] vs = refl
  answers-alone ip ((x, now) ∷ rs) vs =
      let ih = answers-alone ip rs (allow_request bucket x now vs).1 in
      elim (Bool-cases (str_eq x ip)) [
        | inl same ↦ let (said, left) = allow_same x ip now vs same in ground arith
        | inr other ↦ let left = allow_other x ip now vs other in ground arith
      ]

  -- A round of the clean-up keeps every address that was seen in the last ten minutes as it is.
  clean_up-keeps :
      (ip : String) (now : ℕ) (vs : Visitors L) {v : Visitor L}
      → vs ip ≡ some v
      → now ≤ v.last_seen + 600
      → clean_up bucket now vs ip ≡ some v
  unfolding clean_up
  clean_up-keeps ip now vs {v = v} e h = ground arith
