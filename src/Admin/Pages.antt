-- ===== src/Admin/Pages.antt =====
-- The pages of the user list, the plans, and what a deletion leaves.
use host_container.Prelude.{
  ℕ, zero, suc, ◌+◌, ◌*◌, ◌≤◌, ◌<◌, ◌^◌, String, ◌≡◌, ◌⊎◌, refl, ap, ◌∙◌, Bool, Bool-cases,
  Option-cases, Option, some, List, [], ◌∷◌, ◌++◌, take, drop, length, arith, inl, inr, eq_iff,
}
use host_container.Schema.{UserRow}
use host_container.Tables.{update}
use host_container.World.{
  Outside, World, statement, ok, err, Error, refused, Bigint, matches, logged, bad_bigint,
}
use host_container.Http.{Method}
use host_container.Admin.{
  AdminUser, offset_of, hits, query_page, set_plan, update_plan_row, update_user_plan,
}

take_none : {A : Type 0} (k : ℕ) → take {A = A} k [] ≡ []
take_none zero = refl
take_none (suc k) = refl

take-drop : {A : Type 0} (n m : ℕ) (xs : List A) → take n xs ++ take m (drop n xs) ≡ take (n + m) xs
take-drop zero m xs = ap (λ k. take k xs) zero_plus
  where
    zero_plus : m ≡ 0 + m
    zero_plus = omega arith
take-drop (suc n) m [] = take_none m ∙ ap (λ k. take k []) more
  where
    more : suc (n + m) ≡ suc n + m
    more = omega arith
take-drop (suc n) m (x ∷ xs) = ap (λ l. x ∷ l) (take-drop n m xs) ∙ ap (λ k. take k (x ∷ xs)) more
  where
    more : suc (n + m) ≡ suc n + m
    more = omega arith

length-take : {A : Type 0} (n : ℕ) (xs : List A) → length (take n xs) ≤ n
length-take zero xs = ground arith
length-take (suc n) [] = ground arith
length-take (suc n) (x ∷ xs) = ground (arith, length-take n xs)

module _ (out : Outside) (like : String → String → Bool) (lower to_lower : String → String) where
  -- A page of the user list has at most 20 rows, and they are the ones that come after the rows of
  -- the pages before it, as long as the offset fits into an integer of 64 bits.
  pub query_page-continues :
      (n : ℕ) (sought : String) (w : World) {rows : List AdminUser}
      → n * 20 < 2 ^ 63
      → (query_page out like lower to_lower (n + 1) sought w).0 ≡ ok rows
      → (length rows ≤ 20)
        × (take (n * 20) (hits out like lower to_lower sought w.db) ++ rows
            ≡ take (n * 20 + 20) (hits out like lower to_lower sought w.db))
  unfolding query_page offset_of
  query_page-continues n sought w {rows = rows} small h =
      let whole = hits out like lower to_lower sought w.db in
      let offset : offset_of (n + 1) ≡ n * 20 = omega (arith, small) in
      let shown : rows ≡ take 20 (drop (n * 20) whole) =
        elim (Bool-cases (out.fails (statement ∷ w.trace))) [
          | inl lost ↦ absurd (ground arith)
          | inr up ↦ ground arith
        ] in
      (
        ground (arith, shown, length-take 20 (drop (n * 20) whole)),
        ap (λ l. take (n * 20) whole ++ l) shown ∙ take-drop (n * 20) 20 whole,
      )

module _ (out : Outside) (plan id : String) (w : World) where
  update_plan_row_cases :
      ((e : Error) × (update_plan_row out plan id w ≡ (err e, logged statement w)))
      ⊎ ((k : Bigint) × (out.to_bigint id ≡ some k)
          × (update_plan_row out plan id w ≡ (
            ok tt,
            record w {
              db = record w.db {
                users = update (λ (u : UserRow). matches k u.id) (set_plan plan) w.db.users;
              };
              trace = statement ∷ w.trace;
            },
          )))
  unfolding update_plan_row
  update_plan_row_cases = elim (Bool-cases (out.fails (statement ∷ w.trace))) [
    | inl lost ↦ inl (refused statement, ground arith)
    | inr up ↦ elim (Option-cases (out.to_bigint id)) [
      | inl e ↦ inl (bad_bigint, ground arith)
      | inr (k, e) ↦ inr (k, e, ground arith)
    ]
  ]

module _ (out : Outside) (m : Method) (id : String) (body : Option String) (w : World) where
  -- A change of plan that is answered 200 names one of the three plans, sets it for the rows of that
  -- id, and changes nothing else; whether there is such a row is not looked at.
  update_user_plan_sound :
      (update_user_plan out m id body w).0.status ≡ 200
      → (plan : String) × (k : Bigint) × (body ≡ some plan)
        × ((plan ≡ "free") ⊎ ((plan ≡ "pro") ⊎ (plan ≡ "team")))
        × (out.to_bigint id ≡ some k)
        × ((update_user_plan out m id body w).1 ≡ record (logged statement w) {
          db = record w.db {
            users = update (λ (u : UserRow). matches k u.id) (set_plan plan) w.db.users;
          };
        })
  unfolding update_user_plan
  update_user_plan_sound h = elim (Option-cases body) [
    | inl e ↦ absurd (ground arith)
    | inr (plan, e) ↦ elim (update_plan_row_cases out plan id w) [
      | inl (e', f) ↦ absurd (ground arith)
      | inr (k, f, g) ↦ (
        plan,
        k,
        e,
        ground (arith, eq_iff plan "free", eq_iff plan "pro", eq_iff plan "team"),
        f,
        ground arith,
      )
    ]
  ]
