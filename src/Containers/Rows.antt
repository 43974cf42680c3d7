-- ===== src/Containers/Rows.antt =====
-- Finding a container's row by its id, after an update or a delete by id.
use host_container.Prelude.{
  ℕ, ◌≡◌, refl, false, Option, none, some, List, [], ◌∷◌, arith, ◌==◌, if◌then◌else◌, Bool-cases,
  inl, inr,
}
use host_container.Schema.{ContainerRow}
use host_container.Tables.{find, update, delete}
use host_container.World.{Bigint, nonneg, negative}
use host_container.Containers.Repo.{has_id}

-- The row with an id, if there is one.
abbrev pub row : ℕ → List ContainerRow → Option ContainerRow
row id rows = find (has_id (nonneg id)) rows

negative_absent : (n : ℕ) (rows : List ContainerRow) → find (has_id (negative n)) rows ≡ none
negative_absent n [] = refl
negative_absent n (x ∷ rows) = negative_absent n rows

-- A row that was found by a cast id has that id.
pub found_id :
    (k : Bigint) (rows : List ContainerRow) {r : ContainerRow}
    → find (has_id k) rows ≡ some r
    → row r.id rows ≡ some r
found_id k [] h = cc
found_id (nonneg n) (x ∷ rows) {r} h = elim (Bool-cases (n == x.id)) [
  | inl hit ↦ ground arith
  | inr miss ↦ let same : n ≡ r.id = found_number n rows (ground arith) in ground arith
]
  where
    found_number : (m : ℕ) (xs : List ContainerRow) → row m xs ≡ some r → m ≡ r.id
    found_number m [] e = cc
    found_number m (y ∷ xs) e = ground (arith, found_number m xs)
found_id (negative n) (x ∷ rows) h = cc (negative_absent n rows)

row-update_other :
    (f : ContainerRow → ContainerRow) (j i : ℕ) (rows : List ContainerRow)
    → ((x : ContainerRow) → (f x).id ≡ x.id)
    → (j == i) ≡ false
    → row j (update (has_id (nonneg i)) f rows) ≡ row j rows
row-update_other f j i [] keep h = refl
row-update_other f j i (x ∷ rows) keep h =
    ground (arith, keep x, row-update_other f j i rows keep h)

pub row-update :
    (f : ContainerRow → ContainerRow) (j i : ℕ) (r : ContainerRow) (rows : List ContainerRow)
    → ((x : ContainerRow) → (f x).id ≡ x.id)
    → row i rows ≡ some r
    → row j (update (has_id (nonneg i)) f rows) ≡ (if j == i then some (f r) else row j rows)
row-update f j i r [] keep h = cc
row-update f j i r (x ∷ rows) keep h =
    ground (arith, keep x, row-update_other f j i rows keep, row-update f j i r rows keep)

-- Two updates of one row.
pub row-update_twice :
    (f g : ContainerRow → ContainerRow) (j i : ℕ) (r : ContainerRow) (rows : List ContainerRow)
    → ((x : ContainerRow) → (f x).id ≡ x.id)
    → ((x : ContainerRow) → (g x).id ≡ x.id)
    → row i rows ≡ some r
    → row j (update (has_id (nonneg i)) g (update (has_id (nonneg i)) f rows))
      ≡ (if j == i then some (g (f r)) else row j rows)
row-update_twice f g j i r rows keep keep' h =
    let here : row i (update (has_id (nonneg i)) f rows) ≡ some (f r) =
      ground (arith, row-update f i i r rows keep h) in
    ground (
      arith,
      row-update g j i (f r) (update (has_id (nonneg i)) f rows) keep' here,
      row-update f j i r rows keep h,
    )

pub row-delete :
    (i j : ℕ) (rows : List ContainerRow)
    → row j (delete (has_id (nonneg i)) rows) ≡ (if j == i then none else row j rows)
row-delete i j [] = ground arith
row-delete i j (x ∷ rows) = ground (arith, row-delete i j rows)

-- Only a number that is not negative is the id of a row.
pub found_nonneg :
    (k : Bigint) (rows : List ContainerRow) {r : ContainerRow}
    → find (has_id k) rows ≡ some r
    → k ≡ nonneg r.id
found_nonneg k [] h = cc
found_nonneg (negative n) (x ∷ rows) h = cc (negative_absent n (x ∷ rows))
found_nonneg (nonneg n) (x ∷ rows) {r} h = elim (Bool-cases (n == x.id)) [
  | inl hit ↦ ground arith
  | inr miss ↦ found_nonneg (nonneg n) rows {r = r} (ground arith)
]
