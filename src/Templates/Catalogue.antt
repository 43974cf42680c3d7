-- ===== src/Templates/Catalogue.antt =====
-- The catalogue is in order and complete, and each of its items can be fetched.
use mathlib.Core.List.{Perm}
use mathlib.Core.List.Perm
use host_container.Schema.{TemplateRow}
use host_container.Tables.{find, select}
use host_container.World.{Outside, World, CastLaws, statement, logged, nonneg}
use host_container.Http.{get, payload, is_given}
use host_container.Templates.{
  Json, listed, found, to_response, is_asked, comes_first, insert_template, order_templates,
  get_templates, list_templates, get_template, get_template_by_id, ok, Bigint, matches,
}
use host_container.Prelude.{
  String, Bool, List, ◌≡◌, false, ◌∷◌, true, [], Bool-cases, inl, inr, ◌==◌, arith, none, map, ◌++◌,
  some, ◌≢◌, eq_iff, ◌∙◌, ◌⊎◌, if◌then◌else◌, str_eq, sym,
}

-- The collation orders any two texts.
pub record Collation (le : String → String → Bool) : Type 0 where
  pub total : (s t : String) → le s t ≡ false → le t s ≡ true

module _ (le : String → String → Bool) where
  -- A popular row comes before one that is not, and of two that are alike the one whose name is first.
  abbrev pub Precedes : TemplateRow → TemplateRow → Type 0
  Precedes t u =
      ((t.popular ≡ true) × (u.popular ≡ false))
      ⊎ ((t.popular ≡ u.popular) × (le t.name u.name ≡ true))

  comes_first-Precedes : (t u : TemplateRow) → comes_first le t u ≡ true → Precedes t u
  comes_first-Precedes t u h = elim (Bool-cases t.popular) [
    | inl p ↦ elim (Bool-cases u.popular) [
      | inl q ↦ inr (p ∙ sym q, ground arith)
      | inr q ↦ inl (p, q)
    ]
    | inr p ↦ elim (Bool-cases u.popular) [
      | inl q ↦ absurd (ground arith)
      | inr q ↦ inr (p ∙ sym q, ground arith)
    ]
  ]

  -- Each row precedes the next.
  abbrev pub IsSorted : List TemplateRow → Type 0
  IsSorted [] = Unit
  IsSorted (t ∷ []) = Unit
  IsSorted (t ∷ u ∷ ts) = Precedes t u × IsSorted (u ∷ ts)

  abbrev InOrder : List TemplateRow → Type 0
  InOrder [] = Unit
  InOrder (t ∷ []) = Unit
  InOrder (t ∷ u ∷ ts) = (comes_first le t u ≡ true) × InOrder (u ∷ ts)

  insert_template-perm :
      (t : TemplateRow) (ts : List TemplateRow) → Perm (insert_template le t ts) (t ∷ ts)
  unfolding insert_template
  insert_template-perm t [] = Perm.refl (t ∷ [])
  insert_template-perm t (u ∷ us) = elim (Bool-cases (comes_first le t u)) [
    | inl first ↦ rw first (Perm.refl (t ∷ u ∷ us))
    | inr later ↦ rw later (Perm.trans (Perm.cons u (insert_template-perm t us)) (Perm.swap t u us))
  ]

  order_templates-perm : (ts : List TemplateRow) → Perm (order_templates le ts) ts
  unfolding order_templates
  order_templates-perm [] = Perm.refl []
  order_templates-perm (t ∷ ts) =
      Perm.trans (insert_template-perm t (order_templates le ts))
        (Perm.cons t (order_templates-perm ts))

  comes_first_total :
      (t u : TemplateRow) → Collation le → comes_first le t u ≡ false → comes_first le u t ≡ true
  comes_first_total t u law h = ground (arith, law.total t.name u.name)

  insert_template-InOrder :
      (t : TemplateRow) (ts : List TemplateRow)
      → Collation le
      → InOrder ts
      → InOrder (insert_template le t ts)
  unfolding insert_template
  insert_template-InOrder t [] law o = tt
  insert_template-InOrder t (u ∷ []) law o = elim (Bool-cases (comes_first le t u)) [
    | inl first ↦ rw first (first, tt)
    | inr later ↦ rw later (comes_first_total t u law later, tt)
  ]
  insert_template-InOrder t (u ∷ v ∷ us) law o = elim (Bool-cases (comes_first le t u)) [
    | inl first ↦ rw first (first, o)
    | inr later ↦ elim (Bool-cases (comes_first le t v)) [
      | inl second ↦ rw (later, second) (comes_first_total t u law later, (second, o.1))
      | inr third ↦
          rw (later, third) (o.0, rw third at (insert_template-InOrder t (v ∷ us) law o.1))
    ]
  ]

  order_templates-InOrder : (ts : List TemplateRow) → Collation le → InOrder (order_templates le ts)
  unfolding order_templates
  order_templates-InOrder [] law = tt
  order_templates-InOrder (t ∷ ts) law =
      insert_template-InOrder t (order_templates le ts) law (order_templates-InOrder ts law)

-- The rows of a category; without one, or with `all`, they are all of them.
abbrev pub rows_of : String → List TemplateRow → List TemplateRow
rows_of category ts =
    if str_eq category ""
    then ts
    else if str_eq category "all"
    then ts
    else select (λ t. str_eq t.category category) ts

select-rows_of :
    (category : String) (ts : List TemplateRow)
    → select (is_asked category) ts ≡ rows_of category ts
select-rows_of category [] = ground arith
select-rows_of category (t ∷ ts) = ground (arith, select-rows_of category ts)

InOrder-IsSorted :
    (le : String → String → Bool) (ts : List TemplateRow) → InOrder le ts → IsSorted le ts
InOrder-IsSorted le [] o = tt
InOrder-IsSorted le (t ∷ []) o = tt
InOrder-IsSorted le (t ∷ u ∷ ts) (h, o) =
    (comes_first-Precedes le t u h, InOrder-IsSorted le (u ∷ ts) o)

-- No two rows have one id.
abbrev pub HasDistinctIds : List TemplateRow → Type 0
HasDistinctIds [] = Unit
HasDistinctIds (t ∷ ts) = (find (λ (u : TemplateRow). t.id == u.id) ts ≡ none) × HasDistinctIds ts

find_hit :
    (p : TemplateRow → Bool) (before : List TemplateRow) (t : TemplateRow)
    (later : List TemplateRow)
    → p t ≡ true
    → find p (before ++ t ∷ later) ≢ none
find_hit p [] t later h e = ground arith
find_hit p (u ∷ before) t later h e = ground (arith, find_hit p before t later h)

find_distinct :
    (before : List TemplateRow) (t : TemplateRow) (later : List TemplateRow)
    → HasDistinctIds (before ++ t ∷ later)
    → find (λ (u : TemplateRow). t.id == u.id) (before ++ t ∷ later) ≡ some t
find_distinct [] t later d = ground arith
find_distinct (u ∷ before) t later d = elim (Bool-cases (t.id == u.id)) [
  | inl same ↦
      absurd (find_hit (λ (v : TemplateRow). u.id == v.id) before t later (ground arith) d.0)
  | inr other ↦ rw other (find_distinct before t later d.1)
]

module _ (out : Outside) (json : Json) (le : String → String → Bool) (w : World) where
  get_templates_lem :
      (category : String)
      → out.fails (statement ∷ w.trace) ≡ false
      → get_templates out json le category w
        ≡ (ok (order_templates le (select (is_asked category) w.db.templates)), logged statement w)
  unfolding get_templates
  get_templates_lem category answered = ground arith

  get_template_by_id_lem :
      (id : String) (k : Bigint) (t : TemplateRow)
      → out.to_bigint id ≡ some k
      → find (λ (u : TemplateRow). matches k u.id) w.db.templates ≡ some t
      → out.fails (statement ∷ w.trace) ≡ false
      → get_template_by_id out json le id w ≡ (ok t, logged statement w)
  unfolding get_template_by_id
  get_template_by_id_lem id k t read hit answered = ground arith

  -- A catalogue that the database answers holds the rows of the category that was asked for (all of
  -- them without one, or with `all`) and no other, the popular ones first and then by name; besides
  -- the query nothing is called and nothing changes.
  pub list_templates-catalogue :
      (category : String)
      → Collation le
      → out.fails (statement ∷ w.trace) ≡ false
      → (ts : List TemplateRow) × (list_templates out json le get category w ≡ (
        record { status = 200; body = payload (listed (map (to_response json out.to_text) ts)) },
        logged statement w,
      ))
        × IsSorted le ts
        × Perm ts (rows_of category w.db.templates)
  unfolding list_templates
  list_templates-catalogue category law answered =
      let e = get_templates_lem category answered in
      let asked = select (is_asked category) w.db.templates in
      (
        order_templates le asked,
        ground arith,
        InOrder-IsSorted le (order_templates le asked) (order_templates-InOrder le asked law),
        rw⁻¹ (select-rows_of category w.db.templates) (order_templates-perm le asked),
      )

  -- Each row of the table is fetched by the id that the catalogue shows for it, as the catalogue shows
  -- it, where ids are read back and no two rows have one.
  pub get_template-shown :
      (before : List TemplateRow) (t : TemplateRow) (later : List TemplateRow)
      → w.db.templates ≡ before ++ t ∷ later
      → HasDistinctIds (before ++ t ∷ later)
      → CastLaws out
      → out.to_text t.id ≢ ""
      → out.fails (statement ∷ w.trace) ≡ false
      → (get_template out json le get (to_response json out.to_text t).id w).0
        ≡ record { status = 200; body = payload (found (to_response json out.to_text t)) }
  unfolding get_template to_response
  get_template-shown before t later rows d laws named answered =
      let hit : find (λ (u : TemplateRow). t.id == u.id) w.db.templates ≡ some t =
        rw rows (find_distinct before t later d) in
      let given : is_given (out.to_text t.id) ≡ true =
        ground (arith, eq_iff (out.to_text t.id) "") in
      let e =
        get_template_by_id_lem (out.to_text t.id) (nonneg t.id) t (laws.read_back t.id) hit
          answered in
      ground arith
