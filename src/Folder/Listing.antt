-- ===== src/Folder/Listing.antt =====
-- Listings, and how a path that is added changes the tree that a listing stands for.
use mathlib.Core.Option
use mathlib.Core.Bool.{true≢false}
use host_container.World.{FilePath}
use host_container.Text.{text_eq, text_eq_iff}
use host_container.Paths.{workspace, base, dir}
use host_container.Folder.{Node, append_child, dot}
use host_container.Prelude.{
  Bool, ℕ, List, false, ◌∷◌, ◌||◌, ◌≡◌, [], suc, true, ◌++◌, some, none, arith, refl, Option, map,
  All, Bool-cases, inl, inr, if◌then◌else◌, length, ◌+◌, sym, ap, subst, Option-cases, ◌∙◌,
}

pub text_eq_sym : (s t : FilePath) → text_eq s t ≡ text_eq t s
text_eq_sym [] [] = refl
text_eq_sym [] (b ∷ t) = refl
text_eq_sym (a ∷ s) [] = refl
text_eq_sym (a ∷ s) (b ∷ t) = ground (arith, text_eq_sym s t)

abbrev pub holds_path : FilePath → List FilePath → Bool
holds_path p [] = false
holds_path p (q ∷ qs) = text_eq q p || holds_path p qs

-- The numbers of the paths, counted from `n`, whose parent is this one.
abbrev pub children_of : FilePath → ℕ → List FilePath → List ℕ
children_of d n [] = []
children_of d n (p ∷ ps) =
    let rest = children_of d (suc n) ps in if text_eq (dir p) d then n ∷ rest else rest

-- A listing in which no path stands twice and the parent of each stands before it, given what stands
-- before.
abbrev pub IsListing : List FilePath → List FilePath → Type 0
IsListing before [] = Unit
IsListing before (p ∷ ps) =
    (holds_path (dir p) (workspace ∷ before) ≡ true)
    × (holds_path p (workspace ∷ before) ≡ false)
    × IsListing (before ++ p ∷ []) ps

-- The node of a path, where these paths are in the tree.
abbrev pub node_of : (FilePath → Bool) → List FilePath → FilePath → Node
node_of in_dir_set ps p = record {
  name = if text_eq p workspace then dot else base p;
  is_dir = text_eq p workspace || in_dir_set p;
  children = children_of p 1 ps;
}

-- The heap that holds the root and these paths, in their order.
abbrev pub heap_of : (FilePath → Bool) → List FilePath → List Node
heap_of in_dir_set ps = map (node_of in_dir_set ps) (workspace ∷ ps)

-- The place of a path.
abbrev pub position : FilePath → List FilePath → Option ℕ
position p [] = none
position p (q ∷ qs) = if text_eq q p then some 0 else Option.map suc (position p qs)

abbrev pub Distinct : List FilePath → Type 0
Distinct [] = Unit
Distinct (p ∷ ps) = (holds_path p ps ≡ false) × Distinct ps

abbrev pub ParentsIn : List FilePath → List FilePath → Type 0
ParentsIn known ps = All (λ (p : FilePath). holds_path (dir p) known ≡ true) ps

abbrev pub with_child : ℕ → Node → Node
with_child c n = record n { children = n.children ++ c ∷ [] }

abbrev pub at_path : FilePath → (Node → Node) → (FilePath → Node) → FilePath → Node
at_path d g f q = if text_eq q d then g (f q) else f q

pub map-at_path_absent :
    (d : FilePath) (g : Node → Node) (f : FilePath → Node) (qs : List FilePath)
    → holds_path d qs ≡ false
    → map (at_path d g f) qs ≡ map f qs
map-at_path_absent d g f [] h = refl
map-at_path_absent d g f (q ∷ qs) h = ground (arith, map-at_path_absent d g f qs)

-- A child is appended to the one node of its parent.
pub append_child-map :
    (d : FilePath) (c i : ℕ) (f : FilePath → Node) (qs : List FilePath)
    → Distinct qs
    → position d qs ≡ some i
    → append_child i c (map f qs) ≡ map (at_path d (with_child c) f) qs
unfolding append_child
append_child-map d c i f [] u h = absurd (cc h)
append_child-map d c i f (q ∷ qs) u h = elim (Bool-cases (text_eq q d)) [
  | inl same ↦
      let first : i ≡ 0 = ground arith in
      let gone : holds_path d qs ≡ false =
        subst (λ (r : FilePath). holds_path r qs ≡ false) ((text_eq_iff q d).0 same) u.0 in
      rw (first, same)
        (ap (λ (ns : List Node). with_child c (f q) ∷ ns)
          (sym (map-at_path_absent d (with_child c) f qs gone)))
  | inr other ↦ elim (Option-cases (position d qs)) [
    | inl e ↦ absurd (ground arith)
    | inr (j, e) ↦
        let later : i ≡ suc j = ground arith in
        rw (later, other) (ap (λ (ns : List Node). f q ∷ ns) (append_child-map d c j f qs u.1 e))
  ]
]

pub children_of-append :
    (d p : FilePath) (n : ℕ) (ps : List FilePath)
    → children_of d n (ps ++ p ∷ []) ≡ (
        if text_eq (dir p) d
        then children_of d n ps ++ (n + length ps) ∷ []
        else children_of d n ps)
children_of-append d p n [] = ground arith
children_of-append d p n (q ∷ ps) = ground (arith, children_of-append d p (suc n) ps)

pub unequal :
    (p q : FilePath) (known : List FilePath)
    → holds_path p known ≡ true
    → holds_path q known ≡ false
    → text_eq p q ≡ false
unequal p q known h k = elim (Bool-cases (text_eq p q)) [
  | inl same ↦
      let e = (text_eq_iff p q).0 same in
      absurd (true≢false (sym h ∙ ap (λ (r : FilePath). holds_path r known) e ∙ k))
  | inr other ↦ other
]

-- A path that is not there has no child there.
pub children_of_absent :
    (p : FilePath) (n : ℕ) (known ps : List FilePath)
    → ParentsIn known ps
    → holds_path p known ≡ false
    → children_of p n ps ≡ []
children_of_absent p n known [] a h = refl
children_of_absent p n known (q ∷ ps) a h =
    ground (arith, unequal (dir q) p known, children_of_absent p (suc n) known ps a.1 h)

pub holds_path-append :
    (q p : FilePath) (ps : List FilePath)
    → holds_path q (ps ++ p ∷ []) ≡ (holds_path q ps || text_eq p q)
holds_path-append q p [] = ground arith
holds_path-append q p (r ∷ ps) = ground (arith, holds_path-append q p ps)

pub position-append :
    (q p : FilePath) (ps : List FilePath)
    → position q (ps ++ p ∷ []) ≡ elim (position q ps) [
      | some i ↦ some i
      | none ↦ if text_eq p q then some (length ps) else none
    ]
position-append q p [] = ground arith
position-append q p (r ∷ ps) = ground (arith, position-append q p ps)

pub position_absent :
    (q : FilePath) (ps : List FilePath) → holds_path q ps ≡ false → position q ps ≡ none
position_absent q [] h = refl
position_absent q (p ∷ ps) h = ground (arith, position_absent q ps)

pub position_held :
    (q : FilePath) (ps : List FilePath)
    → holds_path q ps ≡ true
    → (i : ℕ) × (position q ps ≡ some i)
position_held q [] h = absurd (cc h)
position_held q (p ∷ ps) h = elim (Bool-cases (text_eq p q)) [
  | inl same ↦ (0, ground arith)
  | inr other ↦ let (i, e) = position_held q ps (ground arith) in (suc i, ground arith)
]

pub Distinct-append :
    (p : FilePath) (ps : List FilePath)
    → Distinct ps
    → holds_path p ps ≡ false
    → Distinct (ps ++ p ∷ [])
Distinct-append p [] u h = (refl, tt)
Distinct-append p (q ∷ ps) u h = (
  ground (arith, holds_path-append q p ps, text_eq_sym p q),
  Distinct-append p ps u.1 (ground arith),
)
