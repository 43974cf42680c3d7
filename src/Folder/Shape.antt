-- ===== src/Folder/Shape.antt =====
-- The tree has each listed path once, below its parent.
use mathlib.Core.Path.{fun_ext, ap₂}
use mathlib.Core.List.{append-nil, append_assoc, map-append}
use host_container.World.{FilePath, Word}
use host_container.Text.{text_eq, text_eq_iff}
use host_container.Paths.{workspace, base, dir}
use host_container.Folder.{
  Node, Tree, has_below, lookup, append_child, add_path, add_paths, root, paths_of,
  parser_tree_folder,
}
use host_container.Prelude.{
  Bool, ℕ, List, false, ◌∷◌, ◌≡◌, [], suc, true, ◌++◌, some, arith, refl, map, Bool-cases, inl, inr,
  length, ◌+◌, sym, ap, subst, ◌∙◌,
}
use host_container.Folder.Listing.{
  text_eq_sym, holds_path, IsListing, node_of, heap_of, position, Distinct, ParentsIn, with_child,
  at_path, append_child-map, children_of-append, unequal, children_of_absent, holds_path-append,
  position-append, position_absent, position_held, Distinct-append,
}

-- What the tree is once these paths were added.
record IsShaped (in_dir_set : FilePath → Bool) (ps : List FilePath) (t : Tree) : Type 0 where
  heap_lem : t.heap ≡ heap_of in_dir_set ps
  nodes_lem : (q : FilePath) → lookup q t.nodes ≡ position q (workspace ∷ ps)
  distinct : Distinct (workspace ∷ ps)
  closed : ParentsIn (workspace ∷ ps) ps

length-map {ℓ κ} :
    {A : Type ℓ} {B : Type κ} (f : A → B) (xs : List A) → length (map f xs) ≡ length xs
length-map f [] = refl
length-map f (x ∷ xs) = ap suc (length-map f xs)

module _ (in_dir_set : FilePath → Bool) (ps : List FilePath) (p : FilePath) (t : Tree)
    (shaped : IsShaped in_dir_set ps t) (below : holds_path (dir p) (workspace ∷ ps) ≡ true)
    (new : holds_path p (workspace ∷ ps) ≡ false) where
  node_of-append :
      (q : FilePath)
      → at_path (dir p) (with_child (1 + length ps)) (node_of in_dir_set ps) q
        ≡ node_of in_dir_set (ps ++ p ∷ []) q
  node_of-append q = ground (arith, children_of-append q p 1 ps, text_eq_sym q (dir p))

  new_node :
      record { name = base p; is_dir = in_dir_set p; children = [] }
      ≡ node_of in_dir_set (ps ++ p ∷ []) p
  new_node = ground (
    arith,
    children_of-append p p 1 ps,
    unequal (dir p) p (workspace ∷ ps) below new,
    children_of_absent p 1 (workspace ∷ ps) ps shaped.closed new,
    text_eq_sym p workspace,
  )

  ParentsIn-append :
      (known qs : List FilePath) → ParentsIn known qs → ParentsIn (known ++ p ∷ []) qs
  ParentsIn-append known [] a = tt
  ParentsIn-append known (q ∷ qs) a =
      (ground (arith, holds_path-append (dir q) p known, a.0), ParentsIn-append known qs a.1)

  ParentsIn-snoc :
      (known qs : List FilePath)
      → ParentsIn known qs
      → holds_path (dir p) known ≡ true
      → ParentsIn known (qs ++ p ∷ [])
  ParentsIn-snoc known [] a h = (h, tt)
  ParentsIn-snoc known (q ∷ qs) a h = (a.0, ParentsIn-snoc known qs a.1 h)

  grown : ℕ → Tree
  grown parent = record {
    heap =
        append_child parent (length t.heap) t.heap
        ++ record { name = base p; is_dir = in_dir_set p; children = [] } ∷ [];
    nodes = (p, length t.heap) ∷ t.nodes;
  }

  heap_length : length t.heap ≡ 1 + length ps
  heap_length =
      let e = ap (λ (ns : List Node). length ns) shaped.heap_lem in
      let same = length-map (node_of in_dir_set ps) ps in omega arith

  appended :
      (j : ℕ)
      → position (dir p) (workspace ∷ ps) ≡ some j
      → append_child j (length t.heap) t.heap
        ≡ map (node_of in_dir_set (ps ++ p ∷ [])) (workspace ∷ ps)
  appended j e =
      rw (heap_length, shaped.heap_lem)
        (append_child-map (dir p) (1 + length ps) j (node_of in_dir_set ps) (workspace ∷ ps)
            shaped.distinct e
          ∙ ap (λ (g : FilePath → Node). map g (workspace ∷ ps)) (fun_ext node_of-append))

  grown-heap :
      (j : ℕ)
      → position (dir p) (workspace ∷ ps) ≡ some j
      → (grown j).heap ≡ heap_of in_dir_set (ps ++ p ∷ [])
  unfolding grown
  grown-heap j e =
      ap₂ (λ (ns ms : List Node). ns ++ ms) (appended j e) (ap (λ (n : Node). n ∷ []) new_node)
      ∙ sym (map-append (node_of in_dir_set (ps ++ p ∷ [])) (workspace ∷ ps) (p ∷ []))

  grown-nodes :
      (j : ℕ) (q : FilePath) → lookup q (grown j).nodes ≡ position q (workspace ∷ (ps ++ p ∷ []))
  unfolding grown lookup
  grown-nodes j q = elim (Bool-cases (text_eq p q)) [
    | inl same ↦
        let gone : holds_path q (workspace ∷ ps) ≡ false =
          subst (λ (r : FilePath). holds_path r (workspace ∷ ps) ≡ false) ((text_eq_iff p q).0 same)
            new in
        ground (arith, heap_length, position-append q p ps, position_absent q ps)
    | inr other ↦ ground (arith, position-append q p ps, shaped.nodes_lem q)
  ]

  add_path-IsShaped : IsShaped in_dir_set (ps ++ p ∷ []) (add_path in_dir_set p t)
  unfolding add_path grown
  add_path-IsShaped =
      let (j, e) = position_held (dir p) (workspace ∷ ps) below in
      let found : lookup (dir p) t.nodes ≡ some j = shaped.nodes_lem (dir p) ∙ e in
      let step : add_path in_dir_set p t ≡ grown j = ground arith in
      rw step (record {
        heap_lem = grown-heap j e;
        nodes_lem = grown-nodes j;
        distinct = Distinct-append p (workspace ∷ ps) shaped.distinct new;
        closed =
            ParentsIn-append (workspace ∷ ps) (ps ++ p ∷ [])
              (ParentsIn-snoc (workspace ∷ ps) ps shaped.closed below);
      })

add_paths-IsShaped :
    (in_dir_set : FilePath → Bool) (before ps : List FilePath) (t : Tree)
    → IsShaped in_dir_set before t
    → IsListing before ps
    → IsShaped in_dir_set (before ++ ps) (add_paths in_dir_set ps t)
unfolding add_paths
add_paths-IsShaped s before [] t v l = rw (append-nil before) v
add_paths-IsShaped s before (p ∷ ps) t v l = rw (← append_assoc before (p ∷ []) ps) (
    add_paths-IsShaped s (before ++ p ∷ []) ps (add_path s p t)
      (add_path-IsShaped s before p t v l.0 l.1) l.2)

-- Of a listing in which no path stands twice and the parent of each stands before it, as `find`
-- prints it, each path is in the tree once: the node of the n-th path is the n-th after the
-- root, it has the path's last component as its name and is a directory exactly if the listing
-- has a path below it, and the children of a node are the paths whose parent it is, in order.
pub parser_tree_folder_lem :
    (input : Word)
    → IsListing [] (paths_of input)
    → ((parser_tree_folder input).heap ≡ heap_of (has_below (paths_of input)) (paths_of input))
      × ((q : FilePath)
          → lookup q (parser_tree_folder input).nodes ≡ position q (workspace ∷ paths_of input))
unfolding parser_tree_folder lookup
parser_tree_folder_lem input l =
    let done =
      add_paths-IsShaped (has_below (paths_of input)) [] (paths_of input)
        (record { heap = root ∷ []; nodes = (workspace, 0) ∷ [] })
        (record {
          heap_lem = refl;
          nodes_lem = λ q. ground arith;
          distinct = (refl, tt);
          closed = tt;
        })
        l in
    (done.heap_lem, done.nodes_lem)
