-- ===== src/Folder.antt =====
-- utils/parser.go: the tree of a listing of files.
--
-- The nodes are on a heap, since the map `nodes` and the lists of children point to the same ones: a
-- pointer is the place of a node, and the root is the first. A space is one of the ASCII ones.
pub mod Listing
pub mod Shape
use host_container.World.{FilePath, Word, pool}
use host_container.Text.{codes, text_eq, has_prefix}
use host_container.Text.Lines.{split_on}
use host_container.Paths.{slash, workspace, base, dir, dot}
use host_container.Cors.{trim_space}
use host_container.Prelude.{
  ◌∷◌, List, ℕ, Bool, true, none, Option, [], if◌then◌else◌, false, ◌++◌, ◌||◌, suc, some, length,
  zero,
}

pub record Node : Type 0 where
  pub name : FilePath
  pub is_dir : Bool  -- the type is `dir`, and `file` otherwise
  pub children : List ℕ

-- The heap, and the map from a path to its node, the newest entry first.
pub record Tree : Type 0 where
  pub heap : List Node
  pub nodes : List (FilePath × ℕ)

-- The loop over the lines.
unfoldable pub keep_paths : List Word → List FilePath
keep_paths [] = []
keep_paths (l ∷ ls) =
    let rest = keep_paths ls in
    let line = trim_space l in
    if text_eq line [] || text_eq line workspace then rest else line ∷ rest

unfoldable pub paths_of : Word → List FilePath
unfolding keep_paths
paths_of input = keep_paths (split_on 10 (trim_space input))

-- The first pass: whether a path is in `dirSet`. It is asked of the listed paths only.
unfoldable pub has_below : List FilePath → FilePath → Bool
has_below [] p = false
has_below (q ∷ qs) p = has_prefix (p ++ slash ∷ []) q || has_below qs p

unfoldable pub lookup : FilePath → List (FilePath × ℕ) → Option ℕ
lookup p [] = none
lookup p ((q, i) ∷ m) = if text_eq q p then some i else lookup p m

unfoldable pub append_child : ℕ → ℕ → List Node → List Node
append_child i child [] = []
append_child zero child (n ∷ ns) = record n { children = n.children ++ child ∷ [] } ∷ ns
append_child (suc i) child (n ∷ ns) = n ∷ append_child i child ns

-- The body of the second pass. A path whose parent is not there is left out.
unfoldable pub add_path : (FilePath → Bool) → FilePath → Tree → Tree
add_path in_dir_set p t = elim (lookup (dir p) t.nodes) [
  | none ↦ t
  | some parent ↦ record {
    heap =
        append_child parent (length t.heap) t.heap
        ++ record { name = base p; is_dir = in_dir_set p; children = [] } ∷ [];
    nodes = (p, length t.heap) ∷ t.nodes;
  }
]

unfoldable pub add_paths : (FilePath → Bool) → List FilePath → Tree → Tree
add_paths in_dir_set [] t = t
add_paths in_dir_set (p ∷ ps) t = add_paths in_dir_set ps (add_path in_dir_set p t)

abbrev pub root : Node
root = record { name = dot; is_dir = true; children = [] }

unfoldable pub parser_tree_folder : Word → Tree
unfolding add_paths
parser_tree_folder input =
    add_paths (has_below (paths_of input)) (paths_of input)
      (record { heap = root ∷ []; nodes = (workspace, 0) ∷ [] })
