-- ===== src/Release/Files.antt =====
-- client/types.go: `clearOldFiles`, the walk that removes the files and folders of earlier releases.
-- A name is a byte string, a path a list of names below the root; 47 is the slash.
pub mod Cleared
pub mod Kept
mod Tests
use bscp_go.Prelude.{
  ℕ, Bool, false, ◌||◌, Option, none, some, List, [], ◌∷◌, ◌++◌, if◌then◌else◌, bytes_eq,
  has_prefix,
}

mutual
  pub data Node : Type 0 where
    file : List ℕ → Node
    dir : List ℕ → Nodes → Node

  pub data Nodes : Type 0 where
    nil : Nodes
    cons : Node → Nodes → Nodes

-- A config item's `Path` and `Name`.
pub record ConfigItemFile : Type 0 where
  pub path : List (List ℕ)
  pub name : List ℕ

-- `filepath.Join` of the root and the names, from the root on.
pub join : List (List ℕ) → List ℕ
join [] = []
join (p ∷ ps) = (47 ∷ p) ++ join ps

-- Whether a folder is kept: its path begins the folder of some config item.
pub keeps_dir : List ConfigItemFile → List (List ℕ) → Bool
unfolding join has_prefix
keeps_dir [] path = false
keeps_dir (f ∷ fs) path =
    let rest = keeps_dir fs path in has_prefix (join f.path) (join path) || rest

pub keeps_file : List ConfigItemFile → List (List ℕ) → Bool
unfolding join
keeps_file [] path = false
keeps_file (f ∷ fs) path =
    let rest = keeps_file fs path in bytes_eq (join (f.path ++ (f.name ∷ []))) (join path) || rest

unfoldable mutual
  unfolding keeps_file keeps_dir

  -- The walk of a folder's entries, with every removal successful. A folder that is not kept is
  -- removed with all it has, and not walked.
  pub clear : List ConfigItemFile → List (List ℕ) → Node → Nodes → Nodes
  clear fs path (file n) rest =
      if keeps_file fs (path ++ (n ∷ [])) then cons (file n) rest else rest
  clear fs path (dir n entries) rest =
      let inside = clear_all fs (path ++ (n ∷ [])) entries in
      if keeps_dir fs (path ++ (n ∷ [])) then cons (dir n inside) rest else rest

  pub clear_all : List ConfigItemFile → List (List ℕ) → Nodes → Nodes
  clear_all fs path nil = nil
  clear_all fs path (cons n ns) = clear fs path n (clear_all fs path ns)

-- `clearOldFiles`: the root is `none` where it does not exist, before or after.
pub clear_old_files : List ConfigItemFile → Option Nodes → Option Nodes
unfolding keeps_dir
clear_old_files fs none = none
clear_old_files fs (some entries) = if keeps_dir fs [] then some (clear_all fs [] entries) else none
