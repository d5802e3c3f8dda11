-- ===== src/Release/Files/Tests.antt =====
-- `clearOldFiles` at a concrete folder: "a/x" is the release's, "a/y" and "ab/x" are not.
use bscp_go.Release.Files.Kept.{Named}
use bscp_go.Prelude.{ℕ, ◌≡◌, refl, ◌↔◌, true, Option, some, List, [], ◌∷◌, arith}
use bscp_go.Release.Files.{
  file, dir, Nodes, nil, cons, ConfigItemFile, keeps_dir, keeps_file, clear, clear_old_files,
}
use bscp_go.Release.Files.Cleared.{HasFile, clear_old_files-HasFile}

abbrev name_a : List ℕ
name_a = 97 ∷ []

abbrev name_ab : List ℕ
name_ab = 97 ∷ 98 ∷ []

abbrev name_x : List ℕ
name_x = 120 ∷ []

abbrev name_y : List ℕ
name_y = 121 ∷ []

abbrev release_files : List ConfigItemFile
release_files = record { path = name_a ∷ []; name = name_x } ∷ []

abbrev old_folder : Option Nodes
old_folder = some (
    cons (dir name_a (cons (file name_x) (cons (file name_y) nil)))
      (cons (dir name_ab (cons (file name_x) nil)) nil))

release_files-Named : Named release_files
release_files-Named = ((λ e. absurd (omega arith), tt), tt)

-- The folder "ab" is removed, since its path does not begin the path "a".
cleared_folder :
    clear_old_files release_files old_folder ≡ some (cons (dir name_a (cons (file name_x) nil)) nil)
unfolding clear_old_files clear keeps_dir keeps_file
cleared_folder = refl

clear_old_files-HasFile_example :
    HasFile (name_a ∷ name_x ∷ []) (clear_old_files release_files old_folder) ↔ (
      HasFile (name_a ∷ name_x ∷ []) old_folder
      × (keeps_file release_files (name_a ∷ name_x ∷ []) ≡ true))
clear_old_files-HasFile_example =
    clear_old_files-HasFile release_files release_files-Named (name_a ∷ name_x ∷ []) old_folder
