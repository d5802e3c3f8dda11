-- ===== src/Release/Folder/Again.antt =====
-- An update of a folder that is up to date.
use bscp_go.Prelude.{Bool, true, not, ◌&&◌, List, [], ◌∷◌}
use bscp_go.Release.Folder.{Wanted, Meets, is_set}

-- The same files, each of which meets the same.
abbrev pub again_with : Meets → List (Meets × Wanted) → List (Meets × Wanted)
again_with m [] = []
again_with m ((m', w) ∷ runs) = (m, w) ∷ again_with m runs

-- No file is to be converted.
abbrev pub none_converted : List (Meets × Wanted) → Bool
none_converted [] = true
none_converted ((m, w) ∷ runs) = not (is_set w.line_break) && none_converted runs

-- The folder can be made, and a file in it found and read.
abbrev pub can_check : Meets → Bool
can_check m = m.mkdir_ok && m.disk.stat_ok && m.disk.hash_ok
