-- ===== src/Client/Cache/Oldest.antt =====
-- The cleanup removes the oldest files, and no more than are needed.
use mathlib.Core.Path.{subst}
use bscp_go.Prelude.{
  ℕ, zero, suc, ◌+◌, ◌-◌, ◌≤◌, ◌<◌, ◌≡◌, refl, ap, ◌⊎◌, inl, inr, Bool, true, List, [], ◌∷◌, ◌++◌,
  arith, leb, ◌==◌, Bool-cases, length,
}
use bscp_go.Client.Cache.{
  FileInfo, insert, sort_by_time, list_files_by_mod_time, remove_oldest, cleanup_oldest_files,
}

abbrev pub total : List FileInfo → ℕ
total [] = 0
total (f ∷ fs) = f.size + total fs

abbrev pub first : ℕ → List FileInfo → List FileInfo
first zero fs = []
first (suc k) [] = []
first (suc k) (f ∷ fs) = f ∷ first k fs

-- A beginning of the files is removed and the rest left. The removed free the space, or all are
-- removed; and no shorter beginning of at least one file would free it.
abbrev pub Removes : ℕ → List FileInfo → List FileInfo → Type 0
Removes space fs left =
    (removed : List FileInfo) × (fs ≡ removed ++ left)
    × ((left ≡ []) ⊎ (space ≤ total removed))
    × ((k : ℕ) → 0 < k → k < length removed → total (first k removed) < space)

abbrev pub all_ok : List FileInfo → List Bool
all_ok [] = []
all_ok (f ∷ fs) = true ∷ all_ok fs

least_next :
    (f : FileInfo) (removed : List FileInfo) (space : ℕ)
    → 0 < space - f.size
    → ((k : ℕ) → 0 < k → k < length removed → total (first k removed) < space - f.size)
    → (k : ℕ) → 0 < k
    → k < length (f ∷ removed)
    → total (first k (f ∷ removed)) < space
least_next f removed space more least zero p l = absurd (omega arith)
least_next f removed space more least (suc zero) p l = omega arith
least_next f removed space more least (suc (suc k)) p l =
    omega (arith, least (suc k) (omega arith) (omega arith))

remove_oldest-Removes :
    (fs : List FileInfo) (space : ℕ) → Removes space fs ((remove_oldest fs (all_ok fs) space).1)
unfolding remove_oldest
remove_oldest-Removes [] space = ([], refl, inl refl, λ k p l. absurd (omega arith))
remove_oldest-Removes (f ∷ fs) space = elim (Bool-cases (space - f.size == 0)) [
  | inl freed ↦ rw freed (f ∷ [], refl, inr (ground arith), λ k p l. absurd (omega arith))
  | inr more ↦
      let (removed, parts, enough, least) = remove_oldest-Removes fs (space - f.size) in
      rw more (
        f ∷ removed,
        ap (λ (l : List FileInfo). f ∷ l) parts,
        elim enough [ inl none_left ↦ inl none_left | inr freed ↦ inr (omega arith) ],
        least_next f removed space (ground arith) least,
      )
]

abbrev pub AllFrom : ℕ → List FileInfo → Type 0
AllFrom t [] = Unit
AllFrom t (f ∷ fs) = (t ≤ f.mod_time) × AllFrom t fs

abbrev IsSorted : List FileInfo → Type 0
IsSorted [] = Unit
IsSorted (f ∷ fs) = AllFrom f.mod_time fs × IsSorted fs

AllFrom-le : (s t : ℕ) (fs : List FileInfo) → s ≤ t → AllFrom t fs → AllFrom s fs
AllFrom-le s t [] l h = tt
AllFrom-le s t (f ∷ fs) l (m, h) = (omega arith, AllFrom-le s t fs l h)

AllFrom-insert :
    (t : ℕ) (f : FileInfo) (fs : List FileInfo)
    → t ≤ f.mod_time
    → AllFrom t fs
    → AllFrom t (insert f fs)
unfolding insert
AllFrom-insert t f [] l h = (l, tt)
AllFrom-insert t f (g ∷ gs) l (m, h) = elim (Bool-cases (leb f.mod_time g.mod_time)) [
  | inl here ↦ rw here (l, (m, h))
  | inr later ↦ rw later (m, AllFrom-insert t f gs l h)
]

insert-IsSorted : (f : FileInfo) (fs : List FileInfo) → IsSorted fs → IsSorted (insert f fs)
unfolding insert
insert-IsSorted f [] h = (tt, tt)
insert-IsSorted f (g ∷ gs) (m, h) = elim (Bool-cases (leb f.mod_time g.mod_time)) [
  | inl here ↦
      let le : f.mod_time ≤ g.mod_time = ground arith in
      rw here ((le, AllFrom-le f.mod_time g.mod_time gs le m), (m, h))
  | inr later ↦
      let le : g.mod_time ≤ f.mod_time = ground arith in
      rw later (AllFrom-insert g.mod_time f gs le m, insert-IsSorted f gs h)
]

sort_by_time-IsSorted : (fs : List FileInfo) → IsSorted (sort_by_time fs)
unfolding sort_by_time
sort_by_time-IsSorted [] = tt
sort_by_time-IsSorted (f ∷ fs) = insert-IsSorted f (sort_by_time fs) (sort_by_time-IsSorted fs)

-- No removed file is newer than one that is left.
abbrev pub Older : List FileInfo → List FileInfo → Type 0
Older [] left = Unit
Older (f ∷ fs) left = AllFrom f.mod_time left × Older fs left

AllFrom-behind : (t : ℕ) (fs gs : List FileInfo) → AllFrom t (fs ++ gs) → AllFrom t gs
AllFrom-behind t [] gs h = h
AllFrom-behind t (f ∷ fs) gs (l, h) = AllFrom-behind t fs gs h

sorted-Older : (fs gs : List FileInfo) → IsSorted (fs ++ gs) → Older fs gs
sorted-Older [] gs h = tt
sorted-Older (f ∷ fs) gs (m, h) = (AllFrom-behind f.mod_time fs gs m, sorted-Older fs gs h)

-- When the files can be listed and every removal works, the cleanup removes a beginning of the files
-- sorted by time: no file that is removed is newer than one that is left, the removed files free the
-- space or no file is left, and no shorter beginning of at least one file would have freed it.
pub cleanup-oldest :
    (fs : List FileInfo) (space : ℕ)
    → let files = sort_by_time fs in
      let left = (cleanup_oldest_files true fs (all_ok files) space).1 in
      (removed : List FileInfo) × (files ≡ removed ++ left)
      × Older removed left
      × ((left ≡ []) ⊎ (space ≤ total removed))
      × ((k : ℕ) → 0 < k → k < length removed → total (first k removed) < space)
unfolding cleanup_oldest_files list_files_by_mod_time
cleanup-oldest fs space =
    let files : List FileInfo = sort_by_time fs in
    let (removed, parts, enough, least) = remove_oldest-Removes files space in
    (
      removed,
      parts,
      sorted-Older removed ((remove_oldest files (all_ok files) space).1)
          (subst IsSorted parts (sort_by_time-IsSorted fs)),
      enough,
      least,
    )
