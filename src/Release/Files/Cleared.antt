-- ===== src/Release/Files/Cleared.antt =====
-- After `clearOldFiles` exactly the release's files are left of those that were there.
use mathlib.Core.Path.{subst}
use bscp_go.Release.Files.Kept.{Named, kept_above}
use bscp_go.Prelude.{
  ℕ, ◌≡◌, sym, ap, ◌∙◌, ◌↔◌, ◌⊎◌, inl, inr, true, Option, none, some, List, [], ◌∷◌, ◌++◌, arith,
  Bool-cases, append_one,
}
use bscp_go.Release.Files.{
  Node, file, dir, Nodes, nil, cons, ConfigItemFile, keeps_dir, keeps_file, clear, clear_all,
  clear_old_files,
}

mutual
  -- A file at the path is in the folder.
  pub HasNode : List (List ℕ) → Node → Type 0
  HasNode [] n = ⊥
  HasNode (p ∷ []) (file m) = p ≡ m
  HasNode (p ∷ q ∷ ps) (file m) = ⊥
  HasNode (p ∷ ps) (dir m es) = (p ≡ m) × Has ps es

  pub Has : List (List ℕ) → Nodes → Type 0
  Has p nil = ⊥
  Has p (cons n ns) = HasNode p n ⊎ Has p ns

abbrev pub HasFile : List (List ℕ) → Option Nodes → Type 0
HasFile p none = ⊥
HasFile p (some ns) = Has p ns

module _ (fs : List ConfigItemFile) where
  -- A file of the folder whose path is kept.
  abbrev KeptNode : List (List ℕ) → List (List ℕ) → Node → Type 0
  KeptNode base p n = HasNode p n × (keeps_file fs (base ++ p) ≡ true)

  abbrev Kept : List (List ℕ) → List (List ℕ) → Nodes → Type 0
  Kept base p ns = Has p ns × (keeps_file fs (base ++ p) ≡ true)

  file_kept :
      (base p : List (List ℕ)) (m : List ℕ)
      → HasNode p (file m)
      → keeps_file fs (base ++ (m ∷ [])) ≡ true
      → keeps_file fs (base ++ p) ≡ true
  unfolding HasNode
  file_kept base [] m h k = absurd h
  file_kept base (q ∷ []) m h k =
      subst (λ (x : List ℕ). keeps_file fs (base ++ (x ∷ [])) ≡ true) (sym h) k
  file_kept base (q ∷ r ∷ ps) m h k = absurd h

  below :
      (base ps : List (List ℕ)) (q m : List ℕ) → q ≡ m → base ++ (q ∷ ps) ≡ (base ++ (m ∷ [])) ++ ps
  below base ps q m e = ap (λ (x : List ℕ). base ++ (x ∷ ps)) e ∙ sym (append_one base ps m)

  mutual
    unfolding clear HasNode

    to_node :
        (base p : List (List ℕ)) (n : Node) (rest : Nodes)
        → Has p (clear fs base n rest)
        → KeptNode base p n ⊎ Has p rest
    to_node base p (file m) rest h = elim (Bool-cases (keeps_file fs (base ++ (m ∷ [])))) [
      | inr gone ↦ inr (rw gone at h)
      | inl k ↦ elim (rw k at h) [
        | inl has ↦ inl (has, file_kept base p m has k)
        | inr later ↦ inr later
      ]
    ]
    to_node base [] (dir m es) rest h = elim (Bool-cases (keeps_dir fs (base ++ (m ∷ [])))) [
      | inr gone ↦ inr (rw gone at h)
      | inl k ↦ elim (rw k at h) [ inl has ↦ absurd has | inr later ↦ inr later ]
    ]
    to_node base (q ∷ ps) (dir m es) rest h = elim (Bool-cases (keeps_dir fs (base ++ (m ∷ [])))) [
      | inr gone ↦ inr (rw gone at h)
      | inl k ↦ elim (rw k at h) [
        | inr later ↦ inr later
        | inl (same, has) ↦
            let (has', kept) = to_all (base ++ (m ∷ [])) ps es has in
            inl ((same, has'), ap (keeps_file fs) (below base ps q m same) ∙ kept)
      ]
    ]

    to_all : (base p : List (List ℕ)) (ns : Nodes) → Has p (clear_all fs base ns) → Kept base p ns
    to_all base p nil h = absurd h
    to_all base p (cons n ns) h = elim (to_node base p n (clear_all fs base ns) h) [
      | inl (has, kept) ↦ (inl has, kept)
      | inr later ↦ let (has, kept) = to_all base p ns later in (inr has, kept)
    ]

  mutual
    unfolding HasNode

    none_empty : (n : Node) → HasNode [] n → ⊥
    none_empty (file m) h = h
    none_empty (dir m es) h = h

    none_empty_all : (ns : Nodes) → Has [] ns → ⊥
    none_empty_all nil h = h
    none_empty_all (cons n ns) (inl h) = none_empty n h
    none_empty_all (cons n ns) (inr h) = none_empty_all ns h

  file_kept_back :
      (base p : List (List ℕ)) (m : List ℕ)
      → HasNode p (file m)
      → keeps_file fs (base ++ p) ≡ true
      → keeps_file fs (base ++ (m ∷ [])) ≡ true
  unfolding HasNode
  file_kept_back base [] m h k = absurd h
  file_kept_back base (q ∷ []) m h k =
      subst (λ (x : List ℕ). keeps_file fs (base ++ (x ∷ [])) ≡ true) h k
  file_kept_back base (q ∷ r ∷ ps) m h k = absurd h

  dir_kept :
      (base ps : List (List ℕ)) (es : Nodes)
      → Named fs
      → Has ps es
      → keeps_file fs (base ++ ps) ≡ true
      → keeps_dir fs base ≡ true
  dir_kept base [] es n h k = absurd (none_empty_all es h)
  dir_kept base (q ∷ ps) es n h k = kept_above fs base q ps n k

  module _ (named : Named fs) where
    mutual
      unfolding clear HasNode

      back_node :
          (base p : List (List ℕ)) (n : Node) (rest : Nodes)
          → KeptNode base p n ⊎ Has p rest
          → Has p (clear fs base n rest)
      back_node base p (file m) rest (inl (has, kept)) =
          rw (file_kept_back base p m has kept) (inl has)
      back_node base p (file m) rest (inr later) =
          elim (Bool-cases (keeps_file fs (base ++ (m ∷ [])))) [
            | inl k ↦ rw k (inr later)
            | inr gone ↦ rw gone later
          ]
      back_node base [] (dir m es) rest (inl (has, kept)) = absurd has
      back_node base (q ∷ ps) (dir m es) rest (inl ((same, has), kept)) =
          let kept' : keeps_file fs ((base ++ (m ∷ [])) ++ ps) ≡ true =
            sym (ap (keeps_file fs) (below base ps q m same)) ∙ kept in
          rw (dir_kept (base ++ (m ∷ [])) ps es named has kept')
            (inl (same, back_all (base ++ (m ∷ [])) ps es (has, kept')))
      back_node base p (dir m es) rest (inr later) =
          elim (Bool-cases (keeps_dir fs (base ++ (m ∷ [])))) [
            | inl k ↦ rw k (inr later)
            | inr gone ↦ rw gone later
          ]

      back_all :
          (base p : List (List ℕ)) (ns : Nodes) → Kept base p ns → Has p (clear_all fs base ns)
      back_all base p nil (has, kept) = has
      back_all base p (cons n ns) (inl has, kept) =
          back_node base p n (clear_all fs base ns) (inl (has, kept))
      back_all base p (cons n ns) (inr has, kept) =
          back_node base p n (clear_all fs base ns) (inr (back_all base p ns (has, kept)))

    -- When every removal works, and no config item's name has a slash, `clearOldFiles` leaves exactly
    -- those files that were there and are a config item's of the release, in whatever folders they
    -- lie: none of the release's is lost, though folders are removed unseen.
    pub clear_old_files-HasFile :
        (p : List (List ℕ)) (root : Option Nodes)
        → HasFile p (clear_old_files fs root) ↔ (HasFile p root × (keeps_file fs p ≡ true))
    unfolding clear_old_files
    clear_old_files-HasFile p none = (λ h. absurd h, λ h. h.0)
    clear_old_files-HasFile p (some entries) = elim (Bool-cases (keeps_dir fs [])) [
      | inl k ↦ rw k (to_all [] p entries, back_all [] p entries)
      | inr gone ↦ rw gone (
        λ h. absurd h,
        λ (has, kept).
            let there : keeps_dir fs [] ≡ true = dir_kept [] p entries named has kept in
            absurd (grind arith),
      )
    ]
