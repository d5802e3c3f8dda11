-- ===== src/Client/Cache/Copies.antt =====
-- What the cache returns and copies has the item's signature.
use bscp_go.Prelude.{
  ℕ, ◌≡◌, refl, sym, ap, ◌∙◌, inl, inr, Bool, true, false, not, Option, none, some, List, arith,
  ltb, if◌then◌else◌, Bool-cases, Option-cases, bytes_eq, bytes_eq_sound,
}
use bscp_go.Client.Cache.{
  Item, Disk, Exists, yes_exists, not_exists, check_failed, copy, check_file_cache_exists,
  get_file_content, copy_to_file, save_to_file,
}

module _ (sha256 : List ℕ → List ℕ) where
  -- The bytes that `GetFileContent` returns have the item's signature.
  pub get_file_content-signed :
      (d : Disk) (ci : Item) (file : Option (List ℕ)) (bytes : List ℕ)
      → get_file_content sha256 d ci file ≡ some bytes
      → sha256 bytes ≡ ci.signature
  unfolding get_file_content check_file_cache_exists
  get_file_content-signed d ci none bytes h = absurd (ground arith)
  get_file_content-signed d ci (some bs) bytes h =
      elim (Bool-cases (bytes_eq (sha256 bs) ci.signature)) [
        | inr other ↦ absurd (ground arith)
        | inl same ↦
            let here : bs ≡ bytes = ground arith in
            ap sha256 (sym here) ∙ bytes_eq_sound (sha256 bs) ci.signature same
      ]

  -- A file with the item's signature.
  abbrev pub Signed : Item → Option (List ℕ) → Type 0
  Signed ci none = ⊥
  Signed ci (some bytes) = sha256 bytes ≡ ci.signature

  -- A download that reports no error leaves a file with the signature.
  abbrev pub Delivers : Item → Bool × Option (List ℕ) → Type 0
  Delivers ci (done, file) = done ≡ true → Signed ci file

  abbrev Saved : Item → Bool × Option (List ℕ) × Option (List ℕ) → Type 0
  Saved ci (done, cached, target) = done ≡ true → Signed ci target

  copy-Signed :
      (d : Disk) (ci : Item) (file target : Option (List ℕ))
      → Signed ci file
      → Delivers ci (copy d file target)
  unfolding copy
  copy-Signed d ci none target s = absurd s
  copy-Signed d ci (some bytes) target s = elim (Bool-cases d.read_ok) [
    | inr bad ↦ rw bad (λ e. absurd (grind arith))
    | inl good ↦ elim (Bool-cases d.target_ok) [
      | inr bad ↦ rw (good, bad) (λ e. absurd (grind arith))
      | inl open_ ↦ elim (Option-cases d.copied) [
        | inl whole ↦ rw (good, open_, whole) (λ e. s)
        | inr (n, part) ↦ rw (good, open_, part) (λ e. absurd (grind arith))
      ]
    ]
  ]

  copied-Saved :
      (d : Disk) (ci : Item) (cached file target : Option (List ℕ))
      → Signed ci file
      → Saved ci (let (hit, target') = copy d file target in (hit, cached, target'))
  copied-Saved d ci cached file target s = copy-Signed d ci file target s

  checked :
      (d : Disk) (ci : Item) (file : Option (List ℕ))
      → check_file_cache_exists sha256 d ci file ≡ yes_exists
      → Signed ci file
  unfolding check_file_cache_exists
  checked d ci none h = absurd (ground arith)
  checked d ci (some bytes) h = elim (Bool-cases (bytes_eq (sha256 bytes) ci.signature)) [
    | inl same ↦ bytes_eq_sound (sha256 bytes) ci.signature same
    | inr other ↦ absurd (ground arith)
  ]

  copy_to_file-Saved :
      (max_size : ℕ) (d : Disk) (ci : Item) (download : Bool × Option (List ℕ))
      (cached target : Option (List ℕ))
      → Delivers ci download
      → Saved ci (copy_to_file sha256 max_size d ci download cached target)
  unfolding copy_to_file
  copy_to_file-Saved max_size d ci download cached target good =
      elim (Bool-cases (ltb max_size ci.byte_size)) [
        | inl large ↦ rw large (λ e. absurd (grind arith))
        | inr small ↦
            rw small (by_check (check_file_cache_exists sha256 d ci cached) (checked d ci cached))
      ]
    where
      by_check :
          (x : Exists)
          → (x ≡ yes_exists → Signed ci cached)
          → Saved ci (elim x [
            | check_failed ↦ (false, cached, target)
            | yes_exists ↦ let (hit, target') = copy d cached target in (hit, cached, target')
            | not_exists ↦
                if not (download.0)
                then (false, download.1, target)
                else let (hit, target') = copy d (download.1) target in (hit, download.1, target')
          ])
      by_check check_failed h = λ e. absurd (grind arith)
      by_check yes_exists h = copied-Saved d ci cached cached target (h refl)
      by_check not_exists h = elim (Bool-cases (download.0)) [
        | inl done ↦ rw done (copied-Saved d ci (download.1) (download.1) target (good done))
        | inr lost ↦ rw lost (λ e. absurd (grind arith))
      ]

  save_to_file-Saved :
      (enable : Bool) (max_size : ℕ) (d : Disk) (ci : Item)
      (download remote : Bool × Option (List ℕ)) (cached target : Option (List ℕ))
      → Delivers ci download
      → Delivers ci remote
      → Saved ci (save_to_file sha256 enable max_size d ci download remote cached target)
  unfolding save_to_file
  save_to_file-Saved enable max_size d ci download remote cached target good good' =
      elim (Bool-cases enable) [
        | inr off ↦ rw off good'
        | inl on ↦
            let r : Bool × Option (List ℕ) × Option (List ℕ) =
              copy_to_file sha256 max_size d ci download cached target in
            elim (Bool-cases (r.0)) [
              | inl hit ↦
                  rw (on, hit)
                    (λ e. copy_to_file-Saved max_size d ci download cached target good hit)
              | inr missed ↦ rw (on, missed) good'
            ]
      ]

  -- A download that reports no error, to the cache or to the target, leaves a file with the item's
  -- signature. Then so does `SaveToFile`, whatever the cache holds under the signature's name, and
  -- however the files can be read and written.
  pub save_to_file-signed :
      (enable : Bool) (max_size : ℕ) (d : Disk) (ci : Item)
      (download remote : Bool × Option (List ℕ)) (cached target : Option (List ℕ))
      → Delivers ci download
      → Delivers ci remote
      → (save_to_file sha256 enable max_size d ci download remote cached target).0 ≡ true
      → Signed ci ((save_to_file sha256 enable max_size d ci download remote cached target).2)
  save_to_file-signed enable max_size d ci download remote cached target good good' h =
      save_to_file-Saved enable max_size d ci download remote cached target good good' h
