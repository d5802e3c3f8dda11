-- ===== src/Release/Updates/Counted.antt =====
-- `updateFiles` without an error has counted every file.
use mathlib.Core.Path.{subst}
use bscp_go.Prelude.{
  ℕ, suc, ◌+◌, ◌%◌, ◌^◌, ◌<◌, ◌≡◌, refl, sym, ap, ◌∙◌, ◌⊎◌, inl, inr, true, Option, none, some,
  List, [], ◌∷◌, arith, Option-cases, length,
}
use bscp_go.Release.Updates.{
  Check, present, absent, check_err, FileRun, UpdateErr, Counters, zeros, complete, update_file,
  run_files, update_files,
}

abbrev pub size_of : List FileRun → ℕ
size_of [] = 0
size_of (f ∷ fs) = f.byte_size + size_of fs

-- The file was there, or is saved; it is converted, if need be.
abbrev pub UpToDate : FileRun → Type 0
UpToDate f =
    (f.mkdir_ok ≡ true)
    × ((f.check ≡ present) ⊎ ((f.check ≡ absent) × (f.save_ok ≡ true)))
    × ((f.converts ≡ true) → (f.convert_ok ≡ true))

abbrev pub AllUpToDate : List FileRun → Type 0
AllUpToDate [] = Unit
AllUpToDate (f ∷ fs) = UpToDate f × AllUpToDate fs

-- What the counters gain.
abbrev Gains : ℕ → ℕ → Counters → Counters → Type 0
Gains n size c c' =
    (c'.failed ≡ c.failed)
    × (c'.success + c'.skip ≡ c.success + c.skip + n)
    × (c'.downloads ≡ c.downloads + n)
    × (c'.file_size ≡ (c.file_size + size) % 2 ^ 64)

Check-cases : (k : Check) → (k ≡ present) ⊎ (k ≡ absent) ⊎ (k ≡ check_err)
Check-cases present = inl refl
Check-cases absent = inr (inl refl)
Check-cases check_err = inr (inr refl)

update_file-UpToDate : (f : FileRun) (c : Counters) → (update_file f c).0 ≡ none → UpToDate f
unfolding update_file complete
update_file-UpToDate f c h = (ground arith, there (Check-cases f.check), λ e. ground arith)
  where
    there :
        (f.check ≡ present) ⊎ (f.check ≡ absent) ⊎ (f.check ≡ check_err)
        → (f.check ≡ present) ⊎ ((f.check ≡ absent) × (f.save_ok ≡ true))
    there (inl here) = inl here
    there (inr (inl missing)) = inr (missing, ground arith)
    there (inr (inr bad)) = absurd (ground arith)

update_file-Gains :
    (f : FileRun) (c : Counters)
    → (update_file f c).0 ≡ none
    → Gains 1 f.byte_size c ((update_file f c).1)
unfolding update_file complete
update_file-Gains f c h = ground arith

run_files-err :
    (fs : List FileRun) (x : UpdateErr) (c : Counters) → (run_files fs (some x) c).0 ≡ some x
unfolding run_files
run_files-err [] x c = refl
run_files-err (f ∷ fs) x c = run_files-err fs x ((update_file f c).1)

Gains-trans :
    (n a b : ℕ) (c c' c'' : Counters)
    → Gains 1 a c c'
    → Gains n b c' c''
    → Gains (suc n) (a + b) c c''
Gains-trans n a b c c' c'' (f, s, d, z) (f', s', d', z') =
    (f' ∙ f, omega arith, omega arith, omega arith)

run_files-Gains :
    (fs : List FileRun) (c : Counters)
    → c.file_size < 2 ^ 64
    → (run_files fs none c).0 ≡ none
    → AllUpToDate fs × Gains (length fs) (size_of fs) c ((run_files fs none c).1)
unfolding run_files
run_files-Gains [] c s h = (tt, (refl, omega arith, omega arith, ground arith))
run_files-Gains (f ∷ fs) c s h = elim (Option-cases ((update_file f c).0)) [
  | inr (x, e) ↦
      let first_err : run_files (f ∷ fs) none c ≡ run_files fs (some x) ((update_file f c).1) =
        ap (λ (o : Option UpdateErr). run_files fs o ((update_file f c).1)) e in
      let clash : none ≡ some x =
        sym h
        ∙ (ap (λ (r : Option UpdateErr × Counters). r.0) first_err
            ∙ run_files-err fs x ((update_file f c).1)) in
      absurd (grind arith)
  | inl fine ↦
      let c' : Counters = (update_file f c).1 in
      let next : run_files (f ∷ fs) none c ≡ run_files fs none c' =
        ap (λ (o : Option UpdateErr). run_files fs o c') fine in
      let (same, counted, num, size) = update_file-Gains f c fine in
      let (ups, gains) =
        run_files-Gains fs c' (omega (arith, size))
          (sym (ap (λ (r : Option UpdateErr × Counters). r.0) next) ∙ h) in
      (
        (update_file-UpToDate f c fine, ups),
        subst
            (λ (r : Option UpdateErr × Counters).
              Gains (suc (length fs)) (f.byte_size + size_of fs) c (r.1))
            (sym next)
            (Gains-trans (length fs) f.byte_size (size_of fs) c c' ((run_files fs none c').1)
              (same, counted, num, size) gains),
      )
]

-- Without an error `updateFiles` has brought every file up to date: it was there with its signature,
-- or is downloaded, and converted if need be. None is counted as failed, each is counted either as
-- downloaded or as skipped, and the two numbers that are reported are those of all files, their total
-- size as a uint64. This holds in whatever order the goroutines end.
pub update_files-AllUpToDate :
    (fs : List FileRun)
    → (update_files fs).0 ≡ none
    → let c = (update_files fs).1 in
      AllUpToDate fs
      × (c.failed ≡ 0)
      × (c.success + c.skip ≡ length fs)
      × (c.downloads ≡ length fs)
      × (c.file_size ≡ size_of fs % 2 ^ 64)
unfolding update_files zeros
update_files-AllUpToDate fs h =
    let (ups, (failed, counted, num, size)) = run_files-Gains fs zeros (omega arith) h in
    (ups, failed, omega arith, omega arith, omega arith)
