-- ===== src/Release/Steps/Skips.antt =====
-- `StrSlicesEqual` and `compareRelease`: when a release is skipped.
use bscp_go.Release.Log.{Latest, latest, no_file, broken}
use bscp_go.Prelude.{
  ℕ, suc, ◌+◌, ◌≤◌, ◌<◌, ◌≡◌, refl, ◌↔◌, true, List, [], ◌∷◌, arith, ◌==◌, if◌then◌else◌, length,
}
use bscp_go.Release.Steps.{
  Status, event_success, event_failed, EventMeta, ChangeEvent, Release, count, same_counts,
  str_slices_equal, skip, is_success, compare_event, compare_release,
}

-- The list without the first `x`.
remove : ℕ → List ℕ → List ℕ
remove x [] = []
remove x (y ∷ ys) = let rest = remove x ys in if x == y then ys else y ∷ rest

remove-length : (x : ℕ) (ys : List ℕ) → 0 < count x ys → length ys ≡ suc (length (remove x ys))
unfolding remove count
remove-length x [] h = absurd (omega arith)
remove-length x (y ∷ ys) h = ground (arith, remove-length x ys)

remove-count :
    (x z : ℕ) (ys : List ℕ)
    → 0 < count x ys
    → count z ys ≡ (if z == x then count z (remove x ys) + 1 else count z (remove x ys))
unfolding remove count
remove-count x z [] h = absurd (omega arith)
remove-count x z (y ∷ ys) h = ground (arith, remove-count x z ys)

-- Lists of one length, of which the one has no element more often than the other, have the same
-- elements.
counts_meet :
    (a b : List ℕ)
    → length a ≡ length b
    → ((y : ℕ) → count y a ≤ count y b)
    → (z : ℕ) → count z a ≡ count z b
unfolding count
counts_meet [] [] l h z = refl
counts_meet [] (y ∷ b) l h z = absurd (omega arith)
counts_meet (x ∷ a) b l h z =
    let first : 0 < count x b = ground (arith, h x) in
    let rest : count z a ≡ count z (remove x b) =
      counts_meet a (remove x b) (omega (arith, remove-length x b first))
        (λ y. ground (arith, h y, remove-count x y b first)) z in
    ground (arith, remove-count x z b first)

same_counts-each :
    (a b xs : List ℕ) (y : ℕ) → same_counts a b xs ≡ true → 0 < count y xs → count y a ≡ count y b
unfolding same_counts count
same_counts-each a b [] y h p = absurd (omega arith)
same_counts-each a b (x ∷ xs) y h p = ground (arith, same_counts-each a b xs y)

same_counts-all : (a b xs : List ℕ) → ((y : ℕ) → count y a ≡ count y b) → same_counts a b xs ≡ true
unfolding same_counts
same_counts-all a b [] h = refl
same_counts-all a b (x ∷ xs) h = ground (arith, h x, same_counts-all a b xs h)

counts-length : (a b : List ℕ) → ((y : ℕ) → count y a ≡ count y b) → length a ≡ length b
unfolding count
counts-length [] [] h = refl
counts-length [] (y ∷ b) h = absurd (ground (arith, h y))
counts-length (x ∷ a) b h =
    let first : 0 < count x b = ground (arith, h x) in
    omega (
      arith,
      counts-length a (remove x b) (λ y. ground (arith, h y, remove-count x y b first)),
      remove-length x b first,
    )

-- `StrSlicesEqual` is true exactly when every text is as often in the one list as in the other,
-- though the code looks only at the texts of the first.
pub str_slices_equal-counts :
    (a b : List ℕ) → (str_slices_equal a b ≡ true) ↔ ((y : ℕ) → count y a ≡ count y b)
unfolding str_slices_equal
str_slices_equal-counts a b = (to, back)
  where
    to : str_slices_equal a b ≡ true → (y : ℕ) → count y a ≡ count y b
    to h = counts_meet a b (ground arith) (λ y. ground (arith, same_counts-each a b a y))

    back : ((y : ℕ) → count y a ≡ count y b) → str_slices_equal a b ≡ true
    back h = ground (arith, counts-length a b h, same_counts-all a b a h)

-- The metadata and the last change event are of the release: its id, its match conditions in any
-- order, and a success.
abbrev pub Agrees : Release → Latest EventMeta → Latest ChangeEvent → Type 0
Agrees r (latest m) (latest e) =
    (m.release_id ≡ r.release_id)
    × ((y : ℕ) → count y m.config_matches ≡ count y r.match_)
    × (e.release_id ≡ r.release_id)
    × (e.status ≡ event_success)
Agrees r (latest m) no_file = ⊥
Agrees r (latest m) (broken e) = ⊥
Agrees r no_file event = ⊥
Agrees r (broken e) event = ⊥

success-is : (s : Status) → is_success s ≡ true → s ≡ event_success
unfolding is_success
success-is event_success h = refl
success-is event_failed h = absurd (grind arith)

-- `compareRelease` skips a release exactly when the last metadata and the last change event can be
-- read, have the release's id, the metadata its match conditions, in any order, and the event is a
-- success.
pub compare_release-skip :
    (r : Release) (meta : Latest EventMeta) (event : Latest ChangeEvent)
    → ((compare_release r meta event).0 ≡ skip) ↔ Agrees r meta event
unfolding compare_release compare_event is_success
compare_release-skip r (broken e) event = (λ h. absurd (grind arith), λ h. absurd h)
compare_release-skip r no_file event = (λ h. absurd (grind arith), λ h. absurd h)
compare_release-skip r (latest m) (broken e) = (λ h. absurd (grind arith), λ h. absurd h)
compare_release-skip r (latest m) no_file = (λ h. absurd (grind arith), λ h. absurd h)
compare_release-skip r (latest m) (latest e) =
    let (to, back) = str_slices_equal-counts m.config_matches r.match_ in
    (
      λ h. (ground arith, to (ground arith), ground arith, success-is e.status (ground arith)),
      λ (id, same, id', good). let equal = back same in rw (equal, good) (ground arith),
    )
