-- ===== src/Prelude/Trimmed.antt =====
-- `strings.TrimSpace` leaves a text without spaces as it is.
use mathlib.Core.Path.{◌≡◌, refl}
use mathlib.Core.Bool.{false}
use mathlib.Core.List.{[], ◌∷◌, ◌++◌, reverse, reverse-cons, reverse-reverse}
use bscp_go.Prelude.Strings.{Text, is_space, trim_left, trim_space}

abbrev pub NoSpace : Text → Type 0
NoSpace [] = Unit {0}
NoSpace (c ∷ s) = (is_space c ≡ false) × NoSpace s

pub NoSpace-append : (s t : Text) → NoSpace s → NoSpace t → NoSpace (s ++ t)
NoSpace-append [] t h k = k
NoSpace-append (c ∷ s) t h k = (h.0, NoSpace-append s t h.1 k)

NoSpace-reverse : (s : Text) → NoSpace s → NoSpace (reverse s)
NoSpace-reverse [] h = tt
NoSpace-reverse (c ∷ s) h =
    rw (reverse-cons c s) (NoSpace-append (reverse s) (c ∷ []) (NoSpace-reverse s h.1) (h.0, tt))

trim_left_lem : (s : Text) → NoSpace s → trim_left s ≡ s
unfolding trim_left
trim_left_lem [] h = refl
trim_left_lem (c ∷ s) h = rw h.0 refl

pub trim_space_lem : (s : Text) → NoSpace s → trim_space s ≡ s
unfolding trim_space
trim_space_lem s h =
    rw (trim_left_lem s h, trim_left_lem (reverse s) (NoSpace-reverse s h)) (reverse-reverse s)
