-- ===== src/Release/Permission/Octal.antt =====
-- A mode that is printed in octal is read back.
use bscp_go.Prelude.{
  ℕ, zero, suc, ◌+◌, ◌-◌, ◌*◌, ◌/◌, ◌%◌, ◌^◌, ◌<◌, ◌≡◌, refl, ap, ◌∙◌, true, some, [], ◌∷◌, ◌++◌,
  arith, Text,
}
use bscp_go.Release.Permission.{
  octal_digits, parse_privilege, Calls, Mode, set_owner, syscall_mode, set_file_permission,
}

-- `n` in base 8, with as many digits as are asked for.
abbrev pub print_octal : ℕ → ℕ → Text
print_octal zero n = []
print_octal (suc digits) n = print_octal digits (n / 8) ++ (b'0' + n % 8) ∷ []

octal_digits-append :
    (s : Text) (c : ℕ) (value v : ℕ)
    → octal_digits s value ≡ some v
    → octal_digits (s ++ c ∷ []) value ≡ octal_digits (c ∷ []) v
unfolding octal_digits
octal_digits-append [] c value v h = ground arith
octal_digits-append (d ∷ s) c value v h =
    ground (arith, octal_digits-append s c (8 * value + (d - b'0')) v)

octal_digits-print :
    (digits n : ℕ) → n < 8 ^ digits → n < 2 ^ 63 → octal_digits (print_octal digits n) 0 ≡ some n
unfolding octal_digits
octal_digits-print zero n h k = let none_left : n ≡ 0 = omega arith in rw none_left refl
octal_digits-print (suc digits) n h k =
    octal_digits-append (print_octal digits (n / 8)) (b'0' + n % 8) 0 (n / 8)
      (octal_digits-print digits (n / 8) (omega arith) (omega arith))
    ∙ ground arith

set_owner-mode : (c : Calls) (m : Mode) → (set_owner c m).1.mode ≡ m.mode
unfolding set_owner
set_owner-mode c m = ground arith

parse_privilege_lem : (s : Text) → parse_privilege s ≡ octal_digits s 0
unfolding parse_privilege octal_digits
parse_privilege_lem s = refl

syscall_mode-low : (mode : ℕ) → mode < 2 ^ 20 → syscall_mode (mode % 2 ^ 32) ≡ mode % 512
unfolding syscall_mode
syscall_mode-low mode small =
    let whole : mode % 2 ^ 32 ≡ mode = omega arith in
    let user : mode / 2 ^ 23 ≡ 0 = omega arith in
    let group : mode / 2 ^ 22 ≡ 0 = omega arith in
    let sticky : mode / 2 ^ 20 ≡ 0 = omega arith in rw (whole, user, group, sticky) (omega arith)

-- For a file that can be opened and whose mode can be changed: a mode below 2^20 that is printed in
-- octal, with as many digits as it needs or more, sets the permission of the file to its lower nine
-- bits, whatever becomes of the owner. So 644 is set as it is, and of 4755 only 755: the bits for
-- setuid, setgid and sticky of the octal form do not reach the file.
pub set_file_permission-print :
    (c : Calls) (digits mode : ℕ) (m : Mode)
    → c.opens ≡ true
    → c.chmod_ok ≡ true
    → mode < 8 ^ digits
    → mode < 2 ^ 20
    → (set_file_permission c (print_octal digits mode) m).1.mode ≡ some (mode % 512)
unfolding set_file_permission
set_file_permission-print c digits mode m o k fits small =
    let read : parse_privilege (print_octal digits mode) ≡ some mode =
      parse_privilege_lem (print_octal digits mode)
      ∙ octal_digits-print digits mode fits (omega arith) in
    simp (o, k, read)
      (set_owner-mode c (record m { mode = some (syscall_mode (mode % 2 ^ 32)) })
        ∙ ap some (syscall_mode-low mode small))
