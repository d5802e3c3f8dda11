-- ===== src/Release/Permission/Tests.antt =====
-- The permission 4755, for an owner that is not known.
use bscp_go.Prelude.{◌≡◌, refl, true, none, some, arith}
use bscp_go.Release.Permission.{Calls, Mode, set_file_permission}
use bscp_go.Release.Permission.Octal.{print_octal, set_file_permission-print}

abbrev calls : Calls
calls = record { opens = true; chmod_ok = true; user_id = none; group_id = some 0; chown_ok = true }

abbrev unset : Mode
unset = record { mode = none; owner = none }

-- Of the mode 4755 the file gets 755.
set_file_permission-print_example :
    (set_file_permission calls (print_octal 4 2541) unset).1.mode ≡ some 493
set_file_permission-print_example =
    set_file_permission-print calls 4 2541 unset refl refl (omega arith) (omega arith)
