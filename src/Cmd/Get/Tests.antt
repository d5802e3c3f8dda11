-- ===== src/Cmd/Get/Tests.antt =====
-- Three goroutines that end out of order, and two files of one name.
use bscp_go.Labels.{lookup, put}
use bscp_go.Prelude.{ℕ, ◌*◌, ◌≡◌, true, Option, some, List, [], ◌∷◌, arith, codes}
use bscp_go.Cmd.Get.{gather, FileItem, file_names, same_files, names_same, run_download_file}
use bscp_go.Cmd.Get.Gathered.{AllEnd, in_order, gather-in_order}
use bscp_go.Cmd.Get.Distinct.{run_download_file-destinations}

abbrev twice : ℕ → Option ℕ
twice n = some (2 * n)

all_three : AllEnd 3 (2 ∷ 0 ∷ 1 ∷ [])
all_three i h = ground arith

gather-in_order_example :
    gather twice 0 (5 ∷ 6 ∷ 7 ∷ []) (2 ∷ 0 ∷ 1 ∷ []) ≡ some (10 ∷ 12 ∷ 14 ∷ [])
unfolding in_order
gather-in_order_example = gather-in_order twice 0 (5 ∷ 6 ∷ 7 ∷ []) (2 ∷ 0 ∷ 1 ∷ []) all_three

abbrev one_file : FileItem
one_file = record { path = codes "/etc"; name = codes "a.conf" }

abbrev same_name : List FileItem
same_name = record { path = codes "/opt"; name = codes "a.conf" } ∷ []

run_download_file-destinations_example :
    run_download_file true (some true) (some (one_file ∷ same_name))
    ≡ names_same ((one_file ∷ same_name) ∷ [])
unfolding same_files file_names lookup put
run_download_file-destinations_example = run_download_file-destinations true one_file same_name
