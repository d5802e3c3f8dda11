-- ===== src/Download/Async/Tests.antt =====
-- An asynchronous download over two devices, with the length of a text for its digest.
use bscp_go.Prelude.{ℕ, true, false, none, some, List, [], ◌∷◌, length}
use bscp_go.Download.Async.{
  task_downloading, task_success, cross_device, Calls, Pair, async_download,
}
use bscp_go.Download.Async.Checked.{Result, async_download-Result}

abbrev length_of : List ℕ → List ℕ
length_of bytes = length bytes ∷ []

abbrev two_devices : Calls
two_devices = record {
  rename = cross_device;
  create_ok = true;
  copied = none;
  sync_ok = true;
  remove_ok = false;
  hash_ok = true;
}

abbrev task_left : Pair
task_left = record { src = some (7 ∷ 8 ∷ []); dst = none }

async_download-Result_example : Result length_of (2 ∷ []) task_left (
    async_download length_of true
      (task_downloading ∷ task_success ∷ [])
      two_devices
      (2 ∷ [])
      task_left)
async_download-Result_example =
    async_download-Result length_of (2 ∷ []) true (task_downloading ∷ task_success ∷ []) two_devices
      task_left
