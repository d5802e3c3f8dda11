-- ===== src/Release/Updates/Tests.antt =====
-- Two files, of which one is there and the other is downloaded and converted.
use bscp_go.Prelude.{◌≡◌, refl, true, false, none, [], ◌∷◌}
use bscp_go.Release.Updates.{
  present, absent, FileRun, complete, update_file, run_files, update_files,
}

abbrev there_already : FileRun
there_already = record {
  mkdir_ok = true;
  check = present;
  save_ok = false;
  converts = false;
  convert_ok = false;
  byte_size = 5;
}

abbrev fetched_now : FileRun
fetched_now = record {
  mkdir_ok = true;
  check = absent;
  save_ok = true;
  converts = true;
  convert_ok = true;
  byte_size = 7;
}

no_error : (update_files (there_already ∷ fetched_now ∷ [])).0 ≡ none
unfolding update_files run_files update_file complete
no_error = refl
