-- ===== src/Updater/Examples.antt =====
-- A release that is found at block 190 and installed at block 192; a version is a number, and the tag
-- of a release is its version, of which the even ones are stable.
use avail_light.Prelude.{ℕ, ◌%◌, refl, true, false, some, List, [], ◌∷◌, ◌==◌, ltb, arith}
use avail_light.Updater.{
  VersionLib, Release, GithubRelease, linux_amd64, stable, BlockMessage, UpdaterConfig, assets_of,
  try_from, get_releases, latest_stable, find_asset, is_same_target, target_asset, install,
  find_newer, run,
}
use avail_light.Updater.Latest.{IsOrder, IsLatest, latest_stable-IsLatest}
use avail_light.Updater.Schedule.{Scheduled, run-Scheduled}

abbrev lib : VersionLib
lib = record {
  Version = ℕ;
  Date = ℕ;
  is_greater = λ a b. ltb b a;
  is_client = λ t. ltb 0 t;
  is_stable = λ t. t % 2 == 0;
  version_of = λ t. some t;
  parse_date = λ t. some t;
  target_of = λ t. some linux_amd64;
}

lib-IsOrder : IsOrder lib
lib-IsOrder = record { asymmetric = λ a b h. ground arith; carried = λ a b c h k. ground arith }

abbrev published : ℕ → GithubRelease
published n = record {
  tag_name = n;
  published_at = 1;
  assets = record { name = 5; browser_download_url = 6 } ∷ [];
}

abbrev converted : ℕ → Release lib
converted n = record {
  channel = stable;
  version = n;
  published_at = 1;
  assets = record { target = linux_amd64; archive_name = 5; url = 6 } ∷ [];
}

abbrev message : ℕ → ℕ → BlockMessage lib
message n time = record {
  block_num = n;
  now = time;
  releases = some (published 4 ∷ published 9 ∷ published 8 ∷ []);
  is_installed = λ a. true;
}

abbrev messages : List (BlockMessage lib)
messages =
    message 189 100 ∷ message 190 120 ∷ message 191 125 ∷ message 192 140 ∷ message 193 160 ∷ []

abbrev config : UpdaterConfig lib
config = record { version = 6; delay_sec = 10; no_update = false; target = some linux_amd64 }

run-Scheduled_example : Scheduled lib config messages (converted 8)
unfolding run find_newer get_releases try_from assets_of latest_stable install target_asset
    find_asset is_same_target
run-Scheduled_example = run-Scheduled lib config messages (converted 8) refl

latest_stable-IsLatest_example :
    IsLatest lib (converted 4 ∷ converted 8 ∷ converted 8 ∷ converted 6 ∷ []) (converted 8)
unfolding latest_stable
latest_stable-IsLatest_example =
    latest_stable-IsLatest lib (converted 4 ∷ converted 8 ∷ converted 8 ∷ converted 6 ∷ [])
      (converted 8) lib-IsOrder refl
