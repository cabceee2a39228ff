-- ===== src/Updater.antt =====
-- core/src/updater/: the loop that looks for a newer release at some of the blocks, and installs it
-- after a delay. Versions with their order, dates, texts, and the installation of an archive belong to
-- libraries and the system; they are parameters. Logging is not modelled.
pub mod Schedule
pub mod Latest
mod Examples
use avail_light.Prelude.{
  ℕ, ◌-◌, ◌%◌, Bool, true, false, not, Option, some, none, List, [], ◌∷◌, ◌==◌, if◌then◌else◌, leb,
  Result, ok, err,
}

pub data Target : Type 0 where
  linux_amd64 apple_arm64 apple_x86_64 windows_x86_64 : Target

pub data Channel : Type 0 where
  stable release_candidate : Channel

unfoldable pub is_same_target : Target → Target → Bool
is_same_target linux_amd64 linux_amd64 = true
is_same_target apple_arm64 apple_arm64 = true
is_same_target apple_x86_64 apple_x86_64 = true
is_same_target windows_x86_64 windows_x86_64 = true
is_same_target _ _ = false

pub record Asset : Type 0 where
  pub target : Target
  pub archive_name : ℕ
  pub url : ℕ

pub record GithubAsset : Type 0 where
  pub name : ℕ
  pub browser_download_url : ℕ

pub record GithubRelease : Type 0 where
  pub tag_name : ℕ
  pub published_at : ℕ
  pub assets : List GithubAsset

-- Versions with their strict order, and what the regular expressions and parsers make of a text.
pub record VersionLib : Type 1 where
  pub Version : Type 0
  pub Date : Type 0
  pub is_greater : Version → Version → Bool
  pub is_client : ℕ → Bool
  pub is_stable : ℕ → Bool
  pub version_of : ℕ → Option Version
  pub parse_date : ℕ → Option Date
  pub target_of : ℕ → Option Target

-- `CHECK_INTERVAL`
abbrev pub check_interval : ℕ
check_interval = 180

abbrev is_stable_release : Channel → Bool
is_stable_release stable = true
is_stable_release release_candidate = false

module _ (lib : VersionLib) where
  pub record Release : Type 0 where
    pub channel : Channel
    pub version : lib.Version
    pub published_at : lib.Date
    pub assets : List Asset

  unfoldable pub assets_of : List GithubAsset → List Asset
  assets_of [] = []
  assets_of (a ∷ rest) =
      let others = assets_of rest in
      elim (lib.target_of a.name) [
        | none ↦ others
        | some target ↦
            record { target = target; archive_name = a.name; url = a.browser_download_url } ∷ others
      ]

  -- `TryFrom<GithubRelease>`
  unfoldable pub try_from : GithubRelease → Option Release
  unfolding assets_of
  try_from r = elim (lib.version_of r.tag_name) [
    | none ↦ none
    | some version ↦ elim (lib.parse_date r.published_at) [
      | none ↦ none
      | some published_at ↦ some (record {
        channel = if lib.is_stable r.tag_name then stable else release_candidate;
        version = version;
        published_at = published_at;
        assets = assets_of r.assets;
      })
    ]
  ]

  -- The releases of the client, all of which have to be converted.
  unfoldable pub get_releases : List GithubRelease → Option (List Release)
  unfolding try_from
  get_releases [] = some []
  get_releases (r ∷ rs) =
      let rest = get_releases rs in
      if lib.is_client r.tag_name
      then elim (try_from r) [
        | none ↦ none
        | some x ↦ elim rest [ none ↦ none | some xs ↦ some (x ∷ xs) ]
      ]
      else rest

  -- `max_by`: of several greatest elements, the last one.
  unfoldable pub latest_stable : List Release → Option Release
  latest_stable [] = none
  latest_stable (r ∷ rs) =
      let rest = latest_stable rs in
      if is_stable_release r.channel
      then elim rest [
        | none ↦ some r
        | some x ↦ if lib.is_greater r.version x.version then some r else some x
      ]
      else rest

  unfoldable pub find_asset : Target → List Asset → Option Asset
  unfolding is_same_target
  find_asset target [] = none
  find_asset target (a ∷ rest) =
      if is_same_target a.target target then some a else find_asset target rest

  -- `target_asset`, on a system whose target may be unknown
  unfoldable pub target_asset : Option Target → Release → Option Asset
  unfolding find_asset
  target_asset none r = none
  target_asset (some target) r = find_asset target r.assets

  -- A block received, with the time, the answer that GitHub gives at it, and whether the archive of an
  -- asset is downloaded, extracted and put in place.
  pub record BlockMessage : Type 0 where
    pub block_num : ℕ
    pub now : ℕ
    pub releases : Option (List GithubRelease)
    pub is_installed : Asset → Bool

  -- How the loop ends; after an update the restart flag is set and the shutdown triggered.
  pub data UpdaterEnd : Type 0 where
    closed failed : UpdaterEnd
    updated : Release → UpdaterEnd

  pub record UpdaterConfig : Type 0 where
    pub version : lib.Version
    pub delay_sec : ℕ
    pub no_update : Bool
    pub target : Option Target

  module _ (cfg : UpdaterConfig) where
    unfoldable pub install : BlockMessage → Release → UpdaterEnd
    unfolding target_asset
    install m r = elim (target_asset cfg.target r) [
      | none ↦ failed
      | some asset ↦ if m.is_installed asset then updated r else failed
    ]

    -- The newer release that is found at a block, if it is one at which to look for it.
    unfoldable pub find_newer : BlockMessage → Option Release
    unfolding get_releases latest_stable
    find_newer m =
        if not (m.block_num % check_interval == cfg.delay_sec % check_interval)
        then none
        else elim m.releases [
          | none ↦ none
          | some answer ↦ elim (get_releases answer) [
            | none ↦ none
            | some releases ↦ elim (latest_stable releases) [
              | none ↦ none
              | some latest ↦
                  if lib.is_greater latest.version cfg.version then some latest else none
            ]
          ]
        ]

    -- The loop, with the newer release and the time at which it was found.
    unfoldable pub run : List BlockMessage → Option (Release × ℕ) → UpdaterEnd
    unfolding install find_newer
    run [] newer_release = closed
    run (m ∷ ms) none = elim (find_newer m) [
      | none ↦ run ms none
      | some r ↦ run ms (some (r, m.now))
    ]
    run (m ∷ ms) (some (r, started_at)) =
        let later = run ms (some (r, started_at)) in
        if cfg.no_update
        then later
        else if leb cfg.delay_sec (m.now - started_at)
        then install m r
        else later
