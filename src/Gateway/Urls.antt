-- ===== src/Gateway/Urls.antt =====
-- internal/gateway/proxy.go: the URLs that a paired browser may read.
use leaf_syncthing_pak.Base.{
  ℕ, ◌+◌, ◌-◌, ◌*◌, ◌^◌, Bool, true, false, not, ◌&&◌, ◌||◌, Option, none, some, List, [], ◌∷◌,
  ◌++◌, map, length, all, ltb, leb, ◌==◌, between, if◌then◌else◌, Text, codes, text_eq, is_empty,
  Dict, lookup,
}

unfoldable pub member : Text → List Text → Bool
member x [] = false
member x (y ∷ ys) = text_eq y x || member x ys

abbrev pub has_prefix : Text → Text → Bool
has_prefix [] s = true
has_prefix (x ∷ xs) [] = false
has_prefix (x ∷ xs) (y ∷ ys) = x == y && has_prefix xs ys

-- `strings.Contains`.
abbrev pub contains : Text → Text → Bool
contains t [] = has_prefix t []
contains t (c ∷ s) = has_prefix t (c ∷ s) || contains t s

-- A parsed `url.URL`: `IsAbs` says that it has a scheme.
pub record Url : Type 0 where
  pub scheme : Text
  pub host : Text
  pub path : Text
  pub raw_path : Text
  pub escaped_path : Text
  pub raw_query : Text
  pub fragment : Text

abbrev pub languages : List Text
languages =
    codes "ar"
    ∷ codes "bg"
    ∷ codes "ca"
    ∷ codes "ca@valencia"
    ∷ codes "cs"
    ∷ codes "da"
    ∷ codes "de"
    ∷ codes "el"
    ∷ codes "en"
    ∷ codes "en-GB"
    ∷ codes "eo"
    ∷ codes "es"
    ∷ codes "eu"
    ∷ codes "fil"
    ∷ codes "fr"
    ∷ codes "fy"
    ∷ codes "ga"
    ∷ codes "gl"
    ∷ codes "he-IL"
    ∷ codes "hi"
    ∷ codes "hr"
    ∷ codes "hu"
    ∷ codes "id"
    ∷ codes "it"
    ∷ codes "ja"
    ∷ codes "ko-KR"
    ∷ codes "lt"
    ∷ codes "nl"
    ∷ codes "pl"
    ∷ codes "pt-BR"
    ∷ codes "pt-PT"
    ∷ codes "ro-RO"
    ∷ codes "ru"
    ∷ codes "sk"
    ∷ codes "sl"
    ∷ codes "sv"
    ∷ codes "tr"
    ∷ codes "uk"
    ∷ codes "zh-CN"
    ∷ codes "zh-HK"
    ∷ codes "zh-TW"
    ∷ []

abbrev language_path : Text → Text
language_path language = codes "/assets/lang/lang-" ++ language ++ codes ".json"

unfoldable pub static_paths : List Text
static_paths =
    codes "/"
    ∷ codes "/meta.js"
    ∷ codes "/themes.json"
    ∷ codes "/assets/img/favicon-default.png"
    ∷ codes "/assets/img/safari-pinned-tab.svg"
    ∷ codes "/assets/img/logo-horizontal.svg"
    ∷ codes "/assets/font/raleway.css"
    ∷ codes "/assets/font/raleway-500.woff"
    ∷ codes "/assets/css/tree.css"
    ∷ codes "/assets/css/overrides.css"
    ∷ codes "/assets/css/theme.css"
    ∷ codes "/vendor/bootstrap/css/bootstrap.css"
    ∷ codes "/vendor/daterangepicker/daterangepicker.css"
    ∷ codes "/vendor/fork-awesome/css/fork-awesome.css"
    ∷ codes "/vendor/fork-awesome/css/v5-compat.css"
    ∷ codes "/vendor/fork-awesome/fonts/forkawesome-webfont.eot"
    ∷ codes "/vendor/fork-awesome/fonts/forkawesome-webfont.woff2"
    ∷ codes "/vendor/fork-awesome/fonts/forkawesome-webfont.woff"
    ∷ codes "/vendor/fork-awesome/fonts/forkawesome-webfont.ttf"
    ∷ codes "/vendor/fork-awesome/fonts/forkawesome-webfont.svg"
    ∷ codes "/vendor/bootstrap/fonts/reception-0.svg"
    ∷ codes "/vendor/bootstrap/fonts/reception-1.svg"
    ∷ codes "/vendor/bootstrap/fonts/reception-2.svg"
    ∷ codes "/vendor/bootstrap/fonts/reception-3.svg"
    ∷ codes "/vendor/bootstrap/fonts/reception-4.svg"
    ∷ codes "/vendor/jquery/jquery-3.7.1.js"
    ∷ codes "/vendor/angular/angular.js"
    ∷ codes "/vendor/angular/angular-sanitize.js"
    ∷ codes "/vendor/angular/angular-translate.js"
    ∷ codes "/vendor/angular/angular-translate-loader-static-files.js"
    ∷ codes "/vendor/angular/angular-dirPagination.js"
    ∷ codes "/vendor/moment/moment.js"
    ∷ codes "/vendor/bootstrap/js/bootstrap.js"
    ∷ codes "/vendor/daterangepicker/daterangepicker.js"
    ∷ codes "/vendor/fancytree/jquery.fancytree-all-deps.js"
    ∷ codes "/vendor/HumanizeDuration.js/humanize-duration.js"
    ∷ codes "/assets/lang/valid-langs.js"
    ∷ codes "/assets/lang/prettyprint.js"
    ∷ codes "/syncthing/app.js"
    ∷ codes "/syncthing/development/logbar.js"
    ∷ codes "/syncthing/development/logbar.html"
    ∷ codes "/syncthing/core/module.js"
    ∷ codes "/syncthing/core/alwaysNumberFilter.js"
    ∷ codes "/syncthing/core/basenameFilter.js"
    ∷ codes "/syncthing/core/binaryFilter.js"
    ∷ codes "/syncthing/core/localeNumberFilter.js"
    ∷ codes "/syncthing/core/percentFilter.js"
    ∷ codes "/syncthing/core/durationFilter.js"
    ∷ codes "/syncthing/core/eventService.js"
    ∷ codes "/syncthing/core/identiconDirective.js"
    ∷ codes "/syncthing/core/languageSelectDirective.js"
    ∷ codes "/syncthing/core/localeService.js"
    ∷ codes "/syncthing/core/modalDirective.js"
    ∷ codes "/syncthing/core/metricFilter.js"
    ∷ codes "/syncthing/core/notificationDirective.js"
    ∷ codes "/syncthing/core/pathIsSubDirDirective.js"
    ∷ codes "/syncthing/core/popoverDirective.js"
    ∷ codes "/syncthing/core/syncthingController.js"
    ∷ codes "/syncthing/core/tooltipDirective.js"
    ∷ codes "/syncthing/core/uncamelFilter.js"
    ∷ codes "/syncthing/core/uniqueFolderDirective.js"
    ∷ codes "/syncthing/core/validDeviceidDirective.js"
    ∷ codes "/syncthing/core/notifications.html"
    ∷ codes "/syncthing/core/networkErrorDialogView.html"
    ∷ codes "/syncthing/core/httpErrorDialogView.html"
    ∷ codes "/syncthing/core/restartingDialogView.html"
    ∷ codes "/syncthing/core/upgradingDialogView.html"
    ∷ codes "/syncthing/core/shutdownDialogView.html"
    ∷ codes "/syncthing/core/savingChangesDialogView.html"
    ∷ codes "/syncthing/core/upgradeModalView.html"
    ∷ codes "/syncthing/core/majorUpgradeModalView.html"
    ∷ codes "/syncthing/core/aboutModalView.html"
    ∷ codes "/syncthing/core/connectivityStatusModalView.html"
    ∷ codes "/syncthing/core/logViewerModalView.html"
    ∷ codes "/syncthing/device/idqrModalView.html"
    ∷ codes "/syncthing/device/editDeviceModalView.html"
    ∷ codes "/syncthing/device/globalChangesModalView.html"
    ∷ codes "/syncthing/device/removeDeviceDialogView.html"
    ∷ codes "/syncthing/device/shareDeviceIdDialogView.html"
    ∷ codes "/syncthing/folder/editFolderModalView.html"
    ∷ codes "/syncthing/folder/restoreVersionsModalView.html"
    ∷ codes "/syncthing/folder/restoreVersionsConfirmation.html"
    ∷ codes "/syncthing/folder/removeFolderDialogView.html"
    ∷ codes "/syncthing/folder/revertOverrideView.html"
    ∷ codes "/syncthing/settings/settingsModalView.html"
    ∷ codes "/syncthing/settings/advancedSettingsModalView.html"
    ∷ codes "/syncthing/settings/discardChangesConfirmation.html"
    ∷ codes "/syncthing/usagereport/usageReportModalView.html"
    ∷ codes "/syncthing/usagereport/usageReportPreviewModalView.html"
    ∷ codes "/syncthing/transfer/neededFilesModalView.html"
    ∷ codes "/syncthing/transfer/failedFilesModalView.html"
    ∷ codes "/syncthing/transfer/remoteNeededFilesModalView.html"
    ∷ codes "/syncthing/transfer/localChangedFilesModalView.html"
    ∷ codes "/theme-assets/light/assets/css/theme.css"
    ∷ codes "/theme-assets/dark/assets/css/theme.css"
    ∷ codes "/theme-assets/black/assets/css/theme.css"
    ∷ codes "/theme-assets/default/assets/css/theme.css"
    ∷ map language_path languages

unfoldable pub static_version_queries : Dict Text
static_version_queries =
    (codes "/vendor/fork-awesome/fonts/forkawesome-webfont.eot", codes "v=1.2.0")
    ∷ (codes "/vendor/fork-awesome/fonts/forkawesome-webfont.woff2", codes "v=1.2.0")
    ∷ (codes "/vendor/fork-awesome/fonts/forkawesome-webfont.woff", codes "v=1.2.0")
    ∷ (codes "/vendor/fork-awesome/fonts/forkawesome-webfont.ttf", codes "v=1.2.0")
    ∷ (codes "/vendor/fork-awesome/fonts/forkawesome-webfont.svg", codes "v=1.2.0")
    ∷ []

unfoldable pub exact_no_query : List Text
exact_no_query =
    codes "/rest/noauth/health"
    ∷ codes "/rest/system/status"
    ∷ codes "/rest/system/version"
    ∷ codes "/rest/system/connections"
    ∷ codes "/rest/system/error"
    ∷ codes "/rest/system/discovery"
    ∷ codes "/rest/config"
    ∷ codes "/rest/config/insync"
    ∷ codes "/rest/cluster/pending/devices"
    ∷ codes "/rest/cluster/pending/folders"
    ∷ codes "/rest/stats/device"
    ∷ codes "/rest/stats/folder"
    ∷ codes "/rest/svc/lang"
    ∷ []

-- A query as `url.Values` has it: each name once, with its values.
abbrev pub Values : Type 0
Values = Dict (List Text)

abbrev pub is_digit : ℕ → Bool
is_digit c = between b'0' b'9' c

abbrev number : ℕ → Text → ℕ
number n [] = n
number n (c ∷ s) = number (10 * n + (c - b'0')) s

-- Whether `strconv.ParseUint(_, 10, 64)` accepts the text.
unfoldable pub parses_uint : Text → Bool
parses_uint [] = false
parses_uint (c ∷ s) = all is_digit (c ∷ s) && ltb (number 0 (c ∷ s)) (2 ^ 64)

unfoldable pub numeric_query_only : Values → List Text → Bool
numeric_query_only [] names = true
numeric_query_only ((name, values) ∷ query) names =
    let rest = numeric_query_only query names in
    if not (member name names) then false else elim values [
      | [] ↦ false
      | value ∷ [] ↦ not (is_empty value) && parses_uint value && rest
      | value ∷ _ ∷ _ ↦ false
    ]

abbrev one_bounded : Option (List Text) → Bool
one_bounded (some (value ∷ [])) = not (is_empty value) && leb (length value) 128
one_bounded _ = false

unfoldable pub bounded_queries : Values → List Text → Bool
bounded_queries query names =
    length query == length names && all (λ name. one_bounded (lookup name query)) names

-- A missing entry of a Go map is the empty string.
abbrev version_of : Text → Text
version_of path = elim (lookup path static_version_queries) [ none ↦ [] | some q ↦ q ]

-- `query_of` is `url.URL.Query` on the text after the question mark.
module _ (query_of : Text → Values) where
  unfoldable pub allow_proxy_url : Url → Bool
  unfolding static_version_queries lookup
  allow_proxy_url target =
      let path = target.path in
      let query = query_of target.raw_query in
      if not (is_empty target.scheme)
        || not (is_empty target.host)
        || not (is_empty target.raw_path)
        || not (is_empty target.fragment)
        || contains (codes "//") path
        || contains (codes "%2e") target.escaped_path
        || contains (codes "%2E") target.escaped_path
      then false
      else if member path static_paths
      then is_empty target.raw_query || text_eq target.raw_query (version_of path)
      else if member path exact_no_query
      then is_empty target.raw_query
      else if text_eq path (codes "/rest/events")
      then numeric_query_only query (codes "since" ∷ codes "limit" ∷ codes "timeout" ∷ [])
      else if text_eq path (codes "/rest/events/disk")
      then numeric_query_only query (codes "limit" ∷ [])
      else if text_eq path (codes "/rest/db/status")
      then bounded_queries query (codes "folder" ∷ [])
      else if text_eq path (codes "/rest/db/completion")
      then bounded_queries query (codes "device" ∷ codes "folder" ∷ [])
      else false
