-- ===== src/Import/Detect.antt =====
-- src-tauri/src/import/catalog.rs: where an installed browser keeps its data, as it is built on Linux.
-- The file system, the variable HOME and `str::trim` are arguments.
pub mod Order
use weftgrid.Base.{
  ℕ, ◌≡◌, Bool, true, false, Option, none, some, List, [], ◌∷◌, ◌++◌, if◌then◌else◌, ◌==◌, ltb,
  Bytes, ◌||◌, ◌&&◌,
}
use weftgrid.Base.Sort.{sort_by}
use weftgrid.Base.Text.{codes, starts_with, strip_prefix, equal}
use weftgrid.Config.Store.{text_le}
use weftgrid.Import.Catalog.{BrowserFamily, chromium, firefox, webkit, BrowserDescriptor, catalog}

-- What the code asks the system, and `str::trim`.
pub record System : Type 0 where
  pub exists : Bytes → Bool
  pub read_to_string : Bytes → Option Bytes
  pub home : Option Bytes
  pub trim : Bytes → Bytes

abbrev ends_with_slash : Bytes → Bool
ends_with_slash [] = true
ends_with_slash (c ∷ []) = c == b'/'
ends_with_slash (c ∷ d ∷ cs) = ends_with_slash (d ∷ cs)

-- `Path::join`: an absolute path replaces the one that it is joined to.
unfoldable pub join : Bytes → Bytes → Bytes
unfolding starts_with
join root rel =
    if starts_with (codes "/") rel
    then rel
    else if ends_with_slash root
    then root ++ rel
    else root ++ b'/' ∷ rel

pub record BrowserInfo : Type 0 where
  pub id : Bytes
  pub display_name : Bytes
  pub family : BrowserFamily
  pub tier : ℕ
  pub cookie_db : Option Bytes
  pub key_store : Option Bytes
  pub history_db : Option Bytes

unfoldable pub push_line : ℕ → List Bytes → List Bytes
push_line c [] = (c ∷ []) ∷ []
push_line c (l ∷ ls) = (c ∷ l) ∷ ls

-- The lines of a text; what `trim` does to a line takes the carriage return away too.
unfoldable pub lines : Bytes → List Bytes
unfolding push_line
lines [] = []
lines (c ∷ cs) = let rest = lines cs in if c == 10 then [] ∷ rest else push_line c rest

unfoldable pub descriptor_in : List BrowserDescriptor → Bytes → Option BrowserDescriptor
descriptor_in [] id = none
descriptor_in (b ∷ bs) id = if equal b.id id then some b else descriptor_in bs id

abbrev pub descriptor : Bytes → Option BrowserDescriptor
descriptor id = descriptor_in catalog id

abbrev profile_of : Bytes → Bytes → Option Bytes
profile_of root rel = some (join root rel)

-- `cmp` of the tiers, then of the names, as a test of at most.
abbrev pub tier_name_le : BrowserInfo → BrowserInfo → Bool
tier_name_le a b =
    if a.tier == b.tier then text_le a.display_name b.display_name else ltb a.tier b.tier

module _ (sys : System) where
  unfoldable pub exists_or_none : Bytes → Option Bytes
  exists_or_none p = if sys.exists p then some p else none

  unfoldable pub first_existing : Bytes → List Bytes → Option Bytes
  unfolding join
  first_existing root [] = none
  first_existing root (c ∷ cs) =
      if sys.exists (join root c) then some (join root c) else first_existing root cs

  unfoldable pub chromium_artifacts : Bytes → Option Bytes × Option Bytes × Option Bytes
  unfolding first_existing
  chromium_artifacts root = (
    first_existing root (codes "Default/Network/Cookies" ∷ codes "Default/Cookies" ∷ []),
    first_existing root (codes "Local State" ∷ []),
    first_existing root (codes "Default/History" ∷ []),
  )

  -- `line.strip_prefix("Default=")`, and the lines after.
  unfoldable pub default_found : Bytes → Option Bytes → Option Bytes → Option Bytes
  unfolding join
  default_found root none rest = rest
  default_found root (some rel) rest = some (join root (sys.trim rel))

  -- The loop over the lines of `profiles.ini`.
  unfoldable pub default_in : Bytes → Bool → List Bytes → Option Bytes
  unfolding default_found starts_with strip_prefix
  default_in root install [] = none
  default_in root install (l ∷ ls) =
      let line = sys.trim l in
      let header = starts_with (codes "[") line in
      let rest =
        default_in root (if header then starts_with (codes "[Install") line else install) ls in
      if header
      then rest
      else if install
      then default_found root (strip_prefix (codes "Default=") line) rest
      else rest

  unfoldable pub default_of : Bytes → Option Bytes → Option Bytes
  unfolding default_in lines
  default_of root none = none
  default_of root (some ini) = default_in root false (lines ini)

  unfoldable pub firefox_default_profile : Bytes → Option Bytes
  unfolding default_of
  firefox_default_profile root =
      default_of root (sys.read_to_string (join root (codes "profiles.ini")))

  unfoldable pub artifacts_of : Option Bytes → Option Bytes × Option Bytes
  unfolding exists_or_none join
  artifacts_of none = (none, none)
  artifacts_of (some profile) = (
    exists_or_none (join profile (codes "cookies.sqlite")),
    exists_or_none (join profile (codes "places.sqlite")),
  )

  unfoldable pub firefox_artifacts : Bytes → Option Bytes × Option Bytes
  unfolding artifacts_of firefox_default_profile
  firefox_artifacts root = artifacts_of (firefox_default_profile root)

  unfoldable pub artifacts_for : BrowserFamily → Bytes → Option Bytes × Option Bytes × Option Bytes
  unfolding chromium_artifacts firefox_artifacts
  artifacts_for chromium root = chromium_artifacts root
  artifacts_for firefox root = let a = firefox_artifacts root in (a.0, none, a.1)
  artifacts_for webkit root = (none, none, none)

  unfoldable pub info_for : BrowserDescriptor → Bytes → BrowserInfo
  unfolding artifacts_for
  info_for desc root =
      let a = artifacts_for desc.family root in
      record {
        id = desc.id;
        display_name = desc.display_name;
        family = desc.family;
        tier = desc.tier;
        cookie_db = a.0;
        key_store = a.1;
        history_db = a.2;
      }

  abbrev pub with_info : BrowserDescriptor → Option Bytes → List BrowserInfo → List BrowserInfo
  with_info desc none rest = rest
  with_info desc (some root) rest = info_for desc root ∷ rest

  unfoldable pub found_in :
      (BrowserDescriptor → Option Bytes) → List BrowserDescriptor → List BrowserInfo
  unfolding info_for
  found_in resolve_root [] = []
  found_in resolve_root (desc ∷ ds) = with_info desc (resolve_root desc) (found_in resolve_root ds)

  unfoldable pub detect_in : (BrowserDescriptor → Option Bytes) → List BrowserInfo
  unfolding found_in sort_by
  detect_in resolve_root = sort_by tier_name_le (found_in resolve_root catalog)

  unfoldable pub root_under : Bytes → List Bytes → Option Bytes
  unfolding join
  root_under rel [] = none
  root_under rel (base ∷ bases) =
      if sys.exists (join base rel) then some (join base rel) else root_under rel bases

  abbrev os_bases : Option Bytes → List Bytes
  os_bases none = []
  os_bases (some h) = h ∷ []

  unfoldable pub root_of : List Bytes → BrowserDescriptor → Option Bytes
  unfolding root_under equal
  root_of bases desc = if equal desc.linux_root [] then none else root_under desc.linux_root bases

  unfoldable pub detect_installed : List BrowserInfo
  unfolding detect_in root_of
  detect_installed = detect_in (root_of (os_bases sys.home))
