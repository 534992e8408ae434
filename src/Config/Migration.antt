-- ===== src/Config/Migration.antt =====
-- src-tauri/src/config/migration.rs: a stored document is brought to the current schema version.
use weftgrid.Base.{
  ◌≡◌, refl, Bool, true, false, Option, none, some, List, [], ◌∷◌, ◌++◌, Bytes, ℕ, zero, suc, ◌%◌,
  ◌^◌, bytes_discrete, if◌then◌else◌, ltb, ◌==◌,
}
use weftgrid.Base.Maps.{lookup, insert}
use weftgrid.Base.Results.{Result, ok, err, ◌>>=◌}
use weftgrid.Base.Decimal.{decimal}
use weftgrid.Base.Text.{codes}
pub mod Steps

-- What the module uses of `serde_json`: the values, and the typed configuration read from one.
pub record SerdeJson (Config : Type 0) : Type 1 where
  pub Value : Type 0
  pub as_object : Value → Option (List (Bytes × Value))
  pub object : List (Bytes × Value) → Value
  pub as_u64 : Value → Option ℕ
  pub number : ℕ → Value
  pub text : Bytes → Value
  pub empty_object : Value
  pub from_value : Value → Option Config

pub data MigrationError : Type 0 where
  future_version missing_migrator : ℕ → MigrationError
  not_an_object : MigrationError

unfoldable pub to_string : MigrationError → Bytes
to_string (future_version v) =
    codes "config schema_version " ++ (decimal v ++ codes " is newer than supported 2")
to_string (missing_migrator v) = codes "no migrator from schema_version " ++ decimal v
to_string not_an_object = codes "config document is not a JSON object"

abbrev pub current_schema_version : ℕ
current_schema_version = 2

abbrev pub version_key : Bytes
version_key = codes "schema_version"

-- The version field as a `u32`; 1 where there is none, or none that is a `u64`.
unfoldable pub version_or_one : Option ℕ → ℕ
version_or_one none = 1
version_or_one (some v) = v % 2 ^ 32

module _ {Config : Type 0} (json : SerdeJson Config) where
  abbrev pub Fields : Type 0
  Fields = List (Bytes × json.Value)

  unfoldable pub u64_of : Option json.Value → Option ℕ
  u64_of none = none
  u64_of (some v) = json.as_u64 v

  unfoldable pub version_of : Fields → ℕ
  unfolding version_or_one u64_of
  version_of obj = version_or_one (u64_of (lookup bytes_discrete version_key obj))

  unfoldable pub version_in : Option Fields → Result ℕ MigrationError
  version_in none = err not_an_object
  version_in (some obj) = ok (version_of obj)

  unfoldable pub read_version : json.Value → Result ℕ MigrationError
  read_version doc = version_in (json.as_object doc)

  -- `entry(key).or_insert_with(…)`, by what is found under the key
  unfoldable pub insert_absent : Bytes → json.Value → Fields → Option json.Value → Fields
  insert_absent key value obj none = insert bytes_discrete key value obj
  insert_absent key value obj (some _) = obj

  unfoldable pub or_insert : Bytes → json.Value → Fields → Fields
  or_insert key value obj = insert_absent key value obj (lookup bytes_discrete key obj)

  unfoldable pub migrated_fields : Fields → Fields
  migrated_fields obj = insert bytes_discrete version_key (json.number 2) (
      or_insert (codes "keybinding_overrides") json.empty_object
        (or_insert (codes "default_respawn_policy") (json.text (codes "fresh-shell")) obj))

  unfoldable pub migrated : json.Value → Option Fields → json.Value
  migrated doc none = doc
  migrated doc (some obj) = json.object (migrated_fields obj)

  unfoldable pub migrate_v1_to_v2 : json.Value → json.Value
  migrate_v1_to_v2 doc = migrated doc (json.as_object doc)

  unfoldable pub step : ℕ → json.Value → Result json.Value MigrationError
  step from doc = if from == 1 then ok (migrate_v1_to_v2 doc) else err (missing_migrator from)

  -- One round of the loop: the document after a step, with its version.
  unfoldable pub advance : ℕ → json.Value → Result (ℕ × json.Value) MigrationError
  advance version doc = step version doc >>= λ d. read_version d >>= λ v. ok (v, d)

  unfoldable pub after_round :
      (ℕ → json.Value → Option (Result json.Value MigrationError))
      → Result (ℕ × json.Value) MigrationError
      → Option (Result json.Value MigrationError)
  after_round rest (err e) = some (err e)
  after_round rest (ok (version, doc)) = rest version doc

  -- The loop; `none` when it is not over within that many rounds.
  unfoldable pub walk : ℕ → ℕ → json.Value → Option (Result json.Value MigrationError)
  walk zero version doc = if ltb version current_schema_version then none else some (ok doc)
  walk (suc rounds) version doc =
      if ltb version current_schema_version
      then after_round (λ v d. walk rounds v d) (advance version doc)
      else some (ok doc)

  unfoldable pub parsed : Option Config → Result Config MigrationError
  parsed none = err not_an_object
  parsed (some config) = ok config

  unfoldable pub finish :
      Option (Result json.Value MigrationError) → Option (Result Config MigrationError)
  finish none = none
  finish (some (err e)) = some (err e)
  finish (some (ok doc)) = some (parsed (json.from_value doc))

  unfoldable pub migrate_from :
      ℕ → json.Value → Result ℕ MigrationError → Option (Result Config MigrationError)
  migrate_from rounds doc (err e) = some (err e)
  migrate_from rounds doc (ok version) =
      if ltb current_schema_version version
      then some (err (future_version version))
      else finish (walk rounds version doc)

  unfoldable pub migrate_to_current : ℕ → json.Value → Option (Result Config MigrationError)
  migrate_to_current rounds doc = migrate_from rounds doc (read_version doc)
