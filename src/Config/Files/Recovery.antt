-- ===== src/Config/Files/Recovery.antt =====
-- src-tauri/src/config/store.rs: what is loaded after a save, finished or not.
use weftgrid.Base.{
  ◌≡◌, ◌⊎◌, inl, inr, refl, ap, ◌∙◌, true, Option, some, Bytes, ℕ, suc, All, All-weaken,
}
use weftgrid.Base.Results.{ok}
use weftgrid.Base.Text.{is_utf8}
use weftgrid.Config.Migration.{SerdeJson, Fields, version_of, parsed}
use weftgrid.Config.Migration.Steps.{IsSerdeJson, outcome, result, migrate_to_current-result}
use weftgrid.Config.Files.{Disk, Answers, save, as_stored, load_value, load_file, load}
use weftgrid.Config.Files.Crashes.{save-IsSettled}

-- The text of a configuration reads back as it: a document of the current version, in UTF-8.
pub record IsTextOf {Config : Type 0} (json : SerdeJson Config)
    (from_str : Bytes → Option json.Value) (text : Bytes) (config : Config) : Type 0 where
  pub value : json.Value
  pub fields : Fields json
  pub utf8 : is_utf8 text ≡ true
  pub from_str-text : from_str text ≡ some value
  pub as_object-value : json.as_object value ≡ some fields
  pub current : version_of json fields ≡ 2
  pub from_value-value : json.from_value value ≡ some config

module _ {Config : Type 0} (json : SerdeJson Config) (from_str : Bytes → Option json.Value)
    (default : Config) where
  load_file-text :
      IsSerdeJson json
      → (rounds : ℕ) (text : Bytes) (config : Config) → IsTextOf json from_str text config
      → load_file json from_str default (suc rounds) (some text) ≡ some (ok config)
  unfolding load_file load_value as_stored outcome result parsed
  load_file-text laws rounds text config t =
      rw
        (
          t.utf8,
          t.from_str-text,
          migrate_to_current-result json laws rounds t.value,
          t.as_object-value,
          t.current,
          t.from_value-value,
        )
        refl

  -- For a configuration whose text is UTF-8 and reads back as a document of version 2 and as that
  -- configuration: wherever a save of it stops, what is loaded afterwards is what was loaded before,
  -- or the configuration that it saves.
  pub load-save :
      IsSerdeJson json
      → (to_string_pretty : Config → Option Bytes) (rounds : ℕ) (a : Answers) (d : Disk)
        (config : Config) (text : Bytes)
      → to_string_pretty config ≡ some text
      → IsTextOf json from_str text config
      → All
          (λ left.
            (load json from_str default (suc rounds) left
              ≡ load json from_str default (suc rounds) d)
            ⊎ (load json from_str default (suc rounds) left ≡ some (ok config)))
          (save to_string_pretty a d config).trace
  unfolding load
  load-save laws to_string_pretty rounds a d config text e t =
      All-weaken
        (λ left w. elim w [
          | inl h ↦ inl (ap (load_file json from_str default (suc rounds)) h)
          | inr h ↦ inr (
              ap (load_file json from_str default (suc rounds)) h
              ∙ load_file-text laws rounds text config t)
        ])
        (save to_string_pretty a d config).trace
        (save-IsSettled to_string_pretty a d config text e).0
