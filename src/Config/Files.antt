-- ===== src/Config/Files.antt =====
-- src-tauri/src/config/store.rs: the configuration file, which is written beside and renamed.
use weftgrid.Base.{
  ◌≡◌, refl, Bool, true, false, Option, none, some, List, [], ◌∷◌, ◌++◌, Bytes, ℕ, zero, suc,
  bytes_discrete, if◌then◌else◌,
}
use weftgrid.Base.Maps.{lookup, insert, remove}
use weftgrid.Base.Results.{Result, ok, err}
use weftgrid.Base.Text.{codes, is_utf8}
use weftgrid.Config.Migration.{SerdeJson, MigrationError, to_string, migrate_to_current}
pub mod Crashes
pub mod Recovery

pub data StoreError : Type 0 where
  io serialize no_config_dir : StoreError
  migration : Bytes → StoreError

-- The files of the store's directory, by name.
abbrev pub Disk : Type 0
Disk = List (Bytes × Bytes)

abbrev pub config_name : Bytes
config_name = codes "config.json"

abbrev pub temp_name : Bytes
temp_name = codes "config.json.tmp"

-- What the system answers to the calls of one save: whether the directory and the file are created,
-- how many bytes are written before a failure, whether the file is synced, and whether each rename
-- succeeds.
pub record Answers : Type 0 where
  pub dir_created : Bool
  pub file_created : Bool
  pub writable : ℕ
  pub synced : Bool
  pub renamed : ℕ → Bool

-- The disks that a crash may leave, in order, the disk at the end, and what is returned.
pub record Outcome : Type 0 where
  pub trace : List Disk
  pub disk : Disk
  pub result : Result (Unit {0}) StoreError

-- `write_all`, a byte at a time; `done` is written already.
unfoldable pub write_all : Bytes → Bytes → Bytes → ℕ → Disk → Outcome
write_all path done [] n d = record { trace = []; disk = d; result = ok tt }
write_all path done (b ∷ bs) zero d = record { trace = []; disk = d; result = err io }
write_all path done (b ∷ bs) (suc n) d =
    let next = insert bytes_discrete path (done ++ (b ∷ [])) d in
    let rest = write_all path (done ++ (b ∷ [])) bs n next in
    record rest { trace = next ∷ rest.trace }

unfoldable pub then_sync : Bool → Outcome → Result (Unit {0}) StoreError → Outcome
then_sync synced o (err e) = o
then_sync synced o (ok _) = if synced then o else record o { result = err io }

unfoldable pub write_synced : Answers → Bytes → Bytes → Disk → Outcome
unfolding write_all then_sync
write_synced a path bytes d =
    if a.file_created
    then (let created = insert bytes_discrete path [] d in
        let o = write_all path [] bytes a.writable created in
        then_sync a.synced (record o { trace = created ∷ o.trace }) o.result)
    else record { trace = []; disk = d; result = err io }

-- A rename that succeeds, by what is under the old name.
unfoldable pub moved : Bytes → Bytes → Disk → Option Bytes → Disk
moved old new d none = d
moved old new d (some bytes) = insert bytes_discrete new bytes (remove bytes_discrete old d)

-- `atomic_rename`, with the tries that are left and the number of the next one.
unfoldable pub atomic_rename : (ℕ → Bool) → Bytes → Bytes → ℕ → ℕ → Disk → Outcome
unfolding moved
atomic_rename renamed old new zero i d = record { trace = []; disk = d; result = err io }
atomic_rename renamed old new (suc tries) i d =
    let rest = atomic_rename renamed old new tries (suc i) d in
    let next = moved old new d (lookup bytes_discrete old d) in
    if renamed i then record { trace = next ∷ []; disk = next; result = ok tt } else rest

unfoldable pub then_rename : Answers → Outcome → Result (Unit {0}) StoreError → Outcome
unfolding atomic_rename
then_rename a o (err e) = o
then_rename a o (ok _) =
    let r = atomic_rename a.renamed temp_name config_name 5 0 o.disk in
    record r { trace = o.trace ++ r.trace }

-- `save`, by the text of the configuration
unfoldable pub save_text : Answers → Disk → Option Bytes → Outcome
unfolding write_synced then_rename
save_text a d none = record { trace = []; disk = d; result = err serialize }
save_text a d (some json) = let o = write_synced a temp_name json d in then_rename a o o.result

module _ {Config : Type 0} (to_string_pretty : Config → Option Bytes) where
  unfoldable pub save : Answers → Disk → Config → Outcome
  save a d config =
      if a.dir_created
      then save_text a d (to_string_pretty config)
      else record { trace = []; disk = d; result = err io }

module _ {Config : Type 0} (json : SerdeJson Config) (from_str : Bytes → Option json.Value)
    (default : Config) where
  unfoldable pub as_stored :
      Option (Result Config MigrationError) → Option (Result Config StoreError)
  as_stored none = none
  as_stored (some (ok config)) = some (ok config)
  as_stored (some (err e)) = some (err (migration (to_string e)))

  unfoldable pub load_value : ℕ → Option json.Value → Option (Result Config StoreError)
  load_value rounds none = some (err serialize)
  load_value rounds (some value) = as_stored (migrate_to_current json rounds value)

  unfoldable pub load_file : ℕ → Option Bytes → Option (Result Config StoreError)
  load_file rounds none = some (ok default)
  load_file rounds (some raw) =
      if is_utf8 raw then load_value rounds (from_str raw) else some (err io)

  -- `load`, with the rounds of the migration loop
  unfoldable pub load : ℕ → Disk → Option (Result Config StoreError)
  load rounds d = load_file rounds (lookup bytes_discrete config_name d)
