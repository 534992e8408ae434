-- ===== src/Tests/Config.antt =====
-- Tests of the configuration track.
use weftgrid.Base.{
  ◌≡◌, ◌↔◌, refl, ap, true, false, Option, none, some, ℕ, ◌+◌, ◌^◌, ◌≢◌, ◌⊎◌, All, ltb,
  if◌then◌else◌, length, [], ◌∷◌, ◌++◌, List, Bytes, arith, bytes_discrete, ite, get_elem?,
}
use weftgrid.Base.Text.{codes, equal}
use weftgrid.Base.Maps.{lookup}
use weftgrid.Base.Results.{ok}
use weftgrid.Config.Files.{Answers, Disk, config_name, load, save}
use weftgrid.Config.Files.Crashes.{IsWhole, IsSettled, save-IsSettled}
use weftgrid.Config.Files.Recovery.{IsTextOf, load-save}
use weftgrid.Config.Keybindings.{
  KeybindingRegistry, with_overrides, detect_conflicts, resolve, action_for_chord, normalize_chord,
}
use weftgrid.Config.Keybindings.Conflicts.{action_for_chord-resolve}
use weftgrid.Config.Migration.{
  SerdeJson, version_key, parsed, migrated_fields, migrate_to_current, version_of, version_or_one,
  u64_of,
}
use weftgrid.Config.Migration.Steps.{IsSerdeJson, migrate_to_current-keeps}
use weftgrid.Config.Sha256
use weftgrid.Config.Sha256.{update, finalize, padded}
use weftgrid.Config.Sha256.Streaming.{update-append}
use weftgrid.Config.Store.{Workspace, WorkspaceStore, reorder}
use weftgrid.Config.Store.Selection.{
  Call, adds, removes, selects, reorders, calls, IsValid, store_calls-IsValid,
}
use weftgrid.Config.Store.Shown.{shown, reorder-shifts}
use weftgrid.Config.Trust.{
  WeftCommand, in_memory, hex, fingerprint, decide, grant, allow_unconfirmed, global, project_local,
  is_trusted, decide-grant,
}

abbrev named : Bytes → Workspace
named name = record {
  id = name;
  title = name;
  custom_title = none;
  custom_description = none;
  is_pinned = false;
  group_id = none;
  custom_color = none;
  current_directory = [];
  panels = [];
  focused_panel_id = none;
  panel_git_branches = [];
  panel_pull_requests = [];
  panel_listening_ports = [];
}

abbrev four : WorkspaceStore
four = record {
  workspaces = named (codes "a") ∷ named (codes "b") ∷ named (codes "c") ∷ named (codes "d") ∷ [];
  selected_index = some 1;
}

abbrev some_calls : List Call
some_calls =
    adds (named (codes "e")) ∷ removes (codes "a") ∷ reorders 3 0 ∷ selects (codes "z") ∷ []

store_calls-IsValid_example : IsValid (calls four some_calls)
store_calls-IsValid_example = store_calls-IsValid four some_calls (omega arith)

-- The test vector of FIPS 180-4.
abc_test :
    hex (finalize (update Sha256.new (codes "abc")))
    ≡ codes "ba7816bf8f01cfea414140de5dae2223b00361a396177a9cb410ff61f20015ad"
unfolding hex finalize update
abc_test = refl

update-append_example :
    update (update Sha256.new (codes "ab")) (codes "c")
    ≡ update Sha256.new (codes "ab" ++ codes "c")
update-append_example = update-append Sha256.new (codes "ab") (codes "c")

reorder-shifts_example :
    shown (reorder four 0 2).0.selected_index (reorder four 0 2).0.workspaces
    ≡ get_elem? four.workspaces 2
reorder-shifts_example = reorder-shifts four 0 2 1 refl (omega arith) (omega arith) (omega arith)

abbrev as_given : Bytes → Bytes
as_given path = path

abbrev build : WeftCommand
build = record {
  name = codes "build";
  confirm = none;
  command = some (codes "make");
  workspace = none;
}

decide-grant_example :
    (decide as_given (grant as_given in_memory build (codes "w")) build project_local (codes "v")
      ≡ allow_unconfirmed)
    ↔ ((build.confirm ≢ some true)
        × ((project_local ≡ global)
            ⊎ ((fingerprint as_given build (codes "w") ≡ fingerprint as_given build (codes "v"))
                ⊎ (is_trusted as_given in_memory build (codes "v") ≡ true))))
decide-grant_example =
    decide-grant as_given in_memory build build project_local (codes "w") (codes "v")

-- Values that are numbers, texts or objects.
mutual
  data Plain : Type 0 where
    number_of : ℕ → Plain
    text_of : Bytes → Plain
    fields_of : PlainFields → Plain

  data PlainFields : Type 0 where
    end : PlainFields
    field : Bytes → Plain → PlainFields → PlainFields

unfoldable to_fields : List (Bytes × Plain) → PlainFields
to_fields [] = end
to_fields ((k, v) ∷ m) = field k v (to_fields m)

unfoldable of_fields : PlainFields → List (Bytes × Plain)
of_fields end = []
of_fields (field k v m) = (k, v) ∷ of_fields m

unfoldable plain_object : Plain → Option (List (Bytes × Plain))
unfolding of_fields
plain_object (fields_of m) = some (of_fields m)
plain_object _ = none

unfoldable plain_u64 : Plain → Option ℕ
plain_u64 (number_of n) = some n
plain_u64 _ = none

abbrev plain_json : SerdeJson Plain
plain_json = record {
  Value = Plain;
  as_object = plain_object;
  object = λ m. fields_of (to_fields m);
  as_u64 = plain_u64;
  number = number_of;
  text = text_of;
  empty_object = fields_of end;
  from_value = λ v. some v;
}

of_fields-to_fields : (m : List (Bytes × Plain)) → of_fields (to_fields m) ≡ m
unfolding of_fields to_fields
of_fields-to_fields [] = refl
of_fields-to_fields ((k, v) ∷ m) = ap (λ l. (k, v) ∷ l) (of_fields-to_fields m)

plain-IsSerdeJson : IsSerdeJson plain_json
unfolding plain_object plain_u64
plain-IsSerdeJson = record {
  as_object-object = λ m. ap some (of_fields-to_fields m);
  as_u64-number = refl;
}

abbrev old_document : Plain
old_document = fields_of (field (codes "x") (text_of (codes "zsh")) end)

abbrev old_fields : List (Bytes × Plain)
old_fields = (codes "x", text_of (codes "zsh")) ∷ []

old-version : version_of plain_json old_fields ≡ 1
unfolding version_of version_or_one u64_of lookup bytes_discrete weftgrid.Base.ℕ_discrete
old-version = refl

key-length : length version_key ≢ length (codes "x")
key-length = omega arith

migrate_to_current-keeps_example :
    (migrate_to_current plain_json 1 old_document
      ≡ some (
          parsed plain_json (some (fields_of (to_fields (migrated_fields plain_json old_fields))))))
    × (version_of plain_json (migrated_fields plain_json old_fields) ≡ 2)
    × (lookup bytes_discrete (codes "x") (migrated_fields plain_json old_fields)
        ≡ some (text_of (codes "zsh")))
unfolding plain_object of_fields lookup bytes_discrete weftgrid.Base.ℕ_discrete
migrate_to_current-keeps_example =
    migrate_to_current-keeps plain_json plain-IsSerdeJson 0 old_document old_fields (codes "x")
      (text_of (codes "zsh")) refl old-version (λ e. key-length (ap length e)) refl

-- A version of 2 ^ 32 + 2 is read as version 2.
version_or_one_test : version_or_one (some (2 ^ 32 + 2)) ≡ 2
unfolding version_or_one
version_or_one_test = omega arith

abbrev as_is : Bytes → Bytes
as_is text = text

abbrev registry : KeybindingRegistry
registry = with_overrides as_is as_is ((codes "find.open", codes "shift+control+f") ∷ [])

detect_conflicts_test : detect_conflicts registry ≡ []
unfolding with_overrides detect_conflicts normalize_chord weftgrid.Base.Sort.sort_by
    weftgrid.Base.Text.equal lookup weftgrid.Config.Keybindings.bound bytes_discrete
    weftgrid.Base.ℕ_discrete weftgrid.Config.Store.text_le weftgrid.Base.Maps.insert
detect_conflicts_test = refl

resolve_test :
    resolve registry (codes "find.open")
    ≡ some (normalize_chord as_is as_is (codes "ctrl+shift++f"))
unfolding with_overrides resolve normalize_chord weftgrid.Base.Sort.sort_by weftgrid.Base.Text.equal
    lookup weftgrid.Config.Keybindings.bound bytes_discrete weftgrid.Base.ℕ_discrete
    weftgrid.Config.Store.text_le weftgrid.Base.Maps.insert
resolve_test = refl

action_for_chord-resolve_example :
    action_for_chord as_is as_is registry (codes "ctrl+shift++f") ≡ some (codes "find.open")
action_for_chord-resolve_example =
    action_for_chord-resolve as_is as_is registry (codes "find.open") (codes "ctrl+shift++f")
      detect_conflicts_test resolve_test

abbrev current_document : Plain
current_document = fields_of (field version_key (number_of 2) end)

abbrev to_text : Plain → Option Bytes
to_text document = some (codes "{}")

-- What is stored before the save.
abbrev earlier_document : Plain
earlier_document =
    fields_of (field (codes "x") (text_of (codes "zsh")) (field version_key (number_of 2) end))

unfoldable from_text : Bytes → Option Plain
from_text text = if equal text (codes "{}") then some current_document else some earlier_document

text-IsTextOf : IsTextOf plain_json from_text (codes "{}") current_document
unfolding plain_object of_fields version_of version_or_one u64_of lookup bytes_discrete
    weftgrid.Base.ℕ_discrete weftgrid.Base.Text.is_utf8 plain_u64 from_text equal
text-IsTextOf = record {
  value = current_document;
  fields = (version_key, number_of 2) ∷ [];
  utf8 = refl;
  from_str-text = refl;
  as_object-value = refl;
  current = refl;
  from_value-value = refl;
}

-- The first rename fails.
abbrev answers : Answers
answers = record {
  dir_created = true;
  file_created = true;
  writable = 10;
  synced = true;
  renamed = λ i. ltb 0 i;
}

abbrev stored : Disk
stored = (config_name, codes "old") ∷ []

stored_test : load plain_json from_text old_document 1 stored ≡ some (ok earlier_document)
unfolding load plain_object of_fields version_of version_or_one u64_of lookup bytes_discrete
    weftgrid.Base.ℕ_discrete weftgrid.Base.Text.is_utf8 plain_u64 from_text equal migrate_to_current
    weftgrid.Config.Files.load_file weftgrid.Config.Files.load_value weftgrid.Config.Files.as_stored
    weftgrid.Config.Migration.migrate_from weftgrid.Config.Migration.read_version
    weftgrid.Config.Migration.version_in weftgrid.Config.Migration.finish
    weftgrid.Config.Migration.walk parsed
stored_test = refl

saved_test :
    load plain_json from_text old_document 1 (save to_text answers stored current_document).disk
    ≡ some (ok current_document)
unfolding load save weftgrid.Config.Files.save_text plain_object of_fields version_of version_or_one
    u64_of lookup bytes_discrete weftgrid.Base.ℕ_discrete weftgrid.Base.Text.is_utf8 plain_u64
    from_text equal migrate_to_current weftgrid.Config.Files.load_file weftgrid.Base.Maps.insert
    weftgrid.Base.Maps.remove weftgrid.Config.Files.load_value weftgrid.Config.Files.as_stored
    weftgrid.Config.Migration.migrate_from weftgrid.Config.Migration.read_version
    weftgrid.Config.Migration.version_in weftgrid.Config.Migration.finish
    weftgrid.Config.Migration.walk parsed
saved_test = refl

load-save_example :
    All
      (λ left.
        (load plain_json from_text old_document 1 left
          ≡ load plain_json from_text old_document 1 stored)
        ⊎ (load plain_json from_text old_document 1 left ≡ some (ok current_document)))
      (save to_text answers stored current_document).trace
load-save_example =
    load-save plain_json from_text old_document plain-IsSerdeJson to_text 0 answers stored
      current_document (codes "{}") refl text-IsTextOf

save-trace_test : length (save to_text answers stored current_document).trace ≡ 4
unfolding save weftgrid.Config.Files.save_text lookup bytes_discrete weftgrid.Base.ℕ_discrete
save-trace_test = refl

save-IsSettled_example :
    All
      (IsWhole (lookup bytes_discrete config_name stored) (codes "{}"))
      (save to_text answers stored current_document).trace
    × IsSettled
        (lookup bytes_discrete config_name stored)
        (codes "{}")
        (save to_text answers stored current_document).disk
        (save to_text answers stored current_document).result
save-IsSettled_example = save-IsSettled to_text answers stored current_document (codes "{}") refl
