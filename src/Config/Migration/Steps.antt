-- ===== src/Config/Migration/Steps.antt =====
-- src-tauri/src/config/migration.rs: what the migration keeps, and that it ends.
use weftgrid.Base.{
  ◌≡◌, ◌≢◌, refl, Option, none, some, Bytes, ℕ, zero, suc, ◌+◌, ◌∙◌, arith, bytes_discrete, if_pos,
  if_neg,
}
use weftgrid.Base.Maps.{lookup, lookup-insert}
use weftgrid.Base.Results.{Result, ok, err}
use weftgrid.Base.Text.{codes}
use weftgrid.Config.Migration.{
  SerdeJson, MigrationError, future_version, missing_migrator, not_an_object, version_key,
  version_or_one, Fields, u64_of, version_of, version_in, read_version, insert_absent, or_insert,
  migrated_fields, migrated, migrate_v1_to_v2, step, advance, after_round, walk, parsed, finish,
  migrate_from, migrate_to_current,
}

-- What is documented of `serde_json`: an object has the fields that it was built from, and the number
-- 2 is a `u64`.
pub record IsSerdeJson {Config : Type 0} (json : SerdeJson Config) : Type 0 where
  pub as_object-object : (m : Fields json) → json.as_object (json.object m) ≡ some m
  pub as_u64-number : json.as_u64 (json.number 2) ≡ some 2

module _ {Config : Type 0} (json : SerdeJson Config) where
  insert_absent-keeps :
      (c : Bytes) (v : json.Value) (obj : Fields json) (o : Option json.Value) (k : Bytes)
      (x : json.Value)
      → lookup bytes_discrete c obj ≡ o
      → lookup bytes_discrete k obj ≡ some x
      → lookup bytes_discrete k (insert_absent json c v obj o) ≡ some x
  unfolding insert_absent
  insert_absent-keeps c v obj none k x e h = elim (bytes_discrete c k) [
    | yes p ↦ cc (e, h, p)
    | no n ↦ rw (lookup-insert, if_neg (bytes_discrete c k) n) h
  ]
  insert_absent-keeps c v obj (some y) k x e h = h

  or_insert-keeps :
      (c : Bytes) (v : json.Value) (obj : Fields json) (k : Bytes) (x : json.Value)
      → lookup bytes_discrete k obj ≡ some x
      → lookup bytes_discrete k (or_insert json c v obj) ≡ some x
  unfolding or_insert
  or_insert-keeps c v obj k x h =
      insert_absent-keeps c v obj (lookup bytes_discrete c obj) k x refl h

  migrated_fields-version :
      IsSerdeJson json → (obj : Fields json) → version_of json (migrated_fields json obj) ≡ 2
  unfolding migrated_fields version_of u64_of version_or_one
  migrated_fields-version laws obj =
      rw (lookup-insert, if_pos (bytes_discrete version_key version_key) refl, laws.as_u64-number)
        refl

  migrated_fields-keeps :
      (obj : Fields json) (k : Bytes) (x : json.Value)
      → version_key ≢ k
      → lookup bytes_discrete k obj ≡ some x
      → lookup bytes_discrete k (migrated_fields json obj) ≡ some x
  unfolding migrated_fields
  migrated_fields-keeps obj k x n h =
      let respawn = json.text (codes "fresh-shell") in
      let first = or_insert json (codes "default_respawn_policy") respawn obj in
      rw (lookup-insert, if_neg (bytes_discrete version_key k) n)
        (or_insert-keeps (codes "keybinding_overrides") json.empty_object first k x
          (or_insert-keeps (codes "default_respawn_policy") respawn obj k x h))

  -- The result of a migration, by the version of the document, with no loop.
  unfoldable pub outcome : json.Value → Fields json → ℕ → Result Config MigrationError
  outcome doc obj zero = err (missing_migrator 0)
  outcome doc obj (suc zero) =
      parsed json (json.from_value (json.object (migrated_fields json obj)))
  outcome doc obj (suc (suc zero)) = parsed json (json.from_value doc)
  outcome doc obj (suc (suc (suc n))) = err (future_version (3 + n))

  -- The same, by whether the document is an object.
  unfoldable pub result : json.Value → Option (Fields json) → Result Config MigrationError
  unfolding outcome
  result doc none = err not_an_object
  result doc (some obj) = outcome doc obj (version_of json obj)

  read_version-object :
      IsSerdeJson json
      → (obj : Fields json) → read_version json (json.object (migrated_fields json obj)) ≡ ok 2
  unfolding read_version version_in
  read_version-object laws obj = rw (laws.as_object-object, migrated_fields-version laws obj) refl

  advance-one :
      IsSerdeJson json
      → (doc : json.Value) (obj : Fields json) → json.as_object doc ≡ some obj
      → advance json 1 doc ≡ ok (2, json.object (migrated_fields json obj))
  unfolding advance step migrate_v1_to_v2 migrated
  advance-one laws doc obj e = rw (e, read_version-object laws obj) refl

  migrate_from-outcome :
      IsSerdeJson json
      → (rounds : ℕ) (doc : json.Value) (obj : Fields json) (v : ℕ) → json.as_object doc ≡ some obj
      → migrate_from json (suc rounds) doc (ok v) ≡ some (outcome doc obj v)
  unfolding migrate_from walk finish outcome after_round
  migrate_from-outcome laws rounds doc obj zero e = unfold advance step in refl
  migrate_from-outcome laws zero doc obj (suc zero) e = rw (advance-one laws doc obj e) refl
  migrate_from-outcome laws (suc rounds) doc obj (suc zero) e = rw (advance-one laws doc obj e) refl
  migrate_from-outcome laws rounds doc obj (suc (suc zero)) e = refl
  migrate_from-outcome laws rounds doc obj (suc (suc (suc n))) e = ground arith

  migrate-result :
      IsSerdeJson json
      → (rounds : ℕ) (doc : json.Value) (o : Option (Fields json)) → json.as_object doc ≡ o
      → migrate_to_current json (suc rounds) doc ≡ some (result doc o)
  unfolding migrate_to_current read_version version_in result
  migrate-result laws rounds doc none e = rw e (unfold migrate_from in refl)
  migrate-result laws rounds doc (some obj) e =
      rw e (migrate_from-outcome laws rounds doc obj (version_of json obj) e)

  -- The loop is over after at most one round, and its result is `result`: a document that is no object
  -- is refused, and so are version 0 and versions after 2; version 1 is parsed after its migration, and
  -- version 2 as it is.
  pub migrate_to_current-result :
      IsSerdeJson json
      → (rounds : ℕ) (doc : json.Value)
      → migrate_to_current json (suc rounds) doc ≡ some (result doc (json.as_object doc))
  migrate_to_current-result laws rounds doc =
      migrate-result laws rounds doc (json.as_object doc) refl

  -- A document of version 1 is parsed, after one round of the loop, from the object of its migrated
  -- fields, which is of version 2 and has under every key but the version what the document has there.
  pub migrate_to_current-keeps :
      IsSerdeJson json
      → (rounds : ℕ) (doc : json.Value) (obj : Fields json) (k : Bytes) (x : json.Value)
      → json.as_object doc ≡ some obj
      → version_of json obj ≡ 1
      → version_key ≢ k
      → lookup bytes_discrete k obj ≡ some x
      → (migrate_to_current json (suc rounds) doc
          ≡ some (parsed json (json.from_value (json.object (migrated_fields json obj)))))
        × (version_of json (migrated_fields json obj) ≡ 2)
        × (lookup bytes_discrete k (migrated_fields json obj) ≡ some x)
  migrate_to_current-keeps laws rounds doc obj k x e v n h = (
    migrate-result laws rounds doc (some obj) e ∙ (unfold result outcome in rw v refl),
    migrated_fields-version laws obj,
    migrated_fields-keeps obj k x n h,
  )
