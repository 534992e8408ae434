-- ===== src/Config/Files/Crashes.antt =====
-- src-tauri/src/config/store.rs: what a crash during a save leaves behind.
use weftgrid.Base.{
  ◌≡◌, ◌≢◌, ◌⊎◌, inl, inr, refl, sym, ap, subst, ◌∙◌, Bool, true, false, Option, some, [], ◌∷◌,
  ◌++◌, Bytes, ℕ, zero, suc, All, All-weaken, All-append, bytes_discrete, Bool-cases, if_neg,
  append-nil, append_assoc, arith, length,
}
use weftgrid.Base.Maps.{lookup, insert, lookup-insert, lookup-insert_self}
use weftgrid.Base.Results.{Result, ok, err}
use weftgrid.Config.Files.{
  StoreError, Disk, config_name, temp_name, Answers, Outcome, write_all, then_sync, write_synced,
  moved, atomic_rename, then_rename, save_text, save,
}

abbrev live : Disk → Option Bytes
live d = lookup bytes_discrete config_name d

abbrev temp : Disk → Option Bytes
temp d = lookup bytes_discrete temp_name d

-- The live file is the one before the save, or the new one as a whole.
abbrev pub IsWhole : Option Bytes → Bytes → Disk → Type 0
IsWhole old new d =
    (lookup bytes_discrete config_name d ≡ old) ⊎ (lookup bytes_discrete config_name d ≡ some new)

-- Once a save has returned: the new file after a success, the old one after an error.
abbrev pub IsSettled : Option Bytes → Bytes → Disk → Result (Unit {0}) StoreError → Type 0
IsSettled old new d (ok _) = lookup bytes_discrete config_name d ≡ some new
IsSettled old new d (err _) = lookup bytes_discrete config_name d ≡ old

length-apart : length temp_name ≢ length config_name
length-apart = omega arith

names_apart : temp_name ≢ config_name
names_apart e = length-apart (ap length e)

live-insert : (bytes : Bytes) (d : Disk) → live (insert bytes_discrete temp_name bytes d) ≡ live d
live-insert bytes d =
    rw (lookup-insert, if_neg (bytes_discrete temp_name config_name) names_apart) refl

-- What a write of the temporary file does, with `done` there already.
abbrev IsWritten : Option Bytes → Bytes → Disk → Result (Unit {0}) StoreError → Type 0
IsWritten old new d (ok _) = (live d ≡ old) × (temp d ≡ some new)
IsWritten old new d (err _) = live d ≡ old

temp-insert :
    (bytes : Bytes) (d : Disk) → temp (insert bytes_discrete temp_name bytes d) ≡ some bytes
temp-insert bytes d = lookup-insert_self bytes_discrete temp_name bytes d

write_all-IsWritten :
    (old : Option Bytes) (done bs : Bytes) (n : ℕ) (d : Disk)
    → live d ≡ old
    → temp d ≡ some done
    → All (λ d'. live d' ≡ old) (write_all temp_name done bs n d).trace
      × IsWritten old
          (done ++ bs)
          (write_all temp_name done bs n d).disk
          (write_all temp_name done bs n d).result
unfolding write_all
write_all-IsWritten old done [] n d h t = (tt, (h, t ∙ ap some (sym (append-nil done))))
write_all-IsWritten old done (b ∷ bs) zero d h t = (tt, h)
write_all-IsWritten old done (b ∷ bs) (suc n) d h t =
    let next = insert bytes_discrete temp_name (done ++ (b ∷ [])) d in
    let e = live-insert (done ++ (b ∷ [])) d ∙ h in
    let rest =
      write_all-IsWritten old (done ++ (b ∷ [])) bs n next e (temp-insert (done ++ (b ∷ [])) d) in
    (
      (e, rest.0),
      subst
          (λ l.
            IsWritten old l (write_all temp_name (done ++ (b ∷ [])) bs n next).disk
              (write_all temp_name (done ++ (b ∷ [])) bs n next).result)
          (append_assoc done (b ∷ []) bs) rest.1,
    )

then_sync-IsWritten :
    (old : Option Bytes) (new : Bytes) (synced : Bool) (o : Outcome)
    (r : Result (Unit {0}) StoreError)
    → o.result ≡ r
    → All (λ d'. live d' ≡ old) o.trace
    → IsWritten old new o.disk r
    → All (λ d'. live d' ≡ old) (then_sync synced o r).trace
      × IsWritten old new (then_sync synced o r).disk (then_sync synced o r).result
unfolding then_sync
then_sync-IsWritten old new synced o (err e) q a w = (a, rw q w)
then_sync-IsWritten old new true o (ok u) q a w = (a, rw q w)
then_sync-IsWritten old new false o (ok u) q a w = (a, w.0)

write_synced-IsWritten :
    (a : Answers) (new : Bytes) (d : Disk)
    → All (λ d'. live d' ≡ live d) (write_synced a temp_name new d).trace
      × IsWritten
          (live d)
          new
          (write_synced a temp_name new d).disk
          (write_synced a temp_name new d).result
unfolding write_synced
write_synced-IsWritten a new d = elim (Bool-cases a.file_created) [
  | inl h ↦
      let created = insert bytes_discrete temp_name [] d in
      let o = write_all temp_name [] new a.writable created in
      let w =
        write_all-IsWritten (live d) [] new a.writable created (live-insert [] d)
          (temp-insert [] d) in
      rw h (
        then_sync-IsWritten (live d) new a.synced (record o { trace = created ∷ o.trace }) o.result
          refl (live-insert [] d, w.0) w.1)
  | inr h ↦ rw h (tt, refl)
]

rename-live :
    (renamed : ℕ → Bool) (old : Option Bytes) (new : Bytes) (tries i : ℕ) (d : Disk)
    → live d ≡ old
    → temp d ≡ some new
    → All (IsWhole old new) (atomic_rename renamed temp_name config_name tries i d).trace
      × IsSettled old new
          (atomic_rename renamed temp_name config_name tries i d).disk
          (atomic_rename renamed temp_name config_name tries i d).result
unfolding atomic_rename
rename-live renamed old new zero i d h t = (tt, h)
rename-live renamed old new (suc tries) i d h t = elim (Bool-cases (renamed i)) [
  | inl e ↦
      rw (e, t)
        (unfold moved in
          (
            (inr (lookup-insert_self bytes_discrete config_name new _), tt),
            lookup-insert_self bytes_discrete config_name new _,
          ))
  | inr e ↦ rw e (rename-live renamed old new tries (suc i) d h t)
]

then_rename-IsSettled :
    (a : Answers) (old : Option Bytes) (new : Bytes) (o : Outcome)
    (r : Result (Unit {0}) StoreError)
    → o.result ≡ r
    → All (λ d. live d ≡ old) o.trace
    → IsWritten old new o.disk r
    → All (IsWhole old new) (then_rename a o r).trace
      × IsSettled old new (then_rename a o r).disk (then_rename a o r).result
unfolding then_rename
then_rename-IsSettled a old new o (err e) q t w = (All-weaken (λ d h. inl h) o.trace t, rw q w)
then_rename-IsSettled a old new o (ok u) q t w =
    let r = rename-live a.renamed old new 5 0 o.disk w.0 w.1 in
    (All-append (IsWhole old new) o.trace _ (All-weaken (λ d h. inl h) o.trace t) r.0, r.1)

-- Whatever the calls of a save answer, and wherever it stops: the configuration file is the one from
-- before or the new text as a whole. Once the save returns, it is the new text after a success and
-- the one from before after an error.
pub save-IsSettled :
    {Config : Type 0}
    → (to_string_pretty : Config → Option Bytes) (a : Answers) (d : Disk) (config : Config)
      (new : Bytes)
    → to_string_pretty config ≡ some new
    → All
        (IsWhole (lookup bytes_discrete config_name d) new)
        (save to_string_pretty a d config).trace
      × IsSettled
          (lookup bytes_discrete config_name d)
          new
          (save to_string_pretty a d config).disk
          (save to_string_pretty a d config).result
unfolding save save_text
save-IsSettled to_string_pretty a d config new e = elim (Bool-cases a.dir_created) [
  | inl h ↦
      let w = write_synced-IsWritten a new d in
      rw (h, e)
        (then_rename-IsSettled a (live d) new (write_synced a temp_name new d)
          (write_synced a temp_name new d).result refl w.0 w.1)
  | inr h ↦ rw h (tt, refl)
]
