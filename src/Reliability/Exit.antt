-- ===== src/Reliability/Exit.antt =====
-- src-tauri/src/reliability/recovery/pty.rs and pty_watchdog.rs: which deaths of a pane's process the
-- user is told of. The notifier is the list of the events that it was given.
use weftgrid.Base.{
  ℕ, ◌+◌, ◌-◌, ◌≤◌, ◌≡◌, ◌⊎◌, inl, inr, refl, ap, Bool, true, false, ◌&&◌, Option, none, some, List,
  [], ◌∷◌, ◌++◌, arith, leb, if◌then◌else◌, Bytes, Bool-cases,
}
use weftgrid.Base.Int.{ℤ, pos, negsuc}
use weftgrid.Base.Text.{codes}
use weftgrid.Base.Decimal.{decimal, decimal_int}

pub data PtyExitClass : Type 0 where
  graceful unexpected : PtyExitClass

pub data PtyExit : Type 0 where
  exit_code : ℤ → PtyExit
  signal : ℤ → PtyExit

-- `(129..=159).contains(&code)`
abbrev is_signal_code : ℤ → Bool
is_signal_code (pos code) = leb 129 code && leb code 159
is_signal_code (negsuc _) = false

unfoldable pub classify_exit : PtyExit → PtyExitClass
classify_exit (signal _) = unexpected
classify_exit (exit_code code) = if is_signal_code code then unexpected else graceful

unfoldable pub should_offer_respawn : PtyExit → Bool
unfolding classify_exit
should_offer_respawn e = elim (classify_exit e) [ unexpected ↦ true | graceful ↦ false ]

pub record PaneRecoveryEvent : Type 0 where
  pub pane_id : Bytes
  pub reason : Bytes
  pub offer_respawn : Bool

-- `code - 128`, which is only printed for a code of at least 129
abbrev code_signal : ℤ → ℕ
code_signal (pos code) = code - 128
code_signal (negsuc _) = 0

unfoldable pub describe_exit : PtyExit → Bytes
unfolding decimal_int decimal
describe_exit (signal s) = codes "process terminated by signal " ++ decimal_int s
describe_exit (exit_code code) =
    if is_signal_code code
    then codes "process died on signal "
      ++ decimal (code_signal code)
      ++ codes " (exit "
      ++ decimal_int code
      ++ codes ")"
    else codes "process exited unexpectedly (code " ++ decimal_int code ++ codes ")"

unfoldable pub recovery_event_for : Bytes → PtyExit → Option PaneRecoveryEvent
unfolding classify_exit describe_exit
recovery_event_for pane e = elim (classify_exit e) [
  | graceful ↦ none
  | unexpected ↦ some (record { pane_id = pane; reason = describe_exit e; offer_respawn = true })
]

unfoldable pub emit_pane_recovery :
    List PaneRecoveryEvent → Bytes → PtyExit → List PaneRecoveryEvent × Bool
unfolding recovery_event_for
emit_pane_recovery told pane e = elim (recovery_event_for pane e) [
  | some event ↦ (told ++ event ∷ [], true)
  | none ↦ (told, false)
]

-- The deaths that are not the user's doing: by a signal, or with the code that a shell gives for one.
pub IsCrash : PtyExit → Type 0
IsCrash (signal _) = Unit {0}
IsCrash (exit_code code) = (n : ℕ) × (code ≡ pos (128 + n)) × (1 ≤ n) × (n ≤ 31)

pos-injective : (m n : ℕ) → pos m ≡ pos n → m ≡ n
pos-injective m n h = ap (λ z. elim z [ pos k ↦ k | negsuc k ↦ k ]) h

classify_exit-IsCrash :
    (e : PtyExit)
    → ((classify_exit e ≡ unexpected) × IsCrash e) ⊎ ((classify_exit e ≡ graceful) × ¬ (IsCrash e))
unfolding classify_exit IsCrash
classify_exit-IsCrash (signal s) = inl (refl, tt)
classify_exit-IsCrash (exit_code (negsuc n)) = inr (refl, λ h. ground (arith, h))
classify_exit-IsCrash (exit_code (pos n)) = elim (Bool-cases (is_signal_code (pos n))) [
  | inl h ↦
      inl (rw h refl, (n - 128, ap pos (ground (arith, h)), ground (arith, h), ground (arith, h)))
  | inr h ↦ inr (rw h refl, λ c. ground (arith, h, pos-injective n (128 + c.0) c.1, c.2, c.3))
]

abbrev pub event_of : Bytes → PtyExit → PaneRecoveryEvent
event_of pane e = record { pane_id = pane; reason = describe_exit e; offer_respawn = true }

module _ (told : List PaneRecoveryEvent) (pane : Bytes) where
  emit-unexpected :
      (e : PtyExit)
      → classify_exit e ≡ unexpected
      → (should_offer_respawn e ≡ true)
        × (emit_pane_recovery told pane e ≡ (told ++ event_of pane e ∷ [], true))
  unfolding emit_pane_recovery recovery_event_for should_offer_respawn
  emit-unexpected e h =
      (rw (should_offer_respawn, h) refl, rw (emit_pane_recovery, recovery_event_for, h) refl)

  emit-graceful :
      (e : PtyExit)
      → classify_exit e ≡ graceful
      → (should_offer_respawn e ≡ false) × (emit_pane_recovery told pane e ≡ (told, false))
  unfolding emit_pane_recovery recovery_event_for should_offer_respawn
  emit-graceful e h =
      (rw (should_offer_respawn, h) refl, rw (emit_pane_recovery, recovery_event_for, h) refl)

  -- For a crash, and for no other death, one event is emitted: it names the pane and offers a
  -- respawn. Nothing is emitted for the others. The answer says which it was, as
  -- `should_offer_respawn` does.
  pub emit_pane_recovery_lem :
      (e : PtyExit)
      → ((emit_pane_recovery told pane e).1 ≡ should_offer_respawn e)
        × (((emit_pane_recovery told pane e ≡ (told ++ event_of pane e ∷ [], true)) × IsCrash e)
            ⊎ ((emit_pane_recovery told pane e ≡ (told, false)) × ¬ (IsCrash e)))
  emit_pane_recovery_lem e = elim (classify_exit-IsCrash e) [
    | inl (h, c) ↦ let r = emit-unexpected e h in (rw (r.0, r.1) refl, inl (r.1, c))
    | inr (h, c) ↦ let r = emit-graceful e h in (rw (r.0, r.1) refl, inr (r.1, c))
  ]
