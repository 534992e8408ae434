-- ===== src/Config/Trust.antt =====
-- src-tauri/src/config/weft_trust.rs: which commands run without a question. A command's
-- serialized workspace is given; `canonical` is the file system's canonical path.
use weftgrid.Base.{
  ℕ, ◌≡◌, ◌≢◌, ◌↔◌, ◌⊎◌, refl, subst, ltb, ◌+◌, ◌-◌, ◌/◌, ◌%◌, sym, ap, ◌∙◌, inl, inr, Bool, true,
  false, Option, none, some, List, [], ◌∷◌, ◌++◌, bytes_discrete, ite, if_pos, if_neg,
  if◌then◌else◌, Bytes, append_assoc, append-nil, leb, ◌&&◌, ◌||◌, Bool-cases,
}
use weftgrid.Base.Text.{codes}
use weftgrid.Config.Sha256.{Sha256, update, finalize}
use weftgrid.Config.Sha256
use weftgrid.Config.Sha256.Streaming.{update-append}

pub data TrustDecision : Type 0 where
  allow_unconfirmed needs_confirm : TrustDecision

pub data CommandOrigin : Type 0 where
  global project_local : CommandOrigin

pub record WeftCommand : Type 0 where
  pub name : Bytes
  pub confirm : Option Bool
  pub command : Option Bytes
  pub workspace : Option Bytes

-- The set of trusted fingerprints.
pub record TrustStore : Type 0 where
  pub fingerprints : List Bytes

abbrev pub in_memory : TrustStore
in_memory = record { fingerprints = [] }

unfoldable pub contains : Bytes → List Bytes → Bool
contains f [] = false
contains f (g ∷ gs) = ite (bytes_discrete g f) true (contains f gs)

unfoldable pub insert : Bytes → List Bytes → List Bytes
unfolding contains
insert f fs = if contains f fs then fs else f ∷ fs

abbrev pub hex_digit : ℕ → ℕ
hex_digit n = if ltb n 10 then b'0' + n else b'a' + (n - 10)

unfoldable pub hex : Bytes → Bytes
hex [] = []
hex (b ∷ bs) = hex_digit (b / 16) ∷ hex_digit (b % 16) ∷ hex bs

abbrev is_ascii_alphanumeric : ℕ → Bool
is_ascii_alphanumeric b =
    leb b'0' b && leb b b'9' || (leb b'A' b && leb b b'Z' || leb b'a' b && leb b b'z')

abbrev upper_hex_digit : ℕ → ℕ
upper_hex_digit n = if ltb n 10 then b'0' + n else b'A' + (n - 10)

unfoldable pub percent_alnum : Bytes → Bytes
percent_alnum [] = []
percent_alnum (b ∷ bs) =
    if is_ascii_alphanumeric b
    then b ∷ percent_alnum bs
    else b'%' ∷ upper_hex_digit (b / 16) ∷ upper_hex_digit (b % 16) ∷ percent_alnum bs

unfoldable pub id : WeftCommand → Bytes
unfolding percent_alnum
id command = codes "weft.config.command." ++ percent_alnum command.name

abbrev pub text_or_empty : Option Bytes → Bytes
text_or_empty none = []
text_or_empty (some t) = t

unfoldable pub update_some : Sha256 → Option Bytes → Sha256
unfolding update
update_some h none = h
update_some h (some t) = update h t

-- `decide` from whether the fingerprint is a trusted one.
unfoldable pub decide_from : WeftCommand → CommandOrigin → Bool → TrustDecision
decide_from command origin trusted = elim command.confirm [
  | some true ↦ needs_confirm
  | _ ↦ elim origin [
    | global ↦ allow_unconfirmed
    | project_local ↦ if trusted then allow_unconfirmed else needs_confirm
  ]
]

contains-insert :
    (f g : Bytes) (fs : List Bytes)
    → contains f (insert g fs) ≡ ite (bytes_discrete g f) true (contains f fs)
unfolding insert contains
contains-insert f g fs = elim (Bool-cases (contains g fs)) [
  | inl e ↦ rw e (elim (bytes_discrete g f) [
    | yes p ↦ rw (if_pos (bytes_discrete g f) p) (subst (λ x. contains x fs ≡ true) p e)
    | no p ↦ rw (if_neg (bytes_discrete g f) p) refl
  ])
  | inr e ↦ rw e refl
]

contains-insert_iff :
    (f g : Bytes) (fs : List Bytes)
    → (contains f (insert g fs) ≡ true) ↔ ((g ≡ f) ⊎ (contains f fs ≡ true))
contains-insert_iff f g fs = rw (contains-insert f g fs) (elim (bytes_discrete g f) [
  | yes p ↦ rw (if_pos (bytes_discrete g f) p) (λ _. inl p, λ _. refl)
  | no p ↦
      rw (if_neg (bytes_discrete g f) p)
        (λ h. inr h, λ c. elim c [ inl q ↦ absurd (p q) | inr h ↦ h ])
])

false-true : ¬ (false ≡ true)
false-true h = cc

-- When a command runs without a question, `P` being what makes it a trusted one.
decide_from-allows :
    (command : WeftCommand) (origin : CommandOrigin) (c : Option Bool) (trusted : Bool) (P : Type 0)
    → command.confirm ≡ c
    → (trusted ≡ true) ↔ P
    → (decide_from command origin trusted ≡ allow_unconfirmed)
      ↔ ((command.confirm ≢ some true) × ((origin ≡ global) ⊎ P))
unfolding decide_from
decide_from-allows command origin (some true) trusted P e t = rw e (λ h. cc, λ h. absurd (h.0 refl))
decide_from-allows command global (some false) trusted P e t =
    rw e (λ _. ((λ h. cc), inl refl), λ _. refl)
decide_from-allows command project_local (some false) true P e t =
    rw e (λ _. ((λ h. cc), inr (t.0 refl)), λ _. refl)
decide_from-allows command project_local (some false) false P e t =
    rw e (λ h. cc, λ h. elim h.1 [ inl q ↦ cc | inr p ↦ absurd (false-true (t.1 p)) ])
decide_from-allows command global none trusted P e t = rw e (λ _. ((λ h. cc), inl refl), λ _. refl)
decide_from-allows command project_local none true P e t =
    rw e (λ _. ((λ h. cc), inr (t.0 refl)), λ _. refl)
decide_from-allows command project_local none false P e t =
    rw e (λ h. cc, λ h. elim h.1 [ inl q ↦ cc | inr p ↦ absurd (false-true (t.1 p)) ])

-- Parts that are hashed one after another.
update_all : Sha256 → List Bytes → Sha256
update_all h [] = h
update_all h (x ∷ xs) = update_all (update h x) xs

abbrev concat : List Bytes → Bytes
concat [] = []
concat (x ∷ xs) = x ++ concat xs

update_all-concat :
    (h : Sha256) (x : Bytes) (xs : List Bytes)
    → update_all (update h x) xs ≡ update h (x ++ concat xs)
unfolding update_all
update_all-concat h x [] = ap (update h) (sym (append-nil x))
update_all-concat h x (y ∷ ys) =
    ap (λ k. update_all k ys) (update-append h x y)
    ∙ update_all-concat h (x ++ y) ys
    ∙ ap (update h) (append_assoc x y (concat ys))

ite-ap : {A B P : Type 0} (f : A → B) (d : Dec P) (x y : A) → f (ite d x y) ≡ ite d (f x) (f y)
ite-ap f (yes _) x y = refl
ite-ap f (no _) x y = refl

module _ (canonical : Bytes → Bytes) where
  unfoldable pub hashed : WeftCommand → Bytes → Sha256
  unfolding update update_some id
  hashed command source_path =
      let h1 = update Sha256.new (id command) in
      let h2 = update h1 (0 ∷ []) in
      let h3 = update h2 (text_or_empty command.command) in
      let h4 = update h3 (0 ∷ []) in
      let h5 = update_some h4 command.workspace in
      let h6 = update h5 (0 ∷ []) in update h6 (canonical source_path)

  unfoldable pub fingerprint : WeftCommand → Bytes → Bytes
  unfolding hashed finalize hex
  fingerprint command source_path = hex (finalize (hashed command source_path))

  unfoldable pub is_trusted : TrustStore → WeftCommand → Bytes → Bool
  unfolding fingerprint contains
  is_trusted store command source_path =
      contains (fingerprint command source_path) store.fingerprints

  unfoldable pub decide : TrustStore → WeftCommand → CommandOrigin → Bytes → TrustDecision
  unfolding fingerprint contains decide_from
  decide store command origin source_path =
      decide_from command origin (contains (fingerprint command source_path) store.fingerprints)

  unfoldable pub grant : TrustStore → WeftCommand → Bytes → TrustStore
  unfolding fingerprint insert
  grant store command source_path = record store {
    fingerprints = insert (fingerprint command source_path) store.fingerprints;
  }

  -- The text that a fingerprint is the hash of: the parts of a command with a zero byte between them.
  abbrev pub identity : WeftCommand → Bytes → Bytes
  identity command source_path =
      id command
      ++ concat (
          (0 ∷ [])
          ∷ text_or_empty command.command
          ∷ (0 ∷ [])
          ∷ text_or_empty command.workspace
          ∷ (0 ∷ [])
          ∷ canonical source_path
          ∷ [])

  hashed-identity :
      (command : WeftCommand) (source_path : Bytes) (w : Option Bytes)
      → w ≡ command.workspace
      → hashed command source_path ≡ update Sha256.new (identity command source_path)
  unfolding hashed update_some update_all
  hashed-identity command source_path none h = rw (sym h) (
      update_all-concat Sha256.new (id command) (
        (0 ∷ [])
        ∷ text_or_empty command.command
        ∷ (0 ∷ [])
        ∷ (0 ∷ [])
        ∷ canonical source_path
        ∷ []))
  hashed-identity command source_path (some t) h = rw (sym h) (
      update_all-concat Sha256.new (id command) (
        (0 ∷ [])
        ∷ text_or_empty command.command
        ∷ (0 ∷ [])
        ∷ t
        ∷ (0 ∷ [])
        ∷ canonical source_path
        ∷ []))

  -- The fingerprint is the SHA-256 of one text, the parts of the command and its path with a zero byte
  -- between them, as if that text were hashed in one go.
  pub fingerprint-identity :
      (command : WeftCommand) (source_path : Bytes)
      → fingerprint command source_path
        ≡ hex (finalize (update Sha256.new (identity command source_path)))
  unfolding fingerprint
  fingerprint-identity command source_path =
      ap (λ h. hex (finalize h)) (hashed-identity command source_path command.workspace refl)

  -- After a grant, a command runs without a question exactly if it does not ask for one itself, and
  -- it is from the global configuration, or has the granted fingerprint, or was trusted before.
  pub decide-grant :
      (store : TrustStore) (granted command : WeftCommand) (origin : CommandOrigin)
      (from at : Bytes)
      → (decide (grant store granted from) command origin at ≡ allow_unconfirmed) ↔ (
          (command.confirm ≢ some true)
          × ((origin ≡ global)
              ⊎ ((fingerprint granted from ≡ fingerprint command at)
                  ⊎ (is_trusted store command at ≡ true))))
  unfolding decide grant is_trusted
  decide-grant store granted command origin from at =
      let f = fingerprint command at in
      let g = fingerprint granted from in
      decide_from-allows command origin command.confirm (contains f (insert g store.fingerprints))
        ((g ≡ f) ⊎ (contains f store.fingerprints ≡ true)) refl
        (contains-insert_iff f g store.fingerprints)
