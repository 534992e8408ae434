-- ===== src/Import/Detect/Order.antt =====
-- The order in which installed browsers are listed.
use mathlib.Core.List.{Perm}
use mathlib.Core.List.Perm
use weftgrid.Base.{
  ℕ, ◌<◌, ◌≡◌, ◌⊎◌, inl, inr, refl, ap, ◌∙◌, Bool, true, false, List, [], ◌∷◌, Bytes, Option, none,
  some, arith, All, All-weaken, Bool-cases, map, select, if◌then◌else◌,
}
use weftgrid.Base.Sort.{IsSorted, sort_by-perm, sort_by-IsSorted}
use weftgrid.Config.Store.{text_le}
use weftgrid.Import.Catalog.{BrowserFamily, BrowserDescriptor, catalog}
use weftgrid.Import.Detect.{
  System, BrowserInfo, tier_name_le, info_for, with_info, found_in, detect_in,
}

text_le-total : (x y : Bytes) → text_le x y ≡ false → text_le y x ≡ true
unfolding text_le
text_le-total [] y h = cc
text_le-total (a ∷ x) [] h = refl
text_le-total (a ∷ x) (b ∷ y) h = ground (arith, text_le-total x y)

text_le_trans : (x y z : Bytes) → text_le x y ≡ true → text_le y z ≡ true → text_le x z ≡ true
unfolding text_le
text_le_trans [] y z h k = refl
text_le_trans (a ∷ x) [] z h k = cc
text_le_trans (a ∷ x) (b ∷ y) [] h k = cc
text_le_trans (a ∷ x) (b ∷ y) (c ∷ z) h k = ground (arith, text_le_trans x y z)

tier_name_le-total : (a b : BrowserInfo) → tier_name_le a b ≡ false → tier_name_le b a ≡ true
tier_name_le-total a b h = ground (arith, text_le-total a.display_name b.display_name)

tier_name_le_trans :
    (a b c : BrowserInfo)
    → tier_name_le a b ≡ true
    → tier_name_le b c ≡ true
    → tier_name_le a c ≡ true
tier_name_le_trans a b c h k =
    ground (arith, text_le_trans a.display_name b.display_name c.display_name)

-- Of a lower tier, or of the same tier and of a name that is not greater.
pub IsBefore : BrowserInfo → BrowserInfo → Type 0
IsBefore a b =
    (a.tier < b.tier) ⊎ ((a.tier ≡ b.tier) × (text_le a.display_name b.display_name ≡ true))

-- Each browser may stand before all that follow it.
pub IsListed : List BrowserInfo → Type 0
IsListed [] = Unit {0}
IsListed (a ∷ l) = All (IsBefore a) l × IsListed l

tier_name_le-IsBefore : (a b : BrowserInfo) → tier_name_le a b ≡ true → IsBefore a b
unfolding IsBefore
tier_name_le-IsBefore a b h = ground arith

IsSorted-IsListed : (l : List BrowserInfo) → IsSorted tier_name_le l → IsListed l
unfolding IsListed
IsSorted-IsListed [] s = tt
IsSorted-IsListed (a ∷ l) s =
    (All-weaken (λ b h. tier_name_le-IsBefore a b h) l s.0, IsSorted-IsListed l s.1)

-- What a listed browser and a row of the catalog have in common.
abbrev pub Entry : Type 0
Entry = Bytes × Bytes × BrowserFamily × ℕ

abbrev pub entry_of : BrowserInfo → Entry
entry_of i = (i.id, i.display_name, i.family, i.tier)

abbrev pub row_of : BrowserDescriptor → Entry
row_of d = (d.id, d.display_name, d.family, d.tier)

abbrev pub is_some : Option Bytes → Bool
is_some none = false
is_some (some root) = true

-- The rows whose data root is found.
abbrev pub rows_found :
    (BrowserDescriptor → Option Bytes) → List BrowserDescriptor → List BrowserDescriptor
rows_found resolve_root ds = select (λ d. is_some (resolve_root d)) ds

module _ (sys : System) (resolve_root : BrowserDescriptor → Option Bytes) where
  with_info-entries :
      (d : BrowserDescriptor) (o : Option Bytes) (l : List BrowserInfo)
      → map entry_of (with_info sys d o l)
        ≡ (if is_some o then row_of d ∷ map entry_of l else map entry_of l)
  unfolding info_for
  with_info-entries d none l = refl
  with_info-entries d (some root) l = refl

  found_in-entries :
      (ds : List BrowserDescriptor)
      → map entry_of (found_in sys resolve_root ds) ≡ map row_of (rows_found resolve_root ds)
  unfolding found_in
  found_in-entries [] = refl
  found_in-entries (d ∷ ds) =
      with_info-entries d (resolve_root d) (found_in sys resolve_root ds)
      ∙ (elim (Bool-cases (is_some (resolve_root d))) [
        | inl e ↦ rw e (ap (◌∷◌ (row_of d)) (found_in-entries ds))
        | inr e ↦ rw e (found_in-entries ds)
      ])

  -- The installed browsers are listed by tier and, within a tier, by name; they are the rows of the
  -- catalog whose data root is found, each once, with the row's id, name, family and tier.
  pub detect_in-IsListed :
      IsListed (detect_in sys resolve_root)
      × Perm
          (map entry_of (detect_in sys resolve_root))
          (map row_of (rows_found resolve_root catalog))
  unfolding detect_in
  detect_in-IsListed = (
    IsSorted-IsListed (detect_in sys resolve_root) (
        sort_by-IsSorted tier_name_le tier_name_le-total tier_name_le_trans
          (found_in sys resolve_root catalog)),
    rw (← found_in-entries catalog)
        (Perm.map entry_of (sort_by-perm tier_name_le (found_in sys resolve_root catalog))),
  )
