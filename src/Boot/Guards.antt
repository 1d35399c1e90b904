-- ===== src/Boot/Guards.antt =====
-- The order of the tests in try_load_flash_app of bootloader/src/main.c.
use stc_isp_demo.Prelude.{
  ℕ, ◌≡◌, ◌⊎◌, inl, inr, refl, Bool, true, false, Option, none, some, if◌then◌else◌,
}

-- The tests of try_load_flash_app, in their order.
abbrev pub chain : {B : Type 0} → Bool → Bool → Bool → B → Bool × B → Bool × B
chain invalid wrong copy b copied =
    if invalid then (false, b) else if wrong then (false, b) else if copy then copied else (true, b)

pub guards :
    {B : Type 0} (invalid wrong copy : Bool) (b : B) (copied : Bool × B)
    → (chain invalid wrong copy b copied).0 ≡ true
    → (invalid ≡ false)
      × (wrong ≡ false)
      × (((copy ≡ true) × (copied.0 ≡ true) × (chain invalid wrong copy b copied ≡ copied))
          ⊎ ((copy ≡ false) × (chain invalid wrong copy b copied ≡ (true, b))))
guards true wrong copy b copied h = cc
guards false true copy b copied h = cc
guards false false true b copied h = (refl, refl, inl (refl, h, refl))
guards false false false b copied h = (refl, refl, inr (refl, refl))

pub chain_kept :
    {B : Type 0} (invalid wrong copy : Bool) (b : B) (copied : Bool × B)
    → copy ≡ false
    → (chain invalid wrong copy b copied).1 ≡ b
chain_kept true wrong copy b copied h = refl
chain_kept false true copy b copied h = refl
chain_kept false false true b copied h = cc
chain_kept false false false b copied h = refl

pub chain_all :
    {B : Type 0} (P : B → Type 0) (invalid wrong copy : Bool) (b : B) (copied : Bool × B)
    → P b
    → P copied.1
    → P (chain invalid wrong copy b copied).1
chain_all P true wrong copy b copied p q = p
chain_all P false true copy b copied p q = p
chain_all P false false true b copied p q = q
chain_all P false false false b copied p q = p

pub chain_done :
    {B : Type 0} (invalid wrong copy : Bool) (b : B) (copied : Bool × B)
    → invalid ≡ false
    → wrong ≡ false
    → copy ≡ false
    → chain invalid wrong copy b copied ≡ (true, b)
chain_done invalid wrong copy b copied p q r = rw (p, q, r) refl

-- A compare after which no copy is needed has gone through all blocks.
pub kept :
    (v : Bool) (o : Option ℕ) (bad : ℕ → Bool)
    → v ≡ true
    → (if v then elim o [ none ↦ true | some c ↦ bad c ] else false) ≡ false
    → (k : ℕ) × (o ≡ some k)
kept true none bad v h = cc
kept true (some k) bad v h = (k, refl)
kept false o bad v h = cc
