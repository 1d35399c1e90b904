-- ===== src/Device/Crc.antt =====
-- The 32-bit check sum functions that the firmware takes from libhb (hb_crc32_slow_init,
-- hb_crc32_slow_update1, hb_crc32_slow_update and hb_crc32_slow_finalize): a block is summed byte
-- by byte.
use stc_isp_demo.Prelude.{ℕ, ◌≡◌, ◌∙◌, List, [], ◌∷◌, ◌++◌}

pub record Crc32 : Type 0 where
  pub init : ℕ
  pub update1 : ℕ → ℕ → ℕ
  pub update : ℕ → List ℕ → ℕ
  pub finalize : ℕ → ℕ
  pub update-nil : (c : ℕ) → update c [] ≡ c
  pub update-cons : (c x : ℕ) (xs : List ℕ) → update c (x ∷ xs) ≡ update (update1 c x) xs

module _ (crc : Crc32) where
  -- The check sum of a whole block.
  abbrev pub crc_of : List ℕ → ℕ
  crc_of bs = crc.finalize (crc.update crc.init bs)

  -- A block may be summed in two parts.
  pub update-append :
      (c : ℕ) (xs ys : List ℕ) → crc.update c (xs ++ ys) ≡ crc.update (crc.update c xs) ys
  update-append c [] ys = rw crc.update-nil
  update-append c (x ∷ xs) ys =
      crc.update-cons c x (xs ++ ys)
      ∙ update-append (crc.update1 c x) xs ys
      ∙ rw (← crc.update-cons c x xs)
