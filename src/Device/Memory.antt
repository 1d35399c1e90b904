-- ===== src/Device/Memory.antt =====
-- A flash as the byte at each address, and the bytes in an address range.
use stc_isp_demo.Prelude.{
  ℕ, zero, suc, ◌+◌, ◌≤◌, ◌<◌, ◌≡◌, refl, ap, List, [], ◌∷◌, ◌++◌, arith, length,
}

-- The `n` bytes from address `a` on.
abbrev pub window : (ℕ → ℕ) → ℕ → ℕ → List ℕ
window m a zero = []
window m a (suc n) = m a ∷ window m (a + 1) n

pub length-window : (m : ℕ → ℕ) (a n : ℕ) → length (window m a n) ≡ n
length-window m a zero = refl
length-window m a (suc n) = ap suc (length-window m (a + 1) n)

pub window-add : (m : ℕ → ℕ) (a n k : ℕ) → window m a n ++ window m (a + n) k ≡ window m a (n + k)
window-add m a zero k = ground arith
window-add m a (suc n) k =
    let e : suc n + k ≡ suc (n + k) = omega arith in
    let f : a + suc n ≡ a + 1 + n = omega arith in
    rw (e, f) (ap (◌∷◌ (m a)) (window-add m (a + 1) n k))

-- Equal bytes give equal windows.
pub window_ext :
    (m m' : ℕ → ℕ) (a n : ℕ)
    → ((i : ℕ) → a ≤ i → i < a + n → m i ≡ m' i)
    → window m a n ≡ window m' a n
window_ext m m' a zero h = refl
window_ext m m' a (suc n) h = ground (
  arith,
  h a (omega arith) (omega arith),
  window_ext m m' (a + 1) n (λ i p q. h i (omega arith) (omega arith)),
)

abbrev pub AllBytes : List ℕ → Type 0
AllBytes [] = Unit
AllBytes (b ∷ bs) = (b < 256) × AllBytes bs
