-- ===== src/Host/Image/Place.antt =====
-- What the loops over snippets do: sizes, and the bytes that a copy leaves alone.
use stc_isp_demo.Prelude.{
  ℕ, zero, suc, ◌+◌, ◌≤◌, ◌<◌, ◌≡◌, ◌∙◌, refl, sym, ap, subst, arith, Bool, Bool-cases, ltb,
  if◌then◌else◌, List, [], ◌∷◌, ◌++◌, some, some-injective, ◌>>=◌, >>=-eq-some, length,
  length-write, length-take, length-drop, take, drop, take-append-drop, drop-add, write,
  Option-cases, inl, inr, copy, copy-append,
}
use stc_isp_demo.Device.Memory.{window}
use stc_isp_demo.Host.Image.{Snippet, filled, image_size, place}

pub length-filled : (n v : ℕ) → length (filled n v) ≡ n
length-filled zero v = refl
length-filled (suc n) v = ap suc (length-filled n v)

pub filled-add : (n m v : ℕ) → filled (n + m) v ≡ filled n v ++ filled m v
filled-add zero m v = ap (λ k. filled k v) {x = zero + m} (omega arith)
filled-add (suc n) m v =
    let e : suc n + m ≡ suc (n + m) = omega arith in rw e (ap (◌∷◌ v) (filled-add n m v))

pub length-copy : (bs xs ys : List ℕ) (o : ℕ) → copy o bs xs ≡ some ys → length ys ≡ length xs
length-copy [] xs ys o e = ap length (sym (some-injective _ _ e))
length-copy (b ∷ bs) xs ys o e =
    let (zs, w, r) = >>=-eq-some (write xs o b) (copy (o + 1) bs) e in
    length-copy bs zs ys (o + 1) r ∙ length-write xs o b zs w

pub length-place :
    (ss : List Snippet) (xs ys : List ℕ) → place ss xs ≡ some ys → length ys ≡ length xs
unfolding place
length-place [] xs ys e = ap length (sym (some-injective _ _ e))
length-place (s ∷ ss) xs ys e =
    let (zs, w, r) = >>=-eq-some (copy s.addr s.dat xs) (place ss) e in
    length-place ss zs ys r ∙ length-copy s.dat xs zs s.addr w

-- A write inside the first part of an image.
write-inside :
    (xs suf : List ℕ) (i v : ℕ)
    → i < length xs
    → (ys : List ℕ) × (write (xs ++ suf) i v ≡ some (ys ++ suf)) × (length ys ≡ length xs)
write-inside [] suf i v h = absurd (omega arith)
write-inside (x ∷ xs) suf zero v h = (v ∷ xs, refl, refl)
write-inside (x ∷ xs) suf (suc i) v h =
    let (ys, e, n) = write-inside xs suf i v (omega arith) in (x ∷ ys, rw (e, write) refl, ap suc n)

pub copy-inside :
    (bs xs suf : List ℕ) (o : ℕ)
    → o + length bs ≤ length xs
    → (ys : List ℕ) × (copy o bs (xs ++ suf) ≡ some (ys ++ suf)) × (length ys ≡ length xs)
copy-inside [] xs suf o h = (xs, refl, refl)
copy-inside (b ∷ bs) xs suf o h =
    let (zs, e, n) = write-inside xs suf o b (omega arith) in
    let (ys, f, m) = copy-inside bs zs suf (o + 1) (omega (arith, n)) in (ys, rw e f, m ∙ n)

-- No snippet reaches behind `n`.
abbrev pub AllBelow : ℕ → List Snippet → Type 0
AllBelow n [] = Unit
AllBelow n (s ∷ ss) = (s.addr + length s.dat ≤ n) × AllBelow n ss

pub place-inside :
    (ss : List Snippet) (xs suf : List ℕ)
    → AllBelow (length xs) ss
    → (ys : List ℕ) × (place ss (xs ++ suf) ≡ some (ys ++ suf)) × (length ys ≡ length xs)
unfolding place
place-inside [] xs suf h = (xs, refl, refl)
place-inside (s ∷ ss) xs suf h =
    let (zs, e, n) = copy-inside s.dat xs suf s.addr h.0 in
    let (ys, f, m) = place-inside ss zs suf (subst (λ k. AllBelow k ss) (sym n) h.1) in
    (ys, rw e f, m ∙ n)

pub place-append :
    (ss ts : List Snippet) (xs : List ℕ) → place (ss ++ ts) xs ≡ (place ss xs >>= place ts)
unfolding place
place-append [] ts xs = refl
place-append (s ∷ ss) ts xs = elim (Option-cases (copy s.addr s.dat xs)) [
  | inl e ↦ rw e refl
  | inr (ys, e) ↦ rw e (place-append ss ts ys)
]

-- The three parts of an image before and after a copy into it.
pub copy_parts :
    (bs xs ys : List ℕ) (o : ℕ)
    → copy o bs xs ≡ some ys
    → o + length bs ≤ length xs
    → ys ≡ take o xs ++ (bs ++ drop (o + length bs) xs)
copy_parts bs xs ys o e h =
    let n = length bs in
    let whole : xs ≡ take o xs ++ (take n (drop o xs) ++ drop (o + n) xs) =
      sym (take-append-drop o xs)
      ∙ ap (◌++◌ (take o xs)) (
          sym (take-append-drop n (drop o xs))
          ∙ ap (◌++◌ (take n (drop o xs))) (sym (drop-add o n xs))) in
    some-injective _ _ (
      sym e
      ∙ ap (copy o bs) whole
      ∙ copy-append bs (take o xs) (take n (drop o xs)) (drop (o + n) xs) o
          (sym (length-take o xs (omega arith)))
          (length-take n (drop o xs) (omega (arith, length-drop o xs))))

-- The bytes of a flash that holds two lists one behind the other.
pub window-append :
    (m : ℕ → ℕ) (a n : ℕ) (xs ys : List ℕ)
    → n ≡ length xs + length ys
    → window m a n ≡ xs ++ ys
    → (window m a (length xs) ≡ xs) × (window m (a + length xs) (length ys) ≡ ys)
window-append m a n [] ys h e =
    let k : n ≡ length ys = omega (arith, h) in
    let b : a + 0 ≡ a = omega arith in (refl, rw b (subst (λ j. window m a j ≡ ys) k e))
window-append m a zero (x ∷ xs) ys h e = absurd (omega (arith, h))
window-append m a (suc n) (x ∷ xs) ys h e =
    let (p, q) = window-append m (a + 1) n xs ys (omega (arith, h)) (ap tail e) in
    let b : a + suc (length xs) ≡ a + 1 + length xs = omega arith in
    (ap (◌∷◌ (m a)) p ∙ ap (λ y. y ∷ xs) (ap (λ l. head l) e), rw b q)
  where
    tail : List ℕ → List ℕ
    tail [] = []
    tail (y ∷ l) = l

    head : List ℕ → ℕ
    head [] = 0
    head (y ∷ l) = y

-- The size of an image is at least every snippet's end.
pub image_size_lem :
    (disasm : ℕ → List ℕ → Bool) (n : ℕ) (ss : List Snippet) (size : ℕ)
    → image_size disasm n ss ≡ some size
    → (n ≤ size) × AllBelow size ss
unfolding image_size
image_size_lem disasm n [] size e = (omega (arith, some-injective _ _ e), tt)
image_size_lem disasm n (s ∷ ss) size e =
    let end = s.addr + length s.dat in
    let m = if ltb n end then end else n in
    let above : (n ≤ m) × (end ≤ m) = ground arith in
    elim (Bool-cases (disasm s.addr s.dat)) [
      | inl t ↦
          let ih = image_size_lem disasm m ss size (rw t at e) in
          (omega (arith, above.0, ih.0), (omega (arith, above.1, ih.0), ih.1))
      | inr t ↦ cc (rw t at e)
    ]

pub AllBelow-append :
    (n : ℕ) (ss ts : List Snippet) → AllBelow n (ss ++ ts) → AllBelow n ss × AllBelow n ts
AllBelow-append n [] ts h = (tt, h)
AllBelow-append n (s ∷ ss) ts h = let k = AllBelow-append n ss ts h.1 in ((h.0, k.0), k.1)
