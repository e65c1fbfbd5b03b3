-- ===== src/View/Picture.antt =====
-- What `qr_texture` draws: the modules of the code, and a white frame around them.
use meshtastic_lora_rs.Common.{
  ℕ, zero, suc, ◌+◌, ◌-◌, ◌*◌, ◌/◌, ◌%◌, ◌≤◌, ◌<◌, ◌≡◌, ◌≢◌, refl, ap, sym, ◌∙◌, subst, Bool, true,
  false, ◌&&◌, List, [], ◌∷◌, Option, some, arith, get_elem?, copy_at, replicate, length, leb, ltb,
  if◌then◌else◌, Bool-cases, inl, inr,
}
use native.Mathlib.Nat.{
  mul-add-div_right, div-eq_of_lt, mod-eq_of_lt, mod-lt, mul-add-mod_self_right, div-lt_iff_lt-mul,
  div-add-mod, mul-le-mul_right,
}
use meshtastic_lora_rs.View.Qr.{pixel_at, draw, qr_pixels}

module _ {ℓ} {A : Type ℓ} where
  get_elem?-copy_at :
      (n : ℕ) (x y : A) (xs : List A)
      → get_elem? xs n ≡ some y
      → get_elem? (copy_at n (x ∷ []) xs) n ≡ some x
  get_elem?-copy_at n x y [] found = cc
  get_elem?-copy_at zero x y (z ∷ xs) found = refl
  get_elem?-copy_at (suc n) x y (z ∷ xs) found = get_elem?-copy_at n x y xs found

  get_elem?-copy_at_other :
      (n m : ℕ) (x : A) (xs : List A) → n ≢ m → get_elem? (copy_at n (x ∷ []) xs) m ≡ get_elem? xs m
  get_elem?-copy_at_other zero m x [] apart = refl
  get_elem?-copy_at_other (suc n) m x [] apart = refl
  get_elem?-copy_at_other zero zero x (z ∷ xs) apart = absurd (apart refl)
  get_elem?-copy_at_other zero (suc m) x (z ∷ xs) apart = refl
  get_elem?-copy_at_other (suc n) zero x (z ∷ xs) apart = refl
  get_elem?-copy_at_other (suc n) (suc m) x (z ∷ xs) apart =
      get_elem?-copy_at_other n m x xs (λ e. apart (ap suc e))

  get_elem?-replicate : (n i : ℕ) (x : A) → i < n → get_elem? (replicate n x) i ≡ some x
  get_elem?-replicate zero i x lt = absurd (omega arith)
  get_elem?-replicate (suc n) zero x lt = refl
  get_elem?-replicate (suc n) (suc i) x lt = get_elem?-replicate n i x (omega arith)

  get_elem?-some : (xs : List A) (i : ℕ) → i < length xs → (x : A) × (get_elem? xs i ≡ some x)
  get_elem?-some [] i lt = absurd (omega arith)
  get_elem?-some (x ∷ xs) zero lt = (x, refl)
  get_elem?-some (x ∷ xs) (suc i) lt = get_elem?-some xs i (omega arith)

-- A number in base `n` with the digits `a` and `b`.
two_digits-div : (n a b : ℕ) → b < n → (a * n + b) / n ≡ a
two_digits-div n a b lt =
    mul-add-div_right (omega arith) a b ∙ ap (λ q. a + q) (div-eq_of_lt lt) ∙ omega arith

two_digits-mod : (n a b : ℕ) → b < n → (a * n + b) % n ≡ b
two_digits-mod n a b lt = mul-add-mod_self_right a n b ∙ mod-eq_of_lt lt

-- The row and the column of a module's pixel.
pixel_at-div : (w i : ℕ) → 0 < w → pixel_at w i / (w + 4) ≡ i / w + 2
unfolding pixel_at
pixel_at-div w i pos =
    let col = mod-lt i pos in two_digits-div (w + 4) (i / w + 2) (i % w + 2) (omega arith)

pixel_at-mod : (w i : ℕ) → 0 < w → pixel_at w i % (w + 4) ≡ i % w + 2
unfolding pixel_at
pixel_at-mod w i pos =
    let col = mod-lt i pos in two_digits-mod (w + 4) (i / w + 2) (i % w + 2) (omega arith)

-- Two modules have two pixels.
pixel_at-injective : (w i j : ℕ) → 0 < w → pixel_at w i ≡ pixel_at w j → i ≡ j
pixel_at-injective w i j pos same =
    let row : i / w + 2 ≡ j / w + 2 =
      sym (pixel_at-div w i pos) ∙ ap (λ p. p / (w + 4)) same ∙ pixel_at-div w j pos in
    let col : i % w + 2 ≡ j % w + 2 =
      sym (pixel_at-mod w i pos) ∙ ap (λ p. p % (w + 4)) same ∙ pixel_at-mod w j pos in
    let same_row : i / w ≡ j / w = omega arith in
    let same_col : i % w ≡ j % w = omega arith in
    sym (div-add-mod i w) ∙ rw (same_row, same_col) refl ∙ div-add-mod j w

-- Drawing touches the modules' pixels alone.
draw-keeps :
    (w i : ℕ) (modules pixels : List Bool) (p : ℕ)
    → ((j : ℕ) → i ≤ j → j < i + length modules → pixel_at w j ≢ p)
    → get_elem? (draw w i modules pixels) p ≡ get_elem? pixels p
unfolding draw
draw-keeps w i [] pixels p apart = refl
draw-keeps w i (true ∷ modules) pixels p apart =
    draw-keeps w (i + 1) modules (copy_at (pixel_at w i) (true ∷ []) pixels) p
      (λ j low high. apart j (omega arith) (omega arith))
    ∙ get_elem?-copy_at_other (pixel_at w i) p true pixels (apart i (omega arith) (omega arith))
draw-keeps w i (false ∷ modules) pixels p apart =
    draw-keeps w (i + 1) modules pixels p (λ j low high. apart j (omega arith) (omega arith))

-- A white pixel gets its module's colour.
draw-paints :
    (w i : ℕ) (modules pixels : List Bool) (k m : ℕ) (dark : Bool)
    → 0 < w
    → m ≡ i + k
    → get_elem? modules k ≡ some dark
    → get_elem? pixels (pixel_at w m) ≡ some false
    → get_elem? (draw w i modules pixels) (pixel_at w m) ≡ some dark
unfolding draw
draw-paints w i [] pixels k m dark pos at found white = cc
draw-paints w i (true ∷ modules) pixels zero m dark pos at found white =
    draw-keeps w (i + 1) modules (copy_at (pixel_at w i) (true ∷ []) pixels) (pixel_at w m)
      (λ j low high same. let e = pixel_at-injective w j m pos same in omega arith)
    ∙ subst (λ n. get_elem? (copy_at n (true ∷ []) pixels) (pixel_at w m) ≡ some true)
        (ap (pixel_at w) (omega arith)) (get_elem?-copy_at (pixel_at w m) true false pixels white)
    ∙ found
draw-paints w i (false ∷ modules) pixels zero m dark pos at found white =
    draw-keeps w (i + 1) modules pixels (pixel_at w m)
      (λ j low high same. let e = pixel_at-injective w j m pos same in omega arith)
    ∙ white
    ∙ found
draw-paints w i (true ∷ modules) pixels (suc k) m dark pos at found white =
    draw-paints w (i + 1) modules (copy_at (pixel_at w i) (true ∷ []) pixels) k m dark pos
      (omega arith) found
      (get_elem?-copy_at_other (pixel_at w i) (pixel_at w m) true pixels
          (λ same. let e = pixel_at-injective w i m pos same in omega arith)
        ∙ white)
draw-paints w i (false ∷ modules) pixels (suc k) m dark pos at found white =
    draw-paints w (i + 1) modules pixels k m dark pos (omega arith) found white

-- A row of a square ends before the square does.
in_square : (n row col : ℕ) → row < n → col < n → row * n + col < n * n
in_square n row col low right =
    let next : suc row ≤ n = omega arith in let h = mul-le-mul_right n next in omega arith

square-pos : (w i : ℕ) → i < w * w → 0 < w
square-pos zero i fits = absurd (omega arith)
square-pos (suc w) i fits = omega arith

-- Whether a pixel is in the code, and not in the frame around it.
abbrev pub in_code : ℕ → ℕ → ℕ → Bool
in_code w row col = (leb 2 row && ltb row (w + 2)) && (leb 2 col && ltb col (w + 2))

-- The picture that a reader of the code expects: the modules, and two white pixels on each side.
abbrev pub framed : List Bool → ℕ → ℕ → ℕ → Option Bool
framed modules w row col =
    if in_code w row col then get_elem? modules ((row - 2) * w + (col - 2)) else some false

abbrev Inside : ℕ → ℕ → ℕ → Type 0
Inside w row col = (2 ≤ row) × (row < w + 2) × (2 ≤ col) × (col < w + 2)

in_code→Inside : (w row col : ℕ) → in_code w row col ≡ true → Inside w row col
in_code→Inside w row col h = (ground arith, ground arith, ground arith, ground arith)

Inside→in_code : (w row col : ℕ) → Inside w row col → in_code w row col ≡ true
Inside→in_code w row col (h0, h1, h2, h3) = ground arith

-- The module that a pixel in the code shows.
pixel_at-Inside :
    (w row col : ℕ)
    → Inside w row col
    → pixel_at w ((row - 2) * w + (col - 2)) ≡ row * (w + 4) + col
unfolding pixel_at
pixel_at-Inside w row col (h0, h1, h2, h3) =
    let right : col - 2 < w = omega arith in
    let r : row - 2 + 2 ≡ row = omega arith in
    let c : col - 2 + 2 ≡ col = omega arith in
    rw
      (two_digits-div w (row - 2) (col - 2) right, two_digits-mod w (row - 2) (col - 2) right, r, c)
      refl

-- No module is shown outside.
shown-Inside :
    (w row col i : ℕ)
    → i < w * w
    → col < w + 4
    → pixel_at w i ≡ row * (w + 4) + col
    → Inside w row col
shown-Inside w row col i fits right same =
    let pos = square-pos w i fits in
    let r : i / w + 2 ≡ row =
      sym (pixel_at-div w i pos)
      ∙ ap (λ p. p / (w + 4)) same
      ∙ two_digits-div (w + 4) row col right in
    let c : i % w + 2 ≡ col =
      sym (pixel_at-mod w i pos)
      ∙ ap (λ p. p % (w + 4)) same
      ∙ two_digits-mod (w + 4) row col right in
    let i_row : i / w < w = (div-lt_iff_lt-mul pos).1 fits in
    let i_col = mod-lt i pos in (omega arith, omega arith, omega arith, omega arith)

qr_pixels-Inside :
    (modules : List Bool) (w row col : ℕ)
    → length modules ≡ w * w
    → row < w + 4
    → col < w + 4
    → Inside w row col
    → get_elem? (qr_pixels (modules, w)) (row * (w + 4) + col)
      ≡ get_elem? modules ((row - 2) * w + (col - 2))
unfolding qr_pixels
qr_pixels-Inside modules w row col square low right inside =
    let (h0, h1, h2, h3) = inside in
    let pos : 0 < w = omega arith in
    let i = (row - 2) * w + (col - 2) in
    let fits : i < w * w = in_square w (row - 2) (col - 2) (omega arith) (omega arith) in
    let (dark, found) = get_elem?-some modules i (omega arith) in
    let at = pixel_at-Inside w row col inside in
    let white =
      get_elem?-replicate ((w + 4) * (w + 4)) (row * (w + 4) + col) false
        (in_square (w + 4) row col low right) in
    subst (λ p. get_elem? (draw w 0 modules (replicate ((w + 4) * (w + 4)) false)) p ≡ some dark) at
      (draw-paints w 0 modules (replicate ((w + 4) * (w + 4)) false) i i dark pos (omega arith)
        found (ap (get_elem? (replicate ((w + 4) * (w + 4)) false)) at ∙ white))
    ∙ sym found

qr_pixels-quiet :
    (modules : List Bool) (w row col : ℕ)
    → length modules ≡ w * w
    → row < w + 4
    → col < w + 4
    → ¬ Inside w row col
    → get_elem? (qr_pixels (modules, w)) (row * (w + 4) + col) ≡ some false
unfolding qr_pixels
qr_pixels-quiet modules w row col square low right outside =
    draw-keeps w 0 modules (replicate ((w + 4) * (w + 4)) false) (row * (w + 4) + col)
      (λ j from fits same. outside (shown-Inside w row col j (omega arith) right same))
    ∙ get_elem?-replicate ((w + 4) * (w + 4)) (row * (w + 4) + col) false
        (in_square (w + 4) row col low right)

-- If the code has `w` rows of `w` modules, the picture has them in its middle, and white pixels in
-- two rows and two columns on each side.
pub qr_pixels-framed :
    (modules : List Bool) (w row col : ℕ)
    → length modules ≡ w * w
    → row < w + 4
    → col < w + 4
    → get_elem? (qr_pixels (modules, w)) (row * (w + 4) + col) ≡ framed modules w row col
qr_pixels-framed modules w row col square low right = elim (Bool-cases (in_code w row col)) [
  | inl e ↦
      qr_pixels-Inside modules w row col square low right (in_code→Inside w row col e)
      ∙ sym (rw e refl)
  | inr e ↦
      qr_pixels-quiet modules w row col square low right
        (λ inside. let e' = Inside→in_code w row col inside in cc)
      ∙ sym (rw e refl)
]
