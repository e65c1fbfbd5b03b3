-- ===== src/Common/Among.antt =====
-- Where an element stands in a list.
use mathlib.Core.Path.{◌≡◌, ap, ◌∙◌}
use mathlib.Core.List.{List, [], ◌∷◌, ◌++◌, append_assoc, map, map-append}

module _ {ℓ} {A : Type ℓ} where
  -- An element of a list, with what stands before and behind it.
  abbrev pub Among : A → List A → Type ℓ
  Among a xs = (before : List A) × (after : List A) × (xs ≡ before ++ (a ∷ after))

  pub Among-cons : (a x : A) (xs : List A) → Among a xs → Among a (x ∷ xs)
  Among-cons a x xs (before, after, e) = (x ∷ before, after, ap (λ t. x ∷ t) e)

  pub Among-append_left : (a : A) (xs ys : List A) → Among a xs → Among a (xs ++ ys)
  Among-append_left a xs ys (before, after, e) =
      (before, after ++ ys, ap (λ t. t ++ ys) e ∙ append_assoc before (a ∷ after) ys)

  pub Among-append_right : (a : A) (xs ys : List A) → Among a ys → Among a (xs ++ ys)
  Among-append_right a [] ys h = h
  Among-append_right a (x ∷ xs) ys h = Among-cons a x (xs ++ ys) (Among-append_right a xs ys h)

module _ {ℓ ℓ'} {A : Type ℓ} {B : Type ℓ'} where
  pub Among-map : (f : A → B) (a : A) (xs : List A) → Among a xs → Among (f a) (map f xs)
  Among-map f a xs (before, after, e) =
      (map f before, map f after, ap (map f) e ∙ map-append f before (a ∷ after))
