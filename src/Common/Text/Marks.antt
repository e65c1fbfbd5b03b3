-- ===== src/Common/Text/Marks.antt =====
-- Cutting a string at a mark of two characters.
use Prim.Native.Nat.{ℕ}
use mathlib.Core.Path.{◌≡◌, refl, sym, ap, ◌∙◌}
use mathlib.Core.Bool.{Bool, true, false, ◌&&◌}
use mathlib.Core.List.{[], ◌∷◌, ◌++◌}
use mathlib.Core.Logic.{inl, inr}
use mathlib.Core.Option.{none, some}
use meshtastic_lora_rs.Common.Tests.{◌==◌, if_true, if_false, Bool-cases, ==_refl}
use meshtastic_lora_rs.Common.Lists.{All, drop}
use meshtastic_lora_rs.Common.Result.{Str}
use meshtastic_lora_rs.Common.Text.{starts_with, before, after, strip_suffix}

module _ (p q : ℕ) where
  abbrev mark : Str
  mark = p ∷ q ∷ []

  -- A string without the mark's first character is not cut.
  pub before-none : (s : Str) → All (λ b. (p == b) ≡ false) s → before mark s ≡ s
  unfolding before starts_with
  before-none [] h = refl
  before-none (b ∷ s) (other, rest) =
      if_false {b = (p == b) && starts_with (q ∷ []) s} [] (rw other refl)
      ∙ ap (λ t. b ∷ t) (before-none s rest)

  after-skip :
      (b : ℕ) (s : Str) → starts_with mark (b ∷ s) ≡ false → after mark (b ∷ s) ≡ after mark s
  unfolding after
  after-skip b s h = if_false _ h

  after-here : (t : Str) → after mark (p ∷ q ∷ t) ≡ some t
  unfolding after starts_with
  after-here t = if_true {b = (p == p) && ((q == q) && true)} _ (rw (==_refl p, ==_refl q) refl)

  not_both : (b c : Bool) → c ≡ false → (b && (c && true)) ≡ false
  not_both true c h = rw h refl
  not_both false c h = refl

  -- The first mark is the one that follows a string without a mark, if a character that is not of the
  -- mark stands between.
  pub after-first :
      (s : Str) (c : ℕ) (t : Str)
      → after mark s ≡ none
      → (p == c) ≡ false
      → (q == c) ≡ false
      → after mark (s ++ (c ∷ p ∷ q ∷ t)) ≡ some t
  after-first [] c t h other other' =
      after-skip c (p ∷ q ∷ t) (unfold starts_with in rw other refl) ∙ after-here t
  after-first (b ∷ []) c t h other other' =
      after-skip b (c ∷ p ∷ q ∷ t) (unfold starts_with in not_both (p == b) (q == c) other')
      ∙ after-first [] c t (unfold after in refl) other other'
  after-first (b ∷ d ∷ s) c t h other other' = elim (Bool-cases (starts_with mark (b ∷ d ∷ s))) [
    | inl e ↦
        let found : after mark (b ∷ d ∷ s) ≡ some (drop 2 (b ∷ d ∷ s)) =
          unfold after in if_true (after mark (d ∷ s)) e in
        cc
    | inr e ↦
        after-skip b (d ∷ s ++ (c ∷ p ∷ q ∷ t)) (unfold starts_with in e)
        ∙ after-first (d ∷ s) c t (sym (after-skip b (d ∷ s) e) ∙ h) other other'
  ]

-- A last character comes off.
pub strip_suffix-append : (c : ℕ) (s : Str) → strip_suffix c (s ++ (c ∷ [])) ≡ some s
unfolding strip_suffix
strip_suffix-append c [] = if_true none (==_refl c)
strip_suffix-append c (b ∷ []) = rw (strip_suffix-append c [], strip_suffix) refl
strip_suffix-append c (b ∷ d ∷ s) = rw (strip_suffix-append c (d ∷ s), strip_suffix) refl
