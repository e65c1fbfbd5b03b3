-- ===== src/Presets/Lookup.antt =====
-- Lookup by name, whatever the case of its letters.
use meshtastic_lora_rs.Common.{
  ℕ, suc, ◌≡◌, ◌↔◌, refl, ap, sym, ◌∙◌, Bool, true, List, [], ◌∷◌, map, some, All, All-get_elem?,
  get_elem?, Bool-cases, inl, inr,
}
use meshtastic_lora_rs.Common.Result.{Str}
use meshtastic_lora_rs.Common.Text.{
  to_ascii_lowercase, bytes_eq, eq_ignore_ascii_case, SameLetters, eq_ignore_ascii_case→SameLetters,
}
use meshtastic_lora_rs.Presets.{
  ModemPreset, Region, presets, regions, find, preset_by_name, region_by_name,
}

-- An entry of a list.
abbrev pub IsOneOf : {A : Type 0} → A → List A → Type 0
IsOneOf x xs = (i : ℕ) × (get_elem? xs i ≡ some x)

find-some :
    {A : Type 0} (p : A → Bool) (xs : List A) (x : A)
    → find p xs ≡ some x
    → IsOneOf x xs × (p x ≡ true)
unfolding find
find-some p [] x e = cc
find-some p (y ∷ xs) x e = elim (Bool-cases (p y)) [
  | inl hit ↦ ((0, rw hit at e), cc (rw hit at e))
  | inr miss ↦ let (at, holds) = find-some p xs x (rw miss at e) in ((suc at.0, at.1), holds)
]

by_letters_preset : (s t : Str) → SameLetters s t → preset_by_name s ≡ preset_by_name t
unfolding preset_by_name eq_ignore_ascii_case
by_letters_preset s t e =
    ap (λ l. find (λ (p : ModemPreset). bytes_eq (map to_ascii_lowercase p.name) l) presets) e

by_letters_region : (s t : Str) → SameLetters s t → region_by_name s ≡ region_by_name t
unfolding region_by_name eq_ignore_ascii_case
by_letters_region s t e =
    ap (λ l. find (λ (r : Region). bytes_eq (map to_ascii_lowercase r.name) l) regions) e

presets_found : All (λ (p : ModemPreset). preset_by_name p.name ≡ some p) presets
unfolding preset_by_name eq_ignore_ascii_case bytes_eq to_ascii_lowercase find
presets_found = (refl, (refl, (refl, (refl, (refl, (refl, (refl, (refl, (refl, tt)))))))))

regions_found : All (λ (r : Region). region_by_name r.name ≡ some r) regions
unfolding region_by_name eq_ignore_ascii_case bytes_eq to_ascii_lowercase find
regions_found = (
  refl,
  (
    refl,
    (
      refl,
      (
        refl,
        (
          refl,
          (
            refl,
            (refl, (refl, (refl, (refl, (refl, (refl, (refl, (refl, (refl, (refl, tt)))))))))),
          ),
        ),
      ),
    ),
  ),
)

at_preset :
    (i : ℕ) (p : ModemPreset) → get_elem? presets i ≡ some p → preset_by_name p.name ≡ some p
at_preset i p at =
    All-get_elem? (λ (q : ModemPreset). preset_by_name q.name ≡ some q) presets i p presets_found at

at_region : (i : ℕ) (r : Region) → get_elem? regions i ≡ some r → region_by_name r.name ≡ some r
at_region i r at =
    All-get_elem? (λ (q : Region). region_by_name q.name ≡ some q) regions i r regions_found at

preset_of :
    (s : Str) (p : ModemPreset)
    → preset_by_name s ≡ some p
    → IsOneOf p presets × SameLetters s p.name
unfolding preset_by_name
preset_of s p e =
    let (at, same) = find-some (λ (q : ModemPreset). eq_ignore_ascii_case q.name s) presets p e in
    (at, sym (eq_ignore_ascii_case→SameLetters p.name s same))

region_of :
    (s : Str) (r : Region) → region_by_name s ≡ some r → IsOneOf r regions × SameLetters s r.name
unfolding region_by_name
region_of s r e =
    let (at, same) = find-some (λ (q : Region). eq_ignore_ascii_case q.name s) regions r e in
    (at, sym (eq_ignore_ascii_case→SameLetters r.name s same))

-- A name finds exactly the preset of the table that it spells, in whatever case.
pub preset_by_name_lem :
    (s : Str) (p : ModemPreset)
    → (preset_by_name s ≡ some p) ↔ (IsOneOf p presets × SameLetters s p.name)
preset_by_name_lem s p =
    (preset_of s p, λ ((i, at), same). by_letters_preset s p.name same ∙ at_preset i p at)

-- A name finds exactly the region of the table that it spells, in whatever case.
pub region_by_name_lem :
    (s : Str) (r : Region)
    → (region_by_name s ≡ some r) ↔ (IsOneOf r regions × SameLetters s r.name)
region_by_name_lem s r =
    (region_of s r, λ ((i, at), same). by_letters_region s r.name same ∙ at_region i r at)
