-- ===== src/Mesh/Router/Dedup.antt =====
-- What the dedup cache holds: at most fifty distinct keys, the last fifty that were new.
use meshtastic_lora_rs.Common.{
  ℕ, zero, suc, ◌-◌, ◌≤◌, ◌≡◌, refl, sym, ap, ◌∙◌, ◌↔◌, Bool, true, false, ◌||◌, List, [], ◌∷◌,
  ◌++◌, ◌==◌, if◌then◌else◌, length, length-append, length-drop, drop, arith, Bool-cases, ltb, inl,
  inr,
}
use meshtastic_lora_rs.Mesh.Router.{
  Key, key_eq, contains, pop_front, DedupCache, new, check_and_insert, dedup_capacity,
}

pub key_eq_iff : (a b : Key) → (key_eq a b ≡ true) ↔ (a ≡ b)
key_eq_iff a b = ground arith

pub contains-append :
    (xs ys : List Key) (k : Key) → contains (xs ++ ys) k ≡ (contains xs k || contains ys k)
unfolding contains
contains-append [] ys k = refl
contains-append (x ∷ xs) ys k = ground (arith, contains-append xs ys k)

-- No key stands twice.
abbrev pub Distinct : List Key → Type 0
Distinct [] = Unit {0}
Distinct (x ∷ xs) = (contains xs x ≡ false) × Distinct xs

pub record IsValid (c : DedupCache) : Type 0 where
  pub bounded : length c.entries ≤ dedup_capacity
  pub distinct : Distinct c.entries

contains_other :
    (xs : List Key) (x k : Key)
    → contains xs x ≡ false
    → contains (x ∷ xs) k ≡ false
    → contains (xs ++ (k ∷ [])) x ≡ false
unfolding contains
contains_other [] x k h n = ground arith
contains_other (y ∷ xs) x k h n = ground (arith, contains_other xs x k)

Distinct-snoc :
    (xs : List Key) (k : Key) → contains xs k ≡ false → Distinct xs → Distinct (xs ++ (k ∷ []))
unfolding contains
Distinct-snoc [] k h d = (refl, tt)
Distinct-snoc (x ∷ xs) k h d = (contains_other xs x k d.0 h, Distinct-snoc xs k (ground arith) d.1)

contains-pop_front :
    (xs : List Key) (k : Key) → contains xs k ≡ false → contains (pop_front xs) k ≡ false
unfolding contains
contains-pop_front [] k h = h
contains-pop_front (x ∷ xs) k h = ground arith

Distinct-pop_front : (xs : List Key) → Distinct xs → Distinct (pop_front xs)
Distinct-pop_front [] d = d
Distinct-pop_front (x ∷ xs) d = d.1

length-pop_front : (xs : List Key) → length (pop_front xs) ≡ length xs - 1
length-pop_front [] = omega arith
length-pop_front (x ∷ xs) = omega arith

-- What `check_and_insert` makes room with.
abbrev pub room : List Key → List Key
room xs = if length xs == dedup_capacity then pop_front xs else xs

-- The two cases of a check.
pub check_hit :
    (c : DedupCache) (k : Key)
    → contains c.entries k ≡ true
    → check_and_insert c k.0 k.1 ≡ (true, c)
unfolding check_and_insert
check_hit c k h = rw h

pub check_miss :
    (c : DedupCache) (k : Key)
    → contains c.entries k ≡ false
    → check_and_insert c k.0 k.1 ≡ (false, record { entries = room c.entries ++ (k ∷ []) })
unfolding check_and_insert
check_miss c k h = rw h

insert-IsValid :
    (xs : List Key) (k : Key)
    → contains xs k ≡ false
    → length xs ≤ dedup_capacity
    → Distinct xs
    → IsValid (record { entries = room xs ++ (k ∷ []) })
insert-IsValid xs k h b d = elim (Bool-cases (length xs == dedup_capacity)) [
  | inl full ↦ rw full (record {
    bounded = omega (arith, length-append (pop_front xs) (k ∷ []), length-pop_front xs);
    distinct = Distinct-snoc (pop_front xs) k (contains-pop_front xs k h) (Distinct-pop_front xs d);
  })
  | inr free ↦ rw free (record {
    bounded = ground (arith, length-append xs (k ∷ []));
    distinct = Distinct-snoc xs k h d;
  })
]

pub new-IsValid : IsValid new
new-IsValid = record { bounded = omega arith; distinct = tt }

-- A check keeps the cache at no more than fifty distinct keys.
pub check_and_insert-IsValid :
    (c : DedupCache) (from id : ℕ) → IsValid c → IsValid (check_and_insert c from id).1
check_and_insert-IsValid c from id v = elim (Bool-cases (contains c.entries (from, id))) [
  | inl hit ↦ rw (check_hit c (from, id) hit) v
  | inr miss ↦
      rw (check_miss c (from, id) miss)
        (insert-IsValid c.entries (from, id) miss v.bounded v.distinct)
]

-- The last `n` entries of a list.
abbrev pub last_n {ℓ} : {A : Type ℓ} → ℕ → List A → List A
last_n n xs = drop (length xs - n) xs

-- The specification: the whole history of keys that were new, and a test on its last fifty.
abbrev pub spec_check : List Key → Key → Bool × List Key
spec_check history k =
    if contains (last_n dedup_capacity history) k
    then (true, history)
    else (false, history ++ (k ∷ []))

pop_front-drop {ℓ} : {A : Type ℓ} (d : ℕ) (xs : List A) → pop_front (drop d xs) ≡ drop (suc d) xs
pop_front-drop zero [] = refl
pop_front-drop zero (x ∷ xs) = refl
pop_front-drop (suc d) [] = refl
pop_front-drop (suc d) (x ∷ xs) = pop_front-drop d xs

pub drop-append {ℓ} :
    {A : Type ℓ} (d : ℕ) (xs ys : List A) → d ≤ length xs → drop d (xs ++ ys) ≡ drop d xs ++ ys
drop-append zero xs ys h = refl
drop-append (suc d) [] ys h = elim h [ ]
drop-append (suc d) (x ∷ xs) ys h = drop-append d xs ys (omega arith)

last_n-snoc :
    (xs : List Key) (k : Key)
    → last_n dedup_capacity (xs ++ (k ∷ [])) ≡ room (last_n dedup_capacity xs) ++ (k ∷ [])
last_n-snoc xs k = elim (Bool-cases (ltb (length xs) dedup_capacity)) [
  | inl small ↦
      let none_lost : length xs - 50 ≡ 0 = ground arith in
      let none_lost' : length (xs ++ (k ∷ [])) - 50 ≡ 0 =
        ground (arith, length-append xs (k ∷ [])) in
      let not_full : (length xs == 50) ≡ false = ground arith in
      rw (none_lost, none_lost', not_full)
  | inr large ↦
      let more : length (xs ++ (k ∷ [])) - 50 ≡ suc (length xs - 50) =
        ground (arith, length-append xs (k ∷ [])) in
      let full : (length (drop (length xs - 50) xs) == 50) ≡ true =
        ground (arith, length-drop (length xs - 50) xs) in
      rw (more, full, pop_front-drop (length xs - 50) xs)
        (drop-append (suc (length xs - 50)) xs (k ∷ []) (ground arith))
]

-- The cache refines the specification: holding the last fifty keys of the history, it gives the
-- specification's answer and holds the last fifty keys of the new history.
pub check_and_insert-refines :
    (c : DedupCache) (history : List Key) (k : Key)
    → c.entries ≡ last_n dedup_capacity history
    → ((check_and_insert c k.0 k.1).0 ≡ (spec_check history k).0)
      × ((check_and_insert c k.0 k.1).1.entries ≡ last_n dedup_capacity (spec_check history k).1)
check_and_insert-refines c history k r =
    elim (Bool-cases (contains (last_n dedup_capacity history) k)) [
      | inl hit ↦ rw (check_hit c k (ap (λ xs. contains xs k) r ∙ hit), hit) (refl, r)
      | inr miss ↦
          rw (check_miss c k (ap (λ xs. contains xs k) r ∙ miss), miss)
            (refl, ap (λ xs. room xs ++ (k ∷ [])) r ∙ sym (last_n-snoc history k))
    ]
