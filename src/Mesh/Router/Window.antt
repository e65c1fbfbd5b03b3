-- ===== src/Mesh/Router/Window.antt =====
-- The dedup cache over a run of packets: how long a key is remembered.
use meshtastic_lora_rs.Common.{
  ℕ, zero, suc, ◌+◌, ◌-◌, ◌<◌, ◌≤◌, ◌≡◌, refl, sym, ap, subst, ==_iff, ◌∙◌, Bool, true, false, List,
  [], ◌∷◌, ◌++◌, ◌==◌, length, length-append, replicate, get_or, drop, arith, Bool-cases, inl, inr,
}
use mathlib.Core.List.{append-nil, append_assoc}
use meshtastic_lora_rs.Mesh.Router.{
  Key, contains, pop_front, DedupCache, new, check_and_insert, dedup_capacity,
}
use meshtastic_lora_rs.Mesh.Router.Dedup.{
  IsValid, last_n, spec_check, check_hit, check_miss, room, check_and_insert-refines,
  contains-append, drop-append, check_and_insert-IsValid,
}

-- The cache after a run of packets, and the answers on the way.
abbrev pub after : DedupCache → List Key → DedupCache
after c [] = c
after c (k ∷ ks) = after (check_and_insert c k.0 k.1).1 ks

abbrev pub answers : DedupCache → List Key → List Bool
answers c [] = []
answers c (k ∷ ks) = (check_and_insert c k.0 k.1).0 ∷ answers (check_and_insert c k.0 k.1).1 ks

-- The specification's history and answers.
abbrev pub spec_after : List Key → List Key → List Key
spec_after history [] = history
spec_after history (k ∷ ks) = spec_after (spec_check history k).1 ks

abbrev pub spec_answers : List Key → List Key → List Bool
spec_answers history [] = []
spec_answers history (k ∷ ks) = (spec_check history k).0 ∷ spec_answers (spec_check history k).1 ks

run_refines :
    (c : DedupCache) (history ks : List Key)
    → c.entries ≡ last_n dedup_capacity history
    → (answers c ks ≡ spec_answers history ks)
      × ((after c ks).entries ≡ last_n dedup_capacity (spec_after history ks))
run_refines c history [] r = (refl, r)
run_refines c history (k ∷ ks) r =
    let (same, next) = check_and_insert-refines c history k r in
    let (rest, last) =
      run_refines (check_and_insert c k.0 k.1).1 (spec_check history k).1 ks next in
    (λ i. same i ∷ rest i, last)

-- From an empty cache, any run of packets gets the specification's answers, and the cache holds the
-- last fifty keys of the specification's history.
pub answers-refines :
    (ks : List Key)
    → (answers new ks ≡ spec_answers [] ks)
      × ((after new ks).entries ≡ last_n dedup_capacity (spec_after [] ks))
answers-refines ks = run_refines new [] ks refl

pub after-IsValid : (c : DedupCache) (ks : List Key) → IsValid c → IsValid (after c ks)
after-IsValid c [] v = v
after-IsValid c (k ∷ ks) v =
    after-IsValid (check_and_insert c k.0 k.1).1 ks (check_and_insert-IsValid c k.0 k.1 v)

-- `k` stands in the list with at most `r` entries behind it.
abbrev Recent : Key → ℕ → List Key → Type 0
Recent k r xs =
    (front : List Key) × (back : List Key) × (xs ≡ front ++ (k ∷ back)) × (length back ≤ r)

Recent-contains : (k : Key) (r : ℕ) (xs : List Key) → Recent k r xs → contains xs k ≡ true
unfolding contains
Recent-contains k r xs (front, back, e, h) =
    rw e (ground (arith, contains-append front (k ∷ back) k))

Recent-room :
    (front back : List Key) (k j : Key) (r : ℕ)
    → suc r < dedup_capacity
    → length back ≤ r
    → Recent k (suc r) (room (front ++ (k ∷ back)) ++ (j ∷ []))
Recent-room front back k j r h b =
    elim (Bool-cases (length (front ++ (k ∷ back)) == dedup_capacity)) [
      | inl full ↦ rw full (popped front full)
      | inr free ↦ rw free (front, back ++ (j ∷ []), append_assoc front (k ∷ back) (j ∷ []), grown)
    ]
  where
    grown : length (back ++ (j ∷ [])) ≤ suc r
    grown = omega (arith, length-append back (j ∷ []))

    popped :
        (front : List Key)
        → (length (front ++ (k ∷ back)) == dedup_capacity) ≡ true
        → Recent k (suc r) (pop_front (front ++ (k ∷ back)) ++ (j ∷ []))
    popped [] full = absurd (omega (arith, (==_iff (suc (length back)) dedup_capacity).0 full))
    popped (x ∷ front) full =
        (front, back ++ (j ∷ []), append_assoc front (k ∷ back) (j ∷ []), grown)

Recent-insert :
    (k j : Key) (r : ℕ) (c : DedupCache)
    → IsValid c
    → suc r < dedup_capacity
    → Recent k r c.entries
    → Recent k (suc r) (check_and_insert c j.0 j.1).1.entries
Recent-insert k j r c v h (front, back, e, b) = elim (Bool-cases (contains c.entries j)) [
  | inl hit ↦ rw (check_hit c j hit) (front, back, e, omega arith)
  | inr miss ↦
      subst (λ d. Recent k (suc r) d.1.entries) (sym (check_miss c j miss))
        (subst (λ xs. Recent k (suc r) (room xs ++ (j ∷ []))) (sym e)
          (Recent-room front back k j r h b))
]

Recent-after :
    (k : Key) (r : ℕ) (c : DedupCache) (ks : List Key)
    → IsValid c
    → r + length ks < dedup_capacity
    → Recent k r c.entries
    → Recent k (r + length ks) (after c ks).entries
Recent-after k r c [] v h (front, back, e, b) = (front, back, e, omega arith)
Recent-after k r c (j ∷ ks) v h rec =
    let next = Recent-insert k j r c v (omega arith) rec in
    let (front, back, e, b) =
      Recent-after k (suc r) (check_and_insert c j.0 j.1).1 ks
        (check_and_insert-IsValid c j.0 j.1 v) (omega arith) next in
    (front, back, e, omega arith)

first_seen :
    (c : DedupCache) (k : Key)
    → (check_and_insert c k.0 k.1).0 ≡ false
    → contains c.entries k ≡ false
first_seen c k n = elim (Bool-cases (contains c.entries k)) [
  | inl hit ↦ cc (ap (λ d. d.0) (check_hit c k hit))
  | inr miss ↦ miss
]

-- A key that was new is recognised as a duplicate as long as fewer than fifty packets came in
-- between, whatever they were.
pub check-after :
    (c : DedupCache) (k : Key) (ks : List Key)
    → IsValid c
    → (check_and_insert c k.0 k.1).0 ≡ false
    → length ks < dedup_capacity
    → (check_and_insert (after c (k ∷ ks)) k.0 k.1).0 ≡ true
check-after c k ks v n h =
    let miss = check_miss c k (first_seen c k n) in
    let start : Recent k 0 (check_and_insert c k.0 k.1).1.entries =
      (room c.entries, [], ap (λ d. d.1.entries) miss, omega arith) in
    let rec =
      Recent-after k 0 (check_and_insert c k.0 k.1).1 ks (check_and_insert-IsValid c k.0 k.1 v)
        (omega arith) start in
    ap (λ d. d.0) (check_hit (after c (k ∷ ks)) k (Recent-contains k _ _ rec))

spec_all_new :
    (history ks : List Key) (n : ℕ)
    → spec_answers history ks ≡ replicate n false
    → (spec_after history ks ≡ history ++ ks) × (length ks ≡ n)
spec_all_new history [] zero e = (sym (append-nil history), refl)
spec_all_new history [] (suc n) e = cc
spec_all_new history (k ∷ ks) zero e = cc
spec_all_new history (k ∷ ks) (suc n) e =
    elim (Bool-cases (contains (last_n dedup_capacity history) k)) [
      | inl hit ↦
          let old : (spec_check history k).0 ≡ true = rw hit in
          let not_old : (spec_check history k).0 ≡ false = ap (λ bs. get_or bs 0 true) e in cc
      | inr miss ↦
          let grown : (spec_check history k).1 ≡ history ++ (k ∷ []) = rw miss in
          let (rest, count) = spec_all_new (spec_check history k).1 ks n (ap (drop 1) e) in
          (rest ∙ ap (λ h. h ++ ks) grown ∙ append_assoc history (k ∷ []) ks, ap suc count)
    ]

last_n-append :
    (xs ys : List Key) → length ys ≡ dedup_capacity → last_n dedup_capacity (xs ++ ys) ≡ ys
last_n-append xs ys h =
    let lost : length (xs ++ ys) - 50 ≡ length xs = omega (arith, length-append xs ys) in
    rw lost (drop-append (length xs) xs ys (omega arith) ∙ ap (λ zs. zs ++ ys) (drop-length xs))
  where
    drop-length : (zs : List Key) → drop (length zs) zs ≡ []
    drop-length [] = refl
    drop-length (z ∷ zs) = drop-length zs

-- After fifty packets in a row that were all new, the cache holds these, in their order, and nothing
-- else; and a key that is not among them counts as new again.
pub check-forgets :
    (c : DedupCache) (k : Key) (ks : List Key)
    → IsValid c
    → answers c ks ≡ replicate dedup_capacity false
    → contains ks k ≡ false
    → ((after c ks).entries ≡ ks) × ((check_and_insert (after c ks) k.0 k.1).0 ≡ false)
check-forgets c k ks v n h =
    let whole : c.entries ≡ last_n dedup_capacity c.entries =
      ap (λ d. drop d c.entries) (small (length c.entries) v.bounded) in
    let (same, last) = run_refines c c.entries ks whole in
    let (history, count) = spec_all_new c.entries ks dedup_capacity (sym same ∙ n) in
    let flushed : (after c ks).entries ≡ ks =
      last ∙ ap (last_n dedup_capacity) history ∙ last_n-append c.entries ks count in
    (flushed, ap (λ d. d.0) (check_miss (after c ks) k (ap (λ xs. contains xs k) flushed ∙ h)))
  where
    small : (m : ℕ) → m ≤ dedup_capacity → 0 ≡ m - dedup_capacity
    small m b = omega arith

-- After a check the key is in the cache, whichever the answer was.
pub check-contains :
    (c : DedupCache) (k : Key) → contains (check_and_insert c k.0 k.1).1.entries k ≡ true
check-contains c k = elim (Bool-cases (contains c.entries k)) [
  | inl hit ↦ rw (check_hit c k hit) hit
  | inr miss ↦
      Recent-contains k 0 _
        (room c.entries, [], ap (λ d. d.1.entries) (check_miss c k miss), omega arith)
]
