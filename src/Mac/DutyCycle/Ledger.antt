-- ===== src/Mac/DutyCycle/Ledger.antt =====
-- The airtime ledger: eviction from the front of a chronological log keeps the live entries.
use meshtastic_lora_rs.Common.{
  ℕ, ◌+◌, ◌-◌, ◌≤◌, ◌≡◌, refl, ◌&&◌, List, [], ◌∷◌, ◌++◌, All, ltb, leb, if◌then◌else◌, arith,
}
use meshtastic_lora_rs.Mac.DutyCycle.{Entry, pop_stale, total, window}

-- Timestamps do not fall along the log, and start no earlier than `t`.
abbrev pub Chrono : ℕ → List Entry → Type 0
Chrono t [] = Unit {0}
Chrono t ((u, d) ∷ log) = (t ≤ u) × Chrono u log

-- No timestamp lies after `t`.
abbrev pub Until : ℕ → List Entry → Type 0
Until t = All (λ e. e.0 ≤ t)

pub Until-mono : (s t : ℕ) (log : List Entry) → s ≤ t → Until s log → Until t log
Until-mono s t [] h u = tt
Until-mono s t (e ∷ log) h u = (omega arith, Until-mono s t log h u.1)

pub Chrono-snoc :
    (s t d : ℕ) (log : List Entry)
    → s ≤ t
    → Chrono s log
    → Until t log
    → Chrono s (log ++ ((t, d) ∷ []))
Chrono-snoc s t d [] h c u = (h, tt)
Chrono-snoc s t d ((v, e) ∷ log) h c u = (c.0, Chrono-snoc v t d log u.0 c.1 u.1)

-- The entries that are not older than `limit`.
abbrev pub live : ℕ → List Entry → List Entry
live limit [] = []
live limit ((t, d) ∷ log) = if ltb t limit then live limit log else (t, d) ∷ live limit log

live_all : (limit s : ℕ) (log : List Entry) → limit ≤ s → Chrono s log → live limit log ≡ log
live_all limit s [] h c = refl
live_all limit s ((t, d) ∷ log) h c = ground (arith, live_all limit t log)

-- On a chronological log the loop that pops stale entries off the front keeps exactly the entries
-- that are not older than the limit.
pub pop_stale-live :
    (limit s : ℕ) (log : List Entry) → Chrono s log → pop_stale limit log ≡ live limit log
unfolding pop_stale
pop_stale-live limit s [] c = refl
pop_stale-live limit s ((t, d) ∷ log) c =
    ground (arith, live_all limit t log, pop_stale-live limit t log)

pub live-live :
    (old limit : ℕ) (log : List Entry) → old ≤ limit → live limit (live old log) ≡ live limit log
live-live old limit [] h = refl
live-live old limit ((t, d) ∷ log) h = ground (arith, live-live old limit log)

Chrono-mono : (s t : ℕ) (log : List Entry) → s ≤ t → Chrono t log → Chrono s log
Chrono-mono s t [] h c = tt
Chrono-mono s t (e ∷ log) h c = (omega arith, c.1)

pub live-Chrono : (limit s : ℕ) (log : List Entry) → Chrono s log → Chrono s (live limit log)
live-Chrono limit s [] c = tt
live-Chrono limit s ((t, d) ∷ log) c =
    ground (arith, live-Chrono limit t log c.1, Chrono-mono s t (live limit log))

pub live-append :
    (limit : ℕ) (xs ys : List Entry) → live limit (xs ++ ys) ≡ live limit xs ++ live limit ys
live-append limit [] ys = refl
live-append limit ((t, d) ∷ xs) ys = ground (arith, live-append limit xs ys)

pub total-append : (xs ys : List Entry) → total (xs ++ ys) ≡ total xs + total ys
total-append [] ys = omega arith
total-append ((t, d) ∷ xs) ys = omega (arith, total-append xs ys)

-- The entries whose timestamp lies in the window of 3600 seconds that ends at `t`.
abbrev pub in_window : ℕ → List Entry → List Entry
in_window t [] = []
in_window t ((u, d) ∷ log) =
    if leb u t && leb t (u + window) then (u, d) ∷ in_window t log else in_window t log

pub in_window-append :
    (t : ℕ) (xs ys : List Entry) → in_window t (xs ++ ys) ≡ in_window t xs ++ in_window t ys
in_window-append t [] ys = refl
in_window-append t ((u, d) ∷ xs) ys = ground (arith, in_window-append t xs ys)

-- A window that ends at `now` or later holds no more airtime than the live entries do.
pub in_window-le-live :
    (t now : ℕ) (log : List Entry)
    → now ≤ t
    → total (in_window t log) ≤ total (live (now - window) log)
in_window-le-live t now [] h = omega arith
in_window-le-live t now ((u, d) ∷ log) h = ground (arith, in_window-le-live t now log)
