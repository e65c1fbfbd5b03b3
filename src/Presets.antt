-- ===== src/Presets.antt =====
-- mesh/src/presets.rs: modem presets and regional frequency plans. The source's decimal literals are
-- kept exact: a bandwidth or a band edge is a whole number of hertz, a centre frequency a whole
-- number of half hertz.
pub mod Lookup
pub mod Bands
use meshtastic_lora_rs.Common.{ℕ, ◌+◌, ◌*◌, Bool, List, [], ◌∷◌, Option, none, some, if◌then◌else◌}
use meshtastic_lora_rs.Common.Result.{Str, codes}
use meshtastic_lora_rs.Common.Text.{eq_ignore_ascii_case}

pub record ModemPreset : Type 0 where
  pub name : Str
  pub sf : ℕ
  pub bw_hz : ℕ
  pub cr_denom : ℕ
  pub sync_word : ℕ
  pub preamble_len : ℕ

abbrev preset : Str → ℕ → ℕ → ℕ → ModemPreset
preset name sf bw_hz cr_denom = record {
  name = name;
  sf = sf;
  bw_hz = bw_hz;
  cr_denom = cr_denom;
  sync_word = 0x2b;
  preamble_len = 16;
}

abbrev pub long_fast : ModemPreset
long_fast = preset (codes "LongFast") 11 250_000 5

abbrev pub presets : List ModemPreset
presets =
    preset (codes "ShortTurbo") 7 500_000 5
    ∷ preset (codes "ShortFast") 7 250_000 5
    ∷ preset (codes "ShortSlow") 8 250_000 5
    ∷ preset (codes "MediumFast") 9 250_000 5
    ∷ preset (codes "MediumSlow") 10 250_000 5
    ∷ long_fast
    ∷ preset (codes "LongModerate") 11 125_000 8
    ∷ preset (codes "LongSlow") 12 125_000 8
    ∷ preset (codes "VeryLongSlow") 12 62_500 8
    ∷ []

-- `iter().find`.
pub find : {A : Type 0} → (A → Bool) → List A → Option A
find p [] = none
find p (x ∷ xs) = let rest = find p xs in if p x then some x else rest

unfoldable pub preset_by_name : Str → Option ModemPreset
unfolding find eq_ignore_ascii_case
preset_by_name name = find (λ p. eq_ignore_ascii_case p.name name) presets

pub record Region : Type 0 where
  pub name : Str
  pub freq_start : ℕ
  pub freq_end : ℕ
  pub tx_power : ℕ
  pub duty_cycle : ℕ

-- In half hertz: the band's start and half a bandwidth.
unfoldable pub channel_freq : Region → ℕ → ℕ
channel_freq r bw_hz = 2 * r.freq_start + bw_hz

unfoldable pub channel_n_freq : Region → ℕ → ℕ → ℕ
channel_n_freq r bw_hz ch = 2 * r.freq_start + (2 * ch + 1) * bw_hz

abbrev region : Str → ℕ → ℕ → ℕ → ℕ → Region
region name freq_start freq_end tx_power duty_cycle = record {
  name = name;
  freq_start = freq_start;
  freq_end = freq_end;
  tx_power = tx_power;
  duty_cycle = duty_cycle;
}

abbrev pub taiwan : Region
taiwan = region (codes "TW") 920_000_000 925_000_000 27 0

abbrev pub regions : List Region
regions =
    region (codes "US") 902_000_000 928_000_000 30 0
    ∷ region (codes "EU_868") 869_400_000 869_650_000 27 10
    ∷ region (codes "EU_433") 433_000_000 434_000_000 12 10
    ∷ region (codes "CN") 470_000_000 510_000_000 19 0
    ∷ region (codes "JP") 920_800_000 927_800_000 16 0
    ∷ region (codes "ANZ") 915_000_000 928_000_000 30 0
    ∷ region (codes "KR") 920_000_000 923_000_000 14 0
    ∷ region (codes "TH") 920_000_000 925_000_000 16 0
    ∷ region (codes "IN") 865_000_000 867_000_000 30 0
    ∷ region (codes "NZ_865") 864_000_000 868_000_000 36 0
    ∷ taiwan
    ∷ region (codes "RU") 868_700_000 869_200_000 20 0
    ∷ region (codes "UA") 868_000_000 868_600_000 14 1
    ∷ region (codes "MY_433") 433_000_000 435_000_000 20 0
    ∷ region (codes "MY_919") 919_000_000 924_000_000 27 0
    ∷ region (codes "SG_923") 920_000_000 925_000_000 20 0
    ∷ []

unfoldable pub region_by_name : Str → Option Region
unfolding find eq_ignore_ascii_case
region_by_name name = find (λ r. eq_ignore_ascii_case r.name name) regions
