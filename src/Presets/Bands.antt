-- ===== src/Presets/Bands.antt =====
-- Where the channels lie. Frequencies are in half hertz.
use meshtastic_lora_rs.Common.{ℕ, ◌+◌, ◌-◌, ◌*◌, ◌≤◌, ◌≡◌, arith}
use meshtastic_lora_rs.Presets.{Region, channel_freq, channel_n_freq}

-- The band of a channel: half a bandwidth on each side of its centre.
abbrev pub lower_edge : Region → ℕ → ℕ → ℕ
lower_edge r bw_hz ch = channel_n_freq r bw_hz ch - bw_hz

abbrev pub upper_edge : Region → ℕ → ℕ → ℕ
upper_edge r bw_hz ch = channel_n_freq r bw_hz ch + bw_hz

-- Channel `ch` of bandwidth `bw_hz` lies inside the region's band whenever the band has room for
-- `ch + 1` such channels; the next channel begins where this one ends; and channel 0 is the one that
-- `channel_freq` gives.
pub channel_bands :
    (r : Region) (bw_hz ch : ℕ)
    → r.freq_start + (ch + 1) * bw_hz ≤ r.freq_end
    → (2 * r.freq_start ≤ lower_edge r bw_hz ch)
      × (upper_edge r bw_hz ch ≤ 2 * r.freq_end)
      × (upper_edge r bw_hz ch ≡ lower_edge r bw_hz (ch + 1))
      × (channel_n_freq r bw_hz 0 ≡ channel_freq r bw_hz)
unfolding channel_n_freq channel_freq
channel_bands r bw_hz ch h = (grind arith, grind arith, grind arith, grind arith)
