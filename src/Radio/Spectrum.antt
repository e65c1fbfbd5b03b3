-- ===== src/Radio/Spectrum.antt =====
-- The driver's turn and the plots: the samples of a turn in blocks of the FFT's size.
use meshtastic_lora_rs.Common.{
  ℕ, zero, suc, ◌+◌, List, [], ◌∷◌, ◌++◌, map, take, drop, length, leb, ltb, ◌-◌, ◌/◌,
  if◌then◌else◌,
}
use meshtastic_lora_rs.Model.{Ui, fft_size}
use meshtastic_lora_rs.Radio.{Lora, Loop, wrap64, samples_per_tick, max_rx_buf}

module _ (ui : Ui) (lora : Lora ui) where
  open ui use {F64, F32}

  abbrev pub Spectrum : Type 0
  Spectrum = List (F64 × F64)

  -- The larger of two spectra, bin by bin, as far as both go.
  unfoldable pub peak_of : Spectrum → Spectrum → Spectrum
  peak_of [] spec = []
  peak_of (p ∷ peak) [] = p ∷ peak
  peak_of (p ∷ peak) (s ∷ spec) = (p.0, if lora.gt64 s.1 p.1 then s.1 else p.1) ∷ peak_of peak spec

  abbrev pub first_or_peak : Spectrum → Spectrum → Spectrum
  unfolding peak_of
  first_or_peak [] spec = spec
  first_or_peak (p ∷ peak) spec = peak_of (p ∷ peak) spec

  abbrev pub db_row : Spectrum → List F32
  db_row spec = map (λ (p : F64 × F64). lora.f32_of_f64 p.1) spec

  -- One whole block.
  unfoldable pub analyze_block :
      List lora.Sample → Spectrum × Loop ui lora → Spectrum × Loop ui lora
  analyze_block block (peak, s) =
      let (spec, analyzer) = lora.compute s.analyzer block in
      (
        first_or_peak peak spec,
        record s {
          analyzer = analyzer;
          vm = record s.vm {
            latest_waterfall_row = db_row spec;
            waterfall_plot = ui.waterfall_update s.vm.waterfall_plot spec;
          };
        },
      )

  -- `mixed.chunks(FFT_SIZE)`: at most `fuel` blocks; a last one that is not whole is left out.
  unfoldable pub analyze : ℕ → List lora.Sample → Spectrum × Loop ui lora → Spectrum × Loop ui lora
  unfolding analyze_block
  analyze zero mixed acc = acc
  analyze (suc fuel) mixed acc =
      let rest = analyze fuel (drop fft_size mixed) (analyze_block (take fft_size mixed) acc) in
      if leb fft_size (length mixed) then rest else acc

  abbrev pub show_peak : Spectrum → Loop ui lora → Loop ui lora
  show_peak [] s = s
  show_peak (p ∷ peak) s = record s {
    vm = record s.vm {
      latest_spectrum = db_row (p ∷ peak);
      spectrum_plot = ui.spectrum_update s.vm.spectrum_plot (p ∷ peak);
    };
  }

  -- The receive buffer keeps its newest half when it grows too long.
  abbrev pub bounded : List lora.Sample → List lora.Sample
  bounded buffer =
      if ltb max_rx_buf (length buffer)
      then drop (length buffer - max_rx_buf / 2) buffer
      else buffer

  unfoldable pub take_samples : Loop ui lora → Loop ui lora
  unfolding analyze
  take_samples s =
      let ((mixed, driver), w) = lora.driver_tick s.driver samples_per_tick s.world in
      let heard : Loop ui lora = record s {
        driver = driver;
        world = w;
        produced = wrap64 (s.produced + length mixed);
      } in
      let (peak, analyzed) = analyze (length mixed) mixed ([], heard) in
      let shown : Loop ui lora = show_peak peak analyzed in
      record shown { rx_buffer = bounded (shown.rx_buffer ++ mixed) }
