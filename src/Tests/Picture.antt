-- ===== src/Tests/Picture.antt =====
-- The picture of a code of two rows of two modules.
use meshtastic_lora_rs.Common.{
  ◌+◌, ◌*◌, ◌≡◌, refl, Bool, true, false, List, [], ◌∷◌, arith, get_elem?, length,
}
use meshtastic_lora_rs.View.Qr.{draw, pixel_at, qr_pixels, rgba}
use meshtastic_lora_rs.View.Picture.{framed, qr_pixels-framed}

abbrev diagonal : List Bool
diagonal = true ∷ false ∷ false ∷ true ∷ []

qr_pixels-framed_example : get_elem? (qr_pixels (diagonal, 2)) (3 * 6 + 3) ≡ framed diagonal 2 3 3
qr_pixels-framed_example = qr_pixels-framed diagonal 2 3 3 refl (omega arith) (omega arith)

-- The code's dark corner, and what the picture's library gets: four numbers for each pixel.
diagonal_drawn : get_elem? (qr_pixels (diagonal, 2)) 21 ≡ get_elem? diagonal 3
unfolding qr_pixels draw pixel_at
diagonal_drawn = refl

four_numbers : length (rgba (qr_pixels (diagonal, 2))) ≡ 6 * 6 * 4
unfolding qr_pixels draw pixel_at rgba
four_numbers = refl
