-- ===== src/View/Qr.antt =====
-- `MeshSimApp::qr_texture`: the picture of a QR code, drawn once.
use meshtastic_lora_rs.Common.{
  ℕ, ◌+◌, ◌*◌, ◌/◌, ◌%◌, Bool, true, false, List, [], ◌∷◌, Option, none, some, replicate, copy_at,
  if◌then◌else◌,
}
use meshtastic_lora_rs.Common.Result.{Str, codes}
use meshtastic_lora_rs.Model.{Ui}
use meshtastic_lora_rs.View.{Gui, MeshSimApp}

abbrev pub repo_url : Str
repo_url = codes "https://github.com/seanstone/meshtastic-lora-rs"

-- Whether a pixel is black.
abbrev Pixels : Type 0
Pixels = List Bool

abbrev quiet_zone : ℕ
quiet_zone = 2

-- Where the module of index `i` goes on a picture of a code of width `w`.
unfoldable pub pixel_at : ℕ → ℕ → ℕ
pixel_at w i = (i / w + quiet_zone) * (w + 2 * quiet_zone) + (i % w + quiet_zone)

-- The modules from index `i` on, on a picture of a code of width `w`.
unfoldable pub draw : ℕ → ℕ → List Bool → Pixels → Pixels
unfolding pixel_at
draw w i [] pixels = pixels
draw w i (dark ∷ modules) pixels =
    draw w (i + 1) modules (if dark then copy_at (pixel_at w i) (true ∷ []) pixels else pixels)

unfoldable pub qr_pixels : List Bool × ℕ → Pixels
unfolding draw
qr_pixels (modules, w) =
    let size = w + 2 * quiet_zone in draw w 0 modules (replicate (size * size) false)

-- `[c.r(), c.g(), c.b(), c.a()]` of every pixel.
unfoldable pub rgba : Pixels → List ℕ
rgba [] = []
rgba (true ∷ pixels) = 0 ∷ 0 ∷ 0 ∷ 255 ∷ rgba pixels
rgba (false ∷ pixels) = 255 ∷ 255 ∷ 255 ∷ 255 ∷ rgba pixels

module _ (ui : Ui) (gui : Gui ui) where
  -- The picture that is there, or a new one.
  unfoldable pub texture_or :
      Option gui.TextureHandle → MeshSimApp ui gui → gui.TextureHandle × MeshSimApp ui gui
  unfolding qr_pixels rgba
  texture_or (some tex) v = (tex, v)
  texture_or none v =
      let (modules, w) = gui.qr_encode repo_url in
      let size = w + 2 * quiet_zone in
      let tex = gui.load_texture (codes "qr_github") (size, size) (rgba (qr_pixels (modules, w))) in
      (tex, record v { qr_texture = some tex })

  unfoldable pub qr_texture : MeshSimApp ui gui → gui.TextureHandle × MeshSimApp ui gui
  unfolding texture_or
  qr_texture v = texture_or v.qr_texture v
