-- ===== src/Cli.antt =====
-- mesh/src/bin/mesh.rs: the command line, and what `main` decides before its threads start. The parser
-- of socket addresses, the environment and the search for a device are parameters.
pub mod Reference
pub mod Wishes
pub mod Main
use meshtastic_lora_rs.Common.{
  ℕ, zero, suc, ◌+◌, Bool, true, false, not, ◌&&◌, ◌||◌, List, [], ◌∷◌, ◌++◌, Option, none, some,
  if◌then◌else◌, get_elem?, length,
}
use meshtastic_lora_rs.Common.Text.{bytes_eq}
use meshtastic_lora_rs.Common.Result.{Str, codes}
use meshtastic_lora_rs.Model.{Ui, ViewModel}

pub record Args (SocketAddr : Type 0) : Type 0 where
  pub bind : SocketAddr
  pub headless : Bool

-- How `parse_args` ends: with arguments, by `exit` with a code and a message, or by a panic.
pub data Parsed (SocketAddr : Type 0) : Type 0 where
  parsed : Args SocketAddr → Parsed SocketAddr
  exits : ℕ → Str → Parsed SocketAddr
  panics : Str → Parsed SocketAddr

-- The arms of the `match` on an argument.
pub data Arm : Type 0 where
  bind_arm : Arm
  headless_arm : Arm
  help_arm : Arm
  other_arm : Arm

unfoldable pub arm_of : Str → Arm
unfolding bytes_eq
arm_of arg =
    if bytes_eq arg (codes "--bind")
    then bind_arm
    else if bytes_eq arg (codes "--headless")
    then headless_arm
    else if bytes_eq arg (codes "--help") || bytes_eq arg (codes "-h")
    then help_arm
    else other_arm

abbrev pub usage : Str
usage = codes "Usage: mesh [--bind ADDR] [--headless]\n  default: --bind 0.0.0.0:9069"

abbrev pub default_bind : Str
default_bind = codes "0.0.0.0:9069"

module _ {SocketAddr : Type 0} (parse : Str → Option SocketAddr) where
  -- The loop from index `i` on, of at most `fuel` turns; none if they do not suffice.
  unfoldable pub parse_from : ℕ → List Str → ℕ → Args SocketAddr → Option (Parsed SocketAddr)
  unfolding arm_of
  parse_from zero argv i args = none
  parse_from (suc fuel) argv i args = elim (get_elem? argv i) [
    | none ↦ some (parsed args)
    | some arg ↦ elim (arm_of arg) [
      | bind_arm ↦ elim (get_elem? argv (suc i)) [
        | none ↦ some (panics (codes "--bind needs an address"))
        | some addr ↦ elim (parse addr) [
          | none ↦ some (panics (codes "invalid --bind address"))
          | some bind ↦ parse_from fuel argv (suc (suc i)) (record args { bind = bind })
        ]
      ]
      | headless_arm ↦ parse_from fuel argv (suc i) (record args { headless = true })
      | help_arm ↦ some (exits 0 usage)
      | other_arm ↦ some (exits 2 (codes "unknown argument: " ++ arg))
    ]
  ]

  -- The program's own name comes first.
  unfoldable pub parse_args : List Str → Option (Parsed SocketAddr)
  unfolding parse_from
  parse_args argv = elim (parse default_bind) [
    | none ↦ some (panics (codes "default addr"))
    | some bind ↦ parse_from (suc (length argv)) argv 1 (record { bind = bind; headless = false })
  ]

  -- Whether the window is opened; `desktop` is the feature.
  unfoldable pub opens_window : Bool → Bool → Args SocketAddr → Bool
  opens_window desktop has_display args = desktop && (not args.headless && has_display)

-- On Linux: the variables DISPLAY, WAYLAND_DISPLAY and WAYLAND_SOCKET, as far as they are set.
unfoldable pub has_display : (Str → Option Str) → Bool
has_display var =
    is_ok (var (codes "DISPLAY"))
    || (is_ok (var (codes "WAYLAND_DISPLAY")) || is_ok (var (codes "WAYLAND_SOCKET")))
  where
    is_ok : Option Str → Bool
    is_ok none = false
    is_ok (some value) = true

module _ (ui : Ui) where
  -- A device that the search at the start finds is taken into use.
  unfoldable pub probed : Bool → ViewModel ui → ViewModel ui
  probed found vm =
      if found then record vm { use_uhd = true; uhd_loading = true; rebuild_driver = true } else vm
