-- ===== src/Cli/Main.antt =====
-- `main` of mesh/src/bin/mesh.rs: what it starts, and how it ends. The machine answers for the features,
-- the search for a device, the environment, the window and the server's thread.
use meshtastic_lora_rs.Common.{
  ℕ, ◌≡◌, refl, sym, ap, ◌∙◌, Bool, true, false, not, ◌&&◌, ◌||◌, List, [], ◌∷◌, Option, none, some,
  All, if◌then◌else◌,
}
use meshtastic_lora_rs.Common.Result.{Result, Str}
use meshtastic_lora_rs.Model
use meshtastic_lora_rs.Model.{Ui, ViewModel}
use meshtastic_lora_rs.Cli.{
  Args, Parsed, parsed, exits, panics, default_bind, parse_args, opens_window, has_display, probed,
}
use meshtastic_lora_rs.Cli.Wishes.{
  Wish, bind_to, no_window, write, grant, IsWritten, parse_args-write,
}

pub record Machine (SocketAddr : Type 0) : Type 0 where
  -- The features of the build.
  pub uhd : Bool
  pub desktop : Bool
  -- Whether `lora::uhd::probe` finds a device.
  pub probe : Bool
  pub var : Str → Option Str
  -- What `eframe::run_native` returns once the window is closed.
  pub run_native : Result Str (Unit {0})
  -- How the server that is bound to an address ends; Ctrl+C ends it well.
  pub serve : SocketAddr → Result Str (Unit {0})

-- The state that the radio's thread and the server's share, the server's address, whether the window is
-- opened, and what `main` returns.
pub record Launch (SocketAddr : Type 0) (ui : Ui) : Type 0 where
  pub shared : ViewModel ui
  pub bind : SocketAddr
  pub window : Bool
  pub result : Result Str (Unit {0})

pub data Ending (SocketAddr : Type 0) (ui : Ui) : Type 0 where
  launched : Launch SocketAddr ui → Ending SocketAddr ui
  exited : ℕ → Str → Ending SocketAddr ui
  panicked : Str → Ending SocketAddr ui

or_true : (b : Bool) → (b || true) ≡ true
or_true true = refl
or_true false = refl

or_false : (b : Bool) → (b || false) ≡ b
or_false true = refl
or_false false = refl

module _ {SocketAddr : Type 0} (parse : Str → Option SocketAddr) (ui : Ui) where
  -- What follows the command line; the state's node id is the one drawn. With a window nobody waits for
  -- the server.
  unfoldable pub launch : Machine SocketAddr → ℕ → Args SocketAddr → Launch SocketAddr ui
  unfolding opens_window has_display probed
  launch m drawn args =
      let window = opens_window parse m.desktop (has_display m.var) args in
      let vm = Model.new ui drawn in
      record {
        shared = if m.uhd then probed ui m.probe vm else vm;
        bind = args.bind;
        window = window;
        result = if window then m.run_native else m.serve args.bind;
      }

  unfoldable pub end_of :
      Machine SocketAddr → ℕ → Option (Parsed SocketAddr) → Option (Ending SocketAddr ui)
  unfolding launch
  end_of m drawn none = none
  end_of m drawn (some (parsed args)) = some (launched (launch m drawn args))
  end_of m drawn (some (exits code message)) = some (exited code message)
  end_of m drawn (some (panics message)) = some (panicked message)

  -- None only if the loop over the arguments runs out of turns.
  unfoldable pub main : Machine SocketAddr → ℕ → List Str → Option (Ending SocketAddr ui)
  unfolding parse_args end_of
  main m drawn argv = end_of m drawn (parse_args parse argv)

  -- The last address that is asked for.
  abbrev pub last_bind : SocketAddr → List (Wish SocketAddr) → SocketAddr
  last_bind bind [] = bind
  last_bind bind (bind_to text addr ∷ wishes) = last_bind addr wishes
  last_bind bind (no_window ∷ wishes) = last_bind bind wishes

  abbrev pub wants_no_window : List (Wish SocketAddr) → Bool
  wants_no_window [] = false
  wants_no_window (bind_to text addr ∷ wishes) = wants_no_window wishes
  wants_no_window (no_window ∷ wishes) = true

  abbrev with_headless : Args SocketAddr → Bool → Args SocketAddr
  with_headless args b = record args { headless = b }

  grant_lem :
      (wishes : List (Wish SocketAddr)) (args : Args SocketAddr)
      → grant parse wishes args ≡ record {
        bind = last_bind args.bind wishes;
        headless = args.headless || wants_no_window wishes;
      }
  grant_lem [] args = ap (with_headless args) (sym (or_false args.headless))
  grant_lem (bind_to text addr ∷ wishes) args = grant_lem wishes (record args { bind = addr })
  grant_lem (no_window ∷ wishes) args =
      grant_lem wishes (record args { headless = true })
      ∙ ap (with_headless (record args { bind = last_bind args.bind wishes }))
          (sym (or_true args.headless))

  started_device :
      (uhd probe : Bool) (drawn : ℕ)
      → let vm = Model.new ui drawn in
        let shared = if uhd then probed ui probe vm else vm in
        (shared.use_uhd ≡ (uhd && probe)) × (shared.rebuild_driver ≡ (uhd && probe))
  unfolding probed
  started_device true true drawn = (refl, refl)
  started_device true false drawn = (refl, refl)
  started_device false probe drawn = (refl, refl)

  -- If the default address is one and every text is that of its address, the program starts the server
  -- at the last address asked for, or else the default one, opens a window exactly if it is built for
  -- the desktop, there is a display, and none asked for no window, and takes a device into use exactly
  -- if it is built for devices and finds one. It returns what the window returns, whatever becomes of
  -- the server, or without a window what the server returns.
  pub main-write :
      (m : Machine SocketAddr) (drawn : ℕ) (name : Str) (wishes : List (Wish SocketAddr))
      (bind : SocketAddr)
      → parse default_bind ≡ some bind
      → All (IsWritten parse) wishes
      → let at = last_bind bind wishes in
        let window = m.desktop && (not (wants_no_window wishes) && has_display m.var) in
        let device = m.uhd && m.probe in
        (l : Launch SocketAddr ui) × (main m drawn (name ∷ write parse wishes) ≡ some (launched l))
        × (l.bind ≡ at)
        × (l.window ≡ window)
        × (l.result ≡ (if window then m.run_native else m.serve at))
        × (l.shared.use_uhd ≡ device)
        × (l.shared.rebuild_driver ≡ device)
  unfolding main
  main-write m drawn name wishes bind good written =
      let args : Args SocketAddr = record {
        bind = last_bind bind wishes;
        headless = wants_no_window wishes;
      } in
      let read : parse_args parse (name ∷ write parse wishes) ≡ some (parsed args) =
        parse_args-write parse name wishes bind good written
        ∙ ap (λ a. some (parsed a)) (grant_lem wishes (record { bind = bind; headless = false })) in
      let (used, rebuilt) = started_device m.uhd m.probe drawn in
      (launch m drawn args, ap (end_of m drawn) read, refl, refl, refl, used, rebuilt)
