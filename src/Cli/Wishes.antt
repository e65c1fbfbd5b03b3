-- ===== src/Cli/Wishes.antt =====
-- What a user asks for on the command line, written out and read back.
use mathlib.Core.List.{append-nil}
use meshtastic_lora_rs.Common.{
  ◌≡◌, refl, sym, ap, ◌∙◌, true, false, List, [], ◌∷◌, ◌++◌, Option, none, some, All,
}
use meshtastic_lora_rs.Common.Result.{Str, codes}
use meshtastic_lora_rs.Cli.{
  Args, parsed, exits, panics, other_arm, arm_of, default_bind, parse_args,
}
use meshtastic_lora_rs.Cli.Reference.{read_args, parse_args-read_args}

-- An address to bind to, with its text, or no window.
pub data Wish (SocketAddr : Type 0) : Type 0 where
  bind_to : Str → SocketAddr → Wish SocketAddr
  no_window : Wish SocketAddr

module _ {SocketAddr : Type 0} (parse : Str → Option SocketAddr) where
  abbrev pub write : List (Wish SocketAddr) → List Str
  write [] = []
  write (bind_to text addr ∷ wishes) = codes "--bind" ∷ text ∷ write wishes
  write (no_window ∷ wishes) = codes "--headless" ∷ write wishes

  -- The last address counts, and one wish for no window is enough.
  abbrev pub grant : List (Wish SocketAddr) → Args SocketAddr → Args SocketAddr
  grant [] args = args
  grant (bind_to text addr ∷ wishes) args = grant wishes (record args { bind = addr })
  grant (no_window ∷ wishes) args = grant wishes (record args { headless = true })

  -- The text is that of the address.
  abbrev pub IsWritten : Wish SocketAddr → Type 0
  IsWritten (bind_to text addr) = parse text ≡ some addr
  IsWritten no_window = Unit {0}

  read-headless :
      (rest : List Str) (args : Args SocketAddr)
      → read_args parse (codes "--headless" ∷ rest) args
        ≡ read_args parse rest (record args { headless = true })
  unfolding read_args arm_of
  read-headless [] args = refl
  read-headless (next ∷ rest) args = refl

  read-write :
      (wishes : List (Wish SocketAddr)) (tail : List Str) (args : Args SocketAddr)
      → All IsWritten wishes
      → read_args parse (write wishes ++ tail) args ≡ read_args parse tail (grant wishes args)
  unfolding read_args arm_of
  read-write [] tail args h = refl
  read-write (bind_to text addr ∷ wishes) tail args (good, rest) =
      rw good (read-write wishes tail (record args { bind = addr }) rest)
  read-write (no_window ∷ wishes) tail args (_, rest) =
      read-headless (write wishes ++ tail) args
      ∙ read-write wishes tail (record args { headless = true }) rest

  -- If the default address is one and every text is that of its address, what is written on the command
  -- line is what the program gets: the last address or else the default one, and no window if that was
  -- asked for at least once.
  pub parse_args-write :
      (name : Str) (wishes : List (Wish SocketAddr)) (bind : SocketAddr)
      → parse default_bind ≡ some bind
      → All IsWritten wishes
      → parse_args parse (name ∷ write wishes)
        ≡ some (parsed (grant wishes (record { bind = bind; headless = false })))
  parse_args-write name wishes bind good written =
      let begun : Args SocketAddr = record { bind = bind; headless = false } in
      ap (λ argv. parse_args parse (name ∷ argv)) (sym (append-nil (write wishes)))
      ∙ parse_args-read_args parse name (write wishes ++ []) bind good
      ∙ ap some (read-write wishes [] begun written ∙ (unfold read_args in refl))

  read-stray :
      (arg : Str) (rest : List Str) (args : Args SocketAddr)
      → arm_of arg ≡ other_arm
      → read_args parse (arg ∷ rest) args ≡ exits 2 (codes "unknown argument: " ++ arg)
  unfolding read_args
  read-stray arg [] args e = rw (read_args, e) refl
  read-stray arg (next ∷ rest) args e = rw (read_args, e) refl

  -- If the default address is one, then after any well-formed options, an address to bind to whose text
  -- is none panics, a missing one panics, and an argument that is no option ends the program with code
  -- 2 and a message that names it, whatever follows.
  pub parse_args-bad :
      (name : Str) (wishes : List (Wish SocketAddr)) (bind : SocketAddr) (text stray : Str)
      (rest : List Str)
      → parse default_bind ≡ some bind
      → All IsWritten wishes
      → parse text ≡ none
      → arm_of stray ≡ other_arm
      → (parse_args parse (name ∷ (write wishes ++ (codes "--bind" ∷ text ∷ rest)))
          ≡ some (panics (codes "invalid --bind address")))
        × (parse_args parse (name ∷ (write wishes ++ (codes "--bind" ∷ [])))
            ≡ some (panics (codes "--bind needs an address")))
        × (parse_args parse (name ∷ (write wishes ++ (stray ∷ rest)))
            ≡ some (exits 2 (codes "unknown argument: " ++ stray)))
  parse_args-bad name wishes bind text stray rest good written bad other =
      let begun : Args SocketAddr = record { bind = bind; headless = false } in
      let after : (tail : List Str)
          → parse_args parse (name ∷ (write wishes ++ tail))
            ≡ some (read_args parse tail (grant wishes begun)) =
        λ tail.
          parse_args-read_args parse name (write wishes ++ tail) bind good
          ∙ ap some (read-write wishes tail begun written) in
      (
        after (codes "--bind" ∷ text ∷ rest) ∙ (unfold read_args arm_of in rw bad refl),
        after (codes "--bind" ∷ []) ∙ (unfold read_args arm_of in refl),
        after (stray ∷ rest) ∙ ap some (read-stray stray rest (grant wishes begun) other),
      )
