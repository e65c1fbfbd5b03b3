-- ===== src/Cli/Reference.antt =====
-- The loop over indices does what a recursion on the list of arguments does.
use meshtastic_lora_rs.Common.{
  ℕ, zero, suc, ◌<◌, ◌≡◌, refl, ◌∙◌, true, false, List, [], ◌∷◌, ◌++◌, ◌⊎◌, Option, none, some,
  get_elem?, length, arith, Option-cases, inl, inr,
}
use meshtastic_lora_rs.Common.Result.{Str, codes}
use meshtastic_lora_rs.Cli.{
  Args, Parsed, parsed, exits, panics, Arm, bind_arm, headless_arm, help_arm, other_arm, arm_of,
  usage, default_bind, parse_from, parse_args,
}

Arm-cases : (a : Arm) → (a ≡ bind_arm) ⊎ ((a ≡ headless_arm) ⊎ ((a ≡ help_arm) ⊎ (a ≡ other_arm)))
Arm-cases bind_arm = inl refl
Arm-cases headless_arm = inr (inl refl)
Arm-cases help_arm = inr (inr (inl refl))
Arm-cases other_arm = inr (inr (inr refl))

module _ {SocketAddr : Type 0} (parse : Str → Option SocketAddr) where
  -- The reference: the arguments one after the other.
  unfoldable pub read_args : List Str → Args SocketAddr → Parsed SocketAddr
  unfolding arm_of
  read_args [] args = parsed args
  read_args (arg ∷ []) args = elim (arm_of arg) [
    | bind_arm ↦ panics (codes "--bind needs an address")
    | headless_arm ↦ parsed (record args { headless = true })
    | help_arm ↦ exits 0 usage
    | other_arm ↦ exits 2 (codes "unknown argument: " ++ arg)
  ]
  read_args (arg ∷ next ∷ rest) args = elim (arm_of arg) [
    | bind_arm ↦ elim (parse next) [
      | none ↦ panics (codes "invalid --bind address")
      | some bind ↦ read_args rest (record args { bind = bind })
    ]
    | headless_arm ↦ read_args (next ∷ rest) (record args { headless = true })
    | help_arm ↦ exits 0 usage
    | other_arm ↦ exits 2 (codes "unknown argument: " ++ arg)
  ]

  abbrev loop : ℕ → List Str → ℕ → Args SocketAddr → Option (Parsed SocketAddr)
  loop = parse_from parse

  -- An argument in front of all others moves the indices by one.
  loop-shift :
      (fuel : ℕ) (x : Str) (argv : List Str) (i : ℕ) (args : Args SocketAddr)
      → loop fuel (x ∷ argv) (suc i) args ≡ loop fuel argv i args
  unfolding parse_from
  loop-shift zero x argv i args = refl
  loop-shift (suc fuel) x argv i args = elim (Option-cases (get_elem? argv i)) [
    | inl over ↦ rw (over, parse_from) refl
    | inr (arg, here) ↦ elim (Arm-cases (arm_of arg)) [
      | inl e ↦ elim (Option-cases (get_elem? argv (suc i))) [
        | inl over ↦ rw (here, parse_from, e, over) refl
        | inr (addr, there) ↦ elim (Option-cases (parse addr)) [
          | inl bad ↦ rw (here, parse_from, e, there, bad) refl
          | inr (bind, good) ↦
              rw (here, parse_from, e, there, good)
                (loop-shift fuel x argv (suc (suc i)) (record args { bind = bind }))
        ]
      ]
      | inr (inl e) ↦
          rw (here, parse_from, e)
            (loop-shift fuel x argv (suc i) (record args { headless = true }))
      | inr (inr (inl e)) ↦ rw (here, parse_from, e) refl
      | inr (inr (inr e)) ↦ rw (here, parse_from, e) refl
    ]
  ]

  loop-read :
      (fuel : ℕ) (argv : List Str) (args : Args SocketAddr)
      → length argv < fuel
      → loop fuel argv 0 args ≡ some (read_args argv args)
  unfolding parse_from read_args
  loop-read zero argv args h = ground arith
  loop-read (suc fuel) [] args h = refl
  loop-read (suc fuel) (arg ∷ []) args h = elim (Arm-cases (arm_of arg)) [
    | inl e ↦ rw (parse_from, read_args, e) refl
    | inr (inl e) ↦
        let more : Args SocketAddr = record args { headless = true } in
        rw (parse_from, read_args, e)
          (loop-shift fuel arg [] 0 more ∙ loop-read fuel [] more (omega (arith, h)))
    | inr (inr (inl e)) ↦ rw (parse_from, read_args, e) refl
    | inr (inr (inr e)) ↦ rw (parse_from, read_args, e) refl
  ]
  loop-read (suc fuel) (arg ∷ next ∷ rest) args h = elim (Arm-cases (arm_of arg)) [
    | inl e ↦ elim (Option-cases (parse next)) [
      | inl bad ↦ rw (parse_from, read_args, e, bad) refl
      | inr (bind, good) ↦
          let more : Args SocketAddr = record args { bind = bind } in
          rw (parse_from, read_args, e, good)
            (loop-shift fuel arg (next ∷ rest) 1 more
              ∙ loop-shift fuel next rest 0 more
              ∙ loop-read fuel rest more (omega (arith, h)))
    ]
    | inr (inl e) ↦
        let more : Args SocketAddr = record args { headless = true } in
        rw (parse_from, read_args, e)
          (loop-shift fuel arg (next ∷ rest) 0 more
            ∙ loop-read fuel (next ∷ rest) more (omega (arith, h)))
    | inr (inr (inl e)) ↦ rw (parse_from, read_args, e) refl
    | inr (inr (inr e)) ↦ rw (parse_from, read_args, e) refl
  ]

  -- If the default address is one, the loop over indices ends on every command line, and ends as the
  -- reference does on the arguments after the program's name: with the same arguments, the same exit
  -- or the same panic.
  pub parse_args-read_args :
      (name : Str) (argv : List Str) (bind : SocketAddr)
      → parse default_bind ≡ some bind
      → parse_args parse (name ∷ argv)
        ≡ some (read_args argv (record { bind = bind; headless = false }))
  unfolding parse_args
  parse_args-read_args name argv bind good =
      let begun : Args SocketAddr = record { bind = bind; headless = false } in
      rw (good, parse_args)
        (loop-shift (suc (length (name ∷ argv))) name argv 0 begun
          ∙ loop-read (suc (length (name ∷ argv))) argv begun (omega arith))
