-- ===== src/Radio/Devices.antt =====
-- Which device the radio uses: the arguments that a device was opened with against those that the loop
-- keeps for it.
use meshtastic_lora_rs.Common.{
  ◌≡◌, refl, sym, subst, ◌∙◌, ◌⊎◌, inl, inr, Bool, true, false, ◌&&◌, Option, none, some, if_true,
  if_false, if◌then◌else◌, Bool-cases,
}
use meshtastic_lora_rs.Common.Text.{bytes_eq, bytes_eq→≡}
use meshtastic_lora_rs.Common.Int.{ℤ}
use meshtastic_lora_rs.Common.Result.{Result, ok, err, Str}
use meshtastic_lora_rs.Model.{Ui}
use meshtastic_lora_rs.Radio.{Lora, Loop}
use meshtastic_lora_rs.Radio.Rebuild.{
  install, open_device, unparked, make_driver, open_new, reuse_or_open, use_device, leave_device,
  rebuild_driver,
}

both : (a b : Bool) → (a && b) ≡ true → (a ≡ true) × (b ≡ true)
both true b h = (refl, h)
both false b h = cc

module _ (ui : Ui) (lora : Lora ui) where
  -- What the drivers do with arguments: a device keeps those it was opened with through parking, and
  -- the simulated channel is no device.
  pub record IsDevices : Type 0 where
    pub args_of : lora.Driver → Str
    pub opened :
        (args : Str) (f s b r t : ui.F64) (w : lora.W) (d : lora.Driver)
        → (lora.uhd_new args f s b r t w).0 ≡ ok d
        → args_of d ≡ args
    pub parks : (d : lora.Driver) → args_of (lora.park d) ≡ args_of d
    pub unparks :
        (d : lora.Driver) (f s b r t : ui.F64) → args_of (lora.unpark d f s b r t) ≡ args_of d
    pub simulated : (n s : ui.F32) → lora.is_parkable (lora.channel_new n s) ≡ false

  module _ (dev : IsDevices) where
    -- A driver is no device, or one with those arguments.
    abbrev pub IsWith : Str → lora.Driver → Type 0
    IsWith args d = (lora.is_parkable d ≡ false) ⊎ (dev.args_of d ≡ args)

    abbrev IsParked : Option (lora.Driver × Str) → Type 0
    IsParked none = Unit {0}
    IsParked (some (d, args)) = dev.args_of d ≡ args

    abbrev Trio : Type 0
    Trio = lora.Driver × Option (lora.Driver × Str) × Str

    abbrev trio : Loop ui lora → Trio
    trio s = (s.driver, s.parked_uhd, s.active_uhd_args)

    -- The arguments kept are those of the driver in use and of the parked one.
    abbrev Matches : Trio → Type 0
    Matches (d, parked, active) = IsWith active d × IsParked parked

    unfoldable pub IsMatched : Loop ui lora → Type 0
    IsMatched s = Matches (trio s)

    install-IsWith :
        (args : Str) (r : Result Str lora.Driver) (d : lora.Driver) (s : Loop ui lora)
        → ((d' : lora.Driver) → r ≡ ok d' → dev.args_of d' ≡ args)
        → lora.is_parkable d ≡ false
        → IsWith args (install ui lora r d s).driver
          × ((install ui lora r d s).parked_uhd ≡ s.parked_uhd)
    unfolding install
    install-IsWith args (ok d') d s opens sim = (inr (opens d' refl), refl)
    install-IsWith args (err e) d s opens sim = (inl sim, refl)

    open_new-IsWith :
        (s : Loop ui lora)
        → IsWith s.vm.uhd_args (open_new ui lora s).driver
          × IsParked (open_new ui lora s).parked_uhd
    unfolding open_new
    open_new-IsWith s =
        let (opened, w) = open_device ui lora s.vm.uhd_args s in
        let begun : Loop ui lora = record s {
          world = w;
          vm = record s.vm { uhd_loading = false };
          parked_uhd = none;
        } in
        let (fine, kept) =
          install-IsWith s.vm.uhd_args opened
            (lora.channel_new (ui.f32_of_ℤ (ℤ.pos 0)) (ui.f32_of_ℤ (ℤ.pos 1))) begun
            (dev.opened s.vm.uhd_args _ _ _ _ _ s.world) (dev.simulated _ _) in
        (fine, subst IsParked (sym kept) tt)

    reuse_or_open-IsWith :
        (o : Option (lora.Driver × Str)) (s : Loop ui lora)
        → IsParked o
        → IsWith s.vm.uhd_args (reuse_or_open ui lora o s).driver
          × IsParked (reuse_or_open ui lora o s).parked_uhd
    unfolding reuse_or_open
    reuse_or_open-IsWith none s h = open_new-IsWith s
    reuse_or_open-IsWith (some (d, args)) s h =
        let Fine : Loop ui lora → Type 0 =
          λ t. IsWith s.vm.uhd_args t.driver × IsParked t.parked_uhd in
        elim (Bool-cases (bytes_eq args s.vm.uhd_args)) [
          | inl same ↦
              subst Fine (sym (if_true _ same))
                (inr (dev.unparks d _ _ _ _ _ ∙ h ∙ bytes_eq→≡ args s.vm.uhd_args same), tt)
          | inr new_ ↦ subst Fine (sym (if_false _ new_)) (open_new-IsWith s)
        ]

    use_device-IsMatched :
        (s : Loop ui lora)
        → IsMatched s
        → IsWith s.vm.uhd_args (use_device ui lora s).driver × IsMatched (use_device ui lora s)
    unfolding use_device IsMatched
    use_device-IsMatched s (device, parked) =
        let Fine : Loop ui lora → Type 0 = λ t. IsWith s.vm.uhd_args t.driver × Matches (trio t) in
        elim (Bool-cases (lora.is_parkable s.driver && bytes_eq s.active_uhd_args s.vm.uhd_args)) [
          | inl same ↦
              let (device_on, equal) =
                both (lora.is_parkable s.driver) (bytes_eq s.active_uhd_args s.vm.uhd_args) same in
              let kept : dev.args_of s.driver ≡ s.active_uhd_args = elim device [
                | inl sim ↦ cc
                | inr e ↦ e
              ] in
              let moved : dev.args_of (unparked ui lora (lora.park s.driver) s)
                  ≡ s.active_uhd_args =
                dev.unparks _ _ _ _ _ _ ∙ dev.parks s.driver ∙ kept in
              let chosen = bytes_eq→≡ s.active_uhd_args s.vm.uhd_args equal in
              subst Fine (sym (if_true _ same)) (inr (moved ∙ chosen), (inr moved, parked))
          | inr new_ ↦
              let (fine, rest) = reuse_or_open-IsWith s.parked_uhd s parked in
              subst Fine (sym (if_false _ new_)) (fine, (fine, rest))
        ]

    leave_device-IsMatched :
        (s : Loop ui lora)
        → IsMatched s
        → s.vm.use_uhd ≡ false
        → s.vm.uhd_args ≡ s.active_uhd_args
        → IsMatched (leave_device ui lora s)
    unfolding leave_device make_driver IsMatched
    leave_device-IsMatched s (device, parked) unused same =
        let Fine : Loop ui lora → Type 0 = λ t. Matches (trio t) in
        elim (Bool-cases (lora.is_parkable s.driver)) [
          | inl on ↦
              let kept : dev.args_of s.driver ≡ s.active_uhd_args = elim device [
                | inl sim ↦ cc
                | inr e ↦ e
              ] in
              subst Fine (sym (if_true _ on))
                (inl (dev.simulated _ _), dev.parks s.driver ∙ kept ∙ sym same)
          | inr sim ↦
              subst Fine (sym (if_false _ sim))
                (subst Fine (sym (if_false _ unused)) (inl (dev.simulated _ _), parked))
        ]

    -- Suppose that the arguments that the loop keeps are those of its devices, and that a device is asked
    -- for or the chosen arguments are the kept ones. Then the arguments kept after the phase are again
    -- those of the devices; and if a rebuild was due and a device asked for, the driver is then the
    -- simulated channel, or a device that was opened with the chosen arguments, whether it was kept,
    -- taken up from where it was parked or opened anew.
    pub rebuild_driver-IsMatched :
        (s : Loop ui lora)
        → IsMatched s
        → (s.vm.use_uhd ≡ true) ⊎ (s.vm.uhd_args ≡ s.active_uhd_args)
        → IsMatched (rebuild_driver ui lora s)
          × ((s.vm.rebuild_driver ≡ false)
              ⊎ ((s.vm.use_uhd ≡ false) ⊎ IsWith s.vm.uhd_args (rebuild_driver ui lora s).driver))
    unfolding rebuild_driver IsMatched
    rebuild_driver-IsMatched s matched asked =
        let lowered : Loop ui lora = record s { vm = record s.vm { rebuild_driver = false } } in
        let moved : Loop ui lora =
          if s.vm.use_uhd then use_device ui lora lowered else leave_device ui lora lowered in
        elim (Bool-cases s.vm.rebuild_driver) [
          | inr keep ↦ (subst (λ t. Matches (trio t)) (sym (if_false _ keep)) matched, inl keep)
          | inl due ↦
              let Fine : Loop ui lora → Type 0 = λ t.
                Matches (trio t)
                × ((s.vm.rebuild_driver ≡ false)
                    ⊎ ((s.vm.use_uhd ≡ false) ⊎ IsWith s.vm.uhd_args t.driver)) in
              let fine : Fine moved = elim (Bool-cases s.vm.use_uhd) [
                | inl used ↦
                    let (is_with, rest) = use_device-IsMatched lowered matched in
                    subst Fine (sym (if_true _ used)) (rest, inr (inr is_with))
                | inr unused ↦
                    let same : s.vm.uhd_args ≡ s.active_uhd_args = elim asked [
                      | inl used ↦ cc
                      | inr e ↦ e
                    ] in
                    subst Fine (sym (if_false _ unused))
                      (leave_device-IsMatched lowered matched unused same, inr (inl unused))
              ] in
              subst Fine (sym (if_true _ due)) fine
        ]
