-- ===== src/Tests/Devices.antt =====
-- Devices that know their arguments, and a device that comes back under others.
use meshtastic_lora_rs.Common.{◌≡◌, ◌⊎◌, refl, sym, ap, inl, inr, Bool, true, false, [], ◌∷◌}
use meshtastic_lora_rs.Common.Result.{Result, ok, err, Str, codes}
use meshtastic_lora_rs.Common.Text.{bytes_eq}
use meshtastic_lora_rs.Model
use meshtastic_lora_rs.Radio.{Lora, Loop}
use meshtastic_lora_rs.Radio.Rebuild.{rebuild_driver}
use meshtastic_lora_rs.Radio.Devices.{IsDevices, IsWith, IsMatched, rebuild_driver-IsMatched}
use meshtastic_lora_rs.Radio.Tick.{start, initial}
use meshtastic_lora_rs.Tests.Concrete.{toy_ui, toy_lora}

-- A device is a one before its arguments, the simulated channel is empty.
abbrev is_device : Str → Bool
is_device [] = false
is_device (x ∷ xs) = true

abbrev toy_args : Str → Str
toy_args [] = []
toy_args (x ∷ xs) = xs

abbrev device_lora : Lora toy_ui
device_lora = record toy_lora {
  is_parkable = is_device;
  uhd_new = λ a f s b r t w. (ok (1 ∷ a), w);
}

abbrev opened_args : Result Str Str → Str
opened_args (ok d) = toy_args d
opened_args (err e) = []

abbrev toy_devices : IsDevices toy_ui device_lora
toy_devices = record {
  args_of = toy_args;
  opened = λ args f s b r t w d h. sym (ap opened_args h);
  parks = λ d. refl;
  unparks = λ d f s b r t. refl;
  simulated = λ n s. refl;
}

abbrev begun : Loop toy_ui device_lora
begun = start toy_ui device_lora [] 0 (Model.new toy_ui 7)

-- A device that was opened with "a" is in use.
abbrev with_a : Loop toy_ui device_lora
with_a = record begun {
  driver = 1 ∷ codes "a";
  active_uhd_args = codes "a";
  vm = record begun.vm { use_uhd = true; uhd_args = codes "a"; rebuild_driver = true };
}

-- The arguments change to "b".
abbrev with_b : Loop toy_ui device_lora
with_b = record with_a { vm = record with_a.vm { uhd_args = codes "b" } }

with_b-IsMatched : IsMatched toy_ui device_lora toy_devices with_b
unfolding IsMatched start initial
with_b-IsMatched = (inr refl, tt)

rebuild_driver-IsMatched_example :
    IsMatched toy_ui device_lora toy_devices (rebuild_driver toy_ui device_lora with_b)
    × ((with_b.vm.rebuild_driver ≡ false)
        ⊎ ((with_b.vm.use_uhd ≡ false)
            ⊎ IsWith toy_ui device_lora toy_devices with_b.vm.uhd_args
                (rebuild_driver toy_ui device_lora with_b).driver))
rebuild_driver-IsMatched_example =
    rebuild_driver-IsMatched toy_ui device_lora toy_devices with_b with_b-IsMatched (inl refl)

-- If the arguments change and the device is turned off in the same run of commands, it comes back in
-- the place of one that was to be opened with the new arguments.
abbrev turned_off : Loop toy_ui device_lora
turned_off = record with_b { vm = record with_b.vm { use_uhd = false } }

abbrev parked_b : Loop toy_ui device_lora
parked_b = rebuild_driver toy_ui device_lora turned_off

wrong_device :
    (rebuild_driver toy_ui device_lora (record parked_b {
      vm = record parked_b.vm { use_uhd = true; rebuild_driver = true };
    })).driver
    ≡ 1 ∷ codes "a"
unfolding rebuild_driver start initial bytes_eq
wrong_device = refl
