-- ===== src/ProtoWs/Mirror.antt =====
-- The web client's copy against the server's state.
use meshtastic_lora_rs.Common.{ℕ, ◌≡◌, refl, Bool, List}
use meshtastic_lora_rs.Model.{Ui, LogEntry, ViewModel}
use meshtastic_lora_rs.Common.Result.{Str}
use meshtastic_lora_rs.ProtoWs.{Snapshot, from_view, apply}

module _ (ui : Ui) where
  -- The parts of the shared state that no snapshot carries.
  abbrev pub unsent : ViewModel ui → List LogEntry × Bool × Bool × List Str × ℕ
  unsent vm = (vm.log, vm.rebuild_driver, vm.rebuild_nodes, vm.tx_queue, vm.node_id)

  -- A client that writes a snapshot of the server's state into its own copy shows the server's state:
  -- a snapshot of the copy is that of the server, but for the two spectrum rows, which go to the plots.
  -- The log, the queue, the flags and the node id of the copy stay what they were.
  pub from_view-apply :
      (server client : ViewModel ui)
      → let client' = apply ui (from_view ui server) client in
        (from_view ui client' ≡ record (from_view ui server) {
          spectrum = client.latest_spectrum;
          waterfall_row = client.latest_waterfall_row;
        })
        × (unsent client' ≡ unsent client)
  unfolding from_view apply
  from_view-apply server client = (refl, refl)

  -- A later snapshot overwrites an earlier one: as far as a snapshot of the copy tells, only the last
  -- one counts.
  pub apply-last :
      (s s' : Snapshot ui) (client : ViewModel ui)
      → from_view ui (apply ui s' (apply ui s client)) ≡ from_view ui (apply ui s' client)
  unfolding from_view apply
  apply-last s s' client = refl
