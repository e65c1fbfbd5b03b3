-- ===== src/WebClient/Mirror.antt =====
-- From the server's session to the web client's copy of the shared state.
use meshtastic_lora_rs.Common.{◌≡◌, refl, ap, ◌∙◌, true, List, [], ◌∷◌, ◌++◌, map, some, All}
use meshtastic_lora_rs.Common.Result.{Result, ok, err, Str}
use meshtastic_lora_rs.Model.{Ui, ViewModel, Command}
use meshtastic_lora_rs.ProtoWs.{Snapshot, ServerMsg, snapshot, error, from_view}
use meshtastic_lora_rs.ProtoWs.Mirror.{from_view-apply}
use meshtastic_lora_rs.Server.{Json, Event, timer, text, close, gone, failed, other, handle_socket}
use meshtastic_lora_rs.WebClient.{Web, Copy, read_msg, reader}
use meshtastic_lora_rs.WebClient.Session.{IsLive, refusal, answers, handle_socket-live}

module _ (ui : Ui) (json : Json ui) (web : Web ui) where
  -- serde_json writes the message as a text that it reads as the same message. It does so where a
  -- message has no float; a NaN or an infinite one is written as null, and one with many digits may
  -- come back rounded.
  abbrev pub ReadsBack : ServerMsg ui → Type 0
  ReadsBack msg = (t : Str) × (json.to_string msg ≡ some t) × (web.from_str t ≡ ok msg)

  abbrev SnapshotReadsBack : ViewModel ui → Type 0
  SnapshotReadsBack vm = ReadsBack (snapshot (from_view ui vm))

  abbrev RefusalReadsBack : Result Str (Command ui) → Type 0
  RefusalReadsBack (ok cmd) = Unit
  RefusalReadsBack (err e) = ReadsBack (error e)

  -- What the session answers to an event is read back.
  abbrev pub AnswerReadsBack : Event ui → Type 0
  AnswerReadsBack (timer vm gets_out) = SnapshotReadsBack vm
  AnswerReadsBack (text t gets_out) = RefusalReadsBack (json.from_str t)
  AnswerReadsBack _ = Unit

  -- The shared state at the last snapshot.
  abbrev pub last_state : ViewModel ui → List (Event ui) → ViewModel ui
  last_state vm [] = vm
  last_state vm (timer vm' b ∷ es) = last_state vm' es
  last_state vm (_ ∷ es) = last_state vm es

  abbrev Rows : Type 0
  Rows = List ui.F32 × List ui.F32

  -- A snapshot with other rows of the plots.
  abbrev with_rows : Rows → ViewModel ui → Snapshot ui
  with_rows rows vm = record (from_view ui vm) { spectrum = rows.0; waterfall_row = rows.1 }

  abbrev rows_of : ViewModel ui → Rows
  rows_of vm = (vm.latest_spectrum, vm.latest_waterfall_row)

  -- The client shows that state.
  abbrev Shows : Rows → Copy ui → ViewModel ui → Type 0
  Shows rows k vm = from_view ui k.shared ≡ with_rows rows vm

  Shows-rows :
      (rows : Rows) (k : Copy ui) (vm : ViewModel ui) → Shows rows k vm → rows_of k.shared ≡ rows
  unfolding from_view
  Shows-rows rows k vm h = ap (λ (s : Snapshot ui). (s.spectrum, s.waterfall_row)) h

  -- A snapshot of a state is shown whatever was shown before.
  read_snapshot :
      (vm : ViewModel ui) (t : Str) (rows : Rows) (k : Copy ui)
      → web.from_str t ≡ ok (snapshot (from_view ui vm))
      → rows_of k.shared ≡ rows
      → Shows rows (read_msg ui web (web.from_str t) k) vm
  unfolding read_msg
  read_snapshot vm t rows k reads same =
      rw (reads, read_msg) ((from_view-apply ui vm k.shared).0 ∙ ap (λ r. with_rows r vm) same)

  read_refusal :
      (r : Result Str (Command ui)) (rest : List Str) (rows : Rows) (k : Copy ui)
      (vm shown : ViewModel ui)
      → RefusalReadsBack r
      → ((k' : Copy ui) → Shows rows k' shown → Shows rows (reader ui web (map some rest) k') vm)
      → Shows rows k shown
      → Shows rows (reader ui web (map some (refusal ui json r ++ rest)) k) vm
  unfolding reader read_msg
  read_refusal (ok cmd) rest rows k vm shown j go h = go k h
  read_refusal (err e) rest rows k vm shown (t, writes, reads) go h =
      rw (writes, reader) (rw (reads, reader) (go (read_msg ui web (ok (error e)) k) h))

  read_answers :
      (es : List (Event ui)) (rows : Rows) (k : Copy ui) (vm : ViewModel ui)
      → All AnswerReadsBack es
      → Shows rows k vm
      → Shows rows (reader ui web (map some (answers ui json es)) k) (last_state vm es)
  unfolding reader
  read_answers [] rows k vm j h = h
  read_answers (timer vm' b ∷ es) rows k vm ((t, writes, reads), later) h = rw writes (
      read_answers es rows (read_msg ui web (web.from_str t) k) vm' later
        (read_snapshot vm' t rows k reads (Shows-rows rows k vm h)))
  read_answers (text t b ∷ es) rows k vm (j, later) h =
      read_refusal (json.from_str t) (answers ui json es) rows k (last_state vm es) vm j
        (λ k' h'. read_answers es rows k' vm later h') h
  read_answers (close ∷ es) rows k vm (j, later) h = read_answers es rows k vm later h
  read_answers (gone ∷ es) rows k vm (j, later) h = read_answers es rows k vm later h
  read_answers (failed ∷ es) rows k vm (j, later) h = read_answers es rows k vm later h
  read_answers (other ∷ es) rows k vm (j, later) h = read_answers es rows k vm later h

  read_first :
      (vm : ViewModel ui) (es : List (Event ui)) (k : Copy ui)
      → SnapshotReadsBack vm
      → All AnswerReadsBack es
      → Shows
          (rows_of k.shared)
          (reader ui web (map some (answers ui json (timer vm true ∷ es))) k)
          (last_state vm es)
  unfolding reader
  read_first vm es k (t, writes, reads) later = rw writes (
      read_answers es (rows_of k.shared) (read_msg ui web (web.from_str t) k) vm later
        (read_snapshot vm t (rows_of k.shared) k reads refl))

  -- If serde_json reads back the snapshots and the refusals that the server sends in a session without
  -- failures, in which any snapshots, commands, refusals and pings come, then a client that reads all that the server sent shows
  -- the shared state of the last snapshot: a snapshot of the client's copy is one of that state, but for
  -- the rows of the two plots, which stay what they were.
  pub reader-handle_socket :
      (vm : ViewModel ui) (es : List (Event ui)) (k : Copy ui)
      → ReadsBack (snapshot (from_view ui vm))
      → All AnswerReadsBack es
      → IsLive ui json es
      → let k' = reader ui web (map some (handle_socket ui json vm true es).sent) k in
        from_view ui k'.shared ≡ record (from_view ui (last_state vm es)) {
          spectrum = k.shared.latest_spectrum;
          waterfall_row = k.shared.latest_waterfall_row;
        }
  reader-handle_socket vm es k j later live =
      let sent = (handle_socket-live ui json vm es live).1 in
      ap (λ l. from_view ui (reader ui web (map some l) k).shared) sent ∙ read_first vm es k j later
