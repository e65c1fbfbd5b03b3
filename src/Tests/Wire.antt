-- ===== src/Tests/Wire.antt =====
-- A wire format for commands and messages: fields as numbers, strings with their length in front.
use meshtastic_lora_rs.Common.{
  All, ℕ, zero, suc, ◌≡◌, refl, ap, ◌∙◌, List, [], ◌∷◌, ◌++◌, Option, none, some, if◌then◌else◌,
  ◌==◌, length, take, drop,
}
use meshtastic_lora_rs.Common.Result.{Result, ok, err, Str, codes}
use meshtastic_lora_rs.Model
use meshtastic_lora_rs.Model.{
  SimMode, terminal, listen, MsgDir, tx, rx, fwd, system, Command, LogEntry, set_sf, set_signal_db,
  set_noise_db, set_interval_ms, set_mode, set_node_short, set_node_long, set_tx_dest,
  set_uhd_enabled, set_uhd_args, set_uhd_freq_hz, set_uhd_rx_gain_db, set_uhd_tx_gain_db,
  set_auto_tx, set_running, send_text, reset_stats,
}
use meshtastic_lora_rs.ProtoWs.{Snapshot, ServerMsg, snapshot, log_append, error}
use meshtastic_lora_rs.Server.{Json}
use meshtastic_lora_rs.WebClient.{Web}
use meshtastic_lora_rs.WebClient.Relay
use meshtastic_lora_rs.WebClient.Mirror
use meshtastic_lora_rs.Tests.WireCommand.{
  bit, mode_number, mode_at, is_set, is_set-bit, mode_at-number, encode_command, decode_command,
  decode-encode_command,
}
use meshtastic_lora_rs.Tests.Concrete.{toy_ui, take-length, drop-length}

-- A string before a rest.
abbrev put : Str → Str → Str
put s rest = length s ∷ (s ++ rest)

abbrev got : Str → Str
got [] = []
got (n ∷ r) = take n r

abbrev left : Str → Str
left [] = []
left (n ∷ r) = drop n r

abbrev put_all : List Str → Str
put_all [] = []
put_all (s ∷ ss) = 1 ∷ put s (put_all ss)

-- That many strings.
abbrev got_all : ℕ → Str → List Str
got_all zero r = []
got_all (suc n) [] = []
got_all (suc n) (k ∷ r) = got r ∷ got_all n (left r)

got_all-put_all : (ss : List Str) → got_all (length ss) (put_all ss) ≡ ss
got_all-put_all [] = refl
got_all-put_all (s ∷ ss) =
    ap (λ t. t ∷ got_all (length ss) (drop (length s) (s ++ put_all ss)))
      (take-length s (put_all ss))
    ∙ ap (λ r. s ∷ got_all (length ss) r) (drop-length s (put_all ss))
    ∙ ap (λ ts. s ∷ ts) (got_all-put_all ss)

abbrev put_option : Option Str → Str
put_option none = []
put_option (some s) = 1 ∷ s

abbrev got_option : Str → Option Str
got_option [] = none
got_option (n ∷ s) = some s

got-put_option : (o : Option Str) → got_option (put_option o) ≡ o
got-put_option none = refl
got-put_option (some s) = refl

abbrev put_number : Option ℕ → Str
put_number none = []
put_number (some n) = n ∷ []

abbrev got_number : Str → Option ℕ
got_number [] = none
got_number (n ∷ s) = some n

got-put_number : (o : Option ℕ) → got_number (put_number o) ≡ o
got-put_number none = refl
got-put_number (some n) = refl

abbrev dir_number : MsgDir → ℕ
dir_number tx = 0
dir_number rx = 1
dir_number fwd = 2
dir_number system = 3
dir_number Model.error = 4

abbrev dir_at : ℕ → MsgDir
dir_at n =
    if n == 0
    then tx
    else if n == 1
    then rx
    else if n == 2
    then fwd
    else if n == 3
    then system
    else Model.error

dir_at-number : (d : MsgDir) → dir_at (dir_number d) ≡ d
dir_at-number tx = refl
dir_at-number rx = refl
dir_at-number fwd = refl
dir_at-number system = refl
dir_at-number Model.error = refl

abbrev numbers_of : Snapshot toy_ui → Str
numbers_of s =
    bit s.running
    ∷ s.sf
    ∷ s.signal_db
    ∷ s.noise_db
    ∷ s.interval_ms
    ∷ mode_number s.mode
    ∷ s.tx_count
    ∷ s.rx_count
    ∷ bit s.use_uhd
    ∷ s.uhd_freq_hz
    ∷ s.uhd_rx_gain_db
    ∷ s.uhd_tx_gain_db
    ∷ bit s.uhd_loading
    ∷ bit s.auto_tx
    ∷ s.tx_dest
    ∷ []

abbrev strings_of : Snapshot toy_ui → List Str
strings_of s =
    s.node_id_str
    ∷ s.node_short
    ∷ s.node_long
    ∷ s.uhd_args
    ∷ s.spectrum
    ∷ s.waterfall_row
    ∷ put_option s.uhd_warning
    ∷ s.neighbours

abbrev snapshot_of : Str → List Str → Result Str (ServerMsg toy_ui)
snapshot_of
      (run ∷ sf ∷ sig ∷ noise ∷ ms ∷ mode ∷ txs ∷ rxs ∷ uhd ∷ hz ∷ rxg ∷ txg ∷ load ∷ auto ∷ dest
        ∷ [])
      (id ∷ short ∷ long ∷ args ∷ spec ∷ row ∷ warn ∷ near) =
    ok (
      snapshot (record {
        running = is_set run;
        sf = sf;
        signal_db = sig;
        noise_db = noise;
        interval_ms = ms;
        mode = mode_at mode;
        node_id_str = id;
        node_short = short;
        node_long = long;
        neighbours = near;
        tx_count = txs;
        rx_count = rxs;
        use_uhd = is_set uhd;
        uhd_args = args;
        uhd_freq_hz = hz;
        uhd_rx_gain_db = rxg;
        uhd_tx_gain_db = txg;
        uhd_loading = is_set load;
        uhd_warning = got_option warn;
        auto_tx = is_set auto;
        tx_dest = dest;
        spectrum = spec;
        waterfall_row = row;
      }))
snapshot_of _ _ = err (codes "EOF")

snapshot_of-parts :
    (s : Snapshot toy_ui) → snapshot_of (numbers_of s) (strings_of s) ≡ ok (snapshot s)
snapshot_of-parts s = λ i. ok (
    snapshot (record s {
      running = is_set-bit s.running i;
      mode = mode_at-number s.mode i;
      use_uhd = is_set-bit s.use_uhd i;
      uhd_loading = is_set-bit s.uhd_loading i;
      uhd_warning = got-put_option s.uhd_warning i;
      auto_tx = is_set-bit s.auto_tx i;
    }))

abbrev entry_of : Str → List Str → Result Str (ServerMsg toy_ui)
entry_of (dir ∷ self ∷ []) (time ∷ text ∷ id ∷ hops ∷ []) = ok (
    log_append (record {
      time = time;
      dir = dir_at dir;
      text = text;
      from_id = got_number id;
      hops = got_number hops;
      self_origin = is_set self;
    }))
entry_of _ _ = err (codes "EOF")

-- The kind, the numbers with their count, and the strings with theirs.
abbrev message : ℕ → Str → List Str → Str
message kind numbers strings = kind ∷ put numbers (length strings ∷ put_all strings)

abbrev encode_msg : ServerMsg toy_ui → Str
encode_msg (snapshot s) = message 0 (numbers_of s) (strings_of s)
encode_msg (log_append e) =
    message 1 (dir_number e.dir ∷ bit e.self_origin ∷ [])
      (e.time ∷ e.text ∷ put_number e.from_id ∷ put_number e.hops ∷ [])
encode_msg (error e) = 2 ∷ e

abbrev strings_in : Str → List Str
strings_in [] = []
strings_in (n ∷ r) = got_all n r

abbrev decode_msg : Str → Result Str (ServerMsg toy_ui)
decode_msg [] = err (codes "EOF")
decode_msg (kind ∷ r) =
    if kind == 0
    then snapshot_of (got r) (strings_in (left r))
    else if kind == 1
    then entry_of (got r) (strings_in (left r))
    else ok (error r)

got-put : (s r : Str) → got (put s r) ≡ s
got-put s r = take-length s r

left-put : (s r : Str) → left (put s r) ≡ r
left-put s r = drop-length s r

-- Numbers and strings are taken apart as they were put together.
parts :
    (f : Str → List Str → Result Str (ServerMsg toy_ui)) (numbers : Str) (strings : List Str)
    → let r = put numbers (length strings ∷ put_all strings) in
      f (got r) (strings_in (left r)) ≡ f numbers strings
parts f numbers strings =
    let rest = length strings ∷ put_all strings in
    ap (λ n. f n (strings_in (left (put numbers rest)))) (got-put numbers rest)
    ∙ ap (λ l. f numbers (strings_in l)) (left-put numbers rest)
    ∙ ap (f numbers) (got_all-put_all strings)

decode-encode_msg : (msg : ServerMsg toy_ui) → decode_msg (encode_msg msg) ≡ ok msg
decode-encode_msg (snapshot s) =
    parts snapshot_of (numbers_of s) (strings_of s) ∙ snapshot_of-parts s
decode-encode_msg (log_append e) =
    parts entry_of (dir_number e.dir ∷ bit e.self_origin ∷ [])
      (e.time ∷ e.text ∷ put_number e.from_id ∷ put_number e.hops ∷ [])
    ∙ (λ i. ok (
        log_append (record e {
          dir = dir_at-number e.dir i;
          from_id = got-put_number e.from_id i;
          hops = got-put_number e.hops i;
          self_origin = is_set-bit e.self_origin i;
        })))
decode-encode_msg (error e) = refl

abbrev pub wire_json : Json toy_ui
wire_json = record { from_str = decode_command; to_string = λ msg. some (encode_msg msg) }

abbrev pub wire_web : Web toy_ui
wire_web = record { from_str = decode_msg; to_string = λ cmd. some (encode_command cmd) }

pub commands_read :
    (cmds : List (Command toy_ui)) → All (Relay.ReadsBack toy_ui wire_json wire_web) cmds
commands_read [] = tt
commands_read (cmd ∷ cmds) =
    ((encode_command cmd, refl, decode-encode_command cmd), commands_read cmds)

pub message_read : (msg : ServerMsg toy_ui) → Mirror.ReadsBack toy_ui wire_json wire_web msg
message_read msg = (encode_msg msg, refl, decode-encode_msg msg)
