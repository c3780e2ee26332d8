-- ===== src/Examples/Machine.antt =====
-- The host's session and service, the window's commands and the EIS client at concrete inputs.
use controlis.Prelude.{
  inl, Bool, lookup, insert, ℕ, ◌≡◌, refl, true, false, Option, none, some, List, [], ◌∷◌, ◌++◌,
  arith, codes, Result, ok, err,
}
use controlis.Protocol.Message.{pos, raw_rgba, jpeg_tiles}
use controlis.Security.RateLimit
use controlis.Session.{code_ready, session_started, session_ended, log}
use controlis.Session.Capture.{Linked}
use controlis.Session.Stream.{Machine, stream_and_control, stream_and_control-Linked}
use controlis.Session.Service.{InternetConfig, Cycle, Service, Texts, run, Same, run-Same}
use controlis.Rendezvous.Client.{Http, Json}
use controlis.Desktop.Slot
use controlis.Session.Viewer.Tasks.{ViewerEvent, resized, frame_ready, disconnected}
use controlis.Desktop.Slot.{
  told_all, ui_disconnected, pump_events-disconnected, ViewerSlot, Call, started, connecting,
  disconnect_call, select_call, calls, Accounted, calls-Accounted,
}
use controlis.Desktop.Host.{Pumped, pump_events, EndsStopped, Extends, pump_events-Extends}
use controlis.Codec.Video.{Intra}
use controlis.Storage.{empty}
use controlis.Input.Eis.{
  reverse_keymap, add_syms, motion, key, State, Event, connection_seat, seat_device,
  device_interface, device_done, device_resumed, keymap_loaded, input,
}
use controlis.Input.Eis.Handle.{handle_all}
use controlis.Input.Eis.Flush.{taken, Idle, keys_by}
use controlis.Input.Eis.Order.{heard, handle_all-taken}
use controlis.Examples.Codes.{lan_addr}
use controlis.Examples.Sessions.{screens, halves, turns}
use controlis.Examples.Frames.{stored, no_h264, two_monitors}

abbrev machine : Machine
machine = record {
  capturer = none;
  monitors = ok screens;
  codec_error_text = λ e. codes "codec";
  codec_text = λ c. codes "codec";
}

-- It opens no encoder, and so nothing awaits.
abbrev no_intra : Intra no_h264
no_intra = record {
  awaits = λ e. true;
  stands_alone = λ payload. true;
  awaits-open_encoder = λ fps e opened. refl;
  awaits-force_intra_frame = λ e. refl;
  compress-skipped = λ e pixels w h before skipped. refl;
  compress-alone = λ e pixels w h payload before made some_bytes. refl;
}

stream_and_control-Linked_example :
    Linked no_h264 stored no_intra none 0
      (stream_and_control no_h264 false machine stored halves pos
        (codes "viewer")
        raw_rgba
        30
        (jpeg_tiles ∷ [])
        two_monitors
        turns).media
stream_and_control-Linked_example =
    stream_and_control-Linked no_h264 false machine stored halves pos no_intra (codes "viewer")
      raw_rgba 30 (jpeg_tiles ∷ []) two_monitors turns

-- A rendezvous server that registers every host.
abbrev rendezvous_http : Http
rendezvous_http = record {
  get = λ url. err (codes "offline");
  post = λ url body. ok (record { code = 200; text = some [] });
}

abbrev rendezvous_json : Json
rendezvous_json = record {
  register_json = λ r. [];
  refresh_json = λ r. [];
  unregister_json = λ r. [];
  read_registered = λ r. ok (record { token = codes "token"; expires_at_unix = 1_700_000_120 });
  read_found = λ r. err (codes "no JSON");
}

abbrev texts : Texts
texts = record { client_error = λ e. codes "client"; code_error = λ e. codes "code" }

abbrev internet_host : Option InternetConfig
internet_host =
    some (record { rendezvous_url = codes "https://r"; relay_url = codes "https://relay" })

abbrev one_cycle : Option (Result (Unit {0}) (List ℕ)) → Cycle
one_cycle accepted = record {
  iroh = ok (record { endpoint_id = codes "id"; relay_url = none; direct_addrs = [] });
  drawn_id = 77;
  id_secret = 5;
  lan_secret = 6;
  http = rendezvous_http;
  listening = true;
  accepted = accepted;
  session = λ code guard. (guard, session_started (codes "viewer") ∷ []);
}

abbrev cycles : List Cycle
cycles = one_cycle (some (ok tt)) ∷ one_cycle (some (err (codes "reset"))) ∷ one_cycle none ∷ []

abbrev service : Service
service = record { guard = RateLimit.new; events = []; live = []; exchanges = [] }

run-Same_example :
    Same texts rendezvous_json service
      (run texts rendezvous_json internet_host lan_addr cycles service)
run-Same_example =
    run-Same texts rendezvous_json internet_host lan_addr cycles service (refl, (refl, (refl, tt)))

abbrev same : ℕ → ℕ
same x = x

abbrev no_viewer : ViewerSlot ℕ
no_viewer = record { active = none; next = 0; stopped = []; given = [] }

abbrev window_calls : List (Call ℕ)
window_calls = started ∷ select_call 2 ∷ started ∷ disconnect_call ∷ connecting ∷ started ∷ []

no_viewer-Accounted : Accounted same no_viewer
no_viewer-Accounted n h = absurd (omega (arith, h))

calls-Accounted_example : Accounted same (calls same no_viewer window_calls)
calls-Accounted_example = calls-Accounted same no_viewer window_calls no_viewer-Accounted

abbrev host_events : List Pumped
host_events =
    record { event = code_ready (codes "code"); delivered = true; now = 1; fault = none }
    ∷ record { event = log (codes "rejected: code"); delivered = true; now = 2; fault = none }
    ∷ record {
      event = session_started (codes "viewer");
      delivered = true;
      now = 3;
      fault = some (codes "full");
    }
    ∷ record { event = session_ended (codes "bye"); delivered = true; now = 4; fault = none }
    ∷ []

pump_events-Extends_example :
    EndsStopped (pump_events host_events (some empty) none).0
    × Extends (some empty) (pump_events host_events (some empty) none).1
pump_events-Extends_example = pump_events-Extends host_events (some empty) none

abbrev eis_start : State ℕ
eis_start = record {
  connected = true;
  seats = [];
  devices = [];
  pointer = none;
  keyboard = none;
  keymap = none;
  last_serial = 0;
  sequence = 0;
  running = true;
  pending = [];
  sent = [];
}

abbrev eis_events : List (List (Event ℕ × ℕ))
eis_events =
    ((input (key 97 true), 1) ∷ (connection_seat 1, 2) ∷ (seat_device 1 4, 3) ∷ [])
    ∷ ((device_interface 4 (codes "ei_keyboard"), 4)
        ∷ (device_done 4, 5)
        ∷ (input (motion 3 4), 6)
        ∷ [])
    ∷ ((device_resumed 4 9, 7)
        ∷ (keymap_loaded (some ((46, 97 ∷ []) ∷ [])), 8)
        ∷ (input (key 97 false), 9)
        ∷ [])
    ∷ []

abbrev letters : List (ℕ × ℕ)
letters = (97, 38) ∷ []

letters-loaded : reverse_keymap ((46, 97 ∷ []) ∷ []) [] ≡ letters
unfolding reverse_keymap add_syms lookup insert
letters-loaded = refl

handle_all-taken_example :
    (taken same letters (handle_all same eis_start eis_events)
      ≡ taken same letters eis_start ++ keys_by letters (heard same letters eis_start eis_events))
    × Idle same letters (handle_all same eis_start eis_events)
handle_all-taken_example =
    handle_all-taken same letters eis_start eis_events
      ((tt, (tt, (tt, tt))), ((tt, (tt, (tt, tt))), ((tt, (letters-loaded, (tt, tt))), tt)))
      ((λ e. refl), inl refl)

abbrev viewer_events : List (ViewerEvent × Bool)
viewer_events = (resized 1920 1080, true) ∷ (frame_ready, true) ∷ []

pump_events-disconnected_example :
    Slot.pump_events (viewer_events ++ ((disconnected (codes "bye"), true) ∷ viewer_events))
    ≡ told_all viewer_events ++ (ui_disconnected (codes "bye") ∷ [])
pump_events-disconnected_example =
    pump_events-disconnected viewer_events viewer_events (codes "bye") true (refl, (refl, tt))
