-- ===== src/Examples/Sessions.antt =====
-- The handshake and the injection of input at concrete inputs.
use controlis.Prelude.{
  ℕ, ◌≡◌, ◌≢◌, refl, true, false, none, some, List, [], ◌∷◌, ◌++◌, map, codes, ok, lookup, retain,
  inl, is_whitespace,
}
use controlis.Protocol.Message.{
  jpeg_tiles, viewer, Hello, hello, auth_request, press, release, shift, enter,
}
use controlis.Security.Code
use controlis.Security.ConnectCode.{
  verify, normalize_from, is_separator, digit_of, position, assemble_lan, lan_payload, from_payload,
  push_chars, separator, digit_at,
}
use controlis.Security.ConnectCode.Verify.{verify_iff}
use controlis.Security.RateLimit
use controlis.Security.RateLimit.{check, expire}
use controlis.Security.RateLimit.Budget.{guess}
use controlis.Session.{World, Peer, Times, approve, granted, authenticate}
use controlis.Session.Authenticate.{Granted, authenticate-granted, authenticate-grants}
use controlis.Session.Handshake.{Agrees, await_outcome-authenticate, authenticate-guess}
use controlis.Session.Viewer.{await_outcome}
use controlis.Session.Injection.{
  InputAction, key_action, move, apply_input, listed, calls_of, spawn_injection,
  spawn_injection-releases,
}
use controlis.Protocol.Message.{pos}
use controlis.Input.Keysym.{present, mapped, to_keysym, to_keysym-to_key}
use controlis.Input.Browser.{map_key, first_arm, parse_u8, to_key-map_key}
use controlis.Input.Coords.{Floats, axis, axis-lt}
use controlis.Session.Control.{Control, Turn, message, Agreed, control_loop, control_loop-Agreed}
use controlis.Protocol.Message.{MonitorInfo, function, select_monitor, mouse_move}
use controlis.Prelude.{arith, min, ◌*◌, ◌/◌, ◌<◌}
use controlis.Input
use controlis.Input.{EnigoInjector, to_key, key, release_all}
use controlis.Input.Enigo
use controlis.Input.Enigo.{Desktop}
use controlis.Input.Held.{recorded, Issued}
use controlis.Examples.Codes.{byte_compare, host_code, host_code-IsCanonical, office}

abbrev greeting : Hello
greeting = record {
  protocol_version = 3;
  app_version = codes "0.1.0";
  role = viewer;
  supported_codecs = jpeg_tiles ∷ [];
}

abbrev peer : Peer
peer = record { label = codes "192.168.0.5"; ip = office; fingerprint = none }

abbrev times : Times
times = record { checked_at = 10; failed_at = 10; accepted_at = 1000 }

abbrev world : List ℕ → World ℕ
world text = record {
  incoming = some (hello greeting) ∷ some (auth_request text) ∷ [];
  sends = [];
  sent = [];
  commands = approve ∷ [];
  events = [];
  guard = RateLimit.new;
}

host_code-verifies : verify byte_compare host_code host_code.code ≡ true
host_code-verifies =
    (verify_iff byte_compare host_code host_code.code host_code-IsCanonical).1
      (inl host_code-IsCanonical)

good_world-Granted :
    Granted byte_compare host_code true peer times (world host_code.code) (jpeg_tiles ∷ [])
unfolding check expire lookup retain
good_world-Granted = record {
  greeting = greeting;
  text = host_code.code;
  rest = [];
  read = refl;
  version = refl;
  offered = refl;
  unblocked = refl;
  verifies = host_code-verifies;
  consent = λ _. ([], refl);
}

good_world-accepted :
    (authenticate byte_compare host_code true peer times (world host_code.code)).1
    ≡ granted (jpeg_tiles ∷ [])
good_world-accepted =
    authenticate-grants byte_compare host_code true peer times (world host_code.code)
      (jpeg_tiles ∷ []) refl good_world-Granted

authenticate-granted_example :
    Granted byte_compare host_code true peer times (world host_code.code) (jpeg_tiles ∷ [])
authenticate-granted_example =
    authenticate-granted byte_compare host_code true peer times (world host_code.code)
      (jpeg_tiles ∷ []) good_world-accepted

authenticate-grants_example :
    (authenticate byte_compare host_code true peer times (world host_code.code)).1
    ≡ granted (jpeg_tiles ∷ [])
authenticate-grants_example =
    authenticate-grants byte_compare host_code true peer times (world host_code.code)
      (jpeg_tiles ∷ []) refl good_world-Granted

await_outcome-authenticate_example :
    Agrees [] (authenticate byte_compare host_code true peer times (world host_code.code)).1 (
      await_outcome (
        map some (authenticate byte_compare host_code true peer times (world host_code.code)).0.sent
        ++ []))
await_outcome-authenticate_example =
    await_outcome-authenticate byte_compare host_code true peer times [] (world host_code.code)
      (refl, refl)

wrong_code : verify byte_compare host_code (codes "?") ≡ false
unfolding verify normalize_from is_separator is_whitespace digit_of position Code.verify_code
    Code.normalize assemble_lan lan_payload from_payload push_chars separator digit_at
wrong_code = refl

authenticate-guess_example :
    (authenticate byte_compare host_code true peer times (world (codes "?"))).0.guard
    ≡ (guess RateLimit.new office 10).0
authenticate-guess_example =
    authenticate-guess byte_compare host_code true peer times (world (codes "?")) greeting
      (codes "?") [] refl refl wrong_code refl

-- A desktop that takes every call.
abbrev desktop : Desktop ℕ
desktop = record { call = λ s c. (s, ok tt) }

abbrev actions : List InputAction
actions = key_action enter press ∷ key_action enter release ∷ move (pos 3) (pos 4) ∷ []

enter-shift : key_action enter release ≢ key_action shift release
enter-shift e = cc

press-release : key_action enter press ≢ key_action shift release
press-release e = cc

move-release : move (pos 3) (pos 4) ≢ key_action shift release
move-release e = cc

spawn_injection-releases_example : Issued (Enigo.key Enigo.shift Enigo.release) (
    calls_of (
      spawn_injection
        (recorded desktop)
        (ok (listed desktop (Input.new desktop 0)))
        (key_action shift press ∷ actions)))
unfolding to_key apply_input key
spawn_injection-releases_example =
    spawn_injection-releases desktop (Input.new desktop 0) shift Enigo.shift actions refl refl
      (press-release, (enter-shift, (move-release, tt)))

to_keysym-to_key_example : present (to_keysym (function 13)) ≡ mapped (to_key (function 13))
to_keysym-to_key_example = to_keysym-to_key (function 13) tt

to_key-map_key_example : mapped (to_key (function 5)) ≡ true
unfolding map_key first_arm parse_u8
to_key-map_key_example = to_key-map_key (codes "F5") (function 5) refl

-- Floats by halves: one is the middle of the axis.
abbrev pub halves : Floats ℕ
halves = record {
  is_nan = λ x. false;
  clamp = λ x. min x 2;
  nought = 0;
  scaled = λ x last. pos (x * last / 2);
}

axis-lt_example : (v : ℕ) × (axis halves 1 1920 ≡ pos v) × (v < 1920)
axis-lt_example = axis-lt halves 1 1920 (omega arith) (omega arith)

abbrev pub screen : ℕ → MonitorInfo
screen id = record {
  id = id;
  name = codes "DP";
  origin_x = pos 0;
  origin_y = pos 0;
  width_px = 1920;
  height_px = 1080;
  is_primary = true;
}

abbrev pub screens : List MonitorInfo
screens = screen 1 ∷ screen 2 ∷ []

abbrev started : Control ℕ
started = record { active = screen 1; active_id = 1; sent = []; inputs = [] }

abbrev pub turns : List (Turn ℕ)
turns =
    message (some (select_monitor 2))
    ∷ message (some (mouse_move 1 1))
    ∷ message (some (select_monitor 9))
    ∷ []

control_loop-Agreed_example :
    Agreed halves pos screens (control_loop halves pos screens started turns).0
control_loop-Agreed_example =
    control_loop-Agreed halves pos screens started turns
      (record { announced = inl refl; followed = refl })
