-- ===== src/Desktop/Host.antt =====
-- apps/controlis-app/src-tauri/src/commands/host.rs: the commands of the window for the host, the pump
-- of its events and the audit log.
use controlis.Prelude.{
  ℕ, ◌+◌, ◌≡◌, refl, ap, ◌∙◌, Bool, true, false, ◌||◌, Option, none, some, List, [], ◌∷◌, ◌++◌,
  codes, if◌then◌else◌, Result, ok, err, str_beq,
}
use controlis.Rendezvous.Client.{starts_with}
use controlis.Session.{
  HostEvent, code_ready, approval_requested, session_started, session_ended, log, failed,
  HostCommand, approve, decline, stop,
}
use controlis.Session.Service.{InternetConfig}
use controlis.Storage.{ConnectionLog, LogRow, Store, record_connection}

-- `ui_failed` is the variant `Error`.
pub data HostUiEvent : Type 0 where
  ui_code_ready : List ℕ → HostUiEvent
  ui_approval_requested : List ℕ → Option (List ℕ) → HostUiEvent
  ui_session_started : List ℕ → HostUiEvent
  ui_session_ended : List ℕ → HostUiEvent
  ui_log : List ℕ → HostUiEvent
  ui_failed : List ℕ → HostUiEvent
  ui_stopped : HostUiEvent

abbrev pub ui_event : HostEvent → HostUiEvent
ui_event (code_ready code) = ui_code_ready code
ui_event (approval_requested peer fingerprint) = ui_approval_requested peer fingerprint
ui_event (session_started peer) = ui_session_started peer
ui_event (session_ended reason) = ui_session_ended reason
ui_event (log line) = ui_log line
ui_event (failed message) = ui_failed message

-- An event with the answer of the window's channel, the clock, and SQLite's error.
pub record Pumped : Type 0 where
  pub event : HostEvent
  pub delivered : Bool
  pub now : ℕ
  pub fault : Option (List ℕ)

-- `audit`; the store is none if it cannot be opened.
unfoldable pub audit : Pumped → Option Store → List ℕ → Bool → List ℕ → Option Store
unfolding record_connection
audit p none peer accepted detail = none
audit p (some s) peer accepted detail =
    some
      (record_connection p.fault p.now s (record {
        peer_addr = peer;
        peer_fingerprint = none;
        accepted = accepted;
        detail = detail;
      })).0

abbrev or_unknown : Option (List ℕ) → List ℕ
or_unknown none = codes "unknown"
or_unknown (some peer) = peer

abbrev pub is_refusal : List ℕ → Bool
is_refusal line =
    starts_with line (codes "rejected")
    || starts_with line (codes "blocked")
    || starts_with line (codes "declined")

-- The audit of one event, and the peer of the session that runs after it.
unfoldable pub audit_event :
    Pumped → HostEvent → Option Store → Option (List ℕ) → Option Store × Option (List ℕ)
unfolding starts_with audit
audit_event p (session_started peer) s current =
    (audit p s peer true (codes "session started"), some peer)
audit_event p (session_ended reason) s current =
    (audit p s (or_unknown current) false (codes "session ended: " ++ reason), none)
audit_event p (log line) s current =
    (if is_refusal line then audit p s (codes "unknown") false line else s, current)
audit_event p (code_ready code) s current = (s, current)
audit_event p (approval_requested peer fingerprint) s current = (s, current)
audit_event p (failed message) s current = (s, current)

abbrev then_stopped :
    Bool → List HostUiEvent × Option Store → Option Store → List HostUiEvent × Option Store
then_stopped true later s = later
then_stopped false later s = (ui_stopped ∷ [], s)

-- `pump_events`, up to the shutdown or the end of the host.
unfoldable pub pump_events :
    List Pumped → Option Store → Option (List ℕ) → List HostUiEvent × Option Store
unfolding audit_event
pump_events [] s current = (ui_stopped ∷ [], s)
pump_events (p ∷ ps) s current =
    let audited = audit_event p p.event s current in
    let out = then_stopped p.delivered (pump_events ps audited.0 audited.1) audited.0 in
    (ui_event p.event ∷ out.0, out.1)

-- The channel of commands of the host that runs.
pub record RunningHost : Type 0 where
  pub commands : List HostCommand

abbrev pub command_of : List ℕ → Option HostCommand
command_of action =
    if str_beq action (codes "approve")
    then some approve
    else if str_beq action (codes "reject")
    then some decline
    else if str_beq action (codes "stop")
    then some stop
    else none

abbrev commanded :
    Option HostCommand → RunningHost → List ℕ → Option RunningHost × Result (Unit {0}) (List ℕ)
commanded none h action = (some h, err (codes "comando desconhecido: " ++ action))
commanded (some c) h action = (some (record { commands = h.commands ++ (c ∷ []) }), ok tt)

unfoldable pub host_command :
    Option RunningHost → List ℕ → Option RunningHost × Result (Unit {0}) (List ℕ)
host_command none action = (none, err (codes "host não está ativo"))
host_command (some h) action = commanded (command_of action) h action

unfoldable pub internet_config : Option (List ℕ) → Option (List ℕ) → Option InternetConfig
internet_config (some rendezvous_url) (some relay_url) =
    some (record { rendezvous_url = rendezvous_url; relay_url = relay_url })
internet_config _ _ = none

-- The log of the second store has all rows of the first, in their order, behind new ones.
abbrev pub Extends : Option Store → Option Store → Type 0
Extends none t = t ≡ none
Extends (some s) none = ⊥
Extends (some s) (some t) = (rows : List LogRow) × (t.connection_log ≡ rows ++ s.connection_log)

abbrev pub EndsStopped : List HostUiEvent → Type 0
EndsStopped [] = ⊥
EndsStopped (ui_stopped ∷ rest) = rest ≡ []
EndsStopped (_ ∷ rest) = EndsStopped rest

same_log : (s : Option Store) → Extends s s
same_log none = refl
same_log (some s) = ([], refl)

append_assoc : (a b c : List LogRow) → a ++ (b ++ c) ≡ (a ++ b) ++ c
append_assoc [] b c = refl
append_assoc (r ∷ a) b c = ap (λ rest. r ∷ rest) (append_assoc a b c)

Extends_trans : (s t u : Option Store) → Extends s t → Extends t u → Extends s u
Extends_trans none none u a b = b
Extends_trans none (some t) u a b = absurd (cc (a))
Extends_trans (some s) (some t) (some u) (rows, e) (more, h) =
    (more ++ rows, h ∙ ap (λ rest. more ++ rest) e ∙ append_assoc more rows s.connection_log)
Extends_trans (some s) none u a b = absurd a
Extends_trans (some s) (some t) none a b = absurd b

recorded :
    (fault : Option (List ℕ)) (now : ℕ) (s : Store) (entry : ConnectionLog)
    → Extends (some s) (some (record_connection fault now s entry).0)
unfolding record_connection
recorded none now s entry = (record { id = s.last_id + 1; ts = now; entry = entry } ∷ [], refl)
recorded (some e) now s entry = ([], refl)

audit-Extends :
    (p : Pumped) (s : Option Store) (peer : List ℕ) (accepted : Bool) (detail : List ℕ)
    → Extends s (audit p s peer accepted detail)
unfolding audit
audit-Extends p none peer accepted detail = refl
audit-Extends p (some s) peer accepted detail =
    recorded p.fault p.now s
      (record { peer_addr = peer; peer_fingerprint = none; accepted = accepted; detail = detail })

either_Extends : (b : Bool) (s t : Option Store) → Extends s t → Extends s (if b then t else s)
either_Extends true s t e = e
either_Extends false s t e = same_log s

audit_event-Extends :
    (p : Pumped) (e : HostEvent) (s : Option Store) (current : Option (List ℕ))
    → Extends s (audit_event p e s current).0
unfolding audit_event
audit_event-Extends p (session_started peer) s current =
    audit-Extends p s peer true (codes "session started")
audit_event-Extends p (session_ended reason) s current =
    audit-Extends p s (or_unknown current) false (codes "session ended: " ++ reason)
audit_event-Extends p (log line) s current =
    either_Extends (is_refusal line) s (audit p s (codes "unknown") false line)
      (audit-Extends p s (codes "unknown") false line)
audit_event-Extends p (code_ready code) s current = same_log s
audit_event-Extends p (approval_requested peer fingerprint) s current = same_log s
audit_event-Extends p (failed message) s current = same_log s

ended :
    (e : HostEvent) (rest : List HostUiEvent) → EndsStopped rest → EndsStopped (ui_event e ∷ rest)
ended (code_ready code) rest h = h
ended (approval_requested peer fingerprint) rest h = h
ended (session_started peer) rest h = h
ended (session_ended reason) rest h = h
ended (log line) rest h = h
ended (failed message) rest h = h

then_stopped-kept :
    (delivered : Bool) (later : List HostUiEvent × Option Store) (s : Option Store)
    → EndsStopped later.0 × Extends s later.1
    → EndsStopped (then_stopped delivered later s).0 × Extends s (then_stopped delivered later s).1
then_stopped-kept true later s h = h
then_stopped-kept false later s h = (refl, same_log s)

-- However the host's events and the window's channel go, the audit log only grows, no row of it is
-- changed, and the window is told last, and once, that the host has stopped.
pub pump_events-Extends :
    (ps : List Pumped) (s : Option Store) (current : Option (List ℕ))
    → EndsStopped (pump_events ps s current).0 × Extends s (pump_events ps s current).1
unfolding pump_events
pump_events-Extends [] s current = (refl, same_log s)
pump_events-Extends (p ∷ ps) s current =
    let audited = audit_event p p.event s current in
    let (stopped, grown) =
      then_stopped-kept p.delivered (pump_events ps audited.0 audited.1) audited.0
        (pump_events-Extends ps audited.0 audited.1) in
    (
      ended p.event (then_stopped p.delivered (pump_events ps audited.0 audited.1) audited.0).0
          stopped,
      Extends_trans s audited.0
          (then_stopped p.delivered (pump_events ps audited.0 audited.1) audited.0).1
          (audit_event-Extends p p.event s current) grown,
    )
