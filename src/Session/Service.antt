-- ===== src/Session/Service.antt =====
-- crates/session-host/src/lib.rs: the service's loop of registration, acceptance and session. The
-- rendezvous server, Iroh and the session are arguments of each cycle; a session changes the guard.
use controlis.Prelude.{
  ◌&&◌, str_eq, str_beq_iff, str_beq, ℕ, ◌≡◌, refl, ap, ◌∙◌, Bool, true, false, Option, none, some,
  List, [], ◌∷◌, ◌++◌, codes, if◌then◌else◌, Result, ok, err, All, arith, ◌==◌, nat_eq, nat_beq_iff,
}
use controlis.Net.{SocketAddrV4}
use controlis.Security.ConnectCode.{ConnectCode, ConnectCodeError, generate, generate_rendezvous}
use controlis.Security.RateLimit.{BruteForceGuard}
use controlis.Rendezvous.{
  UnregisterRequest, EndpointDescriptor, RegisterResponse, RefreshRequest, default_ttl_secs,
}
use controlis.Rendezvous.Client.{ClientError, Http, Json}
use controlis.Rendezvous.Client
use controlis.Session.{HostEvent, code_ready, log, failed}

-- The parts of `InternetHostConfig` that are texts.
pub record InternetConfig : Type 0 where
  pub rendezvous_url : List ℕ
  pub relay_url : List ℕ

-- One turn of the loop: what binding Iroh gives, the numbers drawn, whether the window still
-- listens, what `accept_any` gives (none for the end of the endpoint), and what the session does to
-- the guard, with the events that it sends.
pub record Cycle : Type 0 where
  pub iroh : Result EndpointDescriptor (List ℕ)
  pub drawn_id : ℕ
  pub id_secret : ℕ
  pub lan_secret : ℕ
  pub http : Http
  pub listening : Bool
  pub accepted : Option (Result (Unit {0}) (List ℕ))
  pub session : ConnectCode → BruteForceGuard → BruteForceGuard × List HostEvent

-- A registration, whose refresh task runs until it is aborted.
pub record InternetRegistration : Type 0 where
  pub client : List ℕ
  pub session_id : ℕ
  pub token : List ℕ
  pub code : ConnectCode

-- What the rendezvous server and the host say to each other: a registration that was granted, and a
-- request to undo one, whose answer is not looked at.
pub data Exchange : Type 0 where
  granted : InternetRegistration → Exchange
  unregister_sent : List ℕ → UnregisterRequest → Exchange

-- The codes are those shown, in their order. A registration is in `live` while its refresh task runs.
-- The newest exchange comes first.
pub record Service : Type 0 where
  pub guard : BruteForceGuard
  pub events : List HostEvent
  pub live : List InternetRegistration
  pub exchanges : List Exchange

-- The texts of the errors of the crates.
pub record Texts : Type 0 where
  pub client_error : ClientError → List ℕ
  pub code_error : ConnectCodeError → List ℕ

abbrev pub fallback : List ℕ → HostEvent
fallback reason = log (codes "internet indisponível (" ++ reason ++ codes "); usando código LAN")

-- The request with which `spawn_refresh_task` asks for more time, every half of that time.
abbrev pub refresh_request : InternetRegistration → EndpointDescriptor → RefreshRequest
refresh_request r endpoint = record {
  session_id = r.session_id;
  token = r.token;
  endpoint = endpoint;
  ttl_secs = some default_ttl_secs;
}

module _ (texts : Texts) (json : Json) where
  abbrev fell_back : List ℕ → List ℕ → Option InternetRegistration × List HostEvent
  fell_back what reason = (none, fallback (what ++ reason) ∷ [])

  abbrev answered :
      InternetConfig
      → List ℕ
      → ℕ
      → ConnectCode
      → Result RegisterResponse ClientError
      → Option InternetRegistration × List HostEvent
  answered config client id code (err e) =
      fell_back (codes "registro rendezvous falhou: ") (texts.client_error e)
  answered config client id code (ok response) = (
    some (record { client = client; session_id = id; token = response.token; code = code }),
    log (
          codes "internet ativo: rendezvous "
          ++ config.rendezvous_url
          ++ codes ", relay "
          ++ config.relay_url)
        ∷ [],
  )

  abbrev with_code :
      InternetConfig
      → Http
      → List ℕ
      → EndpointDescriptor
      → ℕ
      → Result ConnectCode ConnectCodeError
      → Option InternetRegistration × List HostEvent
  with_code config http client endpoint id (err e) =
      fell_back (codes "código internet indisponível: ") (texts.code_error e)
  with_code config http client endpoint id (ok code) = answered config client id code (
      Client.register http json client
        (record { session_id = id; endpoint = endpoint; ttl_secs = some default_ttl_secs }))

  abbrev with_iroh :
      InternetConfig
      → Cycle
      → List ℕ
      → Result EndpointDescriptor (List ℕ)
      → Option InternetRegistration × List HostEvent
  with_iroh config c client (err e) = fell_back (codes "transporte Iroh indisponível: ") e
  with_iroh config c client (ok endpoint) =
      with_code config c.http client endpoint c.drawn_id
        (generate_rendezvous c.drawn_id c.id_secret)

  abbrev with_client :
      InternetConfig
      → Cycle
      → Result (List ℕ) ClientError
      → Option InternetRegistration × List HostEvent
  with_client config c (err e) = fell_back (codes "rendezvous inválido: ") (texts.client_error e)
  with_client config c (ok client) = with_iroh config c client c.iroh

  unfoldable pub register_internet :
      Option InternetConfig → Cycle → Option InternetRegistration × List HostEvent
  unfolding generate_rendezvous Client.register Client.new
  register_internet none c = (none, [])
  register_internet (some config) c = with_client config c (Client.new config.rendezvous_url)

  abbrev pub without : ℕ → List InternetRegistration → List InternetRegistration
  without id [] = []
  without id (r ∷ rs) = if r.session_id == id then rs else r ∷ without id rs

  -- The task is aborted and the server is told.
  abbrev unregister_internet : Option InternetRegistration → Service → Service
  unregister_internet none s = s
  unregister_internet (some r) s = record s {
    live = without r.session_id s.live;
    exchanges =
        unregister_sent r.client (record { session_id = r.session_id; token = r.token })
        ∷ s.exchanges;
  }

  abbrev registered : Option InternetRegistration → Service → Service
  registered none s = s
  registered (some r) s = record s { live = r ∷ s.live; exchanges = granted r ∷ s.exchanges }

  abbrev code_of : Option InternetRegistration → SocketAddrV4 → Cycle → ConnectCode
  code_of (some r) advertised c = r.code
  code_of none advertised c = generate advertised c.lan_secret

  abbrev emit : Service → List HostEvent → Service
  emit s events = record s { events = s.events ++ events }

  abbrev in_session : Service → BruteForceGuard × List HostEvent → Service
  in_session s (guard, events) = emit (record s { guard = guard }) events

  -- From `accept_any` to the end of the turn, with whether the loop goes on.
  abbrev accepting :
      Option InternetRegistration
      → ConnectCode
      → Cycle
      → Service
      → Option (Result (Unit {0}) (List ℕ))
      → Service × Bool
  accepting r code c s none = (unregister_internet r s, false)
  accepting r code c s (some (err e)) =
      (unregister_internet r (emit s (failed (codes "accept failed: " ++ e) ∷ [])), true)
  accepting r code c s (some (ok _)) =
      (unregister_internet r (in_session s (c.session code s.guard)), true)

  abbrev announcing :
      Option InternetRegistration → ConnectCode → Cycle → Service → Bool → Service × Bool
  announcing r code c s false = (s, false)
  announcing r code c s true = accepting r code c (emit s (code_ready code.code ∷ [])) c.accepted

  abbrev with_registration :
      SocketAddrV4 → Cycle → Service → Option InternetRegistration × List HostEvent → Service × Bool
  with_registration advertised c s (r, lines) =
      announcing r (code_of r advertised c) c (registered r (emit s lines)) c.listening

  unfoldable pub cycle : Option InternetConfig → SocketAddrV4 → Cycle → Service → Service × Bool
  unfolding register_internet generate
  cycle config advertised c s = with_registration advertised c s (register_internet config c)

  abbrev go_on : Service × Bool → (Service → Service) → Service
  go_on (s, false) more = s
  go_on (s, true) more = more s

  unfoldable pub run : Option InternetConfig → SocketAddrV4 → List Cycle → Service → Service
  unfolding cycle
  run config advertised [] s = s
  run config advertised (c ∷ cs) s =
      go_on (cycle config advertised c s) (λ s. run config advertised cs s)

  -- The registration that a request undoes: on its server, of its session and with its token.
  abbrev undoes : List ℕ → UnregisterRequest → InternetRegistration → Bool
  undoes client q r =
      str_beq r.client client && r.session_id == q.session_id && str_beq r.token q.token

  abbrev undone : List ℕ → UnregisterRequest → List InternetRegistration → List InternetRegistration
  undone client q [] = []
  undone client q (r ∷ rs) = if undoes client q r then rs else r ∷ undone client q rs

  -- The registrations that were granted and not undone.
  abbrev pub outstanding : List Exchange → List InternetRegistration
  outstanding [] = []
  outstanding (granted r ∷ rest) = r ∷ outstanding rest
  outstanding (unregister_sent client q ∷ rest) = undone client q (outstanding rest)

  -- The same refresh tasks, and the same registrations on the server.
  abbrev pub Same : Service → Service → Type 0
  Same s t = (t.live ≡ s.live) × (outstanding t.exchanges ≡ outstanding s.exchanges)

  unregister-Same :
      (r : InternetRegistration) (s t : Service)
      → t.live ≡ r ∷ s.live
      → t.exchanges ≡ granted r ∷ s.exchanges
      → Same s (unregister_internet (some r) t)
  unregister-Same r s t live exchanges = (
    ap (without r.session_id) live ∙ ground (arith, nat_beq_iff r.session_id r.session_id),
    ap
          (λ xs.
            undone r.client (record { session_id = r.session_id; token = r.token })
              (outstanding xs))
          exchanges
        ∙ ground (
          arith,
          nat_beq_iff r.session_id r.session_id,
          str_beq_iff r.client r.client,
          str_beq_iff r.token r.token,
        ),
  )

  -- With the registration of this turn and what came before.
  abbrev With : Option InternetRegistration → Service → Service → Type 0
  With r s t = (t.live ≡ (registered r s).live) × (t.exchanges ≡ (registered r s).exchanges)

  unregister-With :
      (r : Option InternetRegistration) (s t : Service)
      → With r s t
      → Same s (unregister_internet r t)
  unregister-With none s t (live, exchanges) = (live, ap outstanding exchanges)
  unregister-With (some r) s t (live, exchanges) = unregister-Same r s t live exchanges

  accepting-Same :
      (r : Option InternetRegistration) (code : ConnectCode) (c : Cycle) (s t : Service)
      (next : Option (Result (Unit {0}) (List ℕ)))
      → With r s t
      → Same s (accepting r code c t next).0
  accepting-Same r code c s t none h = unregister-With r s t h
  accepting-Same r code c s t (some (err e)) h =
      unregister-With r s (emit t (failed (codes "accept failed: " ++ e) ∷ [])) h
  accepting-Same r code c s t (some (ok x)) h =
      unregister-With r s (in_session t (c.session code t.guard)) h

  registered-With :
      (r : Option InternetRegistration) (s : Service) (lines more : List HostEvent)
      → With r s (emit (registered r (emit s lines)) more)
  registered-With none s lines more = (refl, refl)
  registered-With (some r) s lines more = (refl, refl)

  announcing-Same :
      (r : Option InternetRegistration) (code : ConnectCode) (c : Cycle) (s : Service)
      (lines : List HostEvent) (listening : Bool)
      → listening ≡ true
      → Same s (announcing r code c (registered r (emit s lines)) listening).0
  announcing-Same r code c s lines false h = absurd (cc)
  announcing-Same r code c s lines true h =
      accepting-Same r code c s (emit (registered r (emit s lines)) (code_ready code.code ∷ []))
        c.accepted (registered-With r s lines (code_ready code.code ∷ []))

  cycle-Same :
      (config : Option InternetConfig) (advertised : SocketAddrV4) (c : Cycle) (s : Service)
      → c.listening ≡ true
      → Same s (cycle config advertised c s).0
  unfolding cycle
  cycle-Same config advertised c s h =
      let out = register_internet config c in
      announcing-Same (out.0) (code_of (out.0) advertised c) c s (out.1) c.listening h

  go_on-Same :
      (s : Service) (out : Service × Bool) (more : Service → Service)
      → Same s out.0
      → ((t : Service) → Same t (more t))
      → Same s (go_on out more)
  go_on-Same s (t, false) more h each = h
  go_on-Same s (t, true) more (live, left) each =
      let (live_after, left_after) = each t in (live_after ∙ live, left_after ∙ left)

  -- While the window listens, no registration outlives its turn of the loop: after any turns, whether
  -- sessions ran, acceptances failed or the endpoint ended, no refresh task runs but those that ran
  -- before, and every registration that a server granted has been followed by a request to that
  -- server to undo it, with its session and its token.
  pub run-Same :
      (config : Option InternetConfig) (advertised : SocketAddrV4) (cs : List Cycle) (s : Service)
      → All (λ (c : Cycle). c.listening ≡ true) cs
      → Same s (run config advertised cs s)
  unfolding run
  run-Same config advertised [] s h = (refl, refl)
  run-Same config advertised (c ∷ cs) s (h, more) =
      go_on-Same s (cycle config advertised c s) (λ t. run config advertised cs t)
        (cycle-Same config advertised c s h) (λ t. run-Same config advertised cs t more)

  -- A window that has gone leaves its registration alive: the loop ends without undoing it.
  pub cycle-gone :
      (config : Option InternetConfig) (advertised : SocketAddrV4) (c : Cycle) (s : Service)
      (r : InternetRegistration) (lines : List HostEvent)
      → c.listening ≡ false
      → register_internet config c ≡ (some r, lines)
      → cycle config advertised c s ≡ (
        record s {
          events = s.events ++ lines;
          live = r ∷ s.live;
          exchanges = granted r ∷ s.exchanges;
        },
        false,
      )
  unfolding cycle
  cycle-gone config advertised c s r lines h e =
      ap (with_registration advertised c s) e
      ∙ ap
          (announcing (some r) (code_of (some r) advertised c) c
            (registered (some r) (emit s lines)))
          h
