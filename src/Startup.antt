-- ===== src/Startup.antt =====
-- src/config.rs, src/main.rs, src/server.rs: the process, from its start to the end of the gRPC server.
-- The requests and turns until tonic's `serve` returns, and what it returns, are given from outside.
use Prim.Native.String.{◌++◌}
use load_test_server.Prelude.{◌⊎◌, String, List, [], ◌∷◌}
use load_test_server.Result.{Exec, Result, call, map_err, unwrap, fallible, pure, ◌>>=◌, ◌>>◌}
use load_test_server.Error.{ServerError, internal_error, parse_error_from}
use load_test_server.System.{Event, System, main, run}
use load_test_server.External.Platform.{Platform}

pub record Config : Type 0 where
  pub host : String
  pub port : String
  pub statsd_host : String
  pub statsd_port : String

module _ ⦃P : Platform⦄ where
  open P use {
    World, dotenv, from_env, SocketAddr, parse_addr, TransportError, transport_error_to_string,
  }

  abbrev pub fields : List String
  fields = "host" ∷ "port" ∷ "statsd_host" ∷ "statsd_port" ∷ []

  -- a panic if a variable is missing
  unfoldable pub get_config : Exec World ServerError Config
  get_config = do
    call (λ w. (tt, dotenv w))
    values ← unwrap (fallible (λ w. (from_env fields w, w)))
    pure (record {
      host = values "host";
      port = values "port";
      statsd_host = values "statsd_host";
      statsd_port = values "statsd_port";
    })

  -- what happens until tonic's `serve` returns, and what it returns
  pub record Serving : Type 0 where
    pub events : List Event
    pub ended : TransportError ⊎ Unit {0}

  abbrev transport_error_from : TransportError → ServerError
  transport_error_from e = internal_error (transport_error_to_string e)

  unfoldable pub serve : String → (SocketAddr → Serving) → Exec System ServerError (Unit {0})
  unfolding parse_error_from
  serve addr serving = do
    address ← map_err parse_error_from (fallible (λ s. (parse_addr addr, s)))
    let until = serving address
    map_err transport_error_from (fallible (λ s. (until.ended, run until.events s)))

  abbrev on_server_world : {A : Type 0} → Exec World ServerError A → Exec System ServerError A
  on_server_world m s =
      let (r, w) = m s.server.world in (r, record s { server = record (s.server) { world = w } })

  -- `main`, with the configuration read where it is first used
  unfoldable pub process : (SocketAddr → Serving) → World → Result ServerError (Unit {0}) × System
  unfolding get_config serve
  process serving w =
      (on_server_world get_config >>= λ c. serve (c.host ++ ":" ++ c.port) serving) (main w)
