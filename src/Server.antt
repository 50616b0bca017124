-- ===== src/Server.antt =====
-- server.cpp: `main`, from the values of the command line to the wired program that its threads run.
use quote_server.Base.{String, ℕ, Bool, Option, none, some, if◌then◌else◌}
use quote_server.ClientService.{ClientService}
use quote_server.ClientService.Loop.{new_client_service}
use quote_server.System.{System, new_system}

-- `po::variables_map`
pub record Options : Type 0 where
  pub help : Bool
  pub bind_address : Option String

-- It returns a code, or serves clients with a market over the feed.
pub data Started (F J : Type 0) : Type 0 where
  exits : ℕ → Started F J
  serves : ClientService → System F J → Started F J

unfoldable pub main : {F J : Type 0} → Options → Started F J
main o = if o.help then exits 0 else elim o.bind_address [
  | none ↦ exits 1
  | some bind_address ↦ serves (new_client_service bind_address) new_system
]
