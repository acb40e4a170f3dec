-- ===== src/ServerManager/State.antt =====
-- infrarust_server_manager: state.rs, provider.rs and error.rs.
use Prim.Native.String.{String}
use infrarust.Common.{ℕ, Bool, true, false}

pub data ServerState : Type 0 where
  online sleeping starting stopping crashed unknown : ServerState

abbrev pub is_joinable : ServerState → Bool
is_joinable online = true
is_joinable _ = false

abbrev pub is_startable : ServerState → Bool
is_startable sleeping = true
is_startable crashed = true
is_startable _ = false

abbrev pub should_wait : ServerState → Bool
should_wait starting = true
should_wait _ = false

-- `==` of the derived `PartialEq`: equality of the constructors' places.
abbrev pub rank : ServerState → ℕ
rank online = 0
rank sleeping = 1
rank starting = 2
rank stopping = 3
rank crashed = 4
rank unknown = 5

pub data ProviderStatus : Type 0 where
  running stopped starting stopping unknown : ProviderStatus

-- `impl From<ProviderStatus> for ServerState`
unfoldable pub from_status : ProviderStatus → ServerState
from_status ProviderStatus.running = ServerState.online
from_status ProviderStatus.stopped = ServerState.sleeping
from_status ProviderStatus.starting = ServerState.starting
from_status ProviderStatus.stopping = ServerState.stopping
from_status ProviderStatus.unknown = ServerState.unknown

-- The errors that the manager makes itself, and `other`, what a provider's own call may return.
pub data ServerManagerError : Type 0 where
  server_not_found : String → ServerManagerError
  invalid_state : String → ServerState → String → ServerManagerError
  start_timeout : String → ℕ → ServerManagerError
  provider : String → String → ServerManagerError
  process_exited : String → ServerManagerError
  other : ServerManagerError

-- `Result<(), ServerManagerError>`
pub data Outcome : Type 0 where
  success : Outcome
  failure : ServerManagerError → Outcome
