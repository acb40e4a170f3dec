-- ===== src/ServerManager/Stop.antt =====
-- `stop_server`: what a stop leaves of the connections that wait.
use Prim.Native.String.{String}
use infrarust.Common.{◌≡◌, refl, Bool, none, some, arith}
use infrarust.Common.Maps.{lookup, string_key}
use infrarust.ServerManager.State.{ServerState, ProviderStatus, success, from_status}
use infrarust.ServerManager.Service.{
  ServerEntry, Service, put_entry, stop_server, stop_answered, modify_entry, fire_state_change,
  update_state, calls_stop,
}
use infrarust.ServerManager.Monitor.{polled, after_update}
use infrarust.ServerManager.Herd.{lookup-put}

module _ (s : Service) (id : String) (e : ServerEntry) (found : lookup id s.entries ≡ some e) where
  stop_server_lem : stop_server s id ≡ (
    fire_state_change
        (put_entry s id (record e { state = ServerState.stopping }))
        id
        e.state
        ServerState.stopping,
    calls_stop e.state,
  )
  unfolding stop_server
  stop_server_lem = rw (found, stop_server)

  -- While the provider stops the server, it is in state `Stopping`.
  stopping_entry :
      lookup id (stop_server s id).0.entries ≡ some (record e { state = ServerState.stopping })
  unfolding fire_state_change
  stopping_entry =
      rw stop_server_lem (lookup-put id (record e { state = ServerState.stopping }) s.entries)

  modify_entry_lem :
      (t : Service) (u : ServerEntry) (change : ServerEntry → ServerEntry)
      → lookup id t.entries ≡ some u
      → lookup id (modify_entry t id change).entries ≡ some (change u)
  unfolding modify_entry
  modify_entry_lem t u change f = rw (f, modify_entry) (lookup-put id (change u) t.entries)

  stopped_entry :
      lookup id (stop_answered (stop_server s id).0 id e.state success).entries
      ≡ some (record e { state = ServerState.sleeping; last_player_seen = none })
  unfolding stop_answered fire_state_change
  stopped_entry =
      modify_entry_lem (stop_server s id).0 (record e { state = ServerState.stopping })
        (λ u. record u { state = ServerState.sleeping; last_player_seen = none }) stopping_entry

  update_same :
      (t : Service) (u : ServerEntry)
      → lookup id t.entries ≡ some u
      → u.state ≡ ServerState.sleeping
      → update_state t id ProviderStatus.stopped ≡ (t, none)
  unfolding update_state from_status
  update_same t u f p = ground (arith, f, p)

  sent_by_stop : (stop_answered (stop_server s id).0 id e.state success).sent ≡ s.sent
  unfolding stop_answered fire_state_change modify_entry
  sent_by_stop = rw stop_server_lem (ground arith)

  -- A successful stop of a registered server sends nothing to the connections queued at it, and
  -- neither does a poll that then finds it stopped: they stay queued at a sleeping server.
  pub stop_strands_waiters :
      (fast : Bool)
      → ((polled
            (stop_answered (stop_server s id).0 id e.state success)
            id
            ProviderStatus.stopped
            fast).0.sent
          ≡ s.sent)
        × (lookup id
              (polled
                (stop_answered (stop_server s id).0 id e.state success)
                id
                ProviderStatus.stopped
                fast).0.entries
            ≡ some (record e { state = ServerState.sleeping; last_player_seen = none }))
  unfolding polled after_update
  stop_strands_waiters fast =
      rw (update_same (stop_answered (stop_server s id).0 id e.state success) _ stopped_entry refl)
        (sent_by_stop, stopped_entry)
