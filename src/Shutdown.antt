-- ===== src/Shutdown.antt =====
-- cmd/tundler-tunnel/shutdown.go: the disconnect that every way out of the process makes. The flag
-- is tested and set under the lock, and the provider is called after it, with a fresh context.
pub mod Once
use tundler.Base.{Bool, true, false, not, ◌&&◌, Text, Option, none, some, if◌then◌else◌}
use tundler.System.{Host, System, Result, ok, err, Done, Action, pure, ◌>>=◌, ◌>>◌, call}

-- `registerShutdownDisconnect`
unfoldable register_shutdown_disconnect : {W : Type 0} → Action W Done
register_shutdown_disconnect s = (ok tt, record s { has_shutdown_prov = true })

-- The part of `gracefulDisconnect` under the lock: whether to go on.
abbrev claim : {W : Type 0} → Action W Bool
claim s =
    let first = s.has_shutdown_prov && not s.shutdown_done in
    (ok first, record s { shutdown_done = if first then true else s.shutdown_done })

-- The part after it; an error of the provider is only logged.
abbrev release_slot : {W : Type 0} → Host W → Bool → Action W Done
release_slot h true = do e ← call h.provider.disconnect; pure tt
release_slot h false = pure tt

-- `gracefulDisconnect`
unfoldable pub graceful_disconnect : {W : Type 0} → Host W → Action W Done
graceful_disconnect h = do first ← claim; release_slot h first
