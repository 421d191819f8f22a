-- ===== src/Lib.antt =====
-- tundler: the control of a VPN tunnel pod (cmd/tundler-tunnel), the CONNECT proxy in it
-- (internal/proxy/proxy.go), the impersonating fetch proxy beside it, eleven of the VPN providers'
-- plugins behind their contract (internal/provider), and the job that prints the catalog of one of
-- them (cmd/proton-updater).
--
-- The pod holds one tunnel of one provider. At the boot it logs in and connects (Boot.antt, the
-- loops of connect.go). Afterwards a rotation (Rotator.antt, rotator.go) drains the proxy
-- (Drain.antt, drain.go), disconnects and connects to another location (Connect/Retry.antt,
-- connectWithRetry), by a timer (Rotator/Schedule.antt) or by POST /rotate (Server.antt,
-- server.go). The watchdog (Watchdog.antt, main.go) reconnects when the dials of the proxy fail
-- (Proxy/Health.antt); the wedge guard (WedgeGuard.antt, main.go) and the recycler
-- (Recycler.antt, recycler.go) end the process, through the disconnect of Shutdown.antt
-- (shutdown.go). All of them change the state tracker (State.antt, state.go), which /readyz and
-- /status report.
--
-- How the files correspond to the code:
--   Base          Boolean tests, lists over the native numbers, text as lists of ASCII codes, and the
--                 decimal digits of a number in Decimal
--   Timing        the backoffs and random waits of connect.go, rotator.go, jitter.go, recycler.go
--   State         state.go: StateTracker and its methods, Snapshot
--   Location      location.go: pickLocation, parseExcludedLocations
--   Provider      internal/provider/interface.go, and locations_cache.go in Provider/Locations;
--                 Machine is what a plugin runs on, Pia is internal/provider/pia/pia.go with
--                 monitor.go in Pia/Monitor, OpenVpn what the plugins that run openvpn share, Ovpn is
--                 internal/provider/ovpn/ovpn.go, Proton internal/provider/protonvpn/protonvpn.go
--                 with openvpn_config.go in Proton/Config, Express
--                 internal/provider/expressvpn/expressvpn.go. Direct is the code that the plugins
--                 CyberGhost, IpVanish and FastVpn have each in a copy, their own files are
--                 cyberghost.go, ipvanish.go and fastvpn.go with FastVpn/Warp, OvpnFiles what is
--                 read from and written to files of openvpn, Pods the ordinal of a pod; WireGuard
--                 is the code that Mullvad (mullvad.go) and Surfshark (surfshark.go) share; VeePn is
--                 veepn.go and Windscribe windscribe.go
--   Updater       cmd/proton-updater/main.go, and mergeLogicals of api.go; Session is the rest of
--                 api.go and the refresh, Session/Login the login
--   Egress        egress.go: the probe of the exit IP and its contract
--   Proxy         internal/proxy/proxy.go: Server; Request is parseConnect, Response the replies,
--                 Handle the handler of a connection, Limits any number of connections at once;
--                 Impersonate is impersonate_server.go, and Impersonate/Transport impersonate.go and
--                 impersonate_transport.go
--   System        the process as the control code sees it, and the monad of that code
--   Connect       connect.go: ensureLoggedIn, connectTunnel; Retry is connectWithRetry, Relogin
--                 the throttle of the logins under interleaving
--   Boot          connect.go: loginInitialWithRetry, connectInitialWithRetry
--   Drain         drain.go; Shutdown is shutdown.go; Rotator is rotator.go; Recycler recycler.go
--   Server        server.go: the handlers; Watchdog and WedgeGuard are the loops of main.go
--   Config        main.go: getEnvInt, the rotation window; locations_cache.go: the lifetime
--   Notifier      internal/notifier/notifier.go: Private is what an event may carry, Setup FromEnv
--   Exec          internal/shared/exec.go: the captured output, RunCmd, withNetNS, FirstIPv4; version.go
--   Tests         the theorems at concrete inputs
--
-- An operation of a goroutine is a function on the process (System) that passes the world outside
-- along: what the code calls there (the provider, the clock, the random source, HTTP, the waits)
-- is the record Host, an argument of every definition. Errors are values of System.Result. A
-- goroutine's loop runs on a list of what wakes it up, with what the others do in between. The
-- handlers of the proxy, and the goroutines that race for a login, are interleaved step by step.
--
-- Fuel: the poll of a drain takes one unit for each tick up to its deadline, a boot loop one for
-- each attempt, so that fuel above a measure of the outage is enough, and the loop over the headers
-- of a request one for each line, so that the length of the text is enough. Connect of the plugin
-- for Private Internet Access takes one for each poll, and 241 are enough for its minute; that of the
-- plugin for ExpressVPN one for each poll, to the one after which the context of its window ended.
--
-- Some theorems run the code on a host or a machine that keeps a record of its calls: the calls of
-- the provider (Connect/Retry/Trace), the handshakes and requests of the transport
-- (Proxy/Impersonate/Transport/Owned), the network interface of WireGuard
-- (Provider/WireGuard/Collision), the starts of openvpn (Provider/FastVpn/Diverted) and the rule of
-- the main table (Provider/FastVpn/Warp/Stuck). While that rule is there the machine answers the
-- probe of WARP by the main table, with warp=off; in all else they are the host and the machine
-- that is given.
--
-- Numbers are natural numbers: times and durations in nanoseconds, counters modulo 2 ^ 64, and an
-- int64 that can overflow as its bit pattern. Text is ASCII.
--
-- Not modelled: the plugins for NordVPN, PureVPN, Psiphon, TunnelBear and WARP, the flags of the
-- updater, TLS and HTTP/2, the ticker of the event notifier, the start of child processes, sockets
-- and the copying of bytes, the HTTP servers and JSON, log lines, the rest of main, and the
-- timeouts of contexts, which belong to the calls that get them.
pub mod Base
pub mod Timing
pub mod State
pub mod Location
pub mod Proxy
pub mod Provider
pub mod Egress
pub mod System
pub mod Connect
pub mod Drain
pub mod Shutdown
pub mod Server
pub mod WedgeGuard
pub mod Tests
pub mod Watchdog
pub mod Recycler
pub mod Boot
pub mod Exec
pub mod Notifier
pub mod Config
pub mod Rotator
pub mod Updater
