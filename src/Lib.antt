-- ===== src/Lib.antt =====
-- forge-proxy is an authenticating reverse proxy in Go: browsers sign in with Slack, the proxy keeps
-- sessions in SQLite and forwards each request to the upstream of its host, with headers that say
-- who the user is; a bastion does the same for SSH. This library models its logic and proves what
-- makes it safe. Paths are from the root of the repository.
--
-- The parts and their files:
--   Proxy.Serve      internal/proxy/proxy.go       ServeHTTP, rewrite, the login redirect, the pages
--   Proxy.Outgoing   internal/proxy/proxy.go       what ReverseProxy takes off before rewrite
--   Proxy.Headers    internal/proxy/headers.go     stripForgeHeaders, injectForgeHeaders, the display name
--   Proxy.Host       internal/proxy/hostmap.go     NewHostMap, Resolve, NormalizeHost, Hosts
--   Config.Upstream  internal/config/config.go     Upstream, Gated, Permits
--   Config.Upstreams internal/config/config.go     parseUpstreams
--   Config.SshUpstreams
--                    internal/config/config.go     parsePortSpec, parseSSHUpstreams
--   Config.Load      internal/config/config.go     Load, getenvDefault, getenvDuration
--   Session          internal/session/store.go     Create, Get, Touch, Delete, DeleteAllForUser, Sweep
--   Session.Cookie   internal/session/cookie.go    Set, Clear, Read
--   Session.Sweeper  internal/session/sweeper.go   Run, tick
--   Db               internal/db/sqlite.go         WithWriteTx
--   User             internal/user/store.go        UpsertFromOIDC, Get, GetBySlackID, Roles, SetRoles
--   User.Search      internal/user/list.go         Search, GetByEmail
--   Auth.ReturnTo    internal/auth/returnto.go     Validate
--   Auth.PreAuth     internal/auth/state.go        the cookie that binds a sign-in to a browser
--   Auth.Login, Auth.Callback, Auth.Account, Auth.Settings
--                    internal/auth/handlers.go     HandleLogin, HandleCallback, HandleMe, HandleLogout
--   Auth.Keyset      internal/auth/oidc.go         NewWithEndpoints, initVerifier, IsReady
--   HttpLog          internal/httplog/middleware.go
--                                                  statusRecorder, ClientIP
--   RateLimit        internal/httplog/ratelimit.go Allow, RateLimitMiddleware
--   Enrollment       internal/sshenroll/token.go   Mint, Peek, Consume
--   Enrollment.Pages internal/sshenroll/handlers.go
--                                                  HandleStart, HandleComplete
--   SshProxy         internal/sshproxy/server.go   the callbacks of a handshake, rolesIntersect, handleConn
--   SshProxy.Registry
--                    internal/sshproxy/sessions.go the live connections, List, the forced closes
--   SshProxy.Listeners
--                    internal/sshproxy/server.go   Run, the accept loops, Shutdown
--   SshProxy.Forward internal/sshproxy/forward.go  Handle, handleChannel, the loops over requests
--   SshProxy.Forward.Channel
--                    internal/sshproxy/forward.go  proxyChannel
--   SshKey           internal/sshkey/store.go      Add, Get, ListByUser, Remove, TouchLastUsed
--   SshCa            internal/sshca/sign.go        Mint
--   SshCa.Key        internal/sshca/ca.go          LoadOrGenerate
--   Admin            cmd/forge-proxy/admin.go      dispatchAdmin and the commands
--   Command.Flags    cmd/forge-proxy/main.go       main, the flags, the file of variables
--   Command.Daemon   cmd/forge-proxy/daemon.go     daemonize, checkExistingPIDFile
--   Command.Life     cmd/forge-proxy/main.go       run, buildSSHSubsystem, setupLogging
--   Command.Ready    cmd/forge-proxy/main.go       healthz, readyzHandler, the dispatcher
-- Base, Strings, Net, Decimal and Clock hold what the program uses of Go: bytes and maps, the strings
-- package, header names, the Cookie header, query and HTML escaping, decimal numbers and times.
--
-- Proxy.Serve takes the stores as an interface, as the source does, and Proxy.Serve.Stores fills it
-- with Session. Auth.Callback takes the user store and the session store as functions of a state, and
-- Auth.Callback.Backed fills them with User.Store and Session. SshProxy.Handshake calls Enrollment to
-- mint a token, Enrollment.Pages redeems it over a key store that is an interface and that SshKey
-- fills, and SshProxy.Handshake.Enrolled composes the three.
-- SshProxy.Forward signs in to the upstream with a certificate of SshCa. Admin works on the tables of
-- User, Session and SshKey. Config.Load composes the two parsers of upstreams.
--
-- State is passed along: a table is a list of rows, a Go map an association list. Each statement of
-- the database can fail, and whether it does is an argument (TxFaults, TouchFaults,
-- UpsertFaults, Faults). A Touch gets the table that its first check sees apart from the one its
-- transaction finds, so other writers may come between. What the mutex of a Go type guards is one step.
--
-- Strings are lists of bytes; lower case and white space are exact on ASCII. Times are nanoseconds
-- from the Unix epoch and do not go below it; durations are not negative, save for those that
-- Config.Load reads, which wrap at 64 bits; ids are positive. A
-- decimal is printed with a fuel of twenty digits, which an int64 never uses up. The rate limiter
-- counts in exact units in place of floats. A map is met in the order of its list.
--
-- proxyChannel is a state machine: its moves are those of its goroutines, which share one lock, and
-- those of the two ends of the connection; any order of moves is a run. The client may stop reading or
-- answering, close its channel or lose the connection. The listeners are another, whose
-- goroutines are Run, Shutdown, the accept loops and the connections. The loop that fetches the keys of
-- the sign-in service runs over a list of rounds, and the life of the server is a list of steps. None of
-- them has fuel: a run is as long as its list, and lists of every length are covered.
--
-- Parameters: the URL parser, the parser of durations, the codec of the pre-auth cookie, the OpenID
-- client, the random source, the clock, the format of a time, the environment, the look at files, the
-- processes, and the SSH library. Not modelled: logging, the fixed text of pages and of messages, the
-- join of paths in the forwarded URL, the refusal of an unprintable Upgrade header, the registration of routes, the settings of the SSH and the HTTP server,
-- the installation as a service, opening and migrating the database.
pub mod Base
pub mod Strings
pub mod Net
pub mod Clock
pub mod Db
pub mod Session
pub mod Config
pub mod Command
pub mod User
pub mod Decimal
pub mod Proxy
pub mod Admin
pub mod Auth
pub mod RateLimit
pub mod HttpLog
pub mod Enrollment
pub mod SshProxy
pub mod SshCa
pub mod SshKey
