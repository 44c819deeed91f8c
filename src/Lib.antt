-- ===== src/Lib.antt =====
-- A verification library for v2sp, a proxy node that takes its configuration and its users from a
-- panel. One controller per node asks the panel for the node and its users, starts a proxy core with
-- them, keeps a limiter that each new connection has to pass, and reports traffic and online devices.
--
-- How the parts meet: node/controller.go and node/task.go call the panel client (api/panel), the core
-- (core/interface.go), the limiter (limiter) and the periodic tasks (common/task). The dispatcher of
-- the core finds the limiter by the node's tag and calls CheckLimit; the core counts traffic in
-- common/counter.
--
-- The files, each with the code it models:
--   Prelude, Prelude/*     booleans, lists, int64 and int, strings as bytes, maps: shared helpers
--   Panel                  the types of api/panel/node.go and api/panel/user.go
--   Panel/Routes           the loop over the routes in GetNodeInfo (parse_routes)
--   Panel/Client           New, GetNodeInfo, GetUserList, GetUserAlive, assembleURL, checkResponse
--   Limiter                limiter/limiter.go, limiter/dynamic.go, common/format/user.go: check_limit is
--                          CheckLimit, composed of user_speed, check_device and pick_bucket
--   Limiter/Rules          limiter/rule.go
--   Limiter/Registry       the table of limiters: a *Limiter is a place on a heap, so that the
--                          controller and the dispatcher share one object
--   Counter                common/counter/traffic.go, common/counter/xraytraffic.go
--   Task                   common/task/task.go, the mutex in the state: a call that waits for a lock
--                          which is never released has the outcome blocked. What others do while
--                          checkedExecute or Start has let go of the lock is a parameter; the
--                          controllers' tasks are started with nobody else at them
--   Conf                   the options of conf/node.go, conf/limit.go, conf/cert.go and conf/xray.go
--   Core                   core/interface.go, a record of operations
--   Core/Selector          core/core.go and core/selector.go; Core/Selector/Routing holds what is proved
--   Xray                   AddUsers and DelUsers of core/xray/user.go with the builders of users in
--                          vmess.go, trojan.go and ss.go; Xray/Import and Xray/Removal hold what is
--                          proved
--   Xray/Traffic           GetUserTrafficSlice of core/xray/user.go
--   Xray/Inbound           core/xray/inbound.go; Xray/Inbound/Build composes it, Xray/Inbound/Laws
--   Xray/Dns               core/xray/dns.go
--   Xray/Nodes             AddNode and DelNode of core/xray/node.go, and core/xray/outbound.go;
--                          Xray/Nodes/RoundTrip
--   Sniffers               sniffer.go and fakednssniffer.go of core/xray/app/mydispatcher
--   Dispatcher             the state of default.go there, and userCleanupLoop; Dispatcher/Idle and
--                          Dispatcher/Cleanup hold what is proved of it
--   Dispatcher/Links       linkmanager.go
--   Dispatcher/Admission   getLink and the admission in DispatchLink; Dispatcher/Granted, Linking and
--                          Wrapping hold what is proved of them
--   Dispatcher/Override    shouldOverride, and what its answer changes
--   Dispatcher/Sniffing    cachedReader and sniffer; Dispatcher/Bytes, Dispatcher/Rounds
--   Dispatcher/Routed      routedDispatch
--   Dispatcher/Serve       Dispatch and DispatchLink as a whole; Dispatcher/Rules
--   Node/Controller        node/controller.go and startTasks of node/task.go
--   Node/Monitor           nodeInfoMonitor, SpeedChecker, reportUserTrafficTask; its child modules
--                          hold what is proved of them
--   Node/Users, Node/Report   compareUserList and the online report of node/user.go
--   Node/Cert              requestCert of node/cert.go
--   Node/Lego, Node/LegoUser  node/lego.go: certificates from an ACME server, and the account
--   Node/Set               node/node.go: all nodes, started and closed; Node/Set/Laws
--   Json5                  common/json5/json5.go: prep and consumeComment; Json5/Blanked,
--                          Json5/Blanks and Json5/Lines hold what is proved of them
--   Tests below each part  the theorems at concrete data
--
-- Conventions. An int is an integer without bounds where the code only compares it; int64 arithmetic
-- wraps around (wrap64). A Go string is its bytes. A map is an association list, a sync.Map too: a
-- call of an operation is atomic. The order in which Go passes over a map is the order of the list.
-- A panic and a call that never returns are results of their own. The loops are structural, but for
-- those of Json5, which run on fuel: one more than the length of the text, since each pass moves on by
-- a byte; a loop that runs out of it has no result.
--
-- Not modelled: logging and statistics; HTTP, JSON, files and regular expressions, which are
-- parameters; the command line, the reading of the configuration, the start of xray's own server, and
-- the making of the ACME client and of a self-signed certificate. In the dispatcher, pipes are names:
-- what a wrapped reader or writer does with bytes is not followed, but for those that the sniffing
-- reads ahead. What the reads of a pipe return and how long they take are lists; no fuel is needed.
pub mod Prelude
pub mod Panel
pub mod Limiter
pub mod Counter
pub mod Task
pub mod Conf
pub mod Core
pub mod Node
pub mod Sniffers
pub mod Dispatcher
pub mod Xray
pub mod Json5
