-- ===== src/Lib.antt =====
-- apigw: a model of the API gateway library and of its load balancing forwarder.
--
-- The program. A gateway (gateway.go, route.go) keeps hosts, routes, plugins, middlewares and
-- NotFound handlers, and puts its routes into a router, which belongs to another library
-- (github.com/xgfone/ship/v4). A request runs through the middlewares into the router, which calls
-- the handler of a route: the plugins of the route around the call of the route's forwarder. The
-- forwarder of forward/lb (forward.go) passes the request to a load balancer, which belongs to
-- another library too (github.com/xgfone/go-loadbalancer), and keeps its endpoints: single backends,
-- with or without a health checker, and groups of backends (backend.go), which several forwarders
-- share and which inform them of every change. forward/lb/backend/qps.go is a backend that limits
-- the requests in progress. The packages in loader and the gateway manager are registries by name.
--
-- The files and the code.
--   Common, Common/*     Booleans, lists and options, the numbers of Go's `int` as integers
--   Dict, Dict/Laws      Go's maps with string keys, as association lists; Dict/Distinct: whose keys
--                        are distinct
--   Types                errors, handlers, middlewares, calls that panic
--   Plugin               plugin.go; Plugin/Sorting: the order of `Plugins.Sort`
--   Route                route.go: `Matcher`, `RoutePlugin`, `Route`; Route/Names: keys and names;
--                        Route/Equality: `Equal`
--   Ship                 the calls of the router library, as a parameter
--   Gateway              gateway.go: the struct `Gateway`, `ExecuteRoute`, `NotFoundHandler`
--     Gateway/Metadata, Settings, Middlewares, Registry
--                        gateway.go: metadata, limits and default hosts, middlewares, plugins
--     Gateway/Executes   gateway.go: how a request passes the middlewares
--     Gateway/Hosts      route.go: `AddHost`, `DelHost`, `GetRoute`; Hosts/Deletion: what is left
--     Gateway/Routes     route.go: `RegisterRoute`, `UnregisterRoute`; Routes/Configs: the plugins'
--                        configurations; Lookups, Removals: what is found afterwards; Success: when
--                        it succeeds;
--                        Returned: the route that is returned;
--                        Valid, Frame, Hosting: what stays true and the same
--     Gateway/WellFormed, Reach
--                        the calls on a gateway as a step relation, and its invariant
--     Gateway/Agreement  the router and the table of routes; Routes/Routing: single calls
--     Gateway/Serving    a request from the gateway through the router to a forwarder
--   Lb                   forward/lb: backends and the load balancers of the forwarders
--     Lb/Group           forward/lb/backend.go: `GroupBackend`; Group/Interface: a group as a
--                        backend; Group/Effects: each call;
--                        Group/Sync and Steps: the calls and the checker's events as a step relation
--     Lb/BackendGroup    forward/lb/backend.go: the interfaces, with what their comments promise;
--                        Group/Contract: `GroupBackend` keeps it
--     Lb/Heap            forwarders and groups by their addresses
--     Lb/Forwarder       forward/lb/forward.go; Forwarder/Effects: each call;
--                        Forwarder/Joining: `AddBackendGroup`; Forwarder/Closing: what `Close` leaves;
--                        Forwarder/Policy: session timeouts and selectors; Forwarder/Race: calls that
--                        come between two locks
--     Lb/Membership      the groups of a forwarder and the updaters of a group; Membership/Reach: the
--                        calls on forwarders, groups and managers as a step relation;
--                        Group/Kept, GroupManager/Members, Forwarder/Members and Joins: single calls
--     Lb/Endpoints       where the endpoints of a load balancer come from; Endpoints/Reach: over the
--                        same steps; Endpoints/Shared: a backend that a group has too;
--                        Group/Accounts, GroupManager/Endpoints, Forwarder/Endpoints: single calls
--     Lb/GroupManager    forward/lb/backend_group_manager.go; GroupManager/Effects: its calls;
--                        GroupManager/Closing: what `Close` leaves
--     Lb/Gateway         forward/lb/gateway.go; Gateway/Managed: each call and the managers;
--                        Gateway/Reach: sequences of calls, and a deletion amid `AddHost`;
--                        Gateway/Deletion: what `DelHost` leaves of the host's groups;
--                        Gateway/Timeouts and Policies: what is set on the forwarder of a route
--     Lb/Request         forward/lb/request.go: session ids
--     Lb/HttpBackend     forward/lb/backend/http.go; HttpBackend/Headers: the header of the reply
--     Lb/Builder         forward/lb/backend/builder.go: a registry
--     Lb/NoopBackend     forward/lb/backend/noop.go
--   Qps                  forward/lb/backend/qps.go; Qps/Threads: requests that interleave;
--                        Qps/Draining: the requests in progress come to an end
--   Registry, Loader     loader/plugin.go, loader/middleware.go, loader/sd.go: registries by name
--   Manager              gateway_manager.go
--   Tests, Tests/*       the operations on concrete inputs
--
-- How the code is modelled. A method is a function from the state to the state and the result, with
-- the method's tests in their order. A call is one step, since a method holds its object's
-- lock while it changes the object, and the step relations order the calls freely; where a call has
-- parts outside the lock, the file says how they are taken; the two atomic operations of the limiting
-- backend are separate steps, and so are the events of a health checker and the call on it that
-- `DelBackendByID` of a group makes after it has released its lock. `AddBackendGroup` and
-- `DelBackendByID` of a forwarder, which take its lock and then the group's, are one step in
-- Lb/Membership/Reach and two in Lb/Forwarder/Race. Where a panic stops a call, its
-- result is an `Outcome`; a request's handler has a `Reply`. A map that `Close` sets to nil is an
-- `Option`: reading and deleting take nil for empty, writing panics. The order in which Go ranges
-- over a map is the order of the association list; the theorems hold for every such list. Go's `int`
-- is an integer without overflow: the lengths, priorities and limits are only compared. The state
-- that handlers and forwarders act on is a type parameter `W`, the values of `interface{}` are `C`,
-- the router is `R`, the load balancer `L`, the health checker `H`. All recursion is on lists, so
-- there is no fuel.
--
-- The load balancers of forwarders, the forwarders and the groups are in a heap, since groups and
-- forwarders share them by pointers. An updater of a group is a `forwardUpdater`, the only one that
-- the code makes.
--
-- The store of the forwarders, groups and managers is a part of the state `W` of the handlers where a
-- gateway closes forwarders and managers; the functions `get` and `set` are that part.
--
-- The order in which `Sort` leaves the plugins is fixed by what `sort.Stable` promises, as
-- Plugin/Sorting shows, so the insertion sort of Plugin stands for it.
--
-- A panic carries no state. Where a forwarder without a value panics in `DelHost` or
-- `UnregisterRoute`, the code has already changed the table and the router, and the model gives
-- only the panic.
--
-- `NewGateway` sets three functions of the router, which are `hooks`. The router that it makes per
-- host, and its `RemoveTrailingSlash`, are in the parameter `ship.default`: theorems that assume
-- `RouterLaws` are about gateways in which no two paths differ only in a trailing slash. The session,
-- the retries and the place of a forwarder's load balancer among the updaters of its checker, which
-- `NewForwarder` sets, are in the parameters of the load balancer; an event of a forwarder's checker
-- is a call of that load balancer.
--
-- Not modelled: the router and the load balancer, which are parameters whose documented behaviour
-- the theorems name where they need it; the logging and the errors of `Close`, which are only logged;
-- the placement of a group in another group, since a group is then an endpoint like any other.
pub mod Common
pub mod Dict
pub mod Gateway
pub mod Lb
pub mod Loader
pub mod Manager
pub mod Plugin
pub mod Qps
pub mod Registry
pub mod Route
pub mod Ship
pub mod Tests
pub mod Types
