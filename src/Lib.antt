-- ===== src/Lib.antt =====
-- Naglfar schedules tests on bare machines. Users create objects of the Kubernetes API (a Machine, a
-- TestResourceRequest, its TestResources, a TestClusterTopology that runs on them, a
-- TestWorkload that tests it) and one controller for each kind brings the world in line
-- with them: it reads objects, talks to the Docker daemon of a machine, and writes objects back. All
-- controllers share one object, the Relationship: which resource is bound to which machine, with
-- which cores, memory and disks, which requests are accepted, and which machines a request has
-- locked.
--
-- The files, and the code that they are about:
--   Prelude, Prelude/..   shared names, strings as lists of bytes, maps, outcomes, integers
--   Util, Util/..         pkg/util/slice.go, pkg/util/bytes_size.go, strconv.Atoi and Itoa
--   Ref, Ref/..           pkg/ref/ref.go
--   Machine, Machine/..   api/v1/machine_types.go: Available, Rest, sets of cores (`Machine/Cores`,
--                         `Machine/Rest`)
--   Relationship          api/v1/relationship_types.go
--   Resource, Resource/.. api/v1/testresource_types.go, with the configurations of containers
--   Request               api/v1/testresourcerequest_types.go
--   Scheduler/..          controllers/testresourcerequest_controller.go, tryRequest and what it
--                         calls: `Overflow` is resourceOverflow, `Bind` is tryBindResource, `Select`
--                         groups, sorts and filters, `TryRequest` puts them together
--   Container             pkg/container and TimeIsZero of pkg/docker-util/time.go
--   Topology, Topology/.. api/v1/testclustertopology_types.go, with AllHosts in `Topology/Hosts`
--   Webhook/..            api/v1/testclustertopology_webhook.go: what a new or changed topology may be
--   Tiup, Tiup/..         pkg/tiup/cluster/deploy.go without its remote commands: `Build` is
--                         BuildSpecification, `Changes` compares two clusters, `Nodes` are the nodes
--                         of a scale-in and a scale-out; `Dm` and `Flink` are BuildSpecification of
--                         pkg/tiup/dm/deploy.go and pkg/flink/deploy.go
--   Workload              api/v1/testworkload_types.go
--   Control/..            the controllers: `Calls` the calls they make, `Docker` is pkg/docker-util,
--                         `Relationship` is controllers/relationship_controller.go, `Machine` is
--                         controllers/machine_controller.go, `Request` the rest of
--                         controllers/testresourcerequest_controller.go, `Resource` is
--                         controllers/testresource_controller.go; `System` puts
--                         these four side by side; `Workload` is
--                         controllers/testworkload_controller.go, `Topology` is
--                         controllers/testclustertopology_controller.go with the configuration of
--                         pkg/haproxy/deploy.go in `Topology/Proxy`, and `Tiup` is the cluster
--                         managers of pkg/tiup/cluster/deploy.go and pkg/tiup/dm/deploy.go
--   Examples/..           concrete machines, requests and replies
-- A definition has the name of the function that it models, in snake case.
--
-- How the code is read:
--   * A function that can fail returns an `Outcome`: a value, an error, a panic, or `unfinished`.
--   * A Go map is an association list. `range` visits it in the order of the list, and a statement
--     about all lists is one about all orders. A nil map is `none`: to assign to it panics.
--   * A controller is a program over calls of the API and of Docker (`Control/Effects`). The
--     environment replies to each call as it likes, depending on all calls before, and the log of a
--     run holds every call with its arguments, the newest first. Log messages and recorded events of
--     the API do not count as calls.
--   * Sizes are strings. github.com/docker/go-units, which reads and prints them, is the parameter
--     `Units`; differences of sizes are 64-bit and wrap around. The conversion of a size to a
--     float64 before it is printed is part of the parameter.
--   * What Go leaves open in the scheduler, the order of groups and rand.Shuffle, is the parameter
--     `Choices`.
--
--   * A webhook answers whether it accepts. The order in which it ranges over a map is an argument.
--   * gopkg.in/yaml, net/url and the default values of tiup's specifications are the parameter
--     `SpecLib`. A command on another machine by SSH, the copy of a file and the upload of a
--     configuration are calls, and a command is the text that the code puts together.
--   * A slice that the code compares with reflect.DeepEqual or writes back is an `Option`, whose
--     `none` is the nil slice. The text of an error of a library is left out of messages.
--   * The API returns the object that it is asked for: a controller takes the name and the namespace
--     from the object.
--
-- Fuel: the loop of `Run` in pkg/docker-util/run.go goes on for as long as Docker reports that the
-- container is missing or not started. It runs on fuel and ends `unfinished` without;
-- `Control/Docker/Ends` is about the fuel that it needs. Statements about the controllers are for
-- every amount of fuel.
--
-- Not modelled: clients, flags and start-up; generated code; the libraries behind SSH, YAML and HTTP,
-- and the scripts and the kubectl wrapper, which are I/O; the controller of process chaos, and the
-- webhooks of the other kinds.
pub mod Prelude
pub mod Util
pub mod Ref
pub mod Machine
pub mod Relationship
pub mod Resource
pub mod Request
pub mod Topology
pub mod Webhook
pub mod Tiup
pub mod Workload
pub mod Scheduler
pub mod Control
pub mod Container
pub mod Examples
