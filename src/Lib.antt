-- ===== src/Lib.antt =====
-- A model of parts of the Astro command line (module github.com/astronomer/astro-cli), whose
-- commands call one package per part of the platform. Nine parts are modelled, which share no
-- state; they use the helpers of Prelude, and a test module of each runs the code on concrete
-- inputs.
--
-- Proxy (pkg/proxy/routes.go) is the file of local routes. `Disk` is the file and its temporary
-- copy; `Os` says which system calls fail, and which processes are alive. Proxy/Routes has
-- ReadRoutes, WriteRoutes, PruneStaleRoutes, AddRoute, RemoveRoute, ListRoutes, GetRoute and
-- GetRouteByProject, each a function to its result and the disk; Views and Lookup are about what is
-- found by hostname, Table about the table of routes by hostname that the file stands for, Unique
-- about every sequence of calls, Failure about errors. The calls of one process at a time are
-- modelled, as the file lock orders them. What encoding/json writes, it reads back. Proxy/Hostname
-- has SanitizeLabel (pkg/proxy/hostname.go), on code points; the expression of the source is the
-- loop that it stands for. Proxy/Ports has AllocatePort (pkg/proxy/ports.go), with the random
-- numbers and the outcomes of the attempts to connect as parameters, and its fifty attempts as the
-- fuel of the loop.
--
-- WorkerQueue (cloud/deployment/workerqueue/workerqueue.go) creates, updates and deletes the worker
-- queues of a deployment. Flags, answers to prompts, the deployment and the platform's options are
-- inputs, and the outcome is the request that deployment.Update receives. A request holds pointers
-- to the ids in the slice of queues, which is sorted in place: a pointer is a position (`Slot`),
-- the slice goes with the outcome, and ConvertCreateQueuesToUpdate (cloud/deployment/deployment.go)
-- reads the ids from it. Validate has the validators, Select the choice of machines, node pools and
-- queues, Queues the helpers on lists, Prepare and CreateOrUpdate the command in its order, Delete
-- the other command, Forward what deployment.Update sends for the list to a standard or dedicated
-- deployment. The bounds of a range are whole numbers, as the code converts them before it
-- compares. sort.Slice is an insertion sort that keeps the order of equal names. Strings are folded
-- on ASCII.
--
-- DeploymentFile (cloud/deployment/fromfile/fromfile.go) creates and updates a deployment from a
-- file, whose types are those of cloud/deployment/inspect/inspect.go. Check has
-- checkRequiredFields, with IsValidExecutor of cloud/deployment/deployment.go, Kinds the texts that
-- stand for values of the platform, Queues getQueues and the requests for queues, with the helpers
-- of WorkerQueue, Requests, Create and Update the bodies, Lookup what the file names, Send
-- createOrUpdateDeployment, and Command CreateOrUpdate. Calls has the monad of the calls: every
-- answer of the platform is a function of the history of the calls that change it, and the history
-- comes back behind an error too, with a call that failed. What reads the file (YAML, JSON and
-- addresses), CanCiCdDeploy, HealthPoll and Inspect are parameters, as are the lists of clusters,
-- workspaces and deployments. In Go a standard and a dedicated body are separate types with mostly
-- the same fields, which are one record here. A sort in place of the file's queues has no other
-- reader. Texts are compared and put in upper case on ASCII.
--
-- Env (cloud/env) has environment variables and Airflow variables, connections and metrics exports,
-- and the links of variables to deployments. Objects is objects.go and errors.go, Links and
-- Excludes are link.go, Vars is var.go and airflow_var.go, which mirror one another and are one
-- definition over the kind of the variable, Conns is conn.go and Metrics is metrics.go, whose calls
-- end as those of Vars do. `Platform` is a parameter that answers requests, and NormalizeAPIError
-- (pkg/httputil) is what `normalize` does with an answer; a command returns the calls that change
-- the platform beside its result. The loop of listObjects runs on the hundred pages that the code
-- allows, and where it gives up, the objects that it has read are not part of the error. What an
-- update does on the platform (each list that is sent replaces the old, a list that is left out is
-- emptied, an entry without an override of one kind keeps the one that it had) is documented at
-- echoPreservedFields, and is a hypothesis, as is that an exclusion adds one deployment to the
-- excluded ones and leaves the links. The extra map of a connection is its JSON text, which is
-- passed on as it is. Sends has the updates and the links together. Format is the part of format.go
-- that writes a dotenv file, as code points.
--
-- Variables (cloud/deployment/deployment_variable.go) has what VariableModify sends, from flags,
-- arguments and a file, whose lines are those that bufio.Scanner gives. Texts are code points.
--
-- Container (pkg/container) has the choice between Docker and Podman (Resolve), the wait for Docker
-- (Docker), whose ticks are a list of what each finds, and the lifecycle of the Podman machine
-- (Manager), as steps over the states `W` of a podman that is a parameter; that os.Setenv succeeds
-- is assumed. Manager/Ensures is about EnsureMachine, and Repeat about a second Initialize.
--
-- Fields (cmd/api/fields.go) makes the parameters of a request from its fields. Json has the
-- values, Scan the loop over a field, which is cut into keys and a value, Magic the values of magic
-- fields, Assign the walk down the maps. A map is the list of its entries, and what the source
-- changes in place is put back where it was found, since nothing else refers to it. The standard
-- input and the files are a parameter over the states `W` that reads go through.
--
-- Pagination (cloud/pagination/pagination.go) has Collect and Find over any endpoint, with the
-- hundred pages that the code allows.
--
-- Versions (airflow_versions) has the order of runtime versions (runtime_versions.go), the choice
-- of a runtime tag and of the version of a floating tag (airflow_versions.go). A version is its
-- code points. The comparison of golang.org/x/mod/semver is a parameter, with the laws of an order
-- as hypotheses. A map is the list of its entries in the order in which it is visited, which is
-- any.
--
-- Go's int is an integer without a bound, since the values are counts far below 2 ^ 63. Not
-- modelled: prompts, feedback, tables and other output, requests as such, generated clients,
-- libraries that are only called, and the packages that mainly do these; the client images and
-- Astronomer Certified tags of airflow_versions.
pub mod Prelude
pub mod Container
pub mod DeploymentFile
pub mod Env
pub mod Fields
pub mod Pagination
pub mod Proxy
pub mod Variables
pub mod Versions
pub mod WorkerQueue
