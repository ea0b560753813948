-- ===== src/Lib.antt =====
-- Verification of the PR demos controller: a service that deploys pull requests of registered
-- repositories into Kubernetes for a while and routes their host names to them.
--
-- The parts of the program and how they meet:
--   * A workflow sends a signed request (src/demo_controller/auth.py authenticates it, models.py
--     validates it, api.py authorizes it), and the request writes the desired state of one demo
--     into a SQLite table (store.py).
--   * A loop (reconciler.py) reads the table and, for each demo, deletes what is not wanted any
--     more, or asks Vault for the project's configuration, renders the Kubernetes objects and
--     applies them (kubernetes.py), and writes what it found back into the table.
--   * The proxy looks up in the table which demo has the host name of a visitor's request.
--   * naming.py names the objects, the labels and the hosts.
--   * The workflows' client (.github/scripts/demo_api.py) signs the requests and waits for the demo
--     to be up or gone; the operator (charm/src) writes the environment of the controller, which
--     settings.py reads and main.py hands to the parts, publishes its NodePort to the ingress and
--     reports what the controller says of itself.
--
-- Which file models which part (paths are those of the repository):
--   * Base: texts as lists of code points, numbers in decimal, `int(text)`, UTF-8, Base64, results
--     and lists, for what the program calls of Python. `lower` is exact where its result is in
--     Latin-1, and leaves any other character as it is; the patterns and the texts that it is compared
--     with are of ASCII or come from HTTP headers. `upper` is exact on ASCII.
--   * Regex: regular expressions with `fullmatch` by derivatives, and their languages.
--   * Hashes: SHA-256 and HMAC, parameters of which only the shape of a digest is known.
--   * Naming (src/demo_controller/naming.py): resource_name, hostname, repository_labels.
--   * Models (src/demo_controller/models.py): the patterns, DeployRequest, DestroyRequest and, in
--     Models/Config, ResourceValues and ProjectConfig. The validators return `none` where pydantic
--     raises a ValidationError.
--   * Store (src/demo_controller/store.py): the two tables as lists of rows, a function for each
--     method of the class. Store/Rows has the SQL statements by key, Store/Fields the methods that
--     read, update or drop a row. A method takes the reading of the clock as an argument.
--   * Http, Auth (src/demo_controller/auth.py): a request, and Authenticator with its state: the
--     deques of the rate limit beside the store.
--   * Kubernetes (src/demo_controller/kubernetes.py): the objects that are rendered, apply and
--     delete. The API client is the parameter Cluster: an abstract state with a function for each
--     call, which returns a reply or a fault beside the new state.
--   * Reconciler (src/demo_controller/reconciler.py): reconcile, one pass over one demo. Its
--     parameters are the Vault client's answer, the cluster, the clock's readings, and what other
--     handlers do to the store while the pass waits at an `await`. Reconciler/Loop has the rounds of
--     run.
--   * Program: the handlers that write to a table (deploy, destroy, and the status, which spends a
--     nonce) and the loop on one database, with the requests that are served while a pass waits.
--   * Vault (src/demo_controller/vault.py): _request, which sends one request and may send it again,
--     over a parameter for the HTTP client; Vault/Client has the fields, the headers and the errors,
--     Vault/Token _ensure_token and _set_token, Vault/Lookup the lookup of a project.
--   * Api (src/demo_controller/api.py): the handlers of the requests and the middleware that
--     bounds their bodies; Api/Status has readyz and statusz, Api/Proxy the proxy up to the
--     request that it sends, Api/Response what it makes of the answer, and Api/Visit both around
--     the client. What a body says as JSON is given by two parameters of the record Service.
--   * Settings (src/demo_controller/settings.py): from_env; Settings/App what build_app of main.py
--     gives each part.
--   * Workflow (.github/scripts/demo_api.py): request, find_value and write_github_output;
--     Workflow/Polling has poll, Workflow/Main main, and Workflow/Run what it does behind the POST.
--     The clock, the network and the sleep are parameters.
--   * Charm: Charm/Logs (charm/src/demo_logs.py) chooses a pod and gathers its logs, Charm/Adapter
--     (charm/src/kubernetes.py) keeps and removes the NodePort Service over a parameter for
--     lightkube's client, and of charm/src/charm.py Charm/Environment has _environment, Charm/Status
--     what the unit makes of the controller's diagnostics, Charm/Unit the handlers of the events and,
--     in Charm/Unit/Handlers, the removal and the actions.
--   * Tests: concrete values, and each theorem with hypotheses at some of them.
--
-- Bounds and fuel: the wait of the workflow's client runs on fuel, one step for each unit of its
-- timeout and one more, which is enough since each round sleeps for at least one unit. The digits of
-- a number run on fuel, which is the number itself, since each division by ten makes it smaller. No
-- other function runs on fuel: loops over tables, deques and texts are structural recursion, and
-- regular expressions match by recursion on the text.
--
-- Exceptions of libraries that the program does not catch: the proxy's client may raise one while a
-- request is built or sent (status 500), and the workflow's client while a response is read (a
-- traceback, and the exit status 1). A path that the workflow's client signs arrives decoded by the
-- server, by a parameter of Workflow/Signing.
--
-- Not modelled: the wait between two rounds of the reconciler, the start of the server, the locks of
-- the Vault client and the close of a client that is replaced; the parsing of the workflow's command
-- line and its files; the websocket of the logs, and Juju and Pebble themselves, whose answers are arguments.
-- Numbers from Kubernetes are naturals, those of JSON their texts. A log line has no model.
pub mod Base
pub mod Hashes
pub mod Regex
pub mod Naming
pub mod Models
pub mod Store
pub mod Http
pub mod Auth
pub mod Kubernetes
pub mod Reconciler
pub mod Vault
pub mod Api
pub mod Tests
pub mod Program
pub mod Workflow
pub mod Settings
pub mod Charm
