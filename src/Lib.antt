-- ===== src/Lib.antt =====
-- The cluster deployer: it creates, promotes and deletes deployments of applications on a cluster of
-- machines that fleet runs, behind the yoda proxy, with a record of each deployment in MongoDB.
--
-- How the parts interact. A request starts the Celery task `create` or `delete`
-- (deployer/tasks/deployment.py). It stores the deployment (deployer/services/storage) and sends
-- `_using_lock`, which takes the lock of the application in etcd
-- (deployer/services/distributed_lock.py) and sends the tasks of the deployment with the release of the
-- lock at the end of both their callbacks. These tasks start the deployment, undeploy what the mode
-- asks for, deploy and start units, wait for them, check the nodes, wire the proxy
-- (deployer/services/proxy.py), stop and undeploy the old versions, and mark the deployment as
-- promoted. deployer/util.py has the merge of dictionaries, the parser of intervals and a retry loop
-- that all of them use.
--
-- Which file models which part.
-- - Conf: the constants of conf/appconfig.py that the rest reads. Conf/Defaults: its defaults of a
--   deployment.
-- - Value: the values of documents, as Python dicts and lists; Value/Laws has their laws. Value/Access
--   reads and writes the entries of dicts as Python does, with its exceptions.
-- - Util/Merge (`dict_merge`), Util/Interval (`to_milliseconds`), Util/Retry (`function_retry`),
--   Util/Timeout (`timeout`, in whole seconds): deployer/util.py. Util/Text reads a text as its characters.
-- - Services/Lock: `LockService`. Services/Lock/EtcdClient is what it relies on in etcd.
--   Services/Lock/Holders is a step relation of many processes that apply and release locks, none of
--   which expires.
-- - Services/Storage/Mongo: `MongoStore` of deployer/services/storage/mongo.py and the methods that it
--   inherits from base.py. Services/Storage/Collection is what it relies on in MongoDB, and
--   Services/Storage/Memory a MongoDB of lists that has this. Services/Storage/Mongo/View gives the
--   abstract view of a deployment that the theorems speak of: the fields that filters test, and
--   Services/Storage/Mongo/Stored is about deployments that have an id.
-- - Services/Proxy: deployer/services/proxy.py, as the calls that it makes on the yoda client.
-- - Services/Deployment: deployer/services/deployment.py. Services/Deployment/Ports
--   (`get_exposed_ports`), Services/Deployment/Schedule (`check_and_apply_schedule`),
--   Services/Deployment/Upstreams (the upstreams of `apply_defaults`, `_create_discover_check`),
--   Services/Deployment/Application (the template of the application in it),
--   Services/Deployment/Defaults (`apply_defaults` and the other functions that it uses),
--   Services/Deployment/Clone (`clone_deployment`, and `create_search_parameters` of
--   deployer/tasks/deployment.py). Services/Deployment/Formatting is what they use of Python's texts.
-- - Services/Notify: `massage_config` of deployer/services/util.py.
-- - Tasks/Monad: a run of a task is a function of the world (the store, the cluster, the locks, what was
--   sent) that returns, asks for a retry, or raises. Tasks/Canvas has a constructor for each task that
--   is sent, and for chains, chords and callbacks. Tasks/Platform is the fleet provider, the yoda client
--   and the settings. Tasks/Rules has the case rules for calls that may fail.
-- - Tasks/Start (`_start_deployment`), Tasks/Fleet (`_fleet_deploy`, `_fleet_start`, `_fleet_stop`,
--   `_fleet_undeploy`, `_wait_for_stop`, `_wait_for_undeploy`, `_fleet_check_deploy`), Tasks/Locking
--   (`_using_lock`, `_release_lock`), Tasks/Promote (`_pre_create_undeploy`, `_promote_deployment`,
--   `_promote_success`), Tasks/Create (`create`, `delete`, `_deploy_all`, `_fleet_start_and_wait`),
--   Tasks/Check (`_check_discover`, `_check_deployment`, `_deployment_check_passed`, `_check_node`),
--   Tasks/Failure (`_deployment_error_event`, `_register_upstreams`, and `as_dict` of
--   deployer/tasks/util.py), Tasks/Sync (`sync_promoted_units`, `sync_promoted_upstreams`,
--   `_get_job_lock`, `recover_cluster`, `list_units`, with `sync_units` and `sync_upstreams` of
--   deployer/services/deployment.py), Tasks/Upstreams (`fetch_runtime_upstreams`), Tasks/Exceptions
--   (deployer/tasks/exceptions.py, with the messages and dictionaries of ResourceLockedException and
--   InvalidInterval): the tasks and their exceptions.
-- - Tasks/Runs: the tasks of any number of creates and deletes in every order. Tasks/Runs has the
--   signatures that wait for a worker, which task of a chain, a chord or a signature with callbacks may
--   run next, and the steps of the workers, as Celery documents them; the steps allow more, for
--   signatures may be lost or run again and the cluster, the locks and the store may change between two
--   tasks. Tasks/Runs/Dispatch runs the task of a signature. Tasks/Runs/Facts says what each signature
--   needs to have happened; Orders, Emits, Promotes, Silent, SilentWaits and Kept are about what the
--   tasks send, Remains about what is left of a signature, Past about what the return of a task shows,
--   and Gated about all runs. Held and Exclusive follow the value of a lock, Callbacks and Released its
--   release, and Unreleased what becomes of it where the clean-up after an error fails.
--   Player is a worker that can be executed, and Tests has a whole run of a blue-green deployment.
-- - Tasks/Results: deployer/tasks/util.py and `async_wait` of deployer/tasks/common.py, with
--   `TaskExecutionException`. Services/TaskClient: deployer/services/task_client.py. Both read trees of
--   Celery results, each of which is what one look at them shows.
-- - Tasks/Notification: deployer/tasks/notification.py, as the posts that it makes.
-- - Services/Health: deployer/services/health.py and deployer/views/health.py; Services/Health/Limits has
--   its checks in time, with the decorator of Util/Timeout.
-- - Services/Storage/Mongo/Indexes: `MongoStore.setup`. Services/Storage/Factory:
--   deployer/services/storage/factory.py.
-- - Views/Error: deployer/views/error.py. Views/Task: deployer/views/task.py.
-- - Views/Response and Views/Paging: deployer/views/util.py. Views/Application: the handlers of
--   deployer/views/application.py, each with the task that it sends.
--
-- Choices of the model. A function `f` of deployer/tasks/deployment.py is `f_task`, without the leading
-- underscore. Code outside the repository is a parameter: etcd, MongoDB, fleet, yoda, the clock and the
-- random values of locks. Celery options, the logging and the return values that no task uses
-- are left out. The loop of `function_retry` needs fuel: it calls its function at most as often as
-- the fuel says, and the theorem on a function that succeeds at call k asks for fuel above k. `str` on a
-- number is given as many steps as the number says and one more, which are more than its digits.
-- Python's `str` of a value that is neither a text nor a number, `json.dumps` and `str.format` are parameters too. The
-- exceptions of the fleet library are taken to have no `to_dict`.
--
-- A call of fleet that raises may have changed units before: what it leaves is a parameter as well. A
-- failure of MongoDB itself and a timeout of etcd are not among the answers of their parameters.
-- The task client looks at a result twice: `find_error_task` when the task itself is done, but not those in
-- its result, and the loop of `ready` after each of its waits; the two looks are two arguments, and the
-- wait of `find_error_task` is taken to end in time. `create_task` is `create` after its first
-- statement, on a deployment with the defaults of `apply_defaults`.
--
-- Not modelled: `find_apps`, the routes of the HTTP views, the timeout decorator of the task client, the
-- encryption, and the start of the processes.
pub mod Common
pub mod Conf
pub mod Value
pub mod Util
pub mod Services
pub mod Tasks
pub mod Views
