-- ===== src/Lib.antt =====
-- A model of the core of the analytics platform's control panel, and the theorems about it.
--
-- The control panel gives users and apps access to S3 buckets by writing the inline policy
-- "s3-access" of their IAM role. A web request records the access in the database and sends a task
-- to a queue; a worker runs the task, which calls `AWSRole` of controlpanel/api/aws.py, which
-- opens the policy with `S3AccessPolicy`, changes it and puts it.
--
-- Prelude: texts as lists of characters, lists over the native numbers, and the monad of runs with
-- a state and an error.
--
-- Aws: controlpanel/api/aws.py.
-- - Aws/Arn: `arn`, `s3_arn`, `iam_arn`. `lower` is that of ASCII.
-- - Aws/Statement: the tables of actions and BASE_S3_ACCESS_STATEMENT.
-- - Aws/Document: the list of statements of a policy document. The dictionary `self.statements`
--   holds references into that list, the last statement for a Sid; here a Sid is the handle of
--   the last statement that has it, and `update` writes through the handle.
-- - Aws/S3AccessPolicy: the methods of the class for buckets; Load has its constructor, Folders its
--   methods for folders, and the other children are lemmas: Parts on which resources a revocation
--   takes, Resources and Conditions on what each method does to the view of a document (a function
--   from a Sid to resources or to a condition), Sids on documents all of whose statements have a
--   Sid, Narrow, FolderAccess, FolderGrants and FolderPaths on folders.
-- - Aws/Role: the constructor's calls of IAM and the methods of `AWSRole`, over one role; Buckets and
--   Errors have lemmas on the methods for buckets, with Access for what they do to an open document;
--   Folders has the methods for folders, with FolderRevocations on the second of them. Calls has a grant over
--   the calls of IAM with all their errors; Aws/Role is the case in which they fail with NoSuchEntity only.
-- - Aws/Attachments: `attach_policy` and `remove_policy` of `AWSRole`, the calls of IAM being parameters
--   on the list of attached policies.
-- - Aws/ManagedPolicy: `ManagedS3AccessPolicy` and `AWSPolicy`, over one managed policy; Versions has lemmas
--   on saving, Members on the roles it is attached to, Access on grants and revocations for buckets.
-- - Aws/InlinePolicies: the methods of `AWSRole` on inline policies and on the trust policy.
-- - Aws/Bucket: `AWSBucket`; what a bucket is told is data. Creation has lemmas on buckets where no call
--   fails, Retries on a creation that is called again; OneBucket is a store that meets the laws.
-- - Aws/Secrets: `AWSSecretManager`; Laws says what is read after a write.
-- - Aws/LakeFormation: the opt-ins of `AWSLakeFormation`, of one principal; Listing and Laws have lemmas on
--   lists of opt-ins, Invariant those on the methods.
-- - Aws/IdentityStore: `AWSIdentityStore`; Names has the name that an address gives, with the operations
--   of texts being those of ASCII, and Memberships lemmas on users and groups.
--   In these the client of the service is a record of calls on a store, and what the service documents is
--   a record of laws; each has a small store that meets the laws, in a module of tests.
-- - Aws/Samples, Aws/Tests and Aws/ServiceTests: runs, and the theorems at concrete inputs.
--
-- Bounds: "Resource" of a statement is a list or absent (the text "*" of ListUserBuckets is a list of
-- one), and a condition has one operator. The hash of a Sid's suffix is a parameter with 32 digits.
-- A folder path without "/" fails as the source does. Of the errors of IAM's client Aws/Role has only
-- NoSuchEntity, Aws/Role/Calls the others too, and the calls of IAM on one role do not interleave with those of others. Of the loops, only that
-- of Auth0/Paging runs on fuel; the others are structural recursion on lists.
--
-- Tasks: controlpanel/api/tasks/handlers, with controlpanel/api/models/task.py.
-- - Tasks/Status: the rows and `Task.status`, times being seconds.
-- - Tasks/World: the tables that the handlers on access use, the roles by name, and the events sent to
--   browsers; `Task.save`, and a method of `AWSRole` at the role of a name.
-- - Tasks/Handlers: the four handlers of controlpanel/api/tasks/handlers/s3.py that grant and revoke
--   access, and the `run` methods of controlpanel/api/tasks/handlers/base.py. Plan says what a message
--   asks for, as data.
-- - Tasks/Creation: `create_task` of controlpanel/api/tasks/task_base.py for the four tasks on access of
--   controlpanel/api/tasks/s3bucket.py. The id and the time are arguments; the entity is a row of the
--   task's class, so that `_validate` passes.
-- - Tasks/Delivery: lemmas on one delivery of a message and on a second one. Tasks/Access: from a row of
--   the database to the policy of a role. Tasks/Journey: the same from the creation of the task.
-- - Tasks/Deletion: the deletion of the row of a bucket, with controlpanel/api/models/access_to_s3bucket.py: the
--   rows of users and of apps give a task and a message each, those of policies a call of Aws/ManagedPolicy, in
--   this order. The ids of tasks are a function of the tables; where a call fails the tables are rolled back.
-- - Tasks/Buckets: CreateS3Bucket and what it calls, over the tables and S3, the column is_data_warehouse and
--   the creation of folders being parameters. Buckets/Taken has lemmas on a bucket that is there already.
-- - Tasks/Broker: controlpanel/api/message_broker.py, the messages for the queue; a value of JSON is data, and
--   the libraries of JSON and base64 are parameters. Broker/Messages has lemmas on the validation of a message.
-- - Tasks/Tests: runs, and the theorems at concrete inputs.
-- A delivery runs to its end before the next; the handlers that archive buckets, revoke all access and create roles are not modelled.
--
-- Rules: controlpanel/api/rules.py. Rules has the predicates, Rules/Table the permissions as data and
-- what a rule says, Rules/Gates lemmas on all permissions, Rules/Admins lemmas on who passes, and
-- Rules/Tests the instances. `is_authenticated` and `is_superuser` come from the package `rules` and
-- are parameters; the test that a web framework makes before it asks a rule is not modelled.
--
-- Apps: the apps of controlpanel/api/models/app.py and `App` of controlpanel/api/cluster.py.
-- - Apps/Settings: the listing of an app's secrets and variables on GitHub and the names of its keys; the
--   settings are a record, and what GitHub lists is an argument. The order of a set is that of the list that
--   it is made from. Listing has lemmas on the listing, Keys on the names.
-- - Apps/CloudPlatform: `update_cloud_platform_access`, which writes the trust policy and then the inline
--   policy of the app's role.
-- - Apps/AuthSettings: what an app keeps for Auth0 in `app_conf`, a dictionary being an association list;
--   Laws has lemmas on reads after writes.
--
-- Auth0: controlpanel/api/auth0.py.
-- - Auth0/Paging: `get_all`, whose loop runs on fuel; what the API answers is a function of the page.
--   Termination has the fuel that is enough, Pages what is read of an API that serves a list.
-- - Auth0/Connections: `update_client_auth_connections` and `get_client_enabled_connections`, for one client;
--   Enabled has lemmas on which connections a client has. Auth0/Tests has the instances.
--
-- Tools: Tools/Helm is controlpanel/api/helm.py, with what comes of the process as an argument, and
-- Helm/Errors says that every upgrade waits. Tools/Install has `install` and `uninstall` of `ToolDeployment`,
-- where a value of a tool is a text, empty, or another one that stops the installation,
-- Install/Values and Install/Outcome lemmas on these; Tools/Charts has `get_chart_details`.
-- Tools/Deployment has `get_deployment` and `get_status` of `ToolDeployment` in
-- controlpanel/api/cluster.py, over what the Kubernetes API lists; Tools/Tests and Tools/InstallTests have
-- the instances.
--
-- Not modelled: the web front end, the commands, settings, admin and migrations, which are calls of
-- a framework; the rest of the client of Auth0, those of GitHub and Kubernetes; and the other
-- classes of controlpanel/api/aws.py.
mod Prelude
pub mod Aws
pub mod Tasks
pub mod Rules
pub mod Tools
pub mod Apps
pub mod Auth0
