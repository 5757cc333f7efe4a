-- ===== src/Lib.antt =====
-- Wolnut: the monitor of a UPS that shuts devices down in an outage and wakes them afterwards.
--
-- The program is Python, under wolnut/. `main` of wolnut/cli.py runs one loop: it reloads the
-- configuration when its file changes, asks NUT for the status of the UPS, pings the clients, and acts on
-- the power status. On battery it opens an outage in the tracker of wolnut/state.py and lets the
-- coordinator of wolnut/shutdown.py send shutdown requests to the paired agents through
-- wolnut/agent_client.py; with power back it waits for the battery and for a delay and sends wake packets
-- until the clients are back or the time is over; else it is idle. Each round ends with the poll of
-- wolnut/agent_updates.py and the save of the tracker. Notices go to wolnut/notifications.py.
-- In a thread of its own the server of wolnut/web.py shows and edits the configuration, pairs clients with
-- agents, by a pairing code or by a one-time token of wolnut/enrollment.py, and sends requests to the
-- agents by hand; the two threads meet in the files of the configuration and of the state.
--
-- The files:
--   * Common: text, Python's dictionaries as association lists, decoded JSON values, Boolean tests.
--   * Config: the dataclasses of wolnut/config.py; Config/Validate and Config/Clients have
--     `validate_config` and `validate_mac_format` of wolnut/utils.py, Config/Limits and
--     Config/Accepted the proofs.
--   * State: `ClientStateTracker` of wolnut/state.py, one definition per method. State/Load has
--     `__init__` and `_load_state`, State/Save has `save_state`; State/Delivery, State/Outage,
--     State/Clients, State/Updates, State/Invariant and State/Writes prove what the methods do.
--   * Agent: the identity files, `_request`, `status` and the body of `shutdown` of
--     wolnut/agent_client.py; Agent/Identity is about whom a request reaches. Agent/Pairing has
--     `normalize_fingerprint`, `_pinned_post` and `pair`, Agent/Pinned the proof.
--   * Notifications: `NotificationService` of wolnut/notifications.py; Notifications/Delivery has its proof.
--   * Effects: what the monitor does to the world, as a list in order.
--   * Shutdown: Shutdown/Snapshot has `parse_ups_snapshot`, Shutdown/Coordinator has
--     `process_on_battery`; Shutdown/Steps has the induction over its loop, which Shutdown/Requests,
--     Shutdown/Outcomes and Shutdown/Total use; Shutdown/Answers is about one client's step and
--     Shutdown/Readings about the snapshots, with Shutdown/Words about the words of a status.
--   * Enrollment: the records and the file of `EnrollmentStore` of wolnut/enrollment.py; Enrollment/Store
--     has its operations, Enrollment/Tokens, Enrollment/Sessions and Enrollment/Results the proofs.
--   * Ups: `_build_ups_target`, `_clean_upsc_error` and `get_ups_status_detailed` of wolnut/monitor.py;
--     Ups/Failures has its proof. A round takes the status that they return.
--   * Loop: the local variables of `main` and one round as a function of them and of a `Poll`, all that
--     the round reads from the world. Loop/Wake, Loop/Power, Loop/Updates and Loop/Round follow the code
--     from the inside out; Loop/Complete, Loop/Safe, Loop/Waking, Loop/Due, Loop/Quiet and Loop/Faults
--     have the proofs.
--   * Web: wolnut/web.py and wolnut/config_store.py. A handler is a function from the files of the server
--     to what it returns or raises, the files after it, and what it did. Web/Store has `ConfigStore`,
--     Web/Access and Web/Urls say who may call what, Web/Defaults has `_read_config_or_default`,
--     Web/Clients the lookup and the edit of a client, Web/Results `_record_agent_result`; Web/Agents,
--     Web/Agents/Pairing and Web/Agents/Enroll have the handlers for agents, Web/Settings and
--     Web/Settings/Save `put_config`. Web/Rules and Web/Returned have one rule for each way to build a
--     handler; Web/Requests puts the handlers together and, with Web/Agents/Outcomes,
--     Web/Agents/Enrolled, Web/Settings/Saved, Web/Results/Entry, Web/Results/Frame,
--     Web/Clients/Edit and Web/Access/Login, has the proofs.
--     Web/Pollers has one round of `_agent_auto_update_poller` and one of `_agent_version_poller`;
--     Web/Pollers/Asked, with Web/Pollers/Done and Web/Pollers/Targets, proves whom the first asks,
--     and Web/Pollers/Polled whom the second asks.
--   * Examples: one client and one outage, and one server, on which the theorems are tried.
--
-- How the code is read. A method that mutates the tracker takes it and returns it; what a client's entry
-- holds is read anew by name, as the code does. A clock reading is a number of microseconds, each one a
-- field of its own, so no two readings are assumed equal or ordered. Pings, network exchanges, file
-- operations and random ids are arguments of the same kind. An exception is the error of a `Result`.
-- Counts, percentages and ports of the configuration are natural numbers. The loops run over lists, and
-- the endless loop is one round at a time; the only fuel is that of `show`, the decimal text of n, which
-- has at most n + 1 digits.
--
-- Parameters, for code of others: `round_float` is round(float(s)); `dumps` and `md5` are json.dumps
-- and the digest; `str_value` and `int_value` are str and int of a decoded value that is no text;
-- `token_hash` is the SHA-256 of a token; `issue` is the certificate that the controller signs;
-- `is_alnum` is str.isalnum beyond ASCII; an `Exchange` is what TLS and HTTP answered or raised; `encode`
-- and `decode` are PyJWT, `split` is urlsplit, `resolve` finds a MAC address.
--
-- Not modelled: logging; the loading of the configuration file (a round takes what `load_config`
-- gave); the keys and certificates that the controller makes, which `sign_agent_csr` is assumed to
-- read; the handlers of wolnut/web.py that only read, the poll of the newest version, and pydantic's
-- checks of what is submitted; webui/; the agent of agent/, which is Go. A configuration that holds a
-- client's name or an agent's id that is no text, which `validate_config` admits nowhere, makes the
-- handlers raise at once here.
pub mod Common
pub mod Config
pub mod State
pub mod Agent
pub mod Notifications
pub mod Effects
pub mod Shutdown
pub mod Loop
pub mod Enrollment
pub mod Ups
pub mod Web
pub mod Examples
