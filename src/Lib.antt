-- ===== src/Lib.antt =====
-- FuelMind runs at a fuel station: a launcher keeps one version of the core alive and updates it, and
-- the core keeps the station's data and its accounts.
--
-- - Base: Boolean tests, lists and texts. A text is the list of its code points.
-- - Version: internal/version/version.go, the names and the order of releases and staged rollouts.
-- - Launcher: internal/launcher. Launcher.CrashLoop is crashloop.go; Launcher.Disk is pointer.go,
--   probation.go, rollback.go and switchTo and PruneVersions of supervisor.go over the files of the
--   data folder; Launcher.Supervisor is the loop of Supervisor.Run, one round at a time;
--   Launcher.Bootstrap is bootstrap.go.
-- - Accounts: internal/storage/audit.go and the users and sessions of internal/storage/storage.go;
--   Accounts.Login is internal/auth/auth.go and users.go over them.
-- - Update: internal/update/update.go, the core's side of an update. Update has check and the download,
--   Update.Staging has Stage and extractCore, and Update.Staging.Agent a whole tick, whose hand-over the
--   launcher carries out.
-- - Limits: internal/cloudctl/ratelimit.go, the limit on the messages of one sender.
-- - Phone: internal/phone/phone.go. Questions: internal/messaging/inbound.go, the questions of the
--   owner, whose number it compares by Phone; its windows are those of Limits.
-- - Outbox: internal/storage/messages.go and Drain of internal/messaging/agent.go, the messages that the
--   station sends.
-- - Fleet: internal/cloudctl/cloudctl.go and messages.go. `Server` is the state behind the mutex, and
--   its Go maps are lists with one entry for each key. Fleet/Desk.antt has the queue of questions,
--   Fleet/Webhook.antt the webhook of the gateway; what it does is cut at its wait, and between two
--   looks at the question (`wait_for_answer`) the server handles any list of events (`step`).
--   Fleet/Releases.antt is bestRelease. Handlers are modelled behind their test of the HTTP method,
--   with the JSON decoded; random ids are arguments, `none` where there are no random bytes.
-- - Ledger: the tables of internal/storage/storage.go behind the sales: raw rows, transactions, what is
--   superseded and what cannot be normalized. Ledger/Normalizer.antt is internal/normalizer/normalizer.go;
--   `Float` and `Clock` are the functions of float64 and of the time package that it calls.
-- - Score: internal/mart/score.go, from the counts that its queries return.
-- - Backup: internal/backup/backup.go. os.Stat is an argument. The loop for a free name runs on fuel,
--   one round more than the folder has entries, which is proved to be enough where Stat says of every
--   other name that it does not exist; where it never says so the loop does not end.
-- - Ask: internal/llm/router.go, the answer to a question of the owner. What the word patterns match,
--   float64 and the model are arguments. Ask/Route.antt is Route, Ask/Prompt.antt the prompt, and
--   Ask/Figures.antt finds the figures of a reply and compares them with those of the mart.
-- - Ident: internal/ident/ident.go, station ids and keys. crypto/rand is a numbered series of reads. The
--   loop of 16 rolls counts its tries down.
-- - Relay: internal/relay/relay.go and RecordRemoteQuestion of internal/storage/entry.go. What the
--   control plane is and does, and the answerer, are arguments.
--
-- Times are natural numbers of nanoseconds, passed as arguments. A file of the data folder is missing,
-- cannot be read or parsed, or holds a value; a record of faults says which calls the operating system
-- refuses and what a write that is not a rename leaves behind then.
-- What a child process does in a round (its exit, the changes of the core to the data folder and
-- whether the probation passed while it ran) is an argument of the round. The tables of the database
-- are lists of rows and its calls do not fail. Lower-casing is that of the ASCII letters. All other
-- loops are by recursion on lists.
--
-- SHA-256, PBKDF2, base64 and random bytes are parameters or arguments. Starting processes, the health
-- probe over HTTP, logs, the Windows service and the text of the JSON files are not modelled.
mod Base
pub mod Version
pub mod Launcher
pub mod Accounts
pub mod Update
pub mod Limits
pub mod Phone
pub mod Questions
pub mod Outbox
pub mod Fleet
pub mod Ledger
pub mod Score
pub mod Backup
pub mod Ask
pub mod Ident
pub mod Relay
