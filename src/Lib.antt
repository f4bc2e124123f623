-- ===== src/Lib.antt =====
-- The email triage system: a user's messages are listed by a scan, classified by rules, and labelled
-- in the mailbox.
--
-- The API server (internal/api) creates a scan run and spawns a job. The job walks a source of
-- messages (internal/reader, over internal/gmail) and publishes one event for each message on the raw
-- queue (internal/broker). The classifier worker (internal/consumer) reads it, loads the user's rules
-- (internal/storage), classifies (internal/classifier), stores a row, and in apply mode publishes an
-- event on the classified queue. The label worker reads that one, labels the message in the mailbox
-- and marks the row as applied.
--
-- Common: names of the libraries, Boolean tests, lists, and Go's 64-bit integers.
-- Text: what is used of strings, fmt and strconv. The case tables beyond ASCII and net/mail's address
--   grammar are the parameter GoLib.
-- Rules, Reader, Models, Events: the records of internal/rules, internal/reader/message.go,
--   internal/storage/models and internal/broker/events.go. Confidences are in hundredths, and times are
--   readings of a clock. encoding/json is the parameter Codec.
-- Classifier: internal/classifier/classifier.go, function by function; its children are about
--   what Classify chooses (Ranking, Choice, Precedence), which rules match (Matching), how scores
--   compare (Scores, Priority), and the parts of a message (Parts).
-- World: the state that the components share (tables, two queues, the requests that changed the
--   mailbox), calls that the environment may refuse or whose answer it may lose, and error results.
--   World.Keeps has the rules for invariants, World.Runs the laws of successful runs.
-- Storage: the SQL statements of internal/storage as functions on the tables. Storage.View has the
--   statements on email_messages as operations on a map.
-- Broker, Gmail: internal/broker/rabbitmq.go and internal/gmail/client.go as operations on the state;
--   the answers of the Gmail API are fields of Env. Broker.Connection opens, uses and closes the
--   connection to an AMQP server of which any request may fail.
-- Reader.Source: internal/reader/source.go and mock_reader.go. The page loop takes fuel, one unit for
--   each page, and fails with out_of_fuel when that is spent; the number of
--   pages is the API's, so the fuel is an argument of the scan and no bound is chosen. Listed says
--   what a source can list, and Walk what the walk keeps.
--   Pages is about the end of the walk.
-- Consumer: processRawEmail, processClassifiedEmail and the two handleDelivery functions of
--   internal/consumer. Consumer.Run is Run of the classifier worker over a sequence of signals, and
--   Consumer.Pool that of the label worker: its goroutines and its select as steps in any order.
-- Auth: internal/auth. Tokens is jwt.go, Telegram is telegram.go; hashes, base64 and JSON are the
--   parameter Crypto. A byte string is a text with one character for each byte.
-- Login: internal/api/auth.go. Router: internal/auth/middleware.go and internal/api/router.go; which
--   route matches a request is http.ServeMux's.
-- Config: internal/config/config.go over an environment, and what cmd/api-server/main.go and
--   NewLabelWorker make of the settings. time.ParseDuration is a parameter.
-- Scans: internal/api/scans.go; Access says who may start and read a scan, Enqueue and Published what
--   a scan does. Scans.Schedule is StartScheduledScans over a sequence of ticks, and
--   Scans.Complete is about a scan without faults.
-- Pipeline: the running system as steps, in any order, of scans and workers on messages that the
--   queues hold. A step is one whole handler. Pipeline.Classified is about a scan and then the
--   classifier worker.
-- Tests: the theorems at concrete inputs.
--
-- Not modelled: the connections to the database and to Google (internal/storage/postgres.go,
-- internal/gmail/oauth.go), and the programs of cmd/ but for what the API server makes of its
-- settings; they are I/O and wiring. Ids of runs and rules and the counters of a run are natural
-- numbers, without the bound of their columns (BIGINT, INTEGER) or of int64, and a user id is any
-- text, where the columns take a UUID. Steps of two workers do not interleave
-- within a handler, and a context is cancelled only between two handlers.
pub mod Common
pub mod Text
pub mod Rules
pub mod Reader
pub mod Classifier
pub mod Models
pub mod Events
pub mod World
pub mod Storage
pub mod Broker
pub mod Gmail
pub mod Consumer
pub mod Auth
pub mod Scans
pub mod Login
pub mod Router
pub mod Config
pub mod Pipeline
pub mod Tests
