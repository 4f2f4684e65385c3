-- ===== src/Lib.antt =====
-- Snowglobe lets a language model submit read queries to Snowflake without seeing their results:
-- the model gets receipts, and a person opens the results in a local viewer. The program is
-- src/snowglobe.
--
-- The parts and how they interact:
--
-- - Broker (src/snowglobe/broker.py): the requests of one process, in memory. Broker/Records has
--   the record of a request and the dict of them, Broker/State the broker with its clock, its
--   tokens and the two context managers that expire records under the lock, Broker/Bodies the
--   bodies of the methods under the lock, and Broker/Methods the methods by their names. A
--   method is an action that returns or raises and keeps the broker in either case. The clock
--   and the source of tokens are functions of the number of readings, in an Environment; the
--   cursors that were cancelled are a list in order. Since the lock makes each call one step,
--   Broker/History takes any interleaving of threads to be a list of calls. The other files of
--   Broker are proofs, named for what they prove.
--
-- - Sql (src/snowglobe/sql_policy.py): the policy that a query has to pass. Sql/Glot has what
--   the code reads of SQLGlot as data, and SQLGlot's parser, generator and scopes as a record of
--   parameters; Sql/Names has the configured view names, character by character, and Sql/Policy
--   the methods of SnowflakeSqlPolicy.
--
-- - Arrow (src/snowglobe/arrow_stream.py): the admission of a result and its serialization.
--   Arrow/Types and Arrow/Cells measure cells from the types and the offset buffers, bytes in
--   two's complement included; Arrow/Library has the chunk sink, and pyarrow's writer as a
--   record of parameters; Arrow/Admission has _AdmissionState and admit_record_batches, and
--   Arrow/Chunks has ipc_chunks, as the chunks that it yields and how it ends.
--
-- - Control (src/snowglobe/executor.py, control.py, contracts.py, mcp_gateway.py):
--   Control/Executor schedules admitted work behind a pending record of the broker,
--   Control/Contracts has the receipts with their validation, Control/Plane maps what the
--   executor and the broker do to receipts, Control/Gateway takes the JSON arguments of a tool
--   call to its receipt, Control/Json has the JSON fields of a receipt, with pydantic's
--   model_dump and model_validate as a record of parameters, and Control/Tools has the tools
--   that are advertised. Control/Schemas says what satisfies a JSON schema, for the proofs,
--   where a float without a fraction counts as an integer, and the matching of a regular
--   expression is a parameter. Tests/Pydantic has a reader of that JSON, which shows that the
--   parameters can be had. What an await lets happen meanwhile is a list of calls of the broker,
--   which the theorems leave free; a run whose work never ends does not return.
--
-- - Viewer (src/snowglobe/result_api.py): Viewer/Frames has the bytes of the frames,
--   Viewer/Stream the stream that sends a source while the broker keeps opening it, and what the
--   routes take from the broker; Viewer/Routes the routes and their answers; Viewer/Decoding is
--   a reader of frames, and Viewer/Contract what the routes owe, both for the proofs.
--
-- - Config (src/snowglobe/configuration.py): Config/Toml has the values of a TOML document that
--   the code tells apart, Config/Profiles the two loaders, Config/PrivateKey the loading of
--   src/snowglobe/private_key.py, with the cryptography package as a parameter, and
--   Config/Arguments the arguments of the connector. A document that was parsed, or the
--   exception of reading it, is a parameter, as is the test for texts that are blank.
--
-- - Snowflake (src/snowglobe/snowflake.py, snowflake_executor.py, and the mark_started of
--   executor.py): Snowflake/Connector has the connector as a record of parameters, each call of
--   which may raise, and the world in which it is used: the broker, the logger, the lock of the
--   admission, and the calls made so far, in order. Snowflake/Cursor has request_cursor,
--   Snowflake/Fetch the fetching of a result, and Snowflake/Execute the execution of governed
--   SQL and the work of a request. The print of the SQL before it runs is an event that does not
--   raise, and an iterator of tables that yields None is not modelled. Snowflake/Session is the
--   protocol of a request, for the proofs, and Snowflake/Given says what a source has to be, by
--   what each call of the connector gave.
--
-- - Cli (src/snowglobe/cli.py): Cli/Command has the two commands and what is printed; parsing a
--   command line gives a command or an error, reading the standard input gives a text or raises,
--   and the server gives JSON or raises, as parameters.
--
-- - Startup (src/snowglobe/runtime.py, preflight.py, local_server.py, and
--   create_snowflake_executor of snowflake_executor.py): Startup/Runtime has the creation of the
--   runtime from files, which are what reading and parsing them gives; Startup/Console what a
--   program prints; Startup/Preflight the rehearsal, with its exit code; and Startup/LocalServer
--   the main of the service, with the composition of the routes and the server as parameters.
--
-- Limits has the budgets of src/snowglobe/mvp_limits.py. Exec has the errors, which stand for
-- the exception classes that the code tells apart, and the actions; Fallible has the functions
-- that only return or raise; Python has signed integers and the datetime and timedelta of the
-- standard library, in microseconds, with the overflow of a datetime. Prelude passes on the
-- shared names.
--
-- The loop of _new_request_id has no bound in the source. The model gives it a number of draws,
-- and an action that runs out of them ends in still_running, which no handler of the source
-- catches; Broker/Registered shows that more draws than there are records are enough where the
-- tokens of these draws differ. All other loops are by structural recursion.
--
-- Not modelled: create_app of local_server.py, the MCP server and client, argparse, the text of
-- the errors, and the matching of URLs; a consumer that leaves a stream early; and the
-- TypeScript of apps and integrations.
pub mod Prelude
pub mod Exec
pub mod Fallible
pub mod Python
pub mod Limits
pub mod Broker
pub mod Sql
pub mod Arrow
pub mod Control
pub mod Viewer
pub mod Config
pub mod Snowflake
pub mod Cli
pub mod Startup
pub mod Tests
