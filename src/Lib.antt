-- ===== src/Lib.antt =====
-- The MSSQL extension: its TDS layer, what stands between the bytes of the network and the rows and
-- messages that the rest works with (src/tds, src/include/tds), and the INSERT above it (src/dml,
-- src/include/dml).
--
-- The parts, from the network up. A message is cut into packets (src/tds/tds_protocol.cpp), each
-- packet is serialized (src/tds/tds_packet.cpp), and the other way round the frame assembly of the
-- socket (src/tds/tds_socket.cpp) takes packets off a stream that the reads cut anywhere. The payloads
-- are fed to the token parser (src/tds/tds_token_parser.cpp), which calls the parser of COLMETADATA
-- (src/tds/tds_column_metadata.cpp) and, for each ROW and NBCROW, the row reader
-- (src/tds/tds_row_reader.cpp). The row reader reads a row into values, or skips it by one of two walks:
-- the switch on the type of each column, or the forms that the token parser resolves once per
-- COLMETADATA.
--
-- Connections are shared through the pool (src/tds/tds_connection_pool.cpp), whose threads take turns
-- under a lock: a state of the pool is reached by any sequence of their critical sections.
--
-- An INSERT goes the other way: the sink (src/dml/insert/mssql_physical_insert.cpp) hands the chunks of
-- DuckDB to the executor (mssql_insert_executor.cpp), which adds the rows one by one to the batch
-- builder (mssql_batch_builder.cpp), and sends the statement (mssql_insert_statement.cpp) of a batch that
-- is full. Names and strings are quoted by the value serializer (mssql_value_serializer.cpp), or by the
-- DELETE statement on its own; the executor of DELETE (src/dml/delete) sends keys batch by batch. A
-- statement is sent as UTF-16 (src/tds/encoding/utf16.cpp).
--
-- The files:
--   Prelude: tests on numbers, lists over the native numbers, and `Outcome`, what a call comes to.
--   Tds/Types: the type ids and the token types of src/include/tds/tds_types.hpp.
--   Tds/Bytes, Tds/Parser: the little-endian reads, and the chain of reads and length tests that the
--     parsers are written in, with the rules for their bounds and for more bytes behind them.
--   Tds/Packet: TdsPacket (Append: its appenders; Wire: Serialize and Parse; Split: SplitIntoPackets,
--     BuildBulkLoadMultiPacket, BuildSqlBatch, BuildSqlBatchMultiPacket).
--   Tds/Socket: NextPacket, ReceivePacket and ReceiveMessage.
--   Tds/ColumnMetadata: ColumnMetadata and ColumnMetadataParser.
--   Tds/RowReader: RowReader (Skip, SkipRow: SkipValue, SkipValueNBC, SkipByForm, ResolveSkipForm,
--     SkipRow, SkipNBCRow; Read, ReadRow: ReadValue, ReadValueNBC, ReadRow, ReadNBCRow).
--   Tds/TokenParser: TokenParser (Message, Tokens: the handlers; Next: TryParseNext; Session: its public
--     operations; TxnDescriptor: FindBeginTxnDescriptor).
--   Tds/ConnectionPool: ConnectionPool of src/tds/tds_connection_pool.cpp, as the critical sections of
--     its threads (Steps), what they keep (Invariant), and each operation (Acquire, Release, CleanUp). Limit,
--     Growth, LimitBound: the threads that make connections, against connection_limit.
--   Tds/Utf16: the encoder and its length function (Ascii: the path for ASCII; Length; Forms: UTF-8 and
--     UTF-16 by themselves; Decode, RoundTrip; Direct, DirectLaws: the variant into a buffer).
--   Tds/ValueEncoding: GuidEncoding, and the times of DateTimeEncoding (Guid, Time).
--   Dml/Text: texts and joining. Dml/ValueSerializer: EscapeIdentifier, EscapeString, SerializeDecimal
--     (Lexer: how the server reads delimited text; RoundTrip, Decimals).
--   Dml/InsertTarget, Dml/InsertStatement: the table and the limits, InitializeCache and Build (Read: how
--     the server reads the head of an INSERT; Names).
--   Dml/BatchBuilder: MSSQLBatchBuilder (Size, Invariant, PushAll).
--   Dml/InsertExecutor: Execute, Finalize and the destructor (Delivery: the division into batches; Loop,
--     Whole, Finish).
--   Dml/PhysicalInsert: Sink and Finalize (Sent; Waiting, Count: the number reported).
--   Dml/DmlBatch: what UPDATE and DELETE share. Dml/DeleteStatement: MSSQLDeleteStatement (Escape: its
--     quoting; Built). Dml/DeleteExecutor: MSSQLDeleteExecutor (Ends, Drained, Deletes).
--   Tds/Examples, Dml/Examples: the theorems at concrete inputs, and tests.
--
-- A buffer is the list of its bytes from the current offset on. `throw` is a C++ exception, `ok none` a
-- `return false` or `return 0` that asks for more data, and `fault` is nothing that C++ returns: a
-- read outside the buffer, or fuel that has run out. A theorem that excludes `fault` so states that
-- the code reads inside the buffer and ends.
--
-- Fuel: the loop over the chunks of a PLP value, the loop of TryParseNext, the scan for a descriptor
-- and the loop of ReceiveMessage get the length of the buffer, or one more, since each round takes a
-- byte at least; the loop that cuts a message gets the length of the payload, since each packet takes
-- a byte. The loops over a text get its length, or one more.
--
-- In an INSERT, SerializeFromVector, which the codec carries out, and ExecuteBatch, which sends a
-- statement and reads the response, are parameters, and so are Serialize and the server for a DELETE.
-- The executor keeps the statements that were given to ExecuteBatch, in order. That each statement is
-- executed is a hypothesis where it is needed.
--
-- The text conversions Utf16LEDecode and Utf16LEEncode rest on simdutf and are parameters. The texts of
-- exceptions, the debug output and the reserved capacity of buffers are left out. The reads of a socket
-- are a list: what each brings, where an empty one is a timeout or an error. Not modelled are the login,
-- the connection, the waiting in a pool and its time limits, the encodings of values but GUIDs and
-- times, authentication and TLS, RETURNING, UPDATE, the literals that the codec writes, the catalog,
-- COPY and queries.
pub mod Prelude
pub mod Tds
pub mod Dml
