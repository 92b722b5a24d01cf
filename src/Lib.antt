-- ===== src/Lib.antt =====
-- A verification library for kotlsp, a language server for Kotlin and Java.
--
-- internal/text/document.go keeps the text of an open document, a table of its line starts, and
-- applies the edits that the client sends. Text models it: Text.Document the record and
-- `reindexLineBytes`, Text.Lookup the lookups by offset and by line, Text.Position LSP positions
-- and `strictOffsetBytes`, Text.Edit `replaceLines` and `replacementEndPoint`, Text.Apply
-- `ApplyWithEdits` on its byte buffer. Text.Table says what the table of line starts stands for,
-- Text.Strict what a position names, Text.Splice what the buffer shows, Text.Apply.Spec what a
-- batch of changes does to a text. Text.Plain and Text.Offsets look at the fast paths for plain
-- text.
--
-- internal/lexical/scan.go finds tokens, delimiters, literals and comments in source that may be
-- incomplete, for the features that run before or beside the parser. Lexical.Scan holds the loops
-- inside one token, Lexical.Tokenize `TokenizeBounded`, Lexical.Nesting the functions over its
-- tokens (`MatchingDelimiter`, `TopLevelTokenIndex`, `genericAngleOpens`), Lexical.Split
-- `splitTopLevel`, Lexical.Structure `ScanStructure`, Lexical.Regions `ScanRegionsBounded`.
-- Lexical.Widths and Lexical.Ordered say what tokens are, Lexical.Matching what a balanced group
-- is, Lexical.TopLevel what a found token is. The tables of the package `unicode` are a parameter,
-- of which nothing is assumed.
--
-- internal/resourcebudget/memory.go admits child processes into one memory envelope. Budget holds
-- its variables and what `Acquire` and its release do to them under the lock, Budget.Run the
-- goroutines as a list of events: calls, wakeups, cancellations and releases, in any order.
-- Budget.Accounts and Budget.Invariant count the live reservations, Budget.Waiting looks at the
-- calls that wait.
--
-- internal/jsonrpc/conn.go exchanges messages with the editor. Rpc holds messages and their checks,
-- Rpc.Frame `read` and `write`, Rpc.Queue the notification queue, Rpc.Inbound the state of `Run`
-- and Rpc.Inbound.Run its goroutines as a list of events, in any order. What `json.Marshal` and the
-- writer do with a response is an argument of the event, since `Run` drops the error.
-- Rpc.Inbound.Promise says what stays true of a run, Rpc.Inbound.Barrier which channels are closed,
-- Rpc.Inbound.Log in which order the handler is called, Rpc.Inbound.Made which notifications the
-- queue accepts, Rpc.Inbound.Costs what requests cost, Rpc.Inbound.Totals sums over requests.
-- Rpc.Outbound is `Request`, with what the reader does on a response, as events of the calls and of
-- the reader; a call takes its id and enters it in one event. JSON is a parameter.
--
-- internal/archiveio/read.go limits what is read from archives. Archive holds `ValidateZipFiles`,
-- Archive.Reader the reader that counts compressed bytes, Archive.Read `ReadContext`. What the raw
-- stream, the decompressor and the context do during a call is an argument of it, and the gate of a
-- budget lets the calls through one after the other. Archive.Ratio and Archive.Accounts are the
-- arithmetic of the ratio and of the counts.
--
-- internal/classfile/classfile.go reads Java class files and shows them as Java source.
-- ClassFile.Reader is its `reader` as a monad, ClassFile.Constants the constant pool,
-- ClassFile.ModifiedUtf8 the texts in it; ClassFile.Fields, ClassFile.Methods,
-- ClassFile.Annotations, ClassFile.Rows, ClassFile.Modules and ClassFile.Attributes hold what
-- `Parse` does with each part, ClassFile.Parse the whole. ClassFile.Descriptor parses descriptors
-- and ClassFile.Signature generic signatures. ClassFile.Identifier spells JVM names in Java and
-- back, ClassFile.Nesting finds the classes around a class, ClassFile.Members and
-- ClassFile.Modifiers say what is shown of a member, ClassFile.Render is `RenderJava`, and
-- ClassFile.Declarations, with ClassFile.Generics and ClassFile.Occurrence, `JavaDeclarations`.
-- ClassFile.Descriptor.Grammar and ClassFile.Signature.Grammar are the grammars of descriptors
-- and of generic signatures, ClassFile.Reader.Pays counts the bytes that the operations read.
-- Quoting and the printing of floats are a parameter, `Strconv`.
--
-- Std models what the source uses of Go: `sort.Search`, `utf8.DecodeRune`, the package `strings`,
-- and slices that are written in place, with their spare capacity. Prelude holds the shared
-- names.
--
-- Numbers: offsets, lengths, line numbers and reserved bytes that the source computes are natural
-- numbers; what comes from outside (positions, versions, the argument of `Document.Position`, the
-- bytes that are asked for, a limit) and the depths that may fall below zero are integers. Where a
-- value may pass 2^63 its wrap-around is written out: the column that `Offset` adds to a line
-- start, the sums of `ValidateZipFiles`. No other comes near it: texts are held to 64 MiB and
-- reservations to 1.75 GiB. Strings are lists of bytes.
-- Fuel: the loops over runes and bytes take a round for each byte, since a round passes over at
-- least one; the binary search takes one more than the length of the table. The values of
-- annotations and the generic types nest, and their fuel counts the nesting: each level reads a
-- byte at least. `classNesting` is on fuel that the theorems speak of, since its loop need not
-- end.
--
-- Not modelled: `strings.Fields` on white space that is not ASCII; `Current` of the budget;
-- `Notify`, and what `Stop` does to the stream; the parser, which walks Tree-sitter trees; the
-- project index, the diagnostics and the request handlers over it; the debug adapter and the
-- formatter host, which drive other processes; JSON decoding and all I/O.
pub mod Prelude
pub mod Std
pub mod Text
pub mod Archive
pub mod Rpc
pub mod Budget
pub mod Lexical
pub mod ClassFile
mod Tests
