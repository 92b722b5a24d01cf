-- ===== src/Tests.antt =====
-- Runs of the model on small inputs, and each theorem at an input that meets its hypotheses.
mod Text
mod Budget
mod ClassFile
mod JavaSource
mod Rendering
mod Lexical
mod Structure
mod Archive
mod Rpc
