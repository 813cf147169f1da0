-- ===== src/Stream.antt =====
-- The byte streams of the xul library (xul/io/data_input_stream.hpp, data_output_stream.hpp), which
-- the repository calls and does not hold: an interface, with the documented behaviour as laws.
mod Defs
mod Rules
mod Example
unfoldable pub use Defs.*
pub use Rules.*
unfoldable pub use Example.{bytes_streams}
