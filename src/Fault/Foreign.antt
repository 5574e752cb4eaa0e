-- ===== src/Fault/Foreign.antt =====
-- src/lib.rs: the conversions of other crates' errors, each of which has a text of its own.
use psrt.Prelude.{Bool, true, false, [], ◌∷◌, ◌||◌, if◌then◌else◌}
use psrt.Prelude.Bytes.{Bytes}
use psrt.Fault.{Error, shown, error_io, error_eof, error_invalid_data, error_timeout}

-- `std::io::ErrorKind`, as far as the code tells kinds apart.
pub data IoKind : Type 0 where
  unexpected_eof broken_pipe not_found other : IoKind

abbrev is_unexpected_eof : IoKind → Bool
is_unexpected_eof unexpected_eof = true
is_unexpected_eof broken_pipe = false
is_unexpected_eof not_found = false
is_unexpected_eof other = false

abbrev is_broken_pipe : IoKind → Bool
is_broken_pipe unexpected_eof = false
is_broken_pipe broken_pipe = true
is_broken_pipe not_found = false
is_broken_pipe other = false

-- The error types that are converted.
pub data Foreign : Type 0 where
  io_error : IoKind → Bytes → Foreign
  native_tls : Bytes → Foreign
  error_stack : Bytes → Foreign
  serde_value : Bytes → Foreign
  utf8_error : Bytes → Foreign
  elapsed : Bytes → Foreign
  try_from_slice : Bytes → Foreign
  from_hex : Bytes → Foreign

-- The `From` implementations.
unfoldable pub from : Foreign → Error
from (io_error kind e) =
    if is_unexpected_eof kind || is_broken_pipe kind
    then error_eof (shown e ∷ [])
    else error_io (shown e ∷ [])
from (native_tls e) = error_io (shown e ∷ [])
from (error_stack e) = error_io (shown e ∷ [])
from (serde_value e) = error_invalid_data (shown e ∷ [])
from (utf8_error e) = error_invalid_data (shown e ∷ [])
from (elapsed e) = error_timeout (shown e ∷ [])
from (try_from_slice e) = error_invalid_data (shown e ∷ [])
from (from_hex e) = error_invalid_data (shown e ∷ [])
