-- ===== src/Protocol/Errors.antt =====
-- The errors of the response reader, in the order of their declaration. `io` passes on what the
-- connection's reader answers. `panic` stands for a run-time panic, after which nothing returns,
-- and `out_of_fuel` for the end of a model's loop, which no input reaches.
use go_http_benchmark.Prelude.{Bool, true, false}
use go_http_benchmark.Golib.Reader.{IoError}

pub data Error : Type 0 where
  malformed_status malformed_header malformed_chunk no_length body_too_large : Error
  bad_content_length : Error
  io : IoError → Error
  panic out_of_fuel : Error

abbrev pub is_panic : Error → Bool
is_panic panic = true
is_panic malformed_status = false
is_panic malformed_header = false
is_panic malformed_chunk = false
is_panic no_length = false
is_panic body_too_large = false
is_panic bad_content_length = false
is_panic (io e) = false
is_panic out_of_fuel = false
