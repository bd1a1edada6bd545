-- ===== src/Tests/Streams.antt =====
-- Events on the wire: src/streaming/wire.rs.
use llm_universal_proxy.Prelude.{◌≡◌, refl, none, some, ◌++◌, true, arith}
use llm_universal_proxy.Json.Value.{bool}
use llm_universal_proxy.Wire.{
  Bytes, bytes, Codec, Frame, sse_frame_end, take_one_sse_frame, take_one_sse_event,
  parse_sse_event_json, data_lines, lines, join_lines, is_blank, strip_prefix, strip_space,
  format_sse_data,
}
use llm_universal_proxy.Wire.Boundary.{IsFirstEnd, sse_frame_end-IsFirstEnd, sse_frame_end-append}
use llm_universal_proxy.Wire.Draining.{IsDrained, take_one_sse_event-IsDrained}
use llm_universal_proxy.Wire.RoundTrip.{IsPrinted, take_one_sse_event-format}

-- A codec of one value, `true`.
abbrev only_true : Codec
only_true = record {
  from_utf8_lossy = λ b. b;
  from_str = λ _. some (bool true);
  to_string = λ _. some (bytes "true");
}

abbrev buffer : Bytes
buffer = bytes "data: true\r\n\r\nda"

found_end : sse_frame_end buffer ≡ some 14
unfolding sse_frame_end
found_end = refl

sse_frame_end-IsFirstEnd_example : IsFirstEnd buffer 14
sse_frame_end-IsFirstEnd_example = sse_frame_end-IsFirstEnd buffer 14 found_end

sse_frame_end-append_example : sse_frame_end (buffer ++ bytes "ta: 1\n\n") ≡ some 14
sse_frame_end-append_example = sse_frame_end-append buffer (bytes "ta: 1\n\n") 14 found_end

no_end : sse_frame_end (bytes "data: true\r\n\r") ≡ none
unfolding sse_frame_end
no_end = refl

abbrev frame : Frame
frame = record { event_bytes = bytes "data: true\r\n\r\n"; event = some (bool true); end = 14 }

taken : take_one_sse_frame only_true buffer ≡ some (frame, bytes "da")
unfolding take_one_sse_frame sse_frame_end parse_sse_event_json data_lines lines join_lines is_blank
    strip_space strip_prefix
taken = refl

take_one_sse_event-IsDrained_example : IsDrained buffer (take_one_sse_event only_true buffer)
take_one_sse_event-IsDrained_example = take_one_sse_event-IsDrained only_true buffer

true-IsPrinted : IsPrinted only_true (bool true) (bytes "true")
true-IsPrinted = record {
  printed = refl;
  one_line = ground arith;
  reads = refl;
  not_blank = unfold is_blank in refl;
  not_done = refl;
}

take_one_sse_event-format_example :
    take_one_sse_event only_true (format_sse_data only_true (bool true) ++ bytes "data: 2\n")
    ≡ (bytes "data: 2\n", some (bool true))
take_one_sse_event-format_example =
    take_one_sse_event-format only_true (bool true) (bytes "true") (bytes "data: 2\n")
      true-IsPrinted refl
