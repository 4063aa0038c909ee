-- ===== src/Status.antt =====
-- `Status` and `format_status` of src/error.hh and src/error.cc.
use Prim.Native.String.{String}

pub data Status : Type 0 where
  ok buffer_overflow buffer_underflow out_of_range misaligned_data unexpected_eof : Status
  file_create_error file_write_error file_open_error not_lzx_file file_map_error : Status
  checksum_invalid huffman_table_error unknown_compression : Status

-- The `default` branch, "Unknown error", has no value of the enum left.
unfoldable pub format_status : Status → String
format_status ok = "Ok"
format_status buffer_overflow = "Buffer overflow"
format_status buffer_underflow = "Buffer underflow"
format_status out_of_range = "Out of range"
format_status misaligned_data = "Misaligned data"
format_status unexpected_eof = "Unexpected end of file"
format_status file_create_error = "File create error"
format_status file_write_error = "File write error"
format_status file_open_error = "File open error"
format_status not_lzx_file = "Not an LZX file"
format_status file_map_error = "File map error"
format_status checksum_invalid = "Checksum invalid"
format_status huffman_table_error = "Huffman table error"
format_status unknown_compression = "Unknown compression mode"
