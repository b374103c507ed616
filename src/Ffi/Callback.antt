-- ===== src/Ffi/Callback.antt =====
-- lib/endb_lib/src/lib.rs: the functions that hand a text or bytes to a callback. A buffer is its
-- bytes, a C string its text.
pub mod Laws
use endb.Prelude.{
  ℕ, zero, suc, Bool, true, not, ◌&&◌, Option, none, some, List, [], ◌∷◌, ◌++◌, ◌==◌, if◌then◌else◌,
  take,
}
use endb.Prelude.Text.{Str}
use endb.Server.Http.{Bytes}
use endb.Cst.Report.Draw.{Rendered, ok, err, Renderer, json_error_report_to_string}

unfoldable pub without_nul : Str → Bool
without_nul [] = true
without_nul (c ∷ s) = not (c == 0) && without_nul s

-- a call of a callback with a C string, or the panic of `CString::new(s).unwrap()`
pub data Called : Type 0 where
  callback : Str → Called
  nul_panic : Called

unfoldable pub string_callback : Str → Called
unfolding without_nul
string_callback s = if without_nul s then callback s else nul_panic

-- the call of `on_success` with a text, of `on_error`, or of `on_success` with a buffer
pub data Answered : Type 0 where
  on_success : Called → Answered
  on_error : Called → Answered
  on_success_bytes : Bytes → Answered

-- `Result` with an error by its text
pub data Decoded : Type 0 where
  decoded : Bytes → Decoded
  undecoded : Str → Decoded

-- The functions of base64, sha1_smol, uuid and xxhash_rust, and `Display` of a UUID.
pub record Codecs : Type 0 where
  pub encode : Bytes → Str
  pub decode : Str → Decoded
  pub sha1 : Bytes → Str
  pub uuid_from_slice : Bytes → Rendered
  pub xxh64 : Bytes → ℕ → ℕ

abbrev pub answer_rendered : Rendered → Answered
answer_rendered (ok s) = on_success (string_callback s)
answer_rendered (err e) = on_error (string_callback e)

abbrev pub answer_decoded : Decoded → Answered
answer_decoded (decoded buffer) = on_success_bytes buffer
answer_decoded (undecoded e) = on_error (string_callback e)

unfoldable pub endb_render_json_error_report : Renderer → Str → Answered
unfolding json_error_report_to_string string_callback
endb_render_json_error_report lib report_json =
    answer_rendered (json_error_report_to_string lib report_json)

unfoldable pub endb_base64_encode : Codecs → Bytes → Called
unfolding string_callback
endb_base64_encode lib buffer = string_callback (lib.encode buffer)

unfoldable pub endb_base64_decode : Codecs → Str → Answered
unfolding string_callback
endb_base64_decode lib string = answer_decoded (lib.decode string)

unfoldable pub endb_sha1 : Codecs → Bytes → Called
unfolding string_callback
endb_sha1 lib buffer = string_callback (lib.sha1 buffer)

-- for the text of the UUID that was drawn
unfoldable pub endb_uuid_v4 : Str → Called
unfolding string_callback
endb_uuid_v4 uuid = string_callback uuid

unfoldable pub endb_uuid_str : Codecs → Bytes → Answered
unfolding string_callback
endb_uuid_str lib buffer = answer_rendered (lib.uuid_from_slice buffer)

abbrev pub endb_xxh64 : Codecs → Bytes → ℕ → ℕ
endb_xxh64 lib buffer seed = lib.xxh64 buffer seed

-- `ENDB_FULL_VERSION` is set by the build
unfoldable pub endb_version : Str → Called
unfolding string_callback
endb_version full_version = string_callback full_version

abbrev pub drop_bytes : ℕ → Bytes → Bytes
drop_bytes zero bs = bs
drop_bytes (suc n) [] = []
drop_bytes (suc n) (b ∷ bs) = drop_bytes n bs

-- what stands in the destination after the copy; both hold `buffer_size` bytes or more
unfoldable pub endb_memcpy : Bytes → Bytes → ℕ → Bytes
endb_memcpy dest_buffer src_buffer buffer_size =
    take buffer_size src_buffer ++ drop_bytes buffer_size dest_buffer

-- `if let Err(err) = endb_server::init_logger() { .. }`, by the text of the error
unfoldable pub endb_init_logger : Option Str → Option Called
unfolding string_callback
endb_init_logger none = none
endb_init_logger (some e) = some (string_callback e)

pub data Level : Type 0 where
  error warn info debug trace : Level

-- a record of the log: `log::log!(target: target, level, "{}", message)`
pub record LogRecord : Type 0 where
  pub level : Level
  pub target : Str
  pub message : Str

abbrev pub do_log : Level → Str → Str → LogRecord
do_log level target message = record { level = level; target = target; message = message }

abbrev pub endb_log_error : Str → Str → LogRecord
endb_log_error target message = do_log error target message

abbrev pub endb_log_warn : Str → Str → LogRecord
endb_log_warn target message = do_log warn target message

abbrev pub endb_log_info : Str → Str → LogRecord
endb_log_info target message = do_log info target message

abbrev pub endb_log_debug : Str → Str → LogRecord
endb_log_debug target message = do_log debug target message

abbrev pub endb_log_trace : Str → Str → LogRecord
endb_log_trace target message = do_log trace target message

-- what a panic makes the hook do
pub data HookCall : Type 0 where
  on_panic : Str → HookCall
  previous : Str → HookCall
  abort : HookCall

abbrev pub and_then_previous : Called → List HookCall → List HookCall
and_then_previous (callback s) prev = on_panic s ∷ prev
and_then_previous nul_panic prev = abort ∷ []

-- The hook that is set over `prev`, for the text of a panic. A panic of the hook aborts.
unfoldable pub endb_set_panic_hook : (Str → List HookCall) → Str → List HookCall
unfolding string_callback
endb_set_panic_hook prev text = and_then_previous (string_callback text) (prev text)
