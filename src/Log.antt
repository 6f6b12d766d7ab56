-- ===== src/Log.antt =====
-- utils/log.h: `Log::init` with its buffers of C, `Log::SignalHandler`, and the texts of the macros that log a stack. The
-- calls of the logging library are values, in the order in which they are made.
pub mod Names
use fast_db.Prelude.{
  ℕ, zero, suc, ◌+◌, ◌-◌, ◌/◌, ◌%◌, Bool, true, false, Option, none, some, List, [], ◌∷◌, ◌++◌,
  Bytes, codes, length, take, drop, replicate, if◌then◌else◌, ltb, leb, ◌==◌,
}
use fast_db.Prelude.Options.{◌>>=◌}
use fast_db.Prelude.Decimal.{to_string_nat}

-- The bytes of a C string in front of its terminator. Without one in the buffer, what is read lies behind it: `none`.
unfoldable pub c_string : Bytes → Option Bytes
c_string [] = none
c_string (c ∷ s) = let rest = c_string s in if c == 0 then some [] else rest >>= (λ t. some (c ∷ t))

-- `strncpy(buffer, source, n)`: at most `n` bytes of the source, and zeros up to `n`.
unfoldable pub strncpy : ℕ → Bytes → Bytes
strncpy zero source = []
strncpy (suc n) [] = 0 ∷ strncpy n []
strncpy (suc n) (c ∷ source) = c ∷ strncpy n source

-- `strcpy(buffer, source)`, with what the buffer held behind the terminator.
unfoldable pub strcpy : Bytes → Bytes → Bytes
strcpy source old = source ++ (0 ∷ drop (suc (length source)) old)

-- What follows the last `sep`, `strrchr` plus one.
unfoldable pub after_last : ℕ → Bytes → Option Bytes
after_last sep [] = none
after_last sep (c ∷ s) = elim (after_last sep s) [
  | some t ↦ some t
  | none ↦ if c == sep then some s else none
]

-- `_WIN32` also looks for a backslash.
unfoldable pub base_name : Bool → Bytes → Bytes
unfolding after_last
base_name win32 name = elim (after_last b'/' name) [
  | some t ↦ t
  | none ↦ if win32 then (elim (after_last b'\\' name) [ some t ↦ t | none ↦ name ]) else name
]

-- `tm`, with the fields that are printed.
pub record Tm : Type 0 where
  pub tm_year : ℕ
  pub tm_mon : ℕ
  pub tm_mday : ℕ

-- `%02d` of a number that is not negative.
unfoldable pub two_digits : ℕ → Bytes
two_digits n = if ltb n 10 then b'0' ∷ to_string_nat n else to_string_nat n

unfoldable pub log_file_name : Bytes → Tm → Bytes
unfolding two_digits
log_file_name base t =
    codes "log_["
    ++ (base
        ++ (codes "]_"
            ++ (to_string_nat (1900 + t.tm_year)
                ++ (two_digits (1 + t.tm_mon) ++ two_digits t.tm_mday))))

-- `sprintf` into a buffer of some size: `none` if the text and its terminator do not fit.
unfoldable pub sprintf : ℕ → Bytes → Option Bytes
sprintf size text = if leb (suc (length text)) size then some text else none

pub data Call : Type 0 where
  init_google_logging set_log_destination set_log_filename_extension : Bytes → Call
  set_stderr_logging install_failure_signal_handler : Call
  colorlogtostderr colorlogtostdout alsologtostderr stop_logging_if_full_disk : Call
  logbufsecs : ℕ → Call
  set_locales : Call

-- `win32` stands for `WIN32` and `_WIN32`.
unfoldable pub init_calls : Bool → Bytes → Bytes → List Call
init_calls win32 name file =
    init_google_logging name
    ∷ set_log_destination file
    ∷ set_stderr_logging
    ∷ install_failure_signal_handler
    ∷ set_log_filename_extension (codes ".log")
    ∷ colorlogtostderr
    ∷ (if win32 then colorlogtostdout else alsologtostderr)
    ∷ stop_logging_if_full_disk
    ∷ logbufsecs 0
    ∷ (if win32 then set_locales ∷ [] else [])

-- `gLogName` after the copy; `old` are the 256 bytes that it held.
unfoldable pub log_name : Option Bytes → Bytes → Bytes
unfolding strcpy strncpy
log_name none old = strcpy (codes "unknown") old
log_name (some name) old = strncpy 256 name

-- `none` is undefined behaviour: a read behind `gLogName`, or a write behind `gLogFileName`.
unfoldable pub init : Bool → Option Bytes → Bytes → Tm → Option (List Call)
unfolding log_name c_string base_name log_file_name sprintf init_calls
init win32 slog_name old t = c_string (log_name slog_name old) >>= (λ name.
    sprintf 256 (log_file_name (base_name win32 name) t)
    >>= (λ file. some (init_calls win32 name file)))

-- The file error.log, and the texts logged.
pub record Logged : Type 0 where
  pub error_log : Bytes
  pub info : List Bytes

-- `none` is a read behind the data.
unfoldable pub signal_handler : Bytes → ℕ → Logged → Option Logged
signal_handler data_read size l =
    let text = take size data_read in
    if leb size (length data_read)
    then some (record { error_log = l.error_log ++ text; info = text ∷ l.info })
    else none

-- A frame of a stack trace; `description` is what `std::stacktrace` calls the name.
pub record Frame : Type 0 where
  pub name : Bytes
  pub source_file : Bytes
  pub source_line : ℕ

unfoldable pub frame_lines : Frame → Bytes
frame_lines frame =
    codes "Function: "
    ++ (frame.name
        ++ (codes "\nSource File: "
            ++ (frame.source_file
                ++ (codes "\nSource Line: "
                    ++ (to_string_nat frame.source_line ++ codes "\n------------------------\n")))))

unfoldable pub frames_text : List Frame → Bytes
unfolding frame_lines
frames_text [] = []
frames_text (frame ∷ st) = frame_lines frame ++ frames_text st

-- `LOG_STACK_R`.
unfoldable pub log_stack : List Frame → Bytes
unfolding frames_text
log_stack st = codes "\n" ++ frames_text st

-- `{:4}` of a number.
unfoldable pub padded : ℕ → Bytes
padded n = let text = to_string_nat n in replicate (4 - length text) 32 ++ text

unfoldable pub numbered_frames : ℕ → List Frame → Bytes
unfolding padded
numbered_frames i [] = []
numbered_frames i (frame ∷ st) =
    padded i
    ++ (codes ": "
        ++ (frame.name
            ++ (codes " info \n "
                ++ (frame.source_file
                    ++ (codes ":"
                        ++ (to_string_nat frame.source_line
                            ++ (codes "\n\n" ++ numbered_frames (suc i) st)))))))

-- `LOG_STACK2_R`, which on Windows is defined a second time as `LOG_STACK_R` is.
unfoldable pub log_stack2 : Bool → List Frame → Bytes
unfolding numbered_frames log_stack
log_stack2 win32 st =
    if win32
    then log_stack st
    else codes "\nStack trace start:\n" ++ (numbered_frames 0 st ++ codes "Stack trace end...")
