-- ===== src/DashboardLogs.antt =====
-- src/dashboard_logs.rs: the last lines of the log, which the dashboard shows, and the writer that
-- cuts what is written into lines. `String::from_utf8_lossy` is a parameter. The lock and the static
-- buffer are left out: an operation on the buffer runs while it holds the lock.
pub mod Cutting
pub mod Recent
pub mod Recording
use Prim.Native.Char.{Char, code}
use llm_universal_proxy.Prelude.{
  ℕ, zero, suc, ◌+◌, String, Bool, true, false, ◌&&◌, ◌||◌, Option, none, some, List, [], ◌∷◌, ◌++◌,
  length, drop, max, ◌==◌, concat, trim, is_empty, if◌then◌else◌,
}

abbrev pub default_log_capacity : ℕ
default_log_capacity = 200

-- `lines` is the deque, its front first.
pub record DashboardLogBuffer : Type 0 where
  pub capacity : ℕ
  pub lines : List String

-- The buffer that the writer shares, and the writer's own text.
pub record DashboardLogWriter : Type 0 where
  pub buffer : DashboardLogBuffer
  pub pending : String

abbrev pub new_buffer : ℕ → DashboardLogBuffer
new_buffer capacity = record { capacity = max capacity 1; lines = [] }

abbrev pub new_writer : DashboardLogBuffer → DashboardLogWriter
new_writer buffer = record { buffer = buffer; pending = String.[] }

abbrev pub snapshot : DashboardLogBuffer → List String
snapshot b = b.lines

abbrev pub is_break : Char → Bool
is_break c = code c == 10 || code c == 13

unfoldable pub trim_breaks_start : String → String
trim_breaks_start String.[] = String.[]
trim_breaks_start (String.◌∷◌ c s) =
    let rest = trim_breaks_start s in if is_break c then rest else String.◌∷◌ c s

unfoldable pub trim_breaks_end : String → String
trim_breaks_end String.[] = String.[]
trim_breaks_end (String.◌∷◌ c s) =
    let rest = trim_breaks_end s in
    if is_break c && is_empty rest then String.[] else String.◌∷◌ c rest

unfoldable pub sanitize_log_line : String → String
unfolding trim_breaks_start trim_breaks_end trim
sanitize_log_line line = trim (trim_breaks_end (trim_breaks_start line))

-- `pop_front` at the capacity, then `push_back`.
abbrev pub push_back : DashboardLogBuffer → String → DashboardLogBuffer
push_back b line = record {
  capacity = b.capacity;
  lines = (if length b.lines == b.capacity then drop 1 b.lines else b.lines) ++ line ∷ [];
}

unfoldable pub push_line : DashboardLogBuffer → String → DashboardLogBuffer
unfolding sanitize_log_line
push_line b line =
    let clean = sanitize_log_line line in if is_empty clean then b else push_back b clean

abbrev pub chars : String → ℕ
chars String.[] = 0
chars (String.◌∷◌ c s) = suc (chars s)

abbrev pub before : Char → Option (String × String) → Option (String × String)
before c none = none
before c (some (line, rest)) = some (String.◌∷◌ c line, rest)

-- `find('\n')` and `drain(..=position)`: the text up to the first line feed and with it, and the rest.
unfoldable pub take_line : String → Option (String × String)
take_line String.[] = none
take_line (String.◌∷◌ c s) =
    let rest = take_line s in
    if code c == 10 then some (String.◌∷◌ c String.[], s) else before c rest

-- `if line.ends_with(c) { line.pop(); }`, the character by its code.
unfoldable pub pop_end : ℕ → String → String
pop_end n String.[] = String.[]
pop_end n (String.◌∷◌ c s) =
    let rest = pop_end n s in if is_empty s && code c == n then String.[] else String.◌∷◌ c rest

abbrev pub push_taken : DashboardLogBuffer → String → DashboardLogBuffer
push_taken b line = push_line b (pop_end 13 (pop_end 10 line))

abbrev pub drain_next :
    (DashboardLogBuffer → String → DashboardLogWriter)
    → DashboardLogWriter
    → Option (String × String)
    → DashboardLogWriter
drain_next again w none = w
drain_next again w (some (line, rest)) = again (push_taken w.buffer line) rest

-- The loop, which takes a line of the pending text at a time. It runs on fuel, a step for each
-- character: a turn takes one character at least.
unfoldable pub drain_lines : ℕ → DashboardLogBuffer → String → DashboardLogWriter
unfolding take_line push_line pop_end
drain_lines zero b pending = record { buffer = b; pending = pending }
drain_lines (suc n) b pending =
    drain_next (drain_lines n) (record { buffer = b; pending = pending }) (take_line pending)

abbrev pub flush_tail : DashboardLogWriter → DashboardLogWriter
flush_tail w =
    if is_empty w.pending
    then w
    else (record { buffer = push_line w.buffer w.pending; pending = String.[] })

abbrev pub drain_complete_lines : Bool → DashboardLogWriter → DashboardLogWriter
drain_complete_lines tail w =
    let drained = drain_lines (chars w.pending) w.buffer w.pending in
    if tail then flush_tail drained else drained

module _ (from_utf8_lossy : List ℕ → String) where
  abbrev pub write : DashboardLogWriter → List ℕ → DashboardLogWriter
  write w buf =
      drain_complete_lines false
        (record { buffer = w.buffer; pending = concat w.pending (from_utf8_lossy buf) })

  abbrev pub write_all : DashboardLogWriter → List (List ℕ) → DashboardLogWriter
  write_all w [] = w
  write_all w (buf ∷ bufs) = write_all (write w buf) bufs

-- `flush`, which `drop` calls as well.
abbrev pub flush : DashboardLogWriter → DashboardLogWriter
flush w = drain_complete_lines true w
