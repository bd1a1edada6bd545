-- ===== src/Tests/Logs.antt =====
-- The log of the dashboard: src/dashboard_logs.rs.
use llm_universal_proxy.Prelude.{◌≡◌, refl, ℕ, max, String, List, [], ◌∷◌, trim}
use llm_universal_proxy.DashboardLogs.{
  new_buffer, new_writer, snapshot, write_all, flush, drain_lines, push_line, sanitize_log_line,
}
use llm_universal_proxy.DashboardLogs.Recent.{kept, recent}
use llm_universal_proxy.DashboardLogs.Recording.{lines_in, written, recorded-IsRecent}

-- A decoder that knows three pieces.
abbrev decoder : List ℕ → String
decoder [] = "\r\n last"
decoder (ℕ.zero ∷ _) = "first\nsec"
decoder _ = "ond  \r\n \nthird"

abbrev pieces : List (List ℕ)
pieces = (0 ∷ []) ∷ (1 ∷ []) ∷ [] ∷ []

shown :
    snapshot (flush (write_all decoder (new_writer (new_buffer 3)) pieces)).buffer
    ≡ "second" ∷ "third" ∷ "last" ∷ []
unfolding drain_lines push_line sanitize_log_line trim
shown = refl

unflushed : snapshot (write_all decoder (new_writer (new_buffer 0)) pieces).buffer ≡ "third" ∷ []
unfolding drain_lines push_line sanitize_log_line trim
unflushed = refl

sanitized : sanitize_log_line "\r\n a\nb\t\n" ≡ "a\nb"
unfolding sanitize_log_line trim
sanitized = refl

recorded-IsRecent_example :
    snapshot (flush (write_all decoder (new_writer (new_buffer 3)) pieces)).buffer
    ≡ recent (max 3 1) (kept (lines_in (written decoder pieces)))
recorded-IsRecent_example = recorded-IsRecent decoder 3 pieces
