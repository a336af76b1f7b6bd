-- ===== src/Controller/Messages.antt =====
-- `task_error_message` of tv_controller/apk_manager.py: what a failed task shows. The markers are ASCII.
use tv_safety_cleaner.Prelude.{
  String, List, [], ◌∷◌, if◌then◌else◌, any, codes, lower, has_substring, strip, is_empty,
  split_lines, prefix_of,
}

abbrev daemon_markers : List String
daemon_markers =
    "adb server didn't ack" ∷ "adb starting" ∷ "cannot mkdir" ∷ "cannot connect to daemon"
    ∷ "daemon not running" ∷ []

abbrev first_line : List String → String
first_line [] = ""
first_line (line ∷ _) = line

unfoldable pub task_error_message : String → String
unfolding lower has_substring strip split_lines prefix_of
task_error_message value =
    let text = strip value in
    let normalized = lower (codes text) in
    if any (λ marker. has_substring (codes marker) normalized) daemon_markers
    then "Controller could not start its local ADB service. Redeploy with tv.sh."
    else if has_substring (codes "unauthorized") normalized
    then "TV rejected ADB authorization. Confirm the RSA prompt on the TV."
    else if has_substring (codes "offline") normalized
    then "TV is visible but ADB is offline. Re-enable ADB on the TV and retry."
    else if is_empty text
    then "The operation failed without a diagnostic message."
    else prefix_of 300 (first_line (split_lines text))
