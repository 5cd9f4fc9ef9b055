-- ===== src/Launcher/CrashLoop.antt =====
-- internal/launcher/crashloop.go: times are nanoseconds, and the window is a duration.
pub mod Window
mod Tests
use fuelmind.Base.{ℕ, ◌+◌, ◌≡◌, Bool, List, [], ◌∷◌, ◌++◌, ltb, leb, length, keep_if}

pub record Detector : Type 0 where
  pub max_crashes : ℕ
  pub window : ℕ
  pub timestamps : List ℕ

unfoldable pub new_detector : ℕ → ℕ → Detector
new_detector max_crashes window = record {
  max_crashes = max_crashes;
  window = window;
  timestamps = [];
}

-- t.After(at.Add(-window))
abbrev pub is_recent : ℕ → ℕ → ℕ → Bool
is_recent window at t = ltb at (t + window)

unfoldable pub record_crash : ℕ → Detector → Detector × Bool
record_crash at d =
    let kept = keep_if (is_recent d.window at) (d.timestamps ++ at ∷ []) in
    (record d { timestamps = kept }, leb d.max_crashes (length kept))

unfoldable pub reset : Detector → Detector
reset d = record d { timestamps = [] }
