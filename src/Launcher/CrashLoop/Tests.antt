-- ===== src/Launcher/CrashLoop/Tests.antt =====
-- Three crashes in ten minutes, and three spread over a longer time.
use fuelmind.Base.{◌≡◌, refl, true, false, [], ◌∷◌, ◌++◌, arith, leb, length, keep_if}
use fuelmind.Launcher.CrashLoop.{record_crash, new_detector, is_recent}
use fuelmind.Launcher.CrashLoop.Window.{record_all, record_crash_counts}

three_close : (record_crash 500 (record_all (new_detector 3 600) (100 ∷ 300 ∷ []))).1 ≡ true
unfolding record_crash record_all new_detector
three_close = refl

three_apart : (record_crash 900 (record_all (new_detector 3 600) (100 ∷ 500 ∷ []))).1 ≡ false
unfolding record_crash record_all new_detector
three_apart = refl

record_crash_counts_example :
    (record_crash 900 (record_all (new_detector 3 600) (100 ∷ 500 ∷ []))).1
    ≡ leb 3 (length (keep_if (is_recent 600 900) ((100 ∷ 500 ∷ []) ++ 900 ∷ [])))
record_crash_counts_example = record_crash_counts 3 600 (100 ∷ 500 ∷ []) 900 (omega arith)
