-- ===== src/Launcher/Disk/Quarantine.antt =====
-- internal/launcher/rollback.go: a version that failed is in the list of those.
use fuelmind.Base.{
  ℕ, ◌-◌, ◌≤◌, ◌≡◌, ◌≢◌, refl, true, ◌||◌, List, [], ◌∷◌, ◌++◌, arith, Text, text_eq, text_eq_refl,
  zero, suc, length, length-append, drop, Option, none,
}
use fuelmind.Launcher.Disk.{
  File, missing, broken, holds, FailedVersion, lists, is_quarantined, newest_20, quarantine,
}

lists-append :
    (v : Text) (l : List FailedVersion) (e : FailedVersion)
    → lists v (l ++ e ∷ []) ≡ (lists v l || text_eq e.version v)
lists-append v [] e = ground arith
lists-append v (f ∷ l) e = ground (arith, lists-append v l e)

lists-drop :
    (v : Text) (n : ℕ) (l : List FailedVersion) (e : FailedVersion)
    → n ≤ length l
    → lists v (drop n (l ++ e ∷ [])) ≡ (lists v (drop n l) || text_eq e.version v)
lists-drop v zero l e h = lists-append v l e
lists-drop v (suc n) [] e h = absurd (omega arith)
lists-drop v (suc n) (f ∷ l) e h = lists-drop v n l e (omega arith)

lists-newest_20 :
    (l : List FailedVersion) (e : FailedVersion) → lists e.version (newest_20 (l ++ e ∷ [])) ≡ true
unfolding newest_20
lists-newest_20 l e = ground (
  arith,
  lists-drop e.version (length (l ++ e ∷ []) - 20) l e,
  lists-append e.version l e,
  length-append l (e ∷ []),
  text_eq_refl e.version,
)

-- A failed version is quarantined, where the file can be read and written.
pub quarantine-is_quarantined :
    (fault : Option (File (List FailedVersion))) (v reason : Text) (now : ℕ)
    (f : File (List FailedVersion))
    → fault ≡ none
    → f ≢ broken
    → is_quarantined v (quarantine fault v reason now f) ≡ true
unfolding quarantine is_quarantined
quarantine-is_quarantined fault v reason now missing h b =
    ground (arith, lists-newest_20 [] (record { version = v; reason = reason; at = now }))
quarantine-is_quarantined fault v reason now broken h b = absurd (b refl)
quarantine-is_quarantined fault v reason now (holds l) h b =
    ground (arith, lists-newest_20 l (record { version = v; reason = reason; at = now }))
