-- ===== src/Launcher/CrashLoop/Window.antt =====
-- The detector against the whole history of crashes: what RecordCrash forgets never matters.
use fuelmind.Base.{
  ℕ, ◌≤◌, ◌≡◌, refl, ◌∙◌, ap, sym, Bool, List, [], ◌∷◌, ◌++◌, arith, leb, length, keep_if,
}
use mathlib.Core.List.{append-nil, append_assoc}
use fuelmind.Launcher.CrashLoop.{Detector, new_detector, record_crash, is_recent}

-- Times in order, none before `a` and none after `b`.
abbrev pub Ascends : ℕ → List ℕ → ℕ → Type 0
Ascends a [] b = a ≤ b
Ascends a (t ∷ ts) b = (a ≤ t) × Ascends t ts b

-- Detecting one crash after another.
unfoldable pub record_all : Detector → List ℕ → Detector
record_all d [] = d
record_all d (t ∷ ts) = record_all (record_crash t d).0 ts

keep_if-append {ℓ} :
    {A : Type ℓ} (p : A → Bool) (xs ys : List A)
    → keep_if p (xs ++ ys) ≡ keep_if p xs ++ keep_if p ys
keep_if-append p [] ys = refl
keep_if-append p (x ∷ xs) ys = ground (arith, keep_if-append p xs ys)

-- What has fallen out of an earlier window is out of a later one.
keep_if-recent :
    (w a b : ℕ) (ts : List ℕ)
    → a ≤ b
    → keep_if (is_recent w b) (keep_if (is_recent w a) ts) ≡ keep_if (is_recent w b) ts
keep_if-recent w a b [] h = refl
keep_if-recent w a b (t ∷ ts) h = ground (arith, keep_if-recent w a b ts h)

module _ (m w : ℕ) where
  -- The detector holds what is recent, at its last crash, of a history.
  record Sees (d : Detector) (history : List ℕ) (last : ℕ) : Type 0 where
    max : d.max_crashes ≡ m
    window : d.window ≡ w
    seen : d.timestamps ≡ keep_if (is_recent w last) history

  recorded :
      (d : Detector) (history : List ℕ) (last at : ℕ)
      → last ≤ at
      → Sees d history last
      → keep_if (is_recent d.window at) (d.timestamps ++ at ∷ [])
        ≡ keep_if (is_recent w at) (history ++ at ∷ [])
  recorded d history last at le s =
      rw (s.window, s.seen)
        (keep_if-append recent (keep_if (is_recent w last) history) (at ∷ [])
          ∙ (ap (λ ts. ts ++ keep_if recent (at ∷ [])) (keep_if-recent w last at history le)
              ∙ sym (keep_if-append recent history (at ∷ []))))
    where
      recent : ℕ → Bool
      recent = is_recent w at

  record_crash-Sees :
      (d : Detector) (history : List ℕ) (last at : ℕ)
      → last ≤ at
      → Sees d history last
      → Sees (record_crash at d).0 (history ++ at ∷ []) at
  unfolding record_crash
  record_crash-Sees d history last at le s = record {
    max = s.max;
    window = s.window;
    seen = recorded d history last at le s;
  }

  record_all-Sees :
      (d : Detector) (history ts : List ℕ) (last at : ℕ)
      → Ascends last ts at
      → Sees d history last
      → (l : ℕ) × (l ≤ at) × Sees (record_all d ts) (history ++ ts) l
  unfolding record_all
  record_all-Sees d history [] last at le s = (last, le, rw append-nil s)
  record_all-Sees d history (t ∷ ts) last at le s =
      let (l, bound, sees) =
        record_all-Sees (record_crash t d).0 (history ++ t ∷ []) ts t at le.1
          (record_crash-Sees d history last t le.0 s) in
      (l, bound, rw append_assoc at sees)

  new_detector-Sees : Sees (new_detector m w) [] 0
  unfolding new_detector
  new_detector-Sees = record { max = refl; window = refl; seen = refl }

  -- After any crashes in order of time, the next one raises the alarm exactly when at least `m` of
  -- them all, itself included, lie inside the window that ends with it, though the detector has
  -- forgotten those that had left an earlier window.
  pub record_crash_counts :
      (ts : List ℕ) (at : ℕ)
      → Ascends 0 ts at
      → (record_crash at (record_all (new_detector m w) ts)).1
        ≡ leb m (length (keep_if (is_recent w at) (ts ++ at ∷ [])))
  unfolding record_crash
  record_crash_counts ts at sorted =
      let (l, bound, s) = record_all-Sees (new_detector m w) [] ts 0 at sorted new_detector-Sees in
      rw s.max (ap (λ kept. leb m (length kept)) (recorded _ ts l at bound s))
