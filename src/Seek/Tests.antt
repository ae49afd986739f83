-- ===== src/Seek/Tests.antt =====
-- Runs of the path repair of seek/src/windows/mod.rs.
use kiruna.Base.{ℕ, List, [], ◌∷◌, false, ◌≡◌, refl}
use kiruna.Seek.{fix_path, backslash, drain_prefix}

abbrev drive_path : List ℕ
drive_path = 67 ∷ 58 ∷ 47 ∷ 97 ∷ []

fix_path_run : fix_path (λ p. false) (λ p. p) drive_path ≡ 67 ∷ 58 ∷ 92 ∷ 97 ∷ []
unfolding fix_path backslash drain_prefix
fix_path_run = refl
