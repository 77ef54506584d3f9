-- ===== src/Scan/Tests.antt =====
-- Runs of pkg/scan/state.go.
use cafe_discovery.Base.{true, ◌≡◌, refl}
use cafe_discovery.Scan.{success, is_terminal}

success_terminal : is_terminal success ≡ true
unfolding is_terminal
success_terminal = refl
