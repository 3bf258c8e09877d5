-- ===== src/Tests/Jp402.antt =====
-- jp402.py on single values.
use x402_conformance.Prelude.{◌≡◌, refl, true}
use x402_conformance.Jp402.{is_t_number}

-- A line feed behind the thirteen digits is let through.
line_feed_accepted : is_t_number "T1234567890123\n" ≡ true
unfolding is_t_number
line_feed_accepted = refl
