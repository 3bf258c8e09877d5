-- ===== src/Tests/Scan.antt =====
-- scan.py on two entries.
use x402_conformance.Prelude.{ℕ, String, ◌≡◌, refl, false, none, List, [], ◌∷◌}
use x402_conformance.Scan.{ScanEntry, rank_scan, insert_ranked, ranks_le}

abbrev entry : String → ℕ → ScanEntry
entry url gating = record {
  url = url;
  passed = 0;
  failed = gating;
  skipped = 0;
  errors = 0;
  gating_failures = gating;
  conformant = false;
  unreachable = none;
  fail_ids = [];
}

abbrev entries : List ScanEntry
entries = entry "https://a.example" 1 ∷ entry "https://b.example" 2 ∷ []

worst_first : rank_scan entries ≡ entry "https://b.example" 2 ∷ entry "https://a.example" 1 ∷ []
unfolding rank_scan insert_ranked ranks_le
worst_first = refl
