-- ===== src/Checks/Handshake/Laws.antt =====
-- The verdicts of the handshake checks, and the one layer that fails.
use x402_conformance.Prelude.{ℕ, ◌≤◌, ◌<◌, String, ◌≡◌, ◌≢◌, ◌↔◌, ◌⊎◌, none, arith, nat_eq}
use x402_conformance.Probe.{Probe}
use x402_conformance.Probe.Staged.{Staged}
use x402_conformance.Checks.Base.{Status, pass, fail, skip, CheckReturn, plain, qualified}
use x402_conformance.Checks.Handshake.{
  facilitator_path_kind, hs_001, hs_002, hs_003, hs_004, hs_006,
}

abbrev pub status_of : CheckReturn → Status
status_of (plain status detail) = status
status_of (qualified status detail code) = status

abbrev pub Success : ℕ → Type 0
Success code = (200 ≤ code) × (code < 300)

-- The path names a facilitator or discovery endpoint, and no payment header came back.
abbrev pub WrongTarget : String → Probe → Type 0
WrongTarget path p = (facilitator_path_kind path ≢ none) × (p.header_b64 ≡ none)

-- The check passes exactly on a 402. It is skipped exactly on a server error, and on a 2xx of a
-- facilitator or discovery path without a payment header; every other status is a FAIL.
pub hs_001_iff :
    (path : String) (p : Probe)
    → ((status_of (hs_001 path p) ≡ pass) ↔ (p.status_code ≡ 402))
      × ((status_of (hs_001 path p) ≡ skip)
          ↔ (500 ≤ p.status_code) ⊎ Success p.status_code × WrongTarget path p)
      × ((status_of (hs_001 path p) ≡ fail)
          ↔ (p.status_code ≢ 402)
            × (p.status_code < 500)
            × (Success p.status_code × WrongTarget path p → ⊥))
unfolding hs_001
hs_001_iff path p = (ground arith, ground arith, ground arith)

-- Of a probe with proper stages at most one of the three decoding checks fails, so a failure names
-- the first layer that is broken; and if the header is parsed, the base64 check passes and neither of
-- the other two fails.
pub one_failing_layer :
    (p : Probe)
    → Staged p
    → ((hs_002 p).0 ≡ fail → ((hs_003 p).0 ≡ skip) × ((hs_004 p).0 ≡ skip) × ((hs_006 p).0 ≡ skip))
      × ((hs_003 p).0 ≡ fail → ((hs_004 p).0 ≡ skip) × ((hs_006 p).0 ≡ skip))
      × ((hs_004 p).0 ≡ fail → ((hs_003 p).0 ≡ pass) × ((hs_006 p).0 ≡ skip))
      × ((hs_006 p).0 ≡ pass
          → ((hs_002 p).0 ≢ fail) × ((hs_003 p).0 ≡ pass) × ((hs_004 p).0 ≢ fail))
unfolding hs_002 hs_003 hs_004 hs_006
one_failing_layer p s =
    let a = s.base64_stage in
    let b = s.json_stage in
    let c = s.schema_stage in
    (
      ground (arith, a, b, c),
      ground (arith, a, b, c),
      ground (arith, a, b, c),
      ground (arith, a, b, c),
    )
