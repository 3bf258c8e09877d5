-- ===== src/Probe/Staged.antt =====
-- The stages of `build_probe`: each one runs on the result of the one before it.
use x402_conformance.Prelude.{String, ◌≡◌, ◌≤◌, List, Bool, Option, none, some}
use x402_conformance.Json.{Json, Fields}
use x402_conformance.Active.Response.{HttpResponse}
use x402_conformance.Checks.Base.{Ran, returned, raised}
use x402_conformance.Probe.{Probe, undecoded, Base64, Parse, size, max_challenge_bytes}

-- A stage without input has neither result nor error; with one it has exactly one of the two.
abbrev pub Stage : {A B : Type 0} → Option A → Option B → Option String → Type 0
Stage none none none = Unit
Stage none _ _ = ⊥
Stage (some _) none (some _) = Unit
Stage (some _) (some _) none = Unit
Stage (some _) _ _ = ⊥

pub record Staged (p : Probe) : Type 0 where
  pub base64_stage : Stage p.header_b64 p.decoded p.decode_error
  pub json_stage : Stage p.decoded p.raw p.json_error
  pub schema_stage : Stage p.raw p.parsed p.parse_error

module _ (positive : String → Bool) (b64decode : String → Base64) (loads : String → Parse)
    (explain : Fields → String) where
  abbrev at_bytes : HttpResponse → String → String → List String → List String → Probe
  at_bytes response value content literals duplicates = record (undecoded response) {
    header_b64 = some value;
    decoded = some content;
    nonstandard_json_literals = literals;
    duplicate_json_keys = duplicates;
  }

  abbrev stages :
      {p : Probe}
      → Stage p.header_b64 p.decoded p.decode_error
      → Stage p.decoded p.raw p.json_error
      → Stage p.raw p.parsed p.parse_error
      → Staged p
  stages a b c = record { base64_stage = a; json_stage = b; schema_stage = c }

  -- The exception of `json.loads` on the decoded header, which is not over the limit.
  pub record Escaped (value : Option String) (exc : String) : Type 0 where
    pub header_value : String
    pub is_value : value ≡ some header_value
    pub content : String
    pub is_content : b64decode header_value ≡ Base64.bytes content
    pub within : size content ≤ max_challenge_bytes
    pub is_raised : (loads content).end ≡ raised exc

  abbrev pub Built : Option String → Ran Probe → Type 0
  Built value (returned p) = Staged p
  Built value (raised exc) = Escaped value exc
