-- ===== src/Tests/Runner.antt =====
-- probe.py and runner.py on one answer.
use x402_conformance.Prelude.{
  some, ℕ, zero, suc, ◌==◌, string_eq, String, ◌≡◌, ◌≢◌, ◌↔◌, refl, true, Bool, List, [], ◌∷◌, Any,
  if◌then◌else◌,
}
use x402_conformance.Json.{Json, Fields}
use x402_conformance.Active.Response.{HttpResponse, header}
use x402_conformance.Probe.{
  Probe, undecoded, record_literals, Base64, Loaded, Parse, build_probe, record_objects,
  record_duplicates,
}
use x402_conformance.Probe.Staged.{Staged}
use x402_conformance.Probe.Findings.{Holds, Repeated, Distinct, record_objects_iff}
use x402_conformance.Checks.Base.{
  major, pass, fail, skip, CheckReturn, plain, Check, Ran, returned, raised,
}
use x402_conformance.Checks.Handshake.{hs_002, hs_003, hs_004, hs_006}
use x402_conformance.Checks.Handshake.Laws.{one_failing_layer}
use x402_conformance.Runner.{run_selected}
use x402_conformance.Runner.Laws.{Match, run_selected-Match}
use x402_conformance.Runner.Pqc.{Receipt}

abbrev positive : String → Bool
positive s = true

abbrev b64decode : String → Base64
b64decode s = if s == "W10=" then Base64.bytes "[]" else Base64.invalid "Incorrect padding"

abbrev loads : String → Parse
loads s = record {
  end = returned (Loaded.malformed "Expecting value");
  constants = [];
  objects = [];
}

abbrev explain : Fields → String
explain fs = ""

abbrev garbled : HttpResponse
garbled = record { status_code = 402; headers = ("payment-required", "W10=") ∷ []; body = "" }

abbrev bare : Probe
bare = undecoded garbled

abbrev garbled_probe : Probe
garbled_probe = record bare {
  header_b64 = some "W10=";
  decoded = some "[]";
  json_error = some "invalid JSON: Expecting value";
}

garbled_built : build_probe positive b64decode loads explain garbled ≡ returned garbled_probe
unfolding build_probe header record_literals record_duplicates
garbled_built = refl

garbled-Staged : Staged garbled_probe
garbled-Staged = record { base64_stage = tt; json_stage = tt; schema_stage = tt }

-- Bytes that are no UTF-8 end the probe.
abbrev hostile_loads : String → Parse
hostile_loads s = record { end = raised "UnicodeDecodeError"; constants = []; objects = [] }

hostile_escapes :
    build_probe positive b64decode hostile_loads explain garbled ≡ raised "UnicodeDecodeError"
unfolding build_probe header record_literals record_duplicates
hostile_escapes = refl

one_failing_layer_example :
    ((hs_002 garbled_probe).0 ≡ fail
      → ((hs_003 garbled_probe).0 ≡ skip)
        × ((hs_004 garbled_probe).0 ≡ skip)
        × ((hs_006 garbled_probe).0 ≡ skip))
    × ((hs_003 garbled_probe).0 ≡ fail
        → ((hs_004 garbled_probe).0 ≡ skip) × ((hs_006 garbled_probe).0 ≡ skip))
    × ((hs_004 garbled_probe).0 ≡ fail
        → ((hs_003 garbled_probe).0 ≡ pass) × ((hs_006 garbled_probe).0 ≡ skip))
    × ((hs_006 garbled_probe).0 ≡ pass
        → ((hs_002 garbled_probe).0 ≢ fail)
          × ((hs_003 garbled_probe).0 ≡ pass)
          × ((hs_004 garbled_probe).0 ≢ fail))
one_failing_layer_example = one_failing_layer garbled_probe garbled-Staged

abbrev objects : List (List String)
objects = ("scheme" ∷ "amount" ∷ "scheme" ∷ []) ∷ ("amount" ∷ []) ∷ []

duplicate_found : record_objects [] objects ≡ "scheme" ∷ []
unfolding record_duplicates
duplicate_found = refl

record_objects_iff_example :
    ((name : String) → Holds name (record_objects [] objects) ↔ Any (Repeated name) objects)
    × Distinct (record_objects [] objects)
record_objects_iff_example = record_objects_iff objects

abbrev passive_check : String → Ran CheckReturn → Check (Unit {0}) CheckReturn
passive_check id ran = record {
  check_id = id;
  title = "";
  severity = major;
  spec_ref = "";
  func = λ session. ran;
}

abbrev checks : List (Check (Unit {0}) CheckReturn)
checks =
    passive_check "RS-HS-001" (raised "ValueError()")
    ∷ passive_check "RS-HS-002" (returned (plain pass ""))
    ∷ []

run_selected-Match_example : Match tt checks (run_selected checks tt)
run_selected-Match_example = run_selected-Match checks tt

-- A server that is starting, and then its challenge.
abbrev starting : ℕ → HttpResponse
starting zero = record { status_code = 503; headers = []; body = "" }
starting (suc n) = record { status_code = 402; headers = []; body = "" }

abbrev pqc : Fields
pqc = Fields.field "signature" (Json.str "AQID") Fields.end

abbrev sig_v2 : Fields
sig_v2 = Fields.field "pqc" (Json.obj pqc) Fields.end

abbrev receipt : Receipt
receipt = record {
  verify_url = "https://verify.example";
  receipt = Fields.field "sig_v2" (Json.obj sig_v2) Fields.end;
  sig_v2 = sig_v2;
  pqc = pqc;
  signature = "AQID";
}
