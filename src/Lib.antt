-- ===== src/Lib.antt =====
-- x402-conformance: a black-box tester of endpoints that speak version 2 of the x402 payment
-- protocol. It probes an endpoint without a payment, sends it payments that are broken on purpose,
-- and turns what comes back into results, an exit code and reports.
--
-- The parts and their files, by the paths of the code from the repository's root:
--
--   src/x402_conformance/checks/base.py       Checks/Base: severities, statuses, reason codes,
--                                             results, the registration of a check
--   src/x402_conformance/report.py            Report: the summary, the exit codes, the reason of an
--                                             inconclusive run
--   src/x402_conformance/diff.py              Diff: the comparison of two reports
--   src/x402_conformance/safety.py            Safety: the allowlist of networks and the check of the
--                                             RPC's chain ID
--   src/x402_conformance/models.py            Models: the settlement and verification answers and,
--                                             in Models/Challenge, the payment challenge
--   src/x402_conformance/active.py            Active: the choice of a requirement (Choose), the
--                                             answer to a payment (Response), the retries (Retry)
--   src/x402_conformance/checks/negative.py   Checks/Negative: the shared verdict, the header probes
--                                             and, in Echo, the builder-code echo and, in Probes,
--                                             the signed payments; Checks/Evaluate: the sequential
--                                             and the concurrent run
--   src/x402_conformance/payload_builder.py   Payload: the payment, and in Tamper its tampered
--                                             forms
--   src/x402_conformance/probe.py             Probe: the staged decoding of a challenge
--   src/x402_conformance/runner.py            Runner: the passive run, with its retries (Retry) and
--                                             the probes of a PQC verifier (Pqc)
--   src/x402_conformance/checks/handshake.py  Checks/Handshake: the checks of the 402 handshake
--   src/x402_conformance/checks/path_variants.py  Checks/PathVariants: the variants of a URL (Build,
--                                             Paths, Escape) and the verdict on them
--   src/x402_conformance/checks/payment_required.py  Checks/PaymentRequired: the checks of the
--                                             challenge: its Shape, the Rails of its entries, the
--                                             Document, the BuilderCode, the Bindings of schemes to
--                                             networks, the payment Flow and the Offers
--   src/x402_conformance/checks/facilitator.py  Checks/Facilitator: the checks of a facilitator: the
--                                             Supported capabilities, the payments to Verify, the
--                                             headers in Extensions, the payments to Settle, and in
--                                             Evaluate the run
--   src/x402_conformance/checks/payment.py    Checks/Payment: the preflight, the Verdicts on the
--                                             payment, the proof of its Transfer, and the Flow with
--                                             replay and race
--   src/x402_conformance/error_registry.py    ErrorRegistry: the reason codes, by mechanism
--   src/x402_conformance/jp402.py             Jp402: the JP402 block, the invoices, powers of ten,
--                                             and the fetch of the OpenAPI document in runner.py
--   src/x402_conformance/scan.py              Scan: the entry of one facilitator, and the ranking
--
-- A passive run probes twice (Runner.Retry, Probe), requests the path variants, and runs the checks
-- of a registry on what came back (Runner.run_selected); an active run chooses a requirement from
-- the same challenge (Active.Choose, which asks Safety), sends payments (Active.Retry) and runs the
-- active checks (Checks.Evaluate). Both give lists of results to Report, whose reports Diff reads
-- back. A function of the code keeps its name without the leading underscore; where a loop or a
-- branch is a definition of its own, the name says which one, such as `choose_from` for the loop of
-- `choose_eip3009_requirement`. Exceptions are values: `none`, a result type of the module, or
-- `raised` for one that a runner catches. Checks are functions from a session or context, and a
-- registry is the list of its checks.
--
-- What is not code of the repository is a parameter: the HTTP client is a function from the number
-- of the attempt, from the request, or from the request and those before it, to the outcome; base64,
-- `json.loads`, which also gives the exceptions that nothing catches, and the texts of exceptions are
-- functions of the text; the signing library is the
-- record Payload.Library; `repr`, `str.lower` and the Unicode database are functions too, and the
-- hypothesis HasAscii says of the last only that the ASCII digits have their values. The random
-- nonce and the clock are values. Bytes are texts of one character to a byte, delays are in
-- milliseconds, floats are kept by their text. A URL is given by the five parts of
-- `urlsplit`, with a site that is not empty, and its text is what `urlunsplit` makes of them. Where two decoded values of any kind are compared, Python's `==` is a parameter, and the hypothesis
-- IsEquivalence says what it is on values other than NaN. The client of the chain gives the parts of
-- a receipt that the code reads. The order in which a thread pool completes its checks is a function
-- that permutes the results.
--
-- Loops are structural. The retries run on the number of attempts that are left, which is the
-- code's own bound of two retries, so none runs out. `decimal` and `strip_zeros` have as many rounds
-- as their number has units, and each round divides it by ten, so the number is used up first.
--
-- Not modelled are the checks of discovery documents, of post-quantum proofs and of Solana payments,
-- the renderings of a report, the redaction and the record of a run, RS-SEC-006 and RS-SEC-007 among
-- the active checks, and the JP402 tax breakdown with RS-PR-015, which checks it. Nor are the command
-- line, the MCP server and the timing check, whose decision is arithmetic on floats.
pub mod Prelude
pub mod Json
pub mod Checks
pub mod Report
pub mod Diff
pub mod Safety
pub mod Models
pub mod Payload
pub mod Active
pub mod Probe
pub mod Runner
pub mod Scan
pub mod Jp402
pub mod ErrorRegistry
pub mod Tests
