-- ===== src/ErrorRegistry.antt =====
-- error_registry.py: the wire codes that mechanisms declare outside the legacy enumeration.
mod Core
mod Evm
mod Svm
use x402_conformance.Prelude.{String, List, [], ◌∷◌, ◌++◌}
use x402_conformance.ErrorRegistry.Core.{
  core_codes, signin_codes, python_codes, casper_codes, avm_codes, cardano_codes,
}
use x402_conformance.ErrorRegistry.Evm.{
  auth_capture_codes, batch_settlement_codes, exact_evm_codes, permit2_codes, upto_evm_codes,
  typescript_evm_codes,
}
use x402_conformance.ErrorRegistry.Svm.{exact_svm_codes, upto_svm_codes, typescript_svm_codes}

abbrev pub mechanism_error_codes : List String
mechanism_error_codes =
    core_codes ++ signin_codes ++ python_codes ++ casper_codes ++ avm_codes ++ cardano_codes
    ++ auth_capture_codes ++ batch_settlement_codes ++ exact_evm_codes ++ permit2_codes
    ++ upto_evm_codes ++ typescript_evm_codes ++ exact_svm_codes ++ upto_svm_codes
    ++ typescript_svm_codes
