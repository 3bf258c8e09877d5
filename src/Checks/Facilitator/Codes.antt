-- ===== src/Checks/Facilitator/Codes.antt =====
-- checks/facilitator.py: the codes that FA-ERR-001 knows.
use x402_conformance.Prelude.{String, Bool, List, [], ◌∷◌, ◌++◌}
use x402_conformance.Probe.{member}
use x402_conformance.ErrorRegistry.{mechanism_error_codes}

abbrev pub spec_error_reasons : List String
spec_error_reasons =
    "insufficient_funds" ∷ "invalid_exact_evm_payload_authorization_valid_after"
    ∷ "invalid_exact_evm_payload_authorization_valid_before"
    ∷ "invalid_exact_evm_payload_authorization_value"
    ∷ "invalid_exact_evm_payload_authorization_value_mismatch"
    ∷ "invalid_exact_evm_payload_signature" ∷ "invalid_exact_evm_payload_undeployed_smart_wallet"
    ∷ "invalid_exact_evm_payload_recipient_mismatch" ∷ "invalid_exact_svm_payload_transaction"
    ∷ "invalid_exact_svm_payload_transaction_amount_mismatch"
    ∷ "invalid_exact_svm_payload_transaction_create_ata_instruction"
    ∷ "invalid_exact_svm_payload_transaction_create_ata_instruction_incorrect_payee"
    ∷ "invalid_exact_svm_payload_transaction_create_ata_instruction_incorrect_asset"
    ∷ "invalid_exact_svm_payload_transaction_instructions"
    ∷ "invalid_exact_svm_payload_transaction_instructions_length"
    ∷ "invalid_exact_svm_payload_transaction_instructions_compute_limit_instruction"
    ∷ "invalid_exact_svm_payload_transaction_instructions_compute_price_instruction"
    ∷ "invalid_exact_svm_payload_transaction_instructions_compute_price_instruction_too_high"
    ∷ "invalid_exact_svm_payload_transaction_instruction_not_spl_token_transfer_checked"
    ∷ "invalid_exact_svm_payload_transaction_instruction_not_token_2022_transfer_checked"
    ∷ "invalid_exact_svm_payload_transaction_fee_payer_included_in_instruction_accounts"
    ∷ "invalid_exact_svm_payload_transaction_fee_payer_transferring_funds"
    ∷ "invalid_exact_svm_payload_transaction_not_a_transfer_instruction"
    ∷ "invalid_exact_svm_payload_transaction_receiver_ata_not_found"
    ∷ "invalid_exact_svm_payload_transaction_sender_ata_not_found"
    ∷ "invalid_exact_svm_payload_transaction_simulation_failed"
    ∷ "invalid_exact_svm_payload_transaction_transfer_to_incorrect_ata" ∷ "invalid_network"
    ∷ "invalid_payload" ∷ "invalid_payment_requirements" ∷ "invalid_scheme" ∷ "invalid_payment"
    ∷ "payment_expired" ∷ "unsupported_scheme" ∷ "invalid_x402_version"
    ∷ "invalid_transaction_state" ∷ "settle_exact_svm_block_height_exceeded"
    ∷ "settle_exact_svm_transaction_confirmation_timed_out" ∷ "unexpected_settle_error"
    ∷ "unexpected_verify_error" ∷ "duplicate_settlement" ∷ []

abbrev pub local_error_codes : List String
local_error_codes = "asset_not_deployed_contract" ∷ []

abbrev pub retired_error_codes : List String
retired_error_codes =
    "invalid_exact_solana_payload_amount_insufficient" ∷ "invalid_exact_evm_server_amount_required"
    ∷ "invalid_exact_evm_server_failed_to_convert_amount"
    ∷ "invalid_exact_evm_server_failed_to_parse_price" ∷ "invalid_exact_evm_server_invalid_amount"
    ∷ "invalid_exact_evm_server_invalid_asset" ∷ "invalid_exact_evm_server_invalid_payto_address"
    ∷ "invalid_exact_evm_server_invalid_token_amount"
    ∷ "invalid_exact_evm_server_unsupported_price_type" ∷ "invalid_upto_evm_server_amount_required"
    ∷ "invalid_upto_evm_server_failed_to_convert_amount"
    ∷ "invalid_upto_evm_server_failed_to_parse_price" ∷ "invalid_upto_evm_server_invalid_amount"
    ∷ "invalid_upto_evm_server_invalid_asset" ∷ "invalid_upto_evm_server_invalid_payto_address"
    ∷ "invalid_upto_evm_server_invalid_token_amount"
    ∷ "invalid_upto_evm_server_unsupported_price_type" ∷ []

abbrev pub known_error_codes : List String
known_error_codes =
    spec_error_reasons ++ mechanism_error_codes ++ local_error_codes ++ retired_error_codes

-- reason in KNOWN_ERROR_CODES
unfoldable pub is_known : String → Bool
is_known reason = member reason known_error_codes
