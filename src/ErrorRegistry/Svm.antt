-- ===== src/ErrorRegistry/Svm.antt =====
-- error_registry.py: the codes that the upstream packages declare, by the files that declare them.
use x402_conformance.Prelude.{String, List, [], ◌∷◌}

-- The exact scheme on Solana
abbrev pub exact_svm_codes : List String
exact_svm_codes =
    "duplicate_settlement" ∷ "invalid_exact_solana_fee_payer_mismatch"
    ∷ "invalid_exact_solana_fee_payer_not_managed_by_facilitator"
    ∷ "invalid_exact_solana_invalid_fee_payer" ∷ "invalid_exact_solana_network_mismatch"
    ∷ "invalid_exact_solana_payload_amount_mismatch"
    ∷ "invalid_exact_solana_payload_excessive_signers" ∷ "invalid_exact_solana_payload_memo_count"
    ∷ "invalid_exact_solana_payload_memo_mismatch" ∷ "invalid_exact_solana_payload_mint_mismatch"
    ∷ "invalid_exact_solana_payload_missing_fee_payer"
    ∷ "invalid_exact_solana_payload_no_transfer_instruction"
    ∷ "invalid_exact_solana_payload_recipient_mismatch"
    ∷ "invalid_exact_solana_payload_signature_invalid" ∷ "invalid_exact_solana_payload_transaction"
    ∷ "invalid_exact_solana_payload_transaction_could_not_be_decoded"
    ∷ "invalid_exact_solana_payload_transaction_fee_payer_transferring_funds"
    ∷ "invalid_exact_solana_payload_transaction_instructions_compute_limit_instruction"
    ∷ "invalid_exact_solana_payload_transaction_instructions_compute_limit_instruction_too_high"
    ∷ "invalid_exact_solana_payload_transaction_instructions_compute_price_instruction"
    ∷ "invalid_exact_solana_payload_transaction_instructions_compute_price_instruction_too_high"
    ∷ "invalid_exact_solana_payload_transaction_instructions_length"
    ∷ "invalid_exact_solana_payload_unknown_fifth_instruction"
    ∷ "invalid_exact_solana_payload_unknown_fourth_instruction"
    ∷ "invalid_exact_solana_payload_unknown_optional_instruction"
    ∷ "invalid_exact_solana_payload_unknown_seventh_instruction"
    ∷ "invalid_exact_solana_payload_unknown_sixth_instruction"
    ∷ "invalid_exact_solana_smart_wallet_alt_resolution_failed"
    ∷ "invalid_exact_solana_smart_wallet_alt_resolution_not_available"
    ∷ "invalid_exact_solana_smart_wallet_cannot_derive_destination_ata"
    ∷ "invalid_exact_solana_smart_wallet_compute_budget_violation"
    ∷ "invalid_exact_solana_smart_wallet_compute_units_too_high"
    ∷ "invalid_exact_solana_smart_wallet_fee_payer_not_isolated"
    ∷ "invalid_exact_solana_smart_wallet_malformed_compute_budget"
    ∷ "invalid_exact_solana_smart_wallet_malformed_compute_limit"
    ∷ "invalid_exact_solana_smart_wallet_malformed_compute_price"
    ∷ "invalid_exact_solana_smart_wallet_multiple_matching_transfers"
    ∷ "invalid_exact_solana_smart_wallet_no_transfer_in_simulation"
    ∷ "invalid_exact_solana_smart_wallet_priority_fee_too_high"
    ∷ "invalid_exact_solana_smart_wallet_program_not_allowed"
    ∷ "invalid_exact_solana_smart_wallet_simulation_failed"
    ∷ "invalid_exact_solana_smart_wallet_transfer_mismatch"
    ∷ "invalid_exact_solana_smart_wallet_unsupported_compute_budget_instruction"
    ∷ "invalid_exact_solana_smart_wallet_verification_not_available"
    ∷ "invalid_exact_solana_transaction_failed" ∷ "invalid_exact_solana_transaction_signing_failed"
    ∷ "invalid_exact_solana_transaction_simulation_failed"
    ∷ "invalid_exact_solana_unsupported_scheme" ∷ "invalid_exact_solana_verification_failed"
    ∷ "post_settlement_transfer_not_confirmed" ∷ "invalid_exact_solana_extra_field"
    ∷ "invalid_exact_solana_transaction_confirmation_failed" ∷ []

-- The upto scheme on Solana
abbrev pub upto_svm_codes : List String
upto_svm_codes =
    "facilitator_mismatch" ∷ "invalid_upto_svm_authorizer_address_mismatch"
    ∷ "invalid_upto_svm_authorizer_not_configured" ∷ "invalid_upto_svm_channel_already_open"
    ∷ "invalid_upto_svm_channel_broadcast" ∷ "invalid_upto_svm_channel_state"
    ∷ "invalid_upto_svm_delegated_auth_store" ∷ "invalid_upto_svm_delegated_settle_unauthenticated"
    ∷ "invalid_upto_svm_payload_amount" ∷ "invalid_upto_svm_payload_amount_mismatch"
    ∷ "invalid_upto_svm_payload_channel_id" ∷ "invalid_upto_svm_payload_channel_lifetime_exceeded"
    ∷ "invalid_upto_svm_payload_channel_seed" ∷ "invalid_upto_svm_payload_deposit_not_ceiling"
    ∷ "invalid_upto_svm_payload_expired" ∷ "invalid_upto_svm_payload_expires_at_mismatch"
    ∷ "invalid_upto_svm_payload_missing_voucher" ∷ "invalid_upto_svm_payload_nonce"
    ∷ "invalid_upto_svm_payload_not_yet_active" ∷ "invalid_upto_svm_payload_open_transaction"
    ∷ "invalid_upto_svm_payload_payer_mismatch" ∷ "invalid_upto_svm_payload_receiver_authorizer"
    ∷ "invalid_upto_svm_payload_settlement_exceeds_amount" ∷ "invalid_upto_svm_payload_type"
    ∷ "invalid_upto_svm_payload_unexpected_voucher" ∷ "invalid_upto_svm_payload_voucher_signature"
    ∷ "invalid_upto_svm_payment_requirements" ∷ "invalid_upto_svm_settlement_simulation"
    ∷ "transaction_failed" ∷ []

-- The TypeScript package for Solana
abbrev pub typescript_svm_codes : List String
typescript_svm_codes =
    "invalid_exact_svm_fee_payer_mismatch"
    ∷ "invalid_exact_svm_fee_payer_not_managed_by_facilitator"
    ∷ "invalid_exact_svm_invalid_fee_payer" ∷ "invalid_exact_svm_network_mismatch"
    ∷ "invalid_exact_svm_payload_amount_mismatch" ∷ "invalid_exact_svm_payload_excessive_signers"
    ∷ "invalid_exact_svm_payload_signature_invalid" ∷ "invalid_exact_svm_payload_transaction"
    ∷ "invalid_exact_svm_payload_transaction_instructions_compute_limit_instruction"
    ∷ "invalid_exact_svm_payload_transaction_instructions_compute_limit_instruction_too_high"
    ∷ "invalid_exact_svm_payload_transaction_instructions_compute_price_instruction"
    ∷ "invalid_exact_svm_payload_transaction_instructions_compute_price_instruction_too_high"
    ∷ "invalid_exact_svm_payload_unknown_optional_instruction"
    ∷ "invalid_exact_svm_payload_unknown_seventh_instruction"
    ∷ "invalid_exact_svm_smart_wallet_alt_resolution_failed"
    ∷ "invalid_exact_svm_smart_wallet_alt_resolution_not_available"
    ∷ "invalid_exact_svm_smart_wallet_cannot_derive_destination_ata"
    ∷ "invalid_exact_svm_smart_wallet_compute_budget_violation"
    ∷ "invalid_exact_svm_smart_wallet_compute_units_too_high"
    ∷ "invalid_exact_svm_smart_wallet_fee_payer_not_isolated"
    ∷ "invalid_exact_svm_smart_wallet_malformed_compute_budget"
    ∷ "invalid_exact_svm_smart_wallet_malformed_compute_limit"
    ∷ "invalid_exact_svm_smart_wallet_malformed_compute_price"
    ∷ "invalid_exact_svm_smart_wallet_multiple_matching_transfers"
    ∷ "invalid_exact_svm_smart_wallet_no_transfer_in_simulation"
    ∷ "invalid_exact_svm_smart_wallet_priority_fee_too_high"
    ∷ "invalid_exact_svm_smart_wallet_program_not_allowed"
    ∷ "invalid_exact_svm_smart_wallet_simulation_failed"
    ∷ "invalid_exact_svm_smart_wallet_transfer_mismatch"
    ∷ "invalid_exact_svm_smart_wallet_unsupported_compute_budget_instruction"
    ∷ "invalid_exact_svm_smart_wallet_verification_not_available"
    ∷ "invalid_exact_svm_transaction_failed" ∷ "invalid_exact_svm_transaction_signing_failed"
    ∷ "invalid_exact_svm_transaction_simulation_failed" ∷ "invalid_exact_svm_unsupported_scheme"
    ∷ "invalid_exact_svm_verification_failed" ∷ []
