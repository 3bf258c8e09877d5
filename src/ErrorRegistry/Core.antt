-- ===== src/ErrorRegistry/Core.antt =====
-- error_registry.py: the codes that the upstream packages declare, by the files that declare them.
use x402_conformance.Prelude.{String, List, [], ◌∷◌}

-- go/errors.go
abbrev pub core_codes : List String
core_codes =
    "failed_to_marshal_payload" ∷ "failed_to_marshal_requirements" ∷ "insufficient_funds"
    ∷ "invalid_payment" ∷ "invalid_response" ∷ "invalid_v1_payload" ∷ "invalid_v1_requirements"
    ∷ "invalid_v2_payload" ∷ "invalid_v2_requirements" ∷ "invalid_version" ∷ "network_mismatch"
    ∷ "no_facilitator_for_network" ∷ "payment_expired" ∷ "payment_required" ∷ "scheme_mismatch"
    ∷ "settlement_failed" ∷ "settlement_pending" ∷ "signature_invalid" ∷ "unsupported_network"
    ∷ "unsupported_scheme" ∷ []

-- go/extensions/signinwithx/types.go
abbrev pub signin_codes : List String
signin_codes =
    "invalid_siwx_chain_id" ∷ "invalid_siwx_domain_mismatch" ∷ "invalid_siwx_expiration_time"
    ∷ "invalid_siwx_expired" ∷ "invalid_siwx_issued_at" ∷ "invalid_siwx_issued_at_in_future"
    ∷ "invalid_siwx_issued_at_too_old" ∷ "invalid_siwx_malformed_signature" ∷ "invalid_siwx_nonce"
    ∷ "invalid_siwx_not_before" ∷ "invalid_siwx_not_yet_valid" ∷ "invalid_siwx_signature"
    ∷ "invalid_siwx_unsupported_chain" ∷ "invalid_siwx_uri_mismatch" ∷ "invalid_siwx_verifier_error"
    ∷ []

-- The constants of the Python package, and its server_base.py
abbrev pub python_codes : List String
python_codes =
    "invalid_exact_evm_failed_to_get_asset_info" ∷ "missing_eip712_domain"
    ∷ "fee_payer_not_managed_by_facilitator" ∷ "invalid_exact_svm_payload"
    ∷ "invalid_exact_svm_payload_amount_insufficient" ∷ "invalid_exact_svm_payload_memo_count"
    ∷ "invalid_exact_svm_payload_memo_mismatch" ∷ "invalid_exact_svm_payload_mint_mismatch"
    ∷ "invalid_exact_svm_payload_missing_fee_payer"
    ∷ "invalid_exact_svm_payload_no_transfer_instruction"
    ∷ "invalid_exact_svm_payload_recipient_mismatch"
    ∷ "invalid_exact_svm_payload_transaction_could_not_be_decoded"
    ∷ "invalid_exact_svm_payload_transaction_fee_payer_transferring_funds"
    ∷ "invalid_exact_svm_payload_transaction_instructions_length"
    ∷ "invalid_exact_svm_payload_unknown_fifth_instruction"
    ∷ "invalid_exact_svm_payload_unknown_fourth_instruction"
    ∷ "invalid_exact_svm_payload_unknown_sixth_instruction" ∷ "transaction_simulation_failed"
    ∷ "account_frozen" ∷ "facilitator_insufficient_balance" ∷ "insufficient_balance"
    ∷ "invalid_exact_tvm_payload" ∷ "invalid_exact_tvm_payload_amount_mismatch"
    ∷ "invalid_exact_tvm_payload_asset_mismatch"
    ∷ "invalid_exact_tvm_payload_attached_ton_amount_too_high"
    ∷ "invalid_exact_tvm_payload_extensions_dict_mismatch"
    ∷ "invalid_exact_tvm_payload_invalid_code_hash" ∷ "invalid_exact_tvm_payload_invalid_signature"
    ∷ "invalid_exact_tvm_payload_jetton_transfer" ∷ "invalid_exact_tvm_payload_recipient_mismatch"
    ∷ "invalid_exact_tvm_payload_seqno_mismatch" ∷ "invalid_exact_tvm_payload_settlement_boc"
    ∷ "invalid_exact_tvm_payload_signature_mode_mismatch"
    ∷ "invalid_exact_tvm_payload_valid_until_expired"
    ∷ "invalid_exact_tvm_payload_valid_until_too_far" ∷ "invalid_exact_tvm_payload_w5_actions"
    ∷ "invalid_exact_tvm_payload_w5_internal_signed_request"
    ∷ "invalid_exact_tvm_payload_wallet_id_mismatch" ∷ "simulation_failed" ∷ "unsupported_version"
    ∷ "extension_echo_mismatch" ∷ []

-- The facilitator of Casper
abbrev pub casper_codes : List String
casper_codes =
    "invalid_exact_casper_facilitator_amount_mismatch"
    ∷ "invalid_exact_casper_facilitator_authorization_used_or_canceled"
    ∷ "invalid_exact_casper_facilitator_expired" ∷ "invalid_exact_casper_facilitator_failed_to_hash"
    ∷ "invalid_exact_casper_facilitator_insufficient_balance"
    ∷ "invalid_exact_casper_facilitator_invalid_asset"
    ∷ "invalid_exact_casper_facilitator_invalid_payer"
    ∷ "invalid_exact_casper_facilitator_invalid_payto"
    ∷ "invalid_exact_casper_facilitator_invalid_scheme"
    ∷ "invalid_exact_casper_facilitator_invalid_signature"
    ∷ "invalid_exact_casper_facilitator_missing_token_name"
    ∷ "invalid_exact_casper_facilitator_missing_token_version"
    ∷ "invalid_exact_casper_facilitator_network_mismatch"
    ∷ "invalid_exact_casper_facilitator_non_canonical_signature"
    ∷ "invalid_exact_casper_facilitator_not_yet_valid"
    ∷ "invalid_exact_casper_facilitator_payto_mismatch"
    ∷ "invalid_exact_casper_facilitator_publickey_mismatch"
    ∷ "invalid_exact_casper_facilitator_settle_failed"
    ∷ "invalid_exact_casper_facilitator_speculative_execution_failed"
    ∷ "invalid_exact_casper_facilitator_unsupported_asset" ∷ []

-- The facilitator of Algorand
abbrev pub avm_codes : List String
avm_codes =
    "invalid_exact_avm_amount_mismatch" ∷ "invalid_exact_avm_asset_mismatch"
    ∷ "invalid_exact_avm_confirmation_failed" ∷ "invalid_exact_avm_facilitator_transferring"
    ∷ "invalid_exact_avm_fee_too_high" ∷ "invalid_exact_avm_group_size_exceeded"
    ∷ "invalid_exact_avm_invalid_fee_payer" ∷ "invalid_exact_avm_invalid_group_id"
    ∷ "invalid_exact_avm_invalid_signature" ∷ "invalid_exact_avm_invalid_transaction"
    ∷ "invalid_exact_avm_invalid_version" ∷ "invalid_exact_avm_network_mismatch"
    ∷ "invalid_exact_avm_not_asset_transfer" ∷ "invalid_exact_avm_payload"
    ∷ "invalid_exact_avm_payment_index" ∷ "invalid_exact_avm_payment_not_signed"
    ∷ "invalid_exact_avm_receiver_mismatch" ∷ "invalid_exact_avm_scheme"
    ∷ "invalid_exact_avm_settlement_failed" ∷ "invalid_exact_avm_simulation_failed"
    ∷ "invalid_exact_avm_unsigned_non_facilitator" ∷ []

-- The constants of Cardano
abbrev pub cardano_codes : List String
cardano_codes =
    "exact_cardano_facilitator_chain_lookup_failed"
    ∷ "exact_cardano_facilitator_evidence_unavailable"
    ∷ "exact_cardano_facilitator_input_value_unavailable"
    ∷ "exact_cardano_settlement_definitively_rejected" ∷ "exact_cardano_settlement_failed"
    ∷ "exact_cardano_settlement_not_confirmed" ∷ "invalid_exact_cardano_payload"
    ∷ "invalid_exact_cardano_payload_amount_insufficient"
    ∷ "invalid_exact_cardano_payload_asset_mismatch"
    ∷ "invalid_exact_cardano_payload_fee_below_minimum"
    ∷ "invalid_exact_cardano_payload_input_not_available"
    ∷ "invalid_exact_cardano_payload_invalid_signature"
    ∷ "invalid_exact_cardano_payload_masumi_asset"
    ∷ "invalid_exact_cardano_payload_masumi_collateral"
    ∷ "invalid_exact_cardano_payload_masumi_contract_mismatch"
    ∷ "invalid_exact_cardano_payload_masumi_datum_invalid"
    ∷ "invalid_exact_cardano_payload_masumi_datum_mismatch"
    ∷ "invalid_exact_cardano_payload_masumi_datum_missing"
    ∷ "invalid_exact_cardano_payload_masumi_deadline"
    ∷ "invalid_exact_cardano_payload_masumi_escrow_output_count"
    ∷ "invalid_exact_cardano_payload_masumi_min_utxo"
    ∷ "invalid_exact_cardano_payload_masumi_reference_script"
    ∷ "invalid_exact_cardano_payload_min_utxo_insufficient"
    ∷ "invalid_exact_cardano_payload_network_id_mismatch"
    ∷ "invalid_exact_cardano_payload_nonce_invalid"
    ∷ "invalid_exact_cardano_payload_nonce_not_in_inputs"
    ∷ "invalid_exact_cardano_payload_nonce_not_on_chain"
    ∷ "invalid_exact_cardano_payload_not_yet_valid" ∷ "invalid_exact_cardano_payload_phase1_invalid"
    ∷ "invalid_exact_cardano_payload_phase2_invalid"
    ∷ "invalid_exact_cardano_payload_recipient_mismatch"
    ∷ "invalid_exact_cardano_payload_script_address_mismatch"
    ∷ "invalid_exact_cardano_payload_transaction_decode_failed"
    ∷ "invalid_exact_cardano_payload_ttl_expired" ∷ "invalid_exact_cardano_payload_ttl_too_far"
    ∷ "invalid_exact_cardano_payload_unsigned" ∷ "invalid_exact_cardano_payload_value_not_conserved"
    ∷ "invalid_exact_cardano_requirements"
    ∷ "invalid_exact_cardano_requirements_masumi_agent_identifier"
    ∷ "invalid_exact_cardano_requirements_masumi_commitment"
    ∷ "invalid_exact_cardano_requirements_masumi_deployment"
    ∷ "invalid_exact_cardano_requirements_masumi_identifier"
    ∷ "invalid_exact_cardano_requirements_masumi_schema"
    ∷ "invalid_exact_cardano_requirements_masumi_seller_signature"
    ∷ "invalid_exact_cardano_requirements_policy" ∷ "masumi_terms_mismatch" ∷ "masumi_terms_unknown"
    ∷ []
