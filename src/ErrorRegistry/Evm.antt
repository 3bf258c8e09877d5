-- ===== src/ErrorRegistry/Evm.antt =====
-- error_registry.py: the codes that the upstream packages declare, by the files that declare them.
use x402_conformance.Prelude.{String, List, [], ◌∷◌}

-- The facilitator of auth-capture on EVM networks
abbrev pub auth_capture_codes : List String
auth_capture_codes =
    "invalid_auth_capture_evm_amount_mismatch" ∷ "invalid_auth_capture_evm_amount_overflow"
    ∷ "invalid_auth_capture_evm_authorization_expired"
    ∷ "invalid_auth_capture_evm_authorization_not_yet_valid"
    ∷ "invalid_auth_capture_evm_authorizer_signature"
    ∷ "invalid_auth_capture_evm_capture_deadline_expired" ∷ "invalid_auth_capture_evm_collector"
    ∷ "invalid_auth_capture_evm_deadline_ordering"
    ∷ "invalid_auth_capture_evm_erc6492_factory_not_allowed" ∷ "invalid_auth_capture_evm_extra"
    ∷ "invalid_auth_capture_evm_fee_bps" ∷ "invalid_auth_capture_evm_fee_bps_out_of_range"
    ∷ "invalid_auth_capture_evm_fee_bps_range" ∷ "invalid_auth_capture_evm_fee_receiver"
    ∷ "invalid_auth_capture_evm_insufficient_authorization"
    ∷ "invalid_auth_capture_evm_insufficient_balance"
    ∷ "invalid_auth_capture_evm_lifecycle_not_relayed"
    ∷ "invalid_auth_capture_evm_missing_receiver_authorizer"
    ∷ "invalid_auth_capture_evm_network_mismatch" ∷ "invalid_auth_capture_evm_nonce_mismatch"
    ∷ "invalid_auth_capture_evm_operator_mismatch"
    ∷ "invalid_auth_capture_evm_operator_not_admitted" ∷ "invalid_auth_capture_evm_payload_format"
    ∷ "invalid_auth_capture_evm_payload_method_mismatch" ∷ "invalid_auth_capture_evm_payload_type"
    ∷ "invalid_auth_capture_evm_payload_undeployed_smart_wallet"
    ∷ "invalid_auth_capture_evm_payment_already_collected"
    ∷ "invalid_auth_capture_evm_payment_info_mismatch" ∷ "invalid_auth_capture_evm_policy"
    ∷ "invalid_auth_capture_evm_refund_deadline_expired"
    ∷ "invalid_auth_capture_evm_refund_exceeds_capture"
    ∷ "invalid_auth_capture_evm_refund_funding_unavailable"
    ∷ "invalid_auth_capture_evm_salt_binding_mismatch" ∷ "invalid_auth_capture_evm_scheme"
    ∷ "invalid_auth_capture_evm_signature" ∷ "invalid_auth_capture_evm_simulation_failed"
    ∷ "invalid_auth_capture_evm_token_collection_failed"
    ∷ "invalid_auth_capture_evm_token_collector_mismatch"
    ∷ "invalid_auth_capture_evm_token_mismatch" ∷ "invalid_auth_capture_evm_transaction_reverted"
    ∷ "invalid_auth_capture_evm_unexpected_payment_state"
    ∷ "invalid_auth_capture_evm_unsupported_asset_transfer_method"
    ∷ "invalid_auth_capture_evm_unsupported_operator_type"
    ∷ "invalid_auth_capture_evm_unsupported_payment_flow"
    ∷ "invalid_auth_capture_evm_verification_failed"
    ∷ "invalid_auth_capture_evm_void_authorizer_signature"
    ∷ "invalid_auth_capture_evm_void_remainder_full_capture"
    ∷ "invalid_auth_capture_evm_zero_authorization" ∷ "invalid_auth_capture_evm_zero_fee_receiver"
    ∷ "invalid_network" ∷ "smart_wallet_deployment_failed" ∷ []

-- Batch settlement on EVM networks
abbrev pub batch_settlement_codes : List String
batch_settlement_codes =
    "invalid_batch_settlement_evm_channel_busy" ∷ "invalid_batch_settlement_evm_channel_id_invalid"
    ∷ "invalid_batch_settlement_evm_channel_id_mismatch"
    ∷ "invalid_batch_settlement_evm_charge_exceeds_signed_cumulative"
    ∷ "invalid_batch_settlement_evm_cumulative_amount_mismatch"
    ∷ "invalid_batch_settlement_evm_cumulative_below_claimed"
    ∷ "invalid_batch_settlement_evm_missing_channel"
    ∷ "invalid_batch_settlement_evm_refund_amount_exceeds_balance"
    ∷ "invalid_batch_settlement_evm_refund_amount_invalid"
    ∷ "invalid_batch_settlement_evm_refund_no_balance"
    ∷ "invalid_batch_settlement_evm_verification_state_unavailable"
    ∷ "invalid_batch_settlement_evm_authorizer_address_mismatch"
    ∷ "invalid_batch_settlement_evm_authorizer_not_configured"
    ∷ "invalid_batch_settlement_evm_channel_not_found"
    ∷ "invalid_batch_settlement_evm_channel_state_read_failed"
    ∷ "invalid_batch_settlement_evm_claim_payload"
    ∷ "invalid_batch_settlement_evm_claim_simulation_failed"
    ∷ "invalid_batch_settlement_evm_claim_transaction_failed"
    ∷ "invalid_batch_settlement_evm_cumulative_exceeds_balance"
    ∷ "invalid_batch_settlement_evm_deposit_payload"
    ∷ "invalid_batch_settlement_evm_deposit_simulation_failed"
    ∷ "invalid_batch_settlement_evm_deposit_transaction_failed"
    ∷ "invalid_batch_settlement_evm_eip2612_amount_mismatch"
    ∷ "invalid_batch_settlement_evm_eip2612_asset_mismatch"
    ∷ "invalid_batch_settlement_evm_eip2612_deadline_expired"
    ∷ "invalid_batch_settlement_evm_eip2612_invalid_format"
    ∷ "invalid_batch_settlement_evm_eip2612_invalid_signature"
    ∷ "invalid_batch_settlement_evm_eip2612_owner_mismatch"
    ∷ "invalid_batch_settlement_evm_eip2612_spender_mismatch"
    ∷ "invalid_batch_settlement_evm_eip6492_factory_not_allowed"
    ∷ "invalid_batch_settlement_evm_erc20_approval_asset_mismatch"
    ∷ "invalid_batch_settlement_evm_erc20_approval_broadcast_failed"
    ∷ "invalid_batch_settlement_evm_erc20_approval_from_mismatch"
    ∷ "invalid_batch_settlement_evm_erc20_approval_invalid_format"
    ∷ "invalid_batch_settlement_evm_erc20_approval_unavailable"
    ∷ "invalid_batch_settlement_evm_erc20_approval_wrong_spender"
    ∷ "invalid_batch_settlement_evm_erc3009_authorization_required"
    ∷ "invalid_batch_settlement_evm_insufficient_balance"
    ∷ "invalid_batch_settlement_evm_missing_eip712_domain"
    ∷ "invalid_batch_settlement_evm_network_mismatch"
    ∷ "invalid_batch_settlement_evm_nothing_to_settle"
    ∷ "invalid_batch_settlement_evm_payload_authorization_valid_after"
    ∷ "invalid_batch_settlement_evm_payload_authorization_valid_before"
    ∷ "invalid_batch_settlement_evm_payload_type"
    ∷ "invalid_batch_settlement_evm_permit2_allowance_required"
    ∷ "invalid_batch_settlement_evm_permit2_amount_mismatch"
    ∷ "invalid_batch_settlement_evm_permit2_authorization_required"
    ∷ "invalid_batch_settlement_evm_permit2_deadline_expired"
    ∷ "invalid_batch_settlement_evm_permit2_invalid_signature"
    ∷ "invalid_batch_settlement_evm_permit2_invalid_spender"
    ∷ "invalid_batch_settlement_evm_receive_authorization_signature"
    ∷ "invalid_batch_settlement_evm_receiver_authorizer_mismatch"
    ∷ "invalid_batch_settlement_evm_receiver_mismatch"
    ∷ "invalid_batch_settlement_evm_refund_payload"
    ∷ "invalid_batch_settlement_evm_refund_simulation_failed"
    ∷ "invalid_batch_settlement_evm_refund_transaction_failed"
    ∷ "invalid_batch_settlement_evm_rpc_read_failed" ∷ "invalid_batch_settlement_evm_scheme"
    ∷ "invalid_batch_settlement_evm_settle_payload"
    ∷ "invalid_batch_settlement_evm_settle_simulation_failed"
    ∷ "invalid_batch_settlement_evm_settle_transaction_failed"
    ∷ "invalid_batch_settlement_evm_smart_wallet_deployment_failed"
    ∷ "invalid_batch_settlement_evm_token_mismatch"
    ∷ "invalid_batch_settlement_evm_transaction_reverted"
    ∷ "invalid_batch_settlement_evm_unknown_settle_action"
    ∷ "invalid_batch_settlement_evm_voucher_payload"
    ∷ "invalid_batch_settlement_evm_voucher_signature"
    ∷ "invalid_batch_settlement_evm_wait_for_receipt_failed"
    ∷ "invalid_batch_settlement_evm_withdraw_delay_mismatch"
    ∷ "invalid_batch_settlement_evm_withdraw_delay_out_of_range" ∷ []

-- The exact scheme on EVM networks
abbrev pub exact_evm_codes : List String
exact_evm_codes =
    "invalid_exact_evm_payload_undeployed_smart_wallet" ∷ "asset_not_deployed_contract"
    ∷ "eip6492_factory_not_allowed" ∷ "erc20_approval_asset_mismatch"
    ∷ "erc20_approval_from_mismatch" ∷ "erc20_approval_spender_not_permit2"
    ∷ "erc20_approval_tx_invalid_signature" ∷ "erc20_approval_tx_parse_failed"
    ∷ "erc20_approval_tx_signer_mismatch" ∷ "erc20_approval_tx_wrong_selector"
    ∷ "erc20_approval_tx_wrong_spender" ∷ "erc20_approval_tx_wrong_target"
    ∷ "invalid_erc20_approval_extension_format" ∷ "invalid_exact_evm_authorization_value"
    ∷ "invalid_exact_evm_eip3009_not_supported" ∷ "invalid_exact_evm_failed_to_check_deployment"
    ∷ "invalid_exact_evm_failed_to_check_nonce" ∷ "invalid_exact_evm_failed_to_execute_transfer"
    ∷ "invalid_exact_evm_failed_to_get_balance" ∷ "invalid_exact_evm_failed_to_get_network_config"
    ∷ "invalid_exact_evm_failed_to_get_receipt" ∷ "invalid_exact_evm_failed_to_parse_signature"
    ∷ "invalid_exact_evm_failed_to_verify_signature" ∷ "invalid_exact_evm_insufficient_balance"
    ∷ "invalid_exact_evm_missing_eip712_domain" ∷ "invalid_exact_evm_network_mismatch"
    ∷ "invalid_exact_evm_nonce_already_used" ∷ "invalid_exact_evm_payload"
    ∷ "invalid_exact_evm_payload_authorization_valid_after"
    ∷ "invalid_exact_evm_payload_authorization_valid_before"
    ∷ "invalid_exact_evm_payload_authorization_value_mismatch"
    ∷ "invalid_exact_evm_payload_missing_signature" ∷ "invalid_exact_evm_recipient_mismatch"
    ∷ "invalid_exact_evm_required_amount" ∷ "invalid_exact_evm_scheme"
    ∷ "invalid_exact_evm_signature" ∷ "invalid_exact_evm_signature_format"
    ∷ "invalid_exact_evm_token_name_mismatch" ∷ "invalid_exact_evm_token_version_mismatch"
    ∷ "invalid_exact_evm_transaction_failed" ∷ "invalid_exact_evm_transaction_simulation_failed"
    ∷ "invalid_exact_evm_transfer_event_mismatch" ∷ "invalid_exact_evm_verification_failed"
    ∷ "unsupported_payload_type" ∷ "invalid_exact_evm_extra_field"
    ∷ "invalid_exact_evm_insufficient_funds" ∷ "invalid_exact_evm_payload_authorization_value"
    ∷ "invalid_exact_evm_payload_recipient_mismatch" ∷ "invalid_exact_evm_payload_signature"
    ∷ "invalid_exact_evm_transaction_state" ∷ "invalid_exact_evm_unsupported_scheme" ∷ []

-- Permit2
abbrev pub permit2_codes : List String
permit2_codes =
    "erc20_approval_broadcast_failed" ∷ "erc20_approval_insufficient_eth_for_gas"
    ∷ "erc20_approval_tx_failed" ∷ "invalid_permit2_recipient_mismatch"
    ∷ "invalid_permit2_signature" ∷ "invalid_permit2_spender" ∷ "permit2_2612_amount_mismatch"
    ∷ "permit2_allowance_required" ∷ "permit2_amount_mismatch" ∷ "permit2_deadline_expired"
    ∷ "permit2_insufficient_balance" ∷ "permit2_invalid_amount" ∷ "permit2_invalid_destination"
    ∷ "permit2_invalid_nonce" ∷ "permit2_invalid_owner" ∷ "permit2_not_yet_valid"
    ∷ "permit2_payment_too_early" ∷ "permit2_proxy_not_deployed" ∷ "permit2_simulation_failed"
    ∷ "permit2_token_mismatch" ∷ []

-- The upto scheme on EVM networks
abbrev pub upto_evm_codes : List String
upto_evm_codes =
    "invalid_upto_evm_failed_to_get_network_config" ∷ "invalid_upto_evm_failed_to_get_receipt"
    ∷ "invalid_upto_evm_network_mismatch" ∷ "invalid_upto_evm_payload"
    ∷ "invalid_upto_evm_payload_settlement_exceeds_amount" ∷ "invalid_upto_evm_required_amount"
    ∷ "invalid_upto_evm_scheme" ∷ "invalid_upto_evm_signature_format"
    ∷ "invalid_upto_evm_transaction_failed" ∷ "invalid_upto_evm_verification_failed"
    ∷ "upto_amount_exceeds_permitted" ∷ "upto_facilitator_mismatch"
    ∷ "upto_unauthorized_facilitator" ∷ []

-- The TypeScript package for EVM networks
abbrev pub typescript_evm_codes : List String
typescript_evm_codes =
    "eip2612_asset_mismatch" ∷ "eip2612_deadline_expired" ∷ "eip2612_from_mismatch"
    ∷ "eip2612_spender_not_permit2" ∷ "erc20_approval_tx_invalid_calldata"
    ∷ "invalid_eip2612_extension_format" ∷ "invalid_transaction_state" ∷ []
