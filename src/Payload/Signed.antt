-- ===== src/Payload/Signed.antt =====
-- What a built payment promises.
use x402_conformance.Prelude.{ℕ, String, ◌≡◌, refl, subst, Option, some, ◌&&◌}
use x402_conformance.Prelude.Int.{ℤ}
use x402_conformance.Json.{Json, Fields, get, is_truthy}
use x402_conformance.Models.{check}
use x402_conformance.Models.Laws.{>>=-eq-some}
use x402_conformance.Payload.{
  PaymentPayload, Library, build_exact_eip3009_payload, sign_authorization, str_of, extra_of,
  chain_id_from_caip2, before_of, after_of, authorization_of, decimal_int,
}

module _ (lib : Library) where
  -- A payment for an offer: it carries the offer, the recipient and the amount of the offer, and a
  -- signature of exactly its authorization under the offer's domain.
  pub record PaysFor (offer : Fields) (payload : PaymentPayload) : Type 0 where
    pub version_two : payload.x402_version ≡ 2
    pub accepts_offer : payload.accepted ≡ offer
    pub from_signer : payload.authorization.from ≡ lib.address
    pub to_recipient : get offer "payTo" ≡ some payload.authorization.to
    pub amount : Json
    pub has_amount : get offer "amount" ≡ some amount
    pub pays_amount : payload.authorization.value ≡ str_of lib amount
    pub signed : sign_authorization lib offer payload.authorization ≡ some payload.signature

  -- The payment is valid from the given time on, or else from 0, and until the given time, or else
  -- until the offer's time from now on is over.
  abbrev pub Timed : Fields → Option ℤ → Option ℤ → ℕ → PaymentPayload → Type 0
  Timed offer valid_after valid_before now payload =
      (payload.authorization.valid_after ≡ decimal_int (after_of lib valid_after))
      × ((before : ℤ) × (before_of lib offer valid_before now ≡ some before)
          × (payload.authorization.valid_before ≡ decimal_int before))

  pub build-PaysFor :
      (offer : Fields) (url : Option String) (extensions : Fields)
      (valid_after valid_before : Option ℤ) (now : ℕ) (nonce : String) (payload : PaymentPayload)
      → build_exact_eip3009_payload lib offer url extensions valid_after valid_before now nonce
        ≡ some payload
      → PaysFor offer payload
        × (payload.authorization.nonce ≡ nonce)
        × (payload.extensions ≡ extensions)
        × (payload.resource ≡ url)
        × Timed offer valid_after valid_before now payload
  unfolding build_exact_eip3009_payload
  build-PaysFor offer url extensions valid_after valid_before now nonce payload h =
      let (extra, e₁, h₁) = >>=-eq-some _ (extra_of lib (get offer "extra")) h in
      let (u, e₂, h₂) =
        >>=-eq-some _ (check (is_truthy (get extra "name") && is_truthy (get extra "version")))
          h₁ in
      let (network, e₃, h₃) = >>=-eq-some _ (get offer "network") h₂ in
      let (chain, e₄, h₄) = >>=-eq-some _ (chain_id_from_caip2 lib network) h₃ in
      let (before, e₅, h₅) = >>=-eq-some _ (before_of lib offer valid_before now) h₄ in
      let (to, e₆, h₆) = >>=-eq-some _ (get offer "payTo") h₅ in
      let (amount, e₇, h₇) = >>=-eq-some _ (get offer "amount") h₆ in
      let (signature, e₈, h₈) =
        >>=-eq-some _
          (sign_authorization lib offer (authorization_of lib valid_after before to amount nonce))
          h₇ in
      let same : record {
        x402_version = 2;
        accepted = offer;
        signature = signature;
        authorization = authorization_of lib valid_after before to amount nonce;
        extensions = extensions;
        resource = url;
      }
          ≡ payload =
        cc h₈ in
      subst
        (λ p.
          PaysFor offer p
          × (p.authorization.nonce ≡ nonce)
          × (p.extensions ≡ extensions)
          × (p.resource ≡ url)
          × Timed offer valid_after valid_before now p)
        same
        (
          record {
            version_two = refl;
            accepts_offer = refl;
            from_signer = refl;
            to_recipient = e₆;
            amount = amount;
            has_amount = e₇;
            pays_amount = refl;
            signed = e₈;
          },
          refl,
          refl,
          refl,
          (refl, (before, e₅, refl)),
        )
