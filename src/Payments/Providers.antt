-- ===== src/Payments/Providers.antt =====
-- What src/api/src/modules/payments/providers make of a notification and of a search. Their calls over the
-- network are arguments: the record of a provider's interface, and the outcome of a signature's check.
use iron_loot.Common.{
  ℕ, Bool, true, false, Option, none, some, List, [], ◌∷◌, if◌then◌else◌, ℤ, select,
}
use iron_loot.Exec.{Result, ok, err, ⊤, forbidden, validation}
use iron_loot.Payments.Rows.{WebhookStatus, WebhookResult}

abbrev or_empty : Option ℕ → ℕ
or_empty none = 0
or_empty (some r) = r

-- A payment of Mercado Pago. The empty reference is 0.
pub record MpPayment : Type 0 where
  pub id : ℕ
  pub external_reference : Option ℕ
  pub is_approved : Bool
  pub transaction_amount : Option ℤ

pub data NotificationFormat : Type 0 where
  webhook ipn : NotificationFormat

pub data ResourceType : Type 0 where
  payment order merchant_order unsubscribed : ResourceType

pub record NotificationEnvelope : Type 0 where
  pub format : NotificationFormat
  pub resource_type : ResourceType
  pub resource_id : ℕ

-- The query and the type of a notification's body.
pub record Notification : Type 0 where
  pub data_id : Option ℕ
  pub body_type : Option ResourceType
  pub topic : Option ResourceType
  pub id : Option ℕ

-- The requests to Mercado Pago's interface, each of which may find nothing.
pub record MpApi : Type 0 where
  pub payment : ℕ → Option MpPayment
  pub order_reference : ℕ → Option ℕ
  pub merchant_order_reference : ℕ → Option ℕ
  pub search : ℕ → List MpPayment

abbrev type_or_payment : Option ResourceType → ResourceType
type_or_payment none = ResourceType.payment
type_or_payment (some t) = t

abbrev ipn_envelope : Option ResourceType → Option ℕ → Option NotificationEnvelope
ipn_envelope (some t) (some k) =
    some (record { format = NotificationFormat.ipn; resource_type = t; resource_id = k })
ipn_envelope none k = none
ipn_envelope (some t) none = none

unfoldable pub normalize_notification : Notification → Option NotificationEnvelope
normalize_notification n = elim n.data_id [
  | some k ↦ some (record {
    format = NotificationFormat.webhook;
    resource_type = type_or_payment n.body_type;
    resource_id = k;
  })
  | none ↦ ipn_envelope n.topic n.id
]

-- One approved payment, none, or an anomaly.
abbrev pub only_one : List MpPayment → Result (Option MpPayment)
only_one [] = ok none
only_one (p ∷ []) = ok (some p)
only_one (p ∷ q ∷ ps) = err validation

-- A payment that is not approved, whatever became of it, is said to be pending.
abbrev pub mp_status : Bool → WebhookStatus
mp_status true = WebhookStatus.completed
mp_status false = WebhookStatus.pending

abbrev pub mp_result : MpPayment → WebhookResult
mp_result p = record {
  payment_id = p.id;
  external_id = or_empty p.external_reference;
  status = mp_status p.is_approved;
  amount = p.transaction_amount;
}

abbrev pub result_of :
    {A : Type 0} → (A → WebhookResult) → Result (Option A) → Result (Option WebhookResult)
result_of f (ok none) = ok none
result_of f (ok (some p)) = ok (some (f p))
result_of f (err e) = err e

module _ (api : MpApi) where
  unfoldable pub find_approved_by_reference : ℕ → Result (Option MpPayment)
  find_approved_by_reference reference =
      only_one (select (λ p. p.is_approved) (api.search reference))

  abbrev of_reference : Option ℕ → Result (Option MpPayment)
  of_reference none = ok none
  of_reference (some r) = find_approved_by_reference r

  unfoldable pub resolve_canonical_payment : NotificationEnvelope → Result (Option MpPayment)
  resolve_canonical_payment env = elim env.resource_type [
    | ResourceType.payment ↦ ok (api.payment env.resource_id)
    | ResourceType.order ↦ of_reference (api.order_reference env.resource_id)
    | ResourceType.merchant_order ↦ of_reference (api.merchant_order_reference env.resource_id)
    | ResourceType.unsubscribed ↦ ok none
  ]

  abbrev signed : Bool → NotificationEnvelope → Result (Option MpPayment)
  signed valid env = elim env.format [
    | NotificationFormat.webhook ↦ if valid then resolve_canonical_payment env else err forbidden
    | NotificationFormat.ipn ↦ resolve_canonical_payment env
  ]

  -- The signature is checked of the one format that has a valid one.
  unfoldable pub mp_handle_webhook : Bool → Notification → Result (Option WebhookResult)
  mp_handle_webhook valid n = elim (normalize_notification n) [
    | none ↦ err forbidden
    | some env ↦ result_of mp_result (signed valid env)
  ]

  abbrev pub found_result : ℕ → MpPayment → WebhookResult
  found_result reference p = record {
    payment_id = p.id;
    external_id = elim p.external_reference [ none ↦ reference | some r ↦ r ];
    status = WebhookStatus.completed;
    amount = p.transaction_amount;
  }

  unfoldable pub mp_find_payment : ℕ → Result (Option WebhookResult)
  mp_find_payment reference =
      result_of (found_result reference) (find_approved_by_reference reference)

-- A completed session of Stripe. `client_reference_id` is the deposit's reference.
pub record StripeSession : Type 0 where
  pub id : ℕ
  pub client_reference_id : ℕ
  pub amount_total : Option ℤ

unfoldable pub stripe_handle_webhook : Bool → StripeSession → Option WebhookResult
stripe_handle_webhook completed session =
    if completed
    then some (record {
      payment_id = session.client_reference_id;
      external_id = session.id;
      status = WebhookStatus.completed;
      amount = session.amount_total;
    })
    else none

-- A completed payment of Hey Banco. `reference` is the deposit's.
pub record HeyBancoPayment : Type 0 where
  pub id : ℕ
  pub reference : ℕ
  pub amount : Option ℤ

unfoldable pub hey_banco_handle_webhook :
    Bool → Bool → Option HeyBancoPayment → Result (Option WebhookResult)
hey_banco_handle_webhook valid completed none = if valid then ok none else err forbidden
hey_banco_handle_webhook valid completed (some p) =
    if valid
    then if completed
      then ok (
          some (record {
            payment_id = p.reference;
            external_id = p.id;
            status = WebhookStatus.completed;
            amount = p.amount;
          }))
      else ok none
    else err forbidden

-- The events of PayPal that are subscribed, and any other.
pub data PaypalEvent : Type 0 where
  order_approved : ℕ → PaypalEvent
  capture_completed : ℕ → Option ℕ → Option ℤ → PaypalEvent
  unsubscribed : PaypalEvent

-- The signature is checked first. `capture` is the capture of an approved order, which may throw.
unfoldable pub paypal_handle_webhook :
    Bool → (ℕ → Result ⊤) → PaypalEvent → Result (Option WebhookResult)
paypal_handle_webhook valid capture (order_approved k) =
    if valid then elim (capture k) [ ok _ ↦ ok none | err e ↦ err e ] else err forbidden
paypal_handle_webhook valid capture (capture_completed k reference amount) =
    if valid
    then ok (
        some (record {
          payment_id = k;
          external_id = or_empty reference;
          status = WebhookStatus.completed;
          amount = amount;
        }))
    else err forbidden
paypal_handle_webhook valid capture unsubscribed = if valid then ok none else err forbidden

pub data PaypalStatus : Type 0 where
  approved completed other : PaypalStatus

pub record PaypalCapture : Type 0 where
  pub id : ℕ
  pub amount : Option ℤ

pub record PaypalOrder : Type 0 where
  pub id : ℕ
  pub status : PaypalStatus
  pub custom_id : Option ℕ
  pub capture : Option PaypalCapture

abbrev paypal_result : ℕ → PaypalOrder → WebhookResult
paypal_result reference o = record {
  payment_id = elim o.capture [ none ↦ o.id | some c ↦ c.id ];
  external_id = elim o.custom_id [ none ↦ reference | some r ↦ r ];
  status = WebhookStatus.completed;
  amount = elim o.capture [ none ↦ none | some c ↦ c.amount ];
}

abbrev if_completed : ℕ → PaypalOrder → Option WebhookResult
if_completed reference o = elim o.status [
  | PaypalStatus.completed ↦ some (paypal_result reference o)
  | _ ↦ none
]

-- An order that is approved is captured first. Whatever throws, nothing is found.
unfoldable pub paypal_find_payment :
    (ℕ → Result PaypalOrder) → (ℕ → Result PaypalOrder) → ℕ → Option ℕ → Option WebhookResult
paypal_find_payment get capture reference none = none
paypal_find_payment get capture reference (some k) = elim (get k) [
  | err e ↦ none
  | ok o ↦ elim o.status [
    | PaypalStatus.approved ↦ elim (capture k) [ err e ↦ none | ok c ↦ if_completed reference c ]
    | _ ↦ if_completed reference o
  ]
]
