-- ===== src/Webhooks/Delivery.antt =====
-- What an event leaves behind.
use backupos.Base.{
  ℕ, ◌≤◌, ◌<◌, ◌≡◌, ◌↔◌, true, Option, none, some, List, [], ◌∷◌, ◌++◌, Bytes, codes, nat_eq,
}
use backupos.Webhooks.{WebhookEndpoint, WebhookDelivery, WebhookEnv}

-- A 2xx status.
abbrev pub IsOk : Option ℕ → Type 0
IsOk none = ⊥
IsOk (some status) = (200 ≤ status) × (status < 300)

module _ (env : WebhookEnv) where
  open env use {Payload, hmac_sha256}

  -- The row of an endpoint, with the signature of what was sent by the secret of that endpoint.
  pub record IsDelivery (event_type : Bytes) (ep : WebhookEndpoint) (d : WebhookDelivery)
      : Type 0 where
    pub endpoint : d.endpoint_id ≡ ep.id
    pub event : d.event_type ≡ event_type
    pub signed : d.signature ≡ codes "sha256=" ++ hmac_sha256 ep.secret d.payload_json
    pub ok : (d.success ≡ true) ↔ IsOk d.http_status

  abbrev pub IsActiveOf : ℕ → WebhookEndpoint → Type 0
  IsActiveOf tenant_id ep = (ep.tenant_id ≡ tenant_id) × (ep.is_active ≡ true)

  -- Rows for the endpoints of a table that are active and the tenant's, in the table's order, and
  -- for no others.
  pub data Delivered (tenant_id : ℕ) (event_type : Bytes)
      : List WebhookEndpoint → List WebhookDelivery → Type 0 where
    none_left : Delivered tenant_id event_type [] []
    sent_to :
        (ep : WebhookEndpoint) (d : WebhookDelivery) (endpoints : List WebhookEndpoint)
        (deliveries : List WebhookDelivery)
        → IsActiveOf tenant_id ep
        → IsDelivery event_type ep d
        → Delivered tenant_id event_type endpoints deliveries
        → Delivered tenant_id event_type (ep ∷ endpoints) (d ∷ deliveries)
    passed_over :
        (ep : WebhookEndpoint) (endpoints : List WebhookEndpoint)
        (deliveries : List WebhookDelivery)
        → ¬ (IsActiveOf tenant_id ep)
        → Delivered tenant_id event_type endpoints deliveries
        → Delivered tenant_id event_type (ep ∷ endpoints) deliveries
