-- ===== src/Webhooks/Endpoints.antt =====
-- app/api/webhooks.py: creating, listing and deleting the endpoints of a tenant, and listing their
-- deliveries.
use backupos.Base.{
  ℕ, ◌+◌, Bool, Option, none, some, List, [], ◌∷◌, ◌++◌, Bytes, nat_eq, ltb, ◌==◌, take,
  if◌then◌else◌,
}
use backupos.Http.{Response, answer, failed_with, not_found}
use backupos.Webhooks.{
  WebhookEndpoint, WebhookDelivery, Tables, WebhookResponse, response_of, get_owned,
}

unfoldable pub new_endpoint : ℕ → ℕ → Bytes → ℕ → Bytes → Option Bytes → Bool → WebhookEndpoint
new_endpoint webhook_id now secret tenant_id url description is_active = record {
  id = webhook_id;
  tenant_id = tenant_id;
  url = url;
  secret = secret;
  description = description;
  is_active = is_active;
  created_at = now;
}

-- `secret` is that of `secrets.token_hex(32)`.
unfoldable pub create_webhook :
    ℕ → Bytes → ℕ → Bytes → Option Bytes → Bool → Tables → Response WebhookResponse × Tables
create_webhook now secret tenant_id url description is_active db =
    let ep = new_endpoint db.next_endpoint_id now secret tenant_id url description is_active in
    (
      answer (response_of ep),
      record db { endpoints = db.endpoints ++ ep ∷ []; next_endpoint_id = db.next_endpoint_id + 1 },
    )

-- `.order_by(WebhookEndpoint.created_at.desc())`
unfoldable pub insert_endpoint : WebhookEndpoint → List WebhookEndpoint → List WebhookEndpoint
insert_endpoint ep [] = ep ∷ []
insert_endpoint ep (e ∷ endpoints) =
    let rest = insert_endpoint ep endpoints in
    if ltb ep.created_at e.created_at then e ∷ rest else ep ∷ e ∷ endpoints

unfoldable pub endpoints_of : ℕ → List WebhookEndpoint → List WebhookEndpoint
endpoints_of tenant_id [] = []
endpoints_of tenant_id (ep ∷ endpoints) =
    let rest = endpoints_of tenant_id endpoints in
    if ep.tenant_id == tenant_id then insert_endpoint ep rest else rest

unfoldable pub responses_of : List WebhookEndpoint → List WebhookResponse
responses_of [] = []
responses_of (ep ∷ endpoints) = response_of ep ∷ responses_of endpoints

unfoldable pub list_webhooks : ℕ → Tables → Response (List WebhookResponse)
list_webhooks tenant_id db = answer (responses_of (endpoints_of tenant_id db.endpoints))

unfoldable pub get_webhook : ℕ → ℕ → Tables → Response WebhookResponse
get_webhook tenant_id webhook_id db = elim (get_owned webhook_id tenant_id db.endpoints) [
  | none ↦ failed_with not_found
  | some ep ↦ answer (response_of ep)
]

unfoldable pub drop_endpoint : ℕ → List WebhookEndpoint → List WebhookEndpoint
drop_endpoint webhook_id [] = []
drop_endpoint webhook_id (ep ∷ endpoints) =
    let rest = drop_endpoint webhook_id endpoints in if ep.id == webhook_id then rest else ep ∷ rest

-- The cascade of the delete.
unfoldable pub drop_deliveries : ℕ → List WebhookDelivery → List WebhookDelivery
drop_deliveries webhook_id [] = []
drop_deliveries webhook_id (d ∷ deliveries) =
    let rest = drop_deliveries webhook_id deliveries in
    if d.endpoint_id == webhook_id then rest else d ∷ rest

unfoldable pub delete_webhook : ℕ → ℕ → Tables → Response (Unit {0}) × Tables
delete_webhook tenant_id webhook_id db = elim (get_owned webhook_id tenant_id db.endpoints) [
  | none ↦ (failed_with not_found, db)
  | some ep ↦ (
    answer tt,
    record db {
      endpoints = drop_endpoint ep.id db.endpoints;
      deliveries = drop_deliveries ep.id db.deliveries;
    },
  )
]

-- `.order_by(WebhookDelivery.delivered_at.desc())`
unfoldable pub insert_delivery : WebhookDelivery → List WebhookDelivery → List WebhookDelivery
insert_delivery d [] = d ∷ []
insert_delivery d (e ∷ deliveries) =
    let rest = insert_delivery d deliveries in
    if ltb d.delivered_at e.delivered_at then e ∷ rest else d ∷ e ∷ deliveries

unfoldable pub deliveries_of : ℕ → List WebhookDelivery → List WebhookDelivery
deliveries_of endpoint_id [] = []
deliveries_of endpoint_id (d ∷ deliveries) =
    let rest = deliveries_of endpoint_id deliveries in
    if d.endpoint_id == endpoint_id then insert_delivery d rest else rest

unfoldable pub list_deliveries : ℕ → ℕ → Tables → Response (List WebhookDelivery)
list_deliveries tenant_id webhook_id db = elim (get_owned webhook_id tenant_id db.endpoints) [
  | none ↦ failed_with not_found
  | some ep ↦ answer (take 100 (deliveries_of ep.id db.deliveries))
]
