-- ===== src/Webhooks.antt =====
-- app/api/webhooks.py: the endpoints of a tenant, and the deliveries to them. HMAC-SHA256, the JSON
-- encoding, the fresh secret and what the HTTP client makes of a request are parameters.

pub mod Delivery
pub mod Endpoints
mod Tests
use backupos.Base.{
  ℕ, ◌+◌, ◌-◌, Bool, false, ◌&&◌, Option, none, some, List, [], ◌∷◌, ◌++◌, Bytes, codes, nat_eq,
  ltb, leb, ◌==◌, length, take, drop, if◌then◌else◌,
}
use backupos.Http.{Response, answer, failed_with, not_found}

pub record WebhookEndpoint : Type 0 where
  pub id : ℕ
  pub tenant_id : ℕ
  pub url : Bytes
  pub secret : Bytes
  pub description : Option Bytes
  pub is_active : Bool
  pub created_at : ℕ

pub record WebhookDelivery : Type 0 where
  pub endpoint_id : ℕ
  pub event_type : Bytes
  pub payload_json : Bytes
  pub signature : Bytes
  pub http_status : Option ℕ
  pub success : Bool
  pub error_message : Option Bytes
  pub delivered_at : ℕ

pub record Tables : Type 0 where
  pub endpoints : List WebhookEndpoint
  pub deliveries : List WebhookDelivery
  pub next_endpoint_id : ℕ

-- What `client.post` gives: a response with a status, or an exception with its text.
pub data Reply : Type 0 where
  responded : ℕ → Reply
  raised : Bytes → Reply

-- The secret is left out of the answer, but for its last four characters.
pub record WebhookResponse : Type 0 where
  pub id : ℕ
  pub tenant_id : ℕ
  pub url : Bytes
  pub description : Option Bytes
  pub is_active : Bool
  pub created_at : ℕ
  pub secret_hint : Bytes

unfoldable pub response_of : WebhookEndpoint → WebhookResponse
response_of ep = record {
  id = ep.id;
  tenant_id = ep.tenant_id;
  url = ep.url;
  description = ep.description;
  is_active = ep.is_active;
  created_at = ep.created_at;
  secret_hint = drop (length ep.secret - 4) ep.secret;
}

-- `200 <= resp.status_code < 300`
abbrev pub is_success : Reply → Bool
is_success (responded status) = leb 200 status && ltb status 300
is_success (raised text) = false

abbrev pub status_of : Reply → Option ℕ
status_of (responded status) = some status
status_of (raised text) = none

abbrev pub error_of : Reply → Option Bytes
error_of (responded status) = none
error_of (raised text) = some (take 512 text)

-- What the module calls. `encode` is `json.dumps` of the event, its data and the time.
pub record WebhookEnv : Type 1 where
  pub Payload : Type 0
  pub encode : Bytes → Payload → ℕ → Bytes
  pub hmac_sha256 : Bytes → Bytes → Bytes
  pub post : Bytes → Bytes → Bytes → Reply

module _ (env : WebhookEnv) where
  open env use {Payload, encode, hmac_sha256, post}

  -- `_sign`
  unfoldable pub sign : Bytes → Bytes → Bytes
  sign secret body = codes "sha256=" ++ hmac_sha256 secret body

  -- The row that `_deliver` adds, at a time.
  unfoldable pub delivery_of : ℕ → WebhookEndpoint → Bytes → Payload → WebhookDelivery
  delivery_of now endpoint event_type payload =
      let body = encode event_type payload now in
      let signature = sign endpoint.secret body in
      let reply = post endpoint.url body signature in
      record {
        endpoint_id = endpoint.id;
        event_type = event_type;
        payload_json = body;
        signature = signature;
        http_status = status_of reply;
        success = is_success reply;
        error_message = error_of reply;
        delivered_at = now;
      }

  -- `_deliver`
  unfoldable pub deliver : ℕ → WebhookEndpoint → Bytes → Payload → Tables → WebhookDelivery × Tables
  deliver now endpoint event_type payload db =
      let delivery = delivery_of now endpoint event_type payload in
      (delivery, record db { deliveries = db.deliveries ++ delivery ∷ [] })

  -- The loop of `deliver_event`, with the readings of the clock from number `i` on.
  unfoldable pub deliver_all :
      (ℕ → ℕ) → ℕ → List WebhookEndpoint → Bytes → Payload → Tables → List WebhookDelivery × Tables
  deliver_all clock i [] event_type payload db = ([], db)
  deliver_all clock i (ep ∷ endpoints) event_type payload db =
      let (d, after) = deliver (clock i) ep event_type payload db in
      let (rest, final) = deliver_all clock (i + 1) endpoints event_type payload after in
      (d ∷ rest, final)

-- `.where(tenant_id == …, is_active.is_(True))`
unfoldable pub active_of : ℕ → List WebhookEndpoint → List WebhookEndpoint
active_of tenant_id [] = []
active_of tenant_id (ep ∷ endpoints) =
    let rest = active_of tenant_id endpoints in
    if ep.tenant_id == tenant_id && ep.is_active then ep ∷ rest else rest

-- `_get_owned`
unfoldable pub get_owned : ℕ → ℕ → List WebhookEndpoint → Option WebhookEndpoint
get_owned webhook_id tenant_id [] = none
get_owned webhook_id tenant_id (ep ∷ endpoints) =
    if ep.id == webhook_id && ep.tenant_id == tenant_id
    then some ep
    else get_owned webhook_id tenant_id endpoints

module _ (env : WebhookEnv) where
  open env use {Payload}

  unfoldable pub deliver_event :
      (ℕ → ℕ) → ℕ → Bytes → Payload → Tables → List WebhookDelivery × Tables
  deliver_event clock tenant_id event_type payload db =
      deliver_all env clock 0 (active_of tenant_id db.endpoints) event_type payload db

  -- The endpoint need not be active.
  unfoldable pub manual_deliver :
      ℕ → ℕ → ℕ → Bytes → Payload → Tables → Response (List WebhookDelivery) × Tables
  manual_deliver now tenant_id endpoint_id event_type payload db =
      elim (get_owned endpoint_id tenant_id db.endpoints) [
        | none ↦ (failed_with not_found, db)
        | some ep ↦
            let (delivery, after) = deliver env now ep event_type payload db in
            (answer (delivery ∷ []), after)
      ]
