-- ===== src/Webhooks/Tests.antt =====
-- Two endpoints of a tenant, of which one is active, and one of another.
use backupos.Base.{ℕ, ◌+◌, ◌≡◌, refl, true, false, none, some, Bool, [], ◌∷◌, ◌++◌, Bytes, codes}
use backupos.Webhooks.{
  WebhookEndpoint, Tables, responded, WebhookEnv, sign, delivery_of, deliver, deliver_all,
  active_of, deliver_event,
}

abbrev endpoint : ℕ → ℕ → Bool → WebhookEndpoint
endpoint n tenant_id is_active = record {
  id = n;
  tenant_id = tenant_id;
  url = codes "http://a";
  secret = n ∷ [];
  description = none;
  is_active = is_active;
  created_at = n;
}

abbrev tables : Tables
tables = record {
  endpoints = endpoint 1 6 true ∷ endpoint 2 6 false ∷ endpoint 3 7 true ∷ [];
  deliveries = [];
  next_endpoint_id = 4;
}

abbrev echo : WebhookEnv
echo = record {
  Payload = Bytes;
  encode = λ event payload now. event ++ payload;
  hmac_sha256 = λ secret body. secret ++ body;
  post = λ url body signature. responded 204;
}

abbrev clock : ℕ → ℕ
clock i = 100 + i

one_delivered :
    (deliver_event echo clock 6 (codes "e") (codes "p") tables).0
    ≡ record {
      endpoint_id = 1;
      event_type = codes "e";
      payload_json = codes "ep";
      signature = codes "sha256=" ++ (1 ∷ codes "ep");
      http_status = some 204;
      success = true;
      error_message = none;
      delivered_at = 100;
    }
      ∷ []
unfolding deliver_event deliver_all deliver delivery_of sign active_of
one_delivered = refl
