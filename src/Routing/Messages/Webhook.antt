-- ===== src/Routing/Messages/Webhook.antt =====
-- internal/routing/webhook.go.
use changelogue.Prelude.{Option, none, some, Bytes, ℕ}
use changelogue.Exec.{Result, err, external}
use changelogue.Models.{Notification}
use changelogue.Routing.Messages.{
  ReportFields, Formatter, link_text, todo_text, todo_acknowledge_url, todo_resolve_url, report_of,
  delivered,
}

pub record WebhookReport : Type 0 where
  pub title : Bytes
  pub version : Bytes
  pub project_name : Bytes
  pub provider : Bytes
  pub repository : Bytes
  pub release_url : Bytes
  pub source_url : Bytes
  pub report : ReportFields
  pub acknowledge_url : Bytes
  pub resolve_url : Bytes

-- The report in its parts, or the notification as it is.
pub data WebhookPayload : Type 0 where
  structured : WebhookReport → WebhookPayload
  as_it_is : Notification → WebhookPayload

abbrev pub webhook_payload : Formatter → Notification → Option ReportFields → WebhookPayload
webhook_payload format msg none = as_it_is msg
webhook_payload format msg (some report) = structured (record {
  title = msg.title;
  version = msg.version;
  project_name = msg.project_name;
  provider = msg.provider;
  repository = msg.repository;
  release_url = link_text format msg.release_url;
  source_url = msg.source_url;
  report = report;
  acknowledge_url = todo_acknowledge_url msg.public_url (todo_text format msg.todo_id);
  resolve_url = todo_resolve_url msg.public_url (todo_text format msg.todo_id);
})

-- `cfg` is the URL of the channel, `none` where its configuration does not parse.
unfoldable pub send_to_webhook :
    Formatter
    → (Bytes → WebhookPayload → Option ℕ)
    → Option Bytes
    → Notification
    → Result (Unit {0})
unfolding report_of todo_acknowledge_url todo_resolve_url
send_to_webhook format post none msg = err external
send_to_webhook format post (some url) msg =
    delivered (post url (webhook_payload format msg (report_of format msg)))
